-- ===== src/AsyncLogger/Logger/Callers.antt =====
-- The calls of `log` of code/AsyncLogger/src/async_logger.cpp keep the books.
use unix_notes.Prelude.{
  ap₂, sum, ◌+◌, ◌≤◌, ◌<◌, ◌≡◌, refl, sym, ap, subst, ◌∙◌, inl, inr, List, [], ◌∷◌, ◌++◌, arith,
  length, length-append, ltb, Bool-cases, size_limit, append_assoc,
}
use unix_notes.AsyncLogger.Logger.{
  LogRecord, Producer, called, entered, trying, announced, refused, waiting, woken, placed, counted,
  returned, leaving, Logger,
}
use unix_notes.AsyncLogger.Logger.Steps.{flush, log_step}
use unix_notes.AsyncLogger.Logger.Written.{Taken}
use unix_notes.AsyncLogger.Logger.Books.{
  inside, announcing, placing, held, uncounted, Knows, Counted, Ordered,
}

-- No weight is above one.
pub sums_below :
    (producers : List Producer)
    → (sum inside producers ≤ length producers)
      × (sum announcing producers ≤ length producers)
      × (sum placing producers ≤ length producers)
sums_below [] = omega arith
sums_below (called r ∷ ps) = omega (arith, sums_below ps)
sums_below (entered r ∷ ps) = omega (arith, sums_below ps)
sums_below (trying r ∷ ps) = omega (arith, sums_below ps)
sums_below (announced r ∷ ps) = omega (arith, sums_below ps)
sums_below (refused r ∷ ps) = omega (arith, sums_below ps)
sums_below (waiting r ∷ ps) = omega (arith, sums_below ps)
sums_below (woken r ∷ ps) = omega (arith, sums_below ps)
sums_below (placed r ∷ ps) = omega (arith, sums_below ps)
sums_below (counted r ∷ ps) = omega (arith, sums_below ps)
sums_below (returned r ∷ ps) = omega (arith, sums_below ps)
sums_below (leaving ∷ ps) = omega (arith, sums_below ps)

-- The books of a call that is taken out of the list.
pub record Without (p : Producer) (s : Logger) : Type 0 where
  pub active : s.active_producers ≡ inside p + sum inside s.producers
  pub pending :
      s.pending_count
      ≡ length s.queue + uncounted s.worker + (announcing p + sum announcing s.producers)
  pub accepted : s.accepted_count + (placing p + sum placing s.producers) ≡ length s.enqueued
  pub queued : length s.queue + uncounted s.worker ≤ length s.enqueued
  pub room : length s.enqueued + length s.producers + 3 < size_limit

pub log_step-Counted : (p : Producer) (s : Logger) → Without p s → Counted (log_step p s)
unfolding log_step flush
log_step-Counted (called r) s h = ground (arith, sums_below s.producers)
log_step-Counted (entered r) s h = ground (arith, sums_below s.producers)
log_step-Counted (trying r) s h = ground (arith, sums_below s.producers)
log_step-Counted (announced r) s h =
    ground (arith, length-append s.queue (r ∷ []), length-append s.enqueued (r ∷ []))
log_step-Counted (refused r) s h = ground (arith, sums_below s.producers)
log_step-Counted (waiting r) s h = ground arith
log_step-Counted (woken r) s h = ground arith
log_step-Counted (placed r) s h = ground (arith, sums_below s.producers)
log_step-Counted (counted r) s h = ground (arith, sums_below s.producers)
log_step-Counted (returned r) s h = ground arith
log_step-Counted leaving s h = ground (arith, sums_below s.producers)

snoc_order :
    (r : LogRecord) (s : Logger)
    → Ordered s
    → s.enqueued ++ (r ∷ []) ≡ s.appended ++ (held s.worker ++ (s.queue ++ (r ∷ [])))
snoc_order r s h =
    ap (λ xs. xs ++ (r ∷ [])) h.order
    ∙ append_assoc s.appended (held s.worker ++ s.queue) (r ∷ [])
    ∙ ap (λ xs. s.appended ++ xs) (append_assoc (held s.worker) s.queue (r ∷ []))

-- The worker's side sees nothing of a step that leaves its fields alone.
abbrev pub Apart : Logger → Logger → Type 0
Apart s s' =
    (s'.enqueued ≡ s.enqueued)
    × (s'.appended ≡ s.appended)
    × (s'.worker ≡ s.worker)
    × (s'.queue ≡ s.queue)
    × (s'.writer ≡ s.writer)
    × (s'.last_flushed_count ≡ s.last_flushed_count)
    × (s'.seen ≡ s.seen)

pub kept-Ordered : (s s' : Logger) → Apart s s' → Ordered s → Ordered s'
kept-Ordered s s' (a, b, c, d, e, f, g) h = record {
  order =
      a
      ∙ h.order
      ∙ ap₂ (λ xs ys. xs ++ ys) (sym b) (ap₂ (λ xs ys. xs ++ ys) (ap held (sym c)) (sym d));
  written =
      subst (λ n. Taken n s'.writer) (ap length (sym b))
        (subst (Taken (length s.appended)) (sym e) h.written);
  flushed =
      subst (λ n. n ≤ s'.writer.written_count) (sym f)
        (subst (λ w. s.last_flushed_count ≤ w.written_count) (sym e) h.flushed);
  knows = subst (Knows (length s'.appended) s'.seen s'.writer.written_count) (sym c) (
      subst (λ n. Knows (length s'.appended) s'.seen n s.worker) (ap (λ w. w.written_count) (sym e))
        (subst (λ n. Knows (length s'.appended) n s.writer.written_count s.worker) (sym g)
          (subst (λ n. Knows n s.seen s.writer.written_count s.worker) (ap length (sym b))
            h.knows)));
}

pub log_step-Ordered : (p : Producer) (s : Logger) → Ordered s → Ordered (log_step p s)
unfolding log_step flush
log_step-Ordered (announced r) s h = elim (Bool-cases (ltb (length s.queue) s.max_queue_size)) [
  | inl e ↦ rw e (record {
    order = snoc_order r s h;
    written = h.written;
    flushed = h.flushed;
    knows = h.knows;
  })
  | inr e ↦ rw e (kept-Ordered s _ (refl, refl, refl, refl, refl, refl, refl) h)
]
log_step-Ordered (called r) s h = kept-Ordered s _ (ground arith) h
log_step-Ordered (entered r) s h = kept-Ordered s _ (ground arith) h
log_step-Ordered (trying r) s h = kept-Ordered s _ (ground arith) h
log_step-Ordered (refused r) s h = kept-Ordered s _ (ground arith) h
log_step-Ordered (waiting r) s h = kept-Ordered s _ (ground arith) h
log_step-Ordered (woken r) s h = kept-Ordered s _ (ground arith) h
log_step-Ordered (placed r) s h = kept-Ordered s _ (ground arith) h
log_step-Ordered (counted r) s h = kept-Ordered s _ (ground arith) h
log_step-Ordered (returned r) s h = kept-Ordered s _ (ground arith) h
log_step-Ordered leaving s h = kept-Ordered s _ (ground arith) h
