-- ===== src/AsyncLogger/Logger/Order.antt =====
-- The worker of code/AsyncLogger/src/async_logger.cpp keeps the order of the records.
use unix_notes.Prelude.{
  ap₂, ℕ, ◌+◌, ◌<◌, ◌≡◌, refl, sym, ap, subst, ◌∙◌, inl, inr, Bool, true, false, not, ◌||◌, List,
  [], ◌∷◌, ◌++◌, arith, length, length-append, leb, ◌==◌, Bool-cases, size_limit, Outcome, ok,
  throws, blocks, undefined, ◌>>=◌, append_assoc,
}
use unix_notes.AsyncLogger.Writer.{Writer, Disk, write_active_buffer, flush_output, append_record}
use unix_notes.AsyncLogger.Logger.{
  LogRecord, Round, Worker, absent, fetching, looking, reading_pending, reading_active, holding,
  appending, judging, flushing, answering, clearing, ending, asleep, finished, crashed, Logger,
}
use unix_notes.AsyncLogger.Logger.Steps.{
  fail_worker, is_stopping, is_failed, work_step, fetch_step, append_step, flush_worker,
}
use unix_notes.AsyncLogger.Logger.Written.{Taken, Wrote, Where, append_record-Taken, flushed-Taken}
use unix_notes.AsyncLogger.Logger.Books.{held, Finished, Knows, Counted, Ordered}
use unix_notes.AsyncLogger.Logger.Callers.{kept-Ordered}

-- A worker that goes on with what it held and knew before.
moved :
    (s : Logger) (w : Worker)
    → Ordered s
    → held w ≡ held s.worker
    → Knows (length s.appended) s.seen s.writer.written_count w
    → Ordered (record s { worker = w })
moved s w h e k = record {
  order = h.order ∙ ap (λ xs. s.appended ++ (xs ++ s.queue)) (sym e);
  written = h.written;
  flushed = h.flushed;
  knows = k;
}

fail_worker-Ordered :
    (records : List LogRecord) (s : Logger)
    → held s.worker ≡ records
    → Ordered s
    → Ordered (fail_worker records s)
fail_worker-Ordered records s e h =
    kept-Ordered (record s { worker = crashed records }) _
      (refl, refl, refl, refl, refl, refl, refl) (moved s (crashed records) h (sym e) tt)

fetch_step-Ordered :
    (filled consumed : Bool) (queue : List LogRecord) (s : Logger)
    → s.queue ≡ queue
    → held s.worker ≡ []
    → Ordered s
    → Ordered (fetch_step filled consumed queue s)
unfolding fetch_step
fetch_step-Ordered true consumed [] s e z h = moved s _ h (sym z) tt
fetch_step-Ordered true consumed (r ∷ queue) s e z h = record {
  order = h.order ∙ ap₂ (λ xs ys. s.appended ++ (xs ++ ys)) z e;
  written = h.written;
  flushed = h.flushed;
  knows = tt;
}
fetch_step-Ordered false consumed [] s e z h = moved s _ h (sym z) tt
fetch_step-Ordered false consumed (r ∷ queue) s e z h = moved s _ h (sym z) tt

append_step-Ordered :
    (r : LogRecord) (o : Outcome Writer) (s : Logger)
    → held s.worker ≡ r ∷ []
    → Where (Wrote (length s.appended + 1) s.writer) o
    → Ordered s
    → Ordered (append_step r o s)
unfolding append_step
append_step-Ordered r (ok w) s z (t, le) h = record {
  order =
      h.order
      ∙ ap (λ xs. s.appended ++ (xs ++ s.queue)) z
      ∙ sym (append_assoc s.appended (r ∷ []) s.queue);
  written = subst (λ n. Taken n w) (omega (arith, length-append s.appended (r ∷ []))) t;
  flushed = omega (arith, h.flushed, le);
  knows = tt;
}
append_step-Ordered r (throws e) s z p h = fail_worker-Ordered (r ∷ []) s z h
append_step-Ordered r blocks s z p h = fail_worker-Ordered (r ∷ []) s z h
append_step-Ordered r undefined s z p h = fail_worker-Ordered (r ∷ []) s z h

flush_worker-Ordered :
    (round : Round) (o : Outcome Writer) (s : Logger)
    → s.worker ≡ flushing round
    → Where (λ w. Wrote (length s.appended) s.writer w × (w.written_count ≡ length s.appended)) o
    → Ordered s
    → Ordered (flush_worker round o s)
unfolding flush_worker
flush_worker-Ordered round (ok w) s e ((t, le), done) h = record {
  order = h.order ∙ ap (λ v. s.appended ++ (held v ++ s.queue)) e;
  written = t;
  flushed = omega arith;
  knows = elim (subst (Knows (length s.appended) s.seen s.writer.written_count) e h.knows) [
    | inl none_drained ↦ inl none_drained
    | inr same ↦ inr (same, done ∙ same)
  ];
}
flush_worker-Ordered round (throws x) s e p h = fail_worker-Ordered [] s (ap held e) h
flush_worker-Ordered round blocks s e p h = fail_worker-Ordered [] s (ap held e) h
flush_worker-Ordered round undefined s e p h = fail_worker-Ordered [] s (ap held e) h

-- Nothing pending is nothing queued and nothing held.
none_pending :
    (s : Logger) (consumed : Bool)
    → s.worker ≡ reading_pending consumed
    → s.pending_count ≡ 0
    → Counted s
    → Ordered s
    → length s.appended ≡ length s.enqueued
none_pending s consumed e z c h = omega (
  arith,
  c.pending,
  ap length h.order,
  length-append s.appended (held s.worker ++ s.queue),
  ap (λ w. length (held w ++ s.queue)) e,
)

module _ (format : LogRecord → List ℕ) (nonempty : (r : LogRecord) → 0 < length (format r)) where
  pub work_step-Ordered :
      (disk : Disk) (filled due : Bool) (w : Worker) (s : Logger)
      → s.worker ≡ w
      → length s.appended + 1 < size_limit
      → Counted s
      → Ordered s
      → Ordered (work_step format disk filled due w s)
  unfolding work_step
  work_step-Ordered disk filled due absent s e room c h = h
  work_step-Ordered disk filled due (fetching consumed) s e room c h =
      fetch_step-Ordered filled consumed s.queue s refl (ap held e) h
  work_step-Ordered disk filled due (holding r) s e room c h =
      kept-Ordered (record s { worker = appending r }) _ (refl, refl, refl, refl, refl, refl, refl)
        (moved s _ h (sym (ap held e)) tt)
  work_step-Ordered disk filled due (appending r) s e room c h =
      append_step-Ordered r (append_record disk (format r) s.writer) s (ap held e)
        (append_record-Taken (length s.appended) disk (format r) s.writer room (nonempty r)
          h.written)
        h
  work_step-Ordered disk filled due (looking consumed) s e room c h =
      elim (Bool-cases (is_stopping s.state)) [
        | inl a ↦ rw a (moved s _ h (sym (ap held e)) tt)
        | inr a ↦ rw a (moved s _ h (sym (ap held e)) (inl refl))
      ]
  work_step-Ordered disk filled due (reading_pending consumed) s e room c h =
      elim (Bool-cases (s.pending_count == 0)) [
        | inl a ↦ rw a (record {
          order = h.order ∙ ap (λ v. s.appended ++ (held v ++ s.queue)) e;
          written = h.written;
          flushed = h.flushed;
          knows = none_pending s consumed e (ground (arith, a)) c h;
        })
        | inr a ↦ rw a (moved s _ h (sym (ap held e)) (inl refl))
      ]
  work_step-Ordered disk filled due (reading_active consumed) s e room c h =
      moved s _ h (sym (ap held e))
        (inr (subst (Knows (length s.appended) s.seen s.writer.written_count) e h.knows))
  work_step-Ordered disk filled due (judging round) s e room c h =
      let k = subst (Knows (length s.appended) s.seen s.writer.written_count) e h.knows in
      elim (Bool-cases (s.flush_requested || due || round.drained)) [
        | inl a ↦ rw a (moved s _ h (sym (ap held e)) k)
        | inr a ↦ rw a (moved s _ h (sym (ap held e)) (inl (ground (arith, a))))
      ]
  work_step-Ordered disk filled due (flushing round) s e room c h =
      flush_worker-Ordered round (write_active_buffer disk s.writer >>= flush_output disk) s e
        (flushed-Taken (length s.appended) disk s.writer (omega arith) h.written) h
  work_step-Ordered disk filled due (answering round) s e room c h =
      let k = subst (Knows (length s.appended) s.seen s.writer.written_count) e h.knows in
      elim (Bool-cases (leb s.flush_target_count s.last_flushed_count)) [
        | inl a ↦ rw a (moved s _ h (sym (ap held e)) k)
        | inr a ↦ rw a (moved s _ h (sym (ap held e)) k)
      ]
  work_step-Ordered disk filled due (clearing round) s e room c h =
      kept-Ordered (record s { worker = ending round }) _ (refl, refl, refl, refl, refl, refl, refl)
        (moved s _ h (sym (ap held e))
          (subst (Knows (length s.appended) s.seen s.writer.written_count) e h.knows))
  work_step-Ordered disk filled due (ending round) s e room c h =
      let k = subst (Knows (length s.appended) s.seen s.writer.written_count) e h.knows in
      elim (Bool-cases round.drained) [
        | inl a ↦ rw a (
            moved s (finished true) h (sym (ap held e))
              (subst (Finished (length s.appended) s.seen s.writer.written_count) a k))
        | inr a ↦ rw a (elim (Bool-cases (is_failed round.current)) [
          | inl b ↦ rw b (moved s (finished false) h (sym (ap held e)) (inl refl))
          | inr b ↦ rw b (elim (Bool-cases (round.consumed || not (s.pending_count == 0))) [
            | inl x ↦ rw x (moved s (fetching false) h (sym (ap held e)) tt)
            | inr x ↦ rw x (moved s asleep h (sym (ap held e)) tt)
          ])
        ])
      ]
  work_step-Ordered disk filled due asleep s e room c h = moved s _ h (sym (ap held e)) tt
  work_step-Ordered disk filled due (finished drained) s e room c h = h
  work_step-Ordered disk filled due (crashed records) s e room c h = h
