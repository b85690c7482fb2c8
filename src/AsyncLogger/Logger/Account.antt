-- ===== src/AsyncLogger/Logger/Account.antt =====
-- The books of `AsyncLogger` of code/AsyncLogger/src/async_logger.cpp over any interleaving of its threads.
use unix_notes.Prelude.{
  pick, sum, Picked, pick-Picked, sum-one, ℕ, ◌+◌, ◌≤◌, ◌<◌, ◌≡◌, refl, ap, inl, inr, List, [], ◌∷◌,
  ◌++◌, Option, none, some, arith, length, length-append, Bool-cases, size_limit,
}
use unix_notes.AsyncLogger.Logger.{
  LogRecord, Producer, Flusher, targeted, raised, waits, Worker, absent, fetching, looking,
  reading_pending, reading_active, holding, appending, judging, flushing, answering, clearing,
  ending, asleep, finished, crashed, Stopper, idle, saw_running, joining, Logger,
}
use unix_notes.AsyncLogger.Logger.Steps.{log, flush, flush_step, flush_over, stop_step}
use unix_notes.AsyncLogger.Logger.Run.{
  Event, logs, flushes, producer, flusher, stops, works, log_picked, flush_picked, step, run,
}
use unix_notes.AsyncLogger.Logger.Books.{
  inside, announcing, placing, held, uncounted, Counted, Ordered, load, Room,
}
use unix_notes.AsyncLogger.Logger.Callers.{
  sums_below, log_step-Counted, log_step-Ordered, Apart, kept-Ordered,
}
use unix_notes.AsyncLogger.Logger.Work.{work_step-Counted}
use unix_notes.AsyncLogger.Logger.Order.{work_step-Ordered}
use unix_notes.AsyncLogger.Logger.Load.{log_picked-load, log-load, work_step-load}

pub record Books (s : Logger) : Type 0 where
  pub counted : Counted s
  pub ordered : Ordered s

-- The queue is no longer than all that has entered it.
queue_below :
    (s : Logger) → Counted s → Ordered s → length s.queue + uncounted s.worker ≤ length s.enqueued
queue_below s c h = omega (
  arith,
  ap length h.order,
  length-append s.appended (held s.worker ++ s.queue),
  length-append (held s.worker) s.queue,
  uncounted_held s.worker,
)
  where
    uncounted_held : (w : Worker) → uncounted w ≤ length (held w)
    uncounted_held (holding r) = omega arith
    uncounted_held absent = omega arith
    uncounted_held (fetching consumed) = omega arith
    uncounted_held (looking consumed) = omega arith
    uncounted_held (reading_pending consumed) = omega arith
    uncounted_held (reading_active consumed) = omega arith
    uncounted_held (appending r) = omega arith
    uncounted_held (judging round) = omega arith
    uncounted_held (flushing round) = omega arith
    uncounted_held (answering round) = omega arith
    uncounted_held (clearing round) = omega arith
    uncounted_held (ending round) = omega arith
    uncounted_held asleep = omega arith
    uncounted_held (finished drained) = omega arith
    uncounted_held (crashed records) = omega arith

log_picked-Counted :
    (s : Logger) (o : Option (Producer × List Producer))
    → Picked inside s.producers o
    → Picked announcing s.producers o
    → Picked placing s.producers o
    → Picked (λ p. 1) s.producers o
    → Room s
    → Counted s
    → Ordered s
    → Counted (log_picked o s)
unfolding log_picked
log_picked-Counted s none a b c d room h k = h
log_picked-Counted s (some (p, producers)) a b c d room h k =
    log_step-Counted p (record s { producers = producers })
      (record {
        active = omega (arith, a, h.active);
        pending = omega (arith, b, h.pending);
        accepted = omega (arith, c, h.accepted);
        queued = queue_below s h k;
        room = omega (arith, d, sum-one s.producers, sum-one producers);
      })

log_picked-Ordered :
    (s : Logger) (o : Option (Producer × List Producer)) → Ordered s → Ordered (log_picked o s)
unfolding log_picked
log_picked-Ordered s none h = h
log_picked-Ordered s (some (p, producers)) h =
    log_step-Ordered p (record s { producers = producers })
      (kept-Ordered s _ (refl, refl, refl, refl, refl, refl, refl) h)

-- The steps that touch neither the callers of `log` nor the queue.
abbrev Same : Logger → Logger → Type 0
Same s s' =
    Apart s s'
    × (s'.active_producers ≡ s.active_producers)
    × (s'.pending_count ≡ s.pending_count)
    × (s'.accepted_count ≡ s.accepted_count)
    × (s'.producers ≡ s.producers)

unchanged-Counted : (s s' : Logger) → Same s s' → Counted s → Counted s'
unchanged-Counted s s' ((a, b, c, d, e, f, g), x, y, z, ps) h = record {
  active = omega (arith, x, h.active, ap (sum inside) ps);
  pending = omega (arith, y, h.pending, ap (sum announcing) ps, ap length d, ap uncounted c);
  accepted = omega (arith, z, h.accepted, ap (sum placing) ps, ap length a);
}

nothing_changed : (s : Logger) → Same s s
nothing_changed s = ((refl, refl, refl, refl, refl, refl, refl), refl, refl, refl, refl)

flush_step-Same : (f : Flusher) (s : Logger) → Same s (flush_step f s)
unfolding flush_step
flush_step-Same (targeted target) s = nothing_changed s
flush_step-Same (raised target) s = nothing_changed s
flush_step-Same (waits target) s = elim (Bool-cases (flush_over target s)) [
  | inl e ↦ rw e (nothing_changed s)
  | inr e ↦ rw e (nothing_changed s)
]

flush-Same : (s : Logger) → Same s (flush s)
unfolding flush
flush-Same s = ground arith

stop_step-Same : (p : Stopper) (s : Logger) → Same s (stop_step p s)
unfolding stop_step
stop_step-Same idle s = ground arith
stop_step-Same saw_running s = nothing_changed s
stop_step-Same joining s = ground arith

log-Counted : (r : LogRecord) (s : Logger) → Room s → Counted s → Counted (log r s)
unfolding log
log-Counted r s room h = ground (arith, sums_below s.producers)

log-Apart : (r : LogRecord) (s : Logger) → Apart s (log r s)
unfolding log
log-Apart r s = ground arith

appended_below : (s : Logger) → Ordered s → length s.appended ≤ length s.enqueued
appended_below s h =
    omega (arith, ap length h.order, length-append s.appended (held s.worker ++ s.queue))

unchanged_load : (s s' : Logger) → Same s s' → load s' ≡ load s
unchanged_load s s' ((a, b, c, d, e, f, g), x, y, z, ps) = omega (arith, ap length a, ap length ps)

flush_picked-Same : (s : Logger) (o : Option (Flusher × List Flusher)) → Same s (flush_picked o s)
unfolding flush_picked
flush_picked-Same s none = nothing_changed s
flush_picked-Same s (some (f, flushers)) = flush_step-Same f (record s { flushers = flushers })

unchanged-Books : (s s' : Logger) → Same s s' → Books s → Books s'
unchanged-Books s s' e h = record {
  counted = unchanged-Counted s s' e h.counted;
  ordered = kept-Ordered s s' e.0 h.ordered;
}

module _ (format : LogRecord → List ℕ) (nonempty : (r : LogRecord) → 0 < length (format r)) where
  step-Books : (e : Event) (s : Logger) → Room s → Books s → Books (step format e s)
  unfolding step
  step-Books (logs r) s room h = record {
    counted = log-Counted r s room h.counted;
    ordered = kept-Ordered s _ (log-Apart r s) h.ordered;
  }
  step-Books flushes s room h = unchanged-Books s _ (flush-Same s) h
  step-Books (producer place) s room h = record {
    counted =
        log_picked-Counted s (pick place s.producers) (pick-Picked inside place s.producers)
          (pick-Picked announcing place s.producers) (pick-Picked placing place s.producers)
          (pick-Picked (λ p. 1) place s.producers) room h.counted h.ordered;
    ordered = log_picked-Ordered s (pick place s.producers) h.ordered;
  }
  step-Books (flusher place) s room h =
      unchanged-Books s _ (flush_picked-Same s (pick place s.flushers)) h
  step-Books stops s room h = unchanged-Books s _ (stop_step-Same s.stopper s) h
  step-Books (works disk filled due) s room h = record {
    counted =
        work_step-Counted format disk filled due s.worker s refl
          (omega (arith, queue_below s h.counted h.ordered)) room h.counted;
    ordered =
        work_step-Ordered format nonempty disk filled due s.worker s refl
          (omega (arith, appended_below s h.ordered)) h.counted h.ordered;
  }

  step-load : (e : Event) (s : Logger) → load (step format e s) ≤ load s + 1
  unfolding step
  step-load (logs r) s = log-load r s
  step-load flushes s = omega (arith, unchanged_load s (flush s) (flush-Same s))
  step-load (producer place) s =
      log_picked-load s (pick place s.producers) (pick-Picked (λ p. 1) place s.producers)
  step-load (flusher place) s = omega (
    arith,
    unchanged_load s (flush_picked (pick place s.flushers) s)
        (flush_picked-Same s (pick place s.flushers)),
  )
  step-load stops s =
      omega (arith, unchanged_load s (stop_step s.stopper s) (stop_step-Same s.stopper s))
  step-load (works disk filled due) s =
      omega (arith, work_step-load format disk filled due s.worker s)

  pub run-Books :
      (events : List Event) (s : Logger)
      → load s + length events + 2 < size_limit
      → Books s
      → Books (run format events s)
  unfolding run
  run-Books [] s room h = h
  run-Books (e ∷ events) s room h =
      run-Books events (step format e s) (omega (arith, room, step-load e s))
        (step-Books e s (omega (arith, room)) h)
