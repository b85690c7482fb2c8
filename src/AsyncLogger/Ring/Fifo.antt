-- ===== src/AsyncLogger/Ring/Fifo.antt =====
-- The order in which values go through the ring of
-- code/AsyncLogger/include/async_logger/mpsc_ring_buffer.h.
use native.Mathlib.Nat.{mod-eq_of_lt}
use unix_notes.Prelude.{
  ℕ, ◌+◌, ◌≤◌, ◌<◌, ◌≡◌, refl, ap, ◌∙◌, inl, inr, true, false, List, [], ◌∷◌, Option, none, some,
  arith, length, ltb, ◌==◌, Bool-cases, size_limit, ok, take, ==_ne, ltb→lt,
}
use unix_notes.AsyncLogger.Ring.{
  Ring, Step, new, cell, look_step, refuses, exchange_step, publish_step, can_dequeue, dequeue_step,
  full, step, run, look, publish, exchange, dequeue,
}
use unix_notes.AsyncLogger.Ring.Window.{Good, Room}
use unix_notes.AsyncLogger.Ring.Claim.{look-Good, exchange_step-Good}
use unix_notes.AsyncLogger.Ring.Publish.{publish_picked}
use unix_notes.AsyncLogger.Ring.Dequeue.{dequeue_step-Good}

module _ {T : Type 0} (blank : T) where
  step-Good : (e : Step T) (r : Ring T) → Good blank r → Room blank r → Good blank (step e r)
  unfolding step
  step-Good (look p) r h room = look-Good blank p r h
  step-Good (exchange p v) r h room = exchange_step-Good blank p v r h room
  step-Good (publish p) r h room = publish_picked blank p r (r.writing p) refl h room
  step-Good dequeue r h room = dequeue_step-Good blank r h room

  -- A step takes one position at most.
  abbrev Bounded : Ring T → Ring T → Type 0
  Bounded r r' = (r'.enqueue_position ≤ r.enqueue_position + 1) × (r'.capacity ≡ r.capacity)

  publish-Bounded :
      (p : ℕ) (r : Ring T) (o : Option T) → r.writing p ≡ o → Bounded r (publish_step p r)
  unfolding publish_step
  publish-Bounded p r none e = rw (e, publish_step) (omega arith, refl)
  publish-Bounded p r (some v) e = rw (e, publish_step) (omega arith, refl)

  step-Bounded : (e : Step T) (r : Ring T) → Bounded r (step e r)
  unfolding step look_step exchange_step dequeue_step
  step-Bounded (look p) r = elim (Bool-cases ((cell r p).sequence == p)) [
    | inl here ↦ rw here (omega arith, refl)
    | inr other ↦ rw other (omega arith, refl)
  ]
  step-Bounded (exchange p v) r = (ground arith, ground arith)
  step-Bounded (publish p) r = publish-Bounded p r (r.writing p) refl
  step-Bounded dequeue r = elim (Bool-cases (can_dequeue r)) [
    | inl here ↦ rw here (omega arith, refl)
    | inr other ↦ rw other (omega arith, refl)
  ]

  run-Good :
      (steps : List (Step T)) (r : Ring T)
      → Good blank r
      → r.enqueue_position + r.capacity + length steps + 1 < size_limit
      → Good blank (run steps r)
  unfolding run
  run-Good [] r h room = h
  run-Good (e ∷ steps) r h room =
      let (a, b) = step-Bounded e r in
      run-Good steps (step e r) (step-Good e r h (omega (arith, room))) (omega (arith, a, b))

  abbrev pub fresh : ℕ → Ring T
  fresh capacity = record {
    capacity = capacity;
    cells = λ index. record { sequence = index; value = blank };
    enqueue_position = 0;
    dequeue_position = 0;
    seen = λ position. false;
    writing = λ position. none;
    claimed = [];
    taken = [];
  }

  new-fresh : (capacity : ℕ) → 2 ≤ capacity → new blank capacity ≡ ok (fresh capacity)
  unfolding new
  new-fresh capacity h = rw (==_ne capacity 0 (λ e. omega arith)) refl

  fresh-Good : (capacity : ℕ) → 2 ≤ capacity → Good blank (fresh capacity)
  fresh-Good capacity h = record {
    many = h;
    counted = refl;
    got = refl;
    behind = omega arith;
    ahead = omega arith;
    free = λ i a b. mod-eq_of_lt (omega arith);
    held = λ i a b. absurd (omega arith);
    busy = λ i v e. cc;
    sight = λ i e. cc;
    order = refl;
  }

  run-capacity : (steps : List (Step T)) (r : Ring T) → (run steps r).capacity ≡ r.capacity
  unfolding run
  run-capacity [] r = refl
  run-capacity (e ∷ steps) r = run-capacity steps (step e r) ∙ (step-Bounded e r).1

  full_where_refused :
      (r : Ring T)
      → Good blank r
      → refuses r.enqueue_position r ≡ true
      → length r.claimed ≡ length r.taken + r.capacity
  unfolding refuses
  full_where_refused r h e =
      elim (Bool-cases (ltb r.enqueue_position (r.dequeue_position + r.capacity))) [
        | inl room ↦
            absurd (ground (arith, e, h.free r.enqueue_position (omega arith) (ltb→lt _ _ room)))
        | inr full ↦ ground (arith, full, h.counted, h.got, h.ahead)
      ]

  -- Of a ring of two cells or more, over any interleaving of its producers' steps with its consumer,
  -- fewer than the word has room for, the consumer gets the values in the order in which their
  -- producers have taken their positions, each once, and the ring never holds more than its capacity.
  pub ring_fifo :
      (capacity : ℕ) (steps : List (Step T))
      → 2 ≤ capacity
      → capacity + length steps + 1 < size_limit
      → (new blank capacity ≡ ok (fresh capacity))
        × (let s = run steps (fresh capacity) in
            (s.taken ≡ take (length s.taken) s.claimed)
            × (length s.taken ≤ length s.claimed)
            × (length s.claimed ≤ length s.taken + capacity))
  ring_fifo capacity steps many room =
      let h = run-Good steps (fresh capacity) (fresh-Good capacity many) (omega (arith, room)) in
      (
        new-fresh capacity many,
        (
          h.order,
          omega (arith, h.counted, h.got, h.behind),
          omega (arith, h.counted, h.got, h.ahead, run-capacity steps (fresh capacity)),
        ),
      )

  -- Over the same, a producer that gives up at the position that is next has found the ring full: as
  -- many values more have been claimed than taken as the ring has cells.
  pub refuses_full :
      (capacity : ℕ) (steps : List (Step T))
      → 2 ≤ capacity
      → capacity + length steps + 1 < size_limit
      → refuses (run steps (fresh capacity)).enqueue_position (run steps (fresh capacity)) ≡ true
      → let s = run steps (fresh capacity) in length s.claimed ≡ length s.taken + capacity
  refuses_full capacity steps many room e =
      let h = run-Good steps (fresh capacity) (fresh-Good capacity many) (omega (arith, room)) in
      full_where_refused (run steps (fresh capacity)) h e
      ∙ ap (λ c. length (run steps (fresh capacity)).taken + c)
          (run-capacity steps (fresh capacity))
