-- ===== src/ThreadPool/Ring/Refine.antt =====
-- `BoundedRingQueue` of code/ThreadPool beside a list of at most `bound` values, oldest first.
use unix_notes.Prelude.{
  ℕ, ◌+◌, ◌%◌, ◌≤◌, ◌<◌, ◌≡◌, ap, List, [], ◌∷◌, ◌++◌, arith, length, set, Agrees, size_limit,
  add_size, sub_size, add_size_exact, length-append, ◌==◌, if◌then◌else◌, Outcome, ok, throws,
  runtime_error,
}
use unix_notes.Slots.{Window, Window-head, Window-push, Window-pop}
use unix_notes.ThreadPool.Ring.{Ring, push, pop}
use native.Mathlib.Nat.{mod-lt, mod-add-mod}

module _ {T : Type 0} (blank : T) where
  -- The ring holds the values `q` and has room for `bound`.
  pub record Holds (bound : ℕ) (r : Ring T) (q : List T) : Type 0 where
    pub word : bound < size_limit
    pub same_bound : r.capacity ≡ bound
    pub tail_at : r.tail ≡ (r.head + length q) % bound
    pub count : r.size ≡ length q
    pub window : Window blank r.buffer bound r.head q

  -- What the ring promises.
  abbrev pub pushed : ℕ → T → List T → Outcome (List T)
  pushed bound v q = if length q == bound then throws runtime_error else ok (q ++ (v ∷ []))

  abbrev pub popped : List T → Outcome (T × List T)
  popped [] = throws runtime_error
  popped (x ∷ q) = ok (x, q)

  module _ {bound : ℕ} {r : Ring T} where
    -- The bounds that follow, as facts about numbers.
    pub Holds-bounds :
        {q : List T}
        → Holds bound r q
        → (length q ≤ bound) × (r.head < bound) × (r.tail < bound) × (length r.buffer ≡ bound)
    Holds-bounds {q} h = (
      h.window.fits,
      h.window.head_in,
      omega (
        arith,
        h.tail_at,
        mod-lt (r.head + length q) {m = bound} (omega (arith, h.window.head_in)),
      ),
      h.window.storage,
    )

    after_push :
        {q : List T} (v : T)
        → Holds bound r q
        → length q < bound
        → Holds bound
            (record r {
              buffer = set r.buffer r.tail v;
              tail = add_size r.tail 1 % r.capacity;
              size = add_size r.size 1;
            })
            (q ++ (v ∷ []))
    after_push {q} v h room = record {
      word = h.word;
      same_bound = h.same_bound;
      tail_at =
          rw
            (
              add_size_exact r.tail 1 (omega (arith, h.word, Holds-bounds h)),
              h.same_bound,
              h.tail_at,
              mod-add-mod (r.head + length q) bound 1,
            )
            (ap (λ k. k % bound) (omega (arith, length-append q (v ∷ []))));
      count = omega (arith, h.count, h.word, length-append q (v ∷ []));
      window = rw h.tail_at (Window-push blank r.buffer bound r.head q v h.window room);
    }

    after_pop :
        {x : T} {q : List T}
        → Holds bound r (x ∷ q)
        → Holds bound
            (record r {
              buffer = set r.buffer r.head blank;
              head = add_size r.head 1 % r.capacity;
              size = sub_size r.size 1;
            })
            q
    after_pop {x} {q} h = record {
      word = h.word;
      same_bound = h.same_bound;
      tail_at =
          rw
            (
              add_size_exact r.head 1 (omega (arith, h.word, Holds-bounds h)),
              h.same_bound,
              h.tail_at,
              mod-add-mod (r.head + 1) bound (length q),
            )
            (ap (λ k. k % bound) (omega arith));
      count = omega (arith, h.count, h.word, Holds-bounds h);
      window =
          rw (add_size_exact r.head 1 (omega (arith, h.word, Holds-bounds h)), h.same_bound)
            (Window-pop blank r.buffer bound r.head x q h.window);
    }

    -- `push` adds the value at the back, and throws on a full ring.
    pub task_push_refines :
        {q : List T} (v : T) → Holds bound r q → Agrees (Holds bound) (push v r) (pushed bound v q)
    unfolding push
    task_push_refines {q} v h =
        ground (arith, h.count, h.same_bound, Holds-bounds h, after_push v h)

    -- `pop` takes the oldest value out, and throws on an empty ring.
    pub task_pop_refines :
        (q : List T)
        → Holds bound r q
        → Agrees (λ s t. (s.0 ≡ t.0) × Holds bound s.1 t.1) (pop blank r) (popped q)
    unfolding pop
    task_pop_refines [] h = ground (arith, h.count)
    task_pop_refines (x ∷ q) h = ground (
      arith,
      h.count,
      h.same_bound,
      Holds-bounds h,
      after_pop h,
      Window-head blank r.buffer bound r.head x q h.window,
    )
