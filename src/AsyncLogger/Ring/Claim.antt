-- ===== src/AsyncLogger/Ring/Claim.antt =====
-- A producer that takes a position of the ring of
-- code/AsyncLogger/include/async_logger/mpsc_ring_buffer.h keeps it well formed.

use unix_notes.Prelude.{
  get_or-append_last, get_or-append_ne, add_size_exact, ℕ, zero, suc, ◌+◌, ◌≤◌, ◌<◌, ◌≡◌, refl, sym,
  ap, ◌∙◌, inl, inr, true, List, [], ◌∷◌, ◌++◌, some, arith, length, length-append, ◌==◌,
  Bool-cases, add_size, take,
}
use unix_notes.AsyncLogger.Ring.{Ring, update, cell, look_step, exchange_step}
use unix_notes.AsyncLogger.Ring.Window.{at, Held, Good, free_in_window, Room}

module _ {T : Type 0} (blank : T) where
  pub look-Good : (p : ℕ) (r : Ring T) → Good blank r → Good blank (look_step p r)
  unfolding look_step
  look-Good p r h = elim (Bool-cases ((cell r p).sequence == p)) [
    | inl here ↦
        let near = free_in_window blank r p h (ground (arith, here)) in
        rw here (record {
          many = h.many;
          counted = h.counted;
          got = h.got;
          behind = h.behind;
          ahead = h.ahead;
          free = h.free;
          held = h.held;
          busy = h.busy;
          sight = λ i s. ground (arith, s, h.sight i, near);
          order = h.order;
        })
    | inr other ↦ rw other h
  ]

  take-append : (n : ℕ) (xs ys : List T) → n ≤ length xs → take n (xs ++ ys) ≡ take n xs
  take-append zero xs ys h = refl
  take-append (suc n) [] ys h = absurd (omega arith)
  take-append (suc n) (x ∷ xs) ys h = ap (λ l. x ∷ l) (take-append n xs ys (omega arith))

  exchange_held :
      (p : ℕ) (v : T) (r : Ring T)
      → Good blank r
      → r.enqueue_position ≡ p
      → p < r.dequeue_position + r.capacity
      → (i : ℕ) → r.dequeue_position ≤ i
      → i < p + 1
      → Held blank
          (record r {
            enqueue_position = p + 1;
            writing = update p (some v) r.writing;
            claimed = r.claimed ++ (v ∷ []);
          })
          i
  exchange_held p v r h here near i a b = elim (Bool-cases (i == p)) [
    | inl same ↦
        let last : at blank (r.claimed ++ (v ∷ [])) i ≡ v =
          ap (at blank (r.claimed ++ (v ∷ []))) (ground (arith, same, here, h.counted))
          ∙ get_or-append_last r.claimed v blank in
        inr (
          ground (arith, same, last),
          h.free i (ground (arith, same, here)) (ground (arith, same, near)),
        )
    | inr other ↦
        let kept : at blank (r.claimed ++ (v ∷ [])) i ≡ at blank r.claimed i =
          get_or-append_ne r.claimed i v blank (λ e. ground (arith, other, e, here, h.counted)) in
        elim (h.held i a (ground (arith, other, here))) [
          | inl (x, y, z) ↦ inl (ground (arith, other, x), y, z ∙ sym kept)
          | inr (x, y) ↦ inr (ground (arith, other, x, kept), y)
        ]
  ]

  exchange-Good :
      (p : ℕ) (v : T) (r : Ring T)
      → Good blank r
      → Room blank r
      → r.seen p ≡ true
      → r.enqueue_position ≡ p
      → Good blank (record r {
        enqueue_position = add_size p 1;
        writing = update p (some v) r.writing;
        claimed = r.claimed ++ (v ∷ []);
      })
  exchange-Good p v r h room saw here = rw (add_size_exact p 1 (omega arith)) (record {
    many = h.many;
    counted = omega (arith, h.counted, length-append r.claimed (v ∷ []));
    got = h.got;
    behind = omega (arith, h.behind);
    ahead = omega (arith, h.sight p saw);
    free = λ i a b. h.free i (omega arith) b;
    held = exchange_held p v r h here (h.sight p saw);
    busy = λ i w e. ground (arith, e, h.busy i w, h.behind);
    sight = h.sight;
    order =
        h.order
        ∙ sym (
            take-append (length r.taken) r.claimed (v ∷ [])
              (omega (arith, h.got, h.counted, h.behind)));
  })

  pub exchange_step-Good :
      (p : ℕ) (v : T) (r : Ring T) → Good blank r → Room blank r → Good blank (exchange_step p v r)
  unfolding exchange_step
  exchange_step-Good p v r h room = elim (Bool-cases (r.seen p)) [
    | inl saw ↦ elim (Bool-cases (r.enqueue_position == p)) [
      | inl here ↦ rw (saw, here) (exchange-Good p v r h room saw (ground (arith, here)))
      | inr other ↦ rw (saw, other) h
    ]
    | inr unseen ↦ rw unseen h
  ]
