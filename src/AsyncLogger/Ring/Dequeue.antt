-- ===== src/AsyncLogger/Ring/Dequeue.antt =====
-- The consumer of the ring of code/AsyncLogger/include/async_logger/mpsc_ring_buffer.h keeps it well
-- formed.
use native.Mathlib.Nat.{mod-eq-sub-mod}
use unix_notes.Prelude.{
  add_size_exact, ℕ, zero, suc, ◌+◌, ◌%◌, ◌≤◌, ◌<◌, ◌≡◌, refl, sym, ap, ◌∙◌, ◌≢◌, inl, inr, List,
  [], ◌∷◌, ◌++◌, none, some, arith, length, length-append, ltb, ◌==◌, Bool-cases, take, ltb→lt,
}
use unix_notes.AsyncLogger.Ring.{Cell, Ring, update, cell, can_dequeue, dequeue_step}
use unix_notes.AsyncLogger.Ring.Window.{at, Held, Good, Room, other_cell, same_cell}

module _ {T : Type 0} (blank : T) where
  take-suc :
      (n : ℕ) (xs : List T) → n < length xs → take n xs ++ (at blank xs n ∷ []) ≡ take (suc n) xs
  take-suc zero (x ∷ xs) h = refl
  take-suc (suc n) (x ∷ xs) h = ap (λ l. x ∷ l) (take-suc n xs (omega arith))
  take-suc n [] h = absurd (omega arith)

  -- The cell that the consumer looks at has been filled.
  dequeued_cell :
      (r : Ring T)
      → Good blank r
      → (cell r r.dequeue_position).sequence ≡ r.dequeue_position + 1
      → (r.dequeue_position < r.enqueue_position)
        × (r.writing r.dequeue_position ≡ none)
        × ((cell r r.dequeue_position).value ≡ at blank r.claimed r.dequeue_position)
  dequeued_cell r h e = elim (Bool-cases (ltb r.dequeue_position r.enqueue_position)) [
    | inl some_left ↦
        let lt = ltb→lt _ _ some_left in
        elim (h.held r.dequeue_position (omega arith) lt) [
          | inl (x, _, z) ↦ (lt, x, z)
          | inr (_, y) ↦ absurd (omega (arith, e, y))
        ]
    | inr none_left ↦ absurd (
        omega
          (arith, e, h.free r.dequeue_position (ground (arith, none_left)) (omega (arith, h.many))))
  ]

  -- The ring once the consumer has taken the value at `d`.
  abbrev emptied : ℕ → Ring T → Ring T
  emptied d r = record r {
    cells =
        update (d % r.capacity) (record { sequence = d + r.capacity; value = (cell r d).value })
          r.cells;
    dequeue_position = d + 1;
    taken = r.taken ++ ((cell r d).value ∷ []);
  }

  emptied_other :
      (r : Ring T) (i : ℕ)
      → Good blank r
      → r.dequeue_position + 1 ≤ i
      → i < r.dequeue_position + r.capacity
      → cell (emptied r.dequeue_position r) i ≡ cell r i
  emptied_other r i h a b =
      other_cell blank r r.dequeue_position i _ h (omega arith) (omega (arith, h.many))
        (omega arith) b (λ e. omega arith)

  emptied_held :
      (r : Ring T) (i : ℕ)
      → Good blank r
      → r.dequeue_position + 1 ≤ i
      → i < r.enqueue_position
      → Held blank (emptied r.dequeue_position r) i
  emptied_held r i h a b =
      let kept = emptied_other r i h a (omega (arith, h.ahead)) in
      elim (h.held i (omega arith) b) [
        | inl (x, y, z) ↦ inl (x, ap (λ c. c.sequence) kept ∙ y, ap (λ c. c.value) kept ∙ z)
        | inr (x, y) ↦ inr (x, ap (λ c. c.sequence) kept ∙ y)
      ]

  emptied_free :
      (r : Ring T) (i : ℕ)
      → Good blank r
      → r.dequeue_position < r.enqueue_position
      → r.enqueue_position ≤ i
      → i < r.dequeue_position + 1 + r.capacity
      → (cell (emptied r.dequeue_position r) i).sequence ≡ i
  emptied_free r i h lt a b = elim (Bool-cases (ltb i (r.dequeue_position + r.capacity))) [
    | inl within ↦
        ap (λ c. c.sequence) (emptied_other r i h (omega arith) (ltb→lt _ _ within))
        ∙ h.free i a (ltb→lt _ _ within)
    | inr last ↦
        let end : i ≡ r.dequeue_position + r.capacity = ground (arith, last) in
        ap (λ k. (update (r.dequeue_position % r.capacity) written r.cells k).sequence)
          (mod-eq-sub-mod {n = i} {m = r.capacity} (omega (arith, end))
            ∙ ap (λ k. k % r.capacity) (omega (arith, end)))
        ∙ ap (λ c. c.sequence) (same_cell blank r r.dequeue_position written)
        ∙ sym end
  ]
    where
      written : Cell T
      written = record {
        sequence = r.dequeue_position + r.capacity;
        value = (cell r r.dequeue_position).value;
      }

  dequeue-Good :
      (r : Ring T)
      → Good blank r
      → (cell r r.dequeue_position).sequence ≡ r.dequeue_position + 1
      → Good blank (emptied r.dequeue_position r)
  dequeue-Good r h e =
      let (lt, gone, same) = dequeued_cell r h e in
      record {
        many = h.many;
        counted = h.counted;
        got = omega (arith, h.got, length-append r.taken ((cell r r.dequeue_position).value ∷ []));
        behind = omega arith;
        ahead = omega (arith, h.ahead);
        free = λ i a b. emptied_free r i h lt a b;
        held = λ i a b. emptied_held r i h a b;
        busy = λ i w x. ground (arith, h.busy i w x, still i w x);
        sight = λ i s. omega (arith, h.sight i s);
        order =
            ap (λ xs. xs ++ (v ∷ [])) h.order
            ∙ ap (λ u. take n r.claimed ++ (u ∷ [])) (same ∙ ap (at blank r.claimed) h.got)
            ∙ take-suc n r.claimed (omega (arith, h.got, h.counted))
            ∙ ap (λ m. take m r.claimed) one_more;
      }
    where
      n : ℕ
      n = length r.taken

      v : T
      v = (cell r r.dequeue_position).value

      one_more : suc n ≡ length (r.taken ++ (v ∷ []))
      one_more = omega (arith, length-append r.taken (v ∷ []))

      still : (i : ℕ) (w : T) → r.writing i ≡ some w → i ≢ r.dequeue_position
      still i w x same_place =
          let (_, gone, _) = dequeued_cell r h e in
          let clash = sym gone ∙ ap r.writing (sym same_place) ∙ x in cc

  pub dequeue_step-Good : (r : Ring T) → Good blank r → Room blank r → Good blank (dequeue_step r)
  unfolding dequeue_step can_dequeue
  dequeue_step-Good r h room =
      rw
        (
          add_size_exact r.dequeue_position 1 (omega (arith, h.behind)),
          add_size_exact r.dequeue_position r.capacity (omega (arith, h.behind)),
        )
        (elim (Bool-cases ((cell r r.dequeue_position).sequence == r.dequeue_position + 1)) [
          | inl filled_cell ↦ rw filled_cell (dequeue-Good r h (ground (arith, filled_cell)))
          | inr other ↦ rw other h
        ])
