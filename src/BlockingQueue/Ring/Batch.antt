-- ===== src/BlockingQueue/Ring/Batch.antt =====
-- The batch operations of `RingBuffer` of code/BlockingQueue and their loops.
use unix_notes.Prelude.{
  ℕ, zero, suc, ◌+◌, ◌-◌, ◌≤◌, ◌≡◌, refl, ap, ◌∙◌, List, [], ◌∷◌, ◌++◌, arith, lt→ltb, length, ok,
  Agrees, Returns, Returns-bind, Agrees-bind, sub_size, length-append, take, drop, take_all,
  drop_all, append-nil, append_assoc, length-take, length-drop,
}
use unix_notes.BlockingQueue.Fifo
use unix_notes.BlockingQueue.Ring.{
  Ring, push_rounds, pop_rounds, push_batch, pop_batch, batch_count,
}
use unix_notes.BlockingQueue.Ring.Refine.{
  RingTurns, Holds, Turns-bounds, Turns-push, Turns-pop, Turns-head,
}

module _ {T : Type 0} where
  -- Taking no more than there are is the same as taking as many as asked for.
  take-batch_count :
      (xs : List T) (room : ℕ) → take (batch_count (length xs) room) xs ≡ take room xs
  take-batch_count xs room = ground (arith, take_all (length xs) xs (omega arith), take_all room xs)

  cut-batch_count :
      (q : List T) (n : ℕ)
      → (take (batch_count n (length q)) q ≡ take n q)
        × (drop (batch_count n (length q)) q ≡ drop n q)
  cut-batch_count q n = ground (
    arith,
    take_all (length q) q (omega arith),
    take_all n q,
    drop_all (length q) q (omega arith),
    drop_all n q,
  )

  push_rounds-Returns :
      {bound : ℕ} (n : ℕ) (values : List T) (r : Ring T) (q : List T)
      → RingTurns bound r q
      → n ≤ length values
      → length q + n ≤ bound
      → Returns
          (push_rounds n values r)
          (λ r'. RingTurns bound r' (q ++ take n values) × (r'.size ≡ r.size))
  unfolding push_rounds
  push_rounds-Returns zero values r q w le room = (r, refl, (rw append-nil w, refl))
  push_rounds-Returns (suc n) [] r q w le room = absurd (omega arith)
  push_rounds-Returns (suc n) (v ∷ values) r q w le room =
      rw
        (
          lt→ltb r.tail (length r.buffer) (omega (arith, Turns-bounds w)),
          ← append_assoc q (v ∷ []) (take n values),
        )
        (push_rounds-Returns n values _ (q ++ (v ∷ [])) (Turns-push v w (omega arith)) (omega arith)
          (omega (arith, length-append q (v ∷ []))))

  -- `push_batch` appends the longest prefix that fits, returns its length, and is never undefined.
  pub push_batch_refines :
      (values : List T) {bound : ℕ} (r : Ring T) (q : List T)
      → Holds bound r q
      → Agrees
          (λ s t. Holds bound s.0 t.0 × (s.1 ≡ t.1))
          (push_batch values r)
          (ok (Fifo.push_batch bound values q))
  unfolding push_batch Fifo.push_batch
  push_batch_refines values {bound} r q h =
      Agrees-bind _ _ _
        (push_rounds-Returns pushed values r q h.turns (ground (arith, room))
          (ground (arith, room, Turns-bounds h.turns)))
        λ r' w. (
          record {
            turns = rw (← room, ← take-batch_count values (sub_size r.capacity r.size)) w.0;
            count = ground (
              arith,
              room,
              w.1,
              length-append q (take (bound - length q) values),
              length-take (bound - length q) values,
              Turns-bounds h.turns,
            );
          },
          ground (arith, room),
        )
    where
      pushed : ℕ
      pushed = batch_count (length values) (sub_size r.capacity r.size)

      room : sub_size r.capacity r.size ≡ bound - length q
      room = omega (arith, h.turns.word, h.turns.same_bound, h.count, Turns-bounds h.turns)

  pop_rounds-Returns :
      {bound : ℕ} (n : ℕ) (r : Ring T) (q : List T)
      → RingTurns bound r q
      → n ≤ length q
      → Returns
          (pop_rounds n r)
          (λ s. (s.0 ≡ take n q) × RingTurns bound s.1 (drop n q) × (s.1.size ≡ r.size))
  unfolding pop_rounds
  pop_rounds-Returns zero r q w le = (([], r), refl, (refl, w, refl))
  pop_rounds-Returns (suc n) r [] w le = absurd (omega arith)
  pop_rounds-Returns (suc n) r (x ∷ q) w le = rw (Turns-head w) (
      Returns-bind _ _ (pop_rounds-Returns n _ q (Turns-pop w) (omega arith))
        λ s p. ((x ∷ s.0, s.1), refl, (ap (λ l. x ∷ l) p.0, p.1, p.2)))

  -- `pop_batch` writes the oldest values, as many as there are room and supply for, keeps the rest,
  -- and is never undefined.
  pub pop_batch_refines :
      (room : ℕ) {bound : ℕ} (r : Ring T) (q : List T)
      → Holds bound r q
      → Agrees
          (λ s t. (s.0 ≡ t.0) × Holds bound s.1 t.1)
          (pop_batch room r)
          (ok (Fifo.pop_batch room q))
  unfolding pop_batch Fifo.pop_batch
  pop_batch_refines room {bound} r q h =
      Agrees-bind _ _ _ (pop_rounds-Returns (batch_count room r.size) r q h.turns (ground arith))
        λ s p. (
          p.0 ∙ rw h.count (cut-batch_count q room).0,
          record {
            turns = rw (← (cut-batch_count q room).1, ← h.count) p.1;
            count = ground (arith, p.2, h.count, length-drop room q, Turns-bounds h.turns);
          },
        )
