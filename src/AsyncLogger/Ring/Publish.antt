-- ===== src/AsyncLogger/Ring/Publish.antt =====
-- A producer that fills its cell of the ring of
-- code/AsyncLogger/include/async_logger/mpsc_ring_buffer.h keeps it well formed.

use unix_notes.Prelude.{
  add_size_exact, ℕ, ◌+◌, ◌%◌, ◌≤◌, ◌<◌, ◌≡◌, refl, sym, ap, subst, ◌∙◌, inl, inr, Option, none,
  some, arith, ◌==◌, Bool-cases, add_size, ==_refl,
}
use unix_notes.AsyncLogger.Ring.{Ring, update, publish_step}
use unix_notes.AsyncLogger.Ring.Window.{Held, Good, Room, other_cell, same_cell}

module _ {T : Type 0} (blank : T) where
  -- The ring once the cell of `p` has been filled with `v`.
  abbrev filled : ℕ → T → Ring T → Ring T
  filled p v r = record r {
    cells = update (p % r.capacity) (record { sequence = p + 1; value = v }) r.cells;
    writing = update p none r.writing;
  }

  some-injective : {a b : T} → Option.some a ≡ some b → a ≡ b
  some-injective e = cc

  filled_itself :
      (p : ℕ) (v : T) (r : Ring T)
      → r.writing p ≡ some v
      → Held blank r p
      → Held blank (filled p v r) p
  filled_itself p v r wrote (inl (x, _, _)) = absurd (none_some (sym x ∙ wrote))
    where
      none_some : Option.none ≡ some v → ⊥
      none_some e = cc
  filled_itself p v r wrote (inr (x, _)) = inl (
    rw (==_refl p) refl,
    ap (λ c. c.sequence) (same_cell blank r p _),
    ap (λ c. c.value) (same_cell blank r p _) ∙ some-injective (sym wrote ∙ x),
  )

  publish_held :
      (p : ℕ) (v : T) (r : Ring T)
      → Good blank r
      → r.writing p ≡ some v
      → r.dequeue_position ≤ p
      → p < r.enqueue_position
      → (i : ℕ) → r.dequeue_position ≤ i
      → i < r.enqueue_position
      → Held blank (filled p v r) i
  publish_held p v r h wrote low high i a b = elim (Bool-cases (i == p)) [
    | inl same ↦
        subst (Held blank (filled p v r)) (ground (arith, same))
          (filled_itself p v r wrote (h.held p low high))
    | inr other ↦
        let kept =
          other_cell blank r p i (record { sequence = p + 1; value = v }) h low
            (omega (arith, h.ahead)) a (omega (arith, h.ahead)) (λ e. ground (arith, other, e)) in
        elim (h.held i a b) [
          | inl (x, y, z) ↦
              inl (
                ground (arith, other, x),
                ap (λ c. c.sequence) kept ∙ y,
                ap (λ c. c.value) kept ∙ z,
              )
          | inr (x, y) ↦ inr (ground (arith, other, x), ap (λ c. c.sequence) kept ∙ y)
        ]
  ]

  publish-Good :
      (p : ℕ) (v : T) (r : Ring T)
      → Good blank r
      → Room blank r
      → r.writing p ≡ some v
      → Good blank (record r {
        cells = update (p % r.capacity) (record { sequence = add_size p 1; value = v }) r.cells;
        writing = update p none r.writing;
      })
  publish-Good p v r h room wrote =
      let (low, high) = h.busy p v wrote in
      rw (add_size_exact p 1 (omega arith)) (record {
        many = h.many;
        counted = h.counted;
        got = h.got;
        behind = h.behind;
        ahead = h.ahead;
        free = λ i a b.
            ap (λ c. c.sequence)
              (other_cell blank r p i _ h low (omega (arith, h.ahead)) (omega arith) b
                (omega arith))
            ∙ h.free i a b;
        held = publish_held p v r h wrote low high;
        busy = λ i w e. ground (arith, e, h.busy i w);
        sight = h.sight;
        order = h.order;
      })

  pub publish_picked :
      (p : ℕ) (r : Ring T) (o : Option T)
      → r.writing p ≡ o
      → Good blank r
      → Room blank r
      → Good blank (publish_step p r)
  unfolding publish_step
  publish_picked p r none e h room = rw (e, publish_step) h
  publish_picked p r (some v) e h room = rw (e, publish_step) (publish-Good p v r h room e)
