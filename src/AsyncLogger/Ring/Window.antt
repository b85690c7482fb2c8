-- ===== src/AsyncLogger/Ring/Window.antt =====
-- The cells of the ring of code/AsyncLogger/include/async_logger/mpsc_ring_buffer.h that the positions of
-- one round have, and what the ring keeps of them.
use native.Mathlib.Nat.{mod-lt, mod-add-mod, add-mod-mod}
use unix_notes.Slots.{add-mod-ne}
use unix_notes.Prelude.{
  get_or, ℕ, ◌+◌, ◌-◌, ◌%◌, ◌≤◌, ◌<◌, ◌≡◌, refl, sym, ap, ◌∙◌, ◌≢◌, ◌⊎◌, inl, inr, true, List, none,
  some, arith, length, ltb, Bool-cases, size_limit, take, ==_refl, ==_ne, ltb→lt,
}
use unix_notes.AsyncLogger.Ring.{Cell, Ring, update, cell}

-- Positions less than a round apart have cells of their own.
window_ne : (c d i j : ℕ) → 0 < c → d ≤ i → i < d + c → d ≤ j → j < d + c → i ≢ j → i % c ≢ j % c
window_ne c d i j pos_c a b e f ne same =
    add-mod-ne c (d % c) (i - d) (j - d) (mod-lt d pos_c) (omega arith) (omega arith)
      (λ same_offset. ne (omega arith)) (from_base i a ∙ same ∙ sym (from_base j e))
  where
    from_base : (k : ℕ) → d ≤ k → (d % c + (k - d)) % c ≡ k % c
    from_base k h = mod-add-mod d c (k - d) ∙ ap (λ m. m % c) (omega arith)

-- Every position has the cell of one in the window from `d` on.
window_of : (c d p : ℕ) → 0 < c → d ≤ p → (i : ℕ) × (d ≤ i) × (i < d + c) × (i % c ≡ p % c)
window_of c d p pos_c h = (
  d + (p - d) % c,
  omega arith,
  omega (arith, mod-lt (p - d) pos_c),
  add-mod-mod d (p - d) c ∙ ap (λ m. m % c) (omega arith),
)

module _ {T : Type 0} (blank : T) where
  abbrev pub at : List T → ℕ → T
  at xs i = get_or xs i blank

  -- A position that has been taken: its cell is filled, or its producer has yet to do it.
  abbrev pub Held : Ring T → ℕ → Type 0
  Held r i =
      ((r.writing i ≡ none) × ((cell r i).sequence ≡ i + 1) × ((cell r i).value ≡ at r.claimed i))
      ⊎ ((r.writing i ≡ some (at r.claimed i)) × ((cell r i).sequence ≡ i))

  pub record Good (r : Ring T) : Type 0 where
    pub many : 2 ≤ r.capacity
    pub counted : r.enqueue_position ≡ length r.claimed
    pub got : r.dequeue_position ≡ length r.taken
    pub behind : r.dequeue_position ≤ r.enqueue_position
    pub ahead : r.enqueue_position ≤ r.dequeue_position + r.capacity
    pub free :
        (i : ℕ)
        → r.enqueue_position ≤ i
        → i < r.dequeue_position + r.capacity
        → (cell r i).sequence ≡ i
    pub held : (i : ℕ) → r.dequeue_position ≤ i → i < r.enqueue_position → Held r i
    pub busy :
        (i : ℕ) (v : T) → r.writing i ≡ some v → (r.dequeue_position ≤ i) × (i < r.enqueue_position)
    pub sight : (i : ℕ) → r.seen i ≡ true → i < r.dequeue_position + r.capacity
    pub order : r.taken ≡ take (length r.taken) r.claimed

  -- The sequence of a cell in the window.
  sequence_cases :
      (r : Ring T) (i : ℕ)
      → Good r
      → r.dequeue_position ≤ i
      → i < r.dequeue_position + r.capacity
      → ((cell r i).sequence ≡ i) ⊎ ((cell r i).sequence ≡ i + 1)
  sequence_cases r i h a b = elim (Bool-cases (ltb i r.enqueue_position)) [
    | inl before ↦ elim (h.held i a (ltb→lt _ _ before)) [
      | inl (_, e, _) ↦ inr e
      | inr (_, e) ↦ inl e
    ]
    | inr after ↦ inl (h.free i (ground (arith, after)) b)
  ]

  -- A cell that shows its position as free is not a round too early.
  pub free_in_window :
      (r : Ring T) (p : ℕ) → Good r → (cell r p).sequence ≡ p → p < r.dequeue_position + r.capacity
  free_in_window r p h e = elim (Bool-cases (ltb p (r.dequeue_position + r.capacity))) [
    | inl within ↦ ltb→lt _ _ within
    | inr beyond ↦
        let (i, a, b, same) =
          window_of r.capacity r.dequeue_position p (omega (arith, h.many))
            (ground (arith, beyond)) in
        let shown : (cell r i).sequence ≡ p = ap (λ k. (r.cells k).sequence) same ∙ e in
        elim (sequence_cases r i h a b) [
          | inl this ↦ omega (arith, sym this ∙ shown)
          | inr next ↦ absurd (
              window_ne r.capacity i i (i + 1) (omega (arith, h.many)) (omega arith)
                (omega (arith, h.many)) (omega arith) (omega (arith, h.many)) (omega arith)
                (same ∙ ap (λ k. k % r.capacity) (sym shown ∙ next)))
        ]
  ]

  -- The word has room for a round more.
  abbrev pub Room : Ring T → Type 0
  Room r = r.enqueue_position + r.capacity + 1 < size_limit

  -- A cell of the window that is not written is as it was.
  pub other_cell :
      (r : Ring T) (p i : ℕ) (x : Cell T)
      → Good r
      → r.dequeue_position ≤ p
      → p < r.dequeue_position + r.capacity
      → r.dequeue_position ≤ i
      → i < r.dequeue_position + r.capacity
      → i ≢ p
      → update (p % r.capacity) x r.cells (i % r.capacity) ≡ cell r i
  other_cell r p i x h a b d e ne =
      rw
        (==_ne (i % r.capacity) (p % r.capacity)
          (window_ne r.capacity r.dequeue_position i p (omega (arith, h.many)) d e a b ne))
        refl

  pub same_cell :
      (r : Ring T) (i : ℕ) (x : Cell T) → update (i % r.capacity) x r.cells (i % r.capacity) ≡ x
  same_cell r i x = rw (==_refl (i % r.capacity)) refl
