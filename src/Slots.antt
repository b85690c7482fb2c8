-- ===== src/Slots.antt =====
-- A vector used as a cyclic window: the part that `RingBuffer` (code/BlockingQueue) and
-- `BoundedRingQueue` (code/ThreadPool) have in common. Element `i` of the window stands in slot
-- `(head + i) % bound`, and every slot outside the window holds the vacant value `d`.
use unix_notes.Prelude.{
  ℕ, suc, ◌+◌, ◌-◌, ◌%◌, ◌≤◌, ◌<◌, ◌≡◌, sym, ap, ◌∙◌, ◌≢◌, List, [], ◌∷◌, ◌++◌, arith, length,
  get_or, set, replicate, length-set, length-append, length-replicate, get_or-set_self,
  get_or-set_ne, get_or_beyond, get_or-append_last, get_or-append_ne, get_or-replicate,
}
use native.Mathlib.Nat.{mod-lt, mod-add-mod, mod-eq_of_lt, mod-eq-sub-mod}
use native.Mathlib.Decide.{dec_lt, ℕ_discrete}

mod-add-zero : (bound h : ℕ) → h < bound → (h + 0) % bound ≡ h
mod-add-zero bound h hh = ap (λ k. k % bound) (omega arith) ∙ mod-eq_of_lt hh

-- Two different offsets below `bound` name two different slots.
pub add-mod-ne :
    (bound h i j : ℕ)
    → h < bound
    → i < bound
    → j < bound
    → i ≢ j
    → (h + i) % bound ≢ (h + j) % bound
add-mod-ne bound h i j hh hi hj ne = elim (dec_lt (h + i) bound) [
  | yes p ↦ elim (dec_lt (h + j) bound) [
    | yes q ↦ omega (arith, mod-eq_of_lt p, mod-eq_of_lt q)
    | no q ↦ omega (arith, mod-eq_of_lt p, wrapped j hj (omega arith))
  ]
  | no p ↦ elim (dec_lt (h + j) bound) [
    | yes q ↦ omega (arith, wrapped i hi (omega arith), mod-eq_of_lt q)
    | no q ↦ omega (arith, wrapped i hi (omega arith), wrapped j hj (omega arith))
  ]
]
  where
    wrapped : (k : ℕ) → k < bound → bound ≤ h + k → (h + k) % bound ≡ h + k - bound
    wrapped k hk le =
        mod-eq-sub-mod {n = h + k} {m = bound} le ∙ mod-eq_of_lt {n = h + k - bound} (omega arith)

module _ {ℓ} {S : Type ℓ} (d : S) where
  -- The slots from `head` on hold `xs`, and all others are vacant.
  pub record Window (buf : List S) (bound head : ℕ) (xs : List S) : Type ℓ where
    pub storage : length buf ≡ bound
    pub head_in : head < bound
    pub fits : length xs ≤ bound
    pub slot : (i : ℕ) → i < bound → get_or buf ((head + i) % bound) d ≡ get_or xs i d

  pub Window-fresh : (bound : ℕ) → 0 < bound → Window (replicate bound d) bound 0 []
  Window-fresh bound h = record {
    storage = length-replicate bound d;
    head_in = h;
    fits = omega arith;
    slot = λ i _. get_or-replicate bound ((0 + i) % bound) d;
  }

  -- The oldest element stands in the slot of the head.
  pub Window-head :
      (buf : List S) (bound head : ℕ) (x : S) (xs : List S)
      → Window buf bound head (x ∷ xs)
      → get_or buf head d ≡ x
  Window-head buf bound head x xs w =
      ap (λ k. get_or buf k d) (sym (mod-add-zero bound head w.head_in))
      ∙ w.slot 0 (omega (arith, w.head_in))

  -- A write into the slot behind the window extends it at the back.
  pub Window-push :
      (buf : List S) (bound head : ℕ) (xs : List S) (v : S)
      → Window buf bound head xs
      → length xs < bound
      → Window (set buf ((head + length xs) % bound) v) bound head (xs ++ (v ∷ []))
  Window-push buf bound head xs v w room = record {
    storage = length-set buf tail v ∙ w.storage;
    head_in = w.head_in;
    fits = omega (arith, length-append xs (v ∷ []));
    slot = λ i hi. elim (ℕ_discrete i (length xs)) [
      | yes e ↦ rw e (get_or-set_self buf tail v d tail_in ∙ sym (get_or-append_last xs v d))
      | no ne ↦
          get_or-set_ne buf tail ((head + i) % bound) v d
            (add-mod-ne bound head (length xs) i w.head_in room hi (λ e. ne (sym e)))
          ∙ w.slot i hi
          ∙ sym (get_or-append_ne xs i v d ne)
    ];
  }
    where
      tail : ℕ
      tail = (head + length xs) % bound

      tail_in : tail < length buf
      tail_in = omega (arith, w.storage, mod-lt (head + length xs) {m = bound} (omega arith))

  -- Vacating the head's slot and moving the head on takes the oldest element out.
  pub Window-pop :
      (buf : List S) (bound head : ℕ) (x : S) (xs : List S)
      → Window buf bound head (x ∷ xs)
      → Window (set buf head d) bound ((head + 1) % bound) xs
  Window-pop buf bound head x xs w = record {
    storage = length-set buf head d ∙ w.storage;
    head_in = mod-lt (head + 1) {m = bound} (omega (arith, w.head_in));
    fits = omega (arith, w.fits);
    slot = λ i hi. ap (λ k. get_or (set buf head d) k d) (next i) ∙ elim (dec_lt (suc i) bound) [
      | yes p ↦ get_or-set_ne buf head ((head + suc i) % bound) d d (moved i p) ∙ w.slot (suc i) p
      | no p ↦
          ap (λ k. get_or (set buf head d) k d) (round i hi p)
          ∙ get_or-set_self buf head d d (omega (arith, w.storage, w.head_in))
          ∙ sym (get_or_beyond xs i d (omega (arith, w.fits)))
    ];
  }
    where
      next : (i : ℕ) → ((head + 1) % bound + i) % bound ≡ (head + suc i) % bound
      next i = mod-add-mod (head + 1) bound i ∙ ap (λ k. k % bound) (omega arith)

      moved : (i : ℕ) → suc i < bound → head ≢ (head + suc i) % bound
      moved i p e =
          add-mod-ne bound head 0 (suc i) w.head_in (omega arith) p (omega arith)
            (mod-add-zero bound head w.head_in ∙ e)

      round : (i : ℕ) → i < bound → ¬ (suc i < bound) → (head + suc i) % bound ≡ head
      round i hi p =
          mod-eq-sub-mod {n = head + suc i} {m = bound} (omega arith)
          ∙ ap (λ k. k % bound) (omega arith)
          ∙ mod-eq_of_lt w.head_in
