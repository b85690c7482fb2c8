-- ===== src/BlockingQueue/Ring/Refine.antt =====
-- `RingBuffer` of code/BlockingQueue beside the bounded list of Fifo.antt, one operation at a time.
use unix_notes.Prelude.{
  ℕ, ◌+◌, ◌%◌, ◌≤◌, ◌<◌, ◌≡◌, refl, sym, ap, List, [], ◌∷◌, ◌++◌, map, Option, none, some, arith,
  length, get_or, set, Agrees, size_limit, add_size, add_size_exact, length-map, length-append,
  ◌==◌, inl, inr, Bool-cases,
}
use unix_notes.Slots.{Window, Window-fresh, Window-head, Window-push, Window-pop}
use unix_notes.BlockingQueue.Fifo
use unix_notes.BlockingQueue.Ring.{Ring, new, emplace, front, pop_front, pop}
use mathlib.Core.List.{map-append}
use native.Mathlib.Nat.{mod-lt, mod-add-mod, mod-eq_of_lt}

module _ {T : Type 0} where
  -- The slots and the two indices of a ring that represents `q`; its size is not looked at.
  pub record Turns (bound : ℕ) (buffer : List (Option T)) (capacity head tail : ℕ) (q : List T)
      : Type 0 where
    pub word : bound < size_limit
    pub same_bound : capacity ≡ bound
    pub tail_at : tail ≡ (head + length q) % bound
    pub window : Window none buffer bound head (map some q)

  abbrev pub RingTurns : ℕ → Ring T → List T → Type 0
  RingTurns bound r q = Turns bound r.buffer r.capacity r.head r.tail q

  -- The ring represents the queue `q` of at most `bound` values.
  pub record Holds (bound : ℕ) (r : Ring T) (q : List T) : Type 0 where
    pub turns : RingTurns bound r q
    pub count : r.size ≡ length q

  module _ {bound : ℕ} {b : List (Option T)} {c h t : ℕ} where
    -- The bounds that follow, as facts about numbers.
    pub Turns-bounds :
        {q : List T}
        → Turns bound b c h t q
        → (length q ≤ bound) × (h < bound) × (t < bound) × (length b ≡ bound)
    Turns-bounds {q} w = (
      omega (arith, w.window.fits, length-map {A = T} {B = Option T} some q),
      w.window.head_in,
      omega (arith, w.tail_at, mod-lt (h + length q) {m = bound} (omega (arith, w.window.head_in))),
      w.window.storage,
    )

    -- One round of `push_batch`, and the writes of `emplace`.
    pub Turns-push :
        {q : List T} (v : T)
        → Turns bound b c h t q
        → length q < bound
        → Turns bound (set b t (some v)) c h (add_size t 1 % c) (q ++ (v ∷ []))
    Turns-push {q} v w room = record {
      word = w.word;
      same_bound = w.same_bound;
      tail_at =
          rw
            (
              add_size_exact t 1 (omega (arith, w.word, Turns-bounds w)),
              w.same_bound,
              w.tail_at,
              mod-add-mod (h + length q) bound 1,
            )
            (ap (λ k. k % bound) (omega (arith, length-append q (v ∷ []))));
      window =
          rw (map-append some q (v ∷ []), w.tail_at, ← length-map {A = T} {B = Option T} some q)
            (Window-push none b bound h (map some q) (some v) w.window
              (omega (arith, length-map {A = T} {B = Option T} some q)));
    }

    -- One round of `pop_batch`, and the writes of `pop_front`.
    pub Turns-pop :
        {x : T} {q : List T}
        → Turns bound b c h t (x ∷ q)
        → Turns bound (set b h none) c (add_size h 1 % c) t q
    Turns-pop {x} {q} w = record {
      word = w.word;
      same_bound = w.same_bound;
      tail_at =
          rw
            (
              add_size_exact h 1 (omega (arith, w.word, Turns-bounds w)),
              w.same_bound,
              w.tail_at,
              mod-add-mod (h + 1) bound (length q),
            )
            (ap (λ k. k % bound) (omega arith));
      window =
          rw (add_size_exact h 1 (omega (arith, w.word, Turns-bounds w)), w.same_bound)
            (Window-pop none b bound h (some x) (map some q) w.window);
    }

    -- The slot of the head holds the oldest value.
    pub Turns-head : {x : T} {q : List T} → Turns bound b c h t (x ∷ q) → get_or b h none ≡ some x
    Turns-head {x} {q} w = Window-head none b bound h (some x) (map some q) w.window

  -- `emplace` adds the value at the back, and throws on a full ring.
  pub emplace_refines :
      (v : T) {bound : ℕ} {r : Ring T} {q : List T}
      → Holds bound r q
      → Agrees (Holds bound) (emplace v r) (Fifo.emplace bound v q)
  unfolding emplace Fifo.emplace
  emplace_refines v {bound} {r} {q} h =
      ground (arith, Turns-bounds h.turns, Turns-push v h.turns, length-append q (v ∷ []))

  -- `front` reads the oldest value, and throws on an empty ring.
  pub front_refines :
      {bound : ℕ} {r : Ring T} (q : List T) → Holds bound r q → Agrees ◌≡◌ (front r) (Fifo.front q)
  unfolding front Fifo.front
  front_refines [] h = ground arith
  front_refines (x ∷ q) h = ground (arith, Turns-head h.turns)

  -- `pop_front` drops the oldest value, and throws on an empty ring.
  pub pop_front_refines :
      {bound : ℕ} {r : Ring T} (q : List T)
      → Holds bound r q
      → Agrees (Holds bound) (pop_front r) (Fifo.pop_front q)
  unfolding pop_front Fifo.pop_front
  pop_front_refines [] h = ground arith
  pop_front_refines (x ∷ q) h = ground (arith, Turns-pop h.turns, Turns-bounds h.turns)

  -- `pop` takes the oldest value out, and throws on an empty ring.
  pub pop_refines :
      {bound : ℕ} {r : Ring T} (q : List T)
      → Holds bound r q
      → Agrees (λ s t. (s.0 ≡ t.0) × Holds bound s.1 t.1) (pop r) (Fifo.pop q)
  unfolding pop Fifo.pop
  pop_refines [] h = ground arith
  pop_refines (x ∷ q) h =
      ground (arith, Turns-head h.turns, Turns-pop h.turns, Turns-bounds h.turns)

-- The constructor refuses a capacity of zero, and otherwise represents the empty queue.
pub new_refines :
    (T : Type 0) (bound : ℕ)
    → bound < size_limit
    → Agrees (Holds bound) (new bound) (Fifo.new {T = T} bound)
unfolding new Fifo.new
new_refines T bound word = elim (Bool-cases (bound == 0)) [
  | inl e ↦ rw e refl
  | inr e ↦ rw e (record {
    turns = record {
      word = word;
      same_bound = refl;
      tail_at = sym (mod-eq_of_lt (ground arith));
      window = Window-fresh none bound (ground arith);
    };
    count = refl;
  })
]
