-- ===== src/BlockingQueue/Channel/Laws.antt =====
-- The channel that stands for `BlockingQueue` of code/BlockingQueue: what one call moves.
use unix_notes.Prelude.{
  ℕ, ◌-◌, ◌≤◌, ◌≡◌, refl, List, [], ◌∷◌, ◌++◌, Bool, true, arith, length, length-append,
  length-take, length-drop, take, take-min, take-append-drop, append-nil, Settled,
}
use unix_notes.BlockingQueue.Call.{Call, Reply, Signal, accepted, delivered, waiting}
use unix_notes.BlockingQueue.Channel.{Channel, step, Answer}

module _ {T : Type 0} where
  -- What a call that returns adds at the back, and what it takes from the front, within the bound.
  abbrev pub Moves : ℕ → Call T → Channel T → Channel T × Reply T × List Signal → Type 0
  Moves bound call c (c', r, _) =
      (c.items ++ accepted call r ≡ delivered r ++ c'.items) × (length c'.items ≤ bound)

  abbrev pub Lawful : ℕ → Call T → Channel T → Answer T → Type 0
  Lawful bound call c = Settled (Unit {0}) (Moves bound call c)

  -- A call that waits has accepted nothing.
  pub accepted-waiting : (call : Call T) → accepted call waiting ≡ []
  accepted-waiting (Call.push v) = refl
  accepted-waiting (Call.emplace v) = refl
  accepted-waiting (Call.try_push v) = refl
  accepted-waiting (Call.try_emplace v) = refl
  accepted-waiting (Call.push_for t v) = refl
  accepted-waiting (Call.emplace_for t v) = refl
  accepted-waiting Call.pop = refl
  accepted-waiting Call.try_pop = refl
  accepted-waiting (Call.pop_for t) = refl
  accepted-waiting (Call.push_batch vs) = refl
  accepted-waiting (Call.pop_batch room) = refl
  accepted-waiting Call.close = refl

  abbrev pub Returned : Reply T → Type 0
  Returned waiting = ⊥
  Returned _ = Unit

  -- On a closed channel a call returns at once, accepts nothing and leaves the channel closed.
  abbrev pub Refuses : Call T → Channel T × Reply T × List Signal → Type 0
  Refuses call (c', r, _) = (accepted call r ≡ []) × (c'.closed ≡ true) × Returned r

  abbrev pub Closed : Call T → Answer T → Type 0
  Closed call = Settled ⊥ (Refuses call)

  pub step-Lawful :
      (bound : ℕ) (call : Call T) (xs : List T) (shut : Bool)
      → length xs ≤ bound
      → let c : Channel T = record { items = xs; closed = shut } in
        Lawful bound call c (step bound call c)
  unfolding step
  step-Lawful bound (Call.push v) xs shut h =
      ground (arith, append-nil xs, length-append xs (v ∷ []))
  step-Lawful bound (Call.emplace v) xs shut h =
      ground (arith, append-nil xs, length-append xs (v ∷ []))
  step-Lawful bound (Call.try_push v) xs shut h =
      ground (arith, append-nil xs, length-append xs (v ∷ []))
  step-Lawful bound (Call.try_emplace v) xs shut h =
      ground (arith, append-nil xs, length-append xs (v ∷ []))
  step-Lawful bound (Call.push_for t v) xs shut h =
      ground (arith, append-nil xs, length-append xs (v ∷ []))
  step-Lawful bound (Call.emplace_for t v) xs shut h =
      ground (arith, append-nil xs, length-append xs (v ∷ []))
  step-Lawful bound Call.pop [] shut h = ground arith
  step-Lawful bound Call.pop (x ∷ xs) shut h = ground (arith, append-nil xs)
  step-Lawful bound Call.try_pop [] shut h = ground arith
  step-Lawful bound Call.try_pop (x ∷ xs) shut h = ground (arith, append-nil xs)
  step-Lawful bound (Call.pop_for t) [] shut h = ground arith
  step-Lawful bound (Call.pop_for t) (x ∷ xs) shut h = ground (arith, append-nil xs)
  step-Lawful bound (Call.push_batch []) xs shut h = ground (arith, append-nil xs)
  step-Lawful bound (Call.push_batch (v ∷ vs)) xs shut h = ground (
    arith,
    append-nil xs,
    take-min (bound - length xs) (v ∷ vs),
    length-append xs (take (bound - length xs) (v ∷ vs)),
    length-take (bound - length xs) (v ∷ vs),
  )
  step-Lawful bound (Call.pop_batch room) [] shut h = ground arith
  step-Lawful bound (Call.pop_batch room) (x ∷ xs) shut h =
      ground (arith, append-nil (x ∷ xs), take-append-drop room (x ∷ xs), length-drop room (x ∷ xs))
  step-Lawful bound Call.close xs shut h = ground (arith, append-nil xs)

  pub step-Closed :
      (bound : ℕ) (call : Call T) (xs : List T)
      → Closed call (step bound call (record { items = xs; closed = true }))
  unfolding step
  step-Closed bound (Call.push v) xs = ground arith
  step-Closed bound (Call.emplace v) xs = ground arith
  step-Closed bound (Call.try_push v) xs = ground arith
  step-Closed bound (Call.try_emplace v) xs = ground arith
  step-Closed bound (Call.push_for t v) xs = ground arith
  step-Closed bound (Call.emplace_for t v) xs = ground arith
  step-Closed bound Call.pop [] = ground arith
  step-Closed bound Call.pop (x ∷ xs) = ground arith
  step-Closed bound Call.try_pop [] = ground arith
  step-Closed bound Call.try_pop (x ∷ xs) = ground arith
  step-Closed bound (Call.pop_for t) [] = ground arith
  step-Closed bound (Call.pop_for t) (x ∷ xs) = ground arith
  step-Closed bound (Call.push_batch []) xs = ground arith
  step-Closed bound (Call.push_batch (v ∷ vs)) xs = ground arith
  step-Closed bound (Call.pop_batch room) [] = ground arith
  step-Closed bound (Call.pop_batch room) (x ∷ xs) = ground arith
  step-Closed bound Call.close xs = ground arith
