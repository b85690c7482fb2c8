-- ===== src/BlockingQueue/Queue/Refine.antt =====
-- `BlockingQueue` of code/BlockingQueue beside the channel of Channel.antt, call by call.
use unix_notes.Prelude.{
  ℕ, ◌≡◌, List, [], ◌∷◌, Bool, arith, length, length-take, take-nil, drop-nil, Agrees, ◌==◌,
}
use unix_notes.BlockingQueue.Ring
use unix_notes.BlockingQueue.Ring.Refine.{
  Holds, emplace_refines, front_refines, pop_front_refines, Turns-bounds,
}
use unix_notes.BlockingQueue.Ring.Batch.{push_batch_refines, pop_batch_refines}
use unix_notes.BlockingQueue.Fifo
use unix_notes.BlockingQueue.Call.{Call, Reply, Signal}
use unix_notes.BlockingQueue.Channel
use unix_notes.BlockingQueue.Channel.{Channel}
use unix_notes.BlockingQueue.Queue.{
  Queue, step, push, emplace, try_push, try_emplace, push_for, emplace_for, pop, try_pop, pop_for,
  push_batch, pop_batch, close,
}

module _ {T : Type 0} where
  pub record Represents (bound : ℕ) (q : Queue T) (c : Channel T) : Type 0 where
    pub holds : Holds bound q.buffer c.items
    pub same_flag : q.closed ≡ c.closed
    pub same_capacity : q.capacity ≡ bound

  abbrev pub SameAnswer :
      ℕ → Queue T × Reply T × List Signal → Channel T × Reply T × List Signal → Type 0
  SameAnswer bound s t = Represents bound s.0 t.0 × (s.1 ≡ t.1) × (s.2 ≡ t.2)

  full_lem :
      {bound : ℕ} {r : Ring.Ring T} {q : List T}
      → Holds bound r q
      → Ring.full r ≡ (length q == bound)
  unfolding Ring.full
  full_lem h = ground (arith, h.turns.same_bound)

  empty_lem :
      {bound : ℕ} {r : Ring.Ring T} {q : List T} → Holds bound r q → Ring.empty r ≡ (length q == 0)
  unfolding Ring.empty
  empty_lem h = ground (arith)

  -- The answer to a call is the channel's, whatever the list of items.
  abbrev Conforms : Call T → ℕ → Queue T → List T → Bool → Type 0
  Conforms call bound q xs shut =
      Agrees (SameAnswer bound) (step call q)
        (Channel.step bound call (record { items = xs; closed = shut }))

  batch_refines :
      {bound : ℕ} (vs : List T) (q : Queue T) (xs : List T) (shut : Bool)
      → Represents bound q (record { items = xs; closed = shut })
      → Conforms (Call.push_batch vs) bound q xs shut
  unfolding step push_batch Channel.step Fifo.push_batch
  batch_refines [] q xs shut h = ground arith
  batch_refines (v ∷ vs) q xs shut h = ground (
    arith,
    push_batch_refines (v ∷ vs) q.buffer xs h.holds,
    h.holds.turns.same_bound,
    Turns-bounds h.holds.turns,
  )

  unbatch_refines :
      {bound : ℕ} (room : ℕ) (q : Queue T) (xs : List T) (shut : Bool)
      → Represents bound q (record { items = xs; closed = shut })
      → Conforms (Call.pop_batch room) bound q xs shut
  unfolding step pop_batch Channel.step Fifo.pop_batch
  unbatch_refines room q [] shut h = ground (
    arith,
    empty_lem h.holds,
    pop_batch_refines room q.buffer [] h.holds,
    take-nil {A = T} room,
    drop-nil {A = T} room,
  )
  unbatch_refines room q (x ∷ xs) shut h = ground (
    arith,
    empty_lem h.holds,
    pop_batch_refines room q.buffer (x ∷ xs) h.holds,
    length-take room (x ∷ xs),
  )

  -- The three ways to take one value.
  abbrev Gets : Call T → Type 0
  Gets Call.pop = Unit
  Gets Call.try_pop = Unit
  Gets (Call.pop_for t) = Unit
  Gets _ = ⊥

  get_refines :
      {bound : ℕ} (call : Call T) (q : Queue T) (xs : List T) (shut : Bool)
      → Represents bound q (record { items = xs; closed = shut })
      → Gets call
      → Conforms call bound q xs shut
  unfolding step pop try_pop pop_for Channel.step Fifo.front Fifo.pop_front
  get_refines Call.pop q [] shut h g = ground (arith, empty_lem h.holds)
  get_refines Call.pop q (x ∷ xs) shut h g =
      ground (
        arith,
        empty_lem h.holds,
        front_refines (x ∷ xs) h.holds,
        pop_front_refines (x ∷ xs) h.holds,
      )
  get_refines Call.try_pop q [] shut h g = ground (arith, empty_lem h.holds)
  get_refines Call.try_pop q (x ∷ xs) shut h g =
      ground (
        arith,
        empty_lem h.holds,
        front_refines (x ∷ xs) h.holds,
        pop_front_refines (x ∷ xs) h.holds,
      )
  get_refines (Call.pop_for t) q [] shut h g = ground (arith, empty_lem h.holds)
  get_refines (Call.pop_for t) q (x ∷ xs) shut h g =
      ground (
        arith,
        empty_lem h.holds,
        front_refines (x ∷ xs) h.holds,
        pop_front_refines (x ∷ xs) h.holds,
      )
  get_refines _ q xs shut h g = absurd g

  answer_refines :
      {bound : ℕ} (call : Call T) (q : Queue T) (xs : List T) (shut : Bool)
      → Represents bound q (record { items = xs; closed = shut })
      → Conforms call bound q xs shut
  unfolding step push emplace try_push try_emplace push_for emplace_for close Channel.step
      Fifo.emplace
  answer_refines (Call.push v) q xs shut h =
      ground (arith, full_lem h.holds, emplace_refines v h.holds)
  answer_refines (Call.emplace v) q xs shut h =
      ground (arith, full_lem h.holds, emplace_refines v h.holds)
  answer_refines (Call.try_push v) q xs shut h =
      ground (arith, full_lem h.holds, emplace_refines v h.holds)
  answer_refines (Call.try_emplace v) q xs shut h =
      ground (arith, full_lem h.holds, emplace_refines v h.holds)
  answer_refines (Call.push_for t v) q xs shut h =
      ground (arith, full_lem h.holds, emplace_refines v h.holds)
  answer_refines (Call.emplace_for t v) q xs shut h =
      ground (arith, full_lem h.holds, emplace_refines v h.holds)
  answer_refines Call.pop q xs shut h = get_refines Call.pop q xs shut h tt
  answer_refines Call.try_pop q xs shut h = get_refines Call.try_pop q xs shut h tt
  answer_refines (Call.pop_for t) q xs shut h = get_refines (Call.pop_for t) q xs shut h tt
  answer_refines (Call.push_batch vs) q xs shut h = batch_refines vs q xs shut h
  answer_refines (Call.pop_batch room) q xs shut h = unbatch_refines room q xs shut h
  answer_refines Call.close q xs shut h = ground arith

  -- Every call answers as the channel does, on every branch: it returns the same result with the same
  -- signals and a state that represents the channel's, or it waits where the channel's call waits.
  pub step_refines :
      {bound : ℕ} (call : Call T) (q : Queue T) (c : Channel T)
      → Represents bound q c
      → Agrees (SameAnswer bound) (step call q) (Channel.step bound call c)
  step_refines call q c h = answer_refines call q c.items c.closed h
