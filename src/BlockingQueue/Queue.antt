-- ===== src/BlockingQueue/Queue.antt =====
-- `BlockingQueue<T>`. Each member function is its critical section, entered with the mutex held at
-- the moment a wait looks at its predicate: it returns the new object, its result and the signals
-- that it sends, or it blocks and leaves the object as it was.

pub mod Refine
pub mod History
use unix_notes.Prelude.{
  ℕ, ◌+◌, Bool, true, false, not, ◌||◌, ◌&&◌, List, [], ◌∷◌, Option, none, some, length, ltb, ◌==◌,
  if◌then◌else◌, Outcome, ok, throws, blocks, undefined, ◌>>=◌, ◌>>◌, wait, wait_until, throw_if,
  invalid_argument,
}
use unix_notes.BlockingQueue.Ring
use unix_notes.BlockingQueue.Ring.{Ring}
use unix_notes.BlockingQueue.Call.{
  Signal, not_empty_one, not_full_one, not_empty_all, not_full_all, Call, Reply, flag, value, count,
  values, nothing, waiting,
}
use unix_notes.BlockingQueue.Call

pub record Queue (T : Type 0) : Type 0 where
  pub capacity : ℕ
  pub buffer : Ring T
  pub closed : Bool

-- The new object, the result and the signals sent.
abbrev pub Section : Type 0 → Type 0 → Type 0
Section T A = Outcome (Queue T × A × List Signal)

abbrev is_empty {ℓ} : {A : Type ℓ} → List A → Bool
is_empty [] = true
is_empty (x ∷ xs) = false

module _ {T : Type 0} where
  unfoldable pub new : ℕ → Outcome (Queue T)
  new capacity = do
    buffer ← Ring.new capacity
    throw_if (capacity == 0) invalid_argument
    ok (record { capacity = capacity; buffer = buffer; closed = false })

  -- `buffer_.emplace(value); lock.unlock(); not_empty_.notify_one(); return true;`
  store : T → Queue T → Section T Bool
  store v q = do
    buffer ← Ring.emplace v q.buffer
    ok (record q { buffer = buffer }, true, not_empty_one ∷ [])

  -- `value = std::move(buffer_.front()); buffer_.pop_front(); ... not_full_.notify_one();`
  take_front : Queue T → Section T (Option T)
  take_front q = do
    v ← Ring.front q.buffer
    buffer ← Ring.pop_front q.buffer
    ok (record q { buffer = buffer }, some v, not_full_one ∷ [])

  wait_not_full : Queue T → Outcome Bool
  wait_not_full q = do wait (q.closed || not (Ring.full q.buffer)); ok (not q.closed)

  wait_not_full_until : Bool → Queue T → Outcome Bool
  wait_not_full_until timed_out q = do
    ready ← wait_until timed_out (q.closed || not (Ring.full q.buffer))
    ok (ready && not q.closed)

  wait_not_empty_until : Bool → Queue T → Outcome Bool
  wait_not_empty_until timed_out q = do
    ready ← wait_until timed_out (q.closed || not (Ring.empty q.buffer))
    ok (ready && not (Ring.empty q.buffer))

  unfoldable pub push : T → Queue T → Section T Bool
  unfolding store
  push v q = do
    wait (q.closed || not (Ring.full q.buffer))
    if q.closed then ok (q, false, []) else store v q

  unfoldable pub emplace : T → Queue T → Section T Bool
  unfolding store wait_not_full
  emplace v q = do ready ← wait_not_full q; if not ready then ok (q, false, []) else store v q

  unfoldable pub pop : Queue T → Section T (Option T)
  unfolding take_front
  pop q = do
    wait (q.closed || not (Ring.empty q.buffer))
    if Ring.empty q.buffer then ok (q, none, []) else take_front q

  unfoldable pub try_push : T → Queue T → Section T Bool
  unfolding store
  try_push v q = if q.closed || Ring.full q.buffer then ok (q, false, []) else store v q

  unfoldable pub try_emplace : T → Queue T → Section T Bool
  unfolding store
  try_emplace v q = if q.closed || Ring.full q.buffer then ok (q, false, []) else store v q

  unfoldable pub push_for : Bool → T → Queue T → Section T Bool
  unfolding store wait_not_full_until
  push_for timed_out v q = do
    ready ← wait_not_full_until timed_out q
    if not ready then ok (q, false, []) else store v q

  unfoldable pub emplace_for : Bool → T → Queue T → Section T Bool
  unfolding store wait_not_full_until
  emplace_for timed_out v q = do
    ready ← wait_not_full_until timed_out q
    if not ready then ok (q, false, []) else store v q

  unfoldable pub try_pop : Queue T → Section T (Option T)
  unfolding take_front
  try_pop q = if Ring.empty q.buffer then ok (q, none, []) else take_front q

  unfoldable pub pop_for : Bool → Queue T → Section T (Option T)
  unfolding take_front wait_not_empty_until
  pop_for timed_out q = do
    ready ← wait_not_empty_until timed_out q
    if not ready then ok (q, none, []) else take_front q

  -- `pushed = buffer_.push_batch(values); ... if (pushed > 0) not_empty_.notify_one();`
  store_batch : List T → Queue T → Section T ℕ
  store_batch vs q = do
    (buffer, pushed) ← Ring.push_batch vs q.buffer
    ok (record q { buffer = buffer }, pushed, (if ltb 0 pushed then not_empty_one ∷ [] else []))

  unfoldable pub push_batch : List T → Queue T → Section T ℕ
  unfolding store_batch
  push_batch vs q = do
    wait (q.closed || is_empty vs || ltb q.buffer.size q.buffer.capacity)
    if is_empty vs || q.closed then ok (q, 0, []) else store_batch vs q

  -- `popped = buffer_.pop_batch(output); ... if (popped > 0) not_full_.notify_one();`
  take_batch : ℕ → Queue T → Section T (List T)
  take_batch room q = do
    (out, buffer) ← Ring.pop_batch room q.buffer
    ok (record q { buffer = buffer }, out, (if ltb 0 (length out) then not_full_one ∷ [] else []))

  -- `room` is `output.size()`.
  unfoldable pub pop_batch : ℕ → Queue T → Section T (List T)
  unfolding take_batch
  pop_batch room q = do
    wait (q.closed || room == 0 || not (Ring.empty q.buffer))
    if room == 0 then ok (q, [], []) else take_batch room q

  unfoldable pub close : Queue T → Section T (Unit {0})
  close q =
      if q.closed
      then ok (q, tt, [])
      else ok (record q { closed = true }, tt, not_empty_all ∷ not_full_all ∷ [])

  -- A call with its result as a reply.
  abbrev replying : {A : Type 0} → (A → Reply T) → Section T A → Section T (Reply T)
  replying f m = m >>= λ s. ok (s.0, f s.1, s.2)

  unfoldable pub step : Call T → Queue T → Section T (Reply T)
  step (Call.push v) q = replying flag (push v q)
  step (Call.emplace v) q = replying flag (emplace v q)
  step (Call.try_push v) q = replying flag (try_push v q)
  step (Call.try_emplace v) q = replying flag (try_emplace v q)
  step (Call.push_for t v) q = replying flag (push_for t v q)
  step (Call.emplace_for t v) q = replying flag (emplace_for t v q)
  step Call.pop q = replying value (pop q)
  step Call.try_pop q = replying value (try_pop q)
  step (Call.pop_for t) q = replying value (pop_for t q)
  step (Call.push_batch vs) q = replying count (push_batch vs q)
  step (Call.pop_batch room) q = replying values (pop_batch room q)
  step Call.close q = replying (λ _. nothing) (close q)
