-- ===== src/BlockingQueue/Channel.antt =====
-- What `BlockingQueue` promises: a bounded list of values, oldest first, and a flag that closes it.
-- Written down call by call, with no ring, index or wait predicate in sight.
pub mod Laws
use unix_notes.Prelude.{
  ℕ, ◌-◌, Bool, true, false, List, [], ◌∷◌, ◌++◌, Option, none, some, length, take, drop, min, ◌==◌,
  if◌then◌else◌, Outcome, ok, throws, blocks, undefined,
}
use unix_notes.BlockingQueue.Call
use unix_notes.BlockingQueue.Call.{
  Signal, not_empty_one, not_full_one, not_empty_all, not_full_all, Call, Reply, flag, value, count,
  values, nothing, waiting,
}

pub record Channel (T : Type 0) : Type 0 where
  pub items : List T
  pub closed : Bool

abbrev pub Answer : Type 0 → Type 0
Answer T = Outcome (Channel T × Reply T × List Signal)

module _ {T : Type 0} where
  -- Put one value: refused once closed; on a full channel the call ends as `full` says.
  abbrev pub put : ℕ → Answer T → T → Channel T → Answer T
  put bound full v c =
      if c.closed
      then ok (c, flag false, [])
      else if length c.items == bound
      then full
      else ok (record c { items = c.items ++ (v ∷ []) }, flag true, not_empty_one ∷ [])

  -- Take one value: on an empty channel the call ends as `empty` says.
  abbrev pub get_from : Answer T → Channel T → List T → Answer T
  get_from empty c [] = empty
  get_from empty c (x ∷ xs) = ok (record c { items = xs }, value (some x), not_full_one ∷ [])

  -- A timed wait ends with `refused` once the deadline has passed.
  abbrev pub timed : Bool → Answer T → Answer T
  timed true refused = refused
  timed false refused = blocks

  abbrev pub put_batch : ℕ → List T → Channel T → Answer T
  put_batch bound [] c = ok (c, count 0, [])
  put_batch bound (v ∷ vs) c =
      if c.closed
      then ok (c, count 0, [])
      else if length c.items == bound
      then blocks
      else ok (
        record c { items = c.items ++ take (bound - length c.items) (v ∷ vs) },
        count (min (length (v ∷ vs)) (bound - length c.items)),
        not_empty_one ∷ [],
      )

  abbrev pub get_batch_from : ℕ → Channel T → List T → Answer T
  get_batch_from room c [] = if c.closed then ok (c, values [], []) else blocks
  get_batch_from room c (x ∷ xs) =
      ok (record c { items = drop room (x ∷ xs) }, values (take room (x ∷ xs)), not_full_one ∷ [])

  unfoldable pub step : ℕ → Call T → Channel T → Answer T
  step bound (Call.push v) c = put bound blocks v c
  step bound (Call.emplace v) c = put bound blocks v c
  step bound (Call.try_push v) c = put bound (ok (c, flag false, [])) v c
  step bound (Call.try_emplace v) c = put bound (ok (c, flag false, [])) v c
  step bound (Call.push_for t v) c = put bound (timed t (ok (c, flag false, []))) v c
  step bound (Call.emplace_for t v) c = put bound (timed t (ok (c, flag false, []))) v c
  step bound Call.pop c = get_from (if c.closed then ok (c, value none, []) else blocks) c c.items
  step bound Call.try_pop c = get_from (ok (c, value none, [])) c c.items
  step bound (Call.pop_for t) c =
      get_from (if c.closed then ok (c, value none, []) else timed t (ok (c, value none, []))) c
        c.items
  step bound (Call.push_batch vs) c = put_batch bound vs c
  step bound (Call.pop_batch room) c =
      if room == 0 then ok (c, values [], []) else get_batch_from room c c.items
  step bound Call.close c =
      if c.closed
      then ok (c, nothing, [])
      else ok (record c { closed = true }, nothing, not_empty_all ∷ not_full_all ∷ [])
