-- ===== src/BlockingQueue/Schedule.antt =====
-- A schedule: the critical sections that the threads of a program enter, in the order in which they
-- get the mutex. A call whose wait predicate does not hold is logged as waiting, and its thread may
-- try again later in the schedule.
use unix_notes.Prelude.{List, [], ◌∷◌, ◌++◌, Outcome, ok, throws, blocks, undefined, ◌>>=◌}
use unix_notes.BlockingQueue.Call.{Signal, Call, Reply, waiting, accepted, delivered}

abbrev pub Log : Type 0 → Type 0
Log T = List (Call T × Reply T)

module _ {T S : Type 0} where
  abbrev pub logged : Call T → Reply T → Outcome (S × Log T) → Outcome (S × Log T)
  logged c r m = m >>= λ t. ok (t.0, (c, r) ∷ t.1)

  -- The rest of the schedule, after the first call has ended as it did.
  abbrev pub resume :
      Call T
      → (S → Outcome (S × Log T))
      → S
      → Outcome (S × Reply T × List Signal)
      → Outcome (S × Log T)
  resume c rest s (ok (s', r, _)) = logged c r (rest s')
  resume c rest s (throws e) = throws e
  resume c rest s blocks = logged c waiting (rest s)
  resume c rest s undefined = undefined

  unfoldable pub run :
      (Call T → S → Outcome (S × Reply T × List Signal)) → List (Call T) → S → Outcome (S × Log T)
  run step [] s = ok (s, [])
  run step (c ∷ cs) s = resume c (run step cs) s (step c s)

module _ {T : Type 0} where
  -- The values put in, and those taken out, over a log.
  abbrev pub puts : Log T → List T
  puts [] = []
  puts ((c, r) ∷ log) = accepted c r ++ puts log

  abbrev pub gots : Log T → List T
  gots [] = []
  gots ((c, r) ∷ log) = delivered r ++ gots log
