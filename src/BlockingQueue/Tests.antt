-- ===== src/BlockingQueue/Tests.antt =====
-- The bounded queue at concrete inputs: a ring whose window goes round the end of its storage, and
-- a queue over it.
use unix_notes.Prelude.{
  ℕ, zero, suc, ◌<◌, ◌≤◌, ◌≡◌, refl, List, [], ◌∷◌, ◌++◌, map, none, some, true, arith, length,
  returned, Returns, Agrees, All, ◌>>=◌, get_or, ◌+◌, ◌%◌,
}
use mathlib.Core.Option
use unix_notes.BlockingQueue.Ring
use unix_notes.BlockingQueue.Ring.{Ring}
use unix_notes.BlockingQueue.Ring.Refine.{Holds}
use unix_notes.BlockingQueue.Call.{Call}
use unix_notes.BlockingQueue.Channel.{Channel}
use unix_notes.BlockingQueue.Channel
use unix_notes.BlockingQueue.Channel.Laws.{Returned}
use unix_notes.BlockingQueue.Schedule.{run, puts, gots}
use unix_notes.BlockingQueue.Queue
use unix_notes.BlockingQueue.Queue.{Queue, new, step}
use unix_notes.BlockingQueue.Queue.Refine.{Represents, SameAnswer, step_refines}
use unix_notes.BlockingQueue.Queue.History.{schedule_fifo, closed_drains}

-- 5, then 7, round the end of three slots.
abbrev wrapped : Ring ℕ
wrapped = record {
  buffer = some 7 ∷ none ∷ some 5 ∷ [];
  capacity = 3;
  head = 2;
  tail = 1;
  size = 2;
}

abbrev held : List ℕ
held = 5 ∷ 7 ∷ []

wrapped_slot :
    (i : ℕ) → i < 3 → get_or wrapped.buffer ((2 + i) % 3) none ≡ get_or (map some held) i none
wrapped_slot zero h = refl
wrapped_slot (suc zero) h = refl
wrapped_slot (suc (suc zero)) h = refl
wrapped_slot (suc (suc (suc i))) h = absurd (omega arith)

wrapped-Holds : Holds 3 wrapped held
wrapped-Holds = record {
  turns = record {
    word = omega arith;
    same_bound = refl;
    tail_at = refl;
    window = record {
      storage = refl;
      head_in = omega arith;
      fits = omega arith;
      slot = wrapped_slot;
    };
  };
  count = refl;
}

abbrev shut_queue : Queue ℕ
shut_queue = record { capacity = 3; buffer = wrapped; closed = true }

shut_queue-Represents : Represents 3 shut_queue (record { items = held; closed = true })
shut_queue-Represents = record { holds = wrapped-Holds; same_flag = refl; same_capacity = refl }

abbrev calls : List (Call ℕ)
calls =
    Call.push 1
    ∷ Call.push_batch (2 ∷ 3 ∷ 4 ∷ [])
    ∷ Call.push 5
    ∷ Call.pop
    ∷ Call.pop_batch 5
    ∷ Call.pop
    ∷ Call.close
    ∷ Call.try_push 9
    ∷ Call.pop
    ∷ []

step_refines_example :
    Agrees
      (SameAnswer 3)
      (step Call.pop shut_queue)
      (Channel.step 3 Call.pop (record { items = held; closed = true }))
step_refines_example = step_refines Call.pop shut_queue _ shut_queue-Represents

schedule_fifo_example : Returns (new 2 >>= run step calls) (λ s.
    (items : List ℕ) × Holds 2 s.0.buffer items
    × (puts s.1 ≡ gots s.1 ++ items)
    × (length items ≤ 2))
schedule_fifo_example = schedule_fifo 2 calls (omega arith) (omega arith)

closed_drains_example :
    Returns (run step (Call.push 1 ∷ Call.pop ∷ Call.pop ∷ Call.pop ∷ []) shut_queue) (λ s.
      All (λ entry. Returned entry.1) s.1
      × (puts s.1 ≡ [])
      × (s.0.closed ≡ true)
      × ((left : List ℕ) × (held ≡ gots s.1 ++ left)))
closed_drains_example =
    closed_drains (Call.push 1 ∷ Call.pop ∷ Call.pop ∷ Call.pop ∷ []) shut_queue held
      shut_queue-Represents

-- The calls above on a queue of two: the second push of the batch fits, a push waits, and once
-- closed the queue refuses.
schedule_run :
    Option.map {B = List ℕ × List ℕ}
      (λ s. (puts s.1, gots s.1))
      (returned (new 2 >>= run step calls))
    ≡ some (1 ∷ 2 ∷ [], 1 ∷ 2 ∷ [])
unfolding new run step Ring.new Ring.full Ring.emplace Ring.push_batch Ring.empty Ring.front
    Ring.pop_front Ring.pop_batch Queue.push Queue.push_batch Queue.pop Queue.pop_batch Queue.close
    Queue.try_push
schedule_run = refl
