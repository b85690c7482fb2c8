-- ===== src/MiniRpc/Client/Written.antt =====
-- The frames that `RpcClient` of code/MiniRPC/src/rpc_client.cpp writes, over any interleaving.
use unix_notes.Prelude.{
  pick, sum, Picked, pick-Picked, ℕ, ◌+◌, ◌≤◌, ◌<◌, ◌≡◌, refl, ap, List, [], ◌∷◌, Option, none,
  some, arith, length, if◌then◌else◌, size_limit,
}
use unix_notes.MiniRpc.Protocol.{RpcRequest}
use unix_notes.MiniRpc.Client.{
  PendingState, RpcCallOptions, PendingCall, is_waiting, failed_state, fill_request,
}
use unix_notes.MiniRpc.Client.Sections
use unix_notes.MiniRpc.Client.System
use unix_notes.MiniRpc.Client.Sections.{
  new, next_id, count_call, record_client_response, admit, find, erase, emplace, with_state,
  take_out, all_failed, take_all, split_sent, take_sent, completed_retries, next_attempt,
  split_exhausted, take_exhausted, ready, mark_sent, claim, reset_delay, should_reconnect,
  note_error, begin_stop, plan_reconnect, reconnect_fires, set_reconnect_timer, set_state,
  count_reconnect, begin_connect, is_terminal, give_up,
}
use unix_notes.MiniRpc.Client.System.{
  Completion, System, LinkEvent, Event, start, completion, with_error, new_call, ends_early,
  begin_step, count_step, refused, admit_picked, register_picked, finish_picked, leaving,
  all_leaving, link_step, claim_step, step, run,
}
use unix_notes.MiniRpc.Client.Weigh.{here, link-pending, begun}
use unix_notes.MiniRpc.Client.Counts.{issued, one, Ledger, step-Counts}
use unix_notes.MiniRpc.Client.Ledger.{step-Ledger, start-Ledger}

module _ {C : Type 0} where
  module _ (w : ℕ → ℕ) where
    -- The calls that wait to be sent.
    abbrev unsent_weight : PendingCall C → ℕ
    unsent_weight p = if is_waiting p.state then w p.request_id else 0

    abbrev pub unsent : List (PendingCall C) → ℕ
    unsent = sum unsent_weight

    -- The frames written, and those that may still be.
    abbrev pub sendable : System C → ℕ
    sendable s =
        unsent s.calling + unsent s.admitted + unsent s.client.pending_calls + sum w s.written

    unsent-erase : (id : ℕ) (ps : List (PendingCall C)) → unsent (erase id ps) ≤ unsent ps
    unfolding erase
    unsent-erase id [] = omega arith
    unsent-erase id (p ∷ ps) = ground (arith, unsent-erase id ps)

    unsent-split_sent : (ps : List (PendingCall C)) → unsent (split_sent ps).0 ≤ unsent ps
    unfolding split_sent
    unsent-split_sent [] = omega arith
    unsent-split_sent (p ∷ ps) = ground (arith, unsent-split_sent ps)

    unsent-split_exhausted : (ps : List (PendingCall C)) → unsent (split_exhausted ps).0 ≤ unsent ps
    unfolding split_exhausted
    unsent-split_exhausted [] = omega arith
    unsent-split_exhausted (p ∷ ps) = ground (arith, unsent-split_exhausted ps)

    -- A waiting call that is marked as sent no longer waits.
    abbrev Marked : ℕ → List (PendingCall C) → Option (PendingCall C) → Type 0
    Marked id ps none = Unit
    Marked id ps (some p) =
        unsent (mark_sent id ps) + (if is_waiting p.state then w id else 0) ≡ unsent ps

    find-Marked : (id : ℕ) (ps : List (PendingCall C)) → Marked id ps (find id ps)
    unfolding find mark_sent
    find-Marked id [] = tt
    find-Marked id (p ∷ ps) = ground (arith, find-Marked id ps)

    leaving-sendable :
        (end : PendingCall C → Completion C) (id : ℕ) (state : PendingState) (s : System C)
        → sendable (leaving end s (Sections.take_out id state s.client)) ≤ sendable s
    unfolding Sections.take_out
    leaving-sendable end id state s = ground (arith, unsent-erase id s.client.pending_calls)

    admit-sendable :
        (s : System C) (o : Option (PendingCall C × List (PendingCall C)))
        → Picked unsent_weight s.calling o
        → sendable (admit_picked s o) ≤ sendable s
    unfolding admit_picked Sections.admit
    admit-sendable s none h = omega arith
    admit-sendable s (some (p, calling)) h = ground arith

    register-sendable :
        (s : System C) (o : Option (PendingCall C × List (PendingCall C)))
        → Picked unsent_weight s.admitted o
        → sendable (register_picked s o) ≤ sendable s
    unfolding register_picked Sections.emplace
    register-sendable s none h = omega arith
    register-sendable s (some (p, admitted)) h = ground arith

    finish-sendable :
        (s : System C) (o : Option (Completion C × List (Completion C)))
        → sendable (finish_picked s o) ≤ sendable s
    unfolding finish_picked Sections.record_client_response
    finish-sendable s none = omega arith
    finish-sendable s (some (d, completing)) = omega arith

    claim_found-sendable :
        (id address : ℕ) (s : System C) (o : Option (PendingCall C))
        → find id s.client.pending_calls ≡ o
        → Marked id s.client.pending_calls o
        → sendable (claim_step id address s) ≤ sendable s
    unfolding claim_step Sections.claim
    claim_found-sendable id address s none e h = ground (arith, e)
    claim_found-sendable id address s (some p) e h = ground (arith, e)

    begin-sendable :
        (now address timer_id : ℕ) (what : List ℕ) (request : RpcRequest) (options : RpcCallOptions)
        (callback : Option C) (s : System C)
        → sendable (begin_step now address timer_id what request options callback s)
          ≤ w (Sections.next_id s.client).1 + sendable s
    unfolding begin_step Sections.next_id Sections.count_call fill_request
    begin-sendable now address timer_id what request options callback s = ground arith

    count-sendable : (s : System C) → sendable (count_step s) ≤ sendable s
    unfolding count_step Sections.count_call
    count-sendable s = ground arith

    -- An event adds no more than the call that it begins.
    step-sendable : (e : Event C) (s : System C) → sendable (step e s) ≤ begun w e s + sendable s
    unfolding step Sections.take_all Sections.take_sent Sections.take_exhausted
    step-sendable (Event.begin now address timer_id what request options callback) s =
        begin-sendable now address timer_id what request options callback s
    step-sendable Event.count s = omega (arith, count-sendable s)
    step-sendable (Event.admit place) s =
        omega (
          arith,
          admit-sendable s (pick place s.calling) (pick-Picked unsent_weight place s.calling),
        )
    step-sendable (Event.register place) s = omega (
      arith,
      register-sendable s (pick place s.admitted) (pick-Picked unsent_weight place s.admitted),
    )
    step-sendable (Event.finish place) s =
        omega (arith, finish-sendable s (pick place s.completing))
    step-sendable (Event.respond response) s =
        omega (
          arith,
          leaving-sendable (completion response) response.request_id PendingState.completed s,
        )
    step-sendable (Event.fail id code message) s =
        omega (arith, leaving-sendable (with_error code message) id (failed_state code) s)
    step-sendable (Event.fail_all code message) s = omega arith
    step-sendable (Event.fail_sent code message) s =
        omega (arith, unsent-split_sent s.client.pending_calls)
    step-sendable (Event.expire code message) s =
        omega (arith, unsent-split_exhausted s.client.pending_calls)
    step-sendable (Event.claim id address) s =
        omega
          (arith, claim_found-sendable id address s _ refl (find-Marked id s.client.pending_calls))
    step-sendable (Event.link e) s = omega (arith, ap unsent (link-pending one e s.client))

  run-sendable :
      (events : List (Event C)) (id : ℕ) (s : System C)
      → Ledger s
      → sendable (here id) s ≤ issued s.client.next_request_id id
      → s.client.counters.total_calls + s.uncounted + length events + 2 < size_limit
      → sendable (here id) (run events s) ≤ issued (run events s).client.next_request_id id
  unfolding run
  run-sendable [] id s l h room = h
  run-sendable (e ∷ events) id s l h room =
      let (l', small) = step-Ledger e s l (omega arith) in
      run-sendable events id (step e s) l'
        (omega (arith, h, step-sendable (here id) e s, (step-Counts e s l (omega arith)).ids id))
        (omega arith)

sendable-start :
    (C : Type 0) (id : ℕ)
    → sendable (here id) (System.start {C = C})
      ≤ issued (System.start {C = C}).client.next_request_id id
unfolding System.start Sections.new
sendable-start C id = ground arith

module _ {C : Type 0} where
  -- Over any interleaving, fewer than 2 ^ 64 - 2 events from a new client on, the frame of each id
  -- is written at most once, and only if the id has been given out; once it is written, the call
  -- does not wait to be sent any more, whatever the connection does.
  pub written_once :
      (events : List (Event C)) (id : ℕ)
      → length events + 2 < size_limit
      → let s = run events System.start in
        sum (here id) s.written + unsent (here id) s.client.pending_calls
        ≤ issued s.client.next_request_id id
  unfolding System.start Sections.new
  written_once events id room = omega (
    arith,
    run-sendable events id System.start start-Ledger (sendable-start C id) (omega (arith, room)),
  )
