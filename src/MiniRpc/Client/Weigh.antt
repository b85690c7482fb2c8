-- ===== src/MiniRpc/Client/Weigh.antt =====
-- The calls of `RpcClient` of code/MiniRPC/src/rpc_client.cpp over one event, counted by a number `w`
-- of each call's id.
use unix_notes.Prelude.{
  pick, sum, sum-append, Picked, pick-Picked, ℕ, ◌+◌, ◌≡◌, refl, ap, List, [], ◌∷◌, map, Option,
  none, some, arith, ◌==◌, if◌then◌else◌,
}
use unix_notes.MiniRpc.Protocol.{RpcRequest}
use unix_notes.MiniRpc.Client.{
  fill_request, PendingState, RpcCallOptions, PendingCall, Client, failed_state, fill_request,
}
use unix_notes.MiniRpc.Client.Sections
use unix_notes.MiniRpc.Client.Sections.{
  new, next_id, count_call, record_client_response, admit, find, erase, emplace, with_state,
  take_out, all_failed, take_all, split_sent, take_sent, completed_retries, next_attempt,
  split_exhausted, take_exhausted, ready, mark_sent, claim, reset_delay, should_reconnect,
  note_error, begin_stop, plan_reconnect, reconnect_fires, set_reconnect_timer, set_state,
  count_reconnect, begin_connect, is_terminal, give_up,
}
use unix_notes.MiniRpc.Client.System.{
  Completion, System, LinkEvent, Event, completion, with_error, begin_step, count_step, refused,
  admit_picked, register_picked, finish_picked, leaving, all_leaving, link_step, claim_step, step,
}

-- The weight that tells one id from the others.
abbrev pub here : ℕ → ℕ → ℕ
here id key = if key == id then 1 else 0

module _ {C : Type 0} where
  module _ (w : ℕ → ℕ) where
    abbrev pub calls : List (PendingCall C) → ℕ
    calls = sum λ p. w p.request_id

    abbrev pub ends : List (Completion C) → ℕ
    ends = sum λ d. w d.request_id

    -- All the calls that there have been, wherever they are now.
    abbrev pub held : System C → ℕ
    held s =
        calls s.calling
        + calls s.admitted
        + calls s.client.pending_calls
        + ends s.completing
        + ends s.completed

    -- What `find` finds under a key, `erase` takes out.
    abbrev Found : ℕ → List (PendingCall C) → Option (PendingCall C) → Type 0
    Found id ps none = Unit
    Found id ps (some p) = (p.request_id ≡ id) × (calls ps ≡ w p.request_id + calls (erase id ps))

    find-Found : (id : ℕ) (ps : List (PendingCall C)) → Found id ps (find id ps)
    unfolding find erase
    find-Found id [] = tt
    find-Found id (p ∷ ps) = ground (arith, find-Found id ps)

    -- The end of a call keeps its id.
    abbrev Keeps : (PendingCall C → Completion C) → Type 0
    Keeps end = (p : PendingCall C) → (end p).request_id ≡ p.request_id

    map-ends :
        (end : PendingCall C → Completion C) (ps : List (PendingCall C))
        → Keeps end
        → ends (map end ps) ≡ calls ps
    map-ends end [] h = refl
    map-ends end (p ∷ ps) h = rw (h p) (omega (arith, map-ends end ps h))

    calls-all_failed : (ps : List (PendingCall C)) → calls (all_failed ps) ≡ calls ps
    unfolding all_failed
    calls-all_failed [] = refl
    calls-all_failed (p ∷ ps) = omega (arith, calls-all_failed ps)

    calls-split_sent :
        (ps : List (PendingCall C))
        → let (kept, taken) = split_sent ps in calls kept + calls taken ≡ calls ps
    unfolding split_sent
    calls-split_sent [] = refl
    calls-split_sent (p ∷ ps) = ground (arith, calls-split_sent ps)

    calls-split_exhausted :
        (ps : List (PendingCall C))
        → let (kept, taken, _) = split_exhausted ps in calls kept + calls taken ≡ calls ps
    unfolding split_exhausted
    calls-split_exhausted [] = refl
    calls-split_exhausted (p ∷ ps) = ground (arith, calls-split_exhausted ps)

    calls-mark_sent : (id : ℕ) (ps : List (PendingCall C)) → calls (mark_sent id ps) ≡ calls ps
    unfolding mark_sent
    calls-mark_sent id [] = refl
    calls-mark_sent id (p ∷ ps) = ground (arith, calls-mark_sent id ps)

    abbrev Parted : Client C → Client C → List (PendingCall C) → Type 0
    Parted c c' taken = calls c'.pending_calls + calls taken ≡ calls c.pending_calls

    taken_all : (c : Client C) → Parted c (Sections.take_all c).0 (Sections.take_all c).1
    unfolding Sections.take_all
    taken_all c = omega (arith, calls-all_failed c.pending_calls)

    taken_sent : (c : Client C) → Parted c (Sections.take_sent c).0 (Sections.take_sent c).1
    unfolding Sections.take_sent
    taken_sent c = calls-split_sent c.pending_calls

    taken_exhausted :
        (c : Client C) → Parted c (Sections.take_exhausted c).0 (Sections.take_exhausted c).1
    unfolding Sections.take_exhausted
    taken_exhausted c = calls-split_exhausted c.pending_calls

    -- A key that is there already is kept, and the new call is lost.
    emplace-calls :
        (p : PendingCall C) (c : Client C)
        → find p.request_id c.pending_calls ≡ none
        → calls (Sections.emplace p c).pending_calls ≡ w p.request_id + calls c.pending_calls
    unfolding Sections.emplace
    emplace-calls p c h = ground (arith, h)

    pub link-pending :
        (e : LinkEvent) (c : Client C) → (link_step e c).pending_calls ≡ c.pending_calls
    unfolding link_step Sections.reset_delay Sections.begin_stop Sections.plan_reconnect
        Sections.reconnect_fires Sections.begin_connect Sections.give_up Sections.note_error
        Sections.set_reconnect_timer Sections.set_state Sections.count_reconnect
    link-pending LinkEvent.reset_delay c = refl
    link-pending LinkEvent.begin_stop c = refl
    link-pending LinkEvent.plan_reconnect c = ground arith
    link-pending LinkEvent.reconnect_fires c = refl
    link-pending LinkEvent.begin_connect c = ground arith
    link-pending LinkEvent.give_up c = refl
    link-pending (LinkEvent.note_error error) c = refl
    link-pending (LinkEvent.set_reconnect_timer timer_id) c = refl
    link-pending (LinkEvent.set_state state) c = refl
    link-pending (LinkEvent.count_reconnect state) c = ground arith

    leaving-held :
        (end : PendingCall C → Completion C) (id : ℕ) (state : PendingState) (s : System C)
        (o : Option (PendingCall C))
        → Keeps end
        → Found id s.client.pending_calls o
        → find id s.client.pending_calls ≡ o
        → held (leaving end s (Sections.take_out id state s.client)) ≡ held s
    unfolding Sections.take_out
    leaving-held end id state s none k f e = ground (arith, e)
    leaving-held end id state s (some p) k (same, f) e = ground (arith, e, k (with_state state p))

    all_leaving-held :
        (end : PendingCall C → Completion C) (s : System C) (client : Client C)
        (ps : List (PendingCall C))
        → Keeps end
        → calls client.pending_calls + calls ps ≡ calls s.client.pending_calls
        → held (all_leaving end s client ps) ≡ held s
    all_leaving-held end s client ps k h =
        omega (arith, map-ends end ps k, sum-append (λ d. w d.request_id) (map end ps) s.completing)

    admit-held :
        (s : System C) (o : Option (PendingCall C × List (PendingCall C)))
        → Picked (λ p. w p.request_id) s.calling o
        → held (admit_picked s o) ≡ held s
    unfolding admit_picked Sections.admit refused
    admit-held s none h = refl
    admit-held s (some (p, calling)) h = ground arith

    finish-held :
        (s : System C) (o : Option (Completion C × List (Completion C)))
        → Picked (λ d. w d.request_id) s.completing o
        → held (finish_picked s o) ≡ held s
    unfolding finish_picked Sections.record_client_response
    finish-held s none h = refl
    finish-held s (some (d, completing)) h = ground arith

    -- A call that is admitted is under no key of the map.
    abbrev pub Fresh : System C → Option (PendingCall C × List (PendingCall C)) → Type 0
    Fresh s none = Unit
    Fresh s (some (p, admitted)) = find p.request_id s.client.pending_calls ≡ none

    register-held :
        (s : System C) (o : Option (PendingCall C × List (PendingCall C)))
        → Picked (λ p. w p.request_id) s.admitted o
        → Fresh s o
        → held (register_picked s o) ≡ held s
    unfolding register_picked
    register-held s none h f = refl
    register-held s (some (p, admitted)) h f = omega (arith, emplace-calls p s.client f)

    claim-held : (id address : ℕ) (s : System C) → held (claim_step id address s) ≡ held s
    unfolding claim_step Sections.claim
    claim-held id address s = ground (arith, calls-mark_sent id s.client.pending_calls)

    begin-held :
        (now address timer_id : ℕ) (what : List ℕ) (request : RpcRequest) (options : RpcCallOptions)
        (callback : Option C) (s : System C)
        → held (begin_step now address timer_id what request options callback s)
          ≡ w (Sections.next_id s.client).1 + held s
    unfolding begin_step Sections.next_id Sections.count_call fill_request
    begin-held now address timer_id what request options callback s = ground arith

    count-held : (s : System C) → held (count_step s) ≡ held s
    unfolding count_step Sections.count_call
    count-held s = ground arith

    -- The call that an event begins.
    abbrev pub begun : Event C → System C → ℕ
    begun (Event.begin now address timer_id what request options callback) s =
        w (Sections.next_id s.client).1
    begun _ s = 0

    abbrev pub NoClash : Event C → System C → Type 0
    NoClash (Event.register place) s = Fresh s (pick place s.admitted)
    NoClash _ s = Unit

    pub step-held :
        (e : Event C) (s : System C) → NoClash e s → held (step e s) ≡ begun e s + held s
    unfolding step
    step-held (Event.begin now address timer_id what request options callback) s h =
        begin-held now address timer_id what request options callback s
    step-held Event.count s h = omega (arith, count-held s)
    step-held (Event.admit place) s h =
        omega (arith, admit-held s (pick place s.calling) (pick-Picked _ place s.calling))
    step-held (Event.register place) s h =
        omega (arith, register-held s (pick place s.admitted) (pick-Picked _ place s.admitted) h)
    step-held (Event.finish place) s h =
        omega (arith, finish-held s (pick place s.completing) (pick-Picked _ place s.completing))
    step-held (Event.respond response) s h = omega (
      arith,
      leaving-held (completion response) response.request_id PendingState.completed s _ (λ p. refl)
          (find-Found response.request_id s.client.pending_calls) refl,
    )
    step-held (Event.fail id code message) s h = omega (
      arith,
      leaving-held (with_error code message) id (failed_state code) s _ (λ p. refl)
          (find-Found id s.client.pending_calls) refl,
    )
    step-held (Event.fail_all code message) s h = omega (
      arith,
      all_leaving-held (with_error code message) s (Sections.take_all s.client).0
          (Sections.take_all s.client).1 (λ p. refl) (taken_all s.client),
    )
    step-held (Event.fail_sent code message) s h = omega (
      arith,
      all_leaving-held (with_error code message) s (Sections.take_sent s.client).0
          (Sections.take_sent s.client).1 (λ p. refl) (taken_sent s.client),
    )
    step-held (Event.expire code message) s h = omega (
      arith,
      all_leaving-held (with_error code message) s (Sections.take_exhausted s.client).0
          (Sections.take_exhausted s.client).1 (λ p. refl) (taken_exhausted s.client),
    )
    step-held (Event.claim id address) s h = omega (arith, claim-held id address s)
    step-held (Event.link e) s h = omega (arith, ap calls (link-pending e s.client))
