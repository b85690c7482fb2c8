-- ===== src/MiniRpc/Client/Sections.antt =====
-- The critical sections of `RpcClient` of code/MiniRPC/src/rpc_client.cpp. A call that leaves the map
-- of pending calls is returned by the section that takes it out.
use unix_notes.Prelude.{
  ℕ, ◌+◌, ◌-◌, ◌*◌, ◌%◌, Bool, true, false, not, ◌&&◌, ◌||◌, List, [], ◌∷◌, Option, none, some, leb,
  ◌==◌, if◌then◌else◌, ℤ, pos, add_size, min,
}
use unix_notes.MiniRpc.Protocol.{RpcResponse}
use unix_notes.MiniRpc.Client.{
  ClientConnectionState, PendingState, PendingCall, Client, initial_reconnect_delay,
  max_reconnect_delay, is_connected, is_disconnected, is_reconnecting, is_waiting, is_sent,
  count_response, disconnected, connecting, sent,
}

module _ {C : Type 0} where
  unfoldable pub new : Client C
  new = record {
    next_request_id = 1;
    connection_state = disconnected;
    desired_connected = false;
    stopping = false;
    connection_error = pos 0;
    reconnect_delay = initial_reconnect_delay;
    reconnect_timer_id = 0;
    counters = record {
      total_calls = 0;
      success_calls = 0;
      failed_calls = 0;
      timeout_calls = 0;
      cancelled_calls = 0;
      reconnect_count = 0;
    };
    pending_calls = [];
  }

  -- `nextRequestId`, and the total of calls.
  unfoldable pub next_id : Client C → Client C × ℕ
  next_id c =
      let id = c.next_request_id in
      let request_id = if id == 0 then add_size id 1 else id in
      (record c { next_request_id = add_size request_id 1 }, request_id)

  unfoldable pub count_call : Client C → Client C
  count_call c = record c {
    counters = record c.counters { total_calls = add_size c.counters.total_calls 1 };
  }

  unfoldable pub record_client_response : RpcResponse → Client C → Client C
  unfolding count_response
  record_client_response response c = record c {
    counters = count_response response.error_code c.counters;
  }

  -- The section of `callAsyncInternal` on the state of the connection: `shouldStartConnect`,
  -- `shouldFailFast` and `clientStopping`.
  unfoldable pub admit : Bool → Client C → Client C × Bool × Bool × Bool
  admit fail_fast c =
      let start = is_disconnected c.connection_state in
      if c.stopping
      then (c, false, true, true)
      else if is_connected c.connection_state
      then (c, false, false, false)
      else if fail_fast
      then (c, false, true, false)
      else (
        record c {
          desired_connected = true;
          connection_state = (if start then connecting else c.connection_state);
        },
        start,
        false,
        false,
      )

  -- `pendingCalls_.find(id)`
  unfoldable pub find : ℕ → List (PendingCall C) → Option (PendingCall C)
  find id [] = none
  find id (p ∷ ps) = if p.request_id == id then some p else find id ps

  -- `pendingCalls_.erase(found)`, where `found` is at the key `id`.
  unfoldable pub erase : ℕ → List (PendingCall C) → List (PendingCall C)
  erase id [] = []
  erase id (p ∷ ps) = if p.request_id == id then ps else p ∷ erase id ps

  -- `pendingCalls_.emplace(id, pending)`: a key that is there keeps its value.
  unfoldable pub emplace : PendingCall C → Client C → Client C
  unfolding find
  emplace p c = elim (find p.request_id c.pending_calls) [
    | none ↦ record c { pending_calls = p ∷ c.pending_calls }
    | some _ ↦ c
  ]

  abbrev pub with_state : PendingState → PendingCall C → PendingCall C
  with_state state p = record p { state = state }

  -- The sections of `completeResponse` and `failPending`: the call leaves the map in a new state.
  unfoldable pub take_out : ℕ → PendingState → Client C → Client C × Option (PendingCall C)
  unfolding find erase
  take_out id state c = elim (find id c.pending_calls) [
    | none ↦ (c, none)
    | some p ↦ (record c { pending_calls = erase id c.pending_calls }, some (with_state state p))
  ]

  unfoldable pub all_failed : List (PendingCall C) → List (PendingCall C)
  all_failed [] = []
  all_failed (p ∷ ps) = with_state PendingState.failed p ∷ all_failed ps

  -- The section of `failAllPending`.
  unfoldable pub take_all : Client C → Client C × List (PendingCall C)
  unfolding all_failed
  take_all c = (record c { pending_calls = [] }, all_failed c.pending_calls)

  -- The loop of `failSentPending`: the calls that stay, and those that leave.
  unfoldable pub split_sent : List (PendingCall C) → List (PendingCall C) × List (PendingCall C)
  split_sent [] = ([], [])
  split_sent (p ∷ ps) =
      let (kept, taken) = split_sent ps in
      if is_sent p.state || p.options.fail_fast
      then (kept, with_state PendingState.failed p ∷ taken)
      else (p ∷ kept, taken)

  unfoldable pub take_sent : Client C → Client C × List (PendingCall C)
  unfolding split_sent
  take_sent c =
      let (kept, taken) = split_sent c.pending_calls in (record c { pending_calls = kept }, taken)

  abbrev pub completed_retries : PendingCall C → ℕ
  completed_retries p = if p.request.attempt == 0 then 0 else p.request.attempt - 1

  -- `++pending->request.attempt`, of 32 bits.
  abbrev pub next_attempt : PendingCall C → PendingCall C
  next_attempt p = record p {
    request = record p.request { attempt = (p.request.attempt + 1) % 0x1_0000_0000 };
  }

  -- The loop of `expireRetryExhaustedPending`: the calls that stay, those that leave, and
  -- `hasWaiting`.
  unfoldable pub split_exhausted :
      List (PendingCall C) → List (PendingCall C) × List (PendingCall C) × Bool
  split_exhausted [] = ([], [], false)
  split_exhausted (p ∷ ps) =
      let (kept, taken, waiting) = split_exhausted ps in
      if not (is_waiting p.state)
      then (p ∷ kept, taken, waiting)
      else if not p.options.retry_enabled
      then (p ∷ kept, taken, true)
      else if leb p.options.max_retries (completed_retries p)
      then (kept, with_state PendingState.failed p ∷ taken, waiting)
      else (next_attempt p ∷ kept, taken, true)

  unfoldable pub take_exhausted : Client C → Client C × List (PendingCall C) × Bool
  unfolding split_exhausted
  take_exhausted c =
      let (kept, taken, waiting) = split_exhausted c.pending_calls in
      (record c { pending_calls = kept }, taken, waiting)

  -- The calls that `sendPendingCalls` finds ready, and its test before.
  unfoldable pub ready : List (PendingCall C) → List (PendingCall C)
  ready [] = []
  ready (p ∷ ps) = if is_waiting p.state then p ∷ ready ps else ready ps

  unfoldable pub mark_sent : ℕ → List (PendingCall C) → List (PendingCall C)
  mark_sent id [] = []
  mark_sent id (p ∷ ps) = if p.request_id == id then with_state sent p ∷ ps else p ∷ mark_sent id ps

  -- The section of `sendPendingCall`, and whether the call is to be sent.
  unfoldable pub claim : (request_id address : ℕ) → Client C → Client C × Bool
  unfolding find mark_sent
  claim request_id address c = elim (find request_id c.pending_calls) [
    | none ↦ (c, false)
    | some found ↦
        if found.address == address && is_waiting found.state
        then (record c { pending_calls = mark_sent request_id c.pending_calls }, true)
        else (c, false)
  ]

  -- The sections of `onConnection`, `onConnectionError` and the destructor.
  unfoldable pub reset_delay : Client C → Client C
  reset_delay c = record c { reconnect_delay = initial_reconnect_delay }

  abbrev pub should_reconnect : Client C → Bool
  should_reconnect c = c.desired_connected && not c.stopping

  unfoldable pub note_error : ℤ → Client C → Client C × Bool
  note_error error c = (record c { connection_error = error }, should_reconnect c)

  unfoldable pub begin_stop : Client C → Client C
  begin_stop c = record c {
    stopping = true;
    desired_connected = false;
    connection_state = ClientConnectionState.stopping;
  }

  -- The first section of `scheduleReconnect`: the delay of the timer to be armed.
  unfoldable pub plan_reconnect : Client C → Client C × Option ℕ
  plan_reconnect c =
      if not c.desired_connected || c.stopping || not (c.reconnect_timer_id == 0)
      then (c, none)
      else (
        record c { reconnect_delay = min max_reconnect_delay (c.reconnect_delay * 2) },
        some c.reconnect_delay,
      )

  -- The section of the timer's callback, and whether it goes on to connect.
  unfoldable pub reconnect_fires : Client C → Client C × Bool
  reconnect_fires c = (record c { reconnect_timer_id = 0 }, should_reconnect c)

  unfoldable pub set_reconnect_timer : ℕ → Client C → Client C
  set_reconnect_timer timer_id c = record c { reconnect_timer_id = timer_id }

  -- The section of `updateConnectionState`, and its counter.
  unfoldable pub set_state : ClientConnectionState → Client C → Client C
  set_state state c = record c { connection_state = state }

  unfoldable pub count_reconnect : ClientConnectionState → Client C → Client C
  count_reconnect state c =
      if is_reconnecting state
      then record c {
        counters = record c.counters { reconnect_count = add_size c.counters.reconnect_count 1 };
      }
      else c

  -- The first section of `connect`: its result if it returns there, and `startConnection`.
  unfoldable pub begin_connect : Client C → Client C × Option Bool × Bool
  begin_connect c =
      let wanted = record c { desired_connected = true; connection_error = pos 0 } in
      if c.stopping
      then (c, some false, false)
      else if is_connected c.connection_state
      then (wanted, some true, false)
      else if is_disconnected c.connection_state
      then (record wanted { connection_state = connecting }, none, true)
      else (wanted, none, false)

  -- The predicate that `connect` waits for.
  abbrev pub is_terminal : Client C → Bool
  is_terminal c =
      is_connected c.connection_state || is_disconnected c.connection_state || c.stopping

  -- The section of `disconnect`, and of `connect` when it gives up.
  unfoldable pub give_up : Client C → Client C
  give_up c = record c { desired_connected = false; connection_state = disconnected }
