-- ===== src/MiniRpc/Client/System.antt =====
-- The threads around a `RpcClient` of code/MiniRPC/src/rpc_client.cpp: callers, the event loop's
-- thread with its timers and messages, and futures that are cancelled. An event is one critical
-- section with what its thread does on its own before it; any thread may be next, so every list of
-- events is an interleaving. Deadlines may pass at any time, the server may answer with anything, and
-- the connection may change as it likes.
use unix_notes.Prelude.{
  pick, ℕ, zero, suc, ◌+◌, Bool, not, List, [], ◌∷◌, ◌++◌, map, Option, none, some, if◌then◌else◌,
  ℤ, codes, ok,
}
use unix_notes.MiniRpc.Protocol.{RpcRequest, RpcResponse, RpcErrorCode}
use unix_notes.MiniRpc.Codec.{encode_request}
use unix_notes.MiniRpc.Client.{
  ClientConnectionState, PendingState, RpcCallOptions, PendingCall, Client, error_response,
  failed_state, positive, milliseconds, fill_request, waiting_to_send,
}
use unix_notes.MiniRpc.Client.Sections

-- A call that is out of the map, or never was in it, and the response that it is to end with.
pub record Completion (C : Type 0) : Type 0 where
  pub request_id : ℕ
  pub callback : Option C
  pub response : RpcResponse

-- `calling` are the calls before the section on the connection's state, `admitted` those between it
-- and `emplace`, `completing` those that a thread is about to complete; `completed` and `written`
-- are the calls completed and the ids of the frames written so far, the last first. `uncounted` is how
-- many calls have got their ids and are not in the total of calls yet.
pub record System (C : Type 0) : Type 0 where
  pub client : Client C
  pub uncounted : ℕ
  pub calling : List (PendingCall C)
  pub admitted : List (PendingCall C)
  pub completing : List (Completion C)
  pub completed : List (Completion C)
  pub written : List ℕ

-- What the connection, its timer and the calls of `connect`, `disconnect` and the destructor do to
-- the client.
pub data LinkEvent : Type 0 where
  reset_delay begin_stop plan_reconnect reconnect_fires begin_connect give_up : LinkEvent
  note_error : ℤ → LinkEvent
  set_reconnect_timer : ℕ → LinkEvent
  set_state count_reconnect : ClientConnectionState → LinkEvent

pub data Event (C : Type 0) : Type 0 where
  begin :
      (now address timer_id : ℕ) (what : List ℕ) → RpcRequest → RpcCallOptions → Option C → Event C
  count : Event C
  admit register finish : (place : ℕ) → Event C
  respond : RpcResponse → Event C
  fail : ℕ → RpcErrorCode → List ℕ → Event C
  fail_all fail_sent expire : RpcErrorCode → List ℕ → Event C
  claim : (request_id address : ℕ) → Event C
  link : LinkEvent → Event C

module _ {C : Type 0} where
  unfoldable pub start : System C
  start = record {
    client = Sections.new;
    uncounted = 0;
    calling = [];
    admitted = [];
    completing = [];
    completed = [];
    written = [];
  }

  abbrev pub completion : RpcResponse → PendingCall C → Completion C
  completion response p = record {
    request_id = p.request_id;
    callback = p.callback;
    response = response;
  }

  abbrev pub with_error : RpcErrorCode → List ℕ → PendingCall C → Completion C
  with_error code message p = completion (error_response p.request_id code message) p

  -- A call as `callAsyncInternal` makes it.
  abbrev pub new_call :
      (now address timer_id : ℕ) (frame : List ℕ)
      → RpcRequest
      → RpcCallOptions
      → Option C
      → PendingCall C
  new_call now address timer_id frame request options callback = record {
    address = address;
    request_id = request.request_id;
    request = request;
    options = options;
    state = waiting_to_send;
    deadline = now + milliseconds options.timeout;
    callback = callback;
    timer_id = timer_id;
    frame = frame;
  }

  -- A call that ends before it is made.
  abbrev pub ends_early : ℕ → Option C → RpcErrorCode → List ℕ → System C → System C
  ends_early id callback code message s = record s {
    completing =
        record { request_id = id; callback = callback; response = error_response id code message }
        ∷ s.completing;
  }

  -- `callAsyncInternal` up to its section on the connection's state. `what` is the text of the
  -- exception, if the encoder throws.
  unfoldable pub begin_step :
      (now address timer_id : ℕ) (what : List ℕ)
      → RpcRequest
      → RpcCallOptions
      → Option C
      → System C
      → System C
  begin_step now address timer_id what request options callback s =
      let (client, id) = Sections.next_id s.client in
      let numbered = record s { client = client; uncounted = suc s.uncounted } in
      let filled = fill_request id options request in
      if not (positive options.timeout)
      then ends_early id callback RpcErrorCode.timeout
          (codes "RPC call timed out before it was sent") numbered
      else elim (encode_request filled) [
        | ok frame ↦ record numbered {
          calling = new_call now address timer_id frame filled options callback ∷ s.calling;
        }
        | _ ↦ ends_early id callback RpcErrorCode.protocol_error what numbered
      ]

  -- The call counts itself after it has got its id; here this may come as late as it likes.
  unfoldable pub count_step : System C → System C
  count_step s = elim s.uncounted [
    | zero ↦ s
    | suc n ↦ record s { client = Sections.count_call s.client; uncounted = n }
  ]

  -- The call that is refused: its callback has been moved into the call, and the variable that is
  -- tested then is the one it was moved from, which the standard libraries leave empty.
  unfoldable pub refused : (client_stopping : Bool) → PendingCall C → Completion C
  refused client_stopping p =
      let bare = record p { callback = none } in
      if client_stopping
      then with_error RpcErrorCode.client_stopping (codes "RPC client is stopping") bare
      else with_error RpcErrorCode.network_error (codes "RPC client is not connected") bare

  unfoldable pub admit_picked : System C → Option (PendingCall C × List (PendingCall C)) → System C
  admit_picked s none = s
  admit_picked s (some (p, calling)) =
      let (client, _, fail_fast, client_stopping) = Sections.admit p.options.fail_fast s.client in
      let left = record s { client = client; calling = calling } in
      if fail_fast
      then record left { completing = refused client_stopping p ∷ s.completing }
      else record left { admitted = p ∷ s.admitted }

  unfoldable pub register_picked :
      System C → Option (PendingCall C × List (PendingCall C)) → System C
  register_picked s none = s
  register_picked s (some (p, admitted)) = record s {
    client = Sections.emplace p s.client;
    admitted = admitted;
  }

  -- `completePending`: the counters, then the future and the callback.
  unfoldable pub finish_picked : System C → Option (Completion C × List (Completion C)) → System C
  finish_picked s none = s
  finish_picked s (some (done, completing)) = record s {
    client = Sections.record_client_response done.response s.client;
    completing = completing;
    completed = done ∷ s.completed;
  }

  -- A call that has left the map.
  abbrev pub leaving :
      (PendingCall C → Completion C) → System C → Client C × Option (PendingCall C) → System C
  leaving end s (client, none) = record s { client = client }
  leaving end s (client, some p) = record s { client = client; completing = end p ∷ s.completing }

  abbrev pub all_leaving :
      (PendingCall C → Completion C) → System C → Client C → List (PendingCall C) → System C
  all_leaving end s client ps = record s {
    client = client;
    completing = map end ps ++ s.completing;
  }

  unfoldable pub link_step : LinkEvent → Client C → Client C
  link_step LinkEvent.reset_delay c = Sections.reset_delay c
  link_step LinkEvent.begin_stop c = Sections.begin_stop c
  link_step LinkEvent.plan_reconnect c = (Sections.plan_reconnect c).0
  link_step LinkEvent.reconnect_fires c = (Sections.reconnect_fires c).0
  link_step LinkEvent.begin_connect c = (Sections.begin_connect c).0
  link_step LinkEvent.give_up c = Sections.give_up c
  link_step (LinkEvent.note_error error) c = (Sections.note_error error c).0
  link_step (LinkEvent.set_reconnect_timer timer_id) c = Sections.set_reconnect_timer timer_id c
  link_step (LinkEvent.set_state state) c = Sections.set_state state c
  link_step (LinkEvent.count_reconnect state) c = Sections.count_reconnect state c

  unfoldable pub claim_step : (request_id address : ℕ) → System C → System C
  claim_step request_id address s =
      let (client, sends) = Sections.claim request_id address s.client in
      record s { client = client; written = (if sends then request_id ∷ s.written else s.written) }

  unfoldable pub step : Event C → System C → System C
  unfolding begin_step count_step admit_picked register_picked finish_picked claim_step link_step
  step (Event.begin now address timer_id what request options callback) s =
      begin_step now address timer_id what request options callback s
  step Event.count s = count_step s
  step (Event.admit place) s = admit_picked s (pick place s.calling)
  step (Event.register place) s = register_picked s (pick place s.admitted)
  step (Event.finish place) s = finish_picked s (pick place s.completing)
  step (Event.respond response) s =
      leaving (completion response) s
        (Sections.take_out response.request_id PendingState.completed s.client)
  step (Event.fail id code message) s =
      leaving (with_error code message) s (Sections.take_out id (failed_state code) s.client)
  step (Event.fail_all code message) s =
      let (client, ps) = Sections.take_all s.client in
      all_leaving (with_error code message) s client ps
  step (Event.fail_sent code message) s =
      let (client, ps) = Sections.take_sent s.client in
      all_leaving (with_error code message) s client ps
  step (Event.expire code message) s =
      let (client, ps, _) = Sections.take_exhausted s.client in
      all_leaving (with_error code message) s client ps
  step (Event.claim request_id address) s = claim_step request_id address s
  step (Event.link e) s = record s { client = link_step e s.client }

  unfoldable pub run : List (Event C) → System C → System C
  unfolding step
  run [] s = s
  run (e ∷ events) s = run events (step e s)
