-- ===== src/MiniRpc/Client/Handlers.antt =====
-- The operations of `RpcClient` of code/MiniRPC/src/rpc_client.cpp, each as one run of its sections,
-- with what it does outside the client as a list of effects, the last first. What it is told from
-- outside (the clock, the id of a timer, whether there is a connection) are arguments.
use unix_notes.Prelude.{
  ℕ, zero, suc, Bool, true, false, not, ◌||◌, List, [], ◌∷◌, Option, none, some, leb, ◌==◌,
  if◌then◌else◌, ℤ, codes, Outcome, ok, blocks, ◌>>=◌, ◌>>◌, throw_if, wait_until, logic_error,
}
use unix_notes.MiniReactor.Buffer.{Buffer}
use unix_notes.MiniRpc.Protocol.{RpcResponse, RpcErrorCode}
use unix_notes.MiniRpc.Frame.{complete, need_more_data, protocol_error}
use unix_notes.MiniRpc.Codec.{try_decode_response}
use unix_notes.MiniRpc.Client.{
  ClientConnectionState, PendingState, PendingCall, Client, is_connected, error_response,
  failed_state, positive, disconnected, connecting, connected, reconnecting,
}
use unix_notes.MiniRpc.Client.Sections
use unix_notes.MiniRpc.Client.Sections.{
  new, next_id, count_call, record_client_response, admit, find, erase, emplace, with_state,
  take_out, all_failed, take_all, split_sent, take_sent, completed_retries, next_attempt,
  split_exhausted, take_exhausted, ready, mark_sent, claim, reset_delay, should_reconnect,
  note_error, begin_stop, plan_reconnect, reconnect_fires, set_reconnect_timer, set_state,
  count_reconnect, begin_connect, is_terminal, give_up,
}
use unix_notes.MiniRpc.Client.System.{Completion, completion}

-- `fulfil` completes the future of a call and calls its callback.
pub data Effect (C : Type 0) : Type 0 where
  fulfil : Completion C → Effect C
  run_after : (delay : ℕ) → Effect C
  cancel_timer : ℕ → Effect C
  send : List ℕ → Effect C
  connect_tcp stop_tcp : Effect C
  notify : ClientConnectionState → Effect C

pub record Run (C : Type 0) : Type 0 where
  pub client : Client C
  pub effects : List (Effect C)

module _ {C : Type 0} where
  abbrev pub emit : Effect C → Run C → Run C
  emit e r = record r { effects = e ∷ r.effects }

  abbrev pub with_client : Client C → Run C → Run C
  with_client c r = record r { client = c }

  unfoldable pub complete_pending : PendingCall C → RpcResponse → Run C → Run C
  complete_pending p response r =
      let quiet = if p.timer_id == 0 then r else emit (cancel_timer p.timer_id) r in
      emit (fulfil (completion response p))
        (with_client (Sections.record_client_response response quiet.client) quiet)

  unfoldable pub complete_all : RpcErrorCode → List ℕ → List (PendingCall C) → Run C → Run C
  unfolding complete_pending
  complete_all code message [] r = r
  complete_all code message (p ∷ ps) r =
      complete_all code message ps (complete_pending p (error_response p.request_id code message) r)

  abbrev complete_taken : RpcResponse → Client C × Option (PendingCall C) → Run C → Run C
  complete_taken response (c, none) r = with_client c r
  complete_taken response (c, some p) r = complete_pending p response (with_client c r)

  unfoldable pub complete_response : RpcResponse → Run C → Run C
  unfolding complete_pending
  complete_response response r =
      complete_taken response
        (Sections.take_out response.request_id PendingState.completed r.client) r

  unfoldable pub fail_pending : ℕ → RpcErrorCode → List ℕ → Run C → Run C
  unfolding complete_pending
  fail_pending id code message r =
      complete_taken (error_response id code message)
        (Sections.take_out id (failed_state code) r.client) r

  unfoldable pub fail_all_pending : RpcErrorCode → List ℕ → Run C → Run C
  unfolding complete_all
  fail_all_pending code message r =
      let (c, ps) = Sections.take_all r.client in complete_all code message ps (with_client c r)

  unfoldable pub fail_sent_pending : RpcErrorCode → List ℕ → Run C → Run C
  unfolding complete_all
  fail_sent_pending code message r =
      let (c, ps) = Sections.take_sent r.client in complete_all code message ps (with_client c r)

  abbrev pub on_deadline : ℕ → Run C → Run C
  on_deadline id r = fail_pending id RpcErrorCode.timeout (codes "RPC call timed out") r

  abbrev pub cancel_pending : ℕ → Run C → Run C
  cancel_pending id r = fail_pending id RpcErrorCode.cancelled (codes "RPC call cancelled") r

  unfoldable pub update_connection_state : ClientConnectionState → Run C → Run C
  update_connection_state state r =
      let told = emit (notify state) (with_client (Sections.set_state state r.client) r) in
      with_client (Sections.count_reconnect state told.client) told

  unfoldable pub start_connect_if_needed : ClientConnectionState → Run C → Run C
  unfolding update_connection_state
  start_connect_if_needed state r = emit connect_tcp (update_connection_state state r)

  -- `timer_id` is what `runAfter` returns.
  unfoldable pub schedule_reconnect : (timer_id : ℕ) → Run C → Run C
  schedule_reconnect timer_id r =
      let (c, planned) = Sections.plan_reconnect r.client in
      elim planned [
        | none ↦ with_client c r
        | some delay ↦
            emit (run_after delay) (with_client (Sections.set_reconnect_timer timer_id c) r)
      ]

  -- The timer's callback.
  unfoldable pub on_reconnect : Run C → Run C
  unfolding start_connect_if_needed
  on_reconnect r =
      let (c, goes_on) = Sections.reconnect_fires r.client in
      if goes_on then start_connect_if_needed reconnecting (with_client c r) else with_client c r

  unfoldable pub cancel_reconnect_timer : Run C → Run C
  cancel_reconnect_timer r =
      let timer_id = r.client.reconnect_timer_id in
      let reset = with_client (Sections.set_reconnect_timer 0 r.client) r in
      if timer_id == 0 then reset else emit (cancel_timer timer_id) reset

  -- `now` and `connected` are what the clock and the TCP client say.
  unfoldable pub send_pending_call :
      (now : ℕ) (has_connection : Bool) → PendingCall C → Run C → Run C
  unfolding fail_pending
  send_pending_call now has_connection p r =
      if leb p.deadline now
      then fail_pending p.request_id RpcErrorCode.queueing_timeout
          (codes "RPC call timed out before it was sent") r
      else if not has_connection
      then r
      else (let (c, sends) = Sections.claim p.request_id p.address r.client in
          if sends then emit (send p.frame) (with_client c r) else with_client c r)

  unfoldable pub send_all : (ℕ → ℕ × Bool) → List (PendingCall C) → Run C → Run C
  unfolding send_pending_call
  send_all told [] r = r
  send_all told (p ∷ ps) r =
      let (now, has_connection) = told p.request_id in
      send_all told ps (send_pending_call now has_connection p r)

  -- `told` is what the clock and the TCP client say when the turn of a call has come.
  unfoldable pub send_pending_calls : (told : ℕ → ℕ × Bool) → Run C → Run C
  unfolding send_all
  send_pending_calls told r =
      if is_connected r.client.connection_state
      then send_all told (ready r.client.pending_calls) r
      else r

  -- `onConnection`, for a connection that is up or one that is not.
  unfoldable pub on_connection : (up : Bool) (timer_id : ℕ) (told : ℕ → ℕ × Bool) → Run C → Run C
  unfolding send_pending_calls fail_sent_pending update_connection_state schedule_reconnect
      fail_all_pending
  on_connection true timer_id told r =
      send_pending_calls told
        (update_connection_state connected (with_client (Sections.reset_delay r.client) r))
  on_connection false timer_id told r =
      let closed = codes "RPC connection closed" in
      let failed_sent = fail_sent_pending RpcErrorCode.network_error closed r in
      if should_reconnect r.client
      then schedule_reconnect timer_id (update_connection_state reconnecting failed_sent)
      else fail_all_pending RpcErrorCode.network_error closed
          (update_connection_state disconnected failed_sent)

  -- `expireRetryExhaustedPending`, if it is called, and the completions after it; whether to
  -- reconnect.
  unfoldable pub expire_exhausted : (wanted : Bool) → Run C → Run C × Bool
  unfolding complete_all
  expire_exhausted false r = (r, false)
  expire_exhausted true r =
      let (c, ps, waiting) = Sections.take_exhausted r.client in
      (
        complete_all RpcErrorCode.retry_exhausted (codes "RPC retry attempts exhausted") ps
            (with_client c r),
        waiting,
      )

  -- `message` is the text of the system's error.
  unfoldable pub on_connection_error : (error : ℤ) (message : List ℕ) (timer_id : ℕ) → Run C → Run C
  unfolding expire_exhausted update_connection_state schedule_reconnect fail_all_pending
  on_connection_error error message timer_id r =
      let (c, wanted) = Sections.note_error error r.client in
      let (expired, reconnects) = expire_exhausted wanted (with_client c r) in
      if reconnects
      then schedule_reconnect timer_id (update_connection_state reconnecting expired)
      else fail_all_pending RpcErrorCode.network_error message
          (update_connection_state disconnected expired)

  -- The loop of `onMessage`; it blocks only when the fuel is used up.
  unfoldable pub on_message : (fuel : ℕ) → Buffer → Run C → Outcome (Buffer × Run C)
  unfolding complete_response fail_all_pending
  on_message zero buffer r = blocks
  on_message (suc fuel) buffer r = try_decode_response buffer >>= λ (status, buffer'). elim status [
    | need_more_data ↦ ok (buffer', r)
    | protocol_error ↦ ok (
      buffer',
      emit stop_tcp (
          fail_all_pending RpcErrorCode.protocol_error
            (codes "server returned an invalid RPC response") r),
    )
    | complete response ↦ on_message fuel buffer' (complete_response response r)
  ]

  -- `connect` up to its wait, and the result if it returns there.
  unfoldable pub connect :
      (timeout : ℤ) (in_loop_thread : Bool) → Run C → Outcome (Run C × Option Bool)
  unfolding start_connect_if_needed
  connect timeout in_loop_thread r = do
    throw_if in_loop_thread logic_error
    (if not (positive timeout)
        then ok (r, some false)
        else (let (c, result, starts) = Sections.begin_connect r.client in
            ok (
              (if starts
                  then start_connect_if_needed connecting (with_client c r)
                  else with_client c r),
              result,
            )))

  -- `connect` once its wait is over, which is not before the predicate holds or the time has passed.
  unfoldable pub connect_waited : (timed_out : Bool) → Run C → Outcome (Run C × Bool)
  unfolding cancel_reconnect_timer
  connect_waited timed_out r = do
    terminal ← wait_until timed_out (is_terminal r.client)
    (if not terminal || not (is_connected r.client.connection_state)
        then ok (
          emit stop_tcp (cancel_reconnect_timer (with_client (Sections.give_up r.client) r)),
          false,
        )
        else ok (r, true))

  unfoldable pub disconnect : Run C → Run C
  unfolding cancel_reconnect_timer fail_all_pending update_connection_state
  disconnect r =
      let idle = cancel_reconnect_timer (with_client (Sections.give_up r.client) r) in
      let failed_all =
        fail_all_pending RpcErrorCode.network_error (codes "RPC connection closed") idle in
      update_connection_state disconnected (emit stop_tcp failed_all)

  -- The destructor.
  unfoldable pub destroy : Run C → Run C
  unfolding cancel_reconnect_timer fail_all_pending
  destroy r =
      let idle = cancel_reconnect_timer (with_client (Sections.begin_stop r.client) r) in
      emit stop_tcp
        (fail_all_pending RpcErrorCode.client_stopping (codes "RPC client is stopping") idle)
