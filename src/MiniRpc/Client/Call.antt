-- ===== src/MiniRpc/Client/Call.antt =====
-- `RpcClient::callAsyncInternal` of code/MiniRPC/src/rpc_client.cpp as one run, and what the client is
-- left with when its connection fails or closes.
use unix_notes.Prelude.{
  ℕ, ◌≡◌, refl, ◌≢◌, ◌⊎◌, inl, inr, Bool, true, false, not, List, [], ◌∷◌, Option, arith,
  if◌then◌else◌, codes, ok,
}
use unix_notes.MiniRpc.Protocol.{RpcRequest, RpcResponse, RpcErrorCode}
use unix_notes.MiniRpc.Codec.{encode_request}
use unix_notes.MiniRpc.Client.{
  RpcCallOptions, PendingCall, Client, error_response, positive, milliseconds, fill_request,
  disconnected, connecting, reconnecting,
}
use unix_notes.MiniRpc.Client.Sections
use unix_notes.MiniRpc.Client.Sections.{
  new, next_id, count_call, record_client_response, admit, find, erase, emplace, with_state,
  take_out, all_failed, take_all, split_sent, take_sent, completed_retries, next_attempt, ready,
  mark_sent, claim, reset_delay, should_reconnect, begin_stop, plan_reconnect, reconnect_fires,
  set_reconnect_timer, set_state, count_reconnect, begin_connect, is_terminal, give_up,
}
use unix_notes.MiniRpc.Client.System.{Completion, new_call, refused}
use unix_notes.MiniRpc.Client.Handlers.{
  fulfil, run_after, cancel_timer, Run, emit, with_client, complete_pending, complete_all,
  fail_all_pending, fail_sent_pending, update_connection_state, start_connect_if_needed,
  schedule_reconnect, send_pending_calls, on_connection,
}
use unix_notes.MiniRpc.Client.Messages.{complete_all-map}

module _ {C : Type 0} where
  -- A call that is completed where it is made.
  abbrev pub answer : Completion C → Run C → Run C
  answer done r =
      emit (fulfil done) (with_client (Sections.record_client_response done.response r.client) r)

  unfoldable pub call_made : (told : ℕ → ℕ × Bool) → PendingCall C → Run C → Run C
  unfolding start_connect_if_needed send_pending_calls
  call_made told p r =
      let timed = emit (run_after (milliseconds p.options.timeout)) r in
      let (c, starts, fail_fast, client_stopping) =
        Sections.admit p.options.fail_fast timed.client in
      let admitted = with_client c timed in
      let registered = with_client (Sections.emplace p c) timed in
      if fail_fast
      then answer (refused client_stopping p) (emit (cancel_timer p.timer_id) admitted)
      else send_pending_calls told
          (if starts then start_connect_if_needed connecting registered else registered)

  -- The run and the id of the call.
  unfoldable pub call_async :
      (now address timer_id : ℕ) (what : List ℕ) (told : ℕ → ℕ × Bool)
      → RpcRequest
      → RpcCallOptions
      → Option C
      → Run C
      → Run C × ℕ
  unfolding call_made
  call_async now address timer_id what told request options callback r =
      let (c, id) = Sections.next_id r.client in
      let counted = with_client (Sections.count_call c) r in
      let filled = fill_request id options request in
      let early : RpcResponse → Run C × ℕ = λ response. (
        answer (record { request_id = id; callback = callback; response = response }) counted,
        id,
      ) in
      if not (positive options.timeout)
      then early
          (error_response id RpcErrorCode.timeout (codes "RPC call timed out before it was sent"))
      else elim (encode_request filled) [
        | ok frame ↦ (
          call_made told (new_call now address timer_id frame filled options callback) counted,
          id,
        )
        | _ ↦ early (error_response id RpcErrorCode.protocol_error what)
      ]

  -- Either the client is to connect again, with a timer armed for it, or no call is pending.
  abbrev pub Resolved : Client C → Type 0
  Resolved c =
      ((c.connection_state ≡ reconnecting) × (c.reconnect_timer_id ≢ 0))
      ⊎ ((c.connection_state ≡ disconnected) × (c.pending_calls ≡ []))

  -- Completions keep what the connection's handlers go by.
  abbrev SameLink : Client C → Client C → Type 0
  SameLink c c' =
      (c'.desired_connected ≡ c.desired_connected)
      × (c'.stopping ≡ c.stopping)
      × (c'.connection_state ≡ c.connection_state)

  complete_all-link :
      (code : RpcErrorCode) (message : List ℕ) (ps : List (PendingCall C)) (r : Run C)
      → SameLink r.client (complete_all code message ps r).client
  unfolding complete_all complete_pending Sections.record_client_response
  complete_all-link code message [] r = (refl, refl, refl)
  complete_all-link code message (p ∷ ps) r = ground (
    arith,
    complete_all-link code message ps
        (complete_pending p (error_response p.request_id code message) r),
  )

  rescheduled :
      (timer_id : ℕ) (r : Run C)
      → timer_id ≢ 0
      → should_reconnect r.client ≡ true
      → Resolved (schedule_reconnect timer_id (update_connection_state reconnecting r)).client
  unfolding schedule_reconnect update_connection_state Sections.plan_reconnect
      Sections.set_reconnect_timer Sections.set_state Sections.count_reconnect
  rescheduled timer_id r h wants = inl (ground arith, ground arith)

  gave_up :
      (code : RpcErrorCode) (message : List ℕ) (r : Run C)
      → Resolved (fail_all_pending code message (update_connection_state disconnected r)).client
  unfolding fail_all_pending Sections.take_all update_connection_state Sections.set_state
      Sections.count_reconnect
  gave_up code message r = inr (
    (complete_all-link code message (all_failed r.client.pending_calls) _).2,
    complete_all-map code message (all_failed r.client.pending_calls) _,
  )

  either_way :
      (reconnects : Bool) (timer_id : ℕ) (code : RpcErrorCode) (message : List ℕ) (r : Run C)
      → timer_id ≢ 0
      → (reconnects ≡ true → should_reconnect r.client ≡ true)
      → Resolved
          (if reconnects
            then schedule_reconnect timer_id (update_connection_state reconnecting r)
            else fail_all_pending code message (update_connection_state disconnected r)).client
  either_way true timer_id code message r h wants = rescheduled timer_id r h (wants refl)
  either_way false timer_id code message r h wants = gave_up code message r

  link-wants :
      (c c' : Client C) → SameLink c c' → should_reconnect c ≡ true → should_reconnect c' ≡ true
  link-wants c c' (a, b, _) h = ground (arith, a, b)

  fail_sent-link :
      (code : RpcErrorCode) (message : List ℕ) (r : Run C)
      → SameLink r.client (fail_sent_pending code message r).client
  unfolding fail_sent_pending Sections.take_sent
  fail_sent-link code message r =
      complete_all-link code message (split_sent r.client.pending_calls).1 _

  -- When the connection closes, then either the client is to connect again, with a timer armed for
  -- it, or it is disconnected and no call is pending.
  pub on_connection-Resolved :
      (timer_id : ℕ) (told : ℕ → ℕ × Bool) (r : Run C)
      → timer_id ≢ 0
      → Resolved (on_connection false timer_id told r).client
  unfolding on_connection
  on_connection-Resolved timer_id told r h =
      either_way (should_reconnect r.client) timer_id _ _ _ h (
        link-wants r.client (fail_sent_pending RpcErrorCode.network_error closed r).client
          (fail_sent-link RpcErrorCode.network_error closed r))
    where
      closed : List ℕ
      closed = codes "RPC connection closed"
