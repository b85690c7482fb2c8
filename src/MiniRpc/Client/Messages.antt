-- ===== src/MiniRpc/Client/Messages.antt =====
-- `RpcClient::onMessage` of code/MiniRPC/src/rpc_client.cpp on what has come in so far, through the
-- decoder of code/MiniRPC/src/codec.cpp.
use unix_notes.Prelude.{
  ℕ, suc, ◌≡◌, refl, ap, ◌∙◌, ◌≢◌, ◌⊎◌, List, [], ◌∷◌, ◌++◌, arith, length, ok, Returns,
}
use unix_notes.MiniReactor.Buffer.{Buffer}
use unix_notes.MiniReactor.Buffer.Refine.{Holds}
use unix_notes.MiniRpc.Protocol.{RpcResponse, RpcErrorCode}
use unix_notes.MiniRpc.Frame.{need_more_data}
use unix_notes.MiniRpc.Metadata.{or_raw}
use unix_notes.MiniRpc.Codec.{encode_response, try_decode_response}
use unix_notes.MiniRpc.Codec.Response.{FitsResponse, response_round_trip, response_partial}
use unix_notes.MiniRpc.Client.{PendingCall, error_response}
use unix_notes.MiniRpc.Client.Sections
use unix_notes.MiniRpc.Client.Sections.{
  new, next_id, count_call, record_client_response, admit, find, erase, emplace, with_state,
  take_out, all_failed, take_all, split_sent, take_sent, completed_retries, next_attempt,
  split_exhausted, take_exhausted, ready, mark_sent, claim, reset_delay, should_reconnect,
  note_error, begin_stop, plan_reconnect, reconnect_fires, set_reconnect_timer, set_state,
  count_reconnect, begin_connect, is_terminal, give_up,
}
use unix_notes.MiniRpc.Client.Handlers.{
  Run, complete_pending, complete_all, complete_response, fail_all_pending, on_message,
}

-- A response and its frame.
pub record EncodedHead (response : RpcResponse) (frame : List ℕ) : Type 0 where
  pub fits : FitsResponse response
  pub encoded : encode_response response ≡ ok frame

abbrev pub Encoded : List RpcResponse → List (List ℕ) → Type 0
Encoded [] [] = Unit
Encoded (response ∷ responses) (frame ∷ frames) =
    EncodedHead response frame × Encoded responses frames
Encoded _ _ = ⊥

-- The frames, one behind the other, and the rest.
abbrev pub joined : List (List ℕ) → List ℕ → List ℕ
joined [] rest = rest
joined (frame ∷ frames) rest = frame ++ joined frames rest

-- What the decoder makes of a response: an empty serializer is the default one.
abbrev pub received : RpcResponse → RpcResponse
received response = record response { serializer = or_raw response.serializer }

module _ {C : Type 0} where
  -- Completions leave the map as it is.
  pub complete_pending-map :
      (p : PendingCall C) (response : RpcResponse) (r : Run C)
      → (complete_pending p response r).client.pending_calls ≡ r.client.pending_calls
  unfolding complete_pending Sections.record_client_response
  complete_pending-map p response r = ground arith

  pub complete_all-map :
      (code : RpcErrorCode) (message : List ℕ) (ps : List (PendingCall C)) (r : Run C)
      → (complete_all code message ps r).client.pending_calls ≡ r.client.pending_calls
  unfolding complete_all
  complete_all-map code message [] r = refl
  complete_all-map code message (p ∷ ps) r =
      complete_all-map code message ps _
      ∙ complete_pending-map p (error_response p.request_id code message) r

  pub fail_all_pending-map :
      (code : RpcErrorCode) (message : List ℕ) (r : Run C)
      → (fail_all_pending code message r).client.pending_calls ≡ []
  unfolding fail_all_pending Sections.take_all
  fail_all_pending-map code message r =
      complete_all-map code message (all_failed r.client.pending_calls) _

  -- The loop has stopped since the bytes left are no whole frame, or with every call failed.
  abbrev pub Ended : Buffer × Run C → Type 0
  Ended (buffer, r) =
      (try_decode_response buffer ≡ ok (need_more_data, buffer)) ⊎ (r.client.pending_calls ≡ [])

  abbrev pub complete_each : List RpcResponse → Run C → Run C
  complete_each [] r = r
  complete_each (response ∷ responses) r =
      complete_each responses (complete_response (received response) r)

  -- A buffer with the frames of responses, and behind them the beginning of one more, is taken
  -- apart in one run of the loop: each response completes its call, in order, and the beginning is
  -- left in the buffer.
  pub on_message_completes :
      (responses : List RpcResponse) (frames : List (List ℕ)) (next : RpcResponse)
      (frame part more : List ℕ) (buffer : Buffer) (r : Run C)
      → Encoded responses frames
      → EncodedHead next frame
      → part ++ more ≡ frame
      → more ≢ []
      → Holds buffer (joined frames part)
      → Returns
          (on_message (suc (length responses)) buffer r)
          (λ d. Holds d.0 part × (d.1 ≡ complete_each responses r))
  unfolding on_message
  on_message_completes [] [] next frame part more buffer r k n split left h =
      rw (response_partial next frame part more buffer n.fits n.encoded split left h)
        (_, refl, (h, refl))
  on_message_completes (response ∷ responses) (f ∷ frames) next frame part more buffer r (k, ks) n
        split left h =
      let ((d, buffer'), e, (same, h')) =
        response_round_trip response f (joined frames part) buffer k.fits k.encoded h in
      rw (e ∙ ap (λ d. ok (d, buffer')) same)
        (on_message_completes responses frames next frame part more buffer' _ ks n split left h')
  on_message_completes [] (f ∷ frames) next frame part more buffer r k n split left h = absurd k
  on_message_completes (x ∷ xs) [] next frame part more buffer r k n split left h = absurd k
