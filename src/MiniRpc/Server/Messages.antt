-- ===== src/MiniRpc/Server/Messages.antt =====
-- `RpcServer::onMessage` of code/MiniRPC/src/rpc_server.cpp on what has come in so far, through the decoder
-- of code/MiniRPC/src/codec.cpp.
use unix_notes.Prelude.{
  ℕ, zero, suc, ◌*◌, ◌≤◌, ◌<◌, ◌≡◌, refl, sym, ap, subst, ◌∙◌, ◌≢◌, ◌⊎◌, inl, inr, List, [], ◌∷◌,
  ◌++◌, arith, length, length-drop, Outcome, ok, blocks, ◌>>=◌, Returns, drop, ℤ, Bool, true, false,
  if◌then◌else◌, Bool-cases,
}
use unix_notes.MiniReactor.Buffer.{Buffer}
use unix_notes.MiniReactor.Buffer.Refine.{Holds}
use unix_notes.MiniRpc.Protocol.{RpcRequest, rpc_header_size}
use unix_notes.MiniRpc.Frame.{Decoded, complete, need_more_data, protocol_error}
use unix_notes.MiniRpc.Metadata.{or_raw}
use unix_notes.MiniRpc.Codec.{encode_request, try_decode_request}
use unix_notes.MiniRpc.Codec.Request.{FitsRequest, request_round_trip, request_partial}
use unix_notes.MiniRpc.Codec.Safety.{Consumes, try_decode_request_safe}
use unix_notes.MiniRpc.Server.{Server, Handling, queued, answered, handle_request}
use unix_notes.ThreadPool.Pool.{SubmitResult}

-- How the loop ends: it waits for more, closes the connection, or an exception leaves it.
pub data Ending : Type 0 where
  waits force_closes leaves : Ending

-- What the pool answers to the job of a request, and the time that the request takes until then.
abbrev pub Turns : Type 0
Turns = ℕ → SubmitResult × ℤ

abbrev pub later : Turns → Turns
later turns n = turns (suc n)

-- The server after the loop, what it has made of each request, and the end.
abbrev pub Done : Type 0 → Type 0
Done H = Server H × List (Handling H) × Ending

module _ {H : Type 0} where
  -- The response to a request cannot be encoded.
  abbrev pub leaves_loop : Handling H → Bool
  leaves_loop (queued job) = false
  leaves_loop (answered response (ok frame)) = false
  leaves_loop (answered response _) = true

  abbrev pub handled_first : Handling H → Done H → Done H
  handled_first handling (s, handlings, ending) = (s, handling ∷ handlings, ending)

  abbrev pub and_first : Handling H → Buffer × Done H → Buffer × Done H
  and_first handling (buffer, done) = (buffer, handled_first handling done)

  -- It blocks only when the fuel is used up.
  unfoldable pub on_message : (fuel : ℕ) → Turns → Buffer → Server H → Outcome (Buffer × Done H)
  on_message zero turns buffer s = blocks
  on_message (suc fuel) turns buffer s = try_decode_request buffer >>= λ (status, buffer').
      elim status [
        | need_more_data ↦ ok (buffer', (s, [], waits))
        | protocol_error ↦ ok (buffer', (s, [], force_closes))
        | complete request ↦
            let (s', handling) = handle_request (turns 0).0 request (turns 0).1 s in
            let rest =
              on_message fuel (later turns) buffer' s' >>= λ r. ok (and_first handling r) in
            if leaves_loop handling then ok (buffer', (s', handling ∷ [], leaves)) else rest
      ]

  -- Requests handled one after the other, as far as none of them ends the loop.
  unfoldable pub handle_each : List RpcRequest → Turns → Server H → Done H
  handle_each [] turns s = (s, [], waits)
  handle_each (request ∷ requests) turns s =
      let (s', handling) =
        handle_request (turns 0).0 (record request { serializer = or_raw request.serializer })
          (turns 0).1 s in
      let rest = handled_first handling (handle_each requests (later turns) s') in
      if leaves_loop handling then (s', handling ∷ [], leaves) else rest

-- A request and its frame.
pub record EncodedRequest (request : RpcRequest) (frame : List ℕ) : Type 0 where
  pub fits : FitsRequest request
  pub encoded : encode_request request ≡ ok frame

abbrev pub Encoded : List RpcRequest → List (List ℕ) → Type 0
Encoded [] [] = Unit
Encoded (request ∷ requests) (frame ∷ frames) =
    EncodedRequest request frame × Encoded requests frames
Encoded _ _ = ⊥

abbrev pub joined : List (List ℕ) → List ℕ → List ℕ
joined [] rest = rest
joined (frame ∷ frames) rest = frame ++ joined frames rest

module _ {H : Type 0} where
  -- What the loop has done is what the requests ask for, and the part is left unless it was left early.
  abbrev pub Serves : List ℕ → Done H → Buffer × Done H → Type 0
  Serves part expected (buffer, done) = (done ≡ expected) × ((done.2 ≡ leaves) ⊎ Holds buffer part)

  serve_first :
      (part : List ℕ) (handling : Handling H) (expected : Done H) (o : Outcome (Buffer × Done H))
      → Returns o (Serves part expected)
      → Returns
          (o >>= λ r. ok (and_first handling r))
          (Serves part (handled_first handling expected))
  serve_first part handling expected o (r, e, (same, rest)) =
      rw e (_, refl, (ap (handled_first handling) same, rest))

  -- A buffer with the frames of requests, and behind them the beginning of one more, is taken apart in
  -- one run of the loop: each request is handled, in order, and the beginning is left in the buffer,
  -- unless an answer that cannot be encoded ends the loop with an exception.
  pub on_message-Serves :
      (requests : List RpcRequest) (frames : List (List ℕ)) (next : RpcRequest)
      (frame part more : List ℕ) (turns : Turns) (buffer : Buffer) (s : Server H)
      → Encoded requests frames
      → EncodedRequest next frame
      → part ++ more ≡ frame
      → more ≢ []
      → Holds buffer (joined frames part)
      → Returns
          (on_message (suc (length requests)) turns buffer s)
          (Serves part (handle_each requests turns s))
  unfolding on_message handle_each
  on_message-Serves [] [] next frame part more turns buffer s k n split left h =
      rw (request_partial next frame part more buffer n.fits n.encoded split left h)
        (_, refl, (refl, inr h))
  on_message-Serves (request ∷ requests) (f ∷ frames) next frame part more turns buffer s (k, ks) n
        split left h =
      let ((d, buffer'), e, (same, h')) =
        request_round_trip request f (joined frames part) buffer k.fits k.encoded h in
      let (s', handling) =
        handle_request (turns 0).0 (record request { serializer = or_raw request.serializer })
          (turns 0).1 s in
      rw (e ∙ ap (λ d. ok (d, buffer')) same) (elim (Bool-cases (leaves_loop handling)) [
        | inl out ↦ rw out (_, refl, (refl, inl refl))
        | inr on ↦ rw on (
            serve_first part handling (handle_each requests (later turns) s') _ (
              on_message-Serves requests frames next frame part more (later turns) buffer' s' ks n
                split left h'))
      ])
  on_message-Serves [] (f ∷ frames) next frame part more turns buffer s k n split left h = absurd k
  on_message-Serves (x ∷ xs) [] next frame part more turns buffer s k n split left h = absurd k

  -- The loop has stopped since the bytes left are no whole frame, or for another reason.
  abbrev pub Ended : Buffer × Done H → Type 0
  Ended (buffer, (s, handlings, ending)) =
      (try_decode_request buffer ≡ ok (need_more_data, buffer)) ⊎ (ending ≢ waits)

  end_first :
      (handling : Handling H) (o : Outcome (Buffer × Done H))
      → Returns o Ended
      → Returns (o >>= λ r. ok (and_first handling r)) Ended
  end_first handling o (r, e, ended) = rw e (_, refl, ended)

  -- One round of the loop.
  message_round :
      (fuel : ℕ) (bytes : List ℕ) (turns : Turns) (buffer : Buffer) (s : Server H)
      (d : Decoded RpcRequest × Buffer)
      → try_decode_request buffer ≡ ok d
      → Consumes bytes buffer d
      → ((n : ℕ) (buffer' : Buffer) (s' : Server H)
          → rpc_header_size ≤ n
          → n ≤ length bytes
          → Holds buffer' (drop n bytes)
          → Returns (on_message fuel (later turns) buffer' s') Ended)
      → Returns (on_message (suc fuel) turns buffer s) Ended
  unfolding on_message
  message_round fuel bytes turns buffer s (need_more_data, buffer') e same go = rw e (
    _,
    refl,
    inl (
        subst (λ b. try_decode_request b ≡ ok (need_more_data, b)) (sym same)
          (e ∙ ap (λ b. ok (need_more_data, b)) same)),
  )
  message_round fuel bytes turns buffer s (protocol_error, buffer') e same go =
      rw e (_, refl, inr λ p. cc)
  message_round fuel bytes turns buffer s (complete request, buffer') e (n, large, small, h) go =
      let (s', handling) = handle_request (turns 0).0 request (turns 0).1 s in
      rw e (elim (Bool-cases (leaves_loop handling)) [
        | inl out ↦ rw out (_, refl, inr λ p. cc)
        | inr on ↦ rw on (end_first handling _ (go n buffer' s' large small h))
      ])

  -- On any bytes whatever the loop ends, after no more rounds than there are headers' lengths in
  -- them and one; where it waits, the decoder asks for more.
  pub on_message_stops :
      (fuel : ℕ) (bytes : List ℕ) (turns : Turns) (buffer : Buffer) (s : Server H)
      → Holds buffer bytes
      → length bytes < rpc_header_size * fuel
      → Returns (on_message fuel turns buffer s) Ended
  on_message_stops zero bytes turns buffer s h enough = absurd (omega arith)
  on_message_stops (suc fuel) bytes turns buffer s h enough =
      let (d, e, consumed) = try_decode_request_safe bytes buffer h in
      message_round fuel bytes turns buffer s d e consumed λ n buffer' s' large small h'.
        on_message_stops fuel (drop n bytes) (later turns) buffer' s' h'
          (omega (arith, length-drop n bytes))
