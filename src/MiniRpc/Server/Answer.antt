-- ===== src/MiniRpc/Server/Answer.antt =====
-- The response that `RpcServer` of code/MiniRPC/src/rpc_server.cpp gives to a request.
use unix_notes.Prelude.{
  ◌⊎◌, Bool, true, false, ℕ, ◌≡◌, not, ◌&&◌, List, Option, none, some, pos, Outcome, ok,
}
use unix_notes.MiniRpc.Protocol.{RpcRequest, RpcResponse, RpcErrorCode, error_value, raw}
use unix_notes.MiniRpc.Codec.{is_empty, equal, encode_response}
use unix_notes.MiniRpc.Registry.{
  LookupResult, service_not_found, method_not_found, found, find_method,
}
use unix_notes.MiniRpc.Server.{
  Handled, Server, serializer_or_raw, Handling, returns, throws_out, queued, answered,
}
use unix_notes.ThreadPool.Pool.{SubmitResult, accepted}

-- A handler that throws leaves the response's id alone.
abbrev pub KeepsId : ℕ → Handled → Type 0
KeepsId id (returns response) = Unit
KeepsId id (throws_out response what) = response.request_id ≡ id

-- What a response that goes back to a request has of it.
abbrev Like : RpcRequest → RpcResponse → Type 0
Like request response =
    (response.request_id ≡ request.request_id)
    × (response.trace_id ≡ request.trace_id)
    × (response.serializer ≡ serializer_or_raw request)

-- The encoder has given no frame.
abbrev pub Fails : Outcome (List ℕ) → Type 0
Fails (ok frame) = ⊥
Fails _ = Unit

-- What a job sends: its response, or the one that it tries next where that cannot be encoded, or nothing
-- where neither can.
abbrev pub Sends :
    RpcRequest → (first second : RpcResponse) → Option (RpcResponse × List ℕ) → Type 0
Sends request first second none = Fails (encode_response first) × Fails (encode_response second)
Sends request first second (some (response, frame)) =
    ((response ≡ first) ⊎ ((response ≡ second) × Fails (encode_response first)))
    × (response.request_id ≡ request.request_id)
    × (response.trace_id ≡ request.trace_id)
    × (response.serializer ≡ serializer_or_raw request)
    × (encode_response response ≡ ok frame)

-- A serializer that the server does not know.
abbrev pub is_unsupported : RpcRequest → Bool
is_unsupported request = not (is_empty request.serializer) && not (equal request.serializer raw)

module _ {H : Type 0} where
  abbrev pub lookup_of : RpcRequest → Server H → LookupResult H
  lookup_of request s = find_method request.service_name request.method_name s.registry

  -- The pool has not taken the job of a method that has been found.
  abbrev pub PoolRefuses : SubmitResult → LookupResult H → Type 0
  PoolRefuses accepted lookup = ⊥
  PoolRefuses result (found handler) = Unit
  PoolRefuses result _ = ⊥

  -- What an error that is answered at once means.
  abbrev pub Cause : SubmitResult → RpcRequest → Server H → RpcErrorCode → Type 0
  Cause result request s RpcErrorCode.deserialization_error = is_unsupported request ≡ true
  Cause result request s RpcErrorCode.service_not_found =
      (is_unsupported request ≡ false) × (lookup_of request s ≡ service_not_found)
  Cause result request s RpcErrorCode.method_not_found =
      (is_unsupported request ≡ false) × (lookup_of request s ≡ method_not_found)
  Cause result request s RpcErrorCode.server_error =
      (is_unsupported request ≡ false) × PoolRefuses result (lookup_of request s)
  Cause result request s _ = ⊥

  -- A job has the request and the handler of its method, and the pool has taken it; a response at once has
  -- the request's id and the code of the cause, and its frame is what the encoder gives.
  abbrev pub Matches : SubmitResult → RpcRequest → Server H → Handling H → Type 0
  Matches result request s (queued job) =
      (job.request ≡ request)
      × (is_unsupported request ≡ false)
      × (lookup_of request s ≡ found job.handler)
      × (result ≡ accepted)
  Matches result request s (answered response frame) =
      (response.request_id ≡ request.request_id)
      × (encode_response response ≡ frame)
      × ((code : RpcErrorCode) × (response.error_code ≡ pos (error_value code))
          × Cause result request s code)
