-- ===== src/MiniRpc/Server.antt =====
-- `RpcServer` of code/MiniRPC/src/rpc_server.cpp: its request handler, the jobs that it posts, and its
-- counters. `H` is the type of method handlers and `serve` what a call of one does. A time taken is a
-- number of microseconds that the clock gives. What the thread pool answers to a post is an argument.
mod Serving
mod Receive
pub mod Account
pub mod Answer
pub mod Messages
mod Tests
use unix_notes.Prelude.{
  sub_size, pick, sum, sum-append, Picked, pick-Picked, ℕ, zero, suc, ◌+◌, ◌-◌, ◌*◌, ◌/◌, ◌%◌, ◌^◌,
  ◌≤◌, ◌<◌, ◌≡◌, refl, sym, ap, subst, ◌∙◌, ◌≢◌, ◌⊎◌, inl, inr, Bool, true, false, not, ◌&&◌, ◌||◌,
  List, [], ◌∷◌, ◌++◌, map, Option, none, some, arith, length, length-append, length-drop, ltb, leb,
  ◌==◌, if◌then◌else◌, Bool-cases, ℤ, pos, negsuc, add_size, size_limit, min, codes, Outcome, ok,
  throws, blocks, undefined, ◌>>=◌, ◌>>◌, throw_if, require, wait, wait_until, All, All-append,
  Returns, Returns-bind, Returns-map, Returns-both, take, drop, append-nil, append_assoc, ==_refl,
  ==_ne, ltb→lt, leb→le, lt→ltb, le→leb, IsInt32, ok-injective, logic_error, invalid_argument,
  runtime_error, length_error, out_of_range,
}
use unix_notes.MiniReactor.Buffer.{Buffer}
use unix_notes.MiniRpc.Protocol.{RpcRequest, RpcResponse, RpcErrorCode, error_value, raw}
use unix_notes.MiniRpc.Frame.{Decoded, complete, need_more_data, protocol_error}
use unix_notes.MiniRpc.Codec.{is_empty, equal, encode_response, try_decode_request}
use unix_notes.MiniRpc.Registry.{
  Services, LookupResult, service_not_found, method_not_found, found, find_method,
}
use unix_notes.MiniRpc.Client.{is_code}
use unix_notes.ThreadPool.Pool.{SubmitResult, accepted}

-- A handler returns or throws, with the response as it has left it; an exception of the standard
-- library has a text.
pub data Handled : Type 0 where
  returns : RpcResponse → Handled
  throws_out : RpcResponse → Option (List ℕ) → Handled

pub record Counters : Type 0 where
  pub total_requests : ℕ
  pub success_responses : ℕ
  pub failed_responses : ℕ
  pub timeout_responses : ℕ
  pub service_missing : ℕ
  pub method_missing : ℕ
  pub server_error_responses : ℕ
  pub queue_rejected : ℕ
  pub current_queue_size : ℕ

-- A task that the server posts to its thread pool.
pub record Job (H : Type 0) : Type 0 where
  pub handler : H
  pub request : RpcRequest

pub record Server (H : Type 0) : Type 0 where
  pub registry : Services H
  pub counters : Counters

abbrev pub no_counts : Counters
no_counts = record {
  total_requests = 0;
  success_responses = 0;
  failed_responses = 0;
  timeout_responses = 0;
  service_missing = 0;
  method_missing = 0;
  server_error_responses = 0;
  queue_rejected = 0;
  current_queue_size = 0;
}

-- `elapsedMicros`
unfoldable pub elapsed_micros : ℤ → ℕ
elapsed_micros (pos micros) = if micros == 0 then 1 else micros
elapsed_micros (negsuc n) = 1

unfoldable pub record_response : ℤ → Counters → Counters
record_response error_code m =
    let wrong = record m { failed_responses = add_size m.failed_responses 1 } in
    if is_code error_code RpcErrorCode.ok
    then record m { success_responses = add_size m.success_responses 1 }
    else if is_code error_code RpcErrorCode.timeout
    then record wrong { timeout_responses = add_size m.timeout_responses 1 }
    else if is_code error_code RpcErrorCode.service_not_found
    then record wrong { service_missing = add_size m.service_missing 1 }
    else if is_code error_code RpcErrorCode.method_not_found
    then record wrong { method_missing = add_size m.method_missing 1 }
    else if is_code error_code RpcErrorCode.server_error
    then record wrong { server_error_responses = add_size m.server_error_responses 1 }
    else wrong

abbrev pub serializer_or_raw : RpcRequest → List ℕ
serializer_or_raw request = if is_empty request.serializer then raw else request.serializer

-- The response of `sendError`.
unfoldable pub error_answer : RpcRequest → RpcErrorCode → List ℕ → (micros : ℤ) → RpcResponse
unfolding elapsed_micros
error_answer request code message micros = record {
  request_id = request.request_id;
  error_code = pos (error_value code);
  error_message = message;
  payload = [];
  trace_id = request.trace_id;
  server_cost_us = elapsed_micros micros;
  serializer = serializer_or_raw request;
}

-- The request after its strings have been moved out of it, which leaves them empty in the standard
-- libraries; its numbers stay.
unfoldable pub moved_from : RpcRequest → RpcRequest
moved_from request = record request {
  service_name = [];
  method_name = [];
  payload = [];
  trace_id = [];
  serializer = [];
}

-- The response that a job gives its handler.
unfoldable pub fresh_response : RpcRequest → RpcResponse
fresh_response request = record {
  request_id = request.request_id;
  error_code = pos 0;
  error_message = [];
  payload = [];
  trace_id = request.trace_id;
  server_cost_us = 0;
  serializer = serializer_or_raw request;
}

abbrev pub server_failure : List ℕ → RpcResponse → RpcResponse
server_failure message response = record response {
  error_code = pos (error_value RpcErrorCode.server_error);
  error_message = message;
  payload = [];
}

-- The response after the handler and its `catch` clauses.
unfoldable pub handled_response : RpcRequest → Handled → RpcResponse
handled_response request (returns response) = record response { request_id = request.request_id }
handled_response request (throws_out response (some what)) = server_failure what response
handled_response request (throws_out response none) =
    server_failure (codes "unknown server error") response

-- The response that a job sends, unless it cannot be encoded.
unfoldable pub job_response : RpcRequest → Handled → (micros : ℤ) → RpcResponse
unfolding handled_response elapsed_micros
job_response request handled micros =
    let cost = elapsed_micros micros in
    let response = record (handled_response request handled) {
      trace_id = request.trace_id;
      serializer = serializer_or_raw request;
      server_cost_us = cost;
    } in
    if is_code response.error_code RpcErrorCode.ok
      && not (request.timeout_ms == 0)
      && ltb request.timeout_ms (cost / 1000)
    then record response {
      error_code = pos (error_value RpcErrorCode.timeout);
      error_message = codes "RPC request exceeded server deadline";
      payload = [];
    }
    else response

-- The response that a job tries where the first cannot be encoded.
unfoldable pub resent_response : (what : List ℕ) (later : ℤ) → RpcResponse → RpcResponse
unfolding elapsed_micros
resent_response what later response =
    record (server_failure (codes "failed to encode RPC response: " ++ what) response) {
      server_cost_us = elapsed_micros later;
    }

-- What comes of a request: a job that is queued, or a response at once.
pub data Handling (H : Type 0) : Type 0 where
  queued : Job H → Handling H
  answered : RpcResponse → Outcome (List ℕ) → Handling H

module _ {H : Type 0} where
  unfoldable pub new : Server H
  new = record { registry = []; counters = no_counts }

  abbrev pub with_counters : Counters → Server H → Server H
  with_counters m s = record s { counters = m }

  -- `sendError`: the counters change whether or not the response can be encoded; if it cannot, the
  -- exception leaves the event loop's callback.
  unfoldable pub send_error :
      RpcRequest
      → RpcErrorCode
      → List ℕ
      → (micros : ℤ) → Server H
      → Server H × RpcResponse × Outcome (List ℕ)
  unfolding error_answer record_response
  send_error request code message micros s =
      let response = error_answer request code message micros in
      (
        with_counters (record_response response.error_code s.counters) s,
        response,
        encode_response response,
      )

  abbrev pub answering : Server H × RpcResponse × Outcome (List ℕ) → Server H × Handling H
  answering (s, response, frame) = (s, answered response frame)

  unfoldable pub post_job :
      SubmitResult → H → RpcRequest → (micros : ℤ) → Server H → Server H × Handling H
  unfolding send_error moved_from
  post_job accepted handler request micros s = (
    with_counters
        (record s.counters { current_queue_size = add_size s.counters.current_queue_size 1 }) s,
    queued (record { handler = handler; request = request }),
  )
  post_job _ handler request micros s = answering (
      send_error (moved_from request) RpcErrorCode.server_error
        (codes "server business queue is full") micros
        (with_counters (record s.counters { queue_rejected = add_size s.counters.queue_rejected 1 })
          s))

  -- What the registry has found.
  unfoldable pub dispatch :
      SubmitResult → RpcRequest → (micros : ℤ) → LookupResult H → Server H → Server H × Handling H
  unfolding send_error post_job
  dispatch result request micros service_not_found s = answering (
      send_error request RpcErrorCode.service_not_found
        (codes "service not found: " ++ request.service_name) micros s)
  dispatch result request micros method_not_found s = answering (
      send_error request RpcErrorCode.method_not_found
        (codes "method not found: " ++ request.service_name ++ codes "." ++ request.method_name)
        micros s)
  dispatch result request micros (found handler) s = post_job result handler request micros s

  unfoldable pub handle_request :
      SubmitResult → RpcRequest → (micros : ℤ) → Server H → Server H × Handling H
  unfolding dispatch send_error
  handle_request result request micros s =
      let counted =
        with_counters (record s.counters { total_requests = add_size s.counters.total_requests 1 })
          s in
      if not (is_empty request.serializer) && not (equal request.serializer raw)
      then answering (
          send_error request RpcErrorCode.deserialization_error
            (codes "unsupported request serializer: " ++ request.serializer) micros counted)
      else dispatch result request micros
          (find_method request.service_name request.method_name s.registry) counted

  -- A response that is sent if it can be encoded.
  unfoldable pub sending :
      Counters
      → RpcResponse
      → Outcome (List ℕ)
      → (otherwise : Server H × Option (RpcResponse × List ℕ)) → Server H
      → Server H × Option (RpcResponse × List ℕ)
  unfolding record_response
  sending m response (ok frame) otherwise s =
      (with_counters (record_response response.error_code m) s, some (response, frame))
  sending m response _ otherwise s = otherwise

  -- The end of a job: the response that it sends with its frame, or none where the second attempt to
  -- encode throws as well. `what` is the text of the first exception.
  unfoldable pub finish_job :
      (what : List ℕ) (later : ℤ)
      → RpcResponse
      → Server H
      → Server H × Option (RpcResponse × List ℕ)
  unfolding sending resent_response
  finish_job what later response s =
      let m = record s.counters { current_queue_size = sub_size s.counters.current_queue_size 1 } in
      let failure = resent_response what later response in
      let second = sending m failure (encode_response failure) (with_counters m s, none) s in
      sending m response (encode_response response) second s

  -- A job on a thread of the pool.
  unfoldable pub run_job :
      (serve : H → RpcRequest → RpcResponse → Handled) (micros later : ℤ) (what : List ℕ)
      → Job H
      → Server H
      → Server H × Option (RpcResponse × List ℕ)
  unfolding finish_job job_response fresh_response
  run_job serve micros later what job s =
      let handled = serve job.handler job.request (fresh_response job.request) in
      finish_job what later (job_response job.request handled micros) s
