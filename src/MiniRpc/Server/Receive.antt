-- ===== src/MiniRpc/Server/Receive.antt =====
-- A request to `RpcServer` of code/MiniRPC/src/rpc_server.cpp, and the counters after it.
use unix_notes.Prelude.{
  add_size_exact, ℕ, ◌+◌, ◌≤◌, ◌≡◌, refl, length, ◌⊎◌, inl, inr, not, ◌&&◌, List, ◌++◌, arith,
  Bool-cases, ℤ, add_size, codes, Outcome, ok, throws, blocks, undefined,
}
use unix_notes.MiniRpc.Protocol.{RpcRequest, RpcResponse, RpcErrorCode, raw}
use unix_notes.MiniRpc.Codec.{is_empty, equal}
use unix_notes.MiniRpc.Registry.{
  LookupResult, service_not_found, method_not_found, found, find_method,
}
use unix_notes.MiniRpc.Server.{
  dispatch, Handled, Server, record_response, error_answer, moved_from, send_error, answering,
  answered, post_job, handle_request,
}
use unix_notes.ThreadPool.Pool.{SubmitResult, accepted, queue_full, timeout, pool_stopping}
use unix_notes.MiniRpc.Server.Serving.{Serving, received, Accounts, Room}

module _ {H : Type 0} (serve : H → RpcRequest → RpcResponse → Handled) where
  -- A response to a request at once, whether it can be encoded or not.
  answered-Accounts :
      (s : Serving H) (server : Server H) (response : RpcResponse) (o : Outcome (List ℕ))
      → server.counters.total_requests ≡ s.answers + s.unsent + length s.jobs + s.lost + 1
      → server.counters.success_responses + server.counters.failed_responses
        ≡ s.answers + s.unsent + 1
      → server.counters.current_queue_size ≡ length s.jobs
      → server.counters.timeout_responses + server.counters.service_missing
          + server.counters.method_missing + server.counters.server_error_responses
        ≤ server.counters.failed_responses
      → server.counters.queue_rejected ≤ server.counters.server_error_responses
      → Accounts serve (received serve s (server, answered response o))
  answered-Accounts s server response (ok frame) a b c d e = record {
    requests = omega (arith, a);
    responses = omega (arith, b);
    queue = c;
    causes = d;
    rejected = e;
  }
  answered-Accounts s server response (throws x) a b c d e = record {
    requests = omega (arith, a);
    responses = omega (arith, b);
    queue = c;
    causes = d;
    rejected = e;
  }
  answered-Accounts s server response blocks a b c d e = record {
    requests = omega (arith, a);
    responses = omega (arith, b);
    queue = c;
    causes = d;
    rejected = e;
  }
  answered-Accounts s server response undefined a b c d e = record {
    requests = omega (arith, a);
    responses = omega (arith, b);
    queue = c;
    causes = d;
    rejected = e;
  }

  -- `sendError`, once the request has been counted and, if it was rejected, that too.
  send_error-Accounts :
      (rejects : ℕ) (request : RpcRequest) (code : RpcErrorCode) (message : List ℕ) (micros : ℤ)
      (s : Serving H) (server : Server H)
      → Accounts serve s
      → Room serve s
      → (rejects ≡ s.server.counters.queue_rejected)
        ⊎ ((rejects ≡ s.server.counters.queue_rejected + 1) × (code ≡ RpcErrorCode.server_error))
      → server.counters ≡ record s.server.counters {
        total_requests = s.server.counters.total_requests + 1;
        queue_rejected = rejects;
      }
      → Accounts serve
          (received serve s (answering (send_error request code message micros server)))
  unfolding send_error error_answer record_response
  send_error-Accounts rejects request code message micros s server h room why same =
      let (server', response, frame) = send_error request code message micros server in
      answered-Accounts s server' response frame (ground (arith, h.requests, same))
        (ground (arith, h.requests, h.responses, same)) (ground (arith, h.queue, same))
        (ground (arith, h.causes, h.requests, h.responses, same))
        (ground (arith, h.rejected, h.causes, h.requests, h.responses, same, why))

  -- The server once a request has been counted.
  abbrev counted : Server H → Server H
  counted server = record server {
    counters = record server.counters {
      total_requests = add_size server.counters.total_requests 1;
    };
  }

  rejected-Accounts :
      (request : RpcRequest) (micros : ℤ) (s : Serving H)
      → Accounts serve s
      → Room serve s
      → let rejecting = record (counted s.server) {
        counters = record (counted s.server).counters {
          queue_rejected = add_size s.server.counters.queue_rejected 1;
        };
      } in
        Accounts serve (
          received serve s (
            answering (
              send_error
                (moved_from request)
                RpcErrorCode.server_error
                (codes "server business queue is full")
                micros
                rejecting)))
  rejected-Accounts request micros s h room =
      send_error-Accounts (s.server.counters.queue_rejected + 1) (moved_from request)
        RpcErrorCode.server_error _ micros s _ h room (inr (refl, refl))
        (rw
          (
            add_size_exact s.server.counters.total_requests 1 (omega arith),
            add_size_exact s.server.counters.queue_rejected 1
                (omega (arith, h.rejected, h.causes, h.responses, h.requests)),
          )
          refl)

  post_job-Accounts :
      (result : SubmitResult) (handler : H) (request : RpcRequest) (micros : ℤ) (s : Serving H)
      → Accounts serve s
      → Room serve s
      → Accounts serve
          (received serve s (post_job result handler request micros (counted s.server)))
  unfolding post_job
  post_job-Accounts accepted handler request micros s h room = record {
    requests = ground (arith, h.requests);
    responses = ground (arith, h.responses);
    queue = ground (arith, h.queue, h.requests);
    causes = ground (arith, h.causes);
    rejected = ground (arith, h.rejected);
  }
  post_job-Accounts queue_full handler request micros s h room =
      rejected-Accounts request micros s h room
  post_job-Accounts timeout handler request micros s h room =
      rejected-Accounts request micros s h room
  post_job-Accounts pool_stopping handler request micros s h room =
      rejected-Accounts request micros s h room

  refused-Accounts :
      (request : RpcRequest) (code : RpcErrorCode) (message : List ℕ) (micros : ℤ) (s : Serving H)
      → Accounts serve s
      → Room serve s
      → Accounts serve
          (received serve s (answering (send_error request code message micros (counted s.server))))
  refused-Accounts request code message micros s h room =
      send_error-Accounts s.server.counters.queue_rejected request code message micros s
        (counted s.server) h room (inl refl)
        (rw (add_size_exact s.server.counters.total_requests 1 (omega arith)) refl)

  dispatch-Accounts :
      (result : SubmitResult) (request : RpcRequest) (micros : ℤ) (s : Serving H)
      (lookup : LookupResult H)
      → Accounts serve s
      → Room serve s
      → Accounts serve (received serve s (dispatch result request micros lookup (counted s.server)))
  unfolding dispatch
  dispatch-Accounts result request micros s service_not_found h room =
      refused-Accounts request RpcErrorCode.service_not_found
        (codes "service not found: " ++ request.service_name) micros s h room
  dispatch-Accounts result request micros s method_not_found h room =
      refused-Accounts request RpcErrorCode.method_not_found
        (codes "method not found: " ++ request.service_name ++ codes "." ++ request.method_name)
        micros s h room
  dispatch-Accounts result request micros s (found handler) h room =
      post_job-Accounts result handler request micros s h room

  pub receive-Accounts :
      (result : SubmitResult) (request : RpcRequest) (micros : ℤ) (s : Serving H)
      → Accounts serve s
      → Room serve s
      → Accounts serve (received serve s (handle_request result request micros s.server))
  unfolding handle_request
  receive-Accounts result request micros s h room =
      elim (Bool-cases (not (is_empty request.serializer) && not (equal request.serializer raw))) [
        | inl other ↦ rw other (
            refused-Accounts request RpcErrorCode.deserialization_error
              (codes "unsupported request serializer: " ++ request.serializer) micros s h room)
        | inr same ↦ rw same (
            dispatch-Accounts result request micros s
              (find_method request.service_name request.method_name s.server.registry) h room)
      ]
