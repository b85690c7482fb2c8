-- ===== src/MiniRpc/Server/Serving.antt =====
-- `RpcServer` of code/MiniRPC/src/rpc_server.cpp over any order of requests and jobs, and what its
-- counters are to say.
use unix_notes.Prelude.{
  pick, ℕ, suc, ◌+◌, ◌≤◌, ◌<◌, ◌≡◌, List, [], ◌∷◌, Option, none, some, length, ℤ, size_limit, ok,
}
use unix_notes.MiniRpc.Protocol.{RpcRequest, RpcResponse}
use unix_notes.MiniRpc.Server.{
  Handled, Job, Server, Handling, handle_request, run_job, queued, answered,
}
use unix_notes.ThreadPool.Pool.{SubmitResult}

-- A server, the jobs that its pool holds or runs, and how many requests have a response that is handed to
-- the connection, an error that cannot be encoded, so that `sendError` throws and sends nothing, and a
-- job that has given up on both of its responses.
pub record Serving (H : Type 0) : Type 0 where
  pub server : Server H
  pub jobs : List (Job H)
  pub answers : ℕ
  pub unsent : ℕ
  pub lost : ℕ

-- What happens next: a request comes in, or a job comes to its end. Where several jobs run at once
-- their ends are in some order, and nothing else of a job changes the server.
pub data ServerEvent : Type 0 where
  receive : SubmitResult → RpcRequest → (micros : ℤ) → ServerEvent
  finish : (place : ℕ) (micros later : ℤ) (what : List ℕ) → ServerEvent

module _ {H : Type 0} (serve : H → RpcRequest → RpcResponse → Handled) where
  abbrev pub received : Serving H → Server H × Handling H → Serving H
  received s (server, queued job) = record s { server = server; jobs = job ∷ s.jobs }
  received s (server, answered response (ok frame)) = record s {
    server = server;
    answers = suc s.answers;
  }
  received s (server, answered response _) = record s { server = server; unsent = suc s.unsent }

  abbrev pub finished :
      Serving H → List (Job H) → Server H × Option (RpcResponse × List ℕ) → Serving H
  finished s jobs (server, none) = record s { server = server; jobs = jobs; lost = suc s.lost }
  finished s jobs (server, some _) = record s {
    server = server;
    jobs = jobs;
    answers = suc s.answers;
  }

  unfoldable pub finish_picked :
      (micros later : ℤ) (what : List ℕ) → Serving H → Option (Job H × List (Job H)) → Serving H
  finish_picked micros later what s none = s
  finish_picked micros later what s (some (job, jobs)) =
      finished s jobs (run_job serve micros later what job s.server)

  unfoldable pub serve_step : ServerEvent → Serving H → Serving H
  unfolding finish_picked
  serve_step (receive result request micros) s =
      received s (handle_request result request micros s.server)
  serve_step (finish place micros later what) s =
      finish_picked micros later what s (pick place s.jobs)

  unfoldable pub serve_all : List ServerEvent → Serving H → Serving H
  unfolding serve_step
  serve_all [] s = s
  serve_all (e ∷ events) s = serve_all events (serve_step e s)

  pub record Accounts (s : Serving H) : Type 0 where
    pub requests : s.server.counters.total_requests ≡ s.answers + s.unsent + length s.jobs + s.lost
    pub responses :
        s.server.counters.success_responses + s.server.counters.failed_responses
        ≡ s.answers + s.unsent
    pub queue : s.server.counters.current_queue_size ≡ length s.jobs
    pub causes :
        s.server.counters.timeout_responses + s.server.counters.service_missing
          + s.server.counters.method_missing + s.server.counters.server_error_responses
        ≤ s.server.counters.failed_responses
    pub rejected : s.server.counters.queue_rejected ≤ s.server.counters.server_error_responses

  -- The room that the counters have.
  abbrev pub Room : Serving H → Type 0
  Room s = s.server.counters.total_requests + 2 < size_limit
