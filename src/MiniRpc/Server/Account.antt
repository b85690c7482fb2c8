-- ===== src/MiniRpc/Server/Account.antt =====
-- The counters and the responses of `RpcServer` of code/MiniRPC/src/rpc_server.cpp, over any order of
-- requests and jobs.
use unix_notes.Prelude.{sub_size, ℕ, ◌+◌, length}
use unix_notes.MiniRpc.Protocol.{RpcRequest, RpcResponse}
use unix_notes.MiniRpc.Server.{Handled, Counters, Server}
use unix_notes.MiniRpc.Server.Serving.{Serving}

module _ {H : Type 0} (serve : H → RpcRequest → RpcResponse → Handled) where
  -- The counters once a job has ended.
  abbrev ended : Counters → Counters
  ended m = record m { current_queue_size = sub_size m.current_queue_size 1 }

  -- The requests that there have been.
  abbrev total_taken : Serving H → ℕ
  total_taken s = s.answers + s.unsent + length s.jobs + s.lost
