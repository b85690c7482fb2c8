-- ===== src/MiniRpc/Server/Tests.antt =====
-- A server with one method, one worker that is free, and a handler that throws; and a future.
use unix_notes.Prelude.{
  ℕ, ◌≡◌, refl, ◌&&◌, List, [], ◌∷◌, none, some, arith, if◌then◌else◌, pos, codes, Returns, ◌≢◌,
  ◌++◌, take, drop,
}
use unix_notes.MiniRpc.Protocol.{RpcRequest, RpcResponse}
use unix_notes.MiniRpc.Codec.{has_request_extension, equal}
use unix_notes.MiniRpc.Server.Messages.{
  Ended, on_message_stops, EncodedRequest, Serves, Turns, handle_each, on_message,
  on_message-Serves,
}
use unix_notes.MiniRpc.Tests.{
  add_frame, add_request, add_request-Fits, add_request-encoded, filled, filled-Holds,
}
use unix_notes.MiniRpc.Registry.{
  Services, find_method, register_method, handler_of, is_none, find-register,
}
use unix_notes.MiniRpc.Server.{Handled, Job, Server, no_counts, throws_out}
use unix_notes.MiniRpc.Server.Serving.{ServerEvent, receive, finish}
use unix_notes.MiniRpc.Future
use unix_notes.MiniRpc.Future.{
  Change, completes, sets_cancel, changes, promised, first_response, last_function, future_lem, get,
}
use unix_notes.ThreadPool.Pool.{accepted, queue_full}

abbrev add_names : List ℕ × List ℕ
add_names = (codes "Calc", codes "Add")

abbrev calc : Services ℕ
calc = (codes "Calc", (codes "Add", 1) ∷ []) ∷ []

abbrev ask_add : RpcRequest
ask_add = record {
  request_id = 7;
  service_name = codes "Calc";
  method_name = codes "Add";
  payload = 1 ∷ 2 ∷ [];
  timeout_ms = 500;
  trace_id = codes "t";
  serializer = [];
  attempt = 1;
}

abbrev ask_other : RpcRequest
ask_other = record ask_add { method_name = codes "Sub" }

-- The handler throws.
abbrev throwing : ℕ → RpcRequest → RpcResponse → Handled
throwing handler request response = throws_out response (some (codes "no"))

abbrev calc_server : Server ℕ
calc_server = record { registry = calc; counters = no_counts }

abbrev three_requests : List ServerEvent
three_requests =
    receive accepted ask_add (pos 3)
    ∷ receive accepted ask_other (pos 4)
    ∷ finish 0 (pos 9) (pos 10) []
    ∷ receive queue_full ask_add (pos 2)
    ∷ []

abbrev add_job : Job ℕ
add_job = record { handler = 1; request = ask_add }

find-register_example :
    let (services', added) = register_method (codes "Calc") (codes "Sub") (some 2) calc in
    let before = handler_of (find_method (codes "Calc") (codes "Sub") calc) in
    (added ≡ is_none before)
    × (handler_of (find_method (codes "Calc") (codes "Add") services') ≡ (
        if equal (codes "Calc") (codes "Calc")
          && equal (codes "Sub") (codes "Add")
          && is_none before
        then some 2
        else handler_of (find_method (codes "Calc") (codes "Add") calc)))
find-register_example =
    find-register (codes "Calc") (codes "Sub") (codes "Calc") (codes "Add") 2 calc refl refl

abbrev first_answer : RpcResponse
first_answer = record Future.empty_response { request_id = 7 }

abbrev told_twice : List (Change ℕ)
told_twice =
    sets_cancel 5 ∷ completes first_answer ∷ completes Future.empty_response ∷ sets_cancel 6 ∷ []

future_lem_example :
    (get (changes told_twice Future.new) ≡ promised (first_response told_twice))
    × (Future.cancel (changes told_twice Future.new) ≡ last_function none told_twice)
future_lem_example = future_lem told_twice

abbrev three_each : Turns
three_each n = (accepted, pos 3)

-- A frame, and ten bytes of a second one.
abbrev frame_and_ten : List ℕ
frame_and_ten = add_frame ++ take 10 add_frame

add_request-Encoded : EncodedRequest add_request add_frame
add_request-Encoded = record { fits = add_request-Fits; encoded = add_request-encoded }

on_message-Serves_example :
    Returns
      (on_message 2 three_each (filled frame_and_ten) calc_server)
      (Serves (take 10 add_frame) (handle_each (add_request ∷ []) three_each calc_server))
unfolding has_request_extension
on_message-Serves_example =
    on_message-Serves (add_request ∷ []) (add_frame ∷ []) add_request add_frame (take 10 add_frame)
      (drop 10 add_frame) three_each (filled frame_and_ten) calc_server (add_request-Encoded, tt)
      add_request-Encoded parts more (filled-Holds frame_and_ten (omega arith))
  where
    parts : take 10 add_frame ++ drop 10 add_frame ≡ add_frame
    parts = refl

    more : drop 10 add_frame ≢ []
    more e = cc

on_message_stops_example :
    Returns (on_message 8 three_each (filled frame_and_ten) calc_server) Ended
unfolding has_request_extension
on_message_stops_example =
    on_message_stops 8 frame_and_ten three_each (filled frame_and_ten) calc_server
      (filled-Holds frame_and_ten (omega arith)) (omega arith)
