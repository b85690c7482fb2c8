-- ===== src/MiniRpc/Client/Tests.antt =====
-- A client with two calls: one is answered, the other passes its deadline while the client connects
-- again.
use unix_notes.Prelude.{
  replicate, sum, ℕ, ◌+◌, ◌*◌, ◌^◌, ◌≤◌, ◌≡◌, refl, ◌≢◌, true, false, List, [], ◌∷◌, ◌++◌, none,
  some, arith, length, leb, if◌then◌else◌, pos, min, codes, Returns, take, drop,
}
use unix_notes.MiniReactor.Buffer.Refine.{Holds}
use unix_notes.MiniRpc.Protocol.{RpcRequest, RpcResponse, RpcErrorCode, raw}
use unix_notes.MiniRpc.Frame.{encode_frame}
use unix_notes.MiniRpc.Codec.{
  encode_request, append_metadata_string, has_request_extension, append_request_extension,
  has_response_extension,
}
use unix_notes.MiniRpc.Client.{
  initial_reconnect_delay, max_reconnect_delay, ClientConnectionState, RpcCallOptions, PendingCall,
  Client, max_reconnect_delay, digits, error_response, count_response, failed_state, fill_request,
  disconnected, waiting_to_send,
}
use unix_notes.MiniRpc.Client.Sections
use unix_notes.MiniRpc.Client.System
use unix_notes.MiniRpc.Client.System.{System, Event, LinkEvent, run}
use unix_notes.MiniRpc.Client.Weigh.{here}
use unix_notes.MiniRpc.Client.Counts.{issued, Ledger}
use unix_notes.MiniRpc.Client.Ledger.{client-Ledger}
use unix_notes.MiniRpc.Client.Written.{unsent, written_once}
use unix_notes.MiniRpc.Client.Reconnect.{reconnect_delay_bounds, rounds, back_off}
use unix_notes.MiniRpc.Client.Stopped.{Stopped, run-Stopped, errors, with_attempt, retry_limit}
use unix_notes.MiniRpc.Client.Messages.{EncodedHead, complete_each, on_message_completes}
use unix_notes.MiniRpc.Client.Handlers.{Run, on_message}
use unix_notes.MiniRpc.Tests.{
  failed as failed_response, failed_frame, failed-encoded, failed-Fits, filled, filled-Holds,
}

abbrev add_call : RpcRequest
add_call = record {
  request_id = 0;
  service_name = codes "Calc";
  method_name = codes "Add";
  payload = 1 ∷ 2 ∷ [];
  timeout_ms = 0;
  trace_id = [];
  serializer = [];
  attempt = 0;
}

abbrev patient : RpcCallOptions
patient = record {
  timeout = pos 500;
  retry_enabled = true;
  max_retries = 2;
  fail_fast = false;
  trace_id = [];
}

abbrev sum_response : RpcResponse
sum_response = record {
  request_id = 1;
  error_code = pos 0;
  error_message = [];
  payload = 3 ∷ [];
  trace_id = [];
  server_cost_us = 12;
  serializer = raw;
}

abbrev two_calls : List (Event ℕ)
two_calls =
    Event.begin 10 70 5 [] add_call patient (some 4)
    ∷ Event.count
    ∷ Event.admit 0
    ∷ Event.begin 11 71 6 [] add_call patient none
    ∷ Event.register 0
    ∷ Event.count
    ∷ Event.link (LinkEvent.set_state ClientConnectionState.connected)
    ∷ Event.claim 1 70
    ∷ Event.claim 1 70
    ∷ Event.admit 0
    ∷ Event.register 0
    ∷ Event.respond sum_response
    ∷ Event.link LinkEvent.plan_reconnect
    ∷ Event.fail 2 RpcErrorCode.timeout (codes "RPC call timed out")
    ∷ Event.finish 0
    ∷ Event.finish 0
    ∷ []

client-Ledger_example : Ledger (run two_calls System.start)
client-Ledger_example = client-Ledger two_calls (omega arith)

reconnect_delay_bounds_example :
    let c = (run two_calls System.start).client in
    (initial_reconnect_delay ≤ c.reconnect_delay) × (c.reconnect_delay ≤ max_reconnect_delay)
reconnect_delay_bounds_example = reconnect_delay_bounds two_calls

written_once_example :
    let s = run two_calls System.start in
    sum (here 1) s.written + unsent (here 1) s.client.pending_calls
    ≤ issued s.client.next_request_id 1
written_once_example = written_once two_calls 1 (omega arith)

-- Both calls have been completed, one of them with its response.
two_done :
    let s = run two_calls System.start in
    (length s.completed ≡ 2)
    × (s.written ≡ 1 ∷ [])
    × (s.client.counters.success_calls ≡ 1)
    × (s.client.counters.timeout_calls ≡ 1)
unfolding run System.step System.start System.begin_step System.count_step System.admit_picked
    System.register_picked System.finish_picked System.claim_step System.link_step Sections.new
    Sections.next_id Sections.count_call Sections.admit Sections.emplace Sections.find
    Sections.claim Sections.mark_sent Sections.take_out Sections.erase Sections.set_state
    Sections.plan_reconnect Sections.record_client_response count_response failed_state
    error_response encode_request fill_request digits append_metadata_string has_request_extension
    append_request_extension encode_frame
two_done = (refl, refl, refl, refl)

-- A client that has lost its connection and wants it back.
abbrev lost_link : Client ℕ
lost_link = record {
  next_request_id = 1;
  connection_state = disconnected;
  desired_connected = true;
  stopping = false;
  connection_error = pos 0;
  reconnect_delay = 100;
  reconnect_timer_id = 0;
  counters = record {
    total_calls = 0;
    success_calls = 0;
    failed_calls = 0;
    timeout_calls = 0;
    cancelled_calls = 0;
    reconnect_count = 0;
  };
  pending_calls = [];
}

-- The fourth delay is 800 milliseconds.
back_off_example :
    (Sections.plan_reconnect (rounds 3 lost_link)).1 ≡ some (min max_reconnect_delay (100 * 2 ^ 3))
back_off_example = back_off 3 lost_link (refl, refl) refl

abbrev stopped_client : System ℕ
stopped_client = record {
  client = record lost_link { stopping = true };
  uncounted = 0;
  calling = [];
  admitted = [];
  completing = [];
  completed = [];
  written = [];
}

run-Stopped_example :
    Stopped (run two_calls stopped_client)
    × ((run two_calls stopped_client).written ≡ stopped_client.written)
run-Stopped_example = run-Stopped two_calls stopped_client (refl, refl, refl)

abbrev waiting_call : PendingCall ℕ
waiting_call = record {
  address = 70;
  request_id = 1;
  request = record add_call { request_id = 1; attempt = 1 };
  options = patient;
  state = waiting_to_send;
  deadline = 510;
  callback = some 4;
  timer_id = 5;
  frame = [];
}

retry_limit_example :
    errors 3 (waiting_call ∷ []) ≡ (if leb 3 2 then with_attempt (3 + 1) waiting_call ∷ [] else [])
retry_limit_example = retry_limit 3 waiting_call refl refl refl (omega arith)

abbrev at_rest : Run ℕ
at_rest = record { client = record lost_link { pending_calls = waiting_call ∷ [] }; effects = [] }

abbrev junk : List ℕ
junk = replicate 40 77

failed-Head : EncodedHead failed_response failed_frame
failed-Head = record { fits = failed-Fits; encoded = failed-encoded }

abbrev one_and_a_half : List ℕ
one_and_a_half = failed_frame ++ take 10 failed_frame

on_message_completes_example :
    Returns
      (on_message 2 (filled one_and_a_half) at_rest)
      (λ d. Holds d.0 (take 10 failed_frame) × (d.1 ≡ complete_each (failed_response ∷ []) at_rest))
unfolding has_response_extension
on_message_completes_example =
    on_message_completes (failed_response ∷ []) (failed_frame ∷ []) failed_response failed_frame
      (take 10 failed_frame) (drop 10 failed_frame) (filled one_and_a_half) at_rest
      (failed-Head, tt) failed-Head parts more (filled-Holds one_and_a_half (omega arith))
  where
    parts : take 10 failed_frame ++ drop 10 failed_frame ≡ failed_frame
    parts = refl

    more : drop 10 failed_frame ≢ []
    more e = cc
