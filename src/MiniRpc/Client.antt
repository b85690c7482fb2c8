-- ===== src/MiniRpc/Client.antt =====
-- The data of `RpcClient` of code/MiniRPC/src/rpc_client.cpp and include/mini_rpc/rpc_client.h. A time
-- is a number of milliseconds. `C` is the type of callbacks. A call's address and its timer's id come
-- from the allocator and the event loop. The map of pending calls is the list of its values in the
-- order in which it is walked.
pub mod Sections
pub mod System
pub mod Weigh
mod Counts
pub mod Ledger
pub mod Written
pub mod Handlers
pub mod Messages
pub mod Call
pub mod Reconnect
pub mod Stopped
mod Tests
use unix_notes.Prelude.{
  ℕ, zero, suc, ◌+◌, ◌-◌, ◌*◌, ◌/◌, ◌%◌, Bool, true, false, not, ◌&&◌, ◌||◌, List, [], ◌∷◌, ◌++◌,
  Option, none, some, ltb, leb, ◌==◌, if◌then◌else◌, ℤ, pos, negsuc, add_size, min, codes,
}
use unix_notes.MiniRpc.Protocol.{RpcErrorCode, error_value, RpcRequest, RpcResponse, raw}
use unix_notes.MiniRpc.Codec.{is_empty}

pub data ClientConnectionState : Type 0 where
  disconnected connecting connected reconnecting stopping : ClientConnectionState

pub data PendingState : Type 0 where
  waiting_to_send sent completed timed_out cancelled failed : PendingState

-- A timeout may be negative.
pub record RpcCallOptions : Type 0 where
  pub timeout : ℤ
  pub retry_enabled : Bool
  pub max_retries : ℕ
  pub fail_fast : Bool
  pub trace_id : List ℕ

pub record PendingCall (C : Type 0) : Type 0 where
  pub address : ℕ
  pub request_id : ℕ
  pub request : RpcRequest
  pub options : RpcCallOptions
  pub state : PendingState
  pub deadline : ℕ
  pub callback : Option C
  pub timer_id : ℕ
  pub frame : List ℕ

-- The atomic counters of the client.
pub record Counters : Type 0 where
  pub total_calls : ℕ
  pub success_calls : ℕ
  pub failed_calls : ℕ
  pub timeout_calls : ℕ
  pub cancelled_calls : ℕ
  pub reconnect_count : ℕ

pub record Client (C : Type 0) : Type 0 where
  pub next_request_id : ℕ
  pub connection_state : ClientConnectionState
  pub desired_connected : Bool
  pub stopping : Bool
  pub connection_error : ℤ
  pub reconnect_delay : ℕ
  pub reconnect_timer_id : ℕ
  pub counters : Counters
  pub pending_calls : List (PendingCall C)

abbrev pub initial_reconnect_delay : ℕ
initial_reconnect_delay = 100

abbrev pub max_reconnect_delay : ℕ
max_reconnect_delay = 3000

abbrev pub is_connected : ClientConnectionState → Bool
is_connected connected = true
is_connected _ = false

abbrev pub is_disconnected : ClientConnectionState → Bool
is_disconnected disconnected = true
is_disconnected _ = false

abbrev pub is_reconnecting : ClientConnectionState → Bool
is_reconnecting reconnecting = true
is_reconnecting _ = false

abbrev pub is_waiting : PendingState → Bool
is_waiting waiting_to_send = true
is_waiting _ = false

abbrev pub is_sent : PendingState → Bool
is_sent sent = true
is_sent _ = false

-- The decimal digits of a number, at most `fuel` of them, before `rest`.
unfoldable pub digits : (fuel : ℕ) → ℕ → List ℕ → List ℕ
digits zero n rest = rest
digits (suc fuel) n rest =
    let longer = digits fuel (n / 10) ((b'0' + n % 10) ∷ rest) in
    if ltb n 10 then (b'0' + n) ∷ rest else longer

-- `std::to_string` of a `std::uint64_t`, which has at most 20 digits.
abbrev pub to_string : ℕ → List ℕ
to_string n = digits 20 n []

-- `errorResponse`
unfoldable pub error_response : ℕ → RpcErrorCode → List ℕ → RpcResponse
error_response request_id error_code error_message = record {
  request_id = request_id;
  error_code = pos (error_value error_code);
  error_message = error_message;
  payload = [];
  trace_id = [];
  server_cost_us = 0;
  serializer = raw;
}

-- `static_cast<RpcErrorCode>(value) == code`
abbrev pub is_code : ℤ → RpcErrorCode → Bool
is_code (pos n) code = n == error_value code
is_code (negsuc n) code = false

-- The counters after `recordClientResponse`.
unfoldable pub count_response : ℤ → Counters → Counters
count_response error_code m =
    let wrong = record m { failed_calls = add_size m.failed_calls 1 } in
    if is_code error_code RpcErrorCode.ok
    then record m { success_calls = add_size m.success_calls 1 }
    else if is_code error_code RpcErrorCode.timeout
        || is_code error_code RpcErrorCode.queueing_timeout
    then record wrong { timeout_calls = add_size m.timeout_calls 1 }
    else if is_code error_code RpcErrorCode.cancelled
    then record wrong { cancelled_calls = add_size m.cancelled_calls 1 }
    else wrong

-- The state in which `failPending` leaves a call.
unfoldable pub failed_state : RpcErrorCode → PendingState
failed_state RpcErrorCode.timeout = PendingState.timed_out
failed_state RpcErrorCode.queueing_timeout = timed_out
failed_state RpcErrorCode.cancelled = PendingState.cancelled
failed_state _ = PendingState.failed

abbrev pub positive : ℤ → Bool
positive (pos n) = ltb 0 n
positive (negsuc n) = false

-- A timeout that has passed the test for zero, as a number.
abbrev pub milliseconds : ℤ → ℕ
milliseconds (pos n) = n
milliseconds (negsuc n) = 0

-- `static_cast<std::uint64_t>` of a count of milliseconds.
abbrev pub to_uint64 : ℤ → ℕ
to_uint64 (pos n) = n % 0x1_0000_0000_0000_0000
to_uint64 (negsuc n) = 0xffff_ffff_ffff_ffff - n % 0x1_0000_0000_0000_0000

-- What `callAsyncInternal` fills into the request.
unfoldable pub fill_request : ℕ → RpcCallOptions → RpcRequest → RpcRequest
fill_request request_id options request = record request {
  request_id = request_id;
  timeout_ms = to_uint64 options.timeout;
  trace_id =
      (if is_empty options.trace_id
        then codes "rpc-" ++ to_string request_id
        else options.trace_id);
  serializer = (if is_empty request.serializer then raw else request.serializer);
  attempt = (if request.attempt == 0 then 1 else request.attempt);
}
