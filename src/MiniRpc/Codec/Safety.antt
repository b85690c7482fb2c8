-- ===== src/MiniRpc/Codec/Safety.antt =====
-- The decoders of code/MiniRPC/src/codec.cpp on bytes that no encoder wrote.
use unix_notes.Prelude.{
  ℕ, ◌≤◌, ◌≡◌, refl, Bool, true, false, List, length, drop, arith, if◌then◌else◌, Outcome, ok,
  Option, none, some, to_int32, Returns, Returns-bind, inl, inr,
}
use unix_notes.MiniReactor.Buffer.{Buffer, retrieve}
use unix_notes.MiniReactor.Buffer.Refine.{Holds}
use unix_notes.MiniReactor.Buffer.Text.{retrieve-Holds}
use unix_notes.MiniRpc.Protocol.{rpc_header_size, request, response, RpcRequest, RpcResponse}
use unix_notes.MiniRpc.Reader.{Reader, pure}
use unix_notes.MiniRpc.Reader.Chain.{
  Total, Total-bind, check-Total, read_metadata_uint16-Total, read_metadata_uint32-Total,
  read_metadata_uint64-Total, read_metadata_string-Total, read_length_prefixed_string-Total,
}
use unix_notes.MiniRpc.Metadata.{
  at_end, ask, read_extension_header, read_request_extension, read_request, read_response_extension,
  read_response,
}
use unix_notes.MiniRpc.Frame.{Decoded, complete, need_more_data, protocol_error, ParsedFrame}
use unix_notes.MiniRpc.Frame.Stream.{Within, parse_frame_safe}
use unix_notes.MiniRpc.Codec.Request.{named_request}
use unix_notes.MiniRpc.Codec.Response.{coded_response}
use unix_notes.MiniRpc.Codec.{
  finish_request, try_decode_request, finish_response, try_decode_response,
}

pure-Total : {A : Type 0} (a : A) → Total (pure a)
pure-Total a m o = (_, refl, tt)

if-Total : {A : Type 0} (b : Bool) {r s : Reader A} → Total r → Total s → Total (if b then r else s)
if-Total true t u = t
if-Total false t u = u

read_extension_header-Total : Total read_extension_header
unfolding read_extension_header
read_extension_header-Total =
    Total-bind _ read_metadata_uint32-Total
      λ magic. Total-bind _ read_metadata_uint16-Total λ version. check-Total _

read_request_extension-Total : (r : RpcRequest) → Total (read_request_extension r)
unfolding read_request_extension
read_request_extension-Total r = Total-bind _ read_extension_header-Total λ _.
    Total-bind _ read_metadata_uint64-Total λ timeout_ms.
      Total-bind _ read_metadata_uint32-Total λ attempt.
        Total-bind _ read_length_prefixed_string-Total λ trace_id.
          Total-bind _ read_length_prefixed_string-Total
            λ serializer. Total-bind _ (check-Total at_end) λ _. pure-Total _

read_request-Total : (request_id : ℕ) → Total (read_request request_id)
unfolding read_request
read_request-Total request_id = Total-bind _ read_metadata_uint32-Total λ service_length.
    Total-bind _ (read_metadata_string-Total service_length) λ service_name.
      Total-bind _ read_metadata_uint32-Total λ method_length.
        Total-bind _ (read_metadata_string-Total method_length) λ method_name.
          Total-bind {r = ask at_end} _ (λ m o. (_, refl, tt))
            λ done.
              if-Total done (pure-Total (named_request request_id service_name method_name))
                (read_request_extension-Total (named_request request_id service_name method_name))

read_response_extension-Total : (r : RpcResponse) → Total (read_response_extension r)
unfolding read_response_extension
read_response_extension-Total r = Total-bind _ read_extension_header-Total λ _.
    Total-bind _ read_metadata_uint64-Total λ server_cost_us.
      Total-bind _ read_length_prefixed_string-Total λ trace_id.
        Total-bind _ read_length_prefixed_string-Total
          λ serializer. Total-bind _ (check-Total at_end) λ _. pure-Total _

read_response-Total : (request_id : ℕ) → Total (read_response request_id)
unfolding read_response
read_response-Total request_id = Total-bind _ read_metadata_uint32-Total λ error_code.
    Total-bind _ read_metadata_uint32-Total λ message_length.
      Total-bind _ (read_metadata_string-Total message_length) λ error_message.
        Total-bind {r = ask at_end} _ (λ m o. (_, refl, tt))
          λ done.
            if-Total done
              (pure-Total (coded_response request_id (to_int32 error_code) error_message))
              (read_response_extension-Total
                (coded_response request_id (to_int32 error_code) error_message))

-- What a decoder leaves: all the bytes unless it gave a message, and then all but one frame of at
-- least a header's size.
abbrev pub Consumes : {A : Type 0} → List ℕ → Buffer → Decoded A × Buffer → Type 0
Consumes bytes buffer (complete a, buffer') =
    (n : ℕ) × (rpc_header_size ≤ n) × (n ≤ length bytes) × Holds buffer' (drop n bytes)
Consumes bytes buffer (need_more_data, buffer') = buffer' ≡ buffer
Consumes bytes buffer (protocol_error, buffer') = buffer' ≡ buffer

-- A frame within the bytes can be taken out of the buffer.
take_frame :
    {A : Type 0} (a : A) (n : ℕ) (bytes : List ℕ) {buffer : Buffer}
    → Holds buffer bytes
    → rpc_header_size ≤ n
    → n ≤ length bytes
    → Returns (retrieve n buffer) (λ buffer'. Consumes bytes buffer (complete a, buffer'))
take_frame a n bytes {buffer} h large small = elim (retrieve-Holds n buffer bytes h) [
  | inl (_, (buffer', e, h')) ↦ (buffer', e, (n, large, small, h'))
  | inr (short, _) ↦ absurd (omega arith)
]

-- The two ways a chain of readers ends.
read_cases :
    {A C : Type 0} {o : Outcome (Option A)}
    → Returns o (λ _. Unit {0})
    → (o ≡ ok none → C)
    → ((a : A) → o ≡ ok (some a) → C)
    → C
read_cases (none, e, _) f g = f e
read_cases (some a, e, _) f g = g a e

-- The three ways the parser ends.
parse_cases :
    {C : Type 0} {n : ℕ} {o : Outcome (Decoded ParsedFrame)}
    → Returns o (Within n)
    → (o ≡ ok need_more_data → C)
    → (o ≡ ok protocol_error → C)
    → ((frame : ParsedFrame) → o ≡ ok (complete frame) → Within n (complete frame) → C)
    → C
parse_cases (need_more_data, e, _) more wrong given = more e
parse_cases (protocol_error, e, _) more wrong given = wrong e
parse_cases (complete frame, e, w) more wrong given = given frame e w

finish_request_safe :
    (frame : ParsedFrame) (bytes : List ℕ) {buffer : Buffer}
    → Holds buffer bytes
    → Within (length bytes) (complete frame)
    → Returns (finish_request buffer frame) (Consumes bytes buffer)
unfolding finish_request
finish_request_safe frame bytes {buffer} h (large, small) =
    read_cases (read_request-Total frame.request_id frame.metadata 0) (λ e. rw e (_, refl, refl))
      λ (r, o) e. rw e (
        Returns-bind _ _
          (take_frame (record r { payload = frame.body }) frame.total_length bytes h large small)
          λ buffer' c. (_, refl, c))

-- On any bytes whatever the decoder of requests returns: it reads nothing outside the buffer, takes
-- one frame out of it if it gives a request, and leaves the buffer as it is otherwise.
pub try_decode_request_safe :
    (bytes : List ℕ) (buffer : Buffer)
    → Holds buffer bytes
    → Returns (try_decode_request buffer) (Consumes bytes buffer)
unfolding try_decode_request
try_decode_request_safe bytes buffer h =
    parse_cases (parse_frame_safe request bytes h) (λ e. rw e (_, refl, refl))
      (λ e. rw e (_, refl, refl)) λ frame e w. rw e (finish_request_safe frame bytes h w)

finish_response_safe :
    (frame : ParsedFrame) (bytes : List ℕ) {buffer : Buffer}
    → Holds buffer bytes
    → Within (length bytes) (complete frame)
    → Returns (finish_response buffer frame) (Consumes bytes buffer)
unfolding finish_response
finish_response_safe frame bytes {buffer} h (large, small) =
    read_cases (read_response-Total frame.request_id frame.metadata 0) (λ e. rw e (_, refl, refl))
      λ (r, o) e. rw e (
        Returns-bind _ _
          (take_frame (record r { payload = frame.body }) frame.total_length bytes h large small)
          λ buffer' c. (_, refl, c))

-- On any bytes whatever the decoder of responses returns: it reads nothing outside the buffer, takes
-- one frame out of it if it gives a response, and leaves the buffer as it is otherwise.
pub try_decode_response_safe :
    (bytes : List ℕ) (buffer : Buffer)
    → Holds buffer bytes
    → Returns (try_decode_response buffer) (Consumes bytes buffer)
unfolding try_decode_response
try_decode_response_safe bytes buffer h =
    parse_cases (parse_frame_safe response bytes h) (λ e. rw e (_, refl, refl))
      (λ e. rw e (_, refl, refl)) λ frame e w. rw e (finish_response_safe frame bytes h w)
