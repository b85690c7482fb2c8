-- ===== src/MiniRpc/Codec.antt =====
-- `RpcCodec` of code/MiniRPC/src/codec.cpp: requests and responses as frames. The metadata of a
-- message is a list of fields, with an extension behind them where one is not at its default.
pub mod Encode
pub mod Request
pub mod Response
pub mod Safety
use unix_notes.Prelude.{
  ℕ, ◌+◌, ◌^◌, ◌%◌, Bool, true, false, not, ◌||◌, ◌&&◌, List, [], ◌∷◌, ◌++◌, Option, none, some,
  length, ◌==◌, if◌then◌else◌, Outcome, ok, ◌>>=◌, ◌>>◌, to_uint32, to_int32,
}
use unix_notes.MiniReactor.Buffer.{Buffer, retrieve}
use unix_notes.MiniRpc.Protocol.{MessageType, request, response, raw, RpcRequest, RpcResponse}
use unix_notes.MiniRpc.Wire.{append_uint16, append_uint32, append_uint64}
use unix_notes.MiniRpc.Metadata.{
  metadata_extension_magic, metadata_extension_version, read_request, read_response,
}
use unix_notes.MiniRpc.Frame.{
  Decoded, complete, need_more_data, protocol_error, ParsedFrame, check_string_length, uint32,
  encode_frame, parse_frame,
}

unfoldable pub append_metadata_string : List ℕ → List ℕ → Outcome (List ℕ)
unfolding check_string_length
append_metadata_string output value = do
  check_string_length (length value)
  ok (append_uint32 output (uint32 (length value)) ++ value)

abbrev pub is_empty : List ℕ → Bool
is_empty [] = true
is_empty (x ∷ xs) = false

-- `a == b` on strings.
abbrev pub equal : List ℕ → List ℕ → Bool
equal [] [] = true
equal (x ∷ xs) (y ∷ ys) = x == y && equal xs ys
equal _ _ = false

unfoldable pub has_request_extension : RpcRequest → Bool
has_request_extension r =
    not (r.timeout_ms == 0)
    || not (is_empty r.trace_id)
    || not (equal r.serializer raw)
    || not (r.attempt == 0)

unfoldable pub has_response_extension : RpcResponse → Bool
has_response_extension r =
    not (is_empty r.trace_id) || not (r.server_cost_us == 0) || not (equal r.serializer raw)

-- The magic and the version that an extension starts with.
abbrev pub append_extension_header : List ℕ → List ℕ
append_extension_header metadata =
    append_uint16 (append_uint32 metadata metadata_extension_magic) metadata_extension_version

unfoldable pub append_request_extension : RpcRequest → List ℕ → Outcome (List ℕ)
append_request_extension r metadata = do
  let fixed =
      append_uint32 (append_uint64 (append_extension_header metadata) r.timeout_ms) r.attempt
  traced ← append_metadata_string fixed r.trace_id
  append_metadata_string traced r.serializer

unfoldable pub append_response_extension : RpcResponse → List ℕ → Outcome (List ℕ)
append_response_extension r metadata = do
  let fixed = append_uint64 (append_extension_header metadata) r.server_cost_us
  traced ← append_metadata_string fixed r.trace_id
  append_metadata_string traced r.serializer

unfoldable pub encode_request : RpcRequest → Outcome (List ℕ)
unfolding check_string_length
encode_request r = do
  check_string_length (length r.service_name)
  check_string_length (length r.method_name)
  check_string_length (length r.trace_id)
  check_string_length (length r.serializer)
  named ← append_metadata_string [] r.service_name
  plain ← append_metadata_string named r.method_name
  metadata ← (if has_request_extension r then append_request_extension r plain else ok plain)
  encode_frame request r.request_id metadata r.payload

unfoldable pub encode_response : RpcResponse → Outcome (List ℕ)
unfolding check_string_length
encode_response r = do
  check_string_length (length r.error_message)
  check_string_length (length r.trace_id)
  check_string_length (length r.serializer)
  plain ← append_metadata_string (append_uint32 [] (to_uint32 r.error_code)) r.error_message
  metadata ← (if has_response_extension r then append_response_extension r plain else ok plain)
  encode_frame response r.request_id metadata r.payload

-- Once the frame is complete: read its metadata, and on success take the frame out of the buffer.
unfoldable pub finish_request : Buffer → ParsedFrame → Outcome (Decoded RpcRequest × Buffer)
finish_request buffer frame = do
  decoded ← read_request frame.request_id frame.metadata 0
  elim decoded [
    | none ↦ ok (protocol_error, buffer)
    | some (r, _) ↦
        (retrieve frame.total_length buffer >>= λ buffer'.
        ok (complete (record r { payload = frame.body }), buffer'))
  ]

unfoldable pub try_decode_request : Buffer → Outcome (Decoded RpcRequest × Buffer)
try_decode_request buffer = do
  status ← parse_frame buffer request
  elim status [
    | complete frame ↦ finish_request buffer frame
    | need_more_data ↦ ok (need_more_data, buffer)
    | protocol_error ↦ ok (protocol_error, buffer)
  ]

unfoldable pub finish_response : Buffer → ParsedFrame → Outcome (Decoded RpcResponse × Buffer)
finish_response buffer frame = do
  decoded ← read_response frame.request_id frame.metadata 0
  elim decoded [
    | none ↦ ok (protocol_error, buffer)
    | some (r, _) ↦
        (retrieve frame.total_length buffer >>= λ buffer'.
        ok (complete (record r { payload = frame.body }), buffer'))
  ]

unfoldable pub try_decode_response : Buffer → Outcome (Decoded RpcResponse × Buffer)
try_decode_response buffer = do
  status ← parse_frame buffer response
  elim status [
    | complete frame ↦ finish_response buffer frame
    | need_more_data ↦ ok (need_more_data, buffer)
    | protocol_error ↦ ok (protocol_error, buffer)
  ]
