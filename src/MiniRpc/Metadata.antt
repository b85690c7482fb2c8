-- ===== src/MiniRpc/Metadata.antt =====
-- How `tryDecodeRequest` and `tryDecodeResponse` of code/MiniRPC/src/codec.cpp read the metadata.
use unix_notes.Prelude.{
  ℕ, Bool, ◌&&◌, List, [], ◌∷◌, length, some, ◌==◌, if◌then◌else◌, ok, to_int32,
}
use unix_notes.MiniRpc.Protocol.{raw, RpcRequest, RpcResponse}
use unix_notes.MiniRpc.Reader.{
  Reader, ◌>>=◌, ◌>>◌, pure, check, read_metadata_uint16, read_metadata_uint32,
  read_metadata_uint64, read_metadata_string, read_length_prefixed_string,
}

-- "META"
abbrev pub metadata_extension_magic : ℕ
metadata_extension_magic = 0x4d455441

abbrev pub metadata_extension_version : ℕ
metadata_extension_version = 1

-- `offset == metadata.size()`
abbrev pub at_end : List ℕ → ℕ → Bool
at_end metadata offset = offset == length metadata

abbrev pub ask : (List ℕ → ℕ → Bool) → Reader Bool
ask condition metadata offset = ok (some (condition metadata offset, offset))

unfoldable pub read_extension_header : Reader (Unit {0})
unfolding read_metadata_uint32 read_metadata_uint16
read_extension_header = do
  magic ← read_metadata_uint32
  version ← read_metadata_uint16
  check (λ _ _. magic == metadata_extension_magic && version == metadata_extension_version)

-- `if (decoded.serializer.empty()) decoded.serializer = "raw";`
abbrev pub or_raw : List ℕ → List ℕ
or_raw [] = raw
or_raw (x ∷ xs) = x ∷ xs

unfoldable pub read_request_extension : RpcRequest → Reader RpcRequest
unfolding read_extension_header
read_request_extension decoded = do
  read_extension_header
  timeout_ms ← read_metadata_uint64
  attempt ← read_metadata_uint32
  trace_id ← read_length_prefixed_string
  serializer ← read_length_prefixed_string
  check at_end
  pure (record decoded {
    timeout_ms = timeout_ms;
    trace_id = trace_id;
    serializer = or_raw serializer;
    attempt = attempt;
  })

unfoldable pub read_request : ℕ → Reader RpcRequest
unfolding read_request_extension
read_request request_id = do
  service_length ← read_metadata_uint32
  service_name ← read_metadata_string service_length
  method_length ← read_metadata_uint32
  method_name ← read_metadata_string method_length
  let decoded : RpcRequest = record {
    request_id = request_id;
    service_name = service_name;
    method_name = method_name;
    payload = [];
    timeout_ms = 0;
    trace_id = [];
    serializer = raw;
    attempt = 0;
  }
  done ← ask at_end
  if done then pure decoded else read_request_extension decoded

unfoldable pub read_response_extension : RpcResponse → Reader RpcResponse
unfolding read_extension_header
read_response_extension decoded = do
  read_extension_header
  server_cost_us ← read_metadata_uint64
  trace_id ← read_length_prefixed_string
  serializer ← read_length_prefixed_string
  check at_end
  pure (record decoded {
    trace_id = trace_id;
    server_cost_us = server_cost_us;
    serializer = or_raw serializer;
  })

unfoldable pub read_response : ℕ → Reader RpcResponse
unfolding read_response_extension
read_response request_id = do
  error_code ← read_metadata_uint32
  message_length ← read_metadata_uint32
  error_message ← read_metadata_string message_length
  let decoded : RpcResponse = record {
    request_id = request_id;
    error_code = to_int32 error_code;
    error_message = error_message;
    payload = [];
    trace_id = [];
    server_cost_us = 0;
    serializer = raw;
  }
  done ← ask at_end
  if done then pure decoded else read_response_extension decoded
