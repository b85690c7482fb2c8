-- ===== src/MiniRpc/Protocol.antt =====
-- code/MiniRPC/include/mini_rpc/protocol.h. A string is the list of its bytes.
use unix_notes.Prelude.{ℕ, ◌*◌, List, [], ◌∷◌, ℤ}

abbrev pub rpc_magic : ℕ
rpc_magic = 0x4D525043

abbrev pub protocol_version : ℕ
protocol_version = 1

abbrev pub rpc_header_size : ℕ
rpc_header_size = 24

abbrev pub max_message_size : ℕ
max_message_size = 16 * 1024 * 1024

pub data MessageType : Type 0 where
  request response : MessageType

-- The enumerator's value.
abbrev pub message_code : MessageType → ℕ
message_code MessageType.request = 1
message_code MessageType.response = 2

pub data RpcErrorCode : Type 0 where
  ok network_error protocol_error timeout cancelled client_stopping queueing_timeout retry_exhausted
        service_not_found method_not_found server_error serialization_error deserialization_error :
      RpcErrorCode

-- The enumerator's value.
abbrev pub error_value : RpcErrorCode → ℕ
error_value RpcErrorCode.ok = 0
error_value RpcErrorCode.network_error = 1001
error_value RpcErrorCode.protocol_error = 1002
error_value RpcErrorCode.timeout = 1003
error_value RpcErrorCode.cancelled = 1004
error_value RpcErrorCode.client_stopping = 1005
error_value RpcErrorCode.queueing_timeout = 1006
error_value RpcErrorCode.retry_exhausted = 1007
error_value RpcErrorCode.service_not_found = 2001
error_value RpcErrorCode.method_not_found = 2002
error_value RpcErrorCode.server_error = 3001
error_value RpcErrorCode.serialization_error = 4001
error_value RpcErrorCode.deserialization_error = 4002

pub record RpcHeader : Type 0 where
  pub magic : ℕ
  pub version : ℕ
  pub message_type : ℕ
  pub request_id : ℕ
  pub metadata_length : ℕ
  pub body_length : ℕ

-- "raw", the default serializer.
abbrev pub raw : List ℕ
raw = b'r' ∷ b'a' ∷ b'w' ∷ []

pub record RpcRequest : Type 0 where
  pub request_id : ℕ
  pub service_name : List ℕ
  pub method_name : List ℕ
  pub payload : List ℕ
  pub timeout_ms : ℕ
  pub trace_id : List ℕ
  pub serializer : List ℕ
  pub attempt : ℕ

pub record RpcResponse : Type 0 where
  pub request_id : ℕ
  pub error_code : ℤ
  pub error_message : List ℕ
  pub payload : List ℕ
  pub trace_id : List ℕ
  pub server_cost_us : ℕ
  pub serializer : List ℕ
