-- ===== src/MiniRpc/Frame.antt =====
-- `encodeFrame` and `parseFrame` of code/MiniRPC/src/codec.cpp: a fixed header of 24 bytes, the
-- metadata and the body.
pub mod Stream
use unix_notes.Prelude.{
  ℕ, ◌+◌, ◌-◌, ◌^◌, ◌%◌, Bool, not, ◌||◌, List, [], ◌∷◌, ◌++◌, length, take, drop, ltb, ◌==◌,
  if◌then◌else◌, Outcome, ok, ◌>>=◌, ◌>>◌, throw_if, length_error,
}
use unix_notes.MiniReactor.Buffer.{Buffer, readable_bytes, peek}
use unix_notes.MiniRpc.Protocol.{
  rpc_magic, protocol_version, rpc_header_size, max_message_size, MessageType, message_code,
  RpcHeader,
}
use unix_notes.MiniRpc.Wire.{
  append_uint16, append_uint32, append_uint64, read_uint16, read_uint32, read_uint64,
}

-- What a decoder answers; the out parameter is written on `complete` only.
pub data Decoded (A : Type 0) : Type 0 where
  complete : A → Decoded A
  need_more_data protocol_error : Decoded A

pub record ParsedFrame : Type 0 where
  pub request_id : ℕ
  pub metadata : List ℕ
  pub body : List ℕ
  pub total_length : ℕ

unfoldable pub check_string_length : ℕ → Outcome (Unit {0})
check_string_length size = throw_if (ltb (2 ^ 32 - 1) size) length_error

-- `static_cast<std::uint32_t>`
abbrev pub uint32 : ℕ → ℕ
uint32 n = n % 2 ^ 32

-- The six fields that stand in front of the metadata.
abbrev pub append_header : MessageType → ℕ → ℕ → ℕ → List ℕ
append_header type request_id metadata_size body_size =
    append_uint32
      (append_uint32
        (append_uint64
          (append_uint16 (append_uint16 (append_uint32 [] rpc_magic) protocol_version)
            (message_code type))
          request_id)
        (uint32 metadata_size))
      (uint32 body_size)

unfoldable pub encode_frame : MessageType → ℕ → List ℕ → List ℕ → Outcome (List ℕ)
unfolding check_string_length
encode_frame type request_id metadata body = do
  check_string_length (length metadata)
  check_string_length (length body)
  throw_if
      (ltb max_message_size (length metadata)
        || ltb (max_message_size - length metadata) (length body))
      length_error
  ok ((append_header type request_id (length metadata) (length body) ++ metadata) ++ body)

-- The reads at the offsets of the header.
unfoldable pub read_header : List ℕ → Outcome RpcHeader
unfolding read_uint16 read_uint32 read_uint64
read_header data_ = do
  magic ← read_uint32 data_
  version ← read_uint16 (drop 4 data_)
  type ← read_uint16 (drop 6 data_)
  request_id ← read_uint64 (drop 8 data_)
  metadata_length ← read_uint32 (drop 16 data_)
  body_length ← read_uint32 (drop 20 data_)
  ok (record {
    magic = magic;
    version = version;
    message_type = type;
    request_id = request_id;
    metadata_length = metadata_length;
    body_length = body_length;
  })

-- What is decided from the header, and where the two views start.
unfoldable pub check_header : Buffer → MessageType → RpcHeader → Decoded ParsedFrame
check_header buffer expected h =
    if not (h.magic == rpc_magic)
      || not (h.version == protocol_version)
      || not (h.message_type == message_code expected)
    then protocol_error
    else if ltb max_message_size h.metadata_length
        || ltb (max_message_size - h.metadata_length) h.body_length
    then protocol_error
    else if ltb (readable_bytes buffer) (rpc_header_size + (h.metadata_length + h.body_length))
    then need_more_data
    else complete (record {
      request_id = h.request_id;
      metadata = take h.metadata_length (drop rpc_header_size (peek buffer));
      body = take h.body_length (drop (rpc_header_size + h.metadata_length) (peek buffer));
      total_length = rpc_header_size + (h.metadata_length + h.body_length);
    })

unfoldable pub parse_frame : Buffer → MessageType → Outcome (Decoded ParsedFrame)
parse_frame buffer expected =
    if ltb (readable_bytes buffer) rpc_header_size
    then ok need_more_data
    else (do header ← read_header (peek buffer); ok (check_header buffer expected header))
