-- ===== src/MiniRpc/Codec/Encode.antt =====
-- What `encodeRequest` of code/MiniRPC/src/codec.cpp writes, field by field.
use unix_notes.Prelude.{
  ℕ, ◌+◌, ◌-◌, ◌≤◌, ◌<◌, ◌^◌, ◌≡◌, ap, ◌∙◌, List, [], ◌++◌, length, arith, if◌then◌else◌,
  le→ltb_false, append-nil, append_assoc, ok, throws, length_error, Bool-cases, inl, inr, ◌⊎◌,
}
use native.Mathlib.Decide.{dec_lt}
use unix_notes.MiniRpc.Protocol.{max_message_size, MessageType, request, RpcRequest}
use unix_notes.MiniRpc.Wire.{uint16_bytes, uint32_bytes, uint64_bytes}
use unix_notes.MiniRpc.Reader.Chain.{string_bytes}
use unix_notes.MiniRpc.Metadata.{metadata_extension_magic, metadata_extension_version}
use unix_notes.MiniRpc.Frame.{uint32, encode_frame}
use unix_notes.MiniRpc.Frame.Stream.{frame_bytes}
use unix_notes.MiniRpc.Codec.{
  append_metadata_string, has_request_extension, append_request_extension, encode_request,
}

pub append_metadata_string-ok :
    (output value : List ℕ)
    → length value < 2 ^ 32
    → append_metadata_string output value ≡ ok (output ++ string_bytes value)
unfolding append_metadata_string
append_metadata_string-ok output value h =
    rw (le→ltb_false (2 ^ 32 - 1) (length value) (omega arith), whole)
      (ap ok (append_assoc output (uint32_bytes (length value)) value))
  where
    whole : uint32 (length value) ≡ length value
    whole = omega arith

pub encode_frame-ok :
    (type : MessageType) (request_id : ℕ) (metadata body : List ℕ)
    → length metadata + length body ≤ max_message_size
    → encode_frame type request_id metadata body ≡ ok (frame_bytes type request_id metadata body)
unfolding encode_frame
encode_frame-ok type request_id metadata body h = rw (
  le→ltb_false (2 ^ 32 - 1) (length metadata) (omega arith),
  le→ltb_false (2 ^ 32 - 1) (length body) (omega arith),
  le→ltb_false max_message_size (length metadata) (omega arith),
  le→ltb_false (max_message_size - length metadata) (length body) (omega arith),
)

-- Too large a message is refused, whichever of the checks sees it.
encode_frame-throws :
    (type : MessageType) (request_id : ℕ) (metadata body : List ℕ)
    → max_message_size < length metadata + length body
    → encode_frame type request_id metadata body ≡ throws length_error
unfolding encode_frame
encode_frame-throws type request_id metadata body h = ground arith

-- What stands in front of an extension.
abbrev pub extension_mark : List ℕ
extension_mark = uint32_bytes metadata_extension_magic ++ uint16_bytes metadata_extension_version

abbrev pub request_extension_bytes : RpcRequest → List ℕ
request_extension_bytes r =
    extension_mark
    ++ (uint64_bytes r.timeout_ms
        ++ (uint32_bytes r.attempt ++ (string_bytes r.trace_id ++ string_bytes r.serializer)))

abbrev pub request_tail : RpcRequest → List ℕ
request_tail r = if has_request_extension r then request_extension_bytes r else []

abbrev pub request_metadata : RpcRequest → List ℕ
request_metadata r = string_bytes r.service_name ++ (string_bytes r.method_name ++ request_tail r)

-- The strings of a request have lengths of 32 bits.
pub record ShortStrings (r : RpcRequest) : Type 0 where
  pub service_short : length r.service_name < 2 ^ 32
  pub method_short : length r.method_name < 2 ^ 32
  pub trace_short : length r.trace_id < 2 ^ 32
  pub serializer_short : length r.serializer < 2 ^ 32

append_request_extension-ok :
    (r : RpcRequest) (metadata : List ℕ)
    → ShortStrings r
    → append_request_extension r metadata ≡ ok (metadata ++ request_extension_bytes r)
unfolding append_request_extension
append_request_extension-ok r metadata h =
    rw
      (
        append_metadata_string-ok _ r.trace_id h.trace_short,
        append_metadata_string-ok _ r.serializer h.serializer_short,
      )
      (simp append_assoc)

-- The metadata that `encode_request` builds, whether the request has an extension or not.
extend_request :
    (r : RpcRequest) (plain : List ℕ)
    → ShortStrings r
    → (if has_request_extension r then append_request_extension r plain else ok plain)
      ≡ ok (plain ++ request_tail r)
extend_request r plain h = elim (Bool-cases (has_request_extension r)) [
  | inl more ↦ rw more (append_request_extension-ok r plain h)
  | inr none_more ↦ rw (none_more, append-nil plain)
]

-- `encode_request` up to the frame: the four checks pass and the metadata is the request's.
encode_request-metadata :
    (r : RpcRequest)
    → ShortStrings r
    → encode_request r ≡ encode_frame request r.request_id (request_metadata r) r.payload
unfolding encode_request
encode_request-metadata r h =
    rw
      (
        le→ltb_false (2 ^ 32 - 1) (length r.service_name) (omega (arith, h.service_short)),
        le→ltb_false (2 ^ 32 - 1) (length r.method_name) (omega (arith, h.method_short)),
        le→ltb_false (2 ^ 32 - 1) (length r.trace_id) (omega (arith, h.trace_short)),
        le→ltb_false (2 ^ 32 - 1) (length r.serializer) (omega (arith, h.serializer_short)),
        append_metadata_string-ok [] r.service_name h.service_short,
        append_metadata_string-ok (string_bytes r.service_name) r.method_name h.method_short,
        extend_request r (string_bytes r.service_name ++ string_bytes r.method_name) h,
      )
      (simp append_assoc)

-- The encoder writes one frame if metadata and payload fit in a message together, and throws
-- otherwise; for strings with lengths of 32 bits.
pub encode_request_lem :
    (r : RpcRequest)
    → ShortStrings r
    → ((length (request_metadata r) + length r.payload ≤ max_message_size)
        × (encode_request r ≡ ok (frame_bytes request r.request_id (request_metadata r) r.payload)))
      ⊎ ((max_message_size < length (request_metadata r) + length r.payload)
          × (encode_request r ≡ throws length_error))
encode_request_lem r h =
    elim (dec_lt max_message_size (length (request_metadata r) + length r.payload)) [
      | yes big ↦ inr (
        big,
        encode_request-metadata r h
            ∙ encode_frame-throws request r.request_id (request_metadata r) r.payload big,
      )
      | no small ↦ inl (
        omega arith,
        encode_request-metadata r h
            ∙ encode_frame-ok request r.request_id (request_metadata r) r.payload (omega arith),
      )
    ]
