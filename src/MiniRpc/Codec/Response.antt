-- ===== src/MiniRpc/Codec/Response.antt =====
-- Responses through `encodeResponse` and `tryDecodeResponse` of code/MiniRPC/src/codec.cpp.
use unix_notes.Prelude.{
  ℕ, ◌+◌, ◌-◌, ◌≤◌, ◌<◌, ◌^◌, ◌≡◌, refl, sym, subst, ◌∙◌, List, [], ◌++◌, length, arith, false,
  Bool, if◌then◌else◌, append-nil, append_assoc, le→ltb_false, ◌≢◌, ok, Bool-cases, inl, inr,
  Returns, Returns-bind, ok-injective, to_uint32, to_uint32-lt, to_int32-to_uint32, IsInt32, ℤ,
}
use unix_notes.MiniReactor.Buffer.{Buffer}
use unix_notes.MiniReactor.Buffer.Refine.{Holds}
use unix_notes.MiniRpc.Protocol.{max_message_size, response, raw, RpcResponse}
use unix_notes.MiniRpc.Wire.{uint32_bytes, uint64_bytes}
use unix_notes.MiniRpc.Reader.{Reader, pure, ◌>>=◌}
use unix_notes.MiniRpc.Reader.Chain.{
  At, Yields, Yields-bind, pure-Yields, string_bytes, read_metadata_uint32-Yields,
  read_metadata_uint64-Yields, read_metadata_string-Yields, read_length_prefixed_string-Yields,
}
use unix_notes.MiniRpc.Metadata.{at_end, ask, or_raw, read_response_extension, read_response}
use unix_notes.MiniRpc.Frame.{complete, need_more_data}
use unix_notes.MiniRpc.Frame.Stream.{frame_bytes, parse_frame-complete, parse_frame-partial}
use unix_notes.MiniRpc.Codec.{
  has_response_extension, append_response_extension, encode_response, finish_response,
  try_decode_response,
}
use unix_notes.MiniRpc.Codec.Encode.{extension_mark, append_metadata_string-ok, encode_frame-ok}
use unix_notes.MiniRpc.Codec.Request.{
  at_end-Yields, read_extension_header-Yields, ask-Yields, is_empty→eq, equal→eq, retrieve-frame,
}

abbrev pub response_extension_bytes : RpcResponse → List ℕ
response_extension_bytes r =
    extension_mark
    ++ (uint64_bytes r.server_cost_us ++ (string_bytes r.trace_id ++ string_bytes r.serializer))

abbrev pub response_tail : RpcResponse → List ℕ
response_tail r = if has_response_extension r then response_extension_bytes r else []

abbrev pub response_metadata : RpcResponse → List ℕ
response_metadata r =
    uint32_bytes (to_uint32 r.error_code) ++ (string_bytes r.error_message ++ response_tail r)

-- The response's numbers and strings fit the fields that carry them.
pub record FitsResponse (r : RpcResponse) : Type 0 where
  pub id_fits : r.request_id < 2 ^ 64
  pub code_fits : IsInt32 r.error_code
  pub cost_fits : r.server_cost_us < 2 ^ 64
  pub message_short : length r.error_message < 2 ^ 32
  pub trace_short : length r.trace_id < 2 ^ 32
  pub serializer_short : length r.serializer < 2 ^ 32
  pub size_fits : length (response_metadata r) + length r.payload ≤ max_message_size

append_response_extension-ok :
    (r : RpcResponse) (metadata : List ℕ)
    → FitsResponse r
    → append_response_extension r metadata ≡ ok (metadata ++ response_extension_bytes r)
unfolding append_response_extension
append_response_extension-ok r metadata h =
    rw
      (
        append_metadata_string-ok _ r.trace_id h.trace_short,
        append_metadata_string-ok _ r.serializer h.serializer_short,
      )
      (simp append_assoc)

extend_response :
    (r : RpcResponse) (plain : List ℕ)
    → FitsResponse r
    → (if has_response_extension r then append_response_extension r plain else ok plain)
      ≡ ok (plain ++ response_tail r)
extend_response r plain h = elim (Bool-cases (has_response_extension r)) [
  | inl more ↦ rw more (append_response_extension-ok r plain h)
  | inr none_more ↦ rw (none_more, append-nil plain)
]

-- For a response that fits, the encoder writes the frame of its metadata and payload.
pub encode_response_lem :
    (r : RpcResponse)
    → FitsResponse r
    → encode_response r ≡ ok (frame_bytes response r.request_id (response_metadata r) r.payload)
unfolding encode_response
encode_response_lem r h =
    rw
      (
        le→ltb_false (2 ^ 32 - 1) (length r.error_message) (omega (arith, h.message_short)),
        le→ltb_false (2 ^ 32 - 1) (length r.trace_id) (omega (arith, h.trace_short)),
        le→ltb_false (2 ^ 32 - 1) (length r.serializer) (omega (arith, h.serializer_short)),
        append_metadata_string-ok (uint32_bytes (to_uint32 r.error_code)) r.error_message
            h.message_short,
        extend_response r (uint32_bytes (to_uint32 r.error_code) ++ string_bytes r.error_message) h,
        append_assoc (uint32_bytes (to_uint32 r.error_code)) (string_bytes r.error_message)
            (response_tail r),
      )
      (encode_frame-ok response r.request_id (response_metadata r) r.payload h.size_fits)

read_response_extension-Yields :
    {m : List ℕ} {o : ℕ} (r base : RpcResponse)
    → FitsResponse r
    → At m o (response_extension_bytes r)
    → Yields
        (read_response_extension base)
        m
        o
        (record base {
          trace_id = r.trace_id;
          server_cost_us = r.server_cost_us;
          serializer = or_raw r.serializer;
        })
        []
unfolding read_response_extension
read_response_extension-Yields r base h a =
    Yields-bind _ (read_extension_header-Yields _ a) λ o₁ a₁.
      Yields-bind _ (read_metadata_uint64-Yields r.server_cost_us _ h.cost_fits a₁) λ o₂ a₂.
        Yields-bind _ (read_length_prefixed_string-Yields r.trace_id _ h.trace_short a₂) λ o₃ a₃.
          Yields-bind _
            (read_length_prefixed_string-Yields r.serializer [] h.serializer_short (record {
              prefix = a₃.prefix;
              parts = rw append-nil a₃.parts;
              offset_at = a₃.offset_at;
            }))
            λ o₄ a₄. Yields-bind _ (at_end-Yields a₄) λ o₅ a₅. pure-Yields _ a₅

-- The fields that every response has, and the defaults of the others.
abbrev pub coded_response : ℕ → ℤ → List ℕ → RpcResponse
coded_response request_id error_code error_message = record {
  request_id = request_id;
  error_code = error_code;
  error_message = error_message;
  payload = [];
  trace_id = [];
  server_cost_us = 0;
  serializer = raw;
}

-- What is read once the message is.
abbrev after_message : RpcResponse → Bool → Reader RpcResponse
after_message decoded done = if done then pure decoded else read_response_extension decoded

-- A response with no extension has its three optional fields at their defaults.
plain_response :
    (r : RpcResponse)
    → has_response_extension r ≡ false
    → (r.trace_id ≡ []) × (r.server_cost_us ≡ 0) × (r.serializer ≡ raw)
unfolding has_response_extension
plain_response r h = ground (arith, is_empty→eq r.trace_id, equal→eq r.serializer raw)

coded_response-eq :
    (r : RpcResponse)
    → has_response_extension r ≡ false
    → coded_response r.request_id r.error_code r.error_message
      ≡ record r { serializer = or_raw r.serializer; payload = [] }
coded_response-eq r h = ground (arith, plain_response r h)

response_tail-Yields :
    {m : List ℕ} {o : ℕ} (r : RpcResponse)
    → FitsResponse r
    → At m o (response_tail r)
    → Yields
        (ask at_end >>= after_message (coded_response r.request_id r.error_code r.error_message))
        m
        o
        (record r { serializer = or_raw r.serializer; payload = [] })
        []
response_tail-Yields {m} {o} r h a = elim (Bool-cases (has_response_extension r)) [
  | inl more ↦
      Yields-bind (after_message (coded_response r.request_id r.error_code r.error_message))
        (ask-Yields (response_extension_bytes r) (rw more at a))
        λ o' a'.
          read_response_extension-Yields r
            (coded_response r.request_id r.error_code r.error_message) h a'
  | inr none_more ↦
      Yields-bind (after_message (coded_response r.request_id r.error_code r.error_message))
        (ask-Yields [] (rw none_more at a))
        λ o' a'.
          subst
            (λ v.
              Yields (pure (coded_response r.request_id r.error_code r.error_message)) m o' v [])
            (coded_response-eq r none_more) (pure-Yields _ a')
]

read_response-Yields :
    (r : RpcResponse)
    → FitsResponse r
    → Yields
        (read_response r.request_id)
        (response_metadata r)
        0
        (record r { serializer = or_raw r.serializer; payload = [] })
        []
unfolding read_response
read_response-Yields r h =
    Yields-bind _
      (read_metadata_uint32-Yields (to_uint32 r.error_code) _ (to_uint32-lt r.error_code)
        (record { prefix = []; parts = refl; offset_at = refl }))
      λ o₁ a₁.
        Yields-bind _ (read_metadata_uint32-Yields (length r.error_message) _ h.message_short a₁)
          λ o₂ a₂.
            Yields-bind _ (read_metadata_string-Yields r.error_message _ a₂) λ o₃ a₃.
              rw (to_int32-to_uint32 r.error_code h.code_fits) (response_tail-Yields r h a₃)

-- What the encoder wrote is the frame of the response's metadata and payload.
whole_frame :
    (r : RpcResponse) (frame : List ℕ)
    → FitsResponse r
    → encode_response r ≡ ok frame
    → frame ≡ frame_bytes response r.request_id (response_metadata r) r.payload
whole_frame r frame f e = ok-injective (sym e ∙ encode_response_lem r f)

-- A response that fits, written by the encoder at the front of a buffer with anything behind it, is
-- decoded to itself, an empty serializer having become "raw"; exactly its frame leaves the buffer.
pub response_round_trip :
    (r : RpcResponse) (frame rest : List ℕ) (buffer : Buffer)
    → FitsResponse r
    → encode_response r ≡ ok frame
    → Holds buffer (frame ++ rest)
    → Returns
        (try_decode_response buffer)
        (λ d. (d.0 ≡ complete (record r { serializer = or_raw r.serializer })) × Holds d.1 rest)
unfolding try_decode_response finish_response
response_round_trip r frame rest buffer f e h =
    let h' = rw (whole_frame r frame f e) at h in
    rw
      (
        parse_frame-complete response r.request_id (response_metadata r) r.payload rest h' f.id_fits
            f.size_fits,
        (read_response-Yields r f).result,
      )
      (Returns-bind _ _
        (retrieve-frame response r.request_id (response_metadata r) r.payload rest h')
        λ b' hb. (_, refl, (refl, hb)))

-- A buffer that holds a proper part of an encoded response answers that it needs more data, and is
-- left as it is.
pub response_partial :
    (r : RpcResponse) (frame part rest : List ℕ) (buffer : Buffer)
    → FitsResponse r
    → encode_response r ≡ ok frame
    → part ++ rest ≡ frame
    → rest ≢ []
    → Holds buffer part
    → try_decode_response buffer ≡ ok (need_more_data, buffer)
unfolding try_decode_response
response_partial r frame part rest buffer f e split more h = rw (
    parse_frame-partial response r.request_id (response_metadata r) r.payload part rest h
      (split ∙ whole_frame r frame f e) more f.id_fits f.size_fits)
