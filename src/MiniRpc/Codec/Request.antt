-- ===== src/MiniRpc/Codec/Request.antt =====
-- Requests through `encodeRequest` and `tryDecodeRequest` of code/MiniRPC/src/codec.cpp.
use unix_notes.Prelude.{
  ℕ, ◌+◌, ◌≤◌, ◌<◌, ◌^◌, ◌≡◌, refl, sym, ap, subst, ◌∙◌, List, [], ◌∷◌, ◌++◌, length, drop, arith,
  true, false, Bool, ◌&&◌, ◌==◌, if◌then◌else◌, append-nil, length-append, drop-append, ◌≢◌, ok,
  Bool-cases, inl, inr, Returns, Returns-bind, ok-injective, some,
}
use unix_notes.MiniReactor.Buffer.{Buffer, retrieve}
use unix_notes.MiniReactor.Buffer.Refine.{Holds}
use unix_notes.MiniReactor.Buffer.Text.{retrieve-Holds}
use unix_notes.MiniRpc.Protocol.{
  max_message_size, rpc_header_size, MessageType, request, raw, RpcRequest,
}
use unix_notes.MiniRpc.Reader.{Reader, check, pure, ◌>>=◌}
use unix_notes.MiniRpc.Reader.Chain.{
  At, At-length, Yields, Yields-bind, check-Yields, pure-Yields, read_metadata_uint32-Yields,
  read_metadata_uint16-Yields, read_metadata_uint64-Yields, read_metadata_string-Yields,
  read_length_prefixed_string-Yields,
}
use unix_notes.MiniRpc.Metadata.{
  metadata_extension_magic, metadata_extension_version, at_end, ask, or_raw, read_extension_header,
  read_request_extension, read_request,
}
use unix_notes.MiniRpc.Frame.{complete, need_more_data}
use unix_notes.MiniRpc.Frame.Stream.{frame_bytes, parse_frame-complete, parse_frame-partial}
use unix_notes.MiniRpc.Codec.{
  is_empty, equal, has_request_extension, encode_request, finish_request, try_decode_request,
}
use unix_notes.MiniRpc.Codec.Encode.{
  extension_mark, request_extension_bytes, request_tail, request_metadata, ShortStrings,
  encode_request_lem,
}

-- The request's numbers fit the fields that carry them.
pub record FitsRequest (r : RpcRequest) : Type 0 where
  pub id_fits : r.request_id < 2 ^ 64
  pub timeout_fits : r.timeout_ms < 2 ^ 64
  pub attempt_fits : r.attempt < 2 ^ 32
  pub strings : ShortStrings r
  pub size_fits : length (request_metadata r) + length r.payload ≤ max_message_size

pub at_end-Yields : {m : List ℕ} {o : ℕ} → At m o [] → Yields (check at_end) m o tt []
at_end-Yields {m} {o} a = check-Yields at_end (ground (arith, At-length a)) a

pub read_extension_header-Yields :
    {m : List ℕ} {o : ℕ} (suffix : List ℕ)
    → At m o (extension_mark ++ suffix)
    → Yields read_extension_header m o tt suffix
unfolding read_extension_header
read_extension_header-Yields suffix a =
    Yields-bind _ (read_metadata_uint32-Yields metadata_extension_magic _ (omega arith) a) λ o₁ a₁.
      Yields-bind _ (read_metadata_uint16-Yields metadata_extension_version suffix (omega arith) a₁)
        λ o₂ a₂.
          check-Yields
            (λ _ _.
              metadata_extension_magic == metadata_extension_magic
              && metadata_extension_version == metadata_extension_version)
            refl a₂

read_request_extension-Yields :
    {m : List ℕ} {o : ℕ} (r base : RpcRequest)
    → FitsRequest r
    → At m o (request_extension_bytes r)
    → Yields
        (read_request_extension base)
        m
        o
        (record base {
          timeout_ms = r.timeout_ms;
          trace_id = r.trace_id;
          serializer = or_raw r.serializer;
          attempt = r.attempt;
        })
        []
unfolding read_request_extension
read_request_extension-Yields r base h a = Yields-bind _ (read_extension_header-Yields _ a) λ o₁ a₁.
    Yields-bind _ (read_metadata_uint64-Yields r.timeout_ms _ h.timeout_fits a₁) λ o₂ a₂.
      Yields-bind _ (read_metadata_uint32-Yields r.attempt _ h.attempt_fits a₂) λ o₃ a₃.
        Yields-bind _ (read_length_prefixed_string-Yields r.trace_id _ h.strings.trace_short a₃)
          λ o₄ a₄.
            Yields-bind _
              (read_length_prefixed_string-Yields r.serializer [] h.strings.serializer_short
                (record {
                  prefix = a₄.prefix;
                  parts = rw append-nil a₄.parts;
                  offset_at = a₄.offset_at;
                }))
              λ o₅ a₅. Yields-bind _ (at_end-Yields a₅) λ o₆ a₆. pure-Yields _ a₆

-- The end of the metadata is where there is no extension.
pub ask-Yields :
    {m : List ℕ} {o : ℕ} (suffix : List ℕ)
    → At m o suffix
    → Yields (ask at_end) m o (is_empty suffix) suffix
ask-Yields {m} {o} [] a = record {
  next = o;
  result = ap (λ b. ok (some (b, o))) (ground (arith, At-length a));
  left = a;
}
ask-Yields {m} {o} (x ∷ xs) a = record {
  next = o;
  result = ap (λ b. ok (some (b, o))) (ground (arith, At-length a));
  left = a;
}

pub equal→eq : (xs ys : List ℕ) → equal xs ys ≡ true → xs ≡ ys
equal→eq [] [] h = refl
equal→eq [] (y ∷ ys) h = cc
equal→eq (x ∷ xs) [] h = cc
equal→eq (x ∷ xs) (y ∷ ys) h = ground (arith, equal→eq xs ys)

pub is_empty→eq : (xs : List ℕ) → is_empty xs ≡ true → xs ≡ []
is_empty→eq [] h = refl
is_empty→eq (x ∷ xs) h = cc

-- A request with no extension has its four optional fields at their defaults.
plain_request :
    (r : RpcRequest)
    → has_request_extension r ≡ false
    → (r.timeout_ms ≡ 0) × (r.trace_id ≡ []) × (r.serializer ≡ raw) × (r.attempt ≡ 0)
unfolding has_request_extension
plain_request r h = ground (arith, is_empty→eq r.trace_id, equal→eq r.serializer raw)

-- The fields that every request has, and the defaults of the others.
abbrev pub named_request : ℕ → List ℕ → List ℕ → RpcRequest
named_request request_id service_name method_name = record {
  request_id = request_id;
  service_name = service_name;
  method_name = method_name;
  payload = [];
  timeout_ms = 0;
  trace_id = [];
  serializer = raw;
  attempt = 0;
}

-- What is read once the names are.
abbrev after_names : RpcRequest → Bool → Reader RpcRequest
after_names decoded done = if done then pure decoded else read_request_extension decoded

named_request-eq :
    (r : RpcRequest)
    → has_request_extension r ≡ false
    → named_request r.request_id r.service_name r.method_name
      ≡ record r { serializer = or_raw r.serializer; payload = [] }
named_request-eq r h = ground (arith, plain_request r h)

request_tail-Yields :
    {m : List ℕ} {o : ℕ} (r : RpcRequest)
    → FitsRequest r
    → At m o (request_tail r)
    → Yields
        (ask at_end >>= after_names (named_request r.request_id r.service_name r.method_name))
        m
        o
        (record r { serializer = or_raw r.serializer; payload = [] })
        []
request_tail-Yields {m} {o} r h a = elim (Bool-cases (has_request_extension r)) [
  | inl more ↦
      Yields-bind (after_names (named_request r.request_id r.service_name r.method_name))
        (ask-Yields (request_extension_bytes r) (rw more at a))
        λ o' a'.
          read_request_extension-Yields r (named_request r.request_id r.service_name r.method_name)
            h a'
  | inr none_more ↦
      Yields-bind (after_names (named_request r.request_id r.service_name r.method_name))
        (ask-Yields [] (rw none_more at a))
        λ o' a'.
          subst
            (λ v. Yields (pure (named_request r.request_id r.service_name r.method_name)) m o' v [])
            (named_request-eq r none_more) (pure-Yields _ a')
]

read_request-Yields :
    (r : RpcRequest)
    → FitsRequest r
    → Yields
        (read_request r.request_id)
        (request_metadata r)
        0
        (record r { serializer = or_raw r.serializer; payload = [] })
        []
unfolding read_request
read_request-Yields r h =
    Yields-bind _
      (read_metadata_uint32-Yields (length r.service_name) _ h.strings.service_short
        (record { prefix = []; parts = refl; offset_at = refl }))
      λ o₁ a₁. Yields-bind _ (read_metadata_string-Yields r.service_name _ a₁) λ o₂ a₂.
        Yields-bind _
          (read_metadata_uint32-Yields (length r.method_name) _ h.strings.method_short a₂)
          λ o₃ a₃.
            Yields-bind _ (read_metadata_string-Yields r.method_name _ a₃)
              λ o₄ a₄. request_tail-Yields r h a₄

-- Dropping a frame leaves what stood behind it.
pub drop-frame :
    (type : MessageType) (request_id : ℕ) (metadata body rest : List ℕ)
    → drop
        (rpc_header_size + (length metadata + length body))
        (frame_bytes type request_id metadata body ++ rest)
      ≡ rest
drop-frame type request_id metadata body rest =
    drop-append (frame_bytes type request_id metadata body) rest 0
      (rpc_header_size + (length metadata + length body))
      (omega (arith, length-append metadata body))

-- Taking a whole frame out of a buffer leaves what stood behind it.
pub retrieve-frame :
    (type : MessageType) (request_id : ℕ) (metadata body rest : List ℕ) {buffer : Buffer}
    → Holds buffer (frame_bytes type request_id metadata body ++ rest)
    → Returns
        (retrieve (rpc_header_size + (length metadata + length body)) buffer)
        (λ b'. Holds b' rest)
retrieve-frame type request_id metadata body rest {buffer} h =
    elim (retrieve-Holds (rpc_header_size + (length metadata + length body)) buffer _ h) [
      | inl (_, (b', e, h')) ↦ (b', e, rw (drop-frame type request_id metadata body rest) at h')
      | inr (short, _) ↦
          absurd (omega (arith, length-append metadata body, length-append (metadata ++ body) rest))
    ]

-- What the encoder wrote is the frame of the request's metadata and payload.
whole_frame :
    (r : RpcRequest) (frame : List ℕ)
    → FitsRequest r
    → encode_request r ≡ ok frame
    → frame ≡ frame_bytes request r.request_id (request_metadata r) r.payload
whole_frame r frame f e = elim (encode_request_lem r f.strings) [
  | inl (_, e') ↦ ok-injective (sym e ∙ e')
  | inr (big, _) ↦ absurd (omega (arith, f.size_fits))
]

-- A request that fits, written by the encoder at the front of a buffer with anything behind it, is
-- decoded to itself, an empty serializer having become "raw"; exactly its frame leaves the buffer.
pub request_round_trip :
    (r : RpcRequest) (frame rest : List ℕ) (buffer : Buffer)
    → FitsRequest r
    → encode_request r ≡ ok frame
    → Holds buffer (frame ++ rest)
    → Returns
        (try_decode_request buffer)
        (λ d. (d.0 ≡ complete (record r { serializer = or_raw r.serializer })) × Holds d.1 rest)
unfolding try_decode_request finish_request
request_round_trip r frame rest buffer f e h =
    let whole = whole_frame r frame f e in
    let h' = rw whole at h in
    let fields = read_request-Yields r f in
    rw
      (
        parse_frame-complete request r.request_id (request_metadata r) r.payload rest h' f.id_fits
            f.size_fits,
        fields.result,
      )
      (Returns-bind _ _ (retrieve-frame request r.request_id (request_metadata r) r.payload rest h')
        λ b' hb. (_, refl, (refl, hb)))

-- A buffer that holds a proper part of an encoded request answers that it needs more data, and is
-- left as it is.
pub request_partial :
    (r : RpcRequest) (frame part rest : List ℕ) (buffer : Buffer)
    → FitsRequest r
    → encode_request r ≡ ok frame
    → part ++ rest ≡ frame
    → rest ≢ []
    → Holds buffer part
    → try_decode_request buffer ≡ ok (need_more_data, buffer)
unfolding try_decode_request
request_partial r frame part rest buffer f e split more h = rw (
    parse_frame-partial request r.request_id (request_metadata r) r.payload part rest h
      (split ∙ whole_frame r frame f e) more f.id_fits f.size_fits)
