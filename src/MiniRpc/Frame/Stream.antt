-- ===== src/MiniRpc/Frame/Stream.antt =====
-- A frame in a stream: what `parseFrame` answers on a whole frame with anything behind it, on a part
-- of a frame, and on any bytes whatever.
use unix_notes.Prelude.{
  ℕ, ◌+◌, ◌-◌, ◌≤◌, ◌<◌, ◌^◌, ◌≡◌, refl, sym, ap, ◌∙◌, List, [], ◌++◌, length, take, drop, arith,
  ltb, ==_refl, le→ltb_false, lt→ltb, append-nil, append_assoc, length-append, length-drop,
  take-append, drop-append, take-append_le, take-append-drop, length_of_ne_nil, Bool-cases, inl,
  inr, ◌≢◌, ok, Returns, Returns-bind,
}
use unix_notes.MiniReactor.Buffer.{Buffer, peek, readable_bytes}
use unix_notes.MiniReactor.Buffer.Refine.{Holds, peek-parts, readable_bytes_lem}
use unix_notes.MiniRpc.Protocol.{
  rpc_magic, protocol_version, rpc_header_size, max_message_size, MessageType, request, response,
  message_code, RpcHeader,
}
use unix_notes.MiniRpc.Wire.{read_uint16_total, read_uint32_total, read_uint64_total}
use unix_notes.MiniRpc.Frame.{
  Decoded, complete, need_more_data, protocol_error, ParsedFrame, append_header, read_header,
  check_header, parse_frame,
}

message_code-lt : (type : MessageType) → message_code type < 2 ^ 16
message_code-lt request = omega arith
message_code-lt response = omega arith

-- The frame of a message.
abbrev pub frame_bytes : MessageType → ℕ → List ℕ → List ℕ → List ℕ
frame_bytes type request_id metadata body =
    (append_header type request_id (length metadata) (length body) ++ metadata) ++ body

-- Its header, as numbers.
abbrev pub frame_header : MessageType → ℕ → ℕ → ℕ → RpcHeader
frame_header type request_id metadata_size body_size = record {
  magic = rpc_magic;
  version = protocol_version;
  message_type = message_code type;
  request_id = request_id;
  metadata_length = metadata_size;
  body_length = body_size;
}

read_header-append :
    (type : MessageType) (request_id m n : ℕ) (rest : List ℕ)
    → request_id < 2 ^ 64
    → m < 2 ^ 32
    → n < 2 ^ 32
    → read_header (append_header type request_id m n ++ rest)
      ≡ ok (frame_header type request_id m n)
unfolding read_header
read_header-append type request_id m n rest hid hm hn = ground (arith, message_code-lt type)

-- The bytes from the reader's index on, when a frame stands in front.
peek-frame :
    (type : MessageType) (request_id : ℕ) (metadata body rest : List ℕ) {buffer : Buffer}
    (h : Holds buffer (frame_bytes type request_id metadata body ++ rest))
    → peek buffer
      ≡ append_header type request_id (length metadata) (length body)
        ++ (metadata ++ (body ++ (rest ++ h.back)))
peek-frame type request_id metadata body rest h =
    peek-parts h
    ∙ append_assoc (frame_bytes type request_id metadata body) rest h.back
    ∙ append_assoc (header ++ metadata) body (rest ++ h.back)
    ∙ append_assoc header metadata (body ++ (rest ++ h.back))
  where
    header : List ℕ
    header = append_header type request_id (length metadata) (length body)

-- The two views into a frame.
view-metadata :
    (type : MessageType) (request_id : ℕ) (metadata body tail : List ℕ)
    → take (length metadata) (
        drop rpc_header_size (
          append_header type request_id (length metadata) (length body)
          ++ (metadata ++ (body ++ tail))))
      ≡ metadata
view-metadata type request_id metadata body tail =
    take-append metadata (body ++ tail) 0 (length metadata) (omega arith) ∙ append-nil metadata

view-body :
    (type : MessageType) (request_id : ℕ) (metadata body tail : List ℕ)
    → take (length body) (
        drop (rpc_header_size + length metadata) (
          append_header type request_id (length metadata) (length body)
          ++ (metadata ++ (body ++ tail))))
      ≡ body
view-body type request_id metadata body tail =
    ap (take (length body)) (
      drop-append (append_header type request_id (length metadata) (length body))
        (metadata ++ (body ++ tail)) (length metadata) (rpc_header_size + length metadata) refl
      ∙ drop-append metadata (body ++ tail) 0 (length metadata) (omega arith))
    ∙ take-append body tail 0 (length body) (omega arith)
    ∙ append-nil body

check_header-complete :
    (type : MessageType) (request_id : ℕ) (metadata body rest : List ℕ) {buffer : Buffer}
    → Holds buffer (frame_bytes type request_id metadata body ++ rest)
    → length metadata + length body ≤ max_message_size
    → check_header buffer type (frame_header type request_id (length metadata) (length body))
      ≡ complete (record {
        request_id = request_id;
        metadata = metadata;
        body = body;
        total_length = rpc_header_size + (length metadata + length body);
      })
unfolding check_header
check_header-complete type request_id metadata body rest {buffer} h fits = rw (
  ==_refl (message_code type),
  le→ltb_false max_message_size (length metadata) (omega arith),
  le→ltb_false (max_message_size - length metadata) (length body) (omega arith),
  readable_bytes_lem h,
  le→ltb_false (length (frame_bytes type request_id metadata body ++ rest))
      (rpc_header_size + (length metadata + length body))
      (omega (arith, length-append metadata body, length-append (metadata ++ body) rest)),
  peek-frame type request_id metadata body rest h,
  view-metadata type request_id metadata body (rest ++ h.back),
  view-body type request_id metadata body (rest ++ h.back),
)

-- A buffer that starts with a whole frame gives that frame, whatever stands behind it.
pub parse_frame-complete :
    (type : MessageType) (request_id : ℕ) (metadata body rest : List ℕ) {buffer : Buffer}
    → Holds buffer (frame_bytes type request_id metadata body ++ rest)
    → request_id < 2 ^ 64
    → length metadata + length body ≤ max_message_size
    → parse_frame buffer type
      ≡ ok (
          complete (record {
            request_id = request_id;
            metadata = metadata;
            body = body;
            total_length = rpc_header_size + (length metadata + length body);
          }))
unfolding parse_frame
parse_frame-complete type request_id metadata body rest {buffer} h hid fits = rw (
  readable_bytes_lem h,
  le→ltb_false (length (frame_bytes type request_id metadata body ++ rest)) rpc_header_size
      (omega (arith, length-append metadata body, length-append (metadata ++ body) rest)),
  peek-frame type request_id metadata body rest h,
  read_header-append type request_id (length metadata) (length body)
      (metadata ++ (body ++ (rest ++ h.back))) hid (omega arith) (omega arith),
  check_header-complete type request_id metadata body rest h fits,
)

-- A part that is long enough starts with the whole header.
part-header :
    (type : MessageType) (request_id : ℕ) (metadata body part rest : List ℕ)
    → part ++ rest ≡ frame_bytes type request_id metadata body
    → rpc_header_size ≤ length part
    → part
      ≡ append_header type request_id (length metadata) (length body) ++ drop rpc_header_size part
part-header type request_id metadata body part rest e long =
    sym (take-append-drop rpc_header_size part)
    ∙ ap (λ l. l ++ drop rpc_header_size part)
        (sym (take-append_le rpc_header_size part rest long) ∙ ap (take rpc_header_size) e)

check_header-partial :
    (type : MessageType) (request_id : ℕ) (metadata body part : List ℕ) {buffer : Buffer}
    → Holds buffer part
    → length part < rpc_header_size + (length metadata + length body)
    → length metadata + length body ≤ max_message_size
    → check_header buffer type (frame_header type request_id (length metadata) (length body))
      ≡ need_more_data
unfolding check_header
check_header-partial type request_id metadata body part h short fits = rw (
  ==_refl (message_code type),
  le→ltb_false max_message_size (length metadata) (omega arith),
  le→ltb_false (max_message_size - length metadata) (length body) (omega arith),
  readable_bytes_lem h,
  lt→ltb (length part) (rpc_header_size + (length metadata + length body)) short,
)

-- A part of a frame, however long, asks for more data.
pub parse_frame-partial :
    (type : MessageType) (request_id : ℕ) (metadata body part rest : List ℕ) {buffer : Buffer}
    → Holds buffer part
    → part ++ rest ≡ frame_bytes type request_id metadata body
    → rest ≢ []
    → request_id < 2 ^ 64
    → length metadata + length body ≤ max_message_size
    → parse_frame buffer type ≡ ok need_more_data
unfolding parse_frame
parse_frame-partial type request_id metadata body part rest {buffer} h e more hid fits =
    elim (Bool-cases (ltb (length part) rpc_header_size)) [
      | inl short ↦ rw (readable_bytes_lem h, short)
      | inr long ↦ rw (
        readable_bytes_lem h,
        long,
        peek-parts h
            ∙ ap (λ l. l ++ h.back)
                (part-header type request_id metadata body part rest e (ground arith)),
        read_header-append type request_id (length metadata) (length body)
            (drop rpc_header_size part ++ h.back) hid (omega arith) (omega arith),
        check_header-partial type request_id metadata body part h
            (omega (
              arith,
              ap length e,
              length-append part rest,
              length-append metadata body,
              length_of_ne_nil rest more,
            ))
            fits,
      )
    ]

read_header_total :
    (data_ : List ℕ) → rpc_header_size ≤ length data_ → Returns (read_header data_) (λ _. Unit {0})
unfolding read_header
read_header_total data_ h = Returns-bind _ _ (read_uint32_total data_ (omega arith)) λ magic _.
    Returns-bind _ _ (read_uint16_total (drop 4 data_) (omega (arith, length-drop 4 data_))) λ v _.
      Returns-bind _ _ (read_uint16_total (drop 6 data_) (omega (arith, length-drop 6 data_)))
        λ t _.
          Returns-bind _ _ (read_uint64_total (drop 8 data_) (omega (arith, length-drop 8 data_)))
            λ i _.
              Returns-bind _ _
                (read_uint32_total (drop 16 data_) (omega (arith, length-drop 16 data_)))
                λ m _.
                  Returns-bind _ _
                    (read_uint32_total (drop 20 data_) (omega (arith, length-drop 20 data_)))
                    λ n _. (_, refl, tt)

-- A frame that is given has a header and lies within `size` bytes.
abbrev pub Within : ℕ → Decoded ParsedFrame → Type 0
Within size (complete frame) = (rpc_header_size ≤ frame.total_length) × (frame.total_length ≤ size)
Within size need_more_data = Unit
Within size protocol_error = Unit

check_header-Within :
    (type : MessageType) (header : RpcHeader) (buffer : Buffer)
    → Within (readable_bytes buffer) (check_header buffer type header)
unfolding check_header
check_header-Within type header buffer = ground arith

-- On any bytes the parser returns: it reads nothing outside them, and a frame that it gives lies
-- within them.
pub parse_frame_safe :
    (type : MessageType) (bytes : List ℕ) {buffer : Buffer}
    → Holds buffer bytes
    → Returns (parse_frame buffer type) (Within (length bytes))
unfolding parse_frame
parse_frame_safe type bytes {buffer} h = elim (Bool-cases (ltb (length bytes) rpc_header_size)) [
  | inl short ↦ rw (readable_bytes_lem h, short) (_, refl, tt)
  | inr long ↦
      rw (readable_bytes_lem h, long)
        (Returns-bind _ _
          (read_header_total (peek buffer)
            (ground (arith, ap length (peek-parts h), length-append bytes h.back)))
          λ header _.
            (_, refl, rw (← readable_bytes_lem h) (check_header-Within type header buffer)))
]
