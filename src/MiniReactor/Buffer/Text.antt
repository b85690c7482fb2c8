-- ===== src/MiniReactor/Buffer/Text.antt =====
-- The operations of `Buffer` as operations on the string of readable bytes.
use unix_notes.Prelude.{
  ℕ, ◌+◌, ◌-◌, ◌≤◌, ◌<◌, ◌≡◌, refl, sym, ap, ◌∙◌, List, [], ◌++◌, length, take, drop, replicate,
  arith, ok, throws, out_of_range, Returns, Returns-bind, append-nil, append_assoc, length-append,
  length-take, length-drop, take-append, take-append-drop, drop_all, ltb, ◌==◌, inl, inr,
  Bool-cases, ltb→lt, ◌⊎◌, add_size, add_size_exact, sub_size_exact,
}
use unix_notes.MiniReactor.Buffer.{
  Buffer, cheap_prepend, initial_size, max_size, write_at, append, prepend, retrieve, retrieve_all,
  retrieve_all_as_string, new,
}
use unix_notes.MiniReactor.Buffer.Refine.{
  Holds, length-parts, write_at-parts, peek-parts, readable_bytes_lem,
  ensure_writable_bytes-HasRoom,
}

-- A new buffer holds no bytes.
pub new-Holds : Holds new []
unfolding new
new-Holds = record {
  front = replicate cheap_prepend 0;
  back = replicate initial_size 0;
  parts = refl;
  reader_at = refl;
  writer_at = refl;
  room = omega arith;
  small = omega arith;
}

append_write :
    (more : List ℕ) (b : Buffer) (bytes : List ℕ) (h : Holds b bytes)
    → length more ≤ length h.back
    → write_at b.data_ b.writer_index more
      ≡ ok ((h.front ++ bytes) ++ (more ++ drop (length more) h.back))
append_write more b bytes h le =
    ap (λ d. write_at d b.writer_index more) regroup
    ∙ write_at-parts (h.front ++ bytes) (take (length more) h.back) (drop (length more) h.back) more
        b.writer_index (omega (arith, h.writer_at, length-append h.front bytes))
        (omega (arith, length-take (length more) h.back))
  where
    regroup :
        b.data_ ≡ (h.front ++ bytes) ++ (take (length more) h.back ++ drop (length more) h.back)
    regroup =
        h.parts
        ∙ sym (append_assoc h.front bytes h.back)
        ∙ ap (λ l. (h.front ++ bytes) ++ l) (sym (take-append-drop (length more) h.back))

appended-Holds :
    (more : List ℕ) (b : Buffer) (bytes : List ℕ) (h : Holds b bytes)
    → length more ≤ length h.back
    → Holds
        (record b {
          data_ = (h.front ++ bytes) ++ (more ++ drop (length more) h.back);
          writer_index = add_size b.writer_index (length more);
        })
        (bytes ++ more)
appended-Holds more b bytes h le = record {
  front = h.front;
  back = rest;
  parts =
      append_assoc h.front bytes (more ++ rest)
      ∙ ap (λ l. h.front ++ l) (sym (append_assoc bytes more rest));
  reader_at = h.reader_at;
  writer_at =
      add_size_exact b.writer_index (length more)
        (omega (arith, length-parts h, h.writer_at, h.small))
      ∙ omega (arith, h.writer_at, length-append bytes more);
  room = omega (arith, same, h.room);
  small = omega (arith, same, h.small);
}
  where
    rest : List ℕ
    rest = drop (length more) h.back

    same : length ((h.front ++ bytes) ++ (more ++ rest)) ≡ length b.data_
    same = omega (
      arith,
      length-append (h.front ++ bytes) (more ++ rest),
      length-append h.front bytes,
      length-append more rest,
      length-drop (length more) h.back,
      length-parts h,
    )

-- `append` puts the bytes behind those that are there, whether it has to grow the vector, to move
-- the bytes down or neither, if the writer's index plus their number is no more than the largest
-- size of a vector. It never throws and never writes outside the vector.
pub append-Holds :
    (more : List ℕ) (b : Buffer) (bytes : List ℕ)
    → Holds b bytes
    → b.writer_index + length more ≤ max_size
    → Returns (append more b) (λ b'. Holds b' (bytes ++ more))
unfolding append
append-Holds more b bytes h fits =
    Returns-bind _ _ (ensure_writable_bytes-HasRoom (length more) b bytes h fits) λ b' r.
      rw (append_write more b' bytes r.0 r.1) (_, refl, appended-Holds more b' bytes r.0 r.1)

prepend_write :
    (more : List ℕ) (b : Buffer) (bytes : List ℕ) (h : Holds b bytes)
    → length more ≤ length h.front
    → write_at b.data_ (length h.front - length more) more
      ≡ ok (take (length h.front - length more) h.front ++ (more ++ (bytes ++ h.back)))
prepend_write more b bytes h le =
    ap (λ d. write_at d kept more) regroup
    ∙ write_at-parts (take kept h.front) (drop kept h.front) (bytes ++ h.back) more kept
        (omega (arith, length-take kept h.front)) (omega (arith, length-drop kept h.front))
  where
    kept : ℕ
    kept = length h.front - length more

    regroup : b.data_ ≡ take kept h.front ++ (drop kept h.front ++ (bytes ++ h.back))
    regroup =
        h.parts
        ∙ ap (λ l. l ++ (bytes ++ h.back)) (sym (take-append-drop kept h.front))
        ∙ append_assoc (take kept h.front) (drop kept h.front) (bytes ++ h.back)

prepended-Holds :
    (more : List ℕ) (b : Buffer) (bytes : List ℕ) (h : Holds b bytes)
    → length more ≤ length h.front
    → Holds
        (record b {
          data_ = take (length h.front - length more) h.front ++ (more ++ (bytes ++ h.back));
          reader_index = length h.front - length more;
        })
        (more ++ bytes)
prepended-Holds more b bytes h le = record {
  front = take kept h.front;
  back = h.back;
  parts = ap (λ l. take kept h.front ++ l) (sym (append_assoc more bytes h.back));
  reader_at = omega (arith, length-take kept h.front);
  writer_at = omega (arith, h.writer_at, length-append more bytes, length-take kept h.front);
  room = omega (arith, same, h.room);
  small = omega (arith, same, h.small);
}
  where
    kept : ℕ
    kept = length h.front - length more

    same : length (take kept h.front ++ (more ++ (bytes ++ h.back))) ≡ length b.data_
    same = omega (
      arith,
      length-append (take kept h.front) (more ++ (bytes ++ h.back)),
      length-take kept h.front,
      length-append more (bytes ++ h.back),
      length-append bytes h.back,
      length-parts h,
    )

-- `prepend` puts the bytes in front if there is room for them before the reader's index, and throws
-- otherwise.
pub prepend-Holds :
    (more : List ℕ) (b : Buffer) (bytes : List ℕ)
    → Holds b bytes
    → ((length more ≤ b.reader_index) × Returns (prepend more b) (λ b'. Holds b' (more ++ bytes)))
      ⊎ ((b.reader_index < length more) × (prepend more b ≡ throws out_of_range))
unfolding prepend
prepend-Holds more b bytes h = elim (Bool-cases (ltb b.reader_index (length more))) [
  | inl short ↦ inr (ltb→lt _ _ short, rw short)
  | inr fits ↦ inl (
    ground arith,
    rw
        (
          fits,
          sub_size_exact b.reader_index (length more)
              (omega (arith, length-parts h, h.small, h.reader_at)) (ground arith),
          h.reader_at,
          prepend_write more b bytes h (ground (arith, h.reader_at)),
        )
        (_, refl, prepended-Holds more b bytes h (ground (arith, h.reader_at))),
  )
]

reset-Holds :
    (b : Buffer)
    → cheap_prepend ≤ length b.data_
    → length b.data_ ≤ max_size
    → Holds (retrieve_all b) []
unfolding retrieve_all
reset-Holds b room small = record {
  front = take cheap_prepend b.data_;
  back = drop cheap_prepend b.data_;
  parts = sym (take-append-drop cheap_prepend b.data_);
  reader_at = omega (arith, length-take cheap_prepend b.data_);
  writer_at = omega (arith, length-take cheap_prepend b.data_);
  room = room;
  small = small;
}

advanced-Holds :
    (n : ℕ) (b : Buffer) (bytes : List ℕ)
    → Holds b bytes
    → n ≤ length bytes
    → Holds (record b { reader_index = add_size b.reader_index n }) (drop n bytes)
advanced-Holds n b bytes h le = record {
  front = h.front ++ take n bytes;
  back = h.back;
  parts =
      h.parts
      ∙ ap (λ l. h.front ++ (l ++ h.back)) (sym (take-append-drop n bytes))
      ∙ ap (λ l. h.front ++ l) (append_assoc (take n bytes) (drop n bytes) h.back)
      ∙ sym (append_assoc h.front (take n bytes) (drop n bytes ++ h.back));
  reader_at = omega (
    arith,
    length-append h.front (take n bytes),
    length-take n bytes,
    length-parts h,
    h.small,
    h.reader_at,
  );
  writer_at = omega (
    arith,
    length-append h.front (take n bytes),
    length-take n bytes,
    length-drop n bytes,
    h.writer_at,
  );
  room = h.room;
  small = h.small;
}

-- `retrieve` drops the oldest bytes if there are as many, and throws otherwise. When it takes the
-- last byte it moves both indices back to the start.
pub retrieve-Holds :
    (n : ℕ) (b : Buffer) (bytes : List ℕ)
    → Holds b bytes
    → ((n ≤ length bytes) × Returns (retrieve n b) (λ b'. Holds b' (drop n bytes)))
      ⊎ ((length bytes < n) × (retrieve n b ≡ throws out_of_range))
unfolding retrieve
retrieve-Holds n b bytes h = elim (Bool-cases (ltb (length bytes) n)) [
  | inl short ↦ inr (ltb→lt _ _ short, rw (readable_bytes_lem h, short))
  | inr enough ↦ inl (
    ground arith,
    rw (readable_bytes_lem h, enough)
        (elim (Bool-cases (add_size b.reader_index n == b.writer_index)) [
          | inl last ↦
              rw (last, drop_all n bytes (ground (arith, length-parts h)))
                (
                  _,
                  refl,
                  reset-Holds (record b { reader_index = add_size b.reader_index n }) h.room
                      h.small,
                )
          | inr more ↦ rw more (_, refl, advanced-Holds n b bytes h (ground arith))
        ]),
  )
]

-- `retrieveAllAsString` returns the readable bytes and leaves none.
pub retrieve_all_as_string-Holds :
    (b : Buffer) (bytes : List ℕ)
    → Holds b bytes
    → let (out, b') = retrieve_all_as_string b in (out ≡ bytes) × Holds b' []
unfolding retrieve_all_as_string
retrieve_all_as_string-Holds b bytes h = (
  rw (readable_bytes_lem h, peek-parts h, take-append bytes h.back 0 (length bytes) (omega arith))
      (append-nil bytes),
  reset-Holds b h.room h.small,
)
