-- ===== src/MiniReactor/Buffer/Refine.antt =====
-- A buffer of code/MiniReactor/src/net/Buffer.cpp as a string of readable bytes, and how it makes room
-- for more.
use unix_notes.Prelude.{
  ℕ, ◌+◌, ◌-◌, ◌≤◌, ◌≡◌, refl, sym, ap, ◌∙◌, List, ◌++◌, length, take, drop, replicate, arith, true,
  ok, Returns, append-nil, append_assoc, length-append, length-take, length-drop, length-replicate,
  take-append, drop-append, take_all, le→leb, leb, ltb, inl, inr, Bool-cases, le→ltb_false,
  add_size, add_size_exact,
}
use unix_notes.MiniReactor.Buffer.{
  Buffer, cheap_prepend, max_size, readable_bytes, writable_bytes, peek, write_at, resize,
  make_space, ensure_writable_bytes,
}

-- The readable bytes of `b` are `bytes`, between a front and a back that are of no account.
pub record Holds (b : Buffer) (bytes : List ℕ) : Type 0 where
  pub front : List ℕ
  pub back : List ℕ
  pub parts : b.data_ ≡ front ++ (bytes ++ back)
  pub reader_at : b.reader_index ≡ length front
  pub writer_at : b.writer_index ≡ length front + length bytes
  pub room : cheap_prepend ≤ length b.data_
  pub small : length b.data_ ≤ max_size

pub length-parts :
    {b : Buffer} {bytes : List ℕ} (h : Holds b bytes)
    → length b.data_ ≡ length h.front + length bytes + length h.back
length-parts {b} {bytes} h =
    rw h.parts (omega (arith, length-append h.front (bytes ++ h.back), length-append bytes h.back))

-- A write over as many bytes replaces just those.
pub write_at-parts :
    (front old back bytes : List ℕ) (at : ℕ)
    → at ≡ length front
    → length old ≡ length bytes
    → write_at (front ++ (old ++ back)) at bytes ≡ ok (front ++ (bytes ++ back))
unfolding write_at
write_at-parts front old back bytes at e same = rw (fits, cut, rest)
  where
    fits : leb (at + length bytes) (length (front ++ (old ++ back))) ≡ true
    fits = le→leb _ _ (omega (arith, length-append front (old ++ back), length-append old back))

    cut : take at (front ++ (old ++ back)) ≡ front
    cut = take-append front (old ++ back) 0 at (omega arith) ∙ append-nil front

    rest : drop (at + length bytes) (front ++ (old ++ back)) ≡ back
    rest =
        drop-append front (old ++ back) (length old) (at + length bytes) (omega arith)
        ∙ drop-append old back 0 (length old) (omega arith)

-- `peek()` starts with the readable bytes.
pub peek-parts : {b : Buffer} {bytes : List ℕ} (h : Holds b bytes) → peek b ≡ bytes ++ h.back
peek-parts {b} {bytes} h =
    rw (h.parts, h.reader_at)
      (drop-append h.front (bytes ++ h.back) 0 (length h.front) (omega arith))

pub readable_bytes_lem :
    {b : Buffer} {bytes : List ℕ} → Holds b bytes → readable_bytes b ≡ length bytes
readable_bytes_lem h = omega (arith, length-parts h, h.reader_at, h.writer_at, h.small)

-- A string with room for `n` more bytes behind it.
abbrev pub HasRoom : ℕ → List ℕ → Buffer → Type 0
HasRoom n bytes b = (h : Holds b bytes) × (n ≤ length h.back)

resize-grows :
    (size : ℕ) (xs : List ℕ)
    → size ≤ max_size
    → length xs ≤ size
    → resize size xs ≡ ok (xs ++ replicate (size - length xs) 0)
unfolding resize
resize-grows size xs small le = rw (le→ltb_false max_size size small, take_all size xs le)

grow-HasRoom :
    (n : ℕ) (b : Buffer) (bytes : List ℕ)
    → Holds b bytes
    → b.writer_index + n ≤ max_size
    → length b.data_ ≤ b.writer_index + n
    → HasRoom n bytes
        (record b { data_ = b.data_ ++ replicate (b.writer_index + n - length b.data_) 0 })
grow-HasRoom n b bytes h fits le = (
  record {
    front = h.front;
    back = h.back ++ zeros;
    parts =
        ap (λ l. l ++ zeros) h.parts
        ∙ append_assoc h.front (bytes ++ h.back) zeros
        ∙ ap (λ l. h.front ++ l) (append_assoc bytes h.back zeros);
    reader_at = h.reader_at;
    writer_at = h.writer_at;
    room = omega (arith, length-append b.data_ zeros, h.room);
    small = omega (arith, length-append b.data_ zeros, length-replicate {A = ℕ} more 0);
  },
  omega (
    arith,
    length-append h.back zeros,
    length-replicate {A = ℕ} more 0,
    length-parts h,
    h.writer_at,
  ),
)
  where
    more : ℕ
    more = b.writer_index + n - length b.data_

    zeros : List ℕ
    zeros = replicate more 0

write_at-ok :
    (xs : List ℕ) (at : ℕ) (bytes : List ℕ)
    → at + length bytes ≤ length xs
    → write_at xs at bytes ≡ ok (take at xs ++ (bytes ++ drop (at + length bytes) xs))
unfolding write_at
write_at-ok xs at bytes h = rw (le→leb (at + length bytes) (length xs) h)

slide-HasRoom :
    (n : ℕ) (b : Buffer) (bytes : List ℕ)
    → Holds b bytes
    → n + cheap_prepend + length bytes ≤ length b.data_
    → HasRoom n bytes (record {
      data_ = take cheap_prepend b.data_ ++ (bytes ++ drop (cheap_prepend + length bytes) b.data_);
      reader_index = cheap_prepend;
      writer_index = cheap_prepend + length bytes;
    })
slide-HasRoom n b bytes h le = (
  record {
    front = take cheap_prepend b.data_;
    back = rest;
    parts = refl;
    reader_at = sym kept;
    writer_at = omega (arith, kept);
    room = omega (arith, kept, whole);
    small = omega (arith, whole, kept, length-drop (cheap_prepend + length bytes) b.data_, h.small);
  },
  omega (arith, length-drop (cheap_prepend + length bytes) b.data_),
)
  where
    rest : List ℕ
    rest = drop (cheap_prepend + length bytes) b.data_

    kept : length (take cheap_prepend b.data_) ≡ cheap_prepend
    kept = omega (arith, length-take cheap_prepend b.data_)

    whole :
        length (take cheap_prepend b.data_ ++ (bytes ++ rest))
        ≡ length (take cheap_prepend b.data_) + length bytes + length rest
    whole = omega (
      arith,
      length-append (take cheap_prepend b.data_) (bytes ++ rest),
      length-append bytes rest,
    )

-- Room for `n` bytes is made without losing a byte, by growing or by moving the bytes down; the move
-- never overlaps the way that `std::copy` forbids.
pub ensure_writable_bytes-HasRoom :
    (n : ℕ) (b : Buffer) (bytes : List ℕ)
    → Holds b bytes
    → b.writer_index + n ≤ max_size
    → Returns (ensure_writable_bytes n b) (HasRoom n bytes)
unfolding ensure_writable_bytes make_space
ensure_writable_bytes-HasRoom n b bytes h fits = elim (Bool-cases (ltb (writable_bytes b) n)) [
  | inr enough ↦ rw enough (b, refl, (h, ground (arith, length-parts h)))
  | inl short ↦
      rw short
        (elim (Bool-cases
          (ltb (add_size (writable_bytes b) b.reader_index) (add_size n cheap_prepend))) [
            | inl tight ↦
                rw
                  (
                    tight,
                    add_size_exact b.writer_index n (omega (arith, fits)),
                    resize-grows (b.writer_index + n) b.data_ fits (ground (arith, length-parts h)),
                  )
                  (_, refl, grow-HasRoom n b bytes h fits (ground (arith, length-parts h)))
            | inr loose ↦
                rw
                  (
                    loose,
                    le→leb cheap_prepend b.reader_index (ground (arith, length-parts h)),
                    readable_bytes_lem h,
                    peek-parts h,
                    take-append bytes h.back 0 (length bytes) (omega arith),
                    append-nil bytes,
                    write_at-ok b.data_ cheap_prepend bytes (ground (arith, length-parts h)),
                    add_size_exact cheap_prepend (length bytes) (ground (arith, length-parts h)),
                  )
                  (_, refl, slide-HasRoom n b bytes h (ground (arith, length-parts h)))
          ])
]
