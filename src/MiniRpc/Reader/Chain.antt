-- ===== src/MiniRpc/Reader/Chain.antt =====
-- Chains of the readers of code/MiniRPC/src/codec.cpp: on metadata that the matching writers wrote,
-- and on any metadata.
use unix_notes.Prelude.{
  ℕ, ◌+◌, ◌-◌, ◌≤◌, ◌<◌, ◌^◌, ◌≡◌, refl, sym, ◌∙◌, List, ◌++◌, Option, none, some, length, drop,
  ltb, le→ltb_false, length-append, length-drop, ◌||◌, append_assoc, append-nil, drop-append,
  take-append, arith, Outcome, ok, Bool-cases, inl, inr, true, Bool, Returns,
}
use unix_notes.MiniRpc.Wire.{
  uint16_bytes, uint32_bytes, uint64_bytes, read_uint16, read_uint32, read_uint64,
  read_uint16_total, read_uint32_total, read_uint64_total, read_uint16-bytes, read_uint32-bytes,
  read_uint64-bytes,
}
use unix_notes.MiniRpc.Reader.{
  Reader, continue, ◌>>=◌, check, pure, fixed, read_metadata_uint32, read_metadata_uint16,
  read_metadata_uint64, read_metadata_string, read_length_prefixed_string,
}

-- What is left of the metadata from the offset on.
pub record At (metadata : List ℕ) (offset : ℕ) (suffix : List ℕ) : Type 0 where
  pub prefix : List ℕ
  pub parts : metadata ≡ prefix ++ suffix
  pub offset_at : offset ≡ length prefix

-- The reader returns `value` and stops where `suffix` is left.
pub record Yields {A : Type 0} (r : Reader A) (m : List ℕ) (offset : ℕ) (value : A)
    (suffix : List ℕ) : Type 0 where
  pub next : ℕ
  pub result : r m offset ≡ ok (some (value, next))
  pub left : At m next suffix

pub At-drop : {m : List ℕ} {o : ℕ} {suffix : List ℕ} → At m o suffix → drop o m ≡ suffix
At-drop {m} {o} {suffix} a =
    rw a.parts (drop-append a.prefix suffix 0 o (omega (arith, a.offset_at)))

pub At-length :
    {m : List ℕ} {o : ℕ} {suffix : List ℕ} → At m o suffix → length m ≡ o + length suffix
At-length {m} {o} {suffix} a =
    rw a.parts (omega (arith, length-append a.prefix suffix, a.offset_at))

-- Past a chunk that has been read.
At-skip :
    {m : List ℕ} {o : ℕ} (chunk suffix : List ℕ)
    → At m o (chunk ++ suffix)
    → At m (o + length chunk) suffix
At-skip chunk suffix a = record {
  prefix = a.prefix ++ chunk;
  parts = a.parts ∙ sym (append_assoc a.prefix chunk suffix);
  offset_at = omega (arith, a.offset_at, length-append a.prefix chunk);
}

pub Yields-bind :
    {A B : Type 0} {r : Reader A} (f : A → Reader B) {m : List ℕ} {o : ℕ} {a : A} {b : B}
    {suffix suffix' : List ℕ}
    → Yields r m o a suffix
    → ((o' : ℕ) → At m o' suffix → Yields (f a) m o' b suffix')
    → Yields (r >>= f) m o b suffix'
Yields-bind f y k =
    let later = k y.next y.left in
    record { next = later.next; result = rw y.result later.result; left = later.left }

-- A test that holds reads nothing.
pub check-Yields :
    {m : List ℕ} {o : ℕ} {suffix : List ℕ} (condition : List ℕ → ℕ → Bool)
    → condition m o ≡ true
    → At m o suffix
    → Yields (check condition) m o tt suffix
check-Yields condition h a = record { next = _; result = rw h refl; left = a }

pub pure-Yields :
    {A : Type 0} {m : List ℕ} {o : ℕ} {suffix : List ℕ} (a : A)
    → At m o suffix
    → Yields (pure a) m o a suffix
pure-Yields a left = record { next = _; result = refl; left = left }

fixed-Yields :
    {m : List ℕ} {o : ℕ} (read : List ℕ → Outcome ℕ) (chunk : List ℕ) (v : ℕ) (suffix : List ℕ)
    → read (chunk ++ suffix) ≡ ok v
    → At m o (chunk ++ suffix)
    → Yields (fixed (length chunk) read) m o v suffix
fixed-Yields {m} {o} read chunk v suffix h a = record {
  next = o + length chunk;
  result = rw (
    le→ltb_false (length m) o (omega (arith, At-length a)),
    le→ltb_false (length m - o) (length chunk)
        (omega (arith, At-length a, length-append chunk suffix)),
    At-drop a,
    h,
  );
  left = At-skip chunk suffix a;
}

module _ {m : List ℕ} {o : ℕ} (v : ℕ) (suffix : List ℕ) where
  pub read_metadata_uint32-Yields :
      v < 2 ^ 32 → At m o (uint32_bytes v ++ suffix) → Yields read_metadata_uint32 m o v suffix
  unfolding read_metadata_uint32
  read_metadata_uint32-Yields h a =
      fixed-Yields read_uint32 (uint32_bytes v) v suffix (read_uint32-bytes v suffix h) a

  pub read_metadata_uint16-Yields :
      v < 2 ^ 16 → At m o (uint16_bytes v ++ suffix) → Yields read_metadata_uint16 m o v suffix
  unfolding read_metadata_uint16
  read_metadata_uint16-Yields h a =
      fixed-Yields read_uint16 (uint16_bytes v) v suffix (read_uint16-bytes v suffix h) a

  pub read_metadata_uint64-Yields :
      v < 2 ^ 64 → At m o (uint64_bytes v ++ suffix) → Yields read_metadata_uint64 m o v suffix
  unfolding read_metadata_uint64
  read_metadata_uint64-Yields h a =
      fixed-Yields read_uint64 (uint64_bytes v) v suffix (read_uint64-bytes v suffix h) a

-- A string as `append_metadata_string` writes it.
abbrev pub string_bytes : List ℕ → List ℕ
string_bytes text = uint32_bytes (length text) ++ text

pub read_metadata_string-Yields :
    {m : List ℕ} {o : ℕ} (text suffix : List ℕ)
    → At m o (text ++ suffix)
    → Yields (read_metadata_string (length text)) m o text suffix
unfolding read_metadata_string
read_metadata_string-Yields {m} {o} text suffix a = record {
  next = o + length text;
  result = rw (
    le→ltb_false (length m) o (omega (arith, At-length a)),
    le→ltb_false (length m - o) (length text)
        (omega (arith, At-length a, length-append text suffix)),
    At-drop a,
    take-append text suffix 0 (length text) (omega arith),
    append-nil,
  );
  left = At-skip text suffix a;
}

pub read_length_prefixed_string-Yields :
    {m : List ℕ} {o : ℕ} (text suffix : List ℕ)
    → length text < 2 ^ 32
    → At m o (string_bytes text ++ suffix)
    → Yields read_length_prefixed_string m o text suffix
unfolding read_length_prefixed_string
read_length_prefixed_string-Yields text suffix h a =
    Yields-bind _ (read_metadata_uint32-Yields (length text) (text ++ suffix) h a)
      λ o' a'. read_metadata_string-Yields text suffix a'

-- A reader that, on any metadata and at any offset, returns: true or false, and no access outside.
abbrev pub Total : {A : Type 0} → Reader A → Type 0
Total r = (m : List ℕ) (o : ℕ) → Returns (r m o) (λ _. Unit {0})

continue-Total :
    {A B : Type 0} (f : A → Reader B)
    → ((a : A) → Total (f a))
    → (m : List ℕ) (x : Option (A × ℕ)) → Returns (continue f m (ok x)) (λ _. Unit {0})
continue-Total f k m none = (none, refl, tt)
continue-Total f k m (some (a, o)) = k a m o

pub Total-bind :
    {A B : Type 0} {r : Reader A} (f : A → Reader B)
    → Total r
    → ((a : A) → Total (f a))
    → Total (r >>= f)
Total-bind f t k m o = let (x, e, _) = t m o in rw e (continue-Total f k m x)

pub check-Total : (condition : List ℕ → ℕ → Bool) → Total (check condition)
check-Total condition m o = elim (Bool-cases (condition m o)) [
  | inl e ↦ rw e (_, refl, tt)
  | inr e ↦ rw e (_, refl, tt)
]

fixed-Total :
    (width : ℕ) (read : List ℕ → Outcome ℕ)
    → ((data_ : List ℕ) → width ≤ length data_ → Returns (read data_) (λ _. Unit {0}))
    → Total (fixed width read)
fixed-Total width read safe m o = elim (Bool-cases (ltb (length m) o || ltb (length m - o) width)) [
  | inl short ↦ rw short (none, refl, tt)
  | inr enough ↦
      let (v, e, _) = safe (drop o m) (ground (arith, length-drop o m)) in
      rw (enough, e) (some (v, o + width), refl, tt)
]

pub read_metadata_string-Total : (size : ℕ) → Total (read_metadata_string size)
unfolding read_metadata_string
read_metadata_string-Total size m o =
    elim (Bool-cases (ltb (length m) o || ltb (length m - o) size)) [
      | inl short ↦ rw short (none, refl, tt)
      | inr enough ↦ rw enough (_, refl, tt)
    ]

pub read_metadata_uint16-Total : Total read_metadata_uint16
unfolding read_metadata_uint16
read_metadata_uint16-Total = fixed-Total 2 read_uint16 read_uint16_total

pub read_metadata_uint32-Total : Total read_metadata_uint32
unfolding read_metadata_uint32
read_metadata_uint32-Total = fixed-Total 4 read_uint32 read_uint32_total

pub read_metadata_uint64-Total : Total read_metadata_uint64
unfolding read_metadata_uint64
read_metadata_uint64-Total = fixed-Total 8 read_uint64 read_uint64_total

pub read_length_prefixed_string-Total : Total read_length_prefixed_string
unfolding read_length_prefixed_string
read_length_prefixed_string-Total =
    Total-bind _ read_metadata_uint32-Total λ size. read_metadata_string-Total size
