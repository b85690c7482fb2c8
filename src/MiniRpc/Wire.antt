-- ===== src/MiniRpc/Wire.antt =====
-- The integers of code/MiniRPC/src/codec.cpp on the wire, most significant byte first. A pointer is
-- the list of the bytes from it on; reading past the end is `undefined`. The `|` of shifted bytes,
-- which do not overlap, is written as a sum.
use unix_notes.Prelude.{
  ℕ, ◌+◌, ◌*◌, ◌/◌, ◌%◌, ◌^◌, ◌<◌, ◌≡◌, refl, ap, List, [], ◌∷◌, ◌++◌, drop, arith, Outcome, ok,
  undefined, ◌>>=◌, Returns, Returns-bind, length, length-drop, ◌≤◌,
}

-- `static_cast<char>(value & 0xff)`
abbrev pub byte : ℕ → ℕ
byte value = value % 256

abbrev pub uint16_bytes : ℕ → List ℕ
uint16_bytes value = byte (value / 2 ^ 8) ∷ byte value ∷ []

abbrev pub uint32_bytes : ℕ → List ℕ
uint32_bytes value =
    byte (value / 2 ^ 24) ∷ byte (value / 2 ^ 16) ∷ byte (value / 2 ^ 8) ∷ byte value ∷ []

abbrev pub append_uint16 : List ℕ → ℕ → List ℕ
append_uint16 output value = output ++ uint16_bytes value

abbrev pub append_uint32 : List ℕ → ℕ → List ℕ
append_uint32 output value = output ++ uint32_bytes value

abbrev pub append_uint64 : List ℕ → ℕ → List ℕ
append_uint64 output value =
    append_uint32 (append_uint32 output (value / 2 ^ 32 % 2 ^ 32)) (value % 2 ^ 32)

unfoldable pub read_uint16 : List ℕ → Outcome ℕ
read_uint16 (a ∷ b ∷ _) = ok (a * 2 ^ 8 + b)
read_uint16 _ = undefined

unfoldable pub read_uint32 : List ℕ → Outcome ℕ
read_uint32 (a ∷ b ∷ c ∷ d ∷ _) = ok (a * 2 ^ 24 + b * 2 ^ 16 + c * 2 ^ 8 + d)
read_uint32 _ = undefined

unfoldable pub read_uint64 : List ℕ → Outcome ℕ
unfolding read_uint32
read_uint64 data_ = do
  high ← read_uint32 data_
  low ← read_uint32 (drop 4 data_)
  ok (high * 2 ^ 32 + low)

abbrev pub uint64_bytes : ℕ → List ℕ
uint64_bytes value = uint32_bytes (value / 2 ^ 32 % 2 ^ 32) ++ uint32_bytes (value % 2 ^ 32)

pub read_uint16-bytes :
    (v : ℕ) (rest : List ℕ) → v < 2 ^ 16 → read_uint16 (uint16_bytes v ++ rest) ≡ ok v
unfolding read_uint16
read_uint16-bytes v rest h = ap ok (omega arith)

pub read_uint32-bytes :
    (v : ℕ) (rest : List ℕ) → v < 2 ^ 32 → read_uint32 (uint32_bytes v ++ rest) ≡ ok v
unfolding read_uint32
read_uint32-bytes v rest h = ap ok (omega arith)

pub read_uint64-bytes :
    (v : ℕ) (rest : List ℕ) → v < 2 ^ 64 → read_uint64 (uint64_bytes v ++ rest) ≡ ok v
unfolding read_uint64
read_uint64-bytes v rest h = ap ok (omega arith)

-- With enough bytes left a read is defined.
pub read_uint16_total :
    (data_ : List ℕ) → 2 ≤ length data_ → Returns (read_uint16 data_) (λ _. Unit {0})
unfolding read_uint16
read_uint16_total [] h = absurd (omega arith)
read_uint16_total (a ∷ []) h = absurd (omega arith)
read_uint16_total (a ∷ b ∷ rest) h = (_, refl, tt)

pub read_uint32_total :
    (data_ : List ℕ) → 4 ≤ length data_ → Returns (read_uint32 data_) (λ _. Unit {0})
unfolding read_uint32
read_uint32_total [] h = absurd (omega arith)
read_uint32_total (a ∷ []) h = absurd (omega arith)
read_uint32_total (a ∷ b ∷ []) h = absurd (omega arith)
read_uint32_total (a ∷ b ∷ c ∷ []) h = absurd (omega arith)
read_uint32_total (a ∷ b ∷ c ∷ d ∷ rest) h = (_, refl, tt)

pub read_uint64_total :
    (data_ : List ℕ) → 8 ≤ length data_ → Returns (read_uint64 data_) (λ _. Unit {0})
unfolding read_uint64
read_uint64_total data_ h = Returns-bind _ _ (read_uint32_total data_ (omega arith)) λ high _.
    Returns-bind _ _ (read_uint32_total (drop 4 data_) (omega (arith, length-drop 4 data_)))
      λ low _. (_, refl, tt)
