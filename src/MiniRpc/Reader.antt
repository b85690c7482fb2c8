-- ===== src/MiniRpc/Reader.antt =====
-- The bounds-checked readers of code/MiniRPC/src/codec.cpp. Each reads at an offset of the metadata,
-- and either returns false (`none`) or a value and the offset behind it. A chain of them joined by
-- `||` or `&&` is a `do` block: it stops at the first that returns false.
pub mod Chain
use unix_notes.Prelude.{
  ℕ, ◌+◌, ◌-◌, Bool, ◌||◌, List, Option, none, some, length, take, drop, ltb, if◌then◌else◌,
  Outcome, ok, throws, blocks, undefined,
}
use unix_notes.MiniRpc.Wire.{read_uint16, read_uint32, read_uint64}

abbrev pub Reader : Type 0 → Type 0
Reader A = (metadata : List ℕ) (offset : ℕ) → Outcome (Option (A × ℕ))

module _ {A B : Type 0} where
  abbrev pub continue :
      (A → Reader B) → List ℕ → Outcome (Option (A × ℕ)) → Outcome (Option (B × ℕ))
  continue f metadata (ok none) = ok none
  continue f metadata (ok (some (a, offset))) = f a metadata offset
  continue f metadata (throws e) = throws e
  continue f metadata blocks = blocks
  continue f metadata undefined = undefined

  infixl 5 ◌>>=◌
  abbrev pub ◌>>=◌ : Reader A → (A → Reader B) → Reader B
  ◌>>=◌ m f metadata offset = continue f metadata (m metadata offset)

infixl 5 ◌>>◌
abbrev pub ◌>>◌ : {B : Type 0} → Reader (Unit {0}) → Reader B → Reader B
m >> k = m >>= λ _. k

abbrev pub pure : {A : Type 0} → A → Reader A
pure a metadata offset = ok (some (a, offset))

-- `if (!condition) return false;`
abbrev pub check : (List ℕ → ℕ → Bool) → Reader (Unit {0})
check condition metadata offset =
    if condition metadata offset then ok (some (tt, offset)) else ok none

abbrev pub advance : ℕ → Outcome ℕ → Outcome (Option (ℕ × ℕ))
advance next (ok value) = ok (some (value, next))
advance next (throws e) = throws e
advance next blocks = blocks
advance next undefined = undefined

-- `width` bytes from the offset on, read by `read`.
abbrev pub fixed : ℕ → (List ℕ → Outcome ℕ) → Reader ℕ
fixed width read metadata offset =
    if ltb (length metadata) offset || ltb (length metadata - offset) width
    then ok none
    else advance (offset + width) (read (drop offset metadata))

unfoldable pub read_metadata_uint32 : Reader ℕ
read_metadata_uint32 = fixed 4 read_uint32

unfoldable pub read_metadata_uint16 : Reader ℕ
read_metadata_uint16 = fixed 2 read_uint16

unfoldable pub read_metadata_uint64 : Reader ℕ
read_metadata_uint64 = fixed 8 read_uint64

unfoldable pub read_metadata_string : ℕ → Reader (List ℕ)
read_metadata_string size metadata offset =
    if ltb (length metadata) offset || ltb (length metadata - offset) size
    then ok none
    else ok (some (take size (drop offset metadata), offset + size))

unfoldable pub read_length_prefixed_string : Reader (List ℕ)
unfolding read_metadata_uint32 read_metadata_string
read_length_prefixed_string = do size ← read_metadata_uint32; read_metadata_string size
