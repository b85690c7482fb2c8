-- ===== src/MiniReactor/Buffer.antt =====
-- code/MiniReactor/src/net/Buffer.cpp. Bytes are numbers; a vector is a list. An access outside the
-- vector is `undefined`. `resize` past what a vector of `char` can hold throws, as the standard says.

pub mod Refine
pub mod Text
use unix_notes.Prelude.{
  ℕ, ◌+◌, ◌-◌, ◌≤◌, Bool, not, ◌||◌, List, [], ◌∷◌, ◌++◌, length, take, drop, replicate, leb, ltb,
  ◌==◌, if◌then◌else◌, Outcome, ok, ◌>>=◌, ◌>>◌, throw_if, require, out_of_range, length_error,
  add_size, sub_size, ◌^◌,
}

abbrev pub cheap_prepend : ℕ
cheap_prepend = 8

abbrev pub initial_size : ℕ
initial_size = 1024

-- The largest size of a vector of `char`.
abbrev pub max_size : ℕ
max_size = 2 ^ 63 - 1

pub record Buffer : Type 0 where
  pub data_ : List ℕ
  pub reader_index : ℕ
  pub writer_index : ℕ

unfoldable pub new : Buffer
new = record {
  data_ = replicate (cheap_prepend + initial_size) 0;
  reader_index = cheap_prepend;
  writer_index = cheap_prepend;
}

abbrev pub readable_bytes : Buffer → ℕ
readable_bytes b = sub_size b.writer_index b.reader_index

abbrev pub writable_bytes : Buffer → ℕ
writable_bytes b = sub_size (length b.data_) b.writer_index

abbrev pub prependable_bytes : Buffer → ℕ
prependable_bytes b = b.reader_index

-- The bytes from `peek()` to the end of the vector.
abbrev pub peek : Buffer → List ℕ
peek b = drop b.reader_index b.data_

-- `std::memcpy(data_.data() + at, bytes, length)`, and `std::copy` to `at`.
unfoldable pub write_at : List ℕ → ℕ → List ℕ → Outcome (List ℕ)
write_at xs at bytes = do
  require (leb (at + length bytes) (length xs))
  ok (take at xs ++ (bytes ++ drop (at + length bytes) xs))

-- `data_.resize(size)`
unfoldable pub resize : ℕ → List ℕ → Outcome (List ℕ)
resize size xs = do
  throw_if (ltb max_size size) length_error
  ok (take size xs ++ replicate (size - length xs) 0)

unfoldable pub make_space : ℕ → Buffer → Outcome Buffer
make_space length b =
    if ltb (add_size (writable_bytes b) (prependable_bytes b)) (add_size length cheap_prepend)
    then (do
      grown ← resize (add_size b.writer_index length) b.data_
      ok (record b { data_ = grown }))
    else (do
      -- `std::copy` may not write into the range that it still has to read.
      require (leb cheap_prepend b.reader_index || leb b.writer_index cheap_prepend)
      moved ← write_at b.data_ cheap_prepend (take (readable_bytes b) (peek b))
      ok (record {
        data_ = moved;
        reader_index = cheap_prepend;
        writer_index = add_size cheap_prepend (readable_bytes b);
      }))

unfoldable pub ensure_writable_bytes : ℕ → Buffer → Outcome Buffer
ensure_writable_bytes length b = if ltb (writable_bytes b) length then make_space length b else ok b

unfoldable pub append : List ℕ → Buffer → Outcome Buffer
append bytes b = do
  b' ← ensure_writable_bytes (length bytes) b
  written ← write_at b'.data_ b'.writer_index bytes
  ok (record b' { data_ = written; writer_index = add_size b'.writer_index (length bytes) })

unfoldable pub prepend : List ℕ → Buffer → Outcome Buffer
prepend bytes b = do
  throw_if (ltb (prependable_bytes b) (length bytes)) out_of_range
  written ← write_at b.data_ (sub_size b.reader_index (length bytes)) bytes
  ok (record b { data_ = written; reader_index = sub_size b.reader_index (length bytes) })

unfoldable pub retrieve_all : Buffer → Buffer
retrieve_all b = record b { reader_index = cheap_prepend; writer_index = cheap_prepend }

unfoldable pub retrieve : ℕ → Buffer → Outcome Buffer
retrieve length b = do
  throw_if (ltb (readable_bytes b) length) out_of_range
  let reader = add_size b.reader_index length
  ok (
      if reader == b.writer_index
      then retrieve_all (record b { reader_index = reader })
      else record b { reader_index = reader })

unfoldable pub retrieve_all_as_string : Buffer → List ℕ × Buffer
retrieve_all_as_string b = (take (readable_bytes b) (peek b), retrieve_all b)
