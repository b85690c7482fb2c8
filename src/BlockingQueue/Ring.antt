-- ===== src/BlockingQueue/Ring.antt =====
-- `RingBuffer<T>`. A member function that changes the object returns the new object. Copy and move
-- of a value are not told apart.
pub mod Refine
pub mod Batch
use unix_notes.Prelude.{
  ℕ, zero, suc, ◌+◌, ◌-◌, ◌%◌, Bool, List, [], ◌∷◌, Option, none, some, length, get_or, set,
  replicate, leb, ltb, ◌==◌, if◌then◌else◌, Outcome, ok, undefined, ◌>>=◌, ◌>>◌, throw_if, require,
  deref, invalid_argument, logic_error, add_size, sub_size,
}

pub record Ring (T : Type 0) : Type 0 where
  pub buffer : List (Option T)
  pub capacity : ℕ
  pub head : ℕ
  pub tail : ℕ
  pub size : ℕ

-- How many of `want` values a batch moves where `have` can be.
abbrev pub batch_count : ℕ → ℕ → ℕ
batch_count want have = if leb want have then want else have

module _ {T : Type 0} where
  unfoldable pub new : ℕ → Outcome (Ring T)
  new capacity = do
    throw_if (capacity == 0) invalid_argument
    ok (record {
      buffer = replicate capacity none;
      capacity = capacity;
      head = 0;
      tail = 0;
      size = 0;
    })

  unfoldable pub empty : Ring T → Bool
  empty r = r.size == 0

  unfoldable pub full : Ring T → Bool
  full r = r.size == r.capacity

  abbrev pub next_index : Ring T → ℕ → ℕ
  next_index r index = add_size index 1 % r.capacity

  unfoldable pub emplace : T → Ring T → Outcome (Ring T)
  unfolding full
  emplace v r = do
    throw_if (full r) logic_error
    require (ltb r.tail (length r.buffer))
    ok (record r {
      buffer = set r.buffer r.tail (some v);
      tail = next_index r r.tail;
      size = add_size r.size 1;
    })

  unfoldable pub front : Ring T → Outcome T
  unfolding empty
  front r = do throw_if (empty r) logic_error; deref (get_or r.buffer r.head none)

  unfoldable pub pop_front : Ring T → Outcome (Ring T)
  unfolding empty
  pop_front r = do
    throw_if (empty r) logic_error
    require (ltb r.head (length r.buffer))
    ok (record r {
      buffer = set r.buffer r.head none;
      head = next_index r r.head;
      size = sub_size r.size 1;
    })

  unfoldable pub pop : Ring T → Outcome (T × Ring T)
  unfolding front pop_front
  pop r = do value ← front r; r' ← pop_front r; ok (value, r')

  -- The loop of `push_batch`: `n` more rounds, `values` from index `i` on.
  push_rounds : ℕ → List T → Ring T → Outcome (Ring T)
  push_rounds zero values r = ok r
  push_rounds (suc n) [] r = undefined
  push_rounds (suc n) (v ∷ values) r = do
    require (ltb r.tail (length r.buffer))
    push_rounds n values
        (record r { buffer = set r.buffer r.tail (some v); tail = next_index r r.tail })

  unfoldable pub push_batch : List T → Ring T → Outcome (Ring T × ℕ)
  unfolding push_rounds
  push_batch values r = do
    let available = sub_size r.capacity r.size
    let pushed = batch_count (length values) available
    r' ← push_rounds pushed values r
    ok (record r' { size = add_size r'.size pushed }, pushed)

  -- The loop of `pop_batch`: what `n` more rounds write to the output, in order.
  pop_rounds : ℕ → Ring T → Outcome (List T × Ring T)
  pop_rounds zero r = ok ([], r)
  pop_rounds (suc n) r = do
    value ← deref (get_or r.buffer r.head none)
    (out, r') ←
        pop_rounds n (record r { buffer = set r.buffer r.head none; head = next_index r r.head })
    ok (value ∷ out, r')

  -- The first argument is the length of the output span; the list is what is written to its front.
  unfoldable pub pop_batch : ℕ → Ring T → Outcome (List T × Ring T)
  unfolding pop_rounds
  pop_batch room r = do
    let popped = batch_count room r.size
    (out, r') ← pop_rounds popped r
    ok (out, record r' { size = sub_size r'.size popped })
