-- ===== src/ThreadPool/Ring.antt =====
-- `BoundedRingQueue<T>` of code/ThreadPool/BoundedRingQueue.h. `blank` is `T()`.
pub mod Refine
use unix_notes.Prelude.{
  ℕ, ◌%◌, Bool, List, length, get_or, set, replicate, ltb, ◌==◌, if◌then◌else◌, Outcome, ok, ◌>>=◌,
  ◌>>◌, throw_if, require, runtime_error, add_size, sub_size,
}

pub record Ring (T : Type 0) : Type 0 where
  pub buffer : List T
  pub capacity : ℕ
  pub head : ℕ
  pub tail : ℕ
  pub size : ℕ

abbrev pub empty : {T : Type 0} → Ring T → Bool
empty r = r.size == 0

abbrev pub full : {T : Type 0} → Ring T → Bool
full r = r.size == r.capacity

-- An index that moves on.
abbrev pub next : {T : Type 0} → Ring T → ℕ → ℕ
next r index = add_size index 1 % r.capacity

unfoldable pub new : {T : Type 0} → T → ℕ → Outcome (Ring T)
new blank capacity = do
  throw_if (capacity == 0) runtime_error
  ok (record {
    buffer = replicate capacity blank;
    capacity = capacity;
    head = 0;
    tail = 0;
    size = 0;
  })

unfoldable pub push : {T : Type 0} → T → Ring T → Outcome (Ring T)
push value r = do
  throw_if (full r) runtime_error
  require (ltb r.tail (length r.buffer))
  ok (record r {
    buffer = set r.buffer r.tail value;
    tail = next r r.tail;
    size = add_size r.size 1;
  })

unfoldable pub pop : {T : Type 0} → T → Ring T → Outcome (T × Ring T)
pop blank r = do
  throw_if (empty r) runtime_error
  require (ltb r.head (length r.buffer))
  ok (
    get_or r.buffer r.head blank,
    record r { buffer = set r.buffer r.head blank; head = next r r.head; size = sub_size r.size 1 },
  )
