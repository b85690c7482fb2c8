-- ===== src/AsyncLogger/Ring.antt =====
-- `MpscRingBuffer` of code/AsyncLogger/include/async_logger/mpsc_ring_buffer.h, step by step: each
-- step is one access to the shared words, so every list of steps is an interleaving of any number of
-- producers with the one consumer. The array is a function of the index. The order of the steps is the
-- one that acquire and release give.
mod Window
mod Claim
mod Publish
mod Dequeue
pub mod Fifo
use unix_notes.Prelude.{
  ℕ, ◌+◌, ◌%◌, Bool, true, false, List, [], ◌∷◌, ◌++◌, Option, none, some, ltb, ◌==◌, if◌then◌else◌,
  Outcome, ok, ◌>>◌, throw_if, invalid_argument, add_size, sub_size, leb,
}

pub record Cell (T : Type 0) : Type 0 where
  pub sequence : ℕ
  pub value : T

-- `seen position` is whether some producer has loaded this position and found its cell free.
-- `writing position` is the value of the producer that has taken the position and has not filled its
-- cell. `claimed` are the values whose producers have taken a position, `taken` those that the
-- consumer has got, both in order, the first first.
pub record Ring (T : Type 0) : Type 0 where
  pub capacity : ℕ
  pub cells : ℕ → Cell T
  pub enqueue_position : ℕ
  pub dequeue_position : ℕ
  pub seen : ℕ → Bool
  pub writing : ℕ → Option T
  pub claimed : List T
  pub taken : List T

-- `look` is a producer's load of a cell's sequence, `exchange` its compare-and-exchange, `publish` its
-- two stores; `dequeue` is a call of the consumer.
pub data Step (T : Type 0) : Type 0 where
  look publish : (position : ℕ) → Step T
  exchange : (position : ℕ) → T → Step T
  dequeue : Step T

abbrev pub update {ℓ} : {A : Type ℓ} → ℕ → A → (ℕ → A) → ℕ → A
update key value f other = if other == key then value else f other

module _ {T : Type 0} where
  unfoldable pub new : (blank : T) → ℕ → Outcome (Ring T)
  new blank capacity = do
    throw_if (capacity == 0) invalid_argument
    ok (record {
      capacity = capacity;
      cells = λ index. record { sequence = index; value = blank };
      enqueue_position = 0;
      dequeue_position = 0;
      seen = λ position. false;
      writing = λ position. none;
      claimed = [];
      taken = [];
    })

  abbrev pub cell : Ring T → ℕ → Cell T
  cell r position = r.cells (position % r.capacity)

  -- `difference == 0`
  unfoldable pub look_step : ℕ → Ring T → Ring T
  look_step position r =
      if (cell r position).sequence == position
      then record r { seen = update position true r.seen }
      else r

  -- `difference < 0`, where the numbers are below 2 ^ 63: `try_enqueue` returns false.
  unfoldable pub refuses : ℕ → Ring T → Bool
  refuses position r = ltb (cell r position).sequence position

  unfoldable pub exchange_step : ℕ → T → Ring T → Ring T
  exchange_step position value r =
      if r.seen position
      then (if r.enqueue_position == position
          then record r {
            enqueue_position = add_size position 1;
            writing = update position (some value) r.writing;
            claimed = r.claimed ++ (value ∷ []);
          }
          else r)
      else r

  unfoldable pub publish_step : ℕ → Ring T → Ring T
  publish_step position r = elim (r.writing position) [
    | none ↦ r
    | some value ↦ record r {
      cells =
          update (position % r.capacity) (record { sequence = add_size position 1; value = value })
            r.cells;
      writing = update position none r.writing;
    }
  ]

  -- `sequence == position + 1`
  unfoldable pub can_dequeue : Ring T → Bool
  can_dequeue r = (cell r r.dequeue_position).sequence == add_size r.dequeue_position 1

  unfoldable pub dequeue_step : Ring T → Ring T
  unfolding can_dequeue
  dequeue_step r =
      let position = r.dequeue_position in
      if can_dequeue r
      then record r {
        cells =
            update (position % r.capacity)
              (record { sequence = add_size position r.capacity; value = (cell r position).value })
              r.cells;
        dequeue_position = add_size position 1;
        taken = r.taken ++ ((cell r position).value ∷ []);
      }
      else r

  unfoldable pub full : Ring T → Bool
  full r = leb r.capacity (sub_size r.enqueue_position r.dequeue_position)

  unfoldable pub step : Step T → Ring T → Ring T
  unfolding look_step exchange_step publish_step dequeue_step
  step (look position) r = look_step position r
  step (exchange position value) r = exchange_step position value r
  step (publish position) r = publish_step position r
  step dequeue r = dequeue_step r

  unfoldable pub run : List (Step T) → Ring T → Ring T
  unfolding step
  run [] r = r
  run (e ∷ steps) r = run steps (step e r)
