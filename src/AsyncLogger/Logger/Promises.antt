-- ===== src/AsyncLogger/Logger/Promises.antt =====
-- What `flush` and `stop` of code/AsyncLogger/src/async_logger.cpp promise.
use unix_notes.Prelude.{
  take_all, ℕ, zero, suc, ◌+◌, ◌≤◌, ◌<◌, ◌≡◌, refl, sym, ap, subst, ◌∙◌, ◌⊎◌, inl, inr, Bool, true,
  not, List, [], ◌∷◌, ◌++◌, arith, length, leb, Bool-cases, size_limit, Outcome, ok, throws, blocks,
  undefined, throw_if, take, leb→le, runtime_error,
}
use unix_notes.AsyncLogger.Writer.{Writer, Disk}
use unix_notes.AsyncLogger.Logger.{OverflowPolicy, LogRecord, finished, Logger}
use unix_notes.AsyncLogger.Logger.Steps.{new, start, validate_config, flush_over}
use unix_notes.AsyncLogger.Logger.Run.{Event, run}
use unix_notes.AsyncLogger.Logger.Books.{held, Knows, Ordered, load}
use unix_notes.AsyncLogger.Logger.Steps.{is_failed, is_stopped}
use unix_notes.AsyncLogger.Logger.Account.{Books, run-Books}
use unix_notes.AsyncLogger.Logger.Written.{Where, Where-bind}

-- A logger that `start` has returned for one that is new.
abbrev pub opened :
    (max_queue_size min_level : ℕ)
    → OverflowPolicy
    → Bool
    → Writer
    → Disk
    → List ℕ
    → ℕ
    → Outcome Logger
opened max_queue_size min_level policy flush_on_error w disk path interval =
    start disk path interval (new max_queue_size min_level policy flush_on_error w)

anything : {A : Type 0} (o : Outcome A) → Where (λ a. Unit {0}) o
anything (ok a) = tt
anything (throws e) = tt
anything blocks = tt
anything undefined = tt

-- The books of a logger on which nothing has happened.
opened-Where :
    (max_queue_size min_level : ℕ) (policy : OverflowPolicy) (flush_on_error : Bool) (w : Writer)
    (disk : Disk) (path : List ℕ) (interval : ℕ)
    → Where
        (λ s. Books s × (load s ≡ 0))
        (opened max_queue_size min_level policy flush_on_error w disk path interval)
unfolding start new
opened-Where max_queue_size min_level policy flush_on_error w disk path interval =
    Where-bind _
      (validate_config path interval (new max_queue_size min_level policy flush_on_error w)) _
      (anything _)
      (λ u _. Where-bind _ (throw_if (not disk.opens) runtime_error) _ (anything _) (λ v _. (
        record {
          counted = record { active = refl; pending = refl; accepted = refl };
          ordered = record {
            order = refl;
            written = (refl, inl refl);
            flushed = omega arith;
            knows = tt;
          };
        },
        refl,
      )))

start-Books :
    (max_queue_size min_level : ℕ) (policy : OverflowPolicy) (flush_on_error : Bool) (w : Writer)
    (disk : Disk) (path : List ℕ) (interval : ℕ) (s : Logger)
    → opened max_queue_size min_level policy flush_on_error w disk path interval ≡ ok s
    → Books s × (load s ≡ 0)
start-Books max_queue_size min_level policy flush_on_error w disk path interval s e =
    subst (Where (λ t. Books t × (load t ≡ 0))) e
      (opened-Where max_queue_size min_level policy flush_on_error w disk path interval)

take-length : (xs ys : List LogRecord) (n : ℕ) → n ≤ length xs → take n (xs ++ ys) ≡ take n xs
take-length [] ys zero h = refl
take-length (x ∷ xs) ys zero h = refl
take-length [] ys (suc n) h = absurd (omega arith)
take-length (x ∷ xs) ys (suc n) h = ap (λ l. x ∷ l) (take-length xs ys n (omega arith))

first_taken :
    (n : ℕ) (s : Logger) → Ordered s → n ≤ length s.appended → take n s.enqueued ≡ take n s.appended
first_taken n s h le = ap (take n) h.order ∙ take-length s.appended (held s.worker ++ s.queue) n le

flush_picked_over :
    (target : ℕ) (s : Logger)
    → Ordered s
    → flush_over target s ≡ true
    → (is_failed s.state ≡ true)
      ⊎ (is_stopped s.state ≡ true)
      ⊎ ((target ≤ s.writer.written_count) × (take target s.enqueued ≡ take target s.appended))
flush_picked_over target s h e = elim (Bool-cases (leb target s.last_flushed_count)) [
  | inl a ↦
      let le : target ≤ s.writer.written_count =
        omega (arith, leb→le target s.last_flushed_count a, h.flushed) in
      inr (inr (le, first_taken target s h (omega (arith, h.written.0))))
  | inr a ↦ elim (Bool-cases (is_failed s.state)) [
    | inl b ↦ inl b
    | inr b ↦ inr (inl (ground (arith, a, b, e)))
  ]
]

finished_books :
    (s : Logger)
    → Ordered s
    → s.worker ≡ finished true
    → (s.writer.written_count ≡ s.seen) × (s.appended ≡ take s.seen s.enqueued)
finished_books s h e =
    elim (subst (Knows (length s.appended) s.seen s.writer.written_count) e h.knows) [
      | inl never ↦ absurd (cc)
      | inr (same, done) ↦ (
        done,
        sym (first_taken s.seen s h (omega arith) ∙ take_all s.seen s.appended (omega arith)),
      )
    ]

module _ (format : LogRecord → List ℕ) (nonempty : (r : LogRecord) → 0 < length (format r))
    (max_queue_size min_level : ℕ) (cells : 2 ≤ max_queue_size) (policy : OverflowPolicy)
    (flush_on_error : Bool) (w : Writer) (disk : Disk) (path : List ℕ) (interval : ℕ) (s : Logger)
    (opens : opened max_queue_size min_level policy flush_on_error w disk path interval ≡ ok s)
    (events : List Event) (room : length events + 2 < size_limit) where
  pub logger-Books : Books (run format events s)
  logger-Books =
      let (books, empty) =
        start-Books max_queue_size min_level policy flush_on_error w disk path interval s opens in
      run-Books format nonempty events s (omega arith) books

  -- Over the same, when a call of `flush` may return, the logger has failed, or has been stopped, or as
  -- many records have been written and flushed as it had found accepted, and they are the first that
  -- entered the queue.
  pub flush_first :
      (target : ℕ)
      → flush_over target (run format events s) ≡ true
      → (is_failed (run format events s).state ≡ true)
        ⊎ (is_stopped (run format events s).state ≡ true)
        ⊎ ((target ≤ (run format events s).writer.written_count)
            × (take target (run format events s).enqueued
                ≡ take target (run format events s).appended))
  flush_first target over = flush_picked_over target (run format events s) logger-Books.ordered over

  -- Over the same, when the worker has ended by itself, it has written all the records that had entered
  -- the queue when it last found none pending, in their order, and none of those that came later.
  pub finished_written :
      (run format events s).worker ≡ finished true
      → ((run format events s).writer.written_count ≡ (run format events s).seen)
        × ((run format events s).appended
            ≡ take (run format events s).seen (run format events s).enqueued)
  finished_written ended = finished_books (run format events s) logger-Books.ordered ended
