-- ===== src/AsyncLogger/Logger/Written.antt =====
-- How many records the writer of code/AsyncLogger/src/async_logger.cpp has taken and written.
use unix_notes.Prelude.{
  ℕ, zero, suc, ◌+◌, ◌≤◌, ◌<◌, ◌≡◌, refl, ap, ◌⊎◌, inl, inr, Bool, true, false, not, ◌&&◌, List,
  arith, length, length-append, ltb, leb, ◌==◌, if◌then◌else◌, Bool-cases, add_size, size_limit,
  Outcome, ok, throws, blocks, undefined, ◌>>=◌, ◌>>◌, throw_if, runtime_error,
}
use unix_notes.AsyncLogger.Writer.{
  Writer, Disk, write_active_buffer, flush_output, rotate_files, fits, rotate_if_needed, put,
  append_record,
}

-- The writer has taken `n` records, and an empty buffer holds none.
abbrev pub Taken : ℕ → Writer → Type 0
Taken n w =
    (w.written_count + w.active_records ≡ n) × ((w.active_records ≡ 0) ⊎ (0 < length w.active))

-- What a call returns, if it does, satisfies `P`.
abbrev pub Where : {A : Type 0} → (A → Type 0) → Outcome A → Type 0
Where P (ok a) = P a
Where P _ = Unit

pub Where-bind :
    {A B : Type 0} {P : A → Type 0} (Q : B → Type 0) (o : Outcome A) (f : A → Outcome B)
    → Where P o
    → ((a : A) → P a → Where Q (f a))
    → Where Q (o >>= f)
Where-bind Q (ok a) f p k = k a p
Where-bind Q (throws e) f p k = tt
Where-bind Q blocks f p k = tt
Where-bind Q undefined f p k = tt

Where-weaken :
    {A : Type 0} {P : A → Type 0} (Q : A → Type 0) (o : Outcome A)
    → Where P o
    → ((a : A) → P a → Q a)
    → Where Q o
Where-weaken Q (ok a) p k = k a p
Where-weaken Q (throws e) p k = tt
Where-weaken Q blocks p k = tt
Where-weaken Q undefined p k = tt

-- What a step of the writer keeps, and what it does not lower.
abbrev pub Wrote : ℕ → Writer → Writer → Type 0
Wrote n w w' = Taken n w' × (w.written_count ≤ w'.written_count)

write_picked :
    (n : ℕ) (disk : Disk) (w : Writer)
    → n < size_limit
    → Taken n w
    → (empty works : Bool) → (length w.active == 0) ≡ empty
    → disk.writes ≡ works
    → Where (λ w'. Wrote n w w' × (w'.written_count ≡ n)) (write_active_buffer disk w)
unfolding write_active_buffer
write_picked n disk w lt h true works e f = rw e (ground (arith, e))
write_picked n disk w lt h false false e f = rw (e, f) tt
write_picked n disk w lt h false true e f = rw (e, f) (ground arith)

-- Afterwards every record taken has been written.
pub write_active_buffer-Taken :
    (n : ℕ) (disk : Disk) (w : Writer)
    → n < size_limit
    → Taken n w
    → Where (λ w'. Wrote n w w' × (w'.written_count ≡ n)) (write_active_buffer disk w)
write_active_buffer-Taken n disk w lt h =
    write_picked n disk w lt h (length w.active == 0) disk.writes refl refl

pub flush_output-Where :
    (P : Writer → Type 0) (disk : Disk) (w : Writer) → P w → Where P (flush_output disk w)
unfolding flush_output
flush_output-Where P disk w h = elim (Bool-cases disk.flushes) [
  | inl works ↦ rw works h
  | inr fails ↦ rw fails tt
]

pub flushed-Taken :
    (n : ℕ) (disk : Disk) (w : Writer)
    → n < size_limit
    → Taken n w
    → Where
        (λ w'. Wrote n w w' × (w'.written_count ≡ n))
        (write_active_buffer disk w >>= flush_output disk)
flushed-Taken n disk w lt h =
    Where-bind (λ w'. Wrote n w w' × (w'.written_count ≡ n)) (write_active_buffer disk w)
      (flush_output disk) (write_active_buffer-Taken n disk w lt h)
      (λ v k. flush_output-Where (λ w'. Wrote n w w' × (w'.written_count ≡ n)) disk v k)

Where-guard :
    {A : Type 0} (P : A → Type 0) (b : Bool) (o : Outcome A)
    → Where P o
    → Where P (throw_if b runtime_error >> o)
Where-guard P true o h = tt
Where-guard P false o h = h

rotated_counts :
    (n : ℕ) (w : Writer)
    → let r = rotate_files (record w { max_backup_files = n }) in
      (r.written_count ≡ w.written_count)
      × (r.active_records ≡ w.active_records)
      × (r.active ≡ w.active)
unfolding rotate_files
rotated_counts zero w = (refl, refl, refl)
rotated_counts (suc n) w = (refl, refl, refl)

rotate_files-Taken : (n : ℕ) (w : Writer) → Taken n w → Wrote n w (rotate_files w)
rotate_files-Taken n w h =
    let (a, b, c) = rotated_counts w.max_backup_files w in ground (arith, a, b, ap length c)

rotate_if_needed-Taken :
    (n : ℕ) (disk : Disk) (size : ℕ) (w : Writer)
    → n < size_limit
    → Taken n w
    → Where (Wrote n w) (rotate_if_needed disk size w)
unfolding rotate_if_needed
rotate_if_needed-Taken n disk size w lt h = elim (Bool-cases (fits size w)) [
  | inl e ↦ rw e (h, omega arith)
  | inr e ↦ rw e (
      Where-bind (Wrote n w) (write_active_buffer disk w) _
        (write_active_buffer-Taken n disk w lt h)
        (λ v (k, done).
          Where-bind (Wrote n w) (flush_output disk v) _ (flush_output-Where (Wrote n w) disk v k)
            (λ u k.
              Where-guard (Wrote n w)
                (not (w.max_backup_files == 0) && not (disk.removes && disk.renames))
                (throw_if (not disk.opens) runtime_error >> ok (rotate_files u))
                (Where-guard (Wrote n w) (not disk.opens) (ok (rotate_files u))
                  (let (t, le) = rotate_files-Taken n u k.0 in (t, omega (arith, le, k.1)))))))
]

put-Taken :
    (n : ℕ) (formatted : List ℕ) (w v : Writer)
    → n + 1 < size_limit
    → 0 < length formatted
    → Wrote n w v
    → Where (Wrote (n + 1) w) (put formatted v)
unfolding put
put-Taken n formatted w v lt pos_length k =
    elim (Bool-cases (leb (length v.active + length formatted) v.batch_buffer_size)) [
      | inl e ↦ rw e (ground (arith, length-append v.active formatted))
      | inr e ↦ rw e tt
    ]

-- A record that goes through is one more.
pub append_record-Taken :
    (n : ℕ) (disk : Disk) (formatted : List ℕ) (w : Writer)
    → n + 1 < size_limit
    → 0 < length formatted
    → Taken n w
    → Where (Wrote (n + 1) w) (append_record disk formatted w)
unfolding append_record
append_record-Taken n disk formatted w lt pos_length h =
    Where-bind (Wrote (n + 1) w) (rotate_if_needed disk (length formatted) w) _
      (rotate_if_needed-Taken n disk (length formatted) w (omega arith) h)
      (λ r k.
        Where-bind (Wrote (n + 1) w)
          (if ltb r.batch_buffer_size (add_size (length r.active) (length formatted))
            then write_active_buffer disk r
            else ok r)
          _
          (room_made r k (ltb r.batch_buffer_size (add_size (length r.active) (length formatted))))
          (λ v k. put-Taken n formatted w v lt pos_length k))
  where
    room_made :
        (r : Writer)
        → Wrote n w r
        → (full : Bool) → Where (Wrote n w) (if full then write_active_buffer disk r else ok r)
    room_made r k true =
        Where-weaken (Wrote n w) (write_active_buffer disk r)
          (write_active_buffer-Taken n disk r (omega arith) k.0)
          (λ v (x, done). (x.0, omega (arith, x.1, k.1)))
    room_made r k false = k
