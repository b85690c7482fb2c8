-- ===== src/AsyncLogger/Writer/Bytes.antt =====
-- The bytes that the worker of code/AsyncLogger/src/async_logger.cpp puts into its files, and the size
-- that it lets them grow to.
use unix_notes.Prelude.{
  append-nil, append_assoc, ap₂, add_size_exact, ℕ, zero, suc, ◌+◌, ◌≤◌, ◌<◌, ◌≡◌, refl, sym, ap,
  ◌∙◌, Bool, true, false, List, [], ◌∷◌, ◌++◌, Option, some, arith, length, length-append, ◌==◌,
  add_size, size_limit, Outcome, ok, throws, blocks, undefined, ◌>>=◌, ◌>>◌, throw_if,
  runtime_error,
}
use unix_notes.AsyncLogger.Writer.{Writer, Disk, update, bytes, write_active_buffer, rotate_files}
use unix_notes.AsyncLogger.Writer.Rotate.{span, update_other, rotate_files-span}

-- The call returns with a result that satisfies `P`, or throws since the file system failed.
abbrev pub OrFails : {A : Type 0} → (A → Type 0) → Outcome A → Type 0
OrFails P (ok a) = P a
OrFails P (throws e) = e ≡ runtime_error
OrFails P _ = ⊥

pub OrFails-bind :
    {A B : Type 0} {P : A → Type 0} (Q : B → Type 0) (o : Outcome A) (f : A → Outcome B)
    → OrFails P o
    → ((a : A) → P a → OrFails Q (f a))
    → OrFails Q (o >>= f)
OrFails-bind Q (ok a) f p k = k a p
OrFails-bind Q (throws e) f p k = p
OrFails-bind Q blocks f p k = absurd p
OrFails-bind Q undefined f p k = absurd p

-- Every byte that there has been, in order: those deleted, the backups, the file, the buffer.
abbrev pub whole : Writer → List ℕ
whole w = w.deleted ++ (span w.max_backup_files w.file ++ w.active)

pub record Sound (w : Writer) : Type 0 where
  pub file_size : w.current_file_size ≡ length (bytes (w.file 0))
  pub in_buffer : length w.active ≤ w.batch_buffer_size
  pub room : w.current_file_size + length w.active + w.batch_buffer_size < size_limit
  pub small : w.max_file_size < size_limit

-- What a step keeps.
pub record Keeps (w w' : Writer) : Type 0 where
  pub same_bytes : whole w' ≡ whole w
  pub same_batch : w'.batch_buffer_size ≡ w.batch_buffer_size
  pub same_max : w'.max_file_size ≡ w.max_file_size
  pub no_larger : w'.current_file_size + length w'.active ≤ w.current_file_size + length w.active
  pub sound : Sound w'

pub Keeps-refl : (w : Writer) → Sound w → Keeps w w
Keeps-refl w h = record {
  same_bytes = refl;
  same_batch = refl;
  same_max = refl;
  no_larger = omega arith;
  sound = h;
}

-- Bytes behind the file are behind the span.
span-write :
    (n : ℕ) (files : ℕ → Option (List ℕ)) (xs : List ℕ)
    → span n (update 0 (some (bytes (files 0) ++ xs)) files) ≡ span n files ++ xs
span-write zero files xs = refl
span-write (suc n) files xs =
    ap₂ (λ a b. bytes a ++ b) (update_other 0 (suc n) _ files (λ q. omega arith))
      (span-write n files xs)
    ∙ sym (append_assoc (bytes (files (suc n))) (span n files) xs)

abbrev written : Writer → Writer
written w = record w {
  active = [];
  active_records = 0;
  current_file_size = w.current_file_size + length w.active;
  written_count = add_size w.written_count w.active_records;
  file = update 0 (some (bytes (w.file 0) ++ w.active)) w.file;
}

written-Keeps : (w : Writer) → Sound w → Keeps w (written w)
written-Keeps w h = record {
  same_bytes =
      ap (λ b. w.deleted ++ b) (append-nil _ ∙ span-write w.max_backup_files w.file w.active);
  same_batch = refl;
  same_max = refl;
  no_larger = omega arith;
  sound = record {
    file_size = omega (arith, h.file_size, length-append (bytes (w.file 0)) w.active);
    in_buffer = omega arith;
    room = omega (arith, h.room);
    small = h.small;
  };
}

length-nil : (xs : List ℕ) → length xs ≡ 0 → xs ≡ []
length-nil [] e = refl
length-nil (x ∷ xs) e = absurd (omega (arith, e))

write_picked :
    (disk : Disk) (w : Writer)
    → Sound w
    → (empty works : Bool) → (length w.active == 0) ≡ empty
    → disk.writes ≡ works
    → OrFails (λ w'. Keeps w w' × (w'.active ≡ [])) (write_active_buffer disk w)
unfolding write_active_buffer
write_picked disk w h true works e f =
    rw e (Keeps-refl w h, length-nil w.active (ground (arith, e)))
write_picked disk w h false false e f = rw (e, f) refl
write_picked disk w h false true e f =
    rw (e, f, add_size_exact w.current_file_size (length w.active) (omega (arith, h.room)))
      (written-Keeps w h, refl)

pub write_active_buffer-Keeps :
    (disk : Disk) (w : Writer)
    → Sound w
    → OrFails (λ w'. Keeps w w' × (w'.active ≡ [])) (write_active_buffer disk w)
write_active_buffer-Keeps disk w h =
    write_picked disk w h (length w.active == 0) disk.writes refl refl

pub OrFails-guard :
    {A : Type 0} (P : A → Type 0) (b : Bool) (o : Outcome A)
    → OrFails P o
    → OrFails P (throw_if b runtime_error >> o)
OrFails-guard P true o h = refl
OrFails-guard P false o h = h

-- What the rotation of the files leaves of the rest.
abbrev Beside : Writer → Writer → Type 0
Beside w w' =
    (w'.active ≡ w.active)
    × (w'.max_backup_files ≡ w.max_backup_files)
    × (w'.batch_buffer_size ≡ w.batch_buffer_size)
    × (w'.max_file_size ≡ w.max_file_size)
    × (w'.current_file_size ≡ 0)

other_fields :
    (n : ℕ) (w : Writer)
    → Beside (record w { max_backup_files = n }) (rotate_files (record w { max_backup_files = n }))
unfolding rotate_files
other_fields zero w = (refl, refl, refl, refl, refl)
other_fields (suc n) w = (refl, refl, refl, refl, refl)

pub rotated-Keeps :
    (w : Writer)
    → Sound w
    → w.active ≡ []
    → Keeps w (rotate_files w)
      × ((rotate_files w).current_file_size + length (rotate_files w).active ≡ 0)
rotated-Keeps w h e =
    let (act, n, batch, most, none_left) = other_fields w.max_backup_files w in
    let (same, empty) = rotate_files-span w in
    let nothing = ap length (act ∙ e) in
    (
      record {
        same_bytes =
            ap₂ (λ k a. (rotate_files w).deleted ++ (span k (rotate_files w).file ++ a)) n act
            ∙ sym (append_assoc (rotate_files w).deleted _ w.active)
            ∙ ap (λ b. b ++ w.active) same
            ∙ append_assoc w.deleted _ w.active;
        same_batch = batch;
        same_max = most;
        no_larger = omega (arith, none_left, nothing);
        sound = record {
          file_size = none_left ∙ sym (ap (λ f. length (bytes f)) empty);
          in_buffer = omega (arith, nothing);
          room = omega (arith, none_left, nothing, batch, h.room);
          small = omega (arith, most, h.small);
        };
      },
      omega (arith, none_left, nothing),
    )
