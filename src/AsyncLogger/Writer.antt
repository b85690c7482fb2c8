-- ===== src/AsyncLogger/Writer.antt =====
-- What the worker of `AsyncLogger` of code/AsyncLogger/src/async_logger.cpp does with a record: the two
-- buffers as one, the log file, its backups and their rotation. A formatted record is a list of bytes
-- that the C library gives. Each call of the file system is told whether it works; where it does not,
-- the code throws.
pub mod Rotate
pub mod Bytes
pub mod Append
use unix_notes.Prelude.{
  ap₂, get_or, take_all, get_or-append_last, get_or-append_ne, add_size_exact, sub_size, pick, sum,
  sum-append, Picked, pick-Picked, ℕ, zero, suc, ◌+◌, ◌-◌, ◌*◌, ◌/◌, ◌%◌, ◌^◌, ◌≤◌, ◌<◌, ◌≡◌, refl,
  sym, ap, subst, ◌∙◌, ◌≢◌, ◌⊎◌, inl, inr, Bool, true, false, not, ◌&&◌, ◌||◌, List, [], ◌∷◌, ◌++◌,
  map, Option, none, some, arith, length, length-append, length-drop, ltb, leb, ◌==◌, if◌then◌else◌,
  Bool-cases, ℤ, pos, negsuc, add_size, size_limit, min, codes, Outcome, ok, throws, blocks,
  undefined, ◌>>=◌, ◌>>◌, throw_if, require, wait, wait_until, All, All-append, Returns,
  Returns-bind, Returns-map, Returns-both, take, drop, append-nil, append_assoc, ==_refl, ==_ne,
  ltb→lt, leb→le, lt→ltb, le→leb, IsInt32, ok-injective, logic_error, invalid_argument,
  runtime_error, length_error, out_of_range,
}

-- `file 0` is the log file as it stands on the disk, `file n` its backup number `n`; `deleted` are the
-- bytes of the files that have been removed or truncated.
pub record Writer : Type 0 where
  pub max_file_size : ℕ
  pub max_backup_files : ℕ
  pub batch_buffer_size : ℕ
  pub active : List ℕ
  pub active_records : ℕ
  pub current_file_size : ℕ
  pub written_count : ℕ
  pub file : ℕ → Option (List ℕ)
  pub deleted : List ℕ

-- Whether the calls of the file system work, during one record. A `rename` of the log file that is not
-- there is one that does not work.
pub record Disk : Type 0 where
  pub writes : Bool
  pub flushes : Bool
  pub removes : Bool
  pub renames : Bool
  pub opens : Bool

abbrev pub update {ℓ} : {A : Type ℓ} → ℕ → A → (ℕ → A) → ℕ → A
update key value f other = if other == key then value else f other

abbrev pub bytes : Option (List ℕ) → List ℕ
bytes none = []
bytes (some b) = b

-- `writeActiveBuffer`: the bytes go behind those of the file.
unfoldable pub write_active_buffer : Disk → Writer → Outcome Writer
write_active_buffer disk w = if length w.active == 0 then ok w else do
  throw_if (not disk.writes) runtime_error
  ok (record w {
    active = [];
    active_records = 0;
    current_file_size = add_size w.current_file_size (length w.active);
    written_count = add_size w.written_count w.active_records;
    file = update 0 (some (bytes (w.file 0) ++ w.active)) w.file;
  })

unfoldable pub flush_output : Disk → Writer → Outcome Writer
flush_output disk w = throw_if (not disk.flushes) runtime_error >> ok w

-- A rename of a file that may be there over one that is not.
unfoldable pub move_file : (source destination : ℕ) → (ℕ → Option (List ℕ)) → ℕ → Option (List ℕ)
move_file source destination files = elim (files source) [
  | none ↦ files
  | some b ↦ update source none (update destination (some b) files)
]

-- The loop over the backups, from `suc index` down to 2.
unfoldable pub shift_backups : (index : ℕ) → (ℕ → Option (List ℕ)) → ℕ → Option (List ℕ)
unfolding move_file
shift_backups zero files = files
shift_backups (suc index) files =
    shift_backups index (move_file (suc index) (suc (suc index)) files)

-- The file and its backups after a rotation, and what has been deleted.
unfoldable pub rotate_files : Writer → Writer
unfolding shift_backups move_file
rotate_files w = elim w.max_backup_files [
  | zero ↦ record w {
    file = update 0 (some []) w.file;
    deleted = w.deleted ++ bytes (w.file 0);
    current_file_size = 0;
  }
  | suc index ↦ record w {
    file =
        update 0 (some []) (move_file 0 1 (shift_backups index (update (suc index) none w.file)));
    deleted = w.deleted ++ bytes (w.file (suc index));
    current_file_size = 0;
  }
]

-- The test of `rotate_if_needed` that returns at once.
unfoldable pub fits : ℕ → Writer → Bool
fits next_record_size w =
    w.max_file_size == 0
    || (w.current_file_size == 0 && length w.active == 0)
    || (leb w.current_file_size w.max_file_size
        && leb (length w.active) (sub_size w.max_file_size w.current_file_size)
        && leb next_record_size
            (sub_size (sub_size w.max_file_size w.current_file_size) (length w.active)))

unfoldable pub rotate_if_needed : Disk → ℕ → Writer → Outcome Writer
unfolding write_active_buffer flush_output rotate_files fits
rotate_if_needed disk next_record_size w = if fits next_record_size w then ok w else do
  written ← write_active_buffer disk w
  flushed ← flush_output disk written
  throw_if (not (w.max_backup_files == 0) && not (disk.removes && disk.renames)) runtime_error
  throw_if (not disk.opens) runtime_error
  ok (rotate_files flushed)

-- `memcpy` into the buffer, undefined beyond its end.
unfoldable pub put : List ℕ → Writer → Outcome Writer
put formatted w = do
  require (leb (length w.active + length formatted) w.batch_buffer_size)
  ok (record w { active = w.active ++ formatted; active_records = add_size w.active_records 1 })

unfoldable pub append_record : Disk → List ℕ → Writer → Outcome Writer
unfolding rotate_if_needed write_active_buffer put
append_record disk formatted w = do
  rotated ← rotate_if_needed disk (length formatted) w
  room ←
      (if ltb rotated.batch_buffer_size (add_size (length rotated.active) (length formatted))
        then write_active_buffer disk rotated
        else ok rotated)
  put formatted room
