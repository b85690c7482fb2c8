-- ===== src/AsyncLogger/Writer/Rotate.antt =====
-- The rotation of the files of code/AsyncLogger/src/async_logger.cpp: what each file holds after it.
use unix_notes.Prelude.{
  append-nil, append_assoc, ==_refl, ==_ne, ap₂, ℕ, zero, suc, ◌≤◌, ◌<◌, ◌≡◌, refl, sym, ap, ◌∙◌,
  ◌≢◌, List, [], ◌++◌, Option, none, some, arith, ◌==◌, if◌then◌else◌,
}
use unix_notes.AsyncLogger.Writer.{Writer, update, bytes, move_file, shift_backups, rotate_files}

-- The bytes of the backups `n` to 1 and of the file, the oldest first.
abbrev pub span : ℕ → (ℕ → Option (List ℕ)) → List ℕ
span zero files = bytes (files 0)
span (suc n) files = bytes (files (suc n)) ++ span n files

-- Files that hold the same bytes up to `n`.
span_same :
    (n : ℕ) (f g : ℕ → Option (List ℕ))
    → ((i : ℕ) → i ≤ n → bytes (f i) ≡ bytes (g i))
    → span n f ≡ span n g
span_same zero f g h = h 0 (omega arith)
span_same (suc n) f g h =
    ap₂ (λ a b. a ++ b) (h (suc n) (omega arith)) (span_same n f g (λ i le. h i (omega arith)))

pub update_other :
    (key i : ℕ) (v : Option (List ℕ)) (f : ℕ → Option (List ℕ)) → i ≢ key → update key v f i ≡ f i
update_other key i v f h = rw (==_ne i key h) refl

-- A move up by one over a file that is not there.
move_picked :
    (n i : ℕ) (files : ℕ → Option (List ℕ)) (o : Option (List ℕ))
    → files n ≡ o
    → files (suc n) ≡ none
    → move_file n (suc n) files i
      ≡ (if i == n then none else if i == suc n then files n else files i)
unfolding move_file
move_picked n i files none o e =
    rw (o, move_file)
      (ground (arith, e, (λ (q : i ≡ n). ap files q), (λ (q : i ≡ suc n). ap files q), o))
move_picked n i files (some b) o e = rw (o, move_file) refl

move_file-at :
    (n i : ℕ) (files : ℕ → Option (List ℕ))
    → files (suc n) ≡ none
    → move_file n (suc n) files i
      ≡ (if i == n then none else if i == suc n then files n else files i)
move_file-at n i files e = move_picked n i files (files n) refl e

module _ (n : ℕ) (files : ℕ → Option (List ℕ)) (e : files (suc n) ≡ none) where
  moved_from : move_file n (suc n) files n ≡ none
  moved_from = move_file-at n n files e ∙ rw (==_refl n) refl

  moved_to : move_file n (suc n) files (suc n) ≡ files n
  moved_to = move_file-at n (suc n) files e ∙ ground arith

  moved_past : (i : ℕ) → i ≢ n → i ≢ suc n → move_file n (suc n) files i ≡ files i
  moved_past i a b = move_file-at n i files e ∙ ground (arith, a, b)

-- The loop over the backups keeps their bytes and leaves the place of the newest free.
shift_backups-span :
    (k : ℕ) (files : ℕ → Option (List ℕ))
    → files (suc k) ≡ none
    → (span (suc k) (shift_backups k files) ≡ span (suc k) files)
      × (shift_backups k files 1 ≡ none)
      × ((i : ℕ) → suc k < i → shift_backups k files i ≡ files i)
unfolding shift_backups
shift_backups-span zero files e = (refl, e, λ i h. refl)
shift_backups-span (suc k) files e =
    let moved = move_file (suc k) (suc (suc k)) files in
    let (same, free, past) = shift_backups-span k moved (moved_from (suc k) files e) in
    (
      ap₂ (λ a b. bytes a ++ b) (past (suc (suc k)) (omega arith) ∙ moved_to (suc k) files e)
            (same
              ∙ ap (λ a. bytes a ++ span k moved) (moved_from (suc k) files e)
              ∙ span_same k moved files (λ i h.
                ap bytes (moved_past (suc k) files e i (λ q. omega arith) (λ q. omega arith))))
          ∙ ap (λ a. bytes a ++ (bytes (files (suc k)) ++ span k files)) (sym e),
      free,
      λ i h.
          past i (omega arith) ∙ moved_past (suc k) files e i (λ q. omega arith) (λ q. omega arith),
    )

-- The file itself becomes the newest backup.
newest_backup :
    (n : ℕ) (files : ℕ → Option (List ℕ))
    → files 1 ≡ none
    → span (suc n) (update 0 (some []) (move_file 0 1 files)) ≡ span (suc n) files
newest_backup zero files e =
    ap (λ a. bytes a ++ []) (moved_to 0 files e)
    ∙ append-nil (bytes (files 0))
    ∙ ap (λ a. bytes a ++ bytes (files 0)) (sym e)
newest_backup (suc n) files e =
    ap₂ (λ a b. bytes a ++ b)
      (update_other 0 (suc (suc n)) _ (move_file 0 1 files) (λ q. omega arith)
        ∙ moved_past 0 files e (suc (suc n)) (λ q. omega arith) (λ q. omega arith))
      (newest_backup n files e)

-- Taking the oldest backup away.
oldest_removed :
    (n : ℕ) (files : ℕ → Option (List ℕ))
    → bytes (files (suc n)) ++ span (suc n) (update (suc n) none files) ≡ span (suc n) files
oldest_removed n files = ap (λ b. bytes (files (suc n)) ++ b) rest
  where
    gone : update (suc n) none files (suc n) ≡ none
    gone = rw (==_refl (suc n)) refl

    rest : span (suc n) (update (suc n) none files) ≡ span n files
    rest =
        ap (λ a. bytes a ++ span n (update (suc n) none files)) gone
        ∙ span_same n (update (suc n) none files) files
            (λ i h. ap bytes (update_other (suc n) i none files (λ q. omega arith)))

abbrev SameBytes : ℕ → Writer → Writer → Type 0
SameBytes n w w' =
    (w'.deleted ++ span n w'.file ≡ w.deleted ++ span n w.file) × (w'.file 0 ≡ some [])

bytes_kept : (n : ℕ) (w : Writer) → SameBytes n w (rotate_files (record w { max_backup_files = n }))
unfolding rotate_files
bytes_kept zero w = (append-nil (w.deleted ++ bytes (w.file 0)), refl)
bytes_kept (suc k) w = (
  append_assoc w.deleted (bytes (w.file (suc k))) _
      ∙ ap (λ b. w.deleted ++ b)
          (ap (λ b. bytes (w.file (suc k)) ++ b) moved ∙ oldest_removed k w.file),
  refl,
)
  where
    cleared : ℕ → Option (List ℕ)
    cleared = update (suc k) none w.file

    shifted :
        (span (suc k) (shift_backups k cleared) ≡ span (suc k) cleared)
        × (shift_backups k cleared 1 ≡ none)
        × ((i : ℕ) → suc k < i → shift_backups k cleared i ≡ cleared i)
    shifted = shift_backups-span k cleared (rw (==_refl (suc k)) refl)

    moved :
        span (suc k) (update 0 (some []) (move_file 0 1 (shift_backups k cleared)))
        ≡ span (suc k) cleared
    moved = newest_backup k (shift_backups k cleared) shifted.1 ∙ shifted.0

-- A rotation loses no byte but those it deletes, and keeps the order of the rest: the bytes of the
-- oldest backup, or of the file where there are to be no backups, are deleted, those of every other
-- file move up by one, and the file is empty.
pub rotate_files-span :
    (w : Writer)
    → ((rotate_files w).deleted ++ span w.max_backup_files (rotate_files w).file
        ≡ w.deleted ++ span w.max_backup_files w.file)
      × ((rotate_files w).file 0 ≡ some [])
rotate_files-span w = bytes_kept w.max_backup_files w
