-- ===== src/AsyncLogger/Writer/Append.antt =====
-- A record through the worker of code/AsyncLogger/src/async_logger.cpp: where its bytes go.
use unix_notes.Prelude.{
  append_assoc, add_size_exact, ℕ, ◌+◌, ◌≤◌, ◌≡◌, refl, sym, ap, subst, ◌∙◌, ◌⊎◌, inl, inr, Bool,
  true, false, not, ◌&&◌, List, [], ◌++◌, arith, length, length-append, ltb, ◌==◌, if◌then◌else◌,
  Bool-cases, add_size, Outcome, ok, throws, blocks, undefined, ◌>>◌, throw_if, le→leb,
  runtime_error,
}
use unix_notes.AsyncLogger.Writer.Rotate.{span}
use unix_notes.AsyncLogger.Writer.{
  Writer, Disk, bytes, write_active_buffer, flush_output, rotate_files, fits, rotate_if_needed, put,
  append_record,
}
use unix_notes.AsyncLogger.Writer.Bytes.{
  OrFails, OrFails-bind, OrFails-guard, whole, Sound, Keeps, Keeps-refl, write_active_buffer-Keeps,
  rotated-Keeps,
}

Keeps-trans : (u v w : Writer) → Keeps u v → Keeps v w → Keeps u w
Keeps-trans u v w a b = record {
  same_bytes = b.same_bytes ∙ a.same_bytes;
  same_batch = b.same_batch ∙ a.same_batch;
  same_max = b.same_max ∙ a.same_max;
  no_larger = omega (arith, a.no_larger, b.no_larger);
  sound = b.sound;
}

-- A record of this size goes where the limit lets it, or there is no limit, or it is the first.
abbrev pub MayTake : ℕ → Writer → Type 0
MayTake size w =
    (w.max_file_size ≡ 0)
    ⊎ ((w.current_file_size + length w.active ≡ 0)
        ⊎ (w.current_file_size + length w.active + size ≤ w.max_file_size))

fits-MayTake : (size : ℕ) (w : Writer) → Sound w → fits size w ≡ true → MayTake size w
unfolding fits
fits-MayTake size w h e = ground (arith, e, h.small)

kept-MayTake : (size : ℕ) (w w' : Writer) → Keeps w w' → MayTake size w → MayTake size w'
kept-MayTake size w w' k m = ground (arith, k.same_max, k.no_larger, m)

flush_output-Keeps :
    (disk : Disk) (w : Writer) (P : Writer → Type 0) → P w → OrFails P (flush_output disk w)
unfolding flush_output
flush_output-Keeps disk w P h = OrFails-guard P (not disk.flushes) (ok w) h

abbrev Ready : ℕ → Writer → Writer → Type 0
Ready size w w' = Keeps w w' × MayTake size w'

rotated_after :
    (size : ℕ) (w written flushed : Writer)
    → flushed ≡ written
    → Keeps w written
    → written.active ≡ []
    → Keeps w (rotate_files flushed) × MayTake size (rotate_files flushed)
rotated_after size w written flushed same k empty =
    subst (λ v. Keeps w (rotate_files v) × MayTake size (rotate_files v)) (sym same)
      (let (kept, none_left) = rotated-Keeps written k.sound empty in
        (Keeps-trans w written (rotate_files written) k kept, inr (inl none_left)))

rotate_if_needed-Keeps :
    (disk : Disk) (size : ℕ) (w : Writer)
    → Sound w
    → OrFails (Ready size w) (rotate_if_needed disk size w)
unfolding rotate_if_needed
rotate_if_needed-Keeps disk size w h = elim (Bool-cases (fits size w)) [
  | inl e ↦ rw e (Keeps-refl w h, fits-MayTake size w h e)
  | inr e ↦ rw e (
      OrFails-bind (Ready size w) (write_active_buffer disk w) _
        (write_active_buffer-Keeps disk w h)
        (λ written (k, empty).
          OrFails-bind (Ready size w) (flush_output disk written) _
            (flush_output-Keeps disk written (λ v. v ≡ written) refl)
            (λ flushed same.
              OrFails-guard (Ready size w)
                (not (w.max_backup_files == 0) && not (disk.removes && disk.renames))
                (throw_if (not disk.opens) runtime_error >> ok (rotate_files flushed))
                (OrFails-guard (Ready size w) (not disk.opens) (ok (rotate_files flushed))
                  (rotated_after size w written flushed same k empty)))))
]

-- Every byte is there in order, with the record's behind them all, and the file is not to grow past
-- the limit, where there is one, but by a record that is larger and alone.
abbrev pub Appended : List ℕ → Writer → Writer → Type 0
Appended formatted w w' =
    (whole w' ≡ whole w ++ formatted)
    × (length w'.active ≤ w'.batch_buffer_size)
    × (w'.current_file_size ≡ length (bytes (w'.file 0)))
    × ((w.max_file_size ≡ 0)
        ⊎ ((w'.current_file_size + length w'.active ≤ w.max_file_size)
            ⊎ (w'.current_file_size + length w'.active ≤ length formatted)))

-- With room for the record the copy is within the buffer.
put_after :
    (formatted : List ℕ) (w rotated : Writer)
    → Keeps w rotated
    → MayTake (length formatted) rotated
    → length rotated.active + length formatted ≤ rotated.batch_buffer_size
    → OrFails (λ w'. Appended formatted w w') (put formatted rotated)
unfolding put
put_after formatted w r k m le = rw (le→leb _ _ le) (
  ap (λ b. r.deleted ++ b) (sym (append_assoc (span r.max_backup_files r.file) r.active formatted))
      ∙ sym (append_assoc r.deleted _ formatted)
      ∙ ap (λ b. b ++ formatted) k.same_bytes,
  omega (arith, le, length-append r.active formatted),
  k.sound.file_size,
  ground (arith, m, k.same_max, length-append r.active formatted),
)

OrFails-weaken :
    {A : Type 0} {P : A → Type 0} (Q : A → Type 0) (o : Outcome A)
    → OrFails P o
    → ((a : A) → P a → Q a)
    → OrFails Q o
OrFails-weaken Q (ok a) p k = k a p
OrFails-weaken Q (throws e) p k = p
OrFails-weaken Q blocks p k = absurd p
OrFails-weaken Q undefined p k = absurd p

abbrev HasRoom : ℕ → Writer → Writer → Type 0
HasRoom size w v = Ready size w v × (length v.active + size ≤ v.batch_buffer_size)

emptied :
    (size : ℕ) (w r v : Writer)
    → Ready size w r
    → Keeps r v
    → v.active ≡ []
    → size ≤ r.batch_buffer_size
    → HasRoom size w v
emptied size w r v (k, m) kept empty le = (
  (Keeps-trans w r v k kept, kept-MayTake size r v kept m),
  omega (arith, ap length empty, kept.same_batch, le),
)

room_made :
    (disk : Disk) (size : ℕ) (w r : Writer)
    → Ready size w r
    → size ≤ r.batch_buffer_size
    → (full : Bool) → ltb r.batch_buffer_size (add_size (length r.active) size) ≡ full
    → OrFails (HasRoom size w) (if full then write_active_buffer disk r else ok r)
room_made disk size w r (k, m) le true e =
    OrFails-weaken (HasRoom size w) (write_active_buffer disk r)
      (write_active_buffer-Keeps disk r k.sound)
      (λ v (kept, empty). emptied size w r v (k, m) kept empty le)
room_made disk size w r (k, m) le false e = (
  (k, m),
  ground (
    arith,
    e,
    k.sound.room,
    add_size_exact (length r.active) size (omega (arith, k.sound.room, le)),
  ),
)

-- A record that fits into the buffer is never copied beyond its end and, unless the file system fails,
-- its bytes come behind all the others, none of which is lost or reordered by writing or rotating, but
-- those of the files deleted; the file size is counted right, and the file, once the buffer is
-- written, does not grow past the limit, where there is one, but by one record that is larger than it.
pub append_record-Appended :
    (disk : Disk) (formatted : List ℕ) (w : Writer)
    → Sound w
    → length formatted ≤ w.batch_buffer_size
    → OrFails (Appended formatted w) (append_record disk formatted w)
unfolding append_record
append_record-Appended disk formatted w h le =
    OrFails-bind (Appended formatted w) (rotate_if_needed disk (length formatted) w) _
      (rotate_if_needed-Keeps disk (length formatted) w h)
      (λ r (k, m).
        OrFails-bind (Appended formatted w)
          (if ltb r.batch_buffer_size (add_size (length r.active) (length formatted))
            then write_active_buffer disk r
            else ok r)
          _ (room_made disk (length formatted) w r (k, m) (omega (arith, le, k.same_batch)) _ refl)
          (λ v ((kept, may), room). put_after formatted w v kept may room))
