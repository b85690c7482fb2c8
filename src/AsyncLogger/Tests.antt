-- ===== src/AsyncLogger/Tests.antt =====
-- Two producers and the consumer on a ring of two cells, and on a ring of one; a record that makes the
-- worker rotate its files.
use unix_notes.Prelude.{
  true, none, some, Option, Outcome, ℕ, ◌+◌, ◌≤◌, ◌≡◌, refl, List, [], ◌∷◌, arith, length, ok, take,
}
use unix_notes.AsyncLogger.Ring.{
  Step, new, look_step, exchange_step, publish_step, can_dequeue, dequeue_step, step, run, look,
  publish, exchange, dequeue,
}
use unix_notes.AsyncLogger.Writer.{
  Writer, Disk, update, write_active_buffer, flush_output, move_file, shift_backups, rotate_files,
  fits, rotate_if_needed, put, append_record,
}
use unix_notes.AsyncLogger.Writer.Bytes.{OrFails, Sound}
use unix_notes.AsyncLogger.Writer.Append.{Appended, append_record-Appended}
use unix_notes.AsyncLogger.Ring.Fifo.{fresh, ring_fifo}

-- The second producer takes its position first and fills its cell last.
abbrev crossed : List (Step ℕ)
crossed =
    look 0
    ∷ exchange 0 7
    ∷ look 1
    ∷ exchange 1 8
    ∷ publish 1
    ∷ dequeue
    ∷ publish 0
    ∷ dequeue
    ∷ dequeue
    ∷ []

ring_fifo_example :
    (new {T = ℕ} 0 2 ≡ ok (fresh 0 2))
    × (let s = run crossed (fresh 0 2) in
        (s.taken ≡ take (length s.taken) s.claimed)
        × (length s.taken ≤ length s.claimed)
        × (length s.claimed ≤ length s.taken + 2))
ring_fifo_example = ring_fifo 0 2 crossed (omega arith) (omega arith)

crossed_taken : (run crossed (fresh 0 2)).taken ≡ 7 ∷ 8 ∷ []
unfolding run step look_step exchange_step publish_step dequeue_step can_dequeue
crossed_taken = refl

abbrev two_claimed : List (Step ℕ)
two_claimed = look 0 ∷ exchange 0 7 ∷ look 1 ∷ exchange 1 8 ∷ []

-- With one cell a second producer finds the cell of the first free, and the consumer gets nothing.
abbrev one_cell : List (Step ℕ)
one_cell = look 0 ∷ exchange 0 7 ∷ publish 0 ∷ look 1 ∷ exchange 1 8 ∷ publish 1 ∷ dequeue ∷ []

one_cell_lost : (run one_cell (fresh {T = ℕ} 0 1)).taken ≡ []
unfolding run step look_step exchange_step publish_step dequeue_step can_dequeue
one_cell_lost = refl

-- Five bytes in the file, three in the buffer, ten allowed.
abbrev nearly_full : Writer
nearly_full = record {
  max_file_size = 10;
  max_backup_files = 1;
  batch_buffer_size = 8;
  active = 6 ∷ 7 ∷ 8 ∷ [];
  active_records = 1;
  current_file_size = 5;
  written_count = 2;
  file = update 0 (some (1 ∷ 2 ∷ 3 ∷ 4 ∷ 5 ∷ [])) (λ i. none);
  deleted = [];
}

abbrev working : Disk
working = record { writes = true; flushes = true; removes = true; renames = true; opens = true }

nearly_full-Sound : Sound nearly_full
nearly_full-Sound = record {
  file_size = refl;
  in_buffer = omega arith;
  room = omega arith;
  small = omega arith;
}

append_record-Appended_example :
    OrFails
      (Appended (9 ∷ 9 ∷ 9 ∷ []) nearly_full)
      (append_record working (9 ∷ 9 ∷ 9 ∷ []) nearly_full)
append_record-Appended_example =
    append_record-Appended working (9 ∷ 9 ∷ 9 ∷ []) nearly_full nearly_full-Sound (omega arith)

-- The file and its backup after that record.
abbrev rotated : Outcome Writer → Option (List ℕ) × Option (List ℕ) × List ℕ
rotated (ok w) = (w.file 0, w.file 1, w.active)
rotated _ = (none, none, [])

rotated_once :
    rotated (append_record working (9 ∷ 9 ∷ 9 ∷ []) nearly_full)
    ≡ (some [], some (1 ∷ 2 ∷ 3 ∷ 4 ∷ 5 ∷ 6 ∷ 7 ∷ 8 ∷ []), 9 ∷ 9 ∷ 9 ∷ [])
unfolding append_record rotate_if_needed write_active_buffer flush_output rotate_files shift_backups
    move_file fits put
rotated_once = refl
