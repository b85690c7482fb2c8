-- ===== src/MiniReactor/Connection/Run.antt =====
-- `TcpConnection` of code/MiniReactor/src/net/TcpConnection.cpp over all that may happen to it.
use unix_notes.Prelude.{
  replicate, ℕ, ◌+◌, ◌≤◌, ◌≡◌, refl, inl, inr, Bool, true, false, List, [], ◌∷◌, ◌++◌, arith,
  length, if◌then◌else◌, Outcome, ok, ◌>>=◌, Returns, Returns-bind,
}
use unix_notes.MiniReactor.Buffer.{Buffer, append, retrieve, readable_bytes, peek, max_size}
use unix_notes.MiniReactor.Buffer
use unix_notes.MiniReactor.Buffer.Refine.{Holds}
use unix_notes.MiniReactor.Buffer.Text.{append-Holds}
use unix_notes.MiniReactor.Connection.{
  SendResult, ReadResult, got, end_of_file, again, no_more, fault, Ending, waits, ended, failed,
  Connection, new, connect_established, connect_destroyed, handle_close, handle_error, send_in_loop,
  shutdown_in_loop, force_close_in_loop, handle_write, read_all, delivered, handle_read,
}
use unix_notes.MiniReactor.Connection.Sound.{Sound, handle_close-Sound, send_in_loop-Sound}
use unix_notes.MiniReactor.Connection.Write.{handle_write-Sound}
use unix_notes.MiniReactor.Connection.Close.{
  shutdown_in_loop-Sound, force_close_in_loop-Sound, connect_destroyed-Sound,
}

-- What the loop calls.
pub data Event : Type 0 where
  sends : List SendResult → (message : List ℕ) → Event
  writes : List SendResult → Event
  reads : List ReadResult → Event
  shuts force_closes closed erred destroyed : Event

-- There is room in the input buffer for what is read, however it stands then.
abbrev pub ReadFits : List ReadResult → Buffer → Type 0
ReadFits (got bytes ∷ results) b =
    (b.writer_index + length bytes ≤ max_size)
    × ((b' : Buffer) → append bytes b ≡ ok b' → ReadFits results b')
ReadFits (again ∷ results) b = ReadFits results b
ReadFits _ b = Unit {0}

module _ (callback : Connection → Outcome Connection) where
  unfoldable pub step : Event → Connection → Outcome Connection
  step (sends results message) c = send_in_loop results message c
  step (writes results) c = handle_write results c
  step (reads results) c = handle_read callback results c
  step shuts c = ok (shutdown_in_loop c)
  step force_closes c = ok (force_close_in_loop c)
  step closed c = ok (handle_close c)
  step erred c = ok (handle_error c)
  step destroyed c = ok (connect_destroyed c)

  abbrev pub Fits : Event → Connection → Type 0
  Fits (sends results message) c = c.output.writer_index + length message ≤ max_size
  Fits (reads results) c = ReadFits results c.input
  Fits _ c = Unit {0}

  unfoldable pub run : List Event → Connection → Outcome Connection
  unfolding step
  run [] c = ok c
  run (e ∷ events) c = step e c >>= run events

  -- The buffers have room for what comes, at each step.
  abbrev pub AllFit : List Event → Connection → Type 0
  AllFit [] c = Unit {0}
  AllFit (e ∷ events) c = Fits e c × ((d : Connection) → step e c ≡ ok d → AllFit events d)

abbrev AfterRead : Connection × Bool × Ending → Type 0
AfterRead (c, received, ending) = Sound c

read_all-Sound :
    (results : List ReadResult) (received : Bool) (c : Connection)
    → ReadFits results c.input
    → Sound c
    → Returns (read_all results received c) AfterRead
unfolding read_all
read_all-Sound [] received c fits h = (_, refl, h)
read_all-Sound (got bytes ∷ results) received c (room, later) h =
    let (input, e, held) = append-Holds bytes c.input h.unread h.entered room in
    rw e (
      read_all-Sound results true (record c { input = input }) (later input e)
        (record {
          unsent = h.unsent;
          unread = h.unread ++ bytes;
          held = h.held;
          entered = held;
          books = h.books;
          kept = h.kept;
          interest = h.interest;
          half = h.half;
          once = h.once;
        }))
read_all-Sound (again ∷ results) received c fits h = read_all-Sound results received c fits h
read_all-Sound (end_of_file ∷ results) received c fits h = (_, refl, h)
read_all-Sound (no_more ∷ results) received c fits h = (_, refl, h)
read_all-Sound (fault ∷ results) received c fits h = (_, refl, h)

module _ (callback : Connection → Outcome Connection)
    (keeps : (c : Connection) → Sound c → Returns (callback c) Sound) where
  called-Sound :
      (received : Bool) (c : Connection)
      → Sound c
      → Returns (if received then callback c else ok c) Sound
  called-Sound true c h = keeps c h
  called-Sound false c h = (c, refl, h)

  delivered-Sound :
      (r : Connection × Bool × Ending) → AfterRead r → Returns (delivered callback r) Sound
  unfolding delivered
  delivered-Sound (c, received, waits) h = called-Sound received c h
  delivered-Sound (c, received, ended) h =
      Returns-bind Sound _ (called-Sound received c h) (λ d k. (_, refl, handle_close-Sound d k))
  delivered-Sound (c, received, failed) h = (_, refl, handle_close-Sound c h)

  step-Sound :
      (e : Event) (c : Connection) → Fits callback e c → Sound c → Returns (step callback e c) Sound
  unfolding step handle_read handle_error
  step-Sound (sends results message) c fits h = send_in_loop-Sound results message c fits h
  step-Sound (writes results) c fits h = handle_write-Sound results c h
  step-Sound (reads results) c fits h =
      Returns-bind Sound _ (read_all-Sound results false c fits h) (λ r k. delivered-Sound r k)
  step-Sound shuts c fits h = (_, refl, shutdown_in_loop-Sound c h)
  step-Sound force_closes c fits h = (_, refl, force_close_in_loop-Sound c h)
  step-Sound closed c fits h = (_, refl, handle_close-Sound c h)
  step-Sound erred c fits h = (_, refl, handle_close-Sound c h)
  step-Sound destroyed c fits h = (_, refl, connect_destroyed-Sound c h)

  -- While the buffers have room, and the message callback keeps the connection sound, every handler
  -- returns and the connection stays sound, whatever the kernel answers: the bytes that it has taken
  -- on are those on the wire followed by those in the output buffer, in order, and by those of a
  -- message given up when it broke; while it is open it waits to write just if the buffer holds bytes;
  -- the write side is shut down only once every byte is on the wire and no more can come; the close
  -- callback is called once at most, and only when it is closed.
  pub run-Sound :
      (events : List Event) (c : Connection)
      → AllFit callback events c
      → Sound c
      → Returns (run callback events c) Sound
  unfolding run
  run-Sound [] c fits h = (c, refl, h)
  run-Sound (e ∷ events) c (fits, later) h =
      let (d, same, k) = step-Sound e c fits h in rw same (run-Sound events d (later d same) k)

pub established-Sound : Sound (connect_established new)
unfolding connect_established new Buffer.new
established-Sound = record {
  unsent = [];
  unread = [];
  held = fresh;
  entered = fresh;
  books = refl;
  kept = inl refl;
  interest = inr (refl, inl (refl, refl));
  half = inl refl;
  once = inl refl;
}
  where
    fresh : Holds Buffer.new []
    fresh = record {
      front = replicate 8 0;
      back = replicate 1024 0;
      parts = refl;
      reader_at = refl;
      writer_at = refl;
      room = omega arith;
      small = omega arith;
    }
