-- ===== src/MiniReactor/Connection.antt =====
-- `TcpConnection` of code/MiniReactor/src/net/TcpConnection.cpp, on the thread of its loop. What the kernel
-- answers to the calls of `send` and `read` is a list; where it ends, the socket would block. The
-- callback for messages is a parameter, and the one for the close is counted.
pub mod Sound
pub mod Write
pub mod Close
pub mod Emptied
pub mod Run
use unix_notes.Prelude.{
  ap₂, get_or, take_all, get_or-append_last, get_or-append_ne, add_size_exact, sub_size, pick, sum,
  sum-append, Picked, pick-Picked, ℕ, zero, suc, ◌+◌, ◌-◌, ◌*◌, ◌/◌, ◌%◌, ◌^◌, ◌≤◌, ◌<◌, ◌≡◌, refl,
  sym, ap, subst, ◌∙◌, ◌≢◌, ◌⊎◌, inl, inr, Bool, true, false, not, ◌&&◌, ◌||◌, List, [], ◌∷◌, ◌++◌,
  map, Option, none, some, arith, length, length-append, length-drop, ltb, leb, ◌==◌, if◌then◌else◌,
  Bool-cases, ℤ, pos, negsuc, add_size, size_limit, min, codes, Outcome, ok, throws, blocks,
  undefined, ◌>>=◌, ◌>>◌, throw_if, require, wait, wait_until, All, All-append, Returns,
  Returns-bind, Returns-map, Returns-both, take, drop, append-nil, append_assoc, ==_refl, ==_ne,
  ltb→lt, leb→le, lt→ltb, le→leb, IsInt32, ok-injective, logic_error, invalid_argument,
  runtime_error, length_error, out_of_range,
}
use unix_notes.MiniReactor.Buffer.{Buffer, append, retrieve, readable_bytes, peek}
use unix_notes.MiniReactor.Buffer

pub data State : Type 0 where
  connecting connected disconnecting disconnected : State

-- `wrote n` is of `n + 1` bytes, or of all there are if these are fewer.
pub data SendResult : Type 0 where
  wrote : ℕ → SendResult
  interrupted would_block broken : SendResult

pub data ReadResult : Type 0 where
  got : List ℕ → ReadResult
  end_of_file again no_more fault : ReadResult

-- How the loop of `handleRead` ends.
pub data Ending : Type 0 where
  waits ended failed : Ending

-- `accepted` are the bytes that `sendInLoop` has taken on, `wire` those that the kernel has taken, and
-- `dropped` those of a message that was being sent when the connection broke. `shut` is whether the
-- write side has been shut down, and `closes` counts the calls of the close callback.
pub record Connection : Type 0 where
  pub state : State
  pub reading : Bool
  pub writing : Bool
  pub input : Buffer
  pub output : Buffer
  pub accepted : List ℕ
  pub wire : List ℕ
  pub dropped : List ℕ
  pub shut : Bool
  pub closes : ℕ

abbrev pub is_connected : State → Bool
is_connected connected = true
is_connected _ = false

abbrev pub is_disconnecting : State → Bool
is_disconnecting disconnecting = true
is_disconnecting _ = false

abbrev pub is_disconnected : State → Bool
is_disconnected disconnected = true
is_disconnected _ = false

unfoldable pub new : Connection
new = record {
  state = connecting;
  reading = false;
  writing = false;
  input = Buffer.new;
  output = Buffer.new;
  accepted = [];
  wire = [];
  dropped = [];
  shut = false;
  closes = 0;
}

unfoldable pub connect_established : Connection → Connection
connect_established c = record c { state = connected; reading = true }

unfoldable pub connect_destroyed : Connection → Connection
connect_destroyed c =
    if is_disconnected c.state
    then c
    else record c { state = disconnected; reading = false; writing = false }

unfoldable pub handle_close : Connection → Connection
handle_close c =
    if is_disconnected c.state
    then c
    else record c { state = disconnected; reading = false; writing = false; closes = c.closes + 1 }

-- `handleError` reads the socket's error for the log.
unfoldable pub handle_error : Connection → Connection
unfolding handle_close
handle_error c = handle_close c

-- The loop of `sendInLoop`: what is sent, what is left, and whether the connection is broken.
unfoldable pub send_all : List SendResult → List ℕ → List ℕ × List ℕ × Bool
send_all [] bytes = ([], bytes, false)
send_all (wrote n ∷ results) bytes =
    let (gone, left, broke) = send_all results (drop (suc n) bytes) in
    if length (drop (suc n) bytes) == 0
    then (bytes, [], false)
    else (take (suc n) bytes ++ gone, left, broke)
send_all (interrupted ∷ results) bytes = send_all results bytes
send_all (would_block ∷ results) bytes = ([], bytes, false)
send_all (broken ∷ results) bytes = ([], bytes, true)

-- What remains goes into the buffer.
unfoldable pub queue_rest : List ℕ → Connection → Outcome Connection
queue_rest left c =
    if length left == 0
    then ok c
    else do output ← append left c.output; ok (record c { output = output; writing = true })

unfoldable pub after_send : List ℕ × List ℕ × Bool → Connection → Outcome Connection
unfolding queue_rest handle_close
after_send (gone, left, broke) c =
    let sent = record c { wire = c.wire ++ gone } in
    if broke then ok (handle_close (record sent { dropped = left })) else queue_rest left sent

unfoldable pub send_in_loop : List SendResult → List ℕ → Connection → Outcome Connection
unfolding after_send queue_rest
send_in_loop results message c =
    if not (is_connected c.state) || length message == 0
    then ok c
    else let taken_on = record c { accepted = c.accepted ++ message } in
      if not c.writing && readable_bytes c.output == 0
      then after_send (send_all results message) taken_on
      else queue_rest message taken_on

unfoldable pub shutdown_in_loop : Connection → Connection
shutdown_in_loop c =
    if is_connected c.state
    then record c { state = disconnecting; shut = if c.writing then c.shut else true }
    else c

unfoldable pub force_close_in_loop : Connection → Connection
unfolding handle_close
force_close_in_loop c =
    if is_connected c.state || is_disconnecting c.state then handle_close c else c

-- The loop of `handleWrite`, and whether it has emptied the buffer.
unfoldable pub drain : List SendResult → Connection → Outcome (Connection × Bool)
unfolding handle_close
drain [] c = ok (c, readable_bytes c.output == 0)
drain (wrote n ∷ results) c = if readable_bytes c.output == 0 then ok (c, true) else do
  let sent = take (min (suc n) (readable_bytes c.output)) (peek c.output)
  output ← retrieve (min (suc n) (readable_bytes c.output)) c.output
  drain results (record c { output = output; wire = c.wire ++ sent })
drain (interrupted ∷ results) c =
    if readable_bytes c.output == 0 then ok (c, true) else drain results c
drain (would_block ∷ results) c = ok (c, readable_bytes c.output == 0)
drain (broken ∷ results) c =
    if readable_bytes c.output == 0 then ok (c, true) else ok (handle_close c, false)

abbrev pub written_out : Connection × Bool → Connection
written_out (c, emptied) =
    if emptied
    then record c { writing = false; shut = if is_disconnecting c.state then true else c.shut }
    else c

unfoldable pub handle_write : List SendResult → Connection → Outcome Connection
unfolding drain
handle_write results c =
    if not c.writing then ok c else do drained ← drain results c; ok (written_out drained)

-- The loop of `handleRead`: the connection, whether data has come, and how it ends.
unfoldable pub read_all :
    List ReadResult → (received : Bool) → Connection → Outcome (Connection × Bool × Ending)
read_all [] received c = ok (c, received, waits)
read_all (got bytes ∷ results) received c = do
  input ← append bytes c.input
  read_all results true (record c { input = input })
read_all (end_of_file ∷ results) received c = ok (c, received, ended)
read_all (again ∷ results) received c = read_all results received c
read_all (no_more ∷ results) received c = ok (c, received, waits)
read_all (fault ∷ results) received c = ok (c, received, failed)

module _ (message_callback : Connection → Outcome Connection) where
  unfoldable pub delivered : Connection × Bool × Ending → Outcome Connection
  unfolding handle_close
  delivered (c, received, waits) = if received then message_callback c else ok c
  delivered (c, received, ended) = do
    after ← (if received then message_callback c else ok c)
    ok (handle_close after)
  delivered (c, received, failed) = ok (handle_close c)

  unfoldable pub handle_read : List ReadResult → Connection → Outcome Connection
  unfolding read_all delivered
  handle_read results c = read_all results false c >>= delivered
