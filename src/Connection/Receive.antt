-- ===== src/Connection/Receive.antt =====
-- `ConnectionClient.receive`, and the stream that it reads.
pub mod Framing
pub mod Health
use pod_os_py_client.Prelude.{
  ℕ, ◌-◌, ◌≤◌, Bool, true, false, not, List, [], ◌∷◌, ◌++◌, Option, none, some, if◌then◌else◌, leb,
  ltb, length, take, drop, ◌==◌, ◌&&◌, ◌||◌,
}
use pod_os_py_client.Prelude.Int.{ℤ, pos, negsuc}
use pod_os_py_client.Prelude.Text.{Bytes}
use pod_os_py_client.Wire.Integer.{parse_int}
use pod_os_py_client.Connection.Prefix.{is_valid_length_prefix}

-- What happens on a stream behind the bytes that have arrived: nothing, its end, or an error.
pub data Ending : Type 0 where
  quiet : Ending
  ended : Ending
  broken : Ending

-- An asyncio.StreamReader: the bytes that arrive in time, and what follows.
pub record Stream : Type 0 where
  pub buffer : Bytes
  pub ending : Ending

pub data Read : Type 0 where
  got : Bytes → Read
  timed_out : Read
  incomplete : Read
  failed : Read
  blocked : Read

-- `wait_for(reader.readexactly(n), timeout)`. An error is raised also if bytes are left; at the end of
-- the stream the partial data is taken; a read that times out takes nothing. `timed` says whether
-- there is a timeout: with none the read waits for ever on a quiet stream.
unfoldable pub read_exactly : ℕ → Bool → Stream → Read × Stream
read_exactly n timed s = elim s.ending [
  | broken ↦ (failed, s)
  | ended ↦
      if leb n (length s.buffer)
      then (got (take n s.buffer), record s { buffer = drop n s.buffer })
      else (incomplete, record s { buffer = [] })
  | quiet ↦
      if leb n (length s.buffer)
      then (got (take n s.buffer), record s { buffer = drop n s.buffer })
      else (if timed then (timed_out, s) else (blocked, s))
]

pub record Connection : Type 0 where
  pub connected : Bool
  pub reader : Bool
  pub writer : Bool

-- What `receive` returns or raises; `waiting` is a call that does not return.
pub data Received : Type 0 where
  received : Bytes → Received
  not_connected : Received
  receive_idle_timeout : Received
  connection_lost : Received
  waiting : Received

abbrev pub lost : Connection → Connection
lost c = record c { connected = false }

-- The length that a valid prefix states.
unfoldable pub message_length : Bytes → Option ℤ
message_length [] = none
message_length (c ∷ s) = if c == b'x' then parse_int 16 s else parse_int 10 (c ∷ s)

abbrev pub body_result : Bytes → Connection → Read × Stream → Received × Connection × Stream
body_result prefix c (got body, s) = (received (prefix ++ body), c, s)
body_result prefix c (timed_out, s) = (connection_lost, lost c, s)
body_result prefix c (incomplete, s) = (connection_lost, lost c, s)
body_result prefix c (failed, s) = (connection_lost, lost c, s)
body_result prefix c (blocked, s) = (waiting, c, s)

-- Phase 2: the body of a frame of `n` bytes.
unfoldable pub receive_body :
    Bool → Bytes → ℤ → Connection → Stream → Received × Connection × Stream
receive_body body_timed prefix (negsuc n) c s = (received prefix, c, s)
receive_body body_timed prefix (pos n) c s =
    if leb n 9
    then (received prefix, c, s)
    else body_result prefix c (read_exactly (n - 9) body_timed s)

-- The prefix is checked and read.
unfoldable pub receive_prefixed :
    Bool → Bytes → Connection → Stream → Received × Connection × Stream
receive_prefixed body_timed prefix c s =
    if is_valid_length_prefix prefix
    then elim (message_length prefix) [
      | none ↦ (connection_lost, lost c, s)
      | some n ↦ receive_body body_timed prefix n c s
    ]
    else (connection_lost, lost c, s)

abbrev pub prefix_result : Bool → Connection → Read × Stream → Received × Connection × Stream
prefix_result body_timed c (got prefix, s) = receive_prefixed body_timed prefix c s
prefix_result body_timed c (timed_out, s) = (receive_idle_timeout, c, s)
prefix_result body_timed c (incomplete, s) = (connection_lost, lost c, s)
prefix_result body_timed c (failed, s) = (connection_lost, lost c, s)
prefix_result body_timed c (blocked, s) = (waiting, c, s)

-- `timed` and `body_timed` say whether `timeout` and `body_timeout` are set.
unfoldable pub receive : Bool → Bool → Connection → Stream → Received × Connection × Stream
receive timed body_timed c s =
    if c.connected && c.reader
    then prefix_result body_timed c (read_exactly 9 timed s)
    else (not_connected, c, s)
