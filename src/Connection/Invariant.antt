-- ===== src/Connection/Invariant.antt =====
-- Sequences of calls on a connection.
use pod_os_py_client.Prelude.{
  Bool, true, false, ◌≡◌, arith, Bool-cases, Option-cases, inl, inr, ◌&&◌,
}
use pod_os_py_client.Prelude.Int.{ℤ, pos, negsuc}
use pod_os_py_client.Prelude.Text.{Str, Bytes}
use pod_os_py_client.Connection.Prefix.{is_valid_length_prefix}
use pod_os_py_client.Connection.Receive.{
  Connection, Stream, Read, got, timed_out, incomplete, failed, blocked, read_exactly, lost,
  receive, receive_body, receive_prefixed, prefix_result, message_length,
}
use pod_os_py_client.Connection.Send.{Opening, Drain, connect, send, close, reconnect}

-- Up only with a reader and a writer.
abbrev pub IsReady : Connection → Type 0
IsReady c = c.connected ≡ true → (c.reader ≡ true) × (c.writer ≡ true)

lost-IsReady : (c : Connection) → IsReady (lost c)
lost-IsReady c = ground arith

connect-IsReady :
    (network : Str) (opening : Opening) (c : Connection) → IsReady (connect network opening c).1
unfolding connect
connect-IsReady network opening c = ground arith

send-IsReady :
    (bytes : Bytes) (drain : Drain) (c : Connection) → IsReady c → IsReady (send bytes drain c).1
unfolding send
send-IsReady bytes drain c h = ground (arith, h)

close-IsReady : (c : Connection) → IsReady (close c)
unfolding close
close-IsReady c = ground arith

body-IsReady :
    (body_timed : Bool) (prefix : Bytes) (n : ℤ) (c : Connection) (s : Stream)
    → IsReady c
    → IsReady (receive_body body_timed prefix n c s).1
unfolding receive_body read_exactly
body-IsReady body_timed prefix (negsuc n) c s h = ground (arith, h)
body-IsReady body_timed prefix (pos n) c s h = ground (arith, h)

prefixed-IsReady :
    (body_timed : Bool) (prefix : Bytes) (c : Connection) (s : Stream)
    → IsReady c
    → IsReady (receive_prefixed body_timed prefix c s).1
unfolding receive_prefixed
prefixed-IsReady body_timed prefix c s h = elim (Bool-cases (is_valid_length_prefix prefix)) [
  | inl valid ↦ elim (Option-cases (message_length prefix)) [
    | inl missing ↦ rw (valid, missing) (lost-IsReady c)
    | inr (n, found) ↦ rw (valid, found) (body-IsReady body_timed prefix n c s h)
  ]
  | inr invalid ↦ rw invalid (lost-IsReady c)
]

first-IsReady :
    (body_timed : Bool) (c : Connection) (r : Read × Stream)
    → IsReady c
    → IsReady (prefix_result body_timed c r).1
first-IsReady body_timed c (got prefix, s) h = prefixed-IsReady body_timed prefix c s h
first-IsReady body_timed c (timed_out, s) h = h
first-IsReady body_timed c (incomplete, s) h = lost-IsReady c
first-IsReady body_timed c (failed, s) h = lost-IsReady c
first-IsReady body_timed c (blocked, s) h = h

receive-IsReady :
    (timed body_timed : Bool) (c : Connection) (s : Stream)
    → IsReady c
    → IsReady (receive timed body_timed c s).1
unfolding receive
receive-IsReady timed body_timed c s h = elim (Bool-cases (c.connected && c.reader)) [
  | inl up ↦ rw up (first-IsReady body_timed c (read_exactly 9 timed s) h)
  | inr down ↦ rw down h
]

-- The connection before the first call, and after one more.
abbrev pub unconnected : Connection
unconnected = record { connected = false; reader = false; writer = false }

pub data Lives : Connection → Type 0 where
  made : Lives unconnected
  connects :
      {c : Connection} (network : Str) (opening : Opening)
      → Lives c
      → Lives (connect network opening c).1
  sends : {c : Connection} (bytes : Bytes) (drain : Drain) → Lives c → Lives (send bytes drain c).1
  receives :
      {c : Connection} (timed body_timed : Bool) (s : Stream)
      → Lives c
      → Lives (receive timed body_timed c s).1
  closes : {c : Connection} → Lives c → Lives (close c)
  reconnects :
      {c : Connection} (network : Str) (opening : Opening)
      → Lives c
      → Lives (reconnect network opening c).1

reconnect-IsReady :
    (network : Str) (opening : Opening) (c : Connection) → IsReady (reconnect network opening c).1
unfolding reconnect
reconnect-IsReady network opening c = connect-IsReady network opening (close c)

-- After any sequence of calls, whatever the network does, a connection that is up has its reader and
-- its writer.
pub Lives-IsReady : (c : Connection) → Lives c → IsReady c
Lives-IsReady c made = ground arith
Lives-IsReady c (connects network opening l) = connect-IsReady network opening _
Lives-IsReady c (sends bytes drain l) = send-IsReady bytes drain _ (Lives-IsReady _ l)
Lives-IsReady c (receives timed body_timed s l) =
    receive-IsReady timed body_timed _ s (Lives-IsReady _ l)
Lives-IsReady c (closes l) = close-IsReady _
Lives-IsReady c (reconnects network opening l) = reconnect-IsReady network opening _
