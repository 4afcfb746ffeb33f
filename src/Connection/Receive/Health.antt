-- ===== src/Connection/Receive/Health.antt =====
-- Which outcomes of `receive` leave the connection usable.
use pod_os_py_client.Prelude.{
  Bool, sym, ◌∙◌, ◌≢◌, true, false, Bool-cases, Option-cases, inl, inr, ◌≡◌, refl, arith, ◌&&◌,
}
use pod_os_py_client.Prelude.Int.{ℤ, pos, negsuc}
use pod_os_py_client.Prelude.Text.{Bytes}
use pod_os_py_client.Connection.Prefix.{is_valid_length_prefix}
use pod_os_py_client.Connection.Receive.{
  Stream, Read, got, timed_out, incomplete, failed, blocked, read_exactly, Connection, Received,
  received, not_connected, receive_idle_timeout, connection_lost, waiting, receive_body,
  receive_prefixed, prefix_result, receive, message_length,
}

-- Whether an outcome leaves a connection that was up, up.
abbrev pub is_benign : Received → Bool
is_benign (received b) = true
is_benign not_connected = false
is_benign receive_idle_timeout = true
is_benign connection_lost = false
is_benign waiting = true

body-benign :
    (body_timed : Bool) (prefix : Bytes) (n : ℤ) (c : Connection) (s : Stream)
    → c.connected ≡ true
    → let r = receive_body body_timed prefix n c s in r.1.connected ≡ is_benign r.0
unfolding receive_body read_exactly
body-benign body_timed prefix (negsuc n) c s h = ground arith
body-benign body_timed prefix (pos n) c s h = ground arith

prefixed-benign :
    (body_timed : Bool) (prefix : Bytes) (c : Connection) (s : Stream)
    → c.connected ≡ true
    → let r = receive_prefixed body_timed prefix c s in r.1.connected ≡ is_benign r.0
unfolding receive_prefixed
prefixed-benign body_timed prefix c s h = elim (Bool-cases (is_valid_length_prefix prefix)) [
  | inl valid ↦ elim (Option-cases (message_length prefix)) [
    | inl missing ↦ rw (valid, missing) refl
    | inr (n, found) ↦ rw (valid, found) (body-benign body_timed prefix n c s h)
  ]
  | inr invalid ↦ rw invalid refl
]

first-benign :
    (body_timed : Bool) (c : Connection) (r : Read × Stream)
    → c.connected ≡ true
    → let out = prefix_result body_timed c r in out.1.connected ≡ is_benign out.0
first-benign body_timed c (got prefix, s) h = prefixed-benign body_timed prefix c s h
first-benign body_timed c (timed_out, s) h = h
first-benign body_timed c (incomplete, s) h = refl
first-benign body_timed c (failed, s) h = refl
first-benign body_timed c (blocked, s) h = h

pub receive_ready :
    (timed body_timed : Bool) (c : Connection) (s : Stream)
    → (c.connected && c.reader) ≡ true
    → receive timed body_timed c s ≡ prefix_result body_timed c (read_exactly 9 timed s)
unfolding receive
receive_ready timed body_timed c s h = rw h refl

receive_down :
    (timed body_timed : Bool) (c : Connection) (s : Stream)
    → c.connected ≡ false
    → receive timed body_timed c s ≡ (not_connected, c, s)
unfolding receive
receive_down timed body_timed c s h = simp h

up_after :
    (timed body_timed : Bool) (c : Connection) (s : Stream)
    → c.connected ≡ true
    → c.reader ≡ true
    → let r = receive timed body_timed c s in r.1.connected ≡ is_benign r.0
up_after timed body_timed c s up reader =
    rw (receive_ready timed body_timed c s (ground (arith, up, reader)))
      (first-benign body_timed c (read_exactly 9 timed s) up)

-- On a connection that is up, the connection is up after `receive` exactly when a message was
-- received, the wait for one was idle, or the call is still waiting; after any other outcome the next
-- call, on whatever stream, reads nothing and reports that the connection is down.
pub receive-is_benign :
    (timed body_timed : Bool) (c : Connection) (s : Stream)
    → c.connected ≡ true
    → c.reader ≡ true
    → let r = receive timed body_timed c s in
      (r.1.connected ≡ is_benign r.0)
      × (is_benign r.0 ≡ false
          → (later : Stream) → receive timed body_timed r.1 later ≡ (not_connected, r.1, later))
receive-is_benign timed body_timed c s up reader =
    let kept = up_after timed body_timed c s up reader in
    (kept, λ bad later. receive_down timed body_timed _ later (kept ∙ bad))

idle_read : (timed : Bool) (s more : Stream) → read_exactly 9 timed s ≡ (timed_out, more) → more ≡ s
unfolding read_exactly
idle_read timed s more h = ground arith

-- A body never ends in an idle timeout.
body_not_idle :
    (body_timed : Bool) (prefix : Bytes) (n : ℤ) (c d : Connection) (s t : Stream)
    → receive_body body_timed prefix n c s ≢ (receive_idle_timeout, d, t)
unfolding receive_body read_exactly
body_not_idle body_timed prefix (negsuc n) c d s t h = ground arith
body_not_idle body_timed prefix (pos n) c d s t h = ground arith

prefixed_not_idle :
    (body_timed : Bool) (prefix : Bytes) (c d : Connection) (s t : Stream)
    → receive_prefixed body_timed prefix c s ≢ (receive_idle_timeout, d, t)
unfolding receive_prefixed
prefixed_not_idle body_timed prefix c d s t h = elim (Bool-cases (is_valid_length_prefix prefix)) [
  | inl valid ↦ elim (Option-cases (message_length prefix)) [
    | inl missing ↦ ground (arith, h, valid, missing)
    | inr (n, found) ↦ body_not_idle body_timed prefix n c d s t (rw (valid, found) at h)
  ]
  | inr invalid ↦ ground (arith, h, invalid)
]

idle_first :
    (body_timed : Bool) (c d : Connection) (r : Read × Stream) (t : Stream)
    → prefix_result body_timed c r ≡ (receive_idle_timeout, d, t)
    → (d ≡ c) × (r ≡ (timed_out, t))
idle_first body_timed c d (got prefix, s) t h =
    elim (prefixed_not_idle body_timed prefix c d s t h) [ ]
idle_first body_timed c d (timed_out, s) t h = ground arith
idle_first body_timed c d (incomplete, s) t h = ground arith
idle_first body_timed c d (failed, s) t h = ground arith
idle_first body_timed c d (blocked, s) t h = ground arith

-- When `receive` ends in an idle timeout, on a connection that is up, no byte of the stream was taken
-- and the connection is as it was: the next call starts at the same frame.
pub receive_idle-unchanged :
    (timed body_timed : Bool) (c d : Connection) (s t : Stream)
    → c.connected ≡ true
    → c.reader ≡ true
    → receive timed body_timed c s ≡ (receive_idle_timeout, d, t)
    → (d ≡ c) × (t ≡ s)
receive_idle-unchanged timed body_timed c d s t up reader h =
    let ready = receive_ready timed body_timed c s (ground (arith, up, reader)) in
    let (same, read) = idle_first body_timed c d (read_exactly 9 timed s) t (sym ready ∙ h) in
    (same, idle_read timed s t read)
