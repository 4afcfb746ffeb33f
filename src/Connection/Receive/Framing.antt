-- ===== src/Connection/Receive/Framing.antt =====
-- `receive` on a stream of frames.
use pod_os_py_client.Prelude.{
  ℕ, zero, suc, ◌+◌, ◌-◌, ◌^◌, ◌<◌, Bool, true, false, List, [], ◌∷◌, ◌++◌, append_assoc, map, some,
  ◌≡◌, ◌≢◌, refl, sym, arith, leb, length, length-append, le→leb, ◌&&◌, All, all, take-append_exact,
  drop-append_exact,
}
use pod_os_py_client.Prelude.Int.{pos}
use pod_os_py_client.Prelude.Text.{Str, Bytes, concat}
use pod_os_py_client.Wire.Integer.{size_field}
use pod_os_py_client.Wire.Integer.Laws.{length-size_field, parse_int-size_digits}
use pod_os_py_client.Wire.Integer.Digits.{zfill-IsDigitChar, IsDigitChar}
use pod_os_py_client.Wire.Framing.{IsFrame}
use pod_os_py_client.Connection.Prefix.{is_valid_length_prefix, is_hex_digit}
use pod_os_py_client.Connection.Receive.Health.{receive_ready}
use pod_os_py_client.Connection.Receive.{
  Ending, quiet, ended, broken, Stream, got, read_exactly, Connection, Received, received,
  receive_body, receive_prefixed, receive, message_length,
}

hex_digit : (c : ℕ) → IsDigitChar c → is_hex_digit c ≡ true
hex_digit c h = ground arith

hex_digits : (s : Str) → All IsDigitChar s → all is_hex_digit s ≡ true
hex_digits [] h = refl
hex_digits (c ∷ s) h = simp (hex_digit c h.0, hex_digits s h.1)

x_prefix :
    (s : Str) → length s ≡ 8 → all is_hex_digit s ≡ true → is_valid_length_prefix (b'x' ∷ s) ≡ true
unfolding is_valid_length_prefix
x_prefix s n h = rw (n, h) refl

-- The size field that the encoder writes is a valid prefix, and states its number.
pub size_field-valid : (n : ℕ) → n < 16 ^ 8 → is_valid_length_prefix (size_field n) ≡ true
unfolding size_field
size_field-valid n h =
    x_prefix _ (omega (arith, length-size_field n h))
      (hex_digits _ (zfill-IsDigitChar 8 16 n (omega arith) (omega arith)))

pub message_length-size_field : (n : ℕ) → n < 16 ^ 8 → message_length (size_field n) ≡ some (pos n)
unfolding message_length size_field
message_length-size_field n h = parse_int-size_digits n h

gt→leb : (a b : ℕ) → b < a → leb a b ≡ false
gt→leb a b h = ground arith

add_sub : (a b : ℕ) → a + b - a ≡ b
add_sub a b = omega arith

-- A stream whose next bytes are known gives them.
read_ahead :
    (timed : Bool) (e : Ending) (n : ℕ) (bytes rest : Bytes)
    → e ≢ broken
    → length bytes ≡ n
    → read_exactly n timed (record { buffer = bytes ++ rest; ending = e })
      ≡ (got bytes, record { buffer = rest; ending = e })
unfolding read_exactly
read_ahead timed quiet n bytes rest h size =
    rw
      (
        sym size,
        le→leb (length bytes) (length (bytes ++ rest)) (omega (arith, length-append bytes rest)),
        take-append_exact bytes rest,
        drop-append_exact bytes rest,
      )
      refl
read_ahead timed ended n bytes rest h size =
    rw
      (
        sym size,
        le→leb (length bytes) (length (bytes ++ rest)) (omega (arith, length-append bytes rest)),
        take-append_exact bytes rest,
        drop-append_exact bytes rest,
      )
      refl
read_ahead timed broken n bytes rest h size = elim (h refl) [ ]

body_read :
    (body_timed : Bool) (c : Connection) (e : Ending) (prefix body rest : Bytes)
    → e ≢ broken
    → 0 < length body
    → receive_body body_timed prefix
        (pos (9 + length body))
        c
        (record { buffer = body ++ rest; ending = e })
      ≡ (received (prefix ++ body), c, record { buffer = rest; ending = e })
unfolding receive_body
body_read body_timed c e prefix body rest alive some_body =
    rw
      (
        gt→leb (9 + length body) 9 (omega arith),
        add_sub 9 (length body),
        read_ahead body_timed e (length body) body rest alive refl,
      )
      refl

prefix_read :
    (body_timed : Bool) (c : Connection) (e : Ending) (body rest : Bytes)
    → e ≢ broken
    → 0 < length body
    → 9 + length body < 16 ^ 8
    → receive_prefixed body_timed
        (size_field (9 + length body))
        c
        (record { buffer = body ++ rest; ending = e })
      ≡ (received (size_field (9 + length body) ++ body), c, record { buffer = rest; ending = e })
unfolding receive_prefixed
prefix_read body_timed c e body rest alive some_body fits =
    rw (size_field-valid (9 + length body) fits, message_length-size_field (9 + length body) fits)
      (body_read body_timed c e (size_field (9 + length body)) body rest alive some_body)

-- The next frame of a stream that has not failed is received whole, and what follows it is left.
pub receive-frame :
    (timed body_timed : Bool) (c : Connection) (e : Ending) (wire rest : Bytes)
    → (c.connected && c.reader) ≡ true
    → e ≢ broken
    → IsFrame wire
    → receive timed body_timed c (record { buffer = wire ++ rest; ending = e })
      ≡ (received wire, c, record { buffer = rest; ending = e })
receive-frame timed body_timed c e wire rest up alive (body, some_body, fits, shape) =
    rw
      (
        shape,
        append_assoc (size_field (9 + length body)) body rest,
        receive_ready timed body_timed c
            (record { buffer = size_field (9 + length body) ++ (body ++ rest); ending = e }) up,
        read_ahead timed e 9 (size_field (9 + length body)) (body ++ rest) alive
            (length-size_field _ fits),
      )
      (prefix_read body_timed c e body rest alive some_body fits)

-- `receive`, called again and again.
unfoldable pub receive_times :
    ℕ → Bool → Bool → Connection → Stream → List Received × Connection × Stream
receive_times zero timed body_timed c s = ([], c, s)
receive_times (suc n) timed body_timed c s =
    let (r, d, t) = receive timed body_timed c s in
    let (rs, f, u) = receive_times n timed body_timed d t in (r ∷ rs, f, u)

receive_none :
    (timed body_timed : Bool) (c : Connection) (s : Stream)
    → receive_times 0 timed body_timed c s ≡ ([], c, s)
unfolding receive_times
receive_none timed body_timed c s = refl

receive_times-suc :
    (n : ℕ) (timed body_timed : Bool) (c d f : Connection) (s t u : Stream) {r : Received}
    {rs : List Received}
    → receive timed body_timed c s ≡ (r, d, t)
    → receive_times n timed body_timed d t ≡ (rs, f, u)
    → receive_times (suc n) timed body_timed c s ≡ (r ∷ rs, f, u)
unfolding receive_times
receive_times-suc n timed body_timed c d f s t u h k = rw (h, k) refl

-- From a stream that starts with the frames `frames`, one behind the other, and has not failed, a
-- connection that is up receives exactly those frames in that order, stays as it is, and leaves the
-- bytes behind them, whatever these are and whether or not the reads have timeouts.
pub receive_times-frames :
    (timed body_timed : Bool) (c : Connection) (e : Ending) (frames : List Bytes) (rest : Bytes)
    → (c.connected && c.reader) ≡ true
    → e ≢ broken
    → All IsFrame frames
    → receive_times
        (length frames)
        timed
        body_timed
        c
        (record { buffer = concat frames ++ rest; ending = e })
      ≡ (map received frames, c, record { buffer = rest; ending = e })
receive_times-frames timed body_timed c e [] rest up alive h = receive_none timed body_timed c _
receive_times-frames timed body_timed c e (wire ∷ frames) rest up alive (h, hs) =
    rw (append_assoc wire (concat frames) rest) (
      receive_times-suc (length frames) timed body_timed c c c _ _ _
        (receive-frame timed body_timed c e wire (concat frames ++ rest) up alive h)
        (receive_times-frames timed body_timed c e frames rest up alive hs))
