-- ===== src/Connection/Send.antt =====
-- `ConnectionClient.connect`, `send`, `close` and `reconnect` (pod_os_client/connection/client.py).
use pod_os_py_client.Prelude.{ℕ, Bool, true, false, if◌then◌else◌, length, ◌&&◌}
use pod_os_py_client.Prelude.Text.{Str, Bytes, codes, str_eq}
use pod_os_py_client.Connection.Receive.{Connection, lost}

-- What opening a connection comes to (`options_failed`: it is open and setting the socket's options
-- raises), and what draining the writer's buffer does.
pub data Opening : Type 0 where
  opened : Opening
  open_timeout : Opening
  open_failed : Opening
  options_failed : Opening

pub data Drain : Type 0 where
  drained : Drain
  drain_timeout : Drain
  drain_failed : Drain

-- The three exceptions of the connection.
pub data Outcome : Type 0 where
  done : ℕ → Outcome
  connection_error : Outcome
  connection_lost_error : Outcome

-- Only TCP is implemented: any other network ends in a ConnectionError.
unfoldable pub connect : Str → Opening → Connection → Bool × Connection
connect network opening c =
    if str_eq network (codes "tcp")
    then elim opening [
      | opened ↦ (true, record c { connected = true; reader = true; writer = true })
      | open_timeout ↦ (false, lost c)
      | open_failed ↦ (false, lost c)
      | options_failed ↦ (false, record c { connected = false; reader = true; writer = true })
    ]
    else (false, lost c)

-- `send` returns the number of bytes. A timeout of the drain counts only if `send_timeout` is set.
unfoldable pub send : Bytes → Drain → Connection → Outcome × Connection
send bytes drain c =
    if c.connected && c.writer
    then elim drain [
      | drained ↦ (done (length bytes), c)
      | drain_timeout ↦ (connection_lost_error, lost c)
      | drain_failed ↦ (connection_lost_error, lost c)
    ]
    else (connection_error, c)

unfoldable pub close : Connection → Connection
close c = record c { connected = false; reader = false; writer = false }

unfoldable pub reconnect : Str → Opening → Connection → Bool × Connection
reconnect network opening c = connect network opening (close c)

unfoldable pub is_connected : Connection → Bool
is_connected c = c.connected
