-- ===== src/Client/Receiver.antt =====
-- `_receive_loop` of `Client` (pod_os_client/client.py), a round of it at a time, and
-- `_handle_connection_lost`. What the connection's `receive` comes to, the clock, whether the silence
-- until a time is longer than the liveness timeout, whether the state handler raises at the last of the
-- states that it was given, and `float` are parameters.
pub mod Laws
use pod_os_py_client.Prelude.{
  ℕ, suc, Bool, true, false, not, List, [], ◌∷◌, Option, Result, ok, err, if◌then◌else◌, ◌&&◌, ◌||◌,
}
use pod_os_py_client.Prelude.Text.{Str, Bytes}
use pod_os_py_client.Prelude.Dict.{Dict}
use pod_os_py_client.Message.Types.{Message, PyFloat}
use pod_os_py_client.Wire.Reply.{DecodeException, decode_failed, record_failed, decode_message}
use pod_os_py_client.Client.{Client, new_client, route, fail_all_pending}

pub data ConnectionState : Type 0 where
  is_connected is_disconnected is_reconnecting reconnect_failed : ConnectionState

-- What `receive` comes to, at a time: the bytes of a frame, silence, or any other transport error.
pub data Arrival (T : Type 0) : Type 0 where
  frame : Bytes → T → Arrival T
  idle : T → Arrival T
  transport_error : Arrival T

-- `table` is the table of pending replies, `states` what the state handler was given and `heard` the
-- frames that came, the latest first; `reconnect_tasks` counts the tasks of `_reconnect`.
pub record Receiver (T : Type 0) : Type 0 where
  pub table : Client
  pub connected : Bool
  pub reconnecting : Bool
  pub last_activity : T
  pub states : List ConnectionState
  pub reconnect_tasks : ℕ
  pub heard : List Bytes

-- A client that has connected.
abbrev pub new_receiver : {T : Type 0} → Bool → T → Receiver T
new_receiver handler_set now = record {
  table = new_client handler_set;
  connected = true;
  reconnecting = false;
  last_activity = now;
  states = [];
  reconnect_tasks = 0;
  heard = [];
}

abbrev pub is_nobody_waiting : Dict ℕ → Bool
is_nobody_waiting [] = true
is_nobody_waiting (entry ∷ pending) = false

module _ {T : Type 0} (read_float : Str → Option PyFloat) (silent : T → T → Bool)
    (liveness_off reconnect_enabled : Bool) (handler_raises : List ConnectionState → Bool) where
  -- A handler that raises ends the loop's task, and no task of `_reconnect` starts.
  unfoldable pub handle_connection_lost : Receiver T → Receiver T
  handle_connection_lost r = record r {
    table = fail_all_pending r.table;
    connected = false;
    states = is_disconnected ∷ r.states;
    reconnect_tasks =
        if not (handler_raises (is_disconnected ∷ r.states))
          && reconnect_enabled
          && not r.reconnecting
        then suc r.reconnect_tasks
        else r.reconnect_tasks;
  }

  -- A DecodeError is passed over; what else `decode_message` raises ends the connection.
  unfoldable pub hear_frame : Result DecodeException Message → Receiver T → Receiver T
  hear_frame (ok msg) r = record r { table = route msg r.table }
  hear_frame (err (decode_failed e)) r = r
  hear_frame (err (record_failed e)) r = handle_connection_lost r

  unfoldable pub hear : Arrival T → Receiver T → Receiver T
  hear (frame wire now) r =
      hear_frame (decode_message read_float wire)
        (record r { last_activity = now; heard = wire ∷ r.heard })
  hear (idle now) r =
      if liveness_off || is_nobody_waiting r.table.pending || not (silent now r.last_activity)
      then r
      else handle_connection_lost r
  hear transport_error r = handle_connection_lost r

  -- The loop's test.
  unfoldable pub receive_round : Arrival T → Receiver T → Receiver T
  receive_round a r = if r.connected then hear a r else r
