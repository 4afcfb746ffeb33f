-- ===== src/Tests/ReceiverRuns.antt =====
-- A request that a frame answers, and a reconnection.
use pod_os_py_client.Prelude.{
  zero, suc, List, [], Option, none, arith, ℕ, ltb, ◌-◌, Bool, false, true, some, ◌≡◌, refl,
}
use pod_os_py_client.Prelude.Text.{codes}
use pod_os_py_client.Client.{
  new_client, answered, registers, step, register, outcome_of, id_of, route, settle,
}
use pod_os_py_client.Client.Outcomes.{route_known}
use pod_os_py_client.Prelude.Dict.{lookup}
use pod_os_py_client.Message.Types.{Message}
use pod_os_py_client.Client.Receiver.{
  ConnectionState, Receiver, frame, new_receiver, receive_round, hear, hear_frame,
}
use pod_os_py_client.Client.Receiver.Laws.{
  Comes, Runs, connects as begins, hears, requests, Runs-answered,
}
use pod_os_py_client.Client.Reconnect.{
  Try, close_fails, connect_fails, connects, Reconnect, reconnect_client,
}
use pod_os_py_client.Client.Reconnect.Laws.{IsOver, reconnect_client-IsOver}
use pod_os_py_client.Tests.ResponseRuns.{any_float}
use pod_os_py_client.Tests.WireRuns.{ping_wire}
use pod_os_py_client.Tests.ReplyRuns.{pong, ping_decoded, pong-id}

-- The silence until `now` is too long.
abbrev long : ℕ → ℕ → Bool
long now last = ltb 60 (now - last)

-- A state handler that raises nothing.
abbrev calm : List ConnectionState → Bool
calm states = false

abbrev asked : Receiver ℕ
asked = record (new_receiver false 0) { table = step (registers (codes "7") 1) (new_client false) }

asked-Runs : Runs any_float long false true calm asked
unfolding outcome_of id_of
asked-Runs = requests (registers (codes "7") 1) tt (begins false 0) (refl, refl)

abbrev replied : Receiver ℕ
replied = receive_round any_float long false true calm (frame ping_wire 5) asked

found_one :
    (m : Message) → m.message_id ≡ codes "7" → lookup m.message_id asked.table.pending ≡ some 1
unfolding step register
found_one m h = rw h refl

answer_delivered :
    (m : Message)
    → m.message_id ≡ codes "7"
    → outcome_of 1 (route m asked.table).settled ≡ some (answered m)
unfolding step register settle outcome_of
answer_delivered m h = rw (route_known m asked.table 1 (found_one m h)) refl

pong_delivered : outcome_of 1 replied.table.settled ≡ some (answered pong)
unfolding receive_round hear hear_frame
pong_delivered = rw ping_decoded (answer_delivered pong pong-id)

Runs-answered_example :
    (id_of 1 replied.table.registered ≡ some pong.message_id) × Comes any_float replied.heard pong
Runs-answered_example =
    Runs-answered any_float long false true calm replied 1 pong
      (hears (frame ping_wire 5) asked-Runs) pong_delivered

-- The third try connects.
abbrev third_try : ℕ → Try ℕ
third_try zero = connect_fails 1
third_try (suc zero) = close_fails 2
third_try (suc (suc i)) = connects

abbrev silent_handler : List (ConnectionState × Option ℕ) → Option ℕ
silent_handler told = none

abbrev dropped : Reconnect ℕ ℕ
dropped = record {
  table = new_client false;
  connected = false;
  reconnecting = false;
  reconnect_attempt = 0;
  reconnect_set = true;
  last_err = none;
  emitted = [];
  waits = [];
}

reconnect_client-IsOver_example :
    IsOver (reconnect_client third_try (λ n. n) 10 silent_handler 11 false false (some 7) dropped)
reconnect_client-IsOver_example =
    reconnect_client-IsOver third_try (λ n. n) 10 11 silent_handler (some 7) dropped (λ told. refl)
      (omega arith) (omega arith)
