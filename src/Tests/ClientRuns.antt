-- ===== src/Tests/ClientRuns.antt =====
-- Concrete requests and replies.
use pod_os_py_client.Prelude.{true, some, ◌≡◌, refl}
use pod_os_py_client.Prelude.Text.{codes}
use pod_os_py_client.Message.Types.{Message}
use pod_os_py_client.Message.Defaults.{empty_message}
use pod_os_py_client.Client.{
  Client, new_client, answered, registers, receives, loses_connection, step, register, outcome_of,
  id_of, route, settle, pop,
}
use pod_os_py_client.Client.Replies.{IsSound, Reach, starts, steps, Reach-IsSound}
use pod_os_py_client.Client.Outcomes.{step-outcome_final}

abbrev reply : Message
reply = record empty_message { message_id = codes "a" }

-- Two requests, of which one is answered before the connection is lost.
abbrev asked : Client
asked = step (registers (codes "b") 2) (step (registers (codes "a") 1) (new_client true))

asked-Reach : Reach asked
unfolding step register outcome_of id_of
asked-Reach =
    steps (registers (codes "b") 2)
      (steps (registers (codes "a") 1) (starts true) (refl, refl, refl)) (refl, refl, refl)

Reach-IsSound_example : IsSound (step loses_connection (step (receives reply) asked))
Reach-IsSound_example =
    Reach-IsSound (step loses_connection (step (receives reply) asked))
      (steps loses_connection (steps (receives reply) asked-Reach tt) tt)

reply_found : outcome_of 1 (step (receives reply) asked).settled ≡ some (answered reply)
unfolding step register outcome_of id_of route settle pop
reply_found = refl

step-outcome_final_example :
    outcome_of 1 (step loses_connection (step (receives reply) asked)).settled
    ≡ some (answered reply)
step-outcome_final_example =
    step-outcome_final loses_connection (step (receives reply) asked) 1 (answered reply) reply_found
