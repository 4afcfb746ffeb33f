-- ===== src/Client/Receiver/Laws.antt =====
-- What answers a request, from the bytes on.
use pod_os_py_client.Prelude.{
  ℕ, Bool, true, false, not, List, ◌∷◌, Option, some, Result, ok, err, ◌≡◌, refl, In, inl, inr,
  ◌||◌, if◌then◌else◌, Option-cases, Bool-cases,
}
use pod_os_py_client.Prelude.Text.{Str, Bytes}
use pod_os_py_client.Prelude.Dict.{lookup}
use pod_os_py_client.Message.Types.{Message, PyFloat}
use pod_os_py_client.Wire.Reply.{DecodeException, decode_failed, record_failed, decode_message}
use pod_os_py_client.Client.{
  Client, answered, timed_out, outcome_of, id_of, register, route, expire, forget, give_up,
  set_unmatched_message_handler, fail_all_pending, Event, registers, receives, delivers, expires,
  forgets, gives_up, sets_handler, loses_connection, step,
}
use pod_os_py_client.Client.Pending.{settle_all_answered, settle_answered}
use pod_os_py_client.Client.Outcomes.{route_unknown, route_known}
use pod_os_py_client.Client.Matching.{IsKept, Fresh, step-IsKept}
use pod_os_py_client.Client.Receiver.{
  Arrival, ConnectionState, frame, idle, transport_error, Receiver, new_receiver,
  handle_connection_lost, hear_frame, hear, receive_round, is_nobody_waiting,
}

-- The events of requests: all but those of replies and of the connection.
abbrev pub IsRequest : Event → Type 0
IsRequest (registers id t) = Unit
IsRequest (expires t) = Unit
IsRequest (forgets id) = Unit
IsRequest (gives_up id t) = Unit
IsRequest (sets_handler is_set) = Unit
IsRequest _ = ⊥

-- One of some frames is decoded to a message.
abbrev pub Comes : (Str → Option PyFloat) → List Bytes → Message → Type 0
Comes read_float heard msg =
    (wire : Bytes) × In wire heard × (decode_message read_float wire ≡ ok msg)

-- Every answer comes from a frame.
abbrev pub IsHeard : (Str → Option PyFloat) → List Bytes → Client → Type 0
IsHeard read_float heard c =
    (t : ℕ) (msg : Message)
    → outcome_of t c.settled ≡ some (answered msg)
    → Comes read_float heard msg

answered-injective : (msg m : Message) → answered msg ≡ answered m → msg ≡ m
answered-injective msg m e = cc

module _ (read_float : Str → Option PyFloat) (heard : List Bytes) (c : Client)
    (comes : IsHeard read_float heard c) where
  route-IsHeard :
      (msg : Message) → Comes read_float heard msg → IsHeard read_float heard (route msg c)
  route-IsHeard msg source = elim (Option-cases (lookup msg.message_id c.pending)) [
    | inl missing ↦ rw (route_unknown msg c missing) comes
    | inr (t, found) ↦ rw (route_known msg c t found) (λ u m h.
        elim (settle_answered u t (answered msg) m c.settled h) [
          | inl earlier ↦ comes u m earlier
          | inr (same, e) ↦ rw (← answered-injective msg m e) source
        ])
  ]

  fail_all_pending-IsHeard : IsHeard read_float heard (fail_all_pending c)
  unfolding fail_all_pending
  fail_all_pending-IsHeard t m h = comes t m (settle_all_answered t m c.pending c.settled h)

  request-IsHeard : (e : Event) → IsRequest e → IsHeard read_float heard (step e c)
  unfolding step register expire forget give_up set_unmatched_message_handler
  request-IsHeard (registers id t) q = comes
  request-IsHeard (expires t) q = λ u m h. elim (settle_answered u t timed_out m c.settled h) [
    | inl earlier ↦ comes u m earlier
    | inr (same, e) ↦ cc
  ]
  request-IsHeard (forgets id) q = comes
  request-IsHeard (gives_up id t) q = comes
  request-IsHeard (sets_handler is_set) q = comes
  request-IsHeard (receives msg) q = elim q [ ]
  request-IsHeard (delivers msg) q = elim q [ ]
  request-IsHeard loses_connection q = elim q [ ]

longer-IsHeard :
    (read_float : Str → Option PyFloat) (wire : Bytes) (heard : List Bytes) (c : Client)
    → IsHeard read_float heard c
    → IsHeard read_float (wire ∷ heard) c
longer-IsHeard read_float wire heard c comes t msg h =
    let (w, m, e) = comes t msg h in (w, inr m, e)

module _ {T : Type 0} (read_float : Str → Option PyFloat) (silent : T → T → Bool)
    (liveness_off reconnect_enabled : Bool) (handler_raises : List ConnectionState → Bool) where
  -- Answers have the ids of their requests, and come from what was heard.
  abbrev Good : Receiver T → Type 0
  Good r = IsKept r.table × IsHeard read_float r.heard r.table

  abbrev given_up : Receiver T → Receiver T
  given_up r =
      handle_connection_lost read_float silent liveness_off reconnect_enabled handler_raises r

  given_up-Good : (r : Receiver T) → Good r → Good (given_up r)
  unfolding handle_connection_lost
  given_up-Good r (kept, comes) = (
    unfold step in step-IsKept loses_connection r.table kept tt,
    fail_all_pending-IsHeard read_float r.heard r.table comes,
  )

  hear_frame-Good :
      (o : Result DecodeException Message) (wire : Bytes) (r : Receiver T)
      → In wire r.heard
      → decode_message read_float wire ≡ o
      → Good r
      → Good (hear_frame read_float silent liveness_off reconnect_enabled handler_raises o r)
  unfolding hear_frame
  hear_frame-Good (ok msg) wire r m e (kept, comes) = (
    unfold step in step-IsKept (receives msg) r.table kept tt,
    route-IsHeard read_float r.heard r.table comes msg (wire, m, e),
  )
  hear_frame-Good (err (decode_failed failure)) wire r m e good = good
  hear_frame-Good (err (record_failed failure)) wire r m e good = given_up-Good r good

  hear-Good :
      (a : Arrival T) (r : Receiver T)
      → Good r
      → Good (hear read_float silent liveness_off reconnect_enabled handler_raises a r)
  unfolding hear
  hear-Good (frame wire now) r (kept, comes) =
      hear_frame-Good (decode_message read_float wire) wire
        (record r { last_activity = now; heard = wire ∷ r.heard }) (inl refl) refl
        (kept, longer-IsHeard read_float wire r.heard r.table comes)
  hear-Good (idle now) r good =
      elim (Bool-cases
        (liveness_off || is_nobody_waiting r.table.pending || not (silent now r.last_activity))) [
          | inl alive ↦ rw alive good
          | inr dead ↦ rw dead (given_up-Good r good)
        ]
  hear-Good transport_error r good = given_up-Good r good

  either-Good : (b : Bool) (r s : Receiver T) → Good r → Good s → Good (if b then r else s)
  either-Good true r s h k = h
  either-Good false r s h k = k

  receive_round-Good :
      (a : Arrival T) (r : Receiver T)
      → Good r
      → Good (receive_round read_float silent liveness_off reconnect_enabled handler_raises a r)
  unfolding receive_round
  receive_round-Good a r good = either-Good r.connected _ r (hear-Good a r good) good

  -- What the rounds of the loop and the events of requests make of a client, in any order.
  pub data Runs : Receiver T → Type 0 where
    connects : (handler_set : Bool) (now : T) → Runs (new_receiver handler_set now)
    hears :
        {r : Receiver T} (a : Arrival T)
        → Runs r
        → Runs (receive_round read_float silent liveness_off reconnect_enabled handler_raises a r)
    requests :
        {r : Receiver T} (e : Event)
        → IsRequest e
        → Runs r
        → Fresh e r.table
        → Runs (record r { table = step e r.table })

  Runs-Good : (r : Receiver T) → Runs r → Good r
  unfolding outcome_of id_of
  Runs-Good r (connects handler_set now) = ((λ id t h. cc, λ t m h. cc), λ t msg h. cc)
  Runs-Good r (hears {r = before} a runs) = receive_round-Good a before (Runs-Good before runs)
  Runs-Good r (requests {r = before} e q runs may) =
      let (kept, comes) = Runs-Good before runs in
      (
        step-IsKept e before.table kept may,
        request-IsHeard read_float before.heard before.table comes e q,
      )

  -- Whatever rounds of the receive loop and registrations, timeouts and failures of requests follow one
  -- another, where each request has a new future: a request is answered only by a message that was
  -- decoded from a frame that came, and that has the id under which the request was registered.
  pub Runs-answered :
      (r : Receiver T) (t : ℕ) (msg : Message)
      → Runs r
      → outcome_of t r.table.settled ≡ some (answered msg)
      → (id_of t r.table.registered ≡ some msg.message_id) × Comes read_float r.heard msg
  Runs-answered r t msg runs h =
      let ((_, matched), comes) = Runs-Good r runs in (matched t msg h, comes t msg h)
