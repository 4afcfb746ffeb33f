-- ===== src/Client/Matching.antt =====
-- Which message answers a future: the table's ids and the outcomes, event by event.
use pod_os_py_client.Prelude.{
  ℕ, List, ◌∷◌, none, some, if◌then◌else◌, ◌==◌, ◌≡◌, refl, arith, inl, inr, Option-cases,
}
use pod_os_py_client.Prelude.Text.{Str, str_eq_iff}
use pod_os_py_client.Prelude.Dict.{lookup, lookup-insert}
use pod_os_py_client.Message.Types.{Message}
use pod_os_py_client.Client.{
  Client, answered, timed_out, outcome_of, id_of, settle, pop, register, route, deliver_response,
  expire, forget, give_up, set_unmatched_message_handler, fail_all_pending, Event, registers,
  receives, delivers, expires, forgets, gives_up, sets_handler, loses_connection, step,
}
use pod_os_py_client.Client.Outcomes.{route_unknown, route_known, deliver_unknown, deliver_known}
use pod_os_py_client.Client.Pending.{lookup-pop, settle_all_answered, settle_answered}

-- The future in the table under an id was made for that id.
abbrev pub IsFiled : Client → Type 0
IsFiled c = (id : Str) (t : ℕ) → lookup id c.pending ≡ some t → id_of t c.registered ≡ some id

-- A future is answered only by a message with the id that it was made for.
abbrev pub IsMatched : Client → Type 0
IsMatched c =
    (t : ℕ) (m : Message)
    → outcome_of t c.settled ≡ some (answered m)
    → id_of t c.registered ≡ some m.message_id

abbrev pub IsKept : Client → Type 0
IsKept c = IsFiled c × IsMatched c

-- A request has a new future, whatever its id.
abbrev pub Fresh : Event → Client → Type 0
Fresh (registers id t) c = (id_of t c.registered ≡ none) × (outcome_of t c.settled ≡ none)
Fresh _ c = Unit

answered_id : (msg m : Message) → answered msg ≡ answered m → m.message_id ≡ msg.message_id
answered_id msg m e = cc

pub id_of-cons :
    (u t : ℕ) (id : Str) (reg : List (ℕ × Str))
    → id_of u ((t, id) ∷ reg) ≡ (if t == u then some id else id_of u reg)
unfolding id_of
id_of-cons u t id reg = refl

module _ (c : Client) (filed : IsFiled c) (matched : IsMatched c) where
  register-IsKept :
      (id : Str) (t : ℕ)
      → id_of t c.registered ≡ none
      → outcome_of t c.settled ≡ none
      → IsKept (register id t c)
  unfolding register
  register-IsKept id t fresh undone = (
    λ j u h. ground (
      arith,
      h,
      lookup-insert id j t c.pending,
      str_eq_iff id j,
      id_of-cons u t id c.registered,
      filed j u,
      fresh,
    ),
    λ u m h. ground (arith, h, id_of-cons u t id c.registered, matched u m, undone),
  )

  -- The entry of an id goes.
  popped-IsFiled :
      (id j : Str) (u : ℕ) → lookup j (pop id c.pending) ≡ some u → id_of u c.registered ≡ some j
  popped-IsFiled id j u h = ground (arith, h, lookup-pop id j c.pending, filed j u)

  -- And its future is answered.
  answer-IsKept :
      (msg : Message) (t : ℕ)
      → lookup msg.message_id c.pending ≡ some t
      → IsKept (record c {
        pending = pop msg.message_id c.pending;
        settled = settle t (answered msg) c.settled;
      })
  answer-IsKept msg t found = (
    popped-IsFiled msg.message_id,
    λ u m h. elim (settle_answered u t (answered msg) m c.settled h) [
      | inl earlier ↦ matched u m earlier
      | inr (same, e) ↦ rw (← same, answered_id msg m e) (filed msg.message_id t found)
    ],
  )

  route-IsKept : (msg : Message) → IsKept (route msg c)
  route-IsKept msg = elim (Option-cases (lookup msg.message_id c.pending)) [
    | inl missing ↦ rw (route_unknown msg c missing) (filed, matched)
    | inr (t, found) ↦ rw (route_known msg c t found) (answer-IsKept msg t found)
  ]

  deliver_response-IsKept : (msg : Message) → IsKept (deliver_response msg c).1
  deliver_response-IsKept msg = elim (Option-cases (lookup msg.message_id c.pending)) [
    | inl missing ↦ rw (deliver_unknown msg c missing) (filed, matched)
    | inr (t, found) ↦ rw (deliver_known msg c t found) (answer-IsKept msg t found)
  ]

  expire-IsKept : (t : ℕ) → IsKept (expire t c)
  unfolding expire
  expire-IsKept t = (
    filed,
    λ u m h. elim (settle_answered u t timed_out m c.settled h) [
      | inl earlier ↦ matched u m earlier
      | inr (same, e) ↦ cc
    ],
  )

  fail_all_pending-IsKept : IsKept (fail_all_pending c)
  unfolding fail_all_pending
  fail_all_pending-IsKept =
      (λ j u h. cc, λ u m h. matched u m (settle_all_answered u m c.pending c.settled h))

pub step-IsKept : (e : Event) (c : Client) → IsKept c → Fresh e c → IsKept (step e c)
unfolding step forget give_up set_unmatched_message_handler
step-IsKept (registers id t) c (filed, matched) (fresh, undone) =
    register-IsKept c filed matched id t fresh undone
step-IsKept (receives msg) c (filed, matched) may = route-IsKept c filed matched msg
step-IsKept (delivers msg) c (filed, matched) may = deliver_response-IsKept c filed matched msg
step-IsKept (expires t) c (filed, matched) may = expire-IsKept c filed matched t
step-IsKept (forgets id) c (filed, matched) may = (popped-IsFiled c filed matched id, matched)
step-IsKept (gives_up id t) c (filed, matched) may = (popped-IsFiled c filed matched id, matched)
step-IsKept (sets_handler is_set) c kept may = kept
step-IsKept loses_connection c (filed, matched) may = fail_all_pending-IsKept c filed matched
