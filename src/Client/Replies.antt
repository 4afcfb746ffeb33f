-- ===== src/Client/Replies.antt =====
-- Requests and replies over time: the invariant of the table of futures.
use pod_os_py_client.Prelude.{
  ℕ, Bool, false, Option, none, some, ◌≡◌, ◌≢◌, arith, inl, inr, Option-cases,
}
use pod_os_py_client.Prelude.Text.{Str, str_eq_iff}
use pod_os_py_client.Prelude.Dict.{lookup, lookup-insert}
use pod_os_py_client.Message.Types.{Message}
use pod_os_py_client.Client.{
  Client, Outcome, answered, timed_out, new_client, outcome_of, id_of, settle, pop, register, route,
  deliver_response, expire, forget, give_up, set_unmatched_message_handler, is_given_up,
  fail_all_pending, Event, registers, receives, delivers, expires, forgets, gives_up, sets_handler,
  loses_connection, step,
}
use pod_os_py_client.Client.Outcomes.{route_unknown, route_known, deliver_unknown, deliver_known}
use pod_os_py_client.Client.Pending.{lookup-pop, outcome-settle, settle_all_stays, settle_all_done}
use pod_os_py_client.Client.Matching.{IsFiled, IsMatched, Fresh, id_of-cons, step-IsKept}

-- A future that is not done, and whose sender waits for it, is in the table.
abbrev pub IsTracked : Client → Type 0
IsTracked c =
    (t : ℕ) (id : Str)
    → id_of t c.registered ≡ some id
    → outcome_of t c.settled ≡ none
    → is_given_up t c.given_up ≡ false
    → lookup id c.pending ≡ some t

abbrev pub IsSound : Client → Type 0
IsSound c = IsFiled c × IsMatched c × IsTracked c

-- A request has an id that is not in use, and a new future; an entry is forgotten only when its future
-- is done, and a sender that raises drops its own entry or such a one.
abbrev pub Allowed : Event → Client → Type 0
Allowed (registers id t) c =
    (lookup id c.pending ≡ none) × (id_of t c.registered ≡ none) × (outcome_of t c.settled ≡ none)
Allowed (receives msg) c = Unit
Allowed (delivers msg) c = Unit
Allowed (expires t) c = Unit
Allowed (forgets id) c = (t : ℕ) → lookup id c.pending ≡ some t → outcome_of t c.settled ≢ none
Allowed (gives_up id t) c =
    (u : ℕ) → lookup id c.pending ≡ some u → outcome_of u c.settled ≡ none → u ≡ t
Allowed (sets_handler is_set) c = Unit
Allowed loses_connection c = Unit

Allowed-Fresh : (e : Event) (c : Client) → Allowed e c → Fresh e c
Allowed-Fresh (registers id t) c (free, fresh, undone) = (fresh, undone)
Allowed-Fresh (receives msg) c may = tt
Allowed-Fresh (delivers msg) c may = tt
Allowed-Fresh (expires t) c may = tt
Allowed-Fresh (forgets id) c may = tt
Allowed-Fresh (gives_up id t) c may = tt
Allowed-Fresh (sets_handler is_set) c may = tt
Allowed-Fresh loses_connection c may = tt

done_or_not :
    {o : Option Outcome} {p : Outcome} {j : Option ℕ} {u : ℕ} → o ≡ some p → o ≡ none → j ≡ some u
done_or_not a b = cc

module _ (c : Client) (tracked : IsTracked c) where
  register-IsTracked : (id : Str) (t : ℕ) → lookup id c.pending ≡ none → IsTracked (register id t c)
  unfolding register
  register-IsTracked id t free u j h k w = ground (
    arith,
    h,
    k,
    w,
    lookup-insert id j t c.pending,
    str_eq_iff id j,
    id_of-cons u t id c.registered,
    tracked u j,
    free,
  )

  -- The entry of an id goes, and its future is done.
  finish-IsTracked :
      (id : Str) (t : ℕ) (o : Outcome)
      → lookup id c.pending ≡ some t
      → IsTracked (record c { pending = pop id c.pending; settled = settle t o c.settled })
  finish-IsTracked id t o found u j h k w = ground (
    arith,
    h,
    k,
    w,
    lookup-pop id j c.pending,
    str_eq_iff id j,
    outcome-settle u t o c.settled,
    tracked u j,
    found,
  )

  route-IsTracked : (msg : Message) → IsTracked (route msg c)
  route-IsTracked msg = elim (Option-cases (lookup msg.message_id c.pending)) [
    | inl missing ↦ rw (route_unknown msg c missing) tracked
    | inr (t, found) ↦
        rw (route_known msg c t found) (finish-IsTracked msg.message_id t (answered msg) found)
  ]

  deliver_response-IsTracked : (msg : Message) → IsTracked (deliver_response msg c).1
  deliver_response-IsTracked msg = elim (Option-cases (lookup msg.message_id c.pending)) [
    | inl missing ↦ rw (deliver_unknown msg c missing) tracked
    | inr (t, found) ↦
        rw (deliver_known msg c t found) (finish-IsTracked msg.message_id t (answered msg) found)
  ]

  give_up-IsTracked :
      (id : Str) (t : ℕ)
      → ((u : ℕ) → lookup id c.pending ≡ some u → outcome_of u c.settled ≡ none → u ≡ t)
      → IsTracked (give_up id t c)
  unfolding give_up is_given_up
  give_up-IsTracked id t own u j h k w =
      ground (arith, h, k, w, lookup-pop id j c.pending, str_eq_iff id j, tracked u j, own u)

  expire-IsTracked : (t : ℕ) → IsTracked (expire t c)
  unfolding expire
  expire-IsTracked t u j h k w =
      ground (arith, h, k, w, outcome-settle u t timed_out c.settled, tracked u j)

  forget-IsTracked :
      (id : Str)
      → ((t : ℕ) → lookup id c.pending ≡ some t → outcome_of t c.settled ≢ none)
      → IsTracked (forget id c)
  unfolding forget
  forget-IsTracked id finished u j h k w =
      ground (arith, h, k, w, lookup-pop id j c.pending, str_eq_iff id j, tracked u j, finished u)

  fail_all_pending-IsTracked : IsTracked (fail_all_pending c)
  unfolding fail_all_pending
  fail_all_pending-IsTracked u j h k w = elim (Option-cases (outcome_of u c.settled)) [
    | inl undone ↦ elim (settle_all_done j u c.pending c.settled (tracked u j h undone w) k) [ ]
    | inr (p, done) ↦ done_or_not (settle_all_stays u p c.pending c.settled done) k
  ]

step-IsTracked : (e : Event) (c : Client) → IsTracked c → Allowed e c → IsTracked (step e c)
unfolding step set_unmatched_message_handler
step-IsTracked (registers id t) c tracked (free, fresh, undone) =
    register-IsTracked c tracked id t free
step-IsTracked (receives msg) c tracked may = route-IsTracked c tracked msg
step-IsTracked (delivers msg) c tracked may = deliver_response-IsTracked c tracked msg
step-IsTracked (expires t) c tracked may = expire-IsTracked c tracked t
step-IsTracked (forgets id) c tracked may = forget-IsTracked c tracked id may
step-IsTracked (gives_up id t) c tracked may = give_up-IsTracked c tracked id t may
step-IsTracked (sets_handler is_set) c tracked may = tracked
step-IsTracked loses_connection c tracked may = fail_all_pending-IsTracked c tracked

step-IsSound : (e : Event) (c : Client) → IsSound c → Allowed e c → IsSound (step e c)
step-IsSound e c (filed, matched, tracked) may =
    let (filed_after, matched_after) = step-IsKept e c (filed, matched) (Allowed-Fresh e c may) in
    (filed_after, matched_after, step-IsTracked e c tracked may)

-- What a new client becomes.
pub data Reach : Client → Type 0 where
  starts : (handler_set : Bool) → Reach (new_client handler_set)
  steps : {c : Client} (e : Event) → Reach c → Allowed e c → Reach (step e c)

new_client-IsSound : (handler_set : Bool) → IsSound (new_client handler_set)
unfolding outcome_of id_of
new_client-IsSound handler_set = (λ j u h. cc, λ u m h. cc, λ u j h k w. cc)

-- After any interleaving of requests, replies, timeouts, senders that raise and lost connections, where
-- each request has an id that is not in use and a new future, an entry is forgotten only when its
-- future is done, and a sender that raises drops its own entry or one whose future is done: a future in
-- the table stands under the id that it was made for, a future is answered only by a message with the
-- id that it was made for, and one that is not done and whose sender has not raised is in the table
-- under its id.
pub Reach-IsSound : (c : Client) → Reach c → IsSound c
Reach-IsSound c (starts handler_set) = new_client-IsSound handler_set
Reach-IsSound c (steps e r may) = step-IsSound e _ (Reach-IsSound _ r) may
