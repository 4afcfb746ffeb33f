-- ===== src/Client/Outcomes.antt =====
-- The branches of the calls that answer a request, and outcomes over time.
use pod_os_py_client.Prelude.{ℕ, false, if◌then◌else◌, ◌∷◌, none, some, ◌≡◌, inl, inr, Option-cases}
use pod_os_py_client.Prelude.Dict.{lookup}
use pod_os_py_client.Message.Types.{Message}
use pod_os_py_client.Client.{
  Client, Outcome, answered, timed_out, outcome_of, settle, pop, register, route, deliver_response,
  expire, forget, give_up, set_unmatched_message_handler, fail_all_pending, Event, registers,
  receives, delivers, expires, forgets, gives_up, sets_handler, loses_connection, step,
}
use pod_os_py_client.Client.Pending.{settled_stays, settle_all_stays}

pub route_unknown :
    (msg : Message) (c : Client)
    → lookup msg.message_id c.pending ≡ none
    → route msg c
      ≡ record c { unmatched = if c.unmatched_handler then msg ∷ c.unmatched else c.unmatched }
unfolding route
route_unknown msg c h = simp (h, route)

pub route_known :
    (msg : Message) (c : Client) (t : ℕ)
    → lookup msg.message_id c.pending ≡ some t
    → route msg c ≡ record c {
      pending = pop msg.message_id c.pending;
      settled = settle t (answered msg) c.settled;
    }
unfolding route
route_known msg c t h = simp (h, route)

pub deliver_unknown :
    (msg : Message) (c : Client)
    → lookup msg.message_id c.pending ≡ none
    → deliver_response msg c ≡ (false, c)
unfolding deliver_response
deliver_unknown msg c h = simp (h, deliver_response)

pub deliver_known :
    (msg : Message) (c : Client) (t : ℕ)
    → lookup msg.message_id c.pending ≡ some t
    → (deliver_response msg c).1 ≡ record c {
      pending = pop msg.message_id c.pending;
      settled = settle t (answered msg) c.settled;
    }
unfolding deliver_response
deliver_known msg c t h = simp (h, deliver_response)

module _ (c : Client) (t : ℕ) (o : Outcome) (h : outcome_of t c.settled ≡ some o) where
  route_final : (msg : Message) → outcome_of t (route msg c).settled ≡ some o
  route_final msg = elim (Option-cases (lookup msg.message_id c.pending)) [
    | inl missing ↦ rw (route_unknown msg c missing) h
    | inr (u, found) ↦
        rw (route_known msg c u found) (settled_stays t u (answered msg) o c.settled h)
  ]

  deliver_final : (msg : Message) → outcome_of t (deliver_response msg c).1.settled ≡ some o
  deliver_final msg = elim (Option-cases (lookup msg.message_id c.pending)) [
    | inl missing ↦ rw (deliver_unknown msg c missing) h
    | inr (u, found) ↦
        rw (deliver_known msg c u found) (settled_stays t u (answered msg) o c.settled h)
  ]

-- The outcome of a future is final: nothing that happens later changes it.
pub step-outcome_final :
    (e : Event) (c : Client) (t : ℕ) (o : Outcome)
    → outcome_of t c.settled ≡ some o
    → outcome_of t (step e c).settled ≡ some o
unfolding step register expire forget give_up set_unmatched_message_handler fail_all_pending
step-outcome_final (registers id u) c t o h = h
step-outcome_final (receives msg) c t o h = route_final c t o h msg
step-outcome_final (delivers msg) c t o h = deliver_final c t o h msg
step-outcome_final (expires u) c t o h = settled_stays t u timed_out o c.settled h
step-outcome_final (forgets id) c t o h = h
step-outcome_final (gives_up id u) c t o h = h
step-outcome_final (sets_handler is_set) c t o h = h
step-outcome_final loses_connection c t o h = settle_all_stays t o c.pending c.settled h
