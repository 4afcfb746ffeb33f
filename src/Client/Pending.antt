-- ===== src/Client/Pending.antt =====
-- The table of futures and their outcomes, entry by entry.
use pod_os_py_client.Prelude.{
  ℕ, List, [], ◌∷◌, none, some, if◌then◌else◌, ◌==◌, ◌≡◌, ◌≢◌, arith, ◌⊎◌,
}
use pod_os_py_client.Prelude.Text.{Str, str_eq, str_eq_iff}
use pod_os_py_client.Prelude.Dict.{Dict, lookup}
use pod_os_py_client.Message.Types.{Message}
use pod_os_py_client.Client.{
  Outcome, answered, connection_lost, outcome_of, settle, pop, settle_all,
}

pub lookup-pop :
    (id j : Str) (m : Dict ℕ) → lookup j (pop id m) ≡ (if str_eq id j then none else lookup j m)
unfolding pop
lookup-pop id j [] = ground arith
lookup-pop id j ((k, t) ∷ m) =
    ground (arith, str_eq_iff id j, str_eq_iff k id, str_eq_iff k j, lookup-pop id j m)

-- The first outcome stays.
pub outcome-settle :
    (u t : ℕ) (o : Outcome) (s : List (ℕ × Outcome))
    → outcome_of u (settle t o s) ≡ (
        if t == u
        then elim (outcome_of u s) [ none ↦ some o | some earlier ↦ some earlier ]
        else outcome_of u s)
unfolding settle outcome_of
outcome-settle u t o s = ground arith

pub settled_stays :
    (u t : ℕ) (o p : Outcome) (s : List (ℕ × Outcome))
    → outcome_of u s ≡ some p
    → outcome_of u (settle t o s) ≡ some p
settled_stays u t o p s h = ground (arith, outcome-settle u t o s, h)

pub settle_all_stays :
    (u : ℕ) (p : Outcome) (m : Dict ℕ) (s : List (ℕ × Outcome))
    → outcome_of u s ≡ some p
    → outcome_of u (settle_all m s) ≡ some p
unfolding settle_all
settle_all_stays u p [] s h = h
settle_all_stays u p ((k, t) ∷ m) s h =
    settled_stays u t connection_lost p _ (settle_all_stays u p m s h)

-- Every future of the table is done once the connection is lost.
pub settle_all_done :
    (id : Str) (t : ℕ) (m : Dict ℕ) (s : List (ℕ × Outcome))
    → lookup id m ≡ some t
    → outcome_of t (settle_all m s) ≢ none
unfolding settle_all
settle_all_done id t [] s h e = ground arith
settle_all_done id t ((k, u) ∷ m) s h e =
    ground (arith, outcome-settle t u connection_lost (settle_all m s), settle_all_done id t m s)

-- And none is answered by that.
pub settle_all_answered :
    (t : ℕ) (msg : Message) (m : Dict ℕ) (s : List (ℕ × Outcome))
    → outcome_of t (settle_all m s) ≡ some (answered msg)
    → outcome_of t s ≡ some (answered msg)
unfolding settle_all
settle_all_answered t msg [] s h = h
settle_all_answered t msg ((k, u) ∷ m) s h =
    ground
      (arith, h, outcome-settle t u connection_lost (settle_all m s), settle_all_answered t msg m s)

-- Where an answer comes from.
pub settle_answered :
    (u t : ℕ) (o : Outcome) (m : Message) (s : List (ℕ × Outcome))
    → outcome_of u (settle t o s) ≡ some (answered m)
    → (outcome_of u s ≡ some (answered m)) ⊎ ((t ≡ u) × (o ≡ answered m))
settle_answered u t o m s h = ground (arith, h, outcome-settle u t o s)
