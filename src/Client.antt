-- ===== src/Client.antt =====
-- The requests in flight of `Client` (pod_os_client/client.py): the table of futures by message id, as
-- `send_message` fills it, `_receive_loop` and `deliver_response` answer it, and `_fail_all_pending`
-- empties it.
pub mod Pending
pub mod Outcomes
pub mod Matching
pub mod Replies
pub mod Receiver
pub mod Reconnect
pub mod Sending
use pod_os_py_client.Prelude.{
  ℕ, Bool, true, false, List, [], ◌∷◌, Option, none, some, if◌then◌else◌, ◌==◌, ◌||◌,
}
use pod_os_py_client.Prelude.Text.{Str, str_eq}
use pod_os_py_client.Prelude.Dict.{Dict, lookup, insert}
use pod_os_py_client.Message.Types.{Message}

-- How a future ends: with a message, with the error of a lost connection, or cancelled by the sender's
-- timeout.
pub data Outcome : Type 0 where
  answered : Message → Outcome
  connection_lost : Outcome
  timed_out : Outcome

-- `pending` is `_pending_responses`, with a number for each future; `settled` says how the futures that
-- are done ended, `registered` for which id each was made, `given_up` those whose sender has raised and
-- waits no more, `unmatched_handler` whether one is set, and `unmatched` what handlers were given.
pub record Client : Type 0 where
  pub pending : Dict ℕ
  pub settled : List (ℕ × Outcome)
  pub registered : List (ℕ × Str)
  pub given_up : List ℕ
  pub unmatched_handler : Bool
  pub unmatched : List Message

-- The argument is whether the configuration has a handler for unmatched messages.
abbrev pub new_client : Bool → Client
new_client handler_set = record {
  pending = [];
  settled = [];
  registered = [];
  given_up = [];
  unmatched_handler = handler_set;
  unmatched = [];
}

unfoldable pub outcome_of : ℕ → List (ℕ × Outcome) → Option Outcome
outcome_of t [] = none
outcome_of t ((u, o) ∷ rest) = if u == t then some o else outcome_of t rest

unfoldable pub id_of : ℕ → List (ℕ × Str) → Option Str
id_of t [] = none
id_of t ((u, id) ∷ rest) = if u == t then some id else id_of t rest

-- Whether the sender of a future waits no more.
unfoldable pub is_given_up : ℕ → List ℕ → Bool
is_given_up t [] = false
is_given_up t (u ∷ rest) = u == t || is_given_up t rest

-- `if not future.done(): future.set_…`.
unfoldable pub settle : ℕ → Outcome → List (ℕ × Outcome) → List (ℕ × Outcome)
settle t o settled = elim (outcome_of t settled) [
  | none ↦ (t, o) ∷ settled
  | some earlier ↦ settled
]

-- `pending.pop(id, None)`, the table that is left.
unfoldable pub pop : Str → Dict ℕ → Dict ℕ
pop id [] = []
pop id ((k, t) ∷ rest) = let others = pop id rest in if str_eq k id then others else (k, t) ∷ others

-- `send_message` registers its future.
unfoldable pub register : Str → ℕ → Client → Client
register id t c = record c { pending = insert id t c.pending; registered = (t, id) ∷ c.registered }

-- `set_unmatched_message_handler`.
unfoldable pub set_unmatched_message_handler : Bool → Client → Client
set_unmatched_message_handler is_set c = record c { unmatched_handler = is_set }

-- A message arrives: it is given to the future of its id, or to the handler if one is set.
unfoldable pub route : Message → Client → Client
route msg c = elim (lookup msg.message_id c.pending) [
  | some t ↦ record c {
    pending = pop msg.message_id c.pending;
    settled = settle t (answered msg) c.settled;
  }
  | none ↦ record c { unmatched = if c.unmatched_handler then msg ∷ c.unmatched else c.unmatched }
]

-- `deliver_response`: whether the message was expected.
unfoldable pub deliver_response : Message → Client → Bool × Client
deliver_response msg c = elim (lookup msg.message_id c.pending) [
  | some t ↦ (
    true,
    record c {
      pending = pop msg.message_id c.pending;
      settled = settle t (answered msg) c.settled;
    },
  )
  | none ↦ (false, c)
]

-- The sender's `wait_for` runs out and cancels the future; the entry goes later, in `forget`.
unfoldable pub expire : ℕ → Client → Client
expire t c = record c { settled = settle t timed_out c.settled }

unfoldable pub forget : Str → Client → Client
forget id c = record c { pending = pop id c.pending }

-- The sender of a future raises a connection error: what stands under its id goes, and the future is
-- left as it is.
unfoldable pub give_up : Str → ℕ → Client → Client
give_up id t c = record c { pending = pop id c.pending; given_up = t ∷ c.given_up }

unfoldable pub settle_all : Dict ℕ → List (ℕ × Outcome) → List (ℕ × Outcome)
settle_all [] settled = settled
settle_all ((id, t) ∷ rest) settled = settle t connection_lost (settle_all rest settled)

-- `_fail_all_pending`.
unfoldable pub fail_all_pending : Client → Client
fail_all_pending c = record c { pending = []; settled = settle_all c.pending c.settled }

pub data Event : Type 0 where
  registers : Str → ℕ → Event
  receives : Message → Event
  delivers : Message → Event
  expires : ℕ → Event
  forgets : Str → Event
  gives_up : Str → ℕ → Event
  sets_handler : Bool → Event
  loses_connection : Event

unfoldable pub step : Event → Client → Client
step (registers id t) c = register id t c
step (receives msg) c = route msg c
step (delivers msg) c = (deliver_response msg c).1
step (expires t) c = expire t c
step (forgets id) c = forget id c
step (gives_up id t) c = give_up id t c
step (sets_handler is_set) c = set_unmatched_message_handler is_set c
step loses_connection c = fail_all_pending c
