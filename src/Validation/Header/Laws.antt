-- ===== src/Validation/Header/Laws.antt =====
-- What the check of a header finds in the headers of the intents that are sent.
use pod_os_py_client.Prelude.{
  ℕ, String, Bool, true, false, List, [], ◌∷◌, ◌++◌, keep, Option, none, some, ◌≡◌, refl, ◌&&◌,
  ◌==◌, arith, All, In, inl, inr,
}
use pod_os_py_client.Prelude.Int.{ℤ, pos}
use pod_os_py_client.Prelude.Text.{Str, codes, elem_of}
use pod_os_py_client.Prelude.Dict.{Dict, lookup}
use pod_os_py_client.Wire.Envelope.{header_value}
use pod_os_py_client.Message.Header.Keys.{command_key}
use pod_os_py_client.Validation.{
  warn, uncovered, Violation, is_error, error, header_missing, header_value as bad_value, format,
  Rule, when, warns,
}
use pod_os_py_client.Intents.Constants.{
  Intent, gateway_stream_on, gateway_disconnect, gateway_stream_off, actor_echo, actor_response,
  status, store_event, store_batch_events, store_batch_links,
}
use pod_os_py_client.Validation.Header.{
  validate_wire_header, header_of_type, memory_request, validate_request_header, is_known_command,
  is_value,
}

-- The errors among what a check finds.
abbrev pub errors : List Violation → List Violation
errors vs = keep is_error vs

-- The commands of which the check wants a payload.
abbrev pub is_batch : Option Str → Bool
is_batch none = false
is_batch (some command) = elem_of command (codes "store_batch" ∷ codes "link_batch" ∷ [])

-- What is checked of the headers of an intent whose command, if it has one, is the intent's.
abbrev pub Passes : Intent × Option Str → Type 0
Passes (intent, command) =
    (h : Dict Str) (n : ℕ)
    → lookup command_key h ≡ command
    → (is_batch command && n == 0) ≡ false
    → errors (validate_wire_header (pos intent.message_type) h (pos n)) ≡ []

errors-append :
    (b : Bool) (vs : List Violation) (field : String) (r : Rule)
    → errors (when b (warns field r) ++ vs) ≡ errors vs
errors-append true vs field r = refl
errors-append false vs field r = refl

command_value :
    (h : Dict Str) (c : Str) → lookup command_key h ≡ some c → header_value h command_key ≡ c
unfolding header_value
command_value h c e = rw e refl

abbrev pub passing : List (Intent × Option Str)
passing =
    (gateway_stream_on, none)
    ∷ (gateway_disconnect, none)
    ∷ (gateway_stream_off, none)
    ∷ (actor_echo, none)
    ∷ (actor_response, none)
    ∷ (status, none)
    ∷ (store_event, some (codes "store"))
    ∷ (store_batch_events, some (codes "store_batch"))
    ∷ (store_batch_links, some (codes "link_batch"))
    ∷ []

only_warned : (b : Bool) (field : String) (r : Rule) → errors (when b (warns field r)) ≡ []
only_warned true field r = refl
only_warned false field r = refl

store-Passes : Passes (store_event, some (codes "store"))
unfolding validate_wire_header header_of_type memory_request is_known_command
    validate_request_header
store-Passes h n e lo =
    simp (errors-append, command_value h (codes "store") e)
      (only_warned _ "timestamp" header_missing)

store_batch-Passes : Passes (store_batch_events, some (codes "store_batch"))
unfolding validate_wire_header header_of_type memory_request is_known_command
    validate_request_header
store_batch-Passes h n e lo =
    simp (errors-append, command_value h (codes "store_batch") e) (ground arith)

link_batch-Passes : Passes (store_batch_links, some (codes "link_batch"))
unfolding validate_wire_header header_of_type memory_request is_known_command
    validate_request_header
link_batch-Passes h n e lo =
    simp (errors-append, command_value h (codes "link_batch") e) (ground arith)

echo-Passes : Passes (actor_echo, none)
unfolding validate_wire_header header_of_type
echo-Passes h n e lo = simp errors-append (only_warned _ "_msg_id" header_missing)

disconnect-Passes : Passes (gateway_disconnect, none)
unfolding validate_wire_header header_of_type
disconnect-Passes h n e lo = simp errors-append

unread-Passes : All Passes (
    (gateway_stream_on, none)
    ∷ (gateway_stream_off, none)
    ∷ (actor_response, none)
    ∷ (status, none)
    ∷ [])
unfolding validate_wire_header header_of_type
unread-Passes = (unread, (unread, (unread, (unread, tt))))
  where
    unread :
        (h : Dict Str) (n : ℕ)
        → lookup command_key h ≡ none
        → (false && n == 0) ≡ false
        → errors (when (is_value h "_msg_id" "") (warns "_msg_id" format) ++ []) ≡ []
    unread h n e lo = errors-append _ [] "_msg_id" format

pub passing-Passes : All Passes passing
passing-Passes =
    let (on, (off, (reply, (status_sent, _)))) = unread-Passes in
    (
      on,
      (
        disconnect-Passes,
        (
          off,
          (
            echo-Passes,
            (reply, (status_sent, (store-Passes, (store_batch-Passes, (link_batch-Passes, tt))))),
          ),
        ),
      ),
    )

behind :
    (v : Violation) (vs : List Violation) (field : String) (r : Rule) (b : Bool)
    → In v vs
    → In v (when b (warns field r) ++ vs)
behind v vs field r true m = inr m
behind v vs field r false m = m

-- The check handles a command that its list of known ones lacks.
abbrev pub bad_command : Violation
bad_command = record { severity = error; wire_field = command_key; rule = bad_value }

command_refused :
    (h : Dict Str) (n : ℤ)
    → lookup command_key h ≡ some (codes "store_data")
    → In bad_command (memory_request h n)
unfolding memory_request is_known_command
command_refused h n e = simp (command_value h (codes "store_data") e) (inl refl)

pub store_data-refused :
    (h : Dict Str) (n : ℤ)
    → lookup command_key h ≡ some (codes "store_data")
    → In bad_command (validate_wire_header (pos 1000) h n)
unfolding validate_wire_header header_of_type
store_data-refused h n e =
    behind bad_command (memory_request h n) "_msg_id" format (is_value h "_msg_id" "")
      (command_refused h n e)

-- What a type that the check does not cover is reported as.
abbrev pub not_covered : Violation
not_covered = record { severity = warn; wire_field = []; rule = uncovered }

pub disconnect-uncovered :
    (h : Dict Str) (n : ℤ) → In not_covered (validate_wire_header (pos 6) h n)
unfolding validate_wire_header header_of_type
disconnect-uncovered h n =
    behind not_covered (not_covered ∷ []) "_msg_id" format (is_value h "_msg_id" "") (inl refl)
