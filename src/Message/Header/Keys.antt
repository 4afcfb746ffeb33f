-- ===== src/Message/Header/Keys.antt =====
-- The message id and the command that a header carries, for each intent.
use pod_os_py_client.Prelude.{
  String, Bool, true, false, [], ◌∷◌, Option, none, some, if◌then◌else◌, ◌≡◌, refl,
}
use pod_os_py_client.Prelude.Text.{Str, codes, strip, str_eq, truthy}
use pod_os_py_client.Prelude.Dict.{or_empty}
use pod_os_py_client.Message.Types.{Message}
use pod_os_py_client.Message.Header.Fields.{Fields, field, field_when, field_if}
use pod_os_py_client.Message.Header.Reading.{last_value, last_value-append, or_option}
use pod_os_py_client.Message.Header.Gateway.{message_id_field}

-- The keys by which a reply is routed and its intent is found.
abbrev pub message_id_key : Str
message_id_key = codes "_msg_id"

abbrev pub command_key : Str
command_key = codes "_db_cmd"

module _ (key : Str) (k : String) (v : Str) (ne : str_eq (strip (codes k)) key ≡ false) where
  pub last_value-field_ne : last_value key (field k v) ≡ none
  unfolding last_value field
  last_value-field_ne = rw ne

  pub last_value-field_when_ne : (b : Bool) → last_value key (field_when b k v) ≡ none
  unfolding last_value field_when
  last_value-field_when_ne true = last_value-field_ne
  last_value-field_when_ne false = refl

  pub last_value-field_if_ne : last_value key (field_if k v) ≡ none
  unfolding field_if
  last_value-field_if_ne = last_value-field_when_ne (truthy v)

pub last_value-message_id_field :
    (msg : Message)
    → or_empty (last_value message_id_key (message_id_field msg)) ≡ strip msg.message_id
unfolding last_value field_if
last_value-message_id_field msg = go msg.message_id
  where
    go : (s : Str) → or_empty (last_value message_id_key (field_if "_msg_id" s)) ≡ strip s
    go [] = refl
    go (c ∷ s) = refl

pub last_value-if_ne :
    (key : Str) (b : Bool) (fs gs : Fields)
    → last_value key fs ≡ none
    → last_value key gs ≡ none
    → last_value key (if b then fs else gs) ≡ none
last_value-if_ne key true fs gs hf hg = hf
last_value-if_ne key false fs gs hf hg = hg

pub or_option-none : (o : Option Str) → or_option o none ≡ o
or_option-none none = refl
or_option-none (some v) = refl

pub last_value-nil : (key : Str) → last_value key [] ≡ none
unfolding last_value
last_value-nil key = refl

pub ruleset other_keys = (
  last_value-append, last_value-field_ne, last_value-field_when_ne, last_value-field_if_ne,
  last_value-if_ne, last_value-nil, or_option-none,
)

-- Fields of other keys than the two.
abbrev pub IsPlain : Fields → Type 0
IsPlain fs = (last_value message_id_key fs ≡ none) × (last_value command_key fs ≡ none)
