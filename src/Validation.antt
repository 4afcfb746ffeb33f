-- ===== src/Validation.antt =====
-- pod_os_client/message/validate.py: what a violation is, and the check of a message's envelope,
-- `_validate_envelope` and `_is_name_at_gateway`.
pub mod Address
pub mod Intents
pub mod Payload
pub mod Header
pub mod Messages
pub mod Raw
use pod_os_py_client.Prelude.{
  ℕ, suc, ◌-◌, String, Bool, true, false, not, List, [], ◌∷◌, ◌++◌, Option, none, some,
  if◌then◌else◌, ◌==◌, ltb, length, ◌&&◌, map,
}
use pod_os_py_client.Prelude.Text.{Str, codes, str_eq, truthy, strip, elem_of, lower_ascii}
use pod_os_py_client.Message.Types.{Message}

-- `s.find(c)`; `none` is -1.
unfoldable pub find : ℕ → Str → Option ℕ
find c [] = none
find c (d ∷ s) =
    let rest = find c s in
    if d == c then some 0 else elim rest [ none ↦ none | some i ↦ some (suc i) ]

unfoldable pub is_name_at_gateway : Str → Bool
is_name_at_gateway s = elim (find b'@' s) [
  | none ↦ false
  | some i ↦ ltb 0 i && ltb i (length s - 1)
]

pub data Severity : Type 0 where
  error : Severity
  warn : Severity

pub data Rule : Type 0 where
  required one_of_required format nil_struct header_missing header_value : Rule
  payload_type payload_format semantic uncovered not_serialized : Rule

-- `ValidationError`: its severity, its field on the wire and its rule. The intent, the path in the
-- message and the texts are for the reader.
pub record Violation : Type 0 where
  pub severity : Severity
  pub wire_field : Str
  pub rule : Rule

abbrev pub report : Severity → String → Rule → List Violation
report severity field rule =
    record { severity = severity; wire_field = codes field; rule = rule } ∷ []

-- An error, and a warning.
abbrev pub violates : String → Rule → List Violation
violates field rule = report error field rule

abbrev pub warns : String → Rule → List Violation
warns field rule = report warn field rule

-- `if test: errs.append(…)`.
abbrev pub when : Bool → List Violation → List Violation
when test errs = if test then errs else []

-- Whether a violation is an error.
abbrev pub is_error : Violation → Bool
is_error v = elim v.severity [ error ↦ true | warn ↦ false ]

-- `PODOS_VALIDATE`, as the module reads it when it is loaded.
unfoldable pub enabled_by : Str → Bool
enabled_by setting =
    elem_of (strip (map lower_ascii setting)) (codes "1" ∷ codes "true" ∷ codes "yes" ∷ [])

-- What is wrong with an address.
unfoldable pub address_violations : String → Str → List Violation
address_violations field [] = violates field required
address_violations field (c ∷ s) = if is_name_at_gateway (c ∷ s) then [] else violates field format

unfoldable pub validate_envelope : Message → List Violation
validate_envelope msg =
    address_violations "to" msg.to
    ++ (address_violations "from" msg.from
        ++ ((if truthy msg.intent then [] else violates "intent" required)
            ++ (if str_eq msg.intent (codes "GatewayId") && not (truthy msg.client_name)
                then violates "id:name" required
                else [])))
