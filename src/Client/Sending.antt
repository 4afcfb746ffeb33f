-- ===== src/Client/Sending.antt =====
-- `_encode_and_validate` of `Client` (pod_os_client/client.py).
pub mod Laws
use pod_os_py_client.Prelude.{Bool, List, [], ◌∷◌, some, Result, ok, err, ◌>>=◌}
use pod_os_py_client.Prelude.Text.{Str, Bytes, codes}
use pod_os_py_client.Errors.{EncodeFailure, encode_error, encode_header_construction_failed}
use pod_os_py_client.Intents.Constants.{Intent}
use pod_os_py_client.Message.Types.{Message}
use pod_os_py_client.Wire.Encoder.{encode_message}
use pod_os_py_client.Validation.{Violation}
use pod_os_py_client.Validation.Raw.{validate_raw_message}

abbrev pub wire_invalid : EncodeFailure
wire_invalid = encode_error encode_header_construction_failed (codes "message")

-- `if wire_errs`: a warning counts too.
abbrev pub if_nothing_found : List Violation → Bytes → Result EncodeFailure Bytes
if_nothing_found [] encoded = ok encoded
if_nothing_found (v ∷ vs) encoded = err wire_invalid

-- The first argument is whether validation is enabled.
unfoldable pub encode_and_validate : Bool → Str → Message → Intent → Result EncodeFailure Bytes
encode_and_validate enabled now msg intent = do
  encoded ← encode_message now (some msg) intent
  if_nothing_found (validate_raw_message enabled (some encoded)) encoded
