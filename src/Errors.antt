-- ===== src/Errors.antt =====
-- The error codes of pod_os_client/errors.py, and what the encoder and the decoder raise. An error is
-- its class with its code and its field; the message text is left out.
use pod_os_py_client.Prelude.Text.{Str}

pub data EncodeErrorCode : Type 0 where
  encode_message_nil : EncodeErrorCode
  encode_payload_too_large : EncodeErrorCode
  encode_invalid_address : EncodeErrorCode
  encode_invalid_tag_value : EncodeErrorCode
  encode_header_construction_failed : EncodeErrorCode
  encode_batch_payload_failed : EncodeErrorCode

pub data DecodeErrorCode : Type 0 where
  decode_message_too_short : DecodeErrorCode
  decode_invalid_size_param : DecodeErrorCode
  decode_payload_too_large : DecodeErrorCode
  decode_invalid_header : DecodeErrorCode
  decode_invalid_message_type : DecodeErrorCode
  decode_invalid_data_type : DecodeErrorCode
  decode_header_transformation_failed : DecodeErrorCode
  decode_unknown_intent : DecodeErrorCode
  decode_payload_parse_failed : DecodeErrorCode

-- What leaves `encode_message`: an EncodeError, or an exception of Python itself that no handler
-- catches there.
pub data EncodeFailure : Type 0 where
  encode_error : EncodeErrorCode → Str → EncodeFailure
  value_error : EncodeFailure
  unicode_encode_error : EncodeFailure

-- What leaves `decode_message`: a DecodeError, or a ValueError of a payload parser.
pub data DecodeFailure : Type 0 where
  decode_error : DecodeErrorCode → Str → DecodeFailure
