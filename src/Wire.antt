-- ===== src/Wire.antt =====
-- The wire format: message/encoder.py and message/decoder.py of pod_os_client, from the addresses,
-- the header text and the payload bytes to the frame and back.
pub mod Integer
pub mod Encoder
pub mod Decoder
pub mod RoundTrip
pub mod Framing
pub mod Envelope
pub mod Event
pub mod Response
pub mod Reply
pub mod EndToEnd
pub mod Acceptance
