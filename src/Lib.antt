-- ===== src/Lib.antt =====
-- The Pod-OS Python client (pod_os_client): how a message becomes a frame of bytes, how a stream of
-- bytes is cut into frames and these become messages, and the connections that carry them.
--
-- The parts, and where they are modelled:
--   - message/intents.py: Intents (tables and lookups), Intents/Constants (the intents).
--     An intent fixes a frame's message type and a memory command.
--   - message/types.py, message/constants.py: Message/Types and Message/Defaults, with the source's
--     fields; `from_` is `from`, `data` is `content`. A float is its text and whether it is true.
--   - message/header.py: Message/Header, with the functions of the intents in Header/Gateway,
--     Header/Store and Header/Query. A header is a list of fields and a layout (parts joined by tabs, or
--     each with a tab behind it); `render` is its text. Header/Reading, Header/Carried and
--     Header/Routing hold the proofs.
--   - message/encoder.py: Message/Values and Message/Payload (tag values, batch lines, payload bytes),
--     Wire/Encoder (address checks and the frame), Wire/Integer (the format specifications x%08x, %09d
--     and Python's `int`).
--   - message/decoder.py: Wire/Decoder (size fields and segments), Header/Fields (`decode_header`),
--     Wire/Envelope (intent, id, payload), Wire/Event (the event), Wire/Response (counts), Wire/Reply
--     (`decode_message`, with the records). Wire/RoundTrip, Wire/Framing, Wire/EndToEnd, Wire/Acceptance and
--     the children of Wire/Reply hold the proofs.
--   - message/responses.py: Responses. Line and Fields read a line into a dict and an event, Tags its tags;
--     Search/Index is the single pass of `parse_get_events_for_tags_payload` and Search/Assembly what
--     follows it; GetEvent and Batches are the other replies. A dict of lists is Grouping. A function that
--     returns a pair with a success flag returns an option here, and the objects that the code changes in
--     place are values: Assembly keeps the events and links that rows share in two dicts.
--   - message/tag_format.py: Message/TagFormat, and Responses/Search/Owners for the repair of owners' lines.
--     message/batch_status.py: Message/BatchStatus.
--   - message/validate.py: Validation (the envelope), Validation/Intents, Validation/Payload and
--     Validation/Messages (`validate_message`), Validation/Header and Validation/Raw
--     (`validate_raw_message`). A violation is its severity, field and rule, without its texts.
--   - connection/client.py: Connection/Prefix, Connection/Receive (`receive` over a stream), Connection/Send
--     (`connect`, `send`, `close`, `reconnect`). A stream is the bytes that arrive in time and what follows
--     them: silence, the end, or an error.
--   - connection/pool.py: Connection/Pool, one function per operation, and `Event` for what may happen to
--     a pool. The lock makes an operation one step; `ping_idle_connections`, which gives the lock up, is
--     `ping_take` and then `ping_one` for each connection, between which anything may happen.
--   - connection/retry.py: Connection/Retry.
--   - client.py: Client, the table of pending replies: `send_message` registers a future, `_receive_loop` and
--     `deliver_response` answer it, a timeout or an error drops it, `_fail_all_pending` fails all. The lock
--     makes each of these one step; a timeout is two, since the future is cancelled before the entry goes.
--     A sender that raises leaves its future as it is, and the model notes that nobody waits for it.
--     Client/Receiver is a round of `_receive_loop` on what `receive` comes to, between whose rounds any
--     of the requests' steps may happen; Client/Reconnect is `_reconnect`, and Client/Sending
--     `_encode_and_validate`.
--   - readiness/health_probe.py, health.py: Readiness. readiness/gate.py: Readiness/Gate, whose loop takes a
--     round for each test of the clock; what `send` comes to is a function of the round.
--   - errors.py: Errors, the codes and fields; the connection's exceptions are its outcomes.
-- Prelude holds what they share: tests on numbers, lists, results, texts as lists of code points, dicts,
-- UTF-8. Tests runs the theorems at concrete messages, streams and pools.
--
-- How the parts meet: `encode_message` takes the text of `construct_header` and the bytes of
-- `payload_to_bytes` into a frame; `send` writes it, `receive` cuts the peer's stream at the frames'
-- lengths, `decode_frame` cuts a frame into its segments, `decode_header` reads the header's text into a
-- dict, and `envelope_of` takes the intent from the message type and the command in it. Of a response,
-- `decode_message` then reads the records from the header or the payload, by the intent's name.
--
-- Bounds and fuel: a size field holds less than 16 ^ 8 and a message is at most 2 ^ 31 bytes, so the
-- fields of an encoded frame never overflow; a type field holds less than 10 ^ 9 (less than 10 ^ 8 below
-- zero), which is a hypothesis where a data type is read back. `restore_breaks` drops a marker in each
-- round, so the length of the text is fuel enough. The wait of Readiness/Gate has no bound but the clock
-- and takes fuel, as does the loop of the reconnection, which without a limit of tries need not end; the
-- theorems say how much is enough. The digits of a number `n` are computed on fuel n + 1, which is enough
-- for every base above 1. All other loops are structural.
--
-- Parameters: the clock's text, what the factory, the pings and the health checks of a pool return, the
-- network, the outcome of each retried call, what a state handler raises (a function of what it was told),
-- the arithmetic of durations, whether a silence is too long, and `float` of a text.
--
-- Not modelled: the client's handshake, `send_message` as a whole and close (client.py), the task that
-- answers health probes, configuration, socket options, the texts of errors and violations, and the
-- functions that print these.
pub mod Prelude
pub mod Errors
pub mod Intents
pub mod Message
pub mod Wire
pub mod Readiness
pub mod Responses
pub mod Validation
pub mod Connection
pub mod Client
pub mod Tests
