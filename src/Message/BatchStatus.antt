-- ===== src/Message/BatchStatus.antt =====
-- pod_os_client/message/batch_status.py: whether the record of a stored batch reports a failure.
use pod_os_py_client.Prelude.{
  ℕ, ◌-◌, String, Bool, true, false, [], ◌∷◌, map, Option, none, some, if◌then◌else◌, leb, ltb,
  ◌&&◌, ◌||◌, ◌≡◌, refl, arith,
}
use pod_os_py_client.Prelude.Int.{ℤ, pos, negsuc}
use pod_os_py_client.Prelude.Text.{Str, codes, str_eq, strip, or_else, truthy}
use pod_os_py_client.Message.Types.{
  Message, ResponseFields, StoreLinkBatchEventRecord, StoreBatchEventRecord,
}

-- `str.upper` on ASCII letters. No other character's capital is a letter of `ERROR`.
unfoldable pub upper_ascii : ℕ → ℕ
upper_ascii c = if leb b'a' c && leb c b'z' then c - 32 else c

-- `status.strip().upper() == "ERROR"`.
unfoldable pub is_error : Str → Bool
unfolding upper_ascii
is_error status = str_eq (map upper_ascii (strip status)) (codes "ERROR")

abbrev pub above_zero : ℤ → Bool
above_zero (pos n) = ltb 0 n
above_zero (negsuc n) = false

-- The record's text, or what stands for it.
unfoldable pub failure_text : Str → String → Str
failure_text message default_text = or_else (strip message) (codes default_text)

unfoldable pub link_record_failed : StoreLinkBatchEventRecord → Option Str
link_record_failed rec =
    if is_error rec.status || above_zero rec.links_with_errors
    then some (failure_text rec.message "link store failed")
    else none

unfoldable pub links_response_failed : ResponseFields → Option Str
links_response_failed response = elim response.store_link_batch_event_record [
  | some rec ↦ link_record_failed rec
  | none ↦
      if above_zero response.storage_error_count then some (codes "link store failed") else none
]

unfoldable pub batch_links_failed : Message → Option Str
batch_links_failed msg = elim msg.response [
  | none ↦ none
  | some response ↦ links_response_failed response
]

unfoldable pub event_record_failed : StoreBatchEventRecord → Option Str
event_record_failed rec =
    if is_error rec.status then some (failure_text rec.message "batch event store failed") else none

unfoldable pub batch_events_failed : Message → Option Str
batch_events_failed msg = elim msg.response [
  | none ↦ none
  | some response ↦ elim response.store_batch_event_record [
    | none ↦ none
    | some rec ↦ event_record_failed rec
  ]
]

or_else-truthy : (s : Str) (c : ℕ) (t : Str) → truthy (or_else s (c ∷ t)) ≡ true
or_else-truthy [] c t = refl
or_else-truthy (d ∷ s) c t = refl

link_record-text :
    (rec : StoreLinkBatchEventRecord)
    → above_zero rec.links_with_errors ≡ true
    → (text : Str) × (link_record_failed rec ≡ some text) × (truthy text ≡ true)
unfolding link_record_failed failure_text
link_record-text rec h = (
  failure_text rec.message "link store failed",
  ground (arith, h),
  or_else-truthy (strip rec.message) _ _,
)

-- A reply to a batch of links whose record counts an error is a failure with a text that is not empty,
-- whatever status the reply and the record carry.
pub batch_links_failed-errors :
    (msg : Message) (response : ResponseFields) (rec : StoreLinkBatchEventRecord)
    → msg.response ≡ some response
    → response.store_link_batch_event_record ≡ some rec
    → above_zero rec.links_with_errors ≡ true
    → (text : Str) × (batch_links_failed msg ≡ some text) × (truthy text ≡ true)
unfolding batch_links_failed links_response_failed
batch_links_failed-errors msg response rec answered recorded errors =
    let (text, failed, some_text) = link_record-text rec errors in
    (
      text,
      rw (answered, batch_links_failed) (rw (recorded, links_response_failed) failed),
      some_text,
    )
