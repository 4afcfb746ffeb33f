-- ===== src/Wire/Response/Laws.antt =====
-- The counts of a response.
use pod_os_py_client.Prelude.{
  ℕ, suc, ◌+◌, ◌<◌, Bool, true, false, not, List, [], ◌∷◌, length, if◌then◌else◌, ◌≡◌, ◌≢◌, refl,
  sym, ap, ◌∙◌, arith, lt→ltb, In, inl, inr,
}
use pod_os_py_client.Prelude.Text.{Str, codes, str_eq, str_eq_iff, elem_of, truthy}
use pod_os_py_client.Prelude.Int.{pos}
use pod_os_py_client.Message.Types.{ResponseFields, StoreBatchEventRecord, EventFields}
use pod_os_py_client.Wire.Response.{
  ok_count, err_count, finalize_total, finalize_stored, finalize_store_batch_response, positive,
  is_ok,
}

total_lem :
    (response : ResponseFields) (batch : StoreBatchEventRecord)
    → positive batch.event_count ≡ false
    → 0 < length batch.event_results
    → let (r, b) = finalize_total response batch in
      (r.total_events ≡ pos (length batch.event_results))
      × (b.event_count ≡ pos (length batch.event_results))
      × (b.event_results ≡ batch.event_results)
unfolding finalize_total
total_lem response batch unstated h =
    ground (arith, unstated, h, lt→ltb 0 (length batch.event_results))

stored_lem :
    (response : ResponseFields) (results : List EventFields)
    → 0 < ok_count results + err_count results
    → let r = finalize_stored response results in
      (r.storage_success_count ≡ pos (ok_count results))
      × (r.storage_error_count ≡ pos (err_count results))
      × (r.total_events ≡ response.total_events)
unfolding finalize_stored
stored_lem response results h = ground (arith, h)

abbrev pub count_where {ℓ} : {A : Type ℓ} → (A → Bool) → List A → ℕ
count_where test [] = 0
count_where test (x ∷ xs) = if test x then suc (count_where test xs) else count_where test xs

-- The texts that a stored event's status may be.
abbrev pub ok_texts : List Str
ok_texts = codes "OK" ∷ codes "Ok" ∷ codes "oK" ∷ codes "ok" ∷ []

abbrev pub says_ok : EventFields → Bool
says_ok e = elem_of e.status ok_texts

abbrev pub says_nothing : EventFields → Bool
says_nothing e = str_eq e.status []

is_ok-ok_texts : (s : Str) → is_ok s ≡ elem_of s ok_texts
unfolding is_ok
is_ok-ok_texts [] = ground arith
is_ok-ok_texts (a ∷ []) = ground arith
is_ok-ok_texts (a ∷ b ∷ []) = ground arith
is_ok-ok_texts (a ∷ b ∷ c ∷ s) = ground arith

ok_count-count_where : (es : List EventFields) → ok_count es ≡ count_where says_ok es
unfolding ok_count
ok_count-count_where [] = refl
ok_count-count_where (e ∷ es) = rw (is_ok-ok_texts e.status, ok_count-count_where es) refl

-- An empty status is not ok.
empty_or_not : (s : Str) → (truthy s ≡ not (str_eq s [])) × (str_eq s [] ≡ true → is_ok s ≡ false)
unfolding is_ok
empty_or_not [] = (refl, λ h. refl)
empty_or_not (c ∷ s) = (refl, λ h. cc)

-- Each result is counted once, as stored, as failed, or as one that says nothing.
parts_lem :
    (es : List EventFields) → ok_count es + err_count es + count_where says_nothing es ≡ length es
unfolding ok_count err_count
parts_lem [] = refl
parts_lem (e ∷ es) = ground (arith, empty_or_not e.status, parts_lem es)

status_counted :
    (es : List EventFields) (e : EventFields)
    → In e es
    → e.status ≢ []
    → 0 < ok_count es + err_count es
unfolding ok_count err_count
status_counted [] e none_there some_text = elim none_there [ ]
status_counted (x ∷ es) e (inl same) some_text =
    let there : x.status ≢ [] = rw (← same) some_text in
    ground (arith, there, empty_or_not x.status, str_eq_iff x.status [])
status_counted (x ∷ es) e (inr later) some_text =
    let rest = status_counted es e later some_text in ground (arith, rest)

-- When a batch record states no number of events, and one of its results has a status, the number of
-- events becomes the number of results, in the record too; the number of stored events is the number of
-- results with the status `OK` in any case; and stored events, failed events and results without a
-- status are together the number of events.
pub finalize_store_batch_response-counts :
    (response : ResponseFields) (batch : StoreBatchEventRecord) (e : EventFields)
    → positive batch.event_count ≡ false
    → In e batch.event_results
    → e.status ≢ []
    → let (r, b) = finalize_store_batch_response response batch in
      (r.total_events ≡ pos (length batch.event_results))
      × (b.event_count ≡ r.total_events)
      × (r.storage_success_count ≡ pos (count_where says_ok batch.event_results))
      × ((failed : ℕ) × (r.storage_error_count ≡ pos failed)
          × (count_where says_ok batch.event_results
                + failed
                + count_where says_nothing batch.event_results
              ≡ length batch.event_results))
unfolding finalize_store_batch_response
finalize_store_batch_response-counts response batch e unstated member some_text =
    let parts = parts_lem batch.event_results in
    let oks = ok_count-count_where batch.event_results in
    let some_status = status_counted batch.event_results e member some_text in
    let (total, count, same) =
      total_lem response batch unstated (omega (arith, parts, some_status)) in
    let some_kept : 0
        < ok_count (finalize_total response batch).1.event_results
          + err_count (finalize_total response batch).1.event_results =
      rw same some_status in
    let (stored, failed, kept) =
      stored_lem (finalize_total response batch).0 (finalize_total response batch).1.event_results
        some_kept in
    (
      kept ∙ total,
      count ∙ sym (kept ∙ total),
      stored ∙ ap (λ es. pos (ok_count es)) same ∙ ap pos oks,
      (
        err_count batch.event_results,
        failed ∙ ap (λ es. pos (err_count es)) same,
        rw (← oks) parts,
      ),
    )
