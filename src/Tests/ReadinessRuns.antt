-- ===== src/Tests/ReadinessRuns.antt =====
-- An actor that answers the second and the third probe.
use pod_os_py_client.Prelude.{
  ℕ, zero, suc, ◌*◌, ◌≤◌, Bool, true, ltb, none, some, if◌then◌else◌, ◌≡◌, refl, arith,
}
use pod_os_py_client.Prelude.Int.{pos}
use pod_os_py_client.Prelude.Text.{Str, codes}
use pod_os_py_client.Message.Types.{Message}
use pod_os_py_client.Readiness.{Sent, failed, responded, actor_health_probe_succeeded}
use pod_os_py_client.Readiness.Gate.{
  Durations, ActorAipReadinessConfig, ready, normalized, wait_for_aip_ready,
}
use pod_os_py_client.Readiness.Gate.Laws.{wait_for_aip_ready-ready}

abbrev whole_seconds : Durations ℕ
whole_seconds = record {
  seconds = λ n. n;
  positive = λ n. ltb 0 n;
  doubled = λ n. n * 2;
  less = ltb;
  least = λ a b. if ltb a b then a else b;
}

abbrev twice : ActorAipReadinessConfig ℕ
twice = record {
  timeout = 9;
  initial_backoff = 0;
  max_backoff = 0;
  required_consecutive = pos 2;
  success_interval = 0;
}

abbrev answers : ℕ → Message → Str → Sent ℕ
answers zero msg label = failed 7
answers (suc i) msg label = responded none

abbrev in_time : ℕ → ℕ → Bool
in_time timeout i = ltb i timeout

abbrev uuids : ℕ → Str × Str
uuids i = (codes "1", codes "2")

twice-required : (normalized whole_seconds twice).required_consecutive ≡ pos 2
unfolding normalized
twice-required = refl

twice-timeout : (normalized whole_seconds twice).timeout ≡ 9
unfolding normalized
twice-timeout = refl

answers-succeed :
    (i : ℕ) (msg : Message) (label : Str)
    → 1 ≤ i
    → actor_health_probe_succeeded (answers i msg label) ≡ true
unfolding actor_health_probe_succeeded
answers-succeed zero msg label h = let no : ⊥ = omega arith in elim no [ ]
answers-succeed (suc i) msg label h = refl

wait_for_aip_ready-ready_example :
    (wait_for_aip_ready whole_seconds in_time answers uuids 5
      (codes "a@g")
      (codes "b@g")
      (codes "b")
      (codes "pod_db")
      (some twice)).1
    ≡ ready
wait_for_aip_ready-ready_example =
    wait_for_aip_ready-ready whole_seconds in_time answers uuids 5 (codes "a@g") (codes "b@g")
      (codes "b") (codes "pod_db") (some twice) 1 1 twice-required (omega arith)
      (λ i small. rw twice-timeout (ground arith)) (λ i low small. answers-succeed i _ _ low)
