-- ===== src/Readiness/Gate/Laws.antt =====
-- The wait ends once enough probes in a row succeed.
use pod_os_py_client.Prelude.{
  ℕ, zero, suc, ◌+◌, ◌<◌, ◌≤◌, Bool, true, List, ◌++◌, Option, ◌≡◌, refl, arith, Bool-cases, inl,
  inr,
}
use pod_os_py_client.Prelude.Int.{pos}
use pod_os_py_client.Prelude.Text.{Str, codes}
use pod_os_py_client.Message.Types.{Message}
use pod_os_py_client.Readiness.{
  Sent, actor_health_probe_succeeded, build_actor_health_probe_message,
}
use pod_os_py_client.Readiness.Gate.{
  Durations, ActorAipReadinessConfig, Tries, Wait, ready, normalized, or_default, after_probe,
  is_ready, wait_loop, wait_for_aip_ready,
}

module _ {E D : Type 0} (durations : Durations D) (before : D → ℕ → Bool) (probe : ℕ → Sent E)
    (cfg : ActorAipReadinessConfig D) (r : ℕ)
    (required : cfg.required_consecutive ≡ pos (suc r)) where
  abbrev loop : ℕ → ℕ → Tries E D → List D × Wait E
  loop fuel attempt t = wait_loop durations before probe cfg fuel attempt t

  abbrev next : ℕ → Tries E D → Tries E D
  next attempt t = after_probe durations before probe cfg (probe attempt) t

  abbrev done : ℕ → Tries E D → Bool
  done attempt t = is_ready durations before probe cfg (probe attempt) t

  abbrev InTime : ℕ → Type 0
  InTime i = before cfg.timeout i ≡ true

  abbrev Succeeds : ℕ → Type 0
  Succeeds i = actor_health_probe_succeeded (probe i) ≡ true

  one_more :
      (attempt : ℕ) (t : Tries E D)
      → Succeeds attempt
      → (next attempt t).consecutive ≡ suc t.consecutive
  unfolding after_probe
  one_more attempt t h = rw h refl

  enough :
      (attempt : ℕ) (t : Tries E D) → Succeeds attempt → r ≤ t.consecutive → done attempt t ≡ true
  unfolding is_ready
  enough attempt t h lo = rw (h, required) (ground arith)

  last_round :
      (fuel attempt : ℕ) (t : Tries E D)
      → InTime attempt
      → done attempt t ≡ true
      → (loop (suc fuel) attempt t).1 ≡ ready
  unfolding wait_loop
  last_round fuel attempt t h d = rw (h, d) refl

  -- Behind a round in time the wait is ready, or goes on.
  next_round :
      (fuel attempt : ℕ) (t : Tries E D)
      → InTime attempt
      → (loop fuel (suc attempt) (next attempt t)).1 ≡ ready
      → (loop (suc fuel) attempt t).1 ≡ ready
  next_round fuel attempt t h rest = elim (Bool-cases (done attempt t)) [
    | inl d ↦ last_round fuel attempt t h d
    | inr d ↦ unfold wait_loop in rw (h, d) rest
  ]

  run_ready :
      (m fuel attempt : ℕ) (t : Tries E D)
      → m < fuel
      → r ≤ t.consecutive + m
      → ((i : ℕ) → attempt ≤ i → i ≤ attempt + m → InTime i × Succeeds i)
      → (loop fuel attempt t).1 ≡ ready
  run_ready m zero attempt t room lo good = let no : ⊥ = omega arith in elim no [ ]
  run_ready zero (suc fuel) attempt t room lo good =
      let (h, s) = good attempt (omega arith) (omega arith) in
      last_round fuel attempt t h (enough attempt t s (omega arith))
  run_ready (suc m) (suc fuel) attempt t room lo good =
      let (h, s) = good attempt (omega arith) (omega arith) in
      next_round fuel attempt t h (
        run_ready m fuel (suc attempt) (next attempt t) (omega arith)
          (omega (arith, one_more attempt t s)) (λ i low high. good i (omega arith) (omega arith)))

  loop_ready :
      (k fuel attempt : ℕ) (t : Tries E D)
      → k + r < fuel
      → ((i : ℕ) → attempt ≤ i → i ≤ attempt + k + r → InTime i)
      → ((i : ℕ) → attempt + k ≤ i → i ≤ attempt + k + r → Succeeds i)
      → (loop fuel attempt t).1 ≡ ready
  loop_ready k zero attempt t room timely good = let no : ⊥ = omega arith in elim no [ ]
  loop_ready zero (suc fuel) attempt t room timely good =
      run_ready r (suc fuel) attempt t (omega arith) (omega arith)
        (λ i low high. (timely i low (omega arith), good i (omega arith) (omega arith)))
  loop_ready (suc k) (suc fuel) attempt t room timely good =
      next_round fuel attempt t (timely attempt (omega arith) (omega arith)) (
        loop_ready k fuel (suc attempt) (next attempt t) (omega arith)
          (λ i low high. timely i (omega arith) (omega arith))
          (λ i low high. good i (omega arith) (omega arith)))

-- If from some round on the required number of probes in a row succeed, and the clock is before the
-- deadline until the last of these, the wait for an actor ends as ready, whatever the probes before
-- them came to, on every fuel that lets it take these rounds.
pub wait_for_aip_ready-ready :
    {E D : Type 0}
    → (durations : Durations D) (before : D → ℕ → Bool) (send : ℕ → Message → Str → Sent E)
      (fresh : ℕ → Str × Str) (fuel : ℕ) (actor_address from_address client_name actor_type : Str)
      (rc : Option (ActorAipReadinessConfig D)) (k r : ℕ)
    → (normalized durations (or_default durations rc)).required_consecutive ≡ pos (suc r)
    → k + r < fuel
    → ((i : ℕ)
        → i ≤ k + r
        → before (normalized durations (or_default durations rc)).timeout i ≡ true)
    → ((i : ℕ)
        → k ≤ i
        → i ≤ k + r
        → actor_health_probe_succeeded (
            send i
              (build_actor_health_probe_message actor_address from_address client_name actor_type
                (fresh i).0
                (fresh i).1)
              (codes "aip_ready_" ++ actor_address))
          ≡ true)
    → (wait_for_aip_ready durations before send fresh fuel actor_address from_address client_name
        actor_type rc).1
      ≡ ready
unfolding wait_for_aip_ready
wait_for_aip_ready-ready durations before send fresh fuel to from name kind rc k r required room
      timely good =
    loop_ready durations before _ (normalized durations (or_default durations rc)) r required k fuel
      0 _ room (λ i low high. timely i (omega arith))
      (λ i low high. good i (omega arith) (omega arith))
