-- ===== src/Readiness/Gate.antt =====
-- pod_os_client/readiness/gate.py: the loop that waits until an actor answers its probe. The clock, what
-- each `send` comes to, the uuids and the arithmetic of durations are parameters.
pub mod Laws
use pod_os_py_client.Prelude.{
  ℕ, zero, suc, Bool, true, false, not, List, [], ◌∷◌, ◌++◌, Option, none, some, if◌then◌else◌,
  ◌&&◌,
}
use pod_os_py_client.Prelude.Int.{ℤ, pos, ltb_ℤ}
use pod_os_py_client.Prelude.Text.{Str, codes, truthy}
use pod_os_py_client.Message.Types.{Message, processing_message}
use pod_os_py_client.Readiness.{
  Sent, failed, responded, actor_health_probe_succeeded, build_actor_health_probe_message,
}

-- What the code does with its floats.
pub record Durations (D : Type 0) : Type 0 where
  pub seconds : ℕ → D
  pub positive : D → Bool
  pub doubled : D → D
  pub less : D → D → Bool
  pub least : D → D → D

pub record ActorAipReadinessConfig (D : Type 0) : Type 0 where
  pub timeout : D
  pub initial_backoff : D
  pub max_backoff : D
  pub required_consecutive : ℤ
  pub success_interval : D

pub record GatewayReadinessProbe : Type 0 where
  pub probe_actor : Str
  pub probe_actor_type : Str

-- Why the last probe that failed did.
pub data Cause (E : Type 0) : Type 0 where
  send_error : E → Cause E
  actor_error : Str → Cause E
  no_response : Cause E
  deadline_exceeded : Cause E

-- How the wait ends; `still_waiting` is the end of the fuel.
pub data Wait (E : Type 0) : Type 0 where
  ready : Wait E
  unreachable : Cause E → Wait E
  probe_actor_required : Wait E
  still_waiting : Wait E

abbrev pub cause_of : {E : Type 0} → Sent E → Cause E
cause_of (failed e) = send_error e
cause_of (responded (some msg)) = actor_error (processing_message msg)
cause_of (responded none) = no_response

abbrev pub or_deadline : {E : Type 0} → Option (Cause E) → Cause E
or_deadline none = deadline_exceeded
or_deadline (some cause) = cause

-- The variables of the loop.
pub record Tries (E D : Type 0) : Type 0 where
  pub backoff : D
  pub consecutive : ℕ
  pub last_err : Option (Cause E)

module _ {D : Type 0} (durations : Durations D) where
  abbrev positive_or : D → ℕ → D
  positive_or d n = if durations.positive d then d else durations.seconds n

  unfoldable pub normalized : ActorAipReadinessConfig D → ActorAipReadinessConfig D
  normalized rc = record {
    timeout = positive_or rc.timeout 60;
    initial_backoff = positive_or rc.initial_backoff 2;
    max_backoff = positive_or rc.max_backoff 8;
    required_consecutive =
        if ltb_ℤ (pos 0) rc.required_consecutive then rc.required_consecutive else pos 1;
    success_interval = positive_or rc.success_interval 2;
  }

  abbrev pub default_config : ActorAipReadinessConfig D
  default_config = record {
    timeout = durations.seconds 0;
    initial_backoff = durations.seconds 0;
    max_backoff = durations.seconds 0;
    required_consecutive = pos 0;
    success_interval = durations.seconds 0;
  }

  abbrev pub or_default : Option (ActorAipReadinessConfig D) → ActorAipReadinessConfig D
  or_default none = default_config
  or_default (some rc) = rc

  -- Whether the loop's test finds the clock before the deadline of a timeout, and what the probe comes
  -- to, by the number of the round from 0.
  module _ {E : Type 0} (before : D → ℕ → Bool) (probe : ℕ → Sent E)
      (cfg : ActorAipReadinessConfig D) where
    abbrev pub grown : D → D
    grown backoff =
        if durations.less backoff cfg.max_backoff
        then durations.least (durations.doubled backoff) cfg.max_backoff
        else backoff

    unfoldable pub after_probe : Sent E → Tries E D → Tries E D
    after_probe sent t =
        if actor_health_probe_succeeded sent
        then record t { backoff = cfg.initial_backoff; consecutive = suc t.consecutive }
        else record { backoff = grown t.backoff; consecutive = 0; last_err = some (cause_of sent) }

    abbrev pub pause : Sent E → Tries E D → D
    pause sent t = if actor_health_probe_succeeded sent then cfg.success_interval else t.backoff

    -- Whether enough probes in a row succeeded.
    unfoldable pub is_ready : Sent E → Tries E D → Bool
    is_ready sent t =
        actor_health_probe_succeeded sent
        && not (ltb_ℤ (pos (suc t.consecutive)) cfg.required_consecutive)

    -- A round, with the waits and the end of those behind it.
    abbrev pub round_end : Bool → Bool → Sent E → Tries E D → List D × Wait E → List D × Wait E
    round_end false done sent t rest = ([], unreachable (or_deadline t.last_err))
    round_end true true sent t rest = ([], ready)
    round_end true false sent t (waits, end) = (pause sent t ∷ waits, end)

    unfoldable pub wait_loop : ℕ → ℕ → Tries E D → List D × Wait E
    wait_loop zero attempt t = ([], still_waiting)
    wait_loop (suc fuel) attempt t =
        let sent = probe attempt in
        round_end (before cfg.timeout attempt) (is_ready sent t) sent t
          (wait_loop fuel (suc attempt) (after_probe sent t))

  -- The message and the label of a probe go to `send`; `fresh` gives the texts of the uuids.
  module _ {E : Type 0} (before : D → ℕ → Bool) (send : ℕ → Message → Str → Sent E)
      (fresh : ℕ → Str × Str) (fuel : ℕ) where
    -- The public name is `wait_for_actor_aip_ready`.
    unfoldable pub wait_for_aip_ready :
        Str → Str → Str → Str → Option (ActorAipReadinessConfig D) → List D × Wait E
    wait_for_aip_ready actor_address from_address client_name actor_type rc =
        let cfg = normalized (or_default rc) in
        let probe = λ (attempt : ℕ).
          send attempt
            (build_actor_health_probe_message actor_address from_address client_name actor_type
              (fresh attempt).0 (fresh attempt).1)
            (codes "aip_ready_" ++ actor_address) in
        wait_loop before probe cfg fuel 0
          (record { backoff = cfg.initial_backoff; consecutive = 0; last_err = none })

    unfoldable pub wait_for_gateway_aip_ready :
        GatewayReadinessProbe → Str → Str → Option (ActorAipReadinessConfig D) → List D × Wait E
    wait_for_gateway_aip_ready probe from_address client_name rc =
        if truthy probe.probe_actor
        then wait_for_aip_ready probe.probe_actor from_address client_name probe.probe_actor_type rc
        else ([], probe_actor_required)
