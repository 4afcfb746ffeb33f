-- ===== src/Client/Reconnect.antt =====
-- `_reconnect` of `Client` (pod_os_client/client.py). What each try comes to is a function of its number
-- and the backoff (a float) one of the counter; what the state handler raises, if anything, is one of
-- all that it was told, the latest first.
pub mod Laws
use pod_os_py_client.Prelude.{
  ℕ, zero, suc, Bool, true, false, List, [], ◌∷◌, Option, none, some, if◌then◌else◌, ◌==◌, ltb,
  ◌||◌,
}
use pod_os_py_client.Client.{Client, fail_all_pending}
use pod_os_py_client.Client.Receiver.{
  ConnectionState, is_connected, is_disconnected, is_reconnecting, reconnect_failed,
}

-- A try: the client is found closed before it or behind its wait, closing the old connection fails, or
-- `connect` fails or succeeds.
pub data Try (E : Type 0) : Type 0 where
  closed_before : Try E
  closed_behind_wait : Try E
  close_fails : E → Try E
  connect_fails : E → Try E
  connects : Try E

-- `reconnect_set` is whether the event is set that requests wait for; `emitted` and `waits` have the
-- latest first.
pub record Reconnect (E D : Type 0) : Type 0 where
  pub table : Client
  pub connected : Bool
  pub reconnecting : Bool
  pub reconnect_attempt : ℕ
  pub reconnect_set : Bool
  pub last_err : Option E
  pub emitted : List (ConnectionState × Option E)
  pub waits : List D

module _ {E D : Type 0} (try_of : ℕ → Try E) (backoff : ℕ → D) (max_retries : ℕ)
    (handler : List (ConnectionState × Option E) → Option E) where
  unfoldable pub reconnected : Reconnect E D → Reconnect E D
  reconnected r = record r {
    connected = true;
    reconnecting = false;
    reconnect_attempt = 0;
    reconnect_set = true;
    emitted = (is_connected, none) ∷ r.emitted;
  }

  -- Behind the loop.
  unfoldable pub gave_up : Reconnect E D → Reconnect E D
  gave_up r = record r {
    connected = false;
    reconnecting = false;
    reconnect_set = true;
    emitted = (reconnect_failed, r.last_err) ∷ r.emitted;
  }

  abbrev pub tried : Reconnect E D → Reconnect E D
  tried r = record r { reconnect_attempt = suc r.reconnect_attempt }

  abbrev pub waited : Reconnect E D → Reconnect E D
  waited r = record r { waits = backoff r.reconnect_attempt ∷ r.waits }

  -- An error of the handler is caught like one of `connect`, behind the reset of the counter.
  abbrev pub when_told : Option E → Reconnect E D → (Reconnect E D → Reconnect E D) → Reconnect E D
  when_told none r again = r
  when_told (some e) r again = again (record r { last_err = some e })

  -- A try that fails leads to the next, of which the last argument is told.
  unfoldable pub reconnect_round :
      Try E → Reconnect E D → (Reconnect E D → Reconnect E D) → Reconnect E D
  reconnect_round closed_before r again = gave_up r
  reconnect_round closed_behind_wait r again = gave_up (waited (tried r))
  reconnect_round (close_fails e) r again = again (record (tried r) { last_err = some e })
  reconnect_round (connect_fails e) r again =
      again (record (waited (tried r)) { last_err = some e })
  reconnect_round connects r again =
      let done = reconnected (waited (tried r)) in when_told (handler done.emitted) done again

  -- 0 is no limit. At the end of the fuel the client is still reconnecting.
  unfoldable pub reconnect_loop : ℕ → ℕ → Reconnect E D → Reconnect E D
  reconnect_loop zero round r = r
  reconnect_loop (suc fuel) round r =
      if max_retries == 0 || ltb r.reconnect_attempt max_retries
      then reconnect_round (try_of round) r (λ next. reconnect_loop fuel (suc round) next)
      else gave_up r

  -- An error of the handler here ends the task, and the client stays as it is.
  abbrev pub when_started :
      Option E → Reconnect E D → (Reconnect E D → Reconnect E D) → Reconnect E D
  when_started none r loop = loop r
  when_started (some e) r loop = r

  -- `closed` and `external_receiver` are as they are when it starts.
  unfoldable pub reconnect_client : ℕ → Bool → Bool → Option E → Reconnect E D → Reconnect E D
  reconnect_client fuel true external_receiver trigger_err r = r
  reconnect_client fuel false true trigger_err r = record r {
    table = fail_all_pending r.table;
    connected = false;
    emitted = (is_disconnected, trigger_err) ∷ r.emitted;
  }
  reconnect_client fuel false false trigger_err r =
      let started = record r {
        reconnecting = true;
        reconnect_attempt = 0;
        reconnect_set = false;
        last_err = trigger_err;
        emitted = (is_reconnecting, trigger_err) ∷ r.emitted;
      } in
      when_started (handler started.emitted) started (λ next. reconnect_loop fuel 0 next)
