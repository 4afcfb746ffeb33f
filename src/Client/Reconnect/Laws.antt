-- ===== src/Client/Reconnect/Laws.antt =====
-- With a limit of tries the reconnection ends.
use pod_os_py_client.Prelude.{
  ℕ, zero, suc, ◌+◌, ◌<◌, ◌≤◌, Bool, true, false, List, [], ◌∷◌, Option, none, some, if◌then◌else◌,
  ◌≡◌, refl, arith, ◌⊎◌, inl, inr, ltb, ◌==◌, ◌||◌,
}
use pod_os_py_client.Client.Receiver.{
  ConnectionState, is_connected, is_reconnecting, reconnect_failed,
}
use pod_os_py_client.Client.Reconnect.{
  Try, closed_before, closed_behind_wait, close_fails, connect_fails, connects, Reconnect,
  reconnected, gave_up, tried, waited, reconnect_round, reconnect_loop, reconnect_client,
}

abbrev pub latest : {E D : Type 0} → Reconnect E D → Option ConnectionState
latest r = elim r.emitted [ [] ↦ none | (state, e) ∷ earlier ↦ some state ]

-- The client is not reconnecting, who waits for that is woken, and the state that was told last is the
-- one that it is in.
abbrev pub IsOver : {E D : Type 0} → Reconnect E D → Type 0
IsOver r =
    (r.reconnecting ≡ false)
    × (r.reconnect_set ≡ true)
    × (((r.connected ≡ true) × (latest r ≡ some is_connected))
        ⊎ ((r.connected ≡ false) × (latest r ≡ some reconnect_failed)))

module _ {E D : Type 0} (try_of : ℕ → Try E) (backoff : ℕ → D) (max_retries : ℕ)
    (handler : List (ConnectionState × Option E) → Option E)
    (calm : (told : List (ConnectionState × Option E)) → handler told ≡ none) where
  gave_up-IsOver : (r : Reconnect E D) → IsOver (gave_up try_of backoff max_retries handler r)
  unfolding gave_up
  gave_up-IsOver r = (refl, refl, inr (refl, refl))

  reconnected-IsOver :
      (r : Reconnect E D) → IsOver (reconnected try_of backoff max_retries handler r)
  unfolding reconnected
  reconnected-IsOver r = (refl, refl, inl (refl, refl))

  reconnect_round-IsOver :
      (t : Try E) (r : Reconnect E D) (again : Reconnect E D → Reconnect E D)
      → ((next : Reconnect E D)
          → next.reconnect_attempt ≡ suc r.reconnect_attempt
          → IsOver (again next))
      → IsOver (reconnect_round try_of backoff max_retries handler t r again)
  unfolding reconnect_round
  reconnect_round-IsOver closed_before r again h = gave_up-IsOver r
  reconnect_round-IsOver closed_behind_wait r again h = gave_up-IsOver _
  reconnect_round-IsOver (close_fails e) r again h = h _ refl
  reconnect_round-IsOver (connect_fails e) r again h = h _ refl
  reconnect_round-IsOver connects r again h =
      rw
        (calm
          (reconnected try_of backoff max_retries handler (
            waited try_of backoff max_retries handler
              (tried try_of backoff max_retries handler r))).emitted)
        (reconnected-IsOver _)

  either-IsOver :
      (b : Bool) (x y : Reconnect E D)
      → (b ≡ true → IsOver x)
      → IsOver y
      → IsOver (if b then x else y)
  either-IsOver true x y h k = h refl
  either-IsOver false x y h k = k

  may_try :
      (attempt : ℕ)
      → 0 < max_retries
      → (max_retries == 0 || ltb attempt max_retries) ≡ true
      → attempt < max_retries
  may_try attempt limited h = ground (arith, h)

  reconnect_loop-IsOver :
      (fuel round : ℕ) (r : Reconnect E D)
      → 0 < max_retries
      → r.reconnect_attempt ≤ max_retries
      → max_retries < r.reconnect_attempt + fuel
      → IsOver (reconnect_loop try_of backoff max_retries handler fuel round r)
  unfolding reconnect_loop
  reconnect_loop-IsOver zero round r limited lo hi = let no : ⊥ = omega arith in elim no [ ]
  reconnect_loop-IsOver (suc fuel) round r limited lo hi =
      either-IsOver (max_retries == 0 || ltb r.reconnect_attempt max_retries) _ _
        (λ more.
          let below = may_try r.reconnect_attempt limited more in
          reconnect_round-IsOver (try_of round) r _ (λ next counted.
            reconnect_loop-IsOver fuel (suc round) next limited (omega (arith, counted, below))
              (omega (arith, counted, hi))))
        (gave_up-IsOver r)

-- Where the tries are limited, the state handler raises nothing and the client is neither closed when
-- it starts nor left to another receiver, the reconnection ends whatever the tries come to, on one more fuel than there are tries:
-- the client is no longer reconnecting, who waits for that is woken, and the last state that was told
-- is CONNECTED if it is connected and else RECONNECT_FAILED.
pub reconnect_client-IsOver :
    {E D : Type 0}
    → (try_of : ℕ → Try E) (backoff : ℕ → D) (max_retries fuel : ℕ)
      (handler : List (ConnectionState × Option E) → Option E) (trigger_err : Option E)
      (r : Reconnect E D)
    → ((told : List (ConnectionState × Option E)) → handler told ≡ none)
    → 0 < max_retries
    → max_retries < fuel
    → IsOver (reconnect_client try_of backoff max_retries handler fuel false false trigger_err r)
unfolding reconnect_client
reconnect_client-IsOver try_of backoff max_retries fuel handler trigger_err r calm limited room =
    rw (calm ((is_reconnecting, trigger_err) ∷ r.emitted)) (
      reconnect_loop-IsOver try_of backoff max_retries handler calm fuel 0 _ limited (omega arith)
        (omega arith))
