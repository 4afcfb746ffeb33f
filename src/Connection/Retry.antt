-- ===== src/Connection/Retry.antt =====
-- `retry_with_backoff` of pod_os_client/connection/retry.py.
use pod_os_py_client.Prelude.{
  ℕ, zero, suc, ◌+◌, ◌<◌, ◌≤◌, List, [], ◌∷◌, Option, none, some, if◌then◌else◌, ◌==◌, Result, ok,
  err, ◌≡◌, refl, arith, Bool, true, false,
}
use pod_os_py_client.Prelude.Int.{ℤ, pos, negsuc}

-- What comes out: the result, the exception of a call, or the RuntimeError behind the loop.
pub data Ended (T E : Type 0) : Type 0 where
  returned : T → Ended T E
  raised : E → Ended T E
  unexpected_retry_state : Ended T E

-- `func` gives what each call comes to, by its number from 0. The durations are Python's floats, with
-- their product and `min`.
module _ {T E D : Type 0} (func : ℕ → Result E T) (times minimum : D → D → D)
    (backoff_multiplier max_backoff : D) where
  abbrev pub next_backoff : D → D
  next_backoff backoff = minimum (times backoff backoff_multiplier) max_backoff

  abbrev pub behind_loop : Option E → Ended T E
  behind_loop (some e) = raised e
  behind_loop none = unexpected_retry_state

  abbrev pub last_of : Result E T → Option E → Option E
  last_of (ok t) last = last
  last_of (err e) last = some e

  -- A call returns, raises in the last round, or is tried again after a wait.
  abbrev pub round_result : Bool → D → Result E T → List D × Ended T E → List D × Ended T E
  round_result final backoff (ok t) rest = ([], returned t)
  round_result final backoff (err e) (waits, end) =
      if final then ([], raised e) else (backoff ∷ waits, end)

  -- The rest of the loop, `left` rounds from round `attempt`: the waits, and how it ends.
  unfoldable pub retry_loop : ℕ → ℕ → ℕ → D → Option E → List D × Ended T E
  retry_loop max_retries zero attempt backoff last = ([], behind_loop last)
  retry_loop max_retries (suc left) attempt backoff last =
      round_result (suc attempt == max_retries) backoff (func attempt) (
        retry_loop max_retries left (suc attempt) (next_backoff backoff)
          (last_of (func attempt) last))

  -- `range` of a number below 1 has no round.
  unfoldable pub retry_with_backoff : ℤ → D → List D × Ended T E
  retry_with_backoff (pos max_retries) initial_backoff =
      retry_loop max_retries max_retries 0 initial_backoff none
  retry_with_backoff (negsuc n) initial_backoff = ([], unexpected_retry_state)

  -- The waits of `n` failed calls: each is the one before times the multiplier, cut at the maximum.
  unfoldable pub waits : ℕ → D → List D
  waits zero backoff = []
  waits (suc n) backoff = backoff ∷ waits n (minimum (times backoff backoff_multiplier) max_backoff)

  -- A call that fails, by its exception.
  abbrev pub Fails : ℕ → Type 0
  Fails i = (e : E) × (func i ≡ err e)

  retry_loop-suc :
      (max_retries left attempt : ℕ) (backoff : D) (last : Option E)
      → retry_loop max_retries (suc left) attempt backoff last
        ≡ round_result (suc attempt == max_retries) backoff (func attempt) (
            retry_loop max_retries left
              (suc attempt)
              (next_backoff backoff)
              (last_of (func attempt) last))
  unfolding retry_loop
  retry_loop-suc max_retries left attempt backoff last = refl

  failure_step :
      (max_retries left attempt : ℕ) (backoff : D) (last : Option E) (e : E) {ws : List D}
      {end : Ended T E}
      → func attempt ≡ err e
      → (suc attempt == max_retries) ≡ false
      → retry_loop max_retries left (suc attempt) (next_backoff backoff) (some e) ≡ (ws, end)
      → retry_loop max_retries (suc left) attempt backoff last ≡ (backoff ∷ ws, end)
  failure_step max_retries left attempt backoff last e h more rest =
      rw (retry_loop-suc max_retries left attempt backoff last, h, more, rest) refl

  -- From round `attempt` on, `n` calls fail and the next succeeds.
  loop_returned :
      (n left attempt max_retries j : ℕ) (backoff : D) (last : Option E) (t : T)
      → n < left
      → max_retries ≡ attempt + left
      → j ≡ attempt + n
      → ((i : ℕ) → attempt ≤ i → i < j → Fails i)
      → func j ≡ ok t
      → retry_loop max_retries left attempt backoff last ≡ (waits n backoff, returned t)
  unfolding waits
  loop_returned n zero attempt m j backoff last t room total place fails h =
      let no : ⊥ = omega arith in elim no [ ]
  loop_returned zero (suc left) attempt m j backoff last t room total place fails h =
      let here : attempt ≡ j = omega arith in
      rw (retry_loop-suc m left attempt backoff last, here, h) refl
  loop_returned (suc n) (suc left) attempt m j backoff last t room total place fails h =
      let (e, failed) = fails attempt (omega arith) (omega arith) in
      failure_step m left attempt backoff last e failed (ground arith) (
        loop_returned n left (suc attempt) m j (next_backoff backoff) (some e) t (omega arith)
          (omega arith) (omega arith) (λ i low high. fails i (omega arith) high) h)

  -- From round `attempt` on, every call fails.
  loop_raised :
      (left attempt max_retries j : ℕ) (backoff : D) (last : Option E) (e : E)
      → max_retries ≡ attempt + suc left
      → suc j ≡ max_retries
      → ((i : ℕ) → attempt ≤ i → i < j → Fails i)
      → func j ≡ err e
      → retry_loop max_retries (suc left) attempt backoff last ≡ (waits left backoff, raised e)
  unfolding waits
  loop_raised zero attempt m j backoff last e total final fails h =
      let here : attempt ≡ j = omega arith in
      let done : (suc j == m) ≡ true = ground arith in
      rw (retry_loop-suc m zero attempt backoff last, here, h, done) refl
  loop_raised (suc left) attempt m j backoff last e total final fails h =
      let (first, failed) = fails attempt (omega arith) (omega arith) in
      failure_step m (suc left) attempt backoff last first failed (ground arith) (
        loop_raised left (suc attempt) m j (next_backoff backoff) (some first) e (omega arith) final
          (λ i low high. fails i (omega arith) high) h)

  -- Waits that grow without a limit, each cut at the maximum.
  unfoldable pub cut_waits : ℕ → D → List D
  cut_waits zero grown = []
  cut_waits (suc n) grown = minimum grown max_backoff ∷ cut_waits n (times grown backoff_multiplier)

  -- The initial backoff as it is, and behind it the cut ones.
  unfoldable pub planned_waits : ℕ → D → List D
  planned_waits zero initial_backoff = []
  planned_waits (suc n) initial_backoff =
      initial_backoff ∷ cut_waits n (times initial_backoff backoff_multiplier)

  -- A wait that was cut is no less cut when it grows: the multiplier is at least 1.
  abbrev pub CutStays : Type 0
  CutStays =
      (d : D)
      → minimum (times (minimum d max_backoff) backoff_multiplier) max_backoff
        ≡ minimum (times d backoff_multiplier) max_backoff

  waits_cut :
      (n : ℕ) (grown : D) → CutStays → waits n (minimum grown max_backoff) ≡ cut_waits n grown
  unfolding waits cut_waits
  waits_cut zero grown stays = refl
  waits_cut (suc n) grown stays =
      rw (stays grown, waits_cut n (times grown backoff_multiplier) stays) refl

  waits_planned :
      (n : ℕ) (initial_backoff : D)
      → CutStays
      → waits n initial_backoff ≡ planned_waits n initial_backoff
  unfolding waits planned_waits
  waits_planned zero initial_backoff stays = refl
  waits_planned (suc n) initial_backoff stays =
      rw (waits_cut n (times initial_backoff backoff_multiplier) stays) refl

  -- When the calls before the `n`-th fail and the `n`-th, counted from 0, succeeds, there are more than
  -- `n` tries, and the multiplier is at least 1, in the sense that a cut wait times it, cut, is the wait
  -- itself times it, cut: the value is returned after `n` waits, of which the first is the initial
  -- backoff and each later one the initial backoff times that many multipliers, cut once at the maximum.
  pub retry_with_backoff-returned :
      (max_retries n : ℕ) (initial_backoff : D) (t : T)
      → CutStays
      → n < max_retries
      → ((i : ℕ) → i < n → Fails i)
      → func n ≡ ok t
      → retry_with_backoff (pos max_retries) initial_backoff
        ≡ (planned_waits n initial_backoff, returned t)
  unfolding retry_with_backoff
  retry_with_backoff-returned max_retries n initial_backoff t stays room fails h =
      rw (← waits_planned n initial_backoff stays) (
        loop_returned n max_retries 0 max_retries n initial_backoff none t room (omega arith)
          (omega arith) (λ i low high. fails i high) h)

  -- When all tries fail, and there is one at least, the exception of the last is raised, and there is
  -- a wait between every two tries and none behind the last.
  pub retry_with_backoff-raised :
      (n : ℕ) (initial_backoff : D) (e : E)
      → ((i : ℕ) → i < n → Fails i)
      → func n ≡ err e
      → retry_with_backoff (pos (suc n)) initial_backoff ≡ (waits n initial_backoff, raised e)
  unfolding retry_with_backoff
  retry_with_backoff-raised n initial_backoff e fails h =
      loop_raised n 0 (suc n) n initial_backoff none e (omega arith) refl
        (λ i low high. fails i high) h
