-- ===== src/Tests/ConnectionRuns.antt =====
-- Concrete runs of the connection layer.
use pod_os_py_client.Prelude.{
  ℕ, ltb, if◌then◌else◌, ◌≤◌, true, false, [], ◌∷◌, ◌++◌, some, Result, ok, err, ◌≡◌, refl, arith,
  ◌*◌, min,
}
use pod_os_py_client.Prelude.Int.{pos}
use pod_os_py_client.Prelude.Text.{Bytes, codes}
use pod_os_py_client.Wire.Integer.{size_field, digits}
use pod_os_py_client.Wire.Framing.{IsFrame}
use pod_os_py_client.Connection.Receive.{
  Connection, Stream, quiet, ended, receive, read_exactly, received, receive_idle_timeout,
  not_connected,
}
use pod_os_py_client.Connection.Receive.Framing.{receive_times, receive_times-frames}
use pod_os_py_client.Connection.Receive.Health.{
  is_benign, receive-is_benign, receive_idle-unchanged,
}
use pod_os_py_client.Connection.Send.{opened, connect}
use pod_os_py_client.Connection.Invariant.{
  IsReady, unconnected, made, connects, receives, Lives-IsReady,
}
use pod_os_py_client.Connection.Pool.{Pool, empty_pool, acquires, releases, step, acquire, add}
use pod_os_py_client.Connection.Pool.Count.{count}
use pod_os_py_client.Connection.Pool.Places.{IsSoundAt, Reach, starts, steps, Reach-IsSoundAt}
use pod_os_py_client.Connection.Pool.Capacity.{Served, untouched, serves, held, Served-held}
use pod_os_py_client.Connection.Retry.{
  retry_with_backoff, waits, planned_waits, returned, raised, retry_with_backoff-returned,
  retry_with_backoff-raised,
}

abbrev up : Connection
up = record { connected = true; reader = true; writer = true }

abbrev hello : Bytes
hello = codes "x0000000ehello"

abbrev again : Bytes
again = codes "x0000000a!"

hello-IsFrame : IsFrame hello
unfolding size_field digits
hello-IsFrame = (codes "hello", omega arith, omega arith, refl)

again-IsFrame : IsFrame again
unfolding size_field digits
again-IsFrame = (codes "!", omega arith, omega arith, refl)

-- Two frames and the start of a third arrive at once.
receive_times-frames_example :
    receive_times 2 true true up
      (record { buffer = hello ++ (again ++ codes "x00"); ending = quiet })
    ≡ (received hello ∷ received again ∷ [], up, record { buffer = codes "x00"; ending = quiet })
receive_times-frames_example =
    receive_times-frames true true up quiet (hello ∷ again ∷ []) (codes "x00") refl (ground arith)
      (hello-IsFrame, (again-IsFrame, tt))

-- The stream ends inside a frame.
abbrev cut_short : Stream
cut_short = record { buffer = codes "x0000000ehel"; ending = ended }

receive-is_benign_example :
    ((receive true true up cut_short).1.connected ≡ is_benign (receive true true up cut_short).0)
    × (is_benign (receive true true up cut_short).0 ≡ false
        → (later : Stream)
        → receive true true (receive true true up cut_short).1 later
          ≡ (not_connected, (receive true true up cut_short).1, later))
receive-is_benign_example = receive-is_benign true true up cut_short refl refl

abbrev early : Stream
early = record { buffer = codes "x0000"; ending = quiet }

receive-early : receive true true up early ≡ (receive_idle_timeout, up, early)
unfolding receive read_exactly
receive-early = refl

receive_idle-unchanged_example : (up ≡ up) × (early ≡ early)
receive_idle-unchanged_example =
    receive_idle-unchanged true true up up early early refl refl receive-early

-- One connection is made and taken out, and comes back.
abbrev lent : Pool
lent = step (acquires (some 4) 0) (empty_pool 1)

lent-Reach : Reach 1 lent
unfolding count
lent-Reach = steps (acquires (some 4) 0) starts (λ c e. refl)

back-Reach : Reach 1 (step (releases true 4) lent)
unfolding count step acquire add
back-Reach = steps (releases true 4) lent-Reach (omega arith)

Reach-IsSoundAt_example : IsSoundAt 4 (step (releases true 4) lent)
Reach-IsSoundAt_example = Reach-IsSoundAt 1 (step (releases true 4) lent) back-Reach 4

lent-Served : Served (empty_pool 1) (step (releases true 4) lent)
unfolding count step acquire add
lent-Served = serves (releases true 4) (serves (acquires (some 4) 0) untouched tt) (omega arith)

Served-held_example : held (step (releases true 4) lent) ≤ 1
Served-held_example =
    Served-held 1 (empty_pool 1) (step (releases true 4) lent) (omega arith) (omega arith)
      lent-Served

-- Two calls fail, the third does not; and a service that is down.
abbrev third_time : ℕ → Result ℕ ℕ
third_time n = if ltb n 2 then err n else ok 40

abbrev never : ℕ → Result ℕ ℕ
never n = err n

doubled_cut : (d : ℕ) → min (min d 30 * 2) 30 ≡ min (d * 2) 30
doubled_cut d = ground arith

-- The backoff doubles, and is cut at 30.
retry_with_backoff-returned_example :
    retry_with_backoff {T = ℕ} {E = ℕ} {D = ℕ} third_time ◌*◌ min 2 30 (pos 5) 10
    ≡ (planned_waits {T = ℕ} {E = ℕ} {D = ℕ} third_time ◌*◌ min 2 30 2 10, returned 40)
retry_with_backoff-returned_example =
    retry_with_backoff-returned third_time ◌*◌ min 2 30 5 2 10 40 doubled_cut (omega arith)
      (λ i small. (i, ground arith)) refl

retry_with_backoff-raised_example :
    retry_with_backoff {T = ℕ} {E = ℕ} {D = ℕ} never ◌*◌ min 2 30 (pos 3) 10
    ≡ (waits {T = ℕ} {E = ℕ} {D = ℕ} never ◌*◌ min 2 30 2 10, raised 2)
retry_with_backoff-raised_example =
    retry_with_backoff-raised never ◌*◌ min 2 30 2 10 2 (λ i small. (i, refl)) refl

-- Connected, and idle once.
abbrev idle_once : Connection
idle_once = (receive true true (connect (codes "tcp") opened unconnected).1 early).1

Lives-IsReady_example : IsReady idle_once
Lives-IsReady_example =
    Lives-IsReady idle_once (receives true true early (connects (codes "tcp") opened made))
