-- ===== src/Connection/Pool/Capacity.antt =====
-- How many connections a pool holds.
use pod_os_py_client.Prelude.{
  ℕ, suc, ◌+◌, ◌≤◌, ◌<◌, Bool, true, false, List, [], ◌∷◌, Option, none, some, ltb, length,
  length-append, ◌≡◌, arith, Bool-cases, inl, inr,
}
use pod_os_py_client.Connection.Pool.{
  Waiter, Pool, add, discard, acquire, put_back, release, close_all, Event, initializes, acquires,
  releases, cancels, takes_idle, pings, closes_all, step,
}
use pod_os_py_client.Connection.Pool.Branches.{
  List-cases, acquire_idle, acquire_room, acquire_full, created_pool, release_alone, release_gone,
  release_live,
}
use pod_os_py_client.Connection.Pool.Count.{count}

length-add : (c : ℕ) (xs : List ℕ) → length (add c xs) ≤ suc (length xs)
unfolding add
length-add c xs = ground arith

length-discard : (c : ℕ) (xs : List ℕ) → length (discard c xs) ≤ length xs
unfolding discard
length-discard c [] = omega arith
length-discard c (x ∷ xs) = ground (arith, length-discard c xs)

length-discard_in : (c : ℕ) (xs : List ℕ) → 0 < count c xs → length (discard c xs) < length xs
unfolding discard count
length-discard_in c [] h = omega arith
length-discard_in c (x ∷ xs) h = ground (arith, length-discard_in c xs, length-discard c xs)

abbrev pub held : Pool → ℕ
held p = length p.available + length p.in_use

-- The calls of the pool's clients, and the cancellation of one; a client releases what is in use.
abbrev pub IsClient : Event → Pool → Type 0
IsClient (initializes c) p = ⊥
IsClient (acquires created ticket) p = Unit
IsClient (releases up c) p = 0 < count c p.in_use
IsClient (cancels ticket) p = Unit
IsClient takes_idle p = ⊥
IsClient (pings up answers c) p = ⊥
IsClient closes_all p = Unit

module _ (n : ℕ) (p : Pool) (bound : p.max_capacity ≤ n) (fits : held p ≤ n) where
  abbrev Fits : Pool → Type 0
  Fits q = (q.max_capacity ≤ n) × (held q ≤ n)

  new-Fits :
      (created : Option ℕ)
      → p.available ≡ []
      → length p.in_use < p.max_capacity
      → Fits (created_pool created p)
  new-Fits none empty room = (bound, fits)
  new-Fits (some c) empty room = (bound, ground (arith, empty, bound, room, length-add c p.in_use))

  acquire-Fits : (created : Option ℕ) (ticket : ℕ) → Fits (acquire created ticket p).1
  acquire-Fits created ticket = elim (List-cases p.available) [
    | inr (c, rest, shape) ↦
        rw (acquire_idle created ticket p c rest shape)
          (bound, ground (arith, fits, shape, length-add c p.in_use))
    | inl empty ↦ elim (Bool-cases (ltb (length p.in_use) p.max_capacity)) [
      | inl room ↦
          rw (acquire_room created ticket p empty room)
            (new-Fits created empty (ground (arith, room)))
      | inr full ↦ rw (acquire_full created ticket p empty full) (bound, fits)
    ]
  ]

  put_back-Fits :
      (up : Bool) (c : ℕ) (ws : List Waiter)
      → 0 < count c p.in_use
      → Fits (put_back up c (record p { in_use = discard c p.in_use; waiters = ws })).1
  unfolding put_back
  put_back-Fits true c ws h = (
    bound,
    omega (arith, fits, length-append p.available (c ∷ []), length-discard_in c p.in_use h),
  )
  put_back-Fits false c ws h = (bound, omega (arith, fits, length-discard_in c p.in_use h))

  release-Fits : (up : Bool) (c : ℕ) → 0 < count c p.in_use → Fits (release up c p).1
  release-Fits up c h = elim (List-cases p.waiters) [
    | inl empty ↦ rw (release_alone up c p empty) (put_back-Fits up c p.waiters h)
    | inr (w, ws, shape) ↦ elim (Bool-cases w.done) [
      | inl gone ↦ rw (release_gone up c p w ws shape gone) (put_back-Fits up c ws h)
      | inr live ↦ rw (release_live up c p w ws shape live) (
        bound,
        omega (arith, fits, length-discard_in c p.in_use h, length-add c (discard c p.in_use)),
      )
    ]
  ]

  close_all-Fits : Fits (close_all p)
  unfolding close_all
  close_all-Fits = (bound, omega arith)

step-Fits :
    (n : ℕ) (e : Event) (p : Pool)
    → (p.max_capacity ≤ n) × (held p ≤ n)
    → IsClient e p
    → ((step e p).max_capacity ≤ n) × (held (step e p) ≤ n)
unfolding step
step-Fits n (initializes c) p h may = elim may [ ]
step-Fits n (acquires created ticket) p h may = acquire-Fits n p h.0 h.1 created ticket
step-Fits n (releases up c) p h may = release-Fits n p h.0 h.1 up c may
step-Fits n (cancels ticket) p h may = h
step-Fits n takes_idle p h may = elim may [ ]
step-Fits n (pings up answers c) p h may = elim may [ ]
step-Fits n closes_all p h may = close_all-Fits n p h.0 h.1

-- What the clients make of a pool.
pub data Served (start : Pool) : Pool → Type 0 where
  untouched : Served start start
  serves : {p : Pool} (e : Event) → Served start p → IsClient e p → Served start (step e p)

fits_after :
    (n : ℕ) (start p : Pool)
    → start.max_capacity ≤ n
    → held start ≤ n
    → Served start p
    → (p.max_capacity ≤ n) × (held p ≤ n)
fits_after n start p bound fits untouched = (bound, fits)
fits_after n start p bound fits (serves e s may) =
    step-Fits n e _ (fits_after n start _ bound fits s) may

-- While only clients use a pool, and release only what is in use, the connections that are idle or in
-- use are never more than the larger of its capacity and what it started with.
pub Served-held :
    (n : ℕ) (start p : Pool) → start.max_capacity ≤ n → held start ≤ n → Served start p → held p ≤ n
Served-held n start p bound fits s = (fits_after n start p bound fits s).1
