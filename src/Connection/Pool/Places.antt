-- ===== src/Connection/Pool/Places.antt =====
-- Where the connections of a pool are, over any sequence of events.
use pod_os_py_client.Prelude.{
  ℕ, ◌+◌, ◌≤◌, ◌<◌, Bool, true, false, List, [], ◌∷◌, ◌++◌, Option, none, some, if◌then◌else◌, ltb,
  length, ◌==◌, ◌≡◌, refl, arith, Bool-cases, inl, inr, ap, ◌∙◌,
}
use pod_os_py_client.Connection.Pool.{
  Waiter, Pool, empty_pool, add, discard, acquire, put_back, release, close_all, initialize_one,
  ping_take, ping_one, Event, initializes, acquires, releases, cancels, takes_idle, pings,
  closes_all, step, in_use_new,
}
use pod_os_py_client.Connection.Pool.Count.{
  count, count-append, count-one, count-cons, count-discard, count-add,
}
use pod_os_py_client.Connection.Pool.Branches.{
  List-cases, acquire_idle, acquire_room, acquire_full, created_pool, release_alone, release_gone,
  release_live,
}

abbrev pub places : ℕ → Pool → ℕ
places x p = count x p.available + count x p.in_use + count x p.pinging

-- A connection is in at most one place, once; it is there only if the factory made it; and one that
-- was made is there, or was closed.
abbrev pub IsSoundAt : ℕ → Pool → Type 0
IsSoundAt x p =
    (places x p ≤ 1)
    × (places x p ≤ count x p.made)
    × (0 < count x p.made → 0 < places x p + count x p.closed)

-- Only a connection that is new comes from the factory, only one that is in use is released, and only
-- one that was taken for it is pinged.
abbrev pub Allowed : Event → Pool → Type 0
Allowed (initializes c) p = count c p.made ≡ 0
Allowed (acquires created ticket) p = (c : ℕ) → created ≡ some c → count c p.made ≡ 0
Allowed (releases up c) p = 0 < count c p.in_use
Allowed (cancels ticket) p = Unit
Allowed takes_idle p = Unit
Allowed (pings up answers c) p = 0 < count c p.pinging
Allowed closes_all p = Unit

empty_sound : (n x : ℕ) → IsSoundAt x (empty_pool n)
unfolding count
empty_sound n x = ground arith

module _ (x : ℕ) (p : Pool) (sound : (y : ℕ) → IsSoundAt y p) where
  initialize_one-IsSoundAt : (c : ℕ) → count c p.made ≡ 0 → IsSoundAt x (initialize_one c p)
  unfolding initialize_one
  initialize_one-IsSoundAt c fresh = ground (
    arith,
    fresh,
    sound x,
    sound c,
    count-append x p.available (c ∷ []),
    count-one x c,
    count-cons x c p.made,
  )

  put_back-IsSoundAt :
      (up : Bool) (c : ℕ) (q : Pool)
      → ((y : ℕ) → places y q + (if c == y then 1 else 0) ≡ places y p)
      → q.made ≡ p.made
      → q.closed ≡ p.closed
      → IsSoundAt x (put_back up c q).1
  unfolding put_back
  put_back-IsSoundAt true c q moved same_made same_closed = ground (
    arith,
    sound x,
    moved x,
    same_made,
    same_closed,
    count-append x q.available (c ∷ []),
    count-one x c,
  )
  put_back-IsSoundAt false c q moved same_made same_closed =
      ground (arith, sound x, moved x, same_made, same_closed, count-cons x c q.closed)

  discarded :
      (c : ℕ) (xs : List ℕ)
      → count c xs ≡ 1
      → (y : ℕ) → count y (discard c xs) + (if c == y then 1 else 0) ≡ count y xs
  discarded c xs h y = ground (arith, h, count-discard y c xs)

  ping_one-IsSoundAt :
      (up answers : Bool) (c : ℕ) → 0 < count c p.pinging → IsSoundAt x (ping_one up answers c p)
  unfolding ping_one
  ping_one-IsSoundAt true true c h = ground (
    arith,
    sound x,
    sound c,
    count-discard x c p.pinging,
    count-append x p.available (c ∷ []),
    count-one x c,
  )
  ping_one-IsSoundAt true false c h =
      ground (arith, sound x, sound c, count-discard x c p.pinging, count-cons x c p.closed)
  ping_one-IsSoundAt false answers c h =
      ground (arith, sound x, sound c, count-discard x c p.pinging, count-cons x c p.closed)

  ping_take-IsSoundAt : IsSoundAt x (ping_take p)
  unfolding ping_take count
  ping_take-IsSoundAt = ground (arith, sound x, count-append x p.pinging p.available)

  close_all-IsSoundAt : IsSoundAt x (close_all p)
  unfolding close_all count
  close_all-IsSoundAt = ground (
    arith,
    sound x,
    count-append x p.in_use (p.available ++ p.closed),
    count-append x p.available p.closed,
  )

  taken_sound :
      (c : ℕ) (rest : List ℕ)
      → p.available ≡ c ∷ rest
      → IsSoundAt x (record p { available = rest; in_use = add c p.in_use })
  taken_sound c rest shape =
      let idle : (y : ℕ) → count y p.available ≡ (if c == y then 1 else 0) + count y rest =
        λ y. ap (count y) shape ∙ count-cons y c rest in
      ground (arith, sound x, sound c, idle x, idle c, count-add x c p.in_use)

  created_sound : (c : ℕ) → count c p.made ≡ 0 → IsSoundAt x (in_use_new c p)
  created_sound c fresh =
      ground (arith, fresh, sound x, sound c, count-add x c p.in_use, count-cons x c p.made)

  factory_sound :
      (created : Option ℕ)
      → ((c : ℕ) → created ≡ some c → count c p.made ≡ 0)
      → IsSoundAt x (created_pool created p)
  factory_sound none fresh = sound x
  factory_sound (some c) fresh = created_sound c (fresh c refl)

  acquire-IsSoundAt :
      (created : Option ℕ) (ticket : ℕ)
      → ((c : ℕ) → created ≡ some c → count c p.made ≡ 0)
      → IsSoundAt x (acquire created ticket p).1
  acquire-IsSoundAt created ticket fresh = elim (List-cases p.available) [
    | inr (c, rest, shape) ↦
        rw (acquire_idle created ticket p c rest shape) (taken_sound c rest shape)
    | inl empty ↦ elim (Bool-cases (ltb (length p.in_use) p.max_capacity)) [
      | inl room ↦ rw (acquire_room created ticket p empty room) (factory_sound created fresh)
      | inr full ↦ rw (acquire_full created ticket p empty full) (sound x)
    ]
  ]

  handed_sound :
      (c : ℕ) (ws : List Waiter)
      → 0 < count c p.in_use
      → IsSoundAt x (record p { in_use = add c (discard c p.in_use); waiters = ws })
  handed_sound c ws h = ground (
    arith,
    sound x,
    sound c,
    count-discard x c p.in_use,
    count-discard c c p.in_use,
    count-add x c (discard c p.in_use),
  )

  kept_sound :
      (up : Bool) (c : ℕ) (ws : List Waiter)
      → 0 < count c p.in_use
      → IsSoundAt x (put_back up c (record p { in_use = discard c p.in_use; waiters = ws })).1
  kept_sound up c ws h =
      put_back-IsSoundAt up c (record p { in_use = discard c p.in_use; waiters = ws })
        (λ y. ground (arith, sound c, discarded c p.in_use (ground (arith, sound c)) y)) refl refl

  release-IsSoundAt : (up : Bool) (c : ℕ) → 0 < count c p.in_use → IsSoundAt x (release up c p).1
  release-IsSoundAt up c h = elim (List-cases p.waiters) [
    | inl empty ↦ rw (release_alone up c p empty) (kept_sound up c p.waiters h)
    | inr (w, ws, shape) ↦ elim (Bool-cases w.done) [
      | inl gone ↦ rw (release_gone up c p w ws shape gone) (kept_sound up c ws h)
      | inr live ↦ rw (release_live up c p w ws shape live) (handed_sound c ws h)
    ]
  ]

step-IsSoundAt :
    (e : Event) (p : Pool)
    → ((y : ℕ) → IsSoundAt y p)
    → Allowed e p
    → (x : ℕ) → IsSoundAt x (step e p)
unfolding step
step-IsSoundAt (initializes c) p sound may x = initialize_one-IsSoundAt x p sound c may
step-IsSoundAt (acquires created ticket) p sound may x =
    acquire-IsSoundAt x p sound created ticket may
step-IsSoundAt (releases up c) p sound may x = release-IsSoundAt x p sound up c may
step-IsSoundAt (cancels ticket) p sound may x = sound x
step-IsSoundAt takes_idle p sound may x = ping_take-IsSoundAt x p sound
step-IsSoundAt (pings up answers c) p sound may x = ping_one-IsSoundAt x p sound up answers c may
step-IsSoundAt closes_all p sound may x = close_all-IsSoundAt x p sound

-- The pools that a new one of `n` connections at most can become.
pub data Reach (n : ℕ) : Pool → Type 0 where
  starts : Reach n (empty_pool n)
  steps : {p : Pool} (e : Event) → Reach n p → Allowed e p → Reach n (step e p)

-- In every pool that a new pool becomes, by any interleaving of the operations, of cancelled waiters
-- and of runs of `ping_idle_connections` included, where the factory returns new connections and only
-- connections in use are released: a connection is in one place at most, so never with two clients and
-- never idle while it is in use, and one that the factory made is in one of them or was closed.
pub Reach-IsSoundAt : (n : ℕ) (p : Pool) → Reach n p → (x : ℕ) → IsSoundAt x p
Reach-IsSoundAt n p starts x = empty_sound n x
Reach-IsSoundAt n p (steps e r may) x = step-IsSoundAt e _ (Reach-IsSoundAt n _ r) may x
