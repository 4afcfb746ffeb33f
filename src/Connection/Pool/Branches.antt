-- ===== src/Connection/Pool/Branches.antt =====
-- What `acquire` and `release` do on each of their branches.
use pod_os_py_client.Prelude.{
  ℕ, Bool, true, false, List, [], ◌∷◌, ◌++◌, Option, none, some, ltb, length, ◌≡◌, refl, inl, inr,
  ◌⊎◌,
}
use pod_os_py_client.Connection.Pool.{
  Waiter, Pool, acquired, waiting, handed, add, discard, acquire, put_back, release, in_use_new,
}

pub List-cases : {A : Type 0} (xs : List A) → (xs ≡ []) ⊎ ((y : A) × (ys : List A) × (xs ≡ y ∷ ys))
List-cases [] = inl refl
List-cases (y ∷ ys) = inr (y, ys, refl)

-- The branches of `acquire` and `release`.
pub acquire_idle :
    (created : Option ℕ) (ticket : ℕ) (p : Pool) (c : ℕ) (rest : List ℕ)
    → p.available ≡ c ∷ rest
    → acquire created ticket p
      ≡ (acquired c, record p { available = rest; in_use = add c p.in_use })
unfolding acquire
acquire_idle created ticket p c rest h = rw (h, acquire) refl

abbrev pub created_pool : Option ℕ → Pool → Pool
created_pool none p = p
created_pool (some c) p = in_use_new c p

pub acquire_room :
    (created : Option ℕ) (ticket : ℕ) (p : Pool)
    → p.available ≡ []
    → ltb (length p.in_use) p.max_capacity ≡ true
    → (acquire created ticket p).1 ≡ created_pool created p
unfolding acquire
acquire_room none ticket p h room = simp (h, room, acquire)
acquire_room (some c) ticket p h room = simp (h, room, acquire)

pub acquire_full :
    (created : Option ℕ) (ticket : ℕ) (p : Pool)
    → p.available ≡ []
    → ltb (length p.in_use) p.max_capacity ≡ false
    → acquire created ticket p ≡ (
      waiting ticket,
      record p { waiters = p.waiters ++ (record { ticket = ticket; done = false } ∷ []) },
    )
unfolding acquire
acquire_full created ticket p h full = simp (h, full, acquire)

pub release_alone :
    (up : Bool) (c : ℕ) (p : Pool)
    → p.waiters ≡ []
    → release up c p ≡ put_back up c (record p { in_use = discard c p.in_use })
unfolding release
release_alone up c p h = simp (h, release)

pub release_gone :
    (up : Bool) (c : ℕ) (p : Pool) (w : Waiter) (ws : List Waiter)
    → p.waiters ≡ w ∷ ws
    → w.done ≡ true
    → release up c p ≡ put_back up c (record p { in_use = discard c p.in_use; waiters = ws })
unfolding release
release_gone up c p w ws h gone = rw (h, gone, release) refl

pub release_live :
    (up : Bool) (c : ℕ) (p : Pool) (w : Waiter) (ws : List Waiter)
    → p.waiters ≡ w ∷ ws
    → w.done ≡ false
    → release up c p
      ≡ (handed w.ticket, record p { in_use = add c (discard c p.in_use); waiters = ws })
unfolding release
release_live up c p w ws h live = rw (h, live, release) refl
