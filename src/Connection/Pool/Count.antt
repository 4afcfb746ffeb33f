-- ===== src/Connection/Pool/Count.antt =====
-- How often a connection occurs in a list of the pool, and what `add` and `discard` do to that.
use pod_os_py_client.Prelude.{
  ℕ, suc, ◌+◌, ◌<◌, true, false, List, [], ◌∷◌, ◌++◌, if◌then◌else◌, any, ◌==◌, ◌≡◌, refl, arith,
}
use pod_os_py_client.Connection.Pool.{add, discard}

-- How often a connection occurs.
unfoldable pub count : ℕ → List ℕ → ℕ
count c [] = 0
count c (x ∷ xs) = let rest = count c xs in if x == c then suc rest else rest

pub count-append : (c : ℕ) (xs ys : List ℕ) → count c (xs ++ ys) ≡ count c xs + count c ys
unfolding count
count-append c [] ys = omega arith
count-append c (x ∷ xs) ys = ground (arith, count-append c xs ys)

pub count-one : (c x : ℕ) → count c (x ∷ []) ≡ (if x == c then 1 else 0)
unfolding count
count-one c x = ground arith

pub count-cons : (c x : ℕ) (xs : List ℕ) → count c (x ∷ xs) ≡ (if x == c then 1 else 0) + count c xs
unfolding count
count-cons c x xs = ground arith

pub count-discard :
    (c x : ℕ) (xs : List ℕ) → count c (discard x xs) ≡ (if x == c then 0 else count c xs)
unfolding count discard
count-discard c x [] = ground arith
count-discard c x (y ∷ ys) = ground (arith, count-discard c x ys)

pub absent : (x : ℕ) (xs : List ℕ) → any (λ y. y == x) xs ≡ false → count x xs ≡ 0
unfolding count
absent x [] h = refl
absent x (y ∷ ys) h = ground (arith, absent x ys)

pub present : (x : ℕ) (xs : List ℕ) → any (λ y. y == x) xs ≡ true → 0 < count x xs
unfolding count
present x [] h = ground arith
present x (y ∷ ys) h = ground (arith, present x ys)

-- `set.add` adds one occurrence of what was absent.
pub count-add :
    (c x : ℕ) (xs : List ℕ)
    → count x xs ≡ 0
    → count c (add x xs) ≡ (if x == c then 1 else 0) + count c xs
unfolding add
count-add c x xs h = ground (arith, h, present x xs, count-cons c x xs)
