-- ===== src/Connection/Pool.antt =====
-- `ConnectionPool` of pod_os_client/connection/pool.py.
pub mod Count
pub mod Branches
pub mod Places
pub mod Capacity
use pod_os_py_client.Prelude.{
  ℕ, Bool, true, false, List, [], ◌∷◌, ◌++◌, Option, none, some, if◌then◌else◌, ltb, length, any,
  ◌==◌,
}

-- A future in the queue: `done` if its task was cancelled meanwhile.
pub record Waiter : Type 0 where
  pub ticket : ℕ
  pub done : Bool

-- Connections are the objects' identities. `pinging` holds those that a run of
-- `ping_idle_connections` has taken out and not yet dealt with; `closed` and `made` record the calls
-- of `conn.close()` and what the factory returned.
pub record Pool : Type 0 where
  pub max_capacity : ℕ
  pub available : List ℕ
  pub in_use : List ℕ
  pub waiters : List Waiter
  pub pinging : List ℕ
  pub closed : List ℕ
  pub made : List ℕ

-- A new pool.
abbrev pub empty_pool : ℕ → Pool
empty_pool n = record {
  max_capacity = n;
  available = [];
  in_use = [];
  waiters = [];
  pinging = [];
  closed = [];
  made = [];
}

-- `set.add` and `set.discard`, and the removal of one connection from a list.
unfoldable pub add : ℕ → List ℕ → List ℕ
add c xs = if any (λ x. x == c) xs then xs else c ∷ xs

unfoldable pub discard : ℕ → List ℕ → List ℕ
discard c [] = []
discard c (x ∷ xs) = let rest = discard c xs in if x == c then rest else x ∷ rest

pub data Acquired : Type 0 where
  acquired : ℕ → Acquired
  factory_failed : Acquired
  waiting : ℕ → Acquired

pub data Released : Type 0 where
  handed : ℕ → Released
  pooled : Released
  discarded : Released

abbrev pub in_use_new : ℕ → Pool → Pool
in_use_new c p = record p { in_use = add c p.in_use; made = c ∷ p.made }

-- `acquire`. `created` is what the factory does if it is called: a connection, or an exception.
-- `ticket` names the future that is waited for.
unfoldable pub acquire : Option ℕ → ℕ → Pool → Acquired × Pool
acquire created ticket p = elim p.available [
  | c ∷ rest ↦ (acquired c, record p { available = rest; in_use = add c p.in_use })
  | [] ↦
      if ltb (length p.in_use) p.max_capacity
      then elim created [ some c ↦ (acquired c, in_use_new c p) | none ↦ (factory_failed, p) ]
      else (
        waiting ticket,
        record p { waiters = p.waiters ++ (record { ticket = ticket; done = false } ∷ []) },
      )
]

-- Back among the idle connections, or closed if it is down.
unfoldable pub put_back : Bool → ℕ → Pool → Released × Pool
put_back up c p =
    if up
    then (pooled, record p { available = p.available ++ (c ∷ []) })
    else (discarded, record p { closed = c ∷ p.closed })

-- `release`. `up` is what `conn.is_connected()` returns.
unfoldable pub release : Bool → ℕ → Pool → Released × Pool
release up c p =
    let kept = discard c p.in_use in
    elim p.waiters [
      | [] ↦ put_back up c (record p { in_use = kept })
      | w ∷ ws ↦
          if w.done
          then put_back up c (record p { in_use = kept; waiters = ws })
          else (handed w.ticket, record p { in_use = add c kept; waiters = ws })
    ]

-- `close_all`: the connections are closed, the waiters cancelled.
unfoldable pub close_all : Pool → Pool
close_all p = record p {
  available = [];
  in_use = [];
  waiters = [];
  closed = p.in_use ++ (p.available ++ p.closed);
}

unfoldable pub size : Pool → ℕ × ℕ
size p = (length p.available, length p.in_use)

-- One round of `initialize`, and all of it: an exception of the factory ends it.
unfoldable pub initialize_one : ℕ → Pool → Pool
initialize_one c p = record p { available = p.available ++ (c ∷ []); made = c ∷ p.made }

unfoldable pub initialize : List (Option ℕ) → Pool → Bool × Pool
initialize [] p = (true, p)
initialize (none ∷ created) p = (false, p)
initialize (some c ∷ created) p = initialize created (initialize_one c p)

-- `ping_idle_connections` takes the idle connections out under the lock,
unfoldable pub ping_take : Pool → Pool
ping_take p = record p { available = []; pinging = p.pinging ++ p.available }

-- and deals with each without it: one that is down is closed, or one whose ping raises.
unfoldable pub ping_one : Bool → Bool → ℕ → Pool → Pool
ping_one up answers c p =
    let rest = discard c p.pinging in
    if up
    then (if answers
        then record p { pinging = rest; available = p.available ++ (c ∷ []) }
        else record p { pinging = rest; closed = c ∷ p.closed })
    else record p { pinging = rest; closed = c ∷ p.closed }

-- A task that waits is cancelled: its future is done, and stays in the queue.
unfoldable pub cancel : ℕ → List Waiter → List Waiter
cancel ticket [] = []
cancel ticket (w ∷ ws) =
    let rest = cancel ticket ws in
    if w.ticket == ticket then record w { done = true } ∷ rest else w ∷ rest

-- What happens to a pool.
pub data Event : Type 0 where
  initializes : ℕ → Event
  acquires : Option ℕ → ℕ → Event
  releases : Bool → ℕ → Event
  cancels : ℕ → Event
  takes_idle : Event
  pings : Bool → Bool → ℕ → Event
  closes_all : Event

unfoldable pub step : Event → Pool → Pool
step (initializes c) p = initialize_one c p
step (acquires created ticket) p = (acquire created ticket p).1
step (releases up c) p = (release up c p).1
step (cancels ticket) p = record p { waiters = cancel ticket p.waiters }
step takes_idle p = ping_take p
step (pings up answers c) p = ping_one up answers c p
step closes_all p = close_all p
