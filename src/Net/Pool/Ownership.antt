-- ===== src/Net/Pool/Ownership.antt =====
-- core/net/connection_pool.cpp with its borrowers (core/scenario/engine.cpp, `ClientGuard`): who owns
-- which client, and what the counter counts.
use cppload_workflow.Prelude.{
  ℕ, suc, ◌+◌, ◌≤◌, ◌≡◌, refl, inl, inr, Bool, true, false, Option, some, none, List, [], ◌∷◌, ◌++◌,
  arith, Bool-cases, ltb, leb, ◌==◌, if◌then◌else◌, length, Bytes,
}
use cppload_workflow.Net.Pool.{
  PoolEntry, PoolConfig, Pool, create, key_of, queue_at, acquire, release, cleanup, weigh,
  weigh_all, idle, take_client,
}
use cppload_workflow.Net.Pool.Queues.{
  weigh-append, weigh_all-set_queue, weigh-queue_at-le, weigh_all-expire_all-le, expire_all_total,
  unit_weight,
}

-- The pool, the clients that borrowers hold, and the number of clients that borrowers destroyed.
pub record System : Type 0 where
  pub pool : Pool
  pub lent : List ℕ
  pub dropped : ℕ

-- What a borrower does; `drops` is a `ClientGuard` with `drop` set, which releases nothing.
pub data Event : Type 0 where
  acquires : Bytes → ℕ → Event
  releases : ℕ → Bytes → ℕ → Event
  drops : ℕ → Event
  cleans : Event

abbrev pub holds : ℕ → List ℕ → Bool
holds c [] = false
holds c (x ∷ xs) = if x == c then true else holds c xs

unfoldable pub give_up : ℕ → List ℕ → List ℕ
give_up c [] = []
give_up c (x ∷ xs) = if x == c then xs else x ∷ give_up c xs

unfoldable pub borrow : System → Option ℕ × Pool → System
borrow s (none, p) = record s { pool = p }
borrow s (some c, p) = record s { pool = p; lent = c ∷ s.lent }

-- One event at a time; a client that is not held can be neither released nor dropped.
unfoldable pub step : System → ℕ × Event → System
unfolding borrow give_up
step s (now, acquires host port) = borrow s (acquire s.pool host port)
step s (now, releases c host port) =
    if holds c s.lent
    then record s { pool = release s.pool c host port now; lent = give_up c s.lent }
    else s
step s (now, drops c) =
    if holds c s.lent then record s { lent = give_up c s.lent; dropped = suc s.dropped } else s
step s (now, cleans) = record s { pool = cleanup s.pool now }

unfoldable pub run : System → List (ℕ × Event) → System
run s [] = s
run s (e ∷ es) = run (step s e) es

unfoldable pub start : PoolConfig → System
unfolding create
start c = record { pool = create c; lent = []; dropped = 0 }

abbrev pub at : ℕ → PoolEntry → ℕ
at a e = if e.client == a then 1 else 0

abbrev pub count : ℕ → List ℕ → ℕ
count a [] = 0
count a (x ∷ xs) = (if x == a then 1 else 0) + count a xs

-- Every client that the pool counts is idle, lent or destroyed; none beyond the cap, none in two places.
pub record Inv (s : System) : Type 0 where
  pub counted : s.pool.total_created ≡ idle s.pool.pools + length s.lent + s.dropped
  pub bounded : s.pool.total_created ≤ s.pool.max_connections
  pub distinct :
      (a : ℕ)
      → count a s.lent + weigh_all (at a) s.pool.pools ≤ (if ltb a s.pool.next_client then 1 else 0)

pub start-Inv : (c : PoolConfig) → Inv (start c)
unfolding start weigh_all
start-Inv c = record { counted = refl; bounded = omega arith; distinct = λ a. ground arith }

take_client-Inv :
    (s : System) (k : Bytes) (q : List PoolEntry)
    → queue_at k s.pool.pools ≡ q
    → Inv s
    → Inv (borrow s (take_client s.pool k q))
unfolding borrow take_client
take_client-Inv s k (e ∷ rest) h v =
    let moved = λ (w : PoolEntry → ℕ). weigh_all-set_queue w k rest s.pool.pools in
    record {
      counted = ground (arith, h, moved unit_weight, v.counted);
      bounded = v.bounded;
      distinct = λ a. ground (arith, h, moved (at a), v.distinct a);
    }
take_client-Inv s k [] h v =
    let moved = λ (w : PoolEntry → ℕ). weigh_all-set_queue w k [] s.pool.pools in
    elim (Bool-cases (ltb s.pool.total_created s.pool.max_connections)) [
      | inl p ↦ rw p (record {
        counted = ground (arith, h, moved unit_weight, v.counted);
        bounded = ground arith;
        distinct = λ a. ground (arith, h, moved (at a), v.distinct a);
      })
      | inr p ↦ rw p (record {
        counted = ground (arith, h, moved unit_weight, v.counted);
        bounded = v.bounded;
        distinct = λ a. ground (arith, h, moved (at a), v.distinct a);
      })
    ]

length-give_up : (c : ℕ) (xs : List ℕ) → holds c xs ≡ true → length xs ≡ suc (length (give_up c xs))
unfolding give_up
length-give_up c [] h = cc
length-give_up c (x ∷ xs) h = ground (arith, length-give_up c xs)

count-give_up :
    (a c : ℕ) (xs : List ℕ)
    → holds c xs ≡ true
    → count a xs ≡ count a (give_up c xs) + (if c == a then 1 else 0)
unfolding give_up
count-give_up a c [] h = cc
count-give_up a c (x ∷ xs) h = ground (arith, count-give_up a c xs)

weigh-length : (q : List PoolEntry) → weigh unit_weight q ≡ length q
weigh-length [] = refl
weigh-length (e ∷ q) = omega (arith, weigh-length q)

-- A borrowed client always finds room in its queue.
pub release_room :
    (s : System) (c : ℕ) (k : Bytes)
    → Inv s
    → holds c s.lent ≡ true
    → leb s.pool.max_connections (length (queue_at k s.pool.pools)) ≡ false
release_room s c k v h = ground (
  arith,
  v.counted,
  v.bounded,
  length-give_up c s.lent h,
  weigh-length (queue_at k s.pool.pools),
  weigh-queue_at-le unit_weight k s.pool.pools,
)

release-Inv :
    (s : System) (now c : ℕ) (host : Bytes) (port : ℕ)
    → Inv s
    → holds c s.lent ≡ true
    → Inv (record s { pool = release s.pool c host port now; lent = give_up c s.lent })
unfolding release
release-Inv s now c host port v h =
    let k = key_of host port in
    let q = queue_at k s.pool.pools in
    let last : List PoolEntry = record { client = c; idle_since = now } ∷ [] in
    rw (release_room s c k v h) (record {
      counted = ground (
        arith,
        v.counted,
        length-give_up c s.lent h,
        weigh-append unit_weight q last,
        weigh_all-set_queue unit_weight k (q ++ last) s.pool.pools,
      );
      bounded = v.bounded;
      distinct = λ a. ground (
        arith,
        v.distinct a,
        count-give_up a c s.lent h,
        weigh-append (at a) q last,
        weigh_all-set_queue (at a) k (q ++ last) s.pool.pools,
      );
    })

drop-Inv :
    (s : System) (c : ℕ)
    → Inv s
    → holds c s.lent ≡ true
    → Inv (record s { lent = give_up c s.lent; dropped = suc s.dropped })
drop-Inv s c v h = record {
  counted = omega (arith, v.counted, length-give_up c s.lent h);
  bounded = v.bounded;
  distinct = λ a. ground (arith, v.distinct a, count-give_up a c s.lent h);
}

cleanup-Inv : (s : System) (now : ℕ) → Inv s → Inv (record s { pool = cleanup s.pool now })
unfolding cleanup
cleanup-Inv s now v =
    let ps = s.pool.pools in
    let total = s.pool.total_created in
    let timeout = s.pool.idle_timeout in
    let fewer = weigh_all-expire_all-le unit_weight now timeout ps total in
    let same = expire_all_total now timeout ps total (omega (arith, v.counted)) in
    record {
      counted = omega (arith, v.counted, same);
      bounded = omega (arith, v.bounded, same, fewer);
      distinct =
          λ a. omega (arith, v.distinct a, weigh_all-expire_all-le (at a) now timeout ps total);
    }

-- Every event keeps the invariant.
pub step-Inv : (s : System) (e : ℕ × Event) → Inv s → Inv (step s e)
unfolding step acquire
step-Inv s (now, acquires host port) v =
    take_client-Inv s (key_of host port) (queue_at (key_of host port) s.pool.pools) refl v
step-Inv s (now, releases c host port) v = elim (Bool-cases (holds c s.lent)) [
  | inl h ↦ rw h (release-Inv s now c host port v h)
  | inr h ↦ rw h v
]
step-Inv s (now, drops c) v = elim (Bool-cases (holds c s.lent)) [
  | inl h ↦ rw h (drop-Inv s c v h)
  | inr h ↦ rw h v
]
step-Inv s (now, cleans) v = cleanup-Inv s now v

pub run-Inv : (s : System) (es : List (ℕ × Event)) → Inv s → Inv (run s es)
unfolding run
run-Inv s [] v = v
run-Inv s (e ∷ es) v = run-Inv (step s e) es (step-Inv s e v)
