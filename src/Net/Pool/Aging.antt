-- ===== src/Net/Pool/Aging.antt =====
-- core/net/connection_pool.cpp, `cleanup`: it stops at the first young entry of a queue, which is
-- enough since a queue is filled in the order of the clock.
use cppload_workflow.Prelude.{
  ℕ, ◌-◌, ◌/◌, ◌≤◌, ◌<◌, ◌≡◌, ap, inl, inr, List, [], ◌∷◌, ◌++◌, arith, Bool-cases, ltb, leb,
  length, Bytes, eqb, All,
}
use cppload_workflow.Net.Pool.{
  PoolEntry, PoolConfig, Pools, Pool, key_of, queue_at, set_queue, acquire, release, cleanup,
  take_client, expire, expire_all, is_drained, age,
}
use cppload_workflow.Net.Pool.Ownership.{
  System, Event, acquires, releases, drops, cleans, step, run, start, holds, borrow,
}
use cppload_workflow.Net.Pool.Contract.{run_keeps}

-- The entries went idle in the order of the queue, from `low` on and up to `clock`.
abbrev pub IsAged : ℕ → ℕ → List PoolEntry → Type 0
IsAged low clock [] = low ≤ clock
IsAged low clock (e ∷ q) = (low ≤ e.idle_since) × IsAged e.idle_since clock q

abbrev pub AllAged : ℕ → Pools → Type 0
AllAged clock [] = Unit
AllAged clock ((k, q) ∷ ps) = IsAged 0 clock q × AllAged clock ps

-- An entry is too young for `cleanup`.
abbrev pub IsYoung : ℕ → ℕ → PoolEntry → Type 0
IsYoung now timeout e = age now e < timeout

abbrev pub AllYoung : ℕ → ℕ → Pools → Type 0
AllYoung now timeout [] = Unit
AllYoung now timeout ((k, q) ∷ ps) = All (IsYoung now timeout) q × AllYoung now timeout ps

IsAged-from :
    (low low' clock clock' : ℕ) (q : List PoolEntry)
    → low' ≤ low
    → clock ≤ clock'
    → IsAged low clock q
    → IsAged low' clock' q
IsAged-from low low' clock clock' [] l c a = omega arith
IsAged-from low low' clock clock' (e ∷ q) l c (a, as') =
    (omega arith, IsAged-from e.idle_since e.idle_since clock clock' q (omega arith) c as')

IsAged-push :
    (low clock now c : ℕ) (q : List PoolEntry)
    → clock ≤ now
    → IsAged low clock q
    → IsAged low now (q ++ (record { client = c; idle_since = now } ∷ []))
IsAged-push low clock now c [] h a = (omega arith, omega arith)
IsAged-push low clock now c (e ∷ q) h (a, as') = (a, IsAged-push e.idle_since clock now c q h as')

queue_at-IsAged :
    (clock : ℕ) (k : Bytes) (ps : Pools) → AllAged clock ps → IsAged 0 clock (queue_at k ps)
unfolding queue_at
queue_at-IsAged clock k [] a = omega arith
queue_at-IsAged clock k ((j, q) ∷ ps) (a, as') = ground (arith, queue_at-IsAged clock k ps as')

set_queue-AllAged :
    (clock : ℕ) (k : Bytes) (q : List PoolEntry) (ps : Pools)
    → IsAged 0 clock q
    → AllAged clock ps
    → AllAged clock (set_queue k q ps)
unfolding set_queue
set_queue-AllAged clock k q [] a as' = (a, tt)
set_queue-AllAged clock k q ((j, r) ∷ ps) a (b, bs) = elim (Bool-cases (eqb j k)) [
  | inl e ↦ rw e (a, bs)
  | inr e ↦ rw e (b, set_queue-AllAged clock k q ps a bs)
]

later-AllAged : (clock now : ℕ) (ps : Pools) → clock ≤ now → AllAged clock ps → AllAged now ps
later-AllAged clock now [] h a = tt
later-AllAged clock now ((k, q) ∷ ps) h (a, as') =
    (IsAged-from 0 0 clock now q (omega arith) h a, later-AllAged clock now ps h as')

take_client-AllAged :
    (s : System) (clock : ℕ) (k : Bytes) (q : List PoolEntry)
    → IsAged 0 clock q
    → AllAged clock s.pool.pools
    → AllAged clock (borrow s (take_client s.pool k q)).pool.pools
unfolding take_client borrow
take_client-AllAged s clock k (e ∷ q) (a, as') b =
    set_queue-AllAged clock k q s.pool.pools
      (IsAged-from e.idle_since 0 clock clock q (omega arith) (omega arith) as') b
take_client-AllAged s clock k [] a b =
    let kept = set_queue-AllAged clock k [] s.pool.pools a b in
    elim (Bool-cases (ltb s.pool.total_created s.pool.max_connections)) [
      | inl e ↦ rw e kept
      | inr e ↦ rw e kept
    ]

expire-IsAged :
    (low clock now timeout : ℕ) (q : List PoolEntry) (total : ℕ)
    → IsAged low clock q
    → IsAged low clock (expire now timeout q total).0
unfolding expire
expire-IsAged low clock now timeout [] total a = a
expire-IsAged low clock now timeout (e ∷ q) total (a, as') =
    elim (Bool-cases (leb timeout (age now e))) [
      | inl p ↦ rw p (
          expire-IsAged low clock now timeout q (total - 1)
            (IsAged-from e.idle_since low clock clock q a (omega arith) as'))
      | inr p ↦ rw p (a, as')
    ]

expire_all-AllAged :
    (clock now timeout : ℕ) (ps : Pools) (total : ℕ)
    → AllAged clock ps
    → AllAged clock (expire_all now timeout ps total).0
unfolding expire_all
expire_all-AllAged clock now timeout [] total a = tt
expire_all-AllAged clock now timeout ((k, q) ∷ ps) total (a, as') =
    let r = expire now timeout q total in
    let front = expire-IsAged 0 clock now timeout q total a in
    let back = expire_all-AllAged clock now timeout ps r.1 as' in
    elim (Bool-cases (is_drained r.0)) [ inl p ↦ rw p back | inr p ↦ rw p (front, back) ]

release-AllAged :
    (p : Pool) (clock now c : ℕ) (host : Bytes) (port : ℕ)
    → clock ≤ now
    → AllAged clock p.pools
    → AllAged now (release p c host port now).pools
unfolding release
release-AllAged p clock now c host port h a =
    let k = key_of host port in
    let q = queue_at k p.pools in
    let old = queue_at-IsAged clock k p.pools a in
    let rest = later-AllAged clock now p.pools h a in
    elim (Bool-cases (leb p.max_connections (length q))) [
      | inl e ↦
          rw e (
            set_queue-AllAged now k q p.pools (IsAged-from 0 0 clock now q (omega arith) h old)
              rest)
      | inr e ↦ rw e (set_queue-AllAged now k _ p.pools (IsAged-push 0 clock now c q h old) rest)
    ]

-- Every event at a later time keeps the queues in the order of the clock.
pub step-AllAged :
    (s : System) (clock : ℕ) (e : ℕ × Event)
    → clock ≤ e.0
    → AllAged clock s.pool.pools
    → AllAged e.0 (step s e).pool.pools
unfolding step acquire cleanup
step-AllAged s clock (now, acquires host port) h a =
    let k = key_of host port in
    let a' = later-AllAged clock now s.pool.pools h a in
    take_client-AllAged s now k (queue_at k s.pool.pools) (queue_at-IsAged now k s.pool.pools a') a'
step-AllAged s clock (now, releases c host port) h a = elim (Bool-cases (holds c s.lent)) [
  | inl e ↦ rw e (release-AllAged s.pool clock now c host port h a)
  | inr e ↦ rw e (later-AllAged clock now s.pool.pools h a)
]
step-AllAged s clock (now, drops c) h a = elim (Bool-cases (holds c s.lent)) [
  | inl e ↦ rw e (later-AllAged clock now s.pool.pools h a)
  | inr e ↦ rw e (later-AllAged clock now s.pool.pools h a)
]
step-AllAged s clock (now, cleans) h a =
    expire_all-AllAged now now s.pool.idle_timeout s.pool.pools s.pool.total_created
      (later-AllAged clock now s.pool.pools h a)

IsYoung-rest :
    (now timeout low clock : ℕ) (q : List PoolEntry)
    → (now - low) / 1_000_000_000 < timeout
    → IsAged low clock q
    → All (IsYoung now timeout) q
IsYoung-rest now timeout low clock [] h a = tt
IsYoung-rest now timeout low clock (e ∷ q) h (a, as') =
    let y : IsYoung now timeout e = omega arith in
    (y, IsYoung-rest now timeout e.idle_since clock q y as')

expire-IsYoung :
    (now timeout low clock : ℕ) (q : List PoolEntry) (total : ℕ)
    → IsAged low clock q
    → All (IsYoung now timeout) (expire now timeout q total).0
unfolding expire
expire-IsYoung now timeout low clock [] total a = tt
expire-IsYoung now timeout low clock (e ∷ q) total (a, as') =
    elim (Bool-cases (leb timeout (age now e))) [
      | inl p ↦ rw p (expire-IsYoung now timeout e.idle_since clock q (total - 1) as')
      | inr p ↦
          let y : IsYoung now timeout e = ground arith in
          rw p (y, IsYoung-rest now timeout e.idle_since clock q y as')
    ]

expire_all_young :
    (now timeout clock : ℕ) (ps : Pools) (total : ℕ)
    → AllAged clock ps
    → AllYoung now timeout (expire_all now timeout ps total).0
unfolding expire_all
expire_all_young now timeout clock [] total a = tt
expire_all_young now timeout clock ((k, q) ∷ ps) total (a, as') =
    let r = expire now timeout q total in
    let front = expire-IsYoung now timeout 0 clock q total a in
    let back = expire_all_young now timeout clock ps r.1 as' in
    elim (Bool-cases (is_drained r.0)) [ inl p ↦ rw p back | inr p ↦ rw p (front, back) ]

-- The times of a history do not fall.
abbrev pub IsTimed : ℕ → List (ℕ × Event) → Type 0
IsTimed clock [] = Unit
IsTimed clock (e ∷ es) = (clock ≤ e.0) × IsTimed e.0 es

abbrev pub last_time : ℕ → List (ℕ × Event) → ℕ
last_time clock [] = clock
last_time clock (e ∷ es) = last_time e.0 es

run-AllAged :
    (s : System) (clock : ℕ) (es : List (ℕ × Event))
    → IsTimed clock es
    → AllAged clock s.pool.pools
    → AllAged (last_time clock es) (run s es).pool.pools
unfolding run
run-AllAged s clock [] t a = a
run-AllAged s clock (e ∷ es) (t, ts) a =
    run-AllAged (step s e) e.0 es ts (step-AllAged s clock e t a)

-- After any history of a new pool whose clock does not run backwards, `cleanup` leaves no entry that has
-- been idle for the timeout, in whole seconds.
pub cleanup_young :
    (c : PoolConfig) (es : List (ℕ × Event)) (now : ℕ)
    → IsTimed 0 es
    → AllYoung now c.idle_timeout (cleanup (run (start c) es).pool now).pools
unfolding cleanup start
cleanup_young c es now t =
    let p = (run (start c) es).pool in
    let cap : p.idle_timeout ≡ c.idle_timeout =
      ap (λ d. d.idle_timeout) (run_keeps (start c) es).1 in
    rw cap (
      expire_all_young now c.idle_timeout (last_time 0 es) p.pools p.total_created
        (run-AllAged (start c) 0 es t tt))
