-- ===== src/Net/Pool/Contract.antt =====
-- core/net/connection_pool.cpp: what borrowers see of the pool.
use cppload_workflow.Prelude.{
  ℕ, ◌+◌, ◌≤◌, ◌≡◌, ◌↔◌, refl, ap, true, Option, some, none, List, [], ◌∷◌, arith, if◌then◌else◌,
  length, Bytes, eqb, eqb_iff, is_empty,
}
use cppload_workflow.Net.Pool.{
  PoolEntry, PoolConfig, Pools, Pool, key_of, queue_at, set_queue, acquire, release, cleanup, weigh,
  idle, take_client, stats,
}
use cppload_workflow.Net.Pool.Queues.{weigh-queue_at-le, unit_weight}
use cppload_workflow.Net.Pool.Ownership.{
  System, Event, acquires, releases, drops, cleans, step, run, start, start-Inv, Inv, run-Inv,
  borrow,
}

-- After any history of a new pool the counter is the number of idle, lent and destroyed clients, it is
-- within the cap, and no client is in two places.
pub run-start-Inv : (c : PoolConfig) (es : List (ℕ × Event)) → Inv (run (start c) es)
run-start-Inv c es = run-Inv (start c) es (start-Inv c)

pub queue_at-set_queue :
    (j k : Bytes) (q : List PoolEntry) (ps : Pools)
    → queue_at j (set_queue k q ps) ≡ (if eqb k j then q else queue_at j ps)
unfolding queue_at set_queue
queue_at-set_queue j k q [] = refl
queue_at-set_queue j k q ((i, r) ∷ ps) =
    ground (arith, eqb_iff i k, eqb_iff i j, eqb_iff k j, queue_at-set_queue j k q ps)

take_client_front :
    (p : Pool) (k : Bytes) (q : List PoolEntry)
    → ((take_client p k q).0 ≡ none) ↔ ((is_empty q ≡ true) × (p.max_connections ≤ p.total_created))
unfolding take_client
take_client_front p k [] = ground arith
take_client_front p k (e ∷ q) = ground arith

-- The pool refuses a borrower exactly when no client is idle at the endpoint and the idle, lent and
-- destroyed clients together fill the cap.
pub acquire_refuses_iff :
    (s : System) (host : Bytes) (port : ℕ)
    → Inv s
    → ((acquire s.pool host port).0 ≡ none) ↔ (
        (is_empty (queue_at (key_of host port) s.pool.pools) ≡ true)
        × (idle s.pool.pools + length s.lent + s.dropped ≡ s.pool.max_connections))
unfolding acquire
acquire_refuses_iff s host port v =
    let k = key_of host port in
    ground (arith, take_client_front s.pool k (queue_at k s.pool.pools), v.counted, v.bounded)

-- What `stats` reports: the idle clients, and as active those that are lent or destroyed.
pub stats_lem :
    (s : System)
    → Inv s
    → (stats s.pool ≡ record {
      active_connections = length s.lent + s.dropped;
      idle_connections = idle s.pool.pools;
      total_created = idle s.pool.pools + length s.lent + s.dropped;
    })
unfolding stats
stats_lem s v = ground (arith, v.counted)

acquire_config :
    (p : Pool) (k : Bytes) (q : List PoolEntry) → (take_client p k q).1.config ≡ p.config
unfolding take_client
acquire_config p k [] = ground arith
acquire_config p k (e ∷ q) = refl

borrow_keeps :
    (s : System) (o : Option ℕ) (p : Pool)
    → ((borrow s (o, p)).pool ≡ p) × ((borrow s (o, p)).dropped ≡ s.dropped)
unfolding borrow
borrow_keeps s none p = (refl, refl)
borrow_keeps s (some c) p = (refl, refl)

step_keeps :
    (s : System) (e : ℕ × Event)
    → (s.dropped ≤ (step s e).dropped) × ((step s e).pool.config ≡ s.pool.config)
unfolding step acquire release cleanup
step_keeps s (now, acquires host port) =
    let k = key_of host port in
    let q = queue_at k s.pool.pools in
    let r = take_client s.pool k q in
    ground (arith, borrow_keeps s r.0 r.1, acquire_config s.pool k q)
step_keeps s (now, releases c host port) = ground arith
step_keeps s (now, drops c) = ground arith
step_keeps s (now, cleans) = (omega arith, refl)

pub run_keeps :
    (s : System) (es : List (ℕ × Event))
    → (s.dropped ≤ (run s es).dropped) × ((run s es).pool.config ≡ s.pool.config)
unfolding run
run_keeps s [] = (omega arith, refl)
run_keeps s (e ∷ es) = ground (arith, step_keeps s e, run_keeps (step s e) es)

empty_of_weight : (q : List PoolEntry) → weigh unit_weight q ≡ 0 → is_empty q ≡ true
empty_of_weight [] h = refl
empty_of_weight (e ∷ q) h = absurd (omega arith)

-- Once borrowers have destroyed as many clients as the cap allows, the pool refuses every endpoint for
-- ever, whatever is released or cleaned up later.
pub drops_exhaust :
    (s : System) (es : List (ℕ × Event)) (host : Bytes) (port : ℕ)
    → Inv s
    → s.pool.max_connections ≤ s.dropped
    → (acquire (run s es).pool host port).0 ≡ none
drops_exhaust s es host port v h =
    let t = run s es in
    let v' = run-Inv s es v in
    let k = key_of host port in
    let kept = run_keeps s es in
    let few = weigh-queue_at-le unit_weight k t.pool.pools in
    let cap : t.pool.max_connections ≡ s.pool.max_connections =
      ap (λ c. c.max_connections) kept.1 in
    let none_idle : weigh unit_weight (queue_at k t.pool.pools) ≡ 0 =
      omega (arith, few, kept.0, cap, h, v'.counted, v'.bounded) in
    (acquire_refuses_iff t host port v').1 (
      empty_of_weight (queue_at k t.pool.pools) none_idle,
      omega (arith, kept.0, cap, h, v'.counted, v'.bounded),
    )
