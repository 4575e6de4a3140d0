-- ===== src/Net/Pool.antt =====
-- include/cppload/net/connection_pool.hpp and core/net/connection_pool.cpp: the pool of keep-alive
-- clients. A client is the number of the object that `make_unique` made; times are nanoseconds. Every
-- member locks the mutex, so a history of the pool is a list of calls.
pub mod Queues
pub mod Contract
pub mod Tests
pub mod Aging
pub mod Ownership
use cppload_workflow.Prelude.{
  ℕ, suc, ◌+◌, ◌-◌, ◌/◌, Bool, List, [], ◌∷◌, ◌++◌, Option, none, some, ltb, leb, if◌then◌else◌,
  length, Bytes, eqb, to_string,
}

pub record PoolEntry : Type 0 where
  pub client : ℕ
  pub idle_since : ℕ

pub record PoolConfig : Type 0 where
  pub max_connections : ℕ
  pub idle_timeout : ℕ

-- The map of queues, the front of a queue first.
abbrev pub Pools : Type 0
Pools = List (Bytes × List PoolEntry)

pub record Pool : Type 0 where
  pub config : PoolConfig
  pub open config use *
  pub pools : Pools
  pub total_created : ℕ
  pub next_client : ℕ

pub create : PoolConfig → Pool
create c = record { config = c; pools = []; total_created = 0; next_client = 0 }

pub key_of : Bytes → ℕ → Bytes
key_of host port = host ++ (b':' ∷ to_string port)

-- `pools_[key]`, which is empty for a new key.
pub queue_at : Bytes → Pools → List PoolEntry
queue_at k [] = []
queue_at k ((j, q) ∷ ps) = if eqb j k then q else queue_at k ps

pub set_queue : Bytes → List PoolEntry → Pools → Pools
set_queue k q [] = (k, q) ∷ []
set_queue k q ((j, r) ∷ ps) = if eqb j k then (j, q) ∷ ps else (j, r) ∷ set_queue k q ps

-- What `acquire` does with the queue that it finds.
pub take_client : Pool → Bytes → List PoolEntry → Option ℕ × Pool
take_client p k (e ∷ rest) = (some e.client, record p { pools = set_queue k rest p.pools })
take_client p k [] =
    let p' = record p { pools = set_queue k [] p.pools } in
    if ltb p.total_created p.max_connections
    then (
      some p.next_client,
      record p' { total_created = suc p.total_created; next_client = suc p.next_client },
    )
    else (none, p')

-- `none` is the null pointer.
pub acquire : Pool → Bytes → ℕ → Option ℕ × Pool
unfolding take_client
acquire p host port = let k = key_of host port in take_client p k (queue_at k p.pools)

pub release : Pool → ℕ → Bytes → ℕ → ℕ → Pool
release p client host port now =
    let k = key_of host port in
    let q = queue_at k p.pools in
    if leb p.max_connections (length q)
    then record p { pools = set_queue k q p.pools; total_created = p.total_created - 1 }
    else record p {
      pools = set_queue k (q ++ (record { client = client; idle_since = now } ∷ [])) p.pools;
    }

-- The age in whole seconds, as `duration_cast` truncates it.
abbrev pub age : ℕ → PoolEntry → ℕ
age now e = (now - e.idle_since) / 1_000_000_000

-- The loop over one queue, with the number of clients that the pool counts.
pub expire : ℕ → ℕ → List PoolEntry → ℕ → List PoolEntry × ℕ
expire now timeout [] total = ([], total)
expire now timeout (e ∷ q) total =
    let rest = expire now timeout q (total - 1) in
    if leb timeout (age now e) then rest else (e ∷ q, total)

pub is_drained : List PoolEntry → Bool
is_drained [] = Bool.true
is_drained (e ∷ q) = Bool.false

-- The loop over the map: expired entries go, and queues that are empty then.
pub expire_all : ℕ → ℕ → Pools → ℕ → Pools × ℕ
expire_all now timeout [] total = ([], total)
expire_all now timeout ((k, q) ∷ ps) total =
    let (q', total') = expire now timeout q total in
    let (ps', total'') = expire_all now timeout ps total' in
    (if is_drained q' then ps' else (k, q') ∷ ps', total'')

pub cleanup : Pool → ℕ → Pool
cleanup p now =
    let (ps, total) = expire_all now p.idle_timeout p.pools p.total_created in
    record p { pools = ps; total_created = total }

-- The sum of a weight over the idle entries.
abbrev pub weigh : (PoolEntry → ℕ) → List PoolEntry → ℕ
weigh w [] = 0
weigh w (e ∷ q) = w e + weigh w q

pub weigh_all : (PoolEntry → ℕ) → Pools → ℕ
weigh_all w [] = 0
weigh_all w ((k, q) ∷ ps) = weigh w q + weigh_all w ps

abbrev pub idle : Pools → ℕ
idle = weigh_all λ _. 1

pub record Stats : Type 0 where
  pub active_connections : ℕ
  pub idle_connections : ℕ
  pub total_created : ℕ

pub stats : Pool → Stats
stats p = record {
  active_connections = p.total_created - idle p.pools;
  idle_connections = idle p.pools;
  total_created = p.total_created;
}
