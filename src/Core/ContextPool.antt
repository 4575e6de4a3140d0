-- ===== src/Core/ContextPool.antt =====
-- include/cppload/core/io_context_pool.hpp and core/io_context_pool.cpp: `IoContextPool`. A context is its position;
-- the calls are those of one thread after another.
use cppload_workflow.Prelude.{
  ℕ, ◌+◌, ◌%◌, ◌^◌, ◌≡◌, refl, Bool, true, false, Option, none, some, arith, ◌==◌, if◌then◌else◌,
}

-- The contexts, whether a work guard holds each of them, the threads that run one, `started_` and `next_`.
pub record ContextPool : Type 0 where
  pub contexts : ℕ
  pub guarded : Bool
  pub threads : ℕ
  pub started : Bool
  pub next : ℕ

-- The number of contexts, with `hardware_concurrency()`.
unfoldable pub pool_size_of : ℕ → ℕ → ℕ
pool_size_of pool_size hardware =
    if pool_size == 0 then (if hardware == 0 then 2 else hardware) else pool_size

unfoldable pub create : ℕ → ℕ → ContextPool
create pool_size hardware = record {
  contexts = pool_size_of pool_size hardware;
  guarded = true;
  threads = 0;
  started = false;
  next = 0;
}

unfoldable pub start : ContextPool → ContextPool
start p = if p.started then p else record p { started = true; threads = p.threads + p.contexts }

unfoldable pub stop : ContextPool → ContextPool
stop p = record p { guarded = false; threads = 0; started = false }

-- `none` is the exception.
unfoldable pub get_context : ContextPool → Option ℕ × ContextPool
get_context p =
    if p.contexts == 0
    then (none, p)
    else (some (p.next % p.contexts), record p { next = (p.next + 1) % 2 ^ 64 })

some_context : (pool_size hardware : ℕ) → (pool_size_of pool_size hardware == 0) ≡ false
unfolding pool_size_of
some_context pool_size hardware = ground arith

-- Whatever the size asked for, there is a context, and a new pool gives the first.
create-get_context :
    (pool_size hardware : ℕ)
    → (get_context (create pool_size hardware)).0 ≡ some (0 % pool_size_of pool_size hardware)
unfolding create get_context
create-get_context pool_size hardware = rw (some_context pool_size hardware) refl
