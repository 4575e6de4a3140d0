-- ===== src/Scenario/Stages.antt =====
-- core/scenario/engine.cpp, `ScenarioEngine::Impl::run`: its stages. Times are the nanoseconds of the steady
-- clock; what happens while the workers of a stage run is an argument.
pub mod Order
pub mod Limits
pub mod Tests
use cppload_workflow.Prelude.{
  ℕ, zero, suc, ◌+◌, ◌-◌, ◌*◌, ◌/◌, ◌%◌, ◌^◌, min, max, Bool, true, false, not, ◌&&◌, ◌||◌, Option,
  none, some, List, [], ◌∷◌, ltb, leb, ◌==◌, if◌then◌else◌, Bytes, bytes, eqb, is_empty, Signed,
  nonneg, negative,
}
use cppload_workflow.Scenario.Config.{Stage}
use cppload_workflow.Scenario.Engine.{Settings, set_target_rps}

abbrev pub default_concurrency : ℕ
default_concurrency = 10

-- `steady_clock::time_point::max()`
abbrev pub no_end : ℕ
no_end = 9223372036854775807

unfoldable pub default_stage : Settings → Stage
default_stage e = record {
  name = bytes "default";
  duration = if ltb 0 e.max_duration_ms then e.max_duration_ms else 60000;
  target_rps = if e.target_rps == 0 then 100 else e.target_rps;
  concurrent_users = default_concurrency;
}

-- The stages of the profile, or one of its own.
unfoldable pub stages_of : Settings → List Stage → List Stage
stages_of e [] = default_stage e ∷ []
stages_of e (s ∷ ss) = s ∷ ss

abbrev pub clamp_users : ℕ → ℕ
clamp_users n = min (max n 1) 100000

unfoldable pub concurrency_of : List Stage → ℕ
concurrency_of [] = clamp_users default_concurrency
concurrency_of (s ∷ ss) =
    clamp_users (if s.concurrent_users == 0 then default_concurrency else s.concurrent_users)

-- `s.concurrent_users > 0 ? s.concurrent_users : concurrency`
abbrev pub users_of : ℕ → Stage → ℕ
users_of concurrency s = if ltb 0 s.concurrent_users then s.concurrent_users else concurrency

unfoldable pub stage_concurrency : ℕ → Stage → ℕ
stage_concurrency concurrency s = clamp_users (users_of concurrency s)

-- The cap of the pool, from `pool_max` on.
unfoldable pub pool_max : ℕ → ℕ → List Stage → ℕ
pool_max concurrency cap [] = cap
pool_max concurrency cap (s ∷ ss) = pool_max concurrency (max cap (users_of concurrency s)) ss

unfoldable pub protocol_of : Bytes → Bytes
protocol_of name = if is_empty name then bytes "http1.1" else name

unfoldable pub global_end : ℕ → ℕ → ℕ
global_end max_ms now = if ltb 0 max_ms then now + max_ms * 1_000_000 else no_end

-- `now + stage.duration`, in the 64 bits of the clock.
unfoldable pub end_of : ℕ → ℕ → Signed
end_of now duration =
    let end' = (now + duration * 1_000_000) % 2 ^ 64 in
    if ltb end' (2 ^ 63) then nonneg end' else negative

-- A hundred years before the end of the clock.
abbrev pub horizon : ℕ
horizon = no_end - 24 * 365 * 100 * 3_600_000_000_000

unfoldable pub clamp_end : Signed → Signed
clamp_end (nonneg e) = nonneg (min e horizon)
clamp_end negative = negative

abbrev pub earlier : Signed → ℕ → Signed
earlier (nonneg e) limit = nonneg (min e limit)
earlier negative limit = negative

-- `none` is a stage that runs until it is stopped.
unfoldable pub stage_end : ℕ → ℕ → ℕ → Option Signed
stage_end duration now global =
    if ltb 0 duration
    then some (earlier (clamp_end (end_of now duration)) global)
    else if global == no_end
    then none
    else some (nonneg global)

-- What happens in a stage: the clock, read once when it starts; whether `stop` is called before the engine looks
-- at `stopped_` after starting the workers, while it waits for the end, or after that until the next round; and
-- the failures of workers by the time that they are joined.
pub record Happening : Type 0 where
  pub now : ℕ
  pub stopped_early : Bool
  pub stopped_waiting : Bool
  pub stopped_joining : Bool
  pub failures : ℕ

abbrev pub has_end : Option Signed → Bool
has_end none = false
has_end (some e) = true

-- `externally_stopped` and `stopped_` when the workers are joined. With an end, the engine stops them itself.
unfoldable pub after_wait : Bool → Happening → Bool × Bool
after_wait ends h =
    if ends && not h.stopped_early
    then (h.stopped_waiting || ltb 0 h.failures, true)
    else (h.stopped_early, h.stopped_early || h.stopped_waiting || h.stopped_joining)

-- `stopped_` at the head of the next round.
unfoldable pub next_stopped : Bool → Happening → Bool → Bool
next_stopped ends h is_last =
    let (externally, stopped) = after_wait ends h in
    if not is_last && not externally && h.failures == 0 then false else stopped

-- What a stage that was started was given.
pub record Started : Type 0 where
  pub stage : Stage
  pub users : ℕ
  pub ends_at : Option Signed
  pub settings : Settings

-- The loop over the stages from position `i` on, with `stopped_`: the stages that are started.
unfoldable pub run_stages :
    (ℕ → Happening) → ℕ → ℕ → ℕ → List Stage → Settings → Bool → List Started
run_stages env concurrency global i [] e stopped = []
run_stages env concurrency global i (s ∷ ss) e stopped =
    let h = env i in
    let e' = if ltb 0 s.target_rps then set_target_rps e s.target_rps h.now else e in
    let ends_at = stage_end s.duration h.now global in
    let rest =
      run_stages env concurrency global (suc i) ss e'
        (next_stopped (has_end ends_at) h (is_empty ss)) in
    if stopped
    then []
    else if leb global h.now
    then []
    else record {
      stage = s;
      users = stage_concurrency concurrency s;
      ends_at = ends_at;
      settings = e';
    }
      ∷ rest

-- `run` with the clock at its start.
unfoldable pub run : (ℕ → Happening) → ℕ → List Stage → Settings → List Started
run env now stages e =
    let stages' = stages_of e stages in
    run_stages env (concurrency_of stages') (global_end e.max_duration_ms now) 0 stages' e false
