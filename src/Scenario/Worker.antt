-- ===== src/Scenario/Worker.antt =====
-- core/scenario/engine.cpp, `ScenarioEngine::Impl::run`: a worker thread of a stage. What the clock, the generator,
-- the server and the other threads do in a round is an argument; the exact quotient `users / rate` stands for the
-- rounded `double`.
pub mod Rate
pub mod Tests
use cppload_workflow.Prelude.{
  ℕ, zero, suc, ◌+◌, ◌-◌, ◌*◌, ◌/◌, ◌%◌, ◌^◌, min, max, Bool, true, false, not, ◌&&◌, ◌||◌, Option,
  none, some, List, [], ◌∷◌, ltb, leb, ◌==◌, if◌then◌else◌, length, get_elem?, is_empty, Bytes,
  Dict, Signed, nonneg, negative, Result, ok, err, eqb, bytes,
}
use cppload_workflow.Prelude.Json.{Json}
use cppload_workflow.Core.Errors.{Err}
use cppload_workflow.Core.TokenBucket.{TokenBucket, try_consume}
use cppload_workflow.Net.Network.{Network}
use cppload_workflow.Net.Protocol.{Request, Response}
use cppload_workflow.Net.Pool.{Pool, acquire}
use cppload_workflow.Security.Auth.{Auth, is_expired, refresh_token, apply_headers}
use cppload_workflow.Scenario.Config.{HttpStep, Scenario}
use cppload_workflow.Scenario.Assertions
use cppload_workflow.Scenario.Assertions.{evaluate_assertions}
use cppload_workflow.Scenario.Choice.{pick_weighted_scenario}
use cppload_workflow.Scenario.Engine.{resolve_url}

-- The client of the worker. The loop of at most `attempts` calls of `acquire`, each on the pool as the other
-- threads have left it; `none` is the failure of the worker.
unfoldable pub acquire_retry : ℕ → (ℕ → Pool) → Bytes → ℕ → Option (ℕ × Pool)
acquire_retry zero pools host port = none
acquire_retry (suc attempts) pools host port =
    let rest = acquire_retry attempts pools host port in
    let (client, p) = acquire (pools attempts) host port in
    elim client [ none ↦ rest | some c ↦ some (c, p) ]

abbrev pub acquire_attempts : ℕ
acquire_attempts = 200

unfoldable pub any_steps : List Scenario → Bool
any_steps [] = false
any_steps (s ∷ ss) = if is_empty s.steps then any_steps ss else true

-- The nanoseconds between two slots of a worker.
unfoldable pub slot_period : ℕ → ℕ → ℕ
slot_period users rate =
    min (max (users * 1_000_000_000 / (if rate == 0 then 1 else rate)) 1) (10 ^ 18)

-- The first slot of worker `i`; `none` is a product that leaves the 64 bits.
unfoldable pub first_slot_of : ℕ → ℕ → ℕ → ℕ → Option ℕ
first_slot_of now period i users =
    if ltb (period * i) (2 ^ 63) then some (now + period * i / users) else none

-- How the wait for a slot ends: some time after it, or at a time when `stopped_` is seen.
pub data Wait : Type 0 where
  late : ℕ → Wait
  cut : ℕ → Wait

-- A round of the loop: `stopped_` and the clock at its head, the wait if there is one, the bucket as the other
-- threads have left it, the number drawn, and the answer, which is none if `stopped_` is seen first.
pub record Turn : Type 0 where
  pub stopped : Bool
  pub now : ℕ
  pub wait : Wait
  pub bucket : TokenBucket
  pub pick : ℕ
  pub answer : Option (Option Err × Response)

unfoldable pub is_over : Option Signed → ℕ → Bool
is_over none now = false
is_over (some (nonneg e)) now = leb e now
is_over (some negative) now = true

-- The clock behind the wait for a slot, and whether `stopped_` was seen.
unfoldable pub wake : ℕ → Wait → ℕ × Bool
wake slot (late n) = (slot + n, false)
wake slot (cut now) = (now, true)

unfoldable pub next_slot : Bool → ℕ → ℕ → ℕ
next_slot first_slot slot period = if first_slot then slot else slot + period

-- When a round comes to the bucket and whether `stopped_` was seen in its wait; `none` leaves the loop.
unfoldable pub await_slot : Option Signed → Bool → ℕ → Turn → Option (ℕ × Bool)
unfolding is_over wake
await_slot ends first_slot slot t =
    if t.stopped || is_over ends t.now
    then none
    else if not first_slot && ltb t.now slot
    then (if is_over ends (wake slot t.wait).0 then none else some (wake slot t.wait))
    else some (t.now, false)

-- The step that a round executes.
unfoldable pub step_of : Scenario → ℕ → Option HttpStep
step_of s step_ix = if is_empty s.steps then none else get_elem? s.steps (step_ix % length s.steps)

unfoldable pub choose_step : List Scenario → ℕ → ℕ → Option HttpStep
choose_step scenarios pick step_ix = elim (pick_weighted_scenario scenarios pick) [
  | none ↦ none
  | some i ↦ elim (get_elem? scenarios i) [ none ↦ none | some s ↦ step_of s step_ix ]
]

unfoldable pub request_of : Bytes → HttpStep → Dict Bytes → Request
request_of base_url step headers =
    let target = resolve_url base_url step.use_tls in
    record {
      method = step.method;
      path = step.path;
      body = step.body;
      headers = headers;
      host = target.host;
      port = target.port;
      use_tls = target.use_tls;
    }

-- What the callback records.
pub record Recorded : Type 0 where
  pub code : ℕ
  pub latency : ℕ
  pub bytes_sent : ℕ
  pub bytes_received : ℕ

unfoldable pub code_of : HttpStep → Option Err → Response → ℕ
code_of step (some e) resp = 0
code_of step none resp =
    if not (resp.status_code == 0)
      && not (
          evaluate_assertions step
            (record { status_code = resp.status_code; latency = resp.latency }))
    then 0
    else resp.status_code

unfoldable pub record_of : HttpStep → Request → Option Err × Response → Recorded
record_of step req (ec, resp) = record {
  code = code_of step ec resp;
  latency = resp.latency;
  bytes_sent = length req.body;
  bytes_received = length resp.body;
}

-- A request that was sent: its slot, when, and what was recorded of it.
pub record Sent : Type 0 where
  pub slot : ℕ
  pub sent_at : ℕ
  pub request : Request
  pub recorded : Option Recorded

unfoldable pub sent : ℕ → ℕ → HttpStep → Request → Option (Option Err × Response) → Sent
sent slot sent_at step req answer = record {
  slot = slot;
  sent_at = sent_at;
  request = req;
  recorded = elim answer [ none ↦ none | some a ↦ some (record_of step req a) ];
}

abbrev pub answered : {A : Type 0} → Option A → Bool
answered none = false
answered (some a) = true

module _ {W S J : Type 0} (N : Network W S) (L : Json J) (base_url : Bytes)
    (scenarios : List Scenario) (ends : Option Signed) (period : ℕ) where
  -- The headers of a request, with those of the provider where there is one.
  unfoldable pub authorize : Option Auth → Dict Bytes → W → (Dict Bytes × Option Auth) × W
  authorize none headers w = ((headers, none), w)
  authorize (some a) headers w =
      let (expired, w1) = is_expired N L a w in
      let ((r, renewed), w2) = refresh_token N L a w1 in
      let (a', w') = if expired then (renewed, w2) else (a, w1) in
      let ((headers', a''), w'') = apply_headers N L a' headers w' in ((headers', some a''), w'')

  -- The loop from one round on: the slot reached, `first_slot`, `step_ix` and the provider.
  unfoldable pub work : List Turn → ℕ → Bool → ℕ → Option Auth → W → List Sent
  work [] slot first_slot step_ix auth w = []
  work (t ∷ ts) slot first_slot step_ix auth w =
      let slot' = next_slot first_slot slot period in
      elim (await_slot ends first_slot slot' t) [
        | none ↦ []
        | some woken ↦
            let (now, cut_short) = woken in
            let skip = work ts slot' false step_ix auth w in
            let on = if cut_short then [] else skip in
            if (try_consume t.bucket now).1
            then elim (choose_step scenarios t.pick step_ix) [
              | none ↦ on
              | some step ↦
                  let ((headers, auth'), w') = authorize auth step.headers w in
                  let req = request_of base_url step headers in
                  let rest = work ts slot' false (suc step_ix) auth' w' in
                  sent slot' now step req t.answer
                  ∷ (if cut_short || not (answered t.answer) then [] else rest)
            ]
            else on
      ]

-- Whether the client is closed and not given back to the pool.
unfoldable pub drops : List Sent → Bool
drops [] = false
drops (s ∷ []) = not (answered s.recorded)
drops (s ∷ s' ∷ r) = drops (s' ∷ r)
