-- ===== src/Scenario/Stages/Order.antt =====
-- core/scenario/engine.cpp, `ScenarioEngine::Impl::run`: which stages are started.
use cppload_workflow.Prelude.{
  ℕ, suc, ◌≤◌, ◌≡◌, refl, ap, ◌∙◌, inl, inr, Bool, true, false, ◌&&◌, ◌||◌, List, [], ◌∷◌, map,
  arith, ltb, leb, if◌then◌else◌, length, is_empty, Bool-cases,
}
use cppload_workflow.Scenario.Config.{Stage}
use cppload_workflow.Scenario.Engine.{Settings, set_target_rps}
use cppload_workflow.Scenario.Stages.{
  Happening, Started, has_end, after_wait, next_stopped, stage_end, stage_concurrency, run_stages,
}

abbrev pub stages_started : List Started → List Stage
stages_started = map λ (s : Started). s.stage

-- A stage that another follows: nobody had called `stop` when its workers were started, and where it has an end
-- nobody called it in the wait for that end and no worker failed.
abbrev pub IsContinued : (ℕ → Happening) → ℕ → List Started → Type 0
IsContinued env i [] = Unit
IsContinued env i (x ∷ []) = Unit
IsContinued env i (x ∷ y ∷ r) =
    (((env i).stopped_early ≡ false)
      × ((has_end x.ends_at && (env i).stopped_waiting) ≡ false)
      × ((has_end x.ends_at && ltb 0 (env i).failures) ≡ false))
    × IsContinued env (suc i) (y ∷ r)

quiet_goes_on :
    (ends : Bool) (h : Happening)
    → h.failures ≡ 0
    → h.stopped_early ≡ false
    → h.stopped_waiting ≡ false
    → next_stopped ends h false ≡ false
unfolding next_stopped after_wait
quiet_goes_on ends h f s l = ground arith

going_on :
    (ends : Bool) (h : Happening)
    → next_stopped ends h false ≡ false
    → (h.stopped_early ≡ false)
      × ((ends && h.stopped_waiting) ≡ false)
      × ((ends && ltb 0 h.failures) ≡ false)
unfolding next_stopped after_wait
going_on ends h e = ground arith

unended_goes_on :
    (h : Happening)
    → h.stopped_early ≡ false
    → ((h.stopped_waiting || h.stopped_joining) && ltb 0 h.failures) ≡ false
    → next_stopped false h false ≡ false
unfolding next_stopped after_wait
unended_goes_on h early late = ground arith

cons-IsContinued :
    (env : ℕ → Happening) (i : ℕ) (x : Started) (r : List Started)
    → ((env i).stopped_early ≡ false)
      × ((has_end x.ends_at && (env i).stopped_waiting) ≡ false)
      × ((has_end x.ends_at && ltb 0 (env i).failures) ≡ false)
    → IsContinued env (suc i) r
    → IsContinued env i (x ∷ r)
cons-IsContinued env i x [] f c = tt
cons-IsContinued env i x (y ∷ r) f c = (f, c)

module _ (env : ℕ → Happening) (concurrency global : ℕ) where
  settings_after : Stage → ℕ → Settings → Settings
  settings_after s i e = if ltb 0 s.target_rps then set_target_rps e s.target_rps (env i).now else e

  abbrev start : Stage → ℕ → Settings → Started
  start s i e = record {
    stage = s;
    users = stage_concurrency concurrency s;
    ends_at = stage_end s.duration (env i).now global;
    settings = settings_after s i e;
  }

  stopped_after : Stage → ℕ → Bool → Bool
  stopped_after s i is_last =
      next_stopped (has_end (stage_end s.duration (env i).now global)) (env i) is_last

  -- The two ways of a round that is not stopped.
  run_stages_over :
      (i : ℕ) (s : Stage) (ss : List Stage) (e : Settings)
      → leb global (env i).now ≡ true
      → run_stages env concurrency global i (s ∷ ss) e false ≡ []
  unfolding run_stages
  run_stages_over i s ss e h = rw h refl

  run_stages_on :
      (i : ℕ) (s : Stage) (ss : List Stage) (e : Settings)
      → leb global (env i).now ≡ false
      → run_stages env concurrency global i (s ∷ ss) e false
        ≡ start s i e
          ∷ run_stages env concurrency global
              (suc i)
              ss
              (settings_after s i e)
              (stopped_after s i (is_empty ss))
  unfolding run_stages settings_after stopped_after
  run_stages_on i s ss e h = rw h refl

  run_stages_stopped :
      (i : ℕ) (ss : List Stage) (e : Settings) → run_stages env concurrency global i ss e true ≡ []
  unfolding run_stages
  run_stages_stopped i [] e = refl
  run_stages_stopped i (s ∷ ss) e = refl

  run_stages_nil :
      (i : ℕ) (e : Settings) (stopped : Bool)
      → run_stages env concurrency global i [] e stopped ≡ []
  unfolding run_stages
  run_stages_nil i e stopped = refl

  goes_on :
      (s : Stage) (i : ℕ)
      → (env i).failures ≡ 0
      → (env i).stopped_early ≡ false
      → (env i).stopped_waiting ≡ false
      → stopped_after s i false ≡ false
  unfolding stopped_after
  goes_on s i f early late =
      quiet_goes_on (has_end (stage_end s.duration (env i).now global)) (env i) f early late

  went_on :
      (s : Stage) (i : ℕ)
      → stopped_after s i false ≡ false
      → let ends = has_end (stage_end s.duration (env i).now global) in
        ((env i).stopped_early ≡ false)
        × ((ends && (env i).stopped_waiting) ≡ false)
        × ((ends && ltb 0 (env i).failures) ≡ false)
  unfolding stopped_after
  went_on s i t = going_on (has_end (stage_end s.duration (env i).now global)) (env i) t

  -- If nobody stops the run before or in a wait, no worker fails and the clock stays before the global end, every
  -- stage is started once, in order.
  pub run_stages_quiet :
      (i : ℕ) (ss : List Stage) (e : Settings)
      → ((j : ℕ)
          → ((env j).failures ≡ 0)
            × ((env j).stopped_early ≡ false)
            × ((env j).stopped_waiting ≡ false)
            × (leb global (env j).now ≡ false))
      → stages_started (run_stages env concurrency global i ss e false) ≡ ss
  run_stages_quiet i [] e q = ap stages_started (run_stages_nil i e false)
  run_stages_quiet i (s ∷ []) e q =
      let e' = settings_after s i e in
      ap stages_started (run_stages_on i s [] e (q i).3)
      ∙ ap (λ l. s ∷ stages_started l) (run_stages_nil (suc i) e' (stopped_after s i true))
  run_stages_quiet i (s ∷ s' ∷ ss) e q =
      let e' = settings_after s i e in
      let (f, early, late, _) = q i in
      let on : stopped_after s i false ≡ false = goes_on s i f early late in
      ap stages_started (run_stages_on i s (s' ∷ ss) e (q i).3)
      ∙ ap (λ b. s ∷ stages_started (run_stages env concurrency global (suc i) (s' ∷ ss) e' b)) on
      ∙ ap (λ l. s ∷ l) (run_stages_quiet (suc i) (s' ∷ ss) e' q)

  -- Whatever happens, a stage after which another is started was not stopped before its workers were seen to,
  -- and where it has an end, it was not stopped in the wait for that end and no worker failed.
  pub run_stages-IsContinued :
      (i : ℕ) (ss : List Stage) (e : Settings) (stopped : Bool)
      → IsContinued env i (run_stages env concurrency global i ss e stopped)
  run_stages-IsContinued i [] e stopped = rw (run_stages_nil i e stopped) tt
  run_stages-IsContinued i (s ∷ ss) e true = rw (run_stages_stopped i (s ∷ ss) e) tt
  run_stages-IsContinued i (s ∷ []) e false = elim (Bool-cases (leb global (env i).now)) [
    | inl h ↦ rw (run_stages_over i s [] e h) tt
    | inr h ↦
        rw
          (
            run_stages_on i s [] e h,
            run_stages_nil (suc i) (settings_after s i e) (stopped_after s i true),
          )
          tt
  ]
  run_stages-IsContinued i (s ∷ s' ∷ ss) e false = elim (Bool-cases (leb global (env i).now)) [
    | inl h ↦ rw (run_stages_over i s (s' ∷ ss) e h) tt
    | inr h ↦
        let e' = settings_after s i e in
        rw (run_stages_on i s (s' ∷ ss) e h) (elim (Bool-cases (stopped_after s i false)) [
          | inl t ↦ rw (t, run_stages_stopped (suc i) (s' ∷ ss) e') tt
          | inr t ↦ rw t (
              cons-IsContinued env i (start s i e)
                (run_stages env concurrency global (suc i) (s' ∷ ss) e' false) (went_on s i t)
                (run_stages-IsContinued (suc i) (s' ∷ ss) e' false))
        ])
  ]

  -- After a stage without an end whose workers were started before anybody called `stop`, the next stage is
  -- started while the clock is before the global end, unless `stop` was called and a worker failed: one of the
  -- two alone does not end the run.
  pub unended_continues :
      (i : ℕ) (s s' : Stage) (ss : List Stage) (e : Settings)
      → has_end (stage_end s.duration (env i).now global) ≡ false
      → leb global (env i).now ≡ false
      → leb global (env (suc i)).now ≡ false
      → (env i).stopped_early ≡ false
      → (((env i).stopped_waiting || (env i).stopped_joining) && ltb 0 (env i).failures) ≡ false
      → 2 ≤ length (run_stages env concurrency global i (s ∷ s' ∷ ss) e false)
  unfolding stopped_after
  unended_continues i s s' ss e no_end' h h' early late =
      let e' = settings_after s i e in
      let on : stopped_after s i false ≡ false = rw no_end' (unended_goes_on (env i) early late) in
      rw (run_stages_on i s (s' ∷ ss) e h, on, run_stages_on (suc i) s' ss e' h') (omega arith)
