-- ===== src/Scenario/Worker/Rate.antt =====
-- core/scenario/engine.cpp, `ScenarioEngine::Impl::run`: the pace of a worker.
use cppload_workflow.Prelude.{
  ℕ, suc, ◌+◌, ◌-◌, ◌*◌, ◌<◌, ◌≤◌, ◌≡◌, refl, ◌⊎◌, inl, inr, Bool, true, false, not, ◌&&◌, ◌||◌,
  Option, none, some, List, [], ◌∷◌, arith, ltb, if◌then◌else◌, length, Bytes, Signed, nonneg,
  Bool-cases, Option-cases,
}
use mathlib.Core.Path.{subst}
use cppload_workflow.Prelude.Json.{Json}
use cppload_workflow.Core.TokenBucket.{try_consume}
use cppload_workflow.Net.Network.{Network}
use cppload_workflow.Security.Auth.{Auth}
use cppload_workflow.Core.Errors.{Err}
use cppload_workflow.Net.Protocol.{Request, Response}
use cppload_workflow.Scenario.Config.{Scenario, HttpStep}
use cppload_workflow.Scenario.Worker.{
  Wait, late, cut, Turn, Sent, sent, wake, is_over, await_slot, next_slot, choose_step, request_of,
  answered, authorize, work,
}

-- Whether `stopped_` is seen in one of the waits.
abbrev pub is_cut : Wait → Bool
is_cut (late n) = false
is_cut (cut now) = true

abbrev pub any_cut : List Turn → Bool
any_cut [] = false
any_cut (t ∷ ts) = is_cut t.wait || any_cut ts

-- The slots are at least a period apart, the first at `from` or later; every request was sent before the end, and
-- every one but the last was answered. Each was sent at its slot or later, the first excepted if `early` is true,
-- and the last if `stopped` is.
unfoldable pub IsPaced : Option Signed → ℕ → Bool → Bool → ℕ → List Sent → Type 0
IsPaced ends period stopped early from [] = Unit
IsPaced ends period stopped early from (x ∷ []) =
    (from ≤ x.slot)
    × (is_over ends x.sent_at ≡ false)
    × ((early ≡ true) ⊎ ((stopped ≡ true) ⊎ (x.slot ≤ x.sent_at)))
IsPaced ends period stopped early from (x ∷ y ∷ r) =
    (from ≤ x.slot)
    × (is_over ends x.sent_at ≡ false)
    × ((early ≡ true) ⊎ (x.slot ≤ x.sent_at))
    × (answered x.recorded ≡ true)
    × IsPaced ends period stopped false (x.slot + period) (y ∷ r)

IsPaced-relaxed :
    (ends : Option Signed) (period : ℕ) (stopped early : Bool) (from later : ℕ) (l : List Sent)
    → from ≤ later
    → IsPaced ends period stopped false later l
    → IsPaced ends period stopped early from l
unfolding IsPaced
IsPaced-relaxed ends period stopped early from later [] h p = tt
IsPaced-relaxed ends period stopped early from later (x ∷ []) h (a, b, inl c) = cc
IsPaced-relaxed ends period stopped early from later (x ∷ []) h (a, b, inr c) =
    (omega (arith, h, a), b, inr c)
IsPaced-relaxed ends period stopped early from later (x ∷ y ∷ r) h (a, b, inl c, d, e) = cc
IsPaced-relaxed ends period stopped early from later (x ∷ y ∷ r) h (a, b, inr c, d, e) =
    (omega (arith, h, a), b, inr c, d, e)

wake_lem : (slot : ℕ) (w : Wait) → ((wake slot w).1 ≡ true) ⊎ (slot ≤ (wake slot w).0)
unfolding wake
wake_lem slot (late n) = inr (omega arith)
wake_lem slot (cut n) = inl refl

wake_cut : (slot : ℕ) (w : Wait) → (wake slot w).1 ≡ true → is_cut w ≡ true
unfolding wake
wake_cut slot (late n) e = e
wake_cut slot (cut n) e = refl

-- A round that comes to the bucket does so in time, and at its slot or later if its wait is not cut.
Reached : Option Signed → Wait → Bool → ℕ → Option (ℕ × Bool) → Type 0
Reached ends wait first_slot slot none = Unit
Reached ends wait first_slot slot (some r) =
    (is_over ends r.0 ≡ false)
    × ((r.1 ≡ true) ⊎ ((first_slot ≡ true) ⊎ (slot ≤ r.0)))
    × (r.1 ≡ true → is_cut wait ≡ true)

module _ (ends : Option Signed) (first_slot : Bool) (slot : ℕ) where
  if-Reached :
      (wait : Wait) (b : Bool) (x y : Option (ℕ × Bool))
      → (b ≡ true → Reached ends wait first_slot slot x)
      → (b ≡ false → Reached ends wait first_slot slot y)
      → Reached ends wait first_slot slot (if b then x else y)
  if-Reached wait true x y f g = f refl
  if-Reached wait false x y f g = g refl

  waits_late :
      (r : ℕ × Bool)
      → (r.1 ≡ true) ⊎ (slot ≤ r.0)
      → (r.1 ≡ true) ⊎ ((first_slot ≡ true) ⊎ (slot ≤ r.0))
  waits_late r (inl e) = inl e
  waits_late r (inr e) = inr (inr e)

  in_time : (a b : Bool) → (a || b) ≡ false → b ≡ false
  in_time a b h = ground arith

  no_wait :
      (now : ℕ) → (not first_slot && ltb now slot) ≡ false → (first_slot ≡ true) ⊎ (slot ≤ now)
  no_wait now h = ground arith

  await_slot-Reached :
      (t : Turn) → Reached ends t.wait first_slot slot (await_slot ends first_slot slot t)
  unfolding await_slot Reached
  await_slot-Reached t =
      let woken = wake slot t.wait in
      let waited = if is_over ends woken.0 then none else some woken in
      let waits = not first_slot && ltb t.now slot in
      if-Reached t.wait (t.stopped || is_over ends t.now) none
        (if waits then waited else some (t.now, false)) (λ _. tt)
        (λ h.
          if-Reached t.wait waits waited (some (t.now, false))
            (λ _.
              if-Reached t.wait (is_over ends woken.0) none (some woken) (λ _. tt)
                (λ m. (m, waits_late woken (wake_lem slot t.wait), wake_cut slot t.wait)))
            (λ k. (
              in_time t.stopped (is_over ends t.now) h,
              inr (no_wait t.now k),
              λ (e : false ≡ true). cc,
            )))

on-IsPaced :
    (ends : Option Signed) (period : ℕ) (stopped early : Bool) (slot : ℕ) (c : Bool) (l : List Sent)
    → IsPaced ends period stopped false (slot + period) l
    → IsPaced ends period stopped early slot (if c then [] else l)
unfolding IsPaced
on-IsPaced ends period stopped early slot true l p = tt
on-IsPaced ends period stopped early slot false l p =
    IsPaced-relaxed ends period stopped early slot (slot + period) l (omega arith) p

module _ (ends : Option Signed) (period : ℕ) (stopped early : Bool) (slot now : ℕ) (step : HttpStep)
    (req : Request) where
  allowed :
      (c : Bool)
      → (c ≡ true) ⊎ ((early ≡ true) ⊎ (slot ≤ now))
      → (c ≡ true → stopped ≡ true)
      → (early ≡ true) ⊎ ((stopped ≡ true) ⊎ (slot ≤ now))
  allowed c (inl e) g = inr (inl (g e))
  allowed c (inr (inl e)) g = inl e
  allowed c (inr (inr h)) g = inr (inr h)

  sent-IsPaced :
      (answer : Option (Option Err × Response)) (c : Bool) (l : List Sent)
      → is_over ends now ≡ false
      → (c ≡ true) ⊎ ((early ≡ true) ⊎ (slot ≤ now))
      → (c ≡ true → stopped ≡ true)
      → IsPaced ends period stopped false (slot + period) l
      → IsPaced ends period stopped early slot
          (sent slot now step req answer ∷ (if c || not (answered answer) then [] else l))
  unfolding IsPaced sent
  sent-IsPaced answer true l o h g p = (omega arith, o, allowed true h g)
  sent-IsPaced none false l o h g p = (omega arith, o, allowed false h g)
  sent-IsPaced (some a) false [] o h g p = (omega arith, o, allowed false h g)
  sent-IsPaced (some a) false (y ∷ l) o (inl h) g p = cc
  sent-IsPaced (some a) false (y ∷ l) o (inr h) g p = (omega arith, o, h, refl, p)

cut_here : (a b : Bool) → a ≡ true → (a || b) ≡ true
cut_here a b h = ground arith

cut_later : (a b : Bool) → b ≡ true → (a || b) ≡ true
cut_later a b h = ground arith

module _ {W S J : Type 0} (N : Network W S) (L : Json J) (base_url : Bytes)
    (scenarios : List Scenario) (ends : Option Signed) (period : ℕ) where
  IsPaced-while :
      (stopped : Bool) (ts : List Turn) (slot : ℕ) (first_slot : Bool) (step_ix : ℕ)
      (auth : Option Auth) (w : W)
      → (any_cut ts ≡ true → stopped ≡ true)
      → IsPaced ends period stopped first_slot
          (next_slot first_slot slot period)
          (work N L base_url scenarios ends period ts slot first_slot step_ix auth w)
  unfolding work IsPaced next_slot Reached
  IsPaced-while stopped [] slot first_slot step_ix auth w g = tt
  IsPaced-while stopped (t ∷ ts) slot first_slot step_ix auth w g =
      let g' : any_cut ts ≡ true → stopped ≡ true =
        λ e. g (cut_later (is_cut t.wait) (any_cut ts) e) in
      let slot' = next_slot first_slot slot period in
      elim (Option-cases (await_slot ends first_slot slot' t)) [
        | inl e ↦ rw (e, work) tt
        | inr ((now, c), e) ↦
            let reached : Reached ends t.wait first_slot slot' (some (now, c)) =
              subst (Reached ends t.wait first_slot slot') e
                (await_slot-Reached ends first_slot slot' t) in
            let skip = IsPaced-while stopped ts slot' false step_ix auth w g' in
            elim (Bool-cases (try_consume t.bucket now).1) [
              | inl b ↦ elim (Option-cases (choose_step scenarios t.pick step_ix)) [
                | inl f ↦
                    rw (e, b, f, work)
                      (on-IsPaced ends period stopped first_slot slot' c
                        (work N L base_url scenarios ends period ts slot' false step_ix auth w)
                        skip)
                | inr (step, f) ↦
                    rw (e, b, f, work)
                      (let ((headers, auth'), w') =
                          authorize N L base_url scenarios ends period auth step.headers w in
                        sent-IsPaced ends period stopped first_slot slot' now step
                          (request_of base_url step headers) t.answer c
                          (work N L base_url scenarios ends period ts slot' false (suc step_ix)
                            auth' w')
                          reached.0 reached.1
                          (λ e. g (cut_here (is_cut t.wait) (any_cut ts) (reached.2 e)))
                          (IsPaced-while stopped ts slot' false (suc step_ix) auth' w' g'))
              ]
              | inr b ↦
                  rw (e, b, work)
                    (on-IsPaced ends period stopped first_slot slot' c
                      (work N L base_url scenarios ends period ts slot' false step_ix auth w) skip)
            ]
      ]

  -- Whatever the clock, the server and the other threads do, the slots of a worker's requests are a period apart
  -- at least, each request was sent before the end, and each but the last was answered. None was sent before its
  -- slot but the first, if the worker has just started, and the last, if `stopped_` is seen in a wait.
  pub work-IsPaced :
      (ts : List Turn) (slot : ℕ) (first_slot : Bool) (step_ix : ℕ) (auth : Option Auth) (w : W)
      → IsPaced ends period
          (any_cut ts)
          first_slot
          (next_slot first_slot slot period)
          (work N L base_url scenarios ends period ts slot first_slot step_ix auth w)
  work-IsPaced ts slot first_slot step_ix auth w =
      IsPaced-while (any_cut ts) ts slot first_slot step_ix auth w (λ e. e)

spent_first : (n p : ℕ) → suc n * p ≡ p + n * p
spent_first n p = omega arith

in_end : (e now : ℕ) → is_over (some (nonneg e)) now ≡ false → now < e
unfolding is_over
in_end e now h = ground arith

on_time : (slot now : ℕ) → (false ≡ true) ⊎ (slot ≤ now) → slot ≤ now
on_time slot now (inl e) = cc
on_time slot now (inr h) = h

IsPaced-length :
    (e period : ℕ) (stopped early : Bool) (from : ℕ) (l : List Sent)
    → IsPaced (some (nonneg e)) period stopped early from l
    → length l * period ≤ (e - from) + 2 * period
unfolding IsPaced
IsPaced-length e period stopped early from [] p = omega arith
IsPaced-length e period stopped early from (x ∷ []) p = omega arith
IsPaced-length e period stopped early from (x ∷ y ∷ []) p = omega arith
IsPaced-length e period stopped early from (x ∷ y ∷ z ∷ r) (a, b, c, d, p) = omega (
  arith,
  a,
  p.0,
  in_end e y.sent_at p.1,
  on_time y.slot y.sent_at p.2,
  spent_first (length (y ∷ z ∷ r)) period,
  IsPaced-length e period stopped false (x.slot + period) (y ∷ z ∷ r) p,
)

module _ {W S J : Type 0} (N : Network W S) (L : Json J) (base_url : Bytes)
    (scenarios : List Scenario) (e period : ℕ) where
  -- A worker that starts its loop with its first slot sends no more requests by the end of its stage than the
  -- periods that fit between the two, and two more, even where it fell behind and catches up.
  pub work_rate :
      (ts : List Turn) (slot step_ix : ℕ) (auth : Option Auth) (w : W)
      → let l = work N L base_url scenarios (some (nonneg e)) period ts slot true step_ix auth w in
        length l * period ≤ (e - slot) + 2 * period
  unfolding next_slot
  work_rate ts slot step_ix auth w =
      let l = work N L base_url scenarios (some (nonneg e)) period ts slot true step_ix auth w in
      IsPaced-length e period (any_cut ts) true slot l
        (work-IsPaced N L base_url scenarios (some (nonneg e)) period ts slot true step_ix auth w)
