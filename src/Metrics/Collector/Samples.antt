-- ===== src/Metrics/Collector/Samples.antt =====
-- core/metrics/collector.cpp: what `collect_ring_samples` copies.
use cppload_workflow.Prelude.{
  ℕ, zero, suc, ◌+◌, ◌-◌, ◌≤◌, ◌<◌, ◌%◌, ◌≡◌, refl, sym, ap, ◌∙◌, inl, inr, true, false, some, List,
  [], ◌∷◌, ltb, leb, ◌==◌, if◌then◌else◌, arith, Bool-cases, ==_refl, ◌⊎◌, min,
}
use mathlib.Core.Path.{subst}
use cppload_workflow.Metrics.Collector.{
  capacity, max_snapshot_samples, Ring, write, push_loop, push, scan, collect_ring_samples, reset,
  Call, pushes, resets, step, run,
}

-- The latency that push number `i` recorded.
abbrev pub extend : (ℕ → ℕ) → ℕ → ℕ → ℕ → ℕ
extend g t v i = if i == t then v else g i

-- The ring with a latency in the slot behind its tail.
abbrev written : ℕ → Ring → Ring
written v r = record r {
  tail = r.tail + 1;
  cells = write r.cells (r.tail % capacity) (record { seq = r.tail + 1; value = v });
}

-- Every position from the head to the tail is published with its latency.
pub record Holds (g : ℕ → ℕ) (r : Ring) : Type 0 where
  pub head_le : r.head ≤ r.tail
  pub fits : r.tail ≤ r.head + capacity
  pub published :
      (i : ℕ)
      → r.head ≤ i
      → i < r.tail
      → r.cells (i % capacity) ≡ record { seq = i + 1; value = g i }

abbrev pub stretch : (ℕ → ℕ) → ℕ → ℕ → List ℕ
stretch g i zero = []
stretch g i (suc n) = g i ∷ stretch g (suc i) n

scan-stretch :
    (g : ℕ → ℕ) (r : Ring) (i n : ℕ)
    → Holds g r
    → r.head ≤ i
    → i + n ≤ r.tail
    → scan r.cells i n ≡ stretch g i n
unfolding scan
scan-stretch g r i zero k h l = refl
scan-stretch g r i (suc n) k h l =
    let here = k.published i h (omega arith) in
    let rest = scan-stretch g r (suc i) n k (omega arith) (omega arith) in
    rw (here, rest, ==_refl (i + 1)) refl

push_loop-room :
    (rounds v : ℕ) (r : Ring)
    → r.tail < r.head + capacity
    → push_loop (suc rounds) v r.tail r ≡ some (written v r)
unfolding push_loop
push_loop-room rounds v r h =
    let room : leb capacity (r.tail - r.head) ≡ false = ground arith in
    let same : (r.tail == r.tail) ≡ true = ground arith in rw (room, same) refl

push_loop-full :
    (g : ℕ → ℕ) (rounds v : ℕ) (r : Ring)
    → Holds g r
    → r.tail ≡ r.head + capacity
    → push_loop (suc rounds) v r.tail r ≡ push_loop rounds v r.tail (record r { head = r.head + 1 })
unfolding push_loop
push_loop-full g rounds v r k h =
    let full : leb capacity (r.tail - r.head) ≡ true = ground arith in
    let here = k.published r.head (omega arith) (omega arith) in
    rw (full, here, ==_refl (r.head + 1)) refl

write-Holds :
    (g : ℕ → ℕ) (v : ℕ) (r : Ring)
    → Holds g r
    → r.tail < r.head + capacity
    → Holds (extend g r.tail v) (written v r)
write-Holds g v r k h = record {
  head_le = omega (arith, k.head_le);
  fits = omega arith;
  published = λ i low high. elim (Bool-cases (i == r.tail)) [
    | inl e ↦
        let same : i ≡ r.tail = ground arith in
        let slot : (i % capacity == r.tail % capacity) ≡ true = ground arith in
        rw (slot, e) (ap (λ (t : ℕ). record { seq = t + 1; value = v }) (sym same))
    | inr e ↦
        let below : i < r.tail = ground arith in
        let slot : (i % capacity == r.tail % capacity) ≡ false = ground (arith, below, h, low) in
        rw (slot, e) (k.published i low below)
  ];
}

-- All latencies pushed so far, by number, and how many of them a reset has put aside.
pub record Past : Type 0 where
  pub count : ℕ
  pub since : ℕ
  pub value : ℕ → ℕ

abbrev pub past_step : Past → Call → Past
past_step p (pushes v) = record p { count = p.count + 1; value = extend p.value p.count v }
past_step p resets = record p { since = p.count }

abbrev pub past_run : Past → List Call → Past
past_run p [] = p
past_run p (c ∷ cs) = past_run (past_step p c) cs

-- The newest latencies since the last reset, a snapshot's limit at most, the oldest first.
abbrev pub newest : Past → List ℕ
newest p = let n = min (p.count - p.since) max_snapshot_samples in stretch p.value (p.count - n) n

pub record Agrees (p : Past) (r : Ring) : Type 0 where
  pub holds : Holds p.value r
  pub tail_count : r.tail ≡ p.count
  pub since_le : p.since ≤ r.head
  pub head_is : (r.head ≡ p.since) ⊎ (r.head + capacity ≡ r.tail)

-- A latency written behind the tail of a ring with room.
write-Agrees :
    (p : Past) (v : ℕ) (r : Ring)
    → Holds p.value r
    → r.tail ≡ p.count
    → p.since ≤ r.head
    → (r.head ≡ p.since) ⊎ (r.head + capacity ≡ r.tail + 1)
    → r.tail < r.head + capacity
    → Agrees (past_step p (pushes v)) (written v r)
write-Agrees p v r k t s h l = record {
  holds =
      subst (λ (n : ℕ). Holds (extend p.value n v) (written v r)) t (write-Holds p.value v r k l);
  tail_count = omega (arith, t);
  since_le = s;
  head_is = h;
}

push-Agrees :
    (p : Past) (v : ℕ) (r : Ring)
    → Agrees p r
    → (r' : Ring) × ((push 2 v r ≡ some r') × Agrees (past_step p (pushes v)) r')
unfolding push
push-Agrees p v r a = elim (Bool-cases (ltb r.tail (r.head + capacity))) [
  | inl e ↦
      let room : r.tail < r.head + capacity = ground arith in
      let head_is : (r.head ≡ p.since) ⊎ (r.head + capacity ≡ r.tail + 1) = elim a.head_is [
        | inl h ↦ inl h
        | inr h ↦ absurd (omega (arith, room, h))
      ] in
      (
        _,
        (
          push_loop-room 1 v r room,
          write-Agrees p v r a.holds a.tail_count a.since_le head_is room,
        ),
      )
  | inr e ↦
      let full : r.tail ≡ r.head + capacity = ground (arith, a.holds.fits) in
      let evicted = record r { head = r.head + 1 } in
      let kept : Holds p.value evicted = record {
        head_le = omega (arith, full);
        fits = omega (arith, full);
        published = λ i low high. a.holds.published i (omega (arith, low)) high;
      } in
      (
        _,
        (
          push_loop-full p.value 1 v r a.holds full
              ∙ push_loop-room 0 v evicted (omega (arith, full)),
          write-Agrees p v evicted kept a.tail_count (omega (arith, a.since_le))
              (inr (omega (arith, full))) (omega (arith, full)),
        ),
      )
]

reset-Agrees : (p : Past) (r : Ring) → Agrees p r → Agrees (past_step p resets) (reset r)
unfolding reset
reset-Agrees p r a = record {
  holds = record {
    head_le = omega arith;
    fits = omega arith;
    published = λ i low high. absurd (omega arith);
  };
  tail_count = a.tail_count;
  since_le = omega (arith, a.tail_count);
  head_is = inl a.tail_count;
}

stretch-same : (g : ℕ → ℕ) (i j m n : ℕ) → i ≡ j → m ≡ n → stretch g i m ≡ stretch g j n
stretch-same g i j m n e f = rw (e, f) refl

collect-newest : (p : Past) (r : Ring) → Agrees p r → collect_ring_samples r ≡ newest p
unfolding collect_ring_samples
collect-newest p r a = elim (Bool-cases (ltb r.head r.tail)) [
  | inr e ↦
      let none_left : min (p.count - p.since) max_snapshot_samples ≡ 0 = elim a.head_is [
        | inl h ↦ ground (arith, a.tail_count, h, a.holds.head_le)
        | inr h ↦ absurd (ground (arith, h))
      ] in
      rw (e, none_left) refl
  | inl e ↦ elim (Bool-cases (ltb max_snapshot_samples (r.tail - r.head))) [
    | inl big ↦
        rw (e, big)
          (scan-stretch p.value r (r.tail - max_snapshot_samples) _ a.holds (ground arith)
              (ground arith)
            ∙ stretch-same p.value _ _ _ _ (ground (arith, a.tail_count, a.since_le))
                (ground (arith, a.tail_count, a.since_le)))
    | inr small ↦
        let whole : r.head ≡ p.since = elim a.head_is [
          | inl h ↦ h
          | inr h ↦ absurd (ground (arith, h))
        ] in
        rw (e, small)
          (scan-stretch p.value r r.head _ a.holds (omega arith) (ground arith)
            ∙ stretch-same p.value _ _ _ _ (ground (arith, a.tail_count, whole))
                (ground (arith, a.tail_count, whole)))
  ]
]

-- From a ring that holds the latencies of its past, as a new one does, two rounds of the loop are
-- enough for every push, and after any calls a snapshot copies the newest latencies since the last
-- reset, 100000 at most, in their order.
pub run-newest :
    (cs : List Call) (p : Past) (r : Ring)
    → Agrees p r
    → (r' : Ring) × ((run cs r ≡ some r') × (collect_ring_samples r' ≡ newest (past_run p cs)))
unfolding run step
run-newest [] p r a = (r, (refl, collect-newest p r a))
run-newest (pushes v ∷ cs) p r a =
    let (r', (e, a')) = push-Agrees p v r a in
    let (r'', (e', s)) = run-newest cs (past_step p (pushes v)) r' a' in (r'', (rw (e) e', s))
run-newest (resets ∷ cs) p r a = run-newest cs (past_step p resets) (reset r) (reset-Agrees p r a)
