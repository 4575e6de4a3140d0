-- ===== src/Metrics/Sharded/Window.antt =====
-- core/metrics/sharded_collector.cpp: the ring of samples is a bounded queue.
use cppload_workflow.Prelude.{
  ℕ, zero, suc, ◌+◌, ◌-◌, ◌≤◌, ◌<◌, ◌%◌, ◌≡◌, refl, sym, ap, ◌∙◌, inl, inr, true, false, List, [],
  ◌∷◌, ◌++◌, ltb, ◌==◌, if◌then◌else◌, length, length-append, drop, arith, Bool-cases, leb,
}
use mathlib.Core.List.{append-nil, append_assoc}
use cppload_workflow.Metrics.Sharded.{
  Collector, Sample, Call, records, resets, reads_rate, roll_window, clamp, max_samples, write,
  push_sample, record_request, reset, copy, window, step, run, record_shard, update,
}

-- A queue that holds `max_samples` values at most: the oldest makes room.
abbrev pub push_bounded : List ℕ → ℕ → List ℕ
push_bounded xs v = if length xs == max_samples then drop 1 xs ++ (v ∷ []) else xs ++ (v ∷ [])

abbrev pub queue_step : List ℕ → Call → List ℕ
queue_step xs (records idx q) = push_bounded xs (clamp q.latency)
queue_step xs (resets now) = []
queue_step xs (reads_rate now) = xs

abbrev pub queue_run : List ℕ → List Call → List ℕ
queue_run xs [] = xs
queue_run xs (e ∷ es) = queue_run (queue_step xs e) es

pub record RingOk (c : Collector) : Type 0 where
  pub count_le : c.samples_count ≤ max_samples
  pub head_lt : c.samples_head < max_samples
  pub head_count : ltb c.samples_count max_samples ≡ true → c.samples_head ≡ c.samples_count

copy-write : (f : ℕ → ℕ) (k v i n : ℕ) → (i + n ≤ k) → copy (write f k v) i n ≡ copy f i n
unfolding copy
copy-write f k v i zero h = refl
copy-write f k v i (suc n) h =
    let other : (i == k) ≡ false = ground arith in
    rw other (ap (◌∷◌ (f i)) (copy-write f k v (suc i) n (omega arith)))

copy-write_above : (f : ℕ → ℕ) (k v i n : ℕ) → k < i → copy (write f k v) i n ≡ copy f i n
unfolding copy
copy-write_above f k v i zero h = refl
copy-write_above f k v i (suc n) h =
    let other : (i == k) ≡ false = ground arith in
    rw other (ap (◌∷◌ (f i)) (copy-write_above f k v (suc i) n (omega arith)))

copy-suc : (f : ℕ → ℕ) (i n : ℕ) → copy f i (suc n) ≡ copy f i n ++ (f (i + n) ∷ [])
unfolding copy
copy-suc f i zero = ap (λ (j : ℕ). f j ∷ []) (omega arith)
copy-suc f i (suc n) =
    ap (◌∷◌ (f i))
      (copy-suc f (suc i) n ∙ ap (λ (j : ℕ). copy f (suc i) n ++ (f j ∷ [])) (omega arith))

copy-write_end : (f : ℕ → ℕ) (k v : ℕ) → copy (write f k v) 0 (suc k) ≡ copy f 0 k ++ (v ∷ [])
copy-write_end f k v =
    copy-suc (write f k v) 0 k
    ∙ rw (copy-write f k v 0 k (omega arith)) (ap (λ (x : ℕ). copy f 0 k ++ (x ∷ [])) last)
  where
    last : write f k v (0 + k) ≡ v
    last = ground arith

length-copy : (f : ℕ → ℕ) (i n : ℕ) → length (copy f i n) ≡ n
unfolding copy
length-copy f i zero = refl
length-copy f i (suc n) = omega (arith, length-copy f (suc i) n)

-- The window of a ring with samples `f`, head `h` and count `n`.
abbrev ring : (ℕ → ℕ) → ℕ → ℕ → List ℕ
ring f h n = if n == max_samples then copy f h (max_samples - h) ++ copy f 0 h else copy f 0 n

ring-room :
    (f : ℕ → ℕ) (n v : ℕ)
    → n < max_samples
    → ring (write f n v) ((n + 1) % max_samples) (n + 1) ≡ copy f 0 n ++ (v ∷ [])
unfolding copy
ring-room f n v l = elim (Bool-cases (n + 1 == max_samples)) [
  | inl e ↦
      let wraps : (n + 1) % max_samples ≡ 0 = ground arith in
      let all : max_samples - 0 ≡ suc n = ground arith in
      rw (e, wraps) (append-nil _ ∙ ap (copy (write f n v) 0) all ∙ copy-write_end f n v)
  | inr e ↦
      let next : n + 1 ≡ suc n = omega arith in
      rw e (ap (copy (write f n v) 0) next ∙ copy-write_end f n v)
]

-- A full ring without its oldest sample.
ring-drop :
    (f : ℕ → ℕ) (h m : ℕ)
    → max_samples - h ≡ suc m
    → drop 1 (ring f h max_samples) ≡ copy f (suc h) m ++ copy f 0 h
unfolding copy
ring-drop f h m e = rw e refl

ring-full :
    (f : ℕ → ℕ) (h v : ℕ)
    → h < max_samples
    → ring (write f h v) ((h + 1) % max_samples) max_samples
      ≡ drop 1 (ring f h max_samples) ++ (v ∷ [])
unfolding copy
ring-full f h v l =
    let m = max_samples - h - 1 in
    let some_left : max_samples - h ≡ suc m = omega arith in
    rest m some_left
    ∙ ap (λ (t : List ℕ). copy f (suc h) m ++ t) (copy-write_end f h v)
    ∙ sym (append_assoc (copy f (suc h) m) (copy f 0 h) (v ∷ []))
    ∙ ap (λ (t : List ℕ). t ++ (v ∷ [])) (sym (ring-drop f h m some_left))
  where
    rest :
        (m : ℕ)
        → max_samples - h ≡ suc m
        → ring (write f h v) ((h + 1) % max_samples) max_samples
          ≡ copy f (suc h) m ++ copy (write f h v) 0 (suc h)
    rest m e = elim (Bool-cases (h + 1 == max_samples)) [
      | inl t ↦
          let wraps : (h + 1) % max_samples ≡ 0 = ground arith in
          let none_left : m ≡ 0 = ground arith in
          let all : max_samples - 0 ≡ suc h = ground arith in
          rw (wraps, none_left) (append-nil _ ∙ ap (copy (write f h v) 0) all)
      | inr t ↦
          let next : (h + 1) % max_samples ≡ suc h = ground arith in
          let left : max_samples - suc h ≡ m = ground arith in
          rw (next, left)
            (ap (λ (t : List ℕ). t ++ copy (write f h v) 0 (suc h))
              (copy-write_above f h v (suc h) m (omega arith)))
    ]

length-ring : (f : ℕ → ℕ) (h : ℕ) → h < max_samples → length (ring f h max_samples) ≡ max_samples
length-ring f h l = omega (
  arith,
  length-append (copy f h (max_samples - h)) (copy f 0 h),
  length-copy f h (max_samples - h),
  length-copy f 0 h,
)

push_sample-room :
    (c : Collector) (v : ℕ)
    → RingOk c
    → ltb c.samples_count max_samples ≡ true
    → window (push_sample v c) ≡ push_bounded (window c) v
unfolding window push_sample
push_sample-room c v k e =
    let same = k.head_count e in
    let room : (c.samples_count == max_samples) ≡ false = ground arith in
    rw (e, same, room, length-copy c.latency_samples 0 c.samples_count, room)
      (ring-room c.latency_samples c.samples_count v (ground arith))

push_sample-full :
    (c : Collector) (v : ℕ)
    → RingOk c
    → ltb c.samples_count max_samples ≡ false
    → window (push_sample v c) ≡ push_bounded (window c) v
unfolding window push_sample
push_sample-full c v k e =
    let full : c.samples_count ≡ max_samples = ground arith in
    rw (e, full, length-ring c.latency_samples c.samples_head k.head_lt)
      (ring-full c.latency_samples c.samples_head v k.head_lt)

push_sample-RingOk : (c : Collector) (v : ℕ) → RingOk c → RingOk (push_sample v c)
unfolding push_sample
push_sample-RingOk c v k = ground arith

push_sample-window :
    (c : Collector) (v : ℕ) → RingOk c → window (push_sample v c) ≡ push_bounded (window c) v
push_sample-window c v k = elim (Bool-cases (ltb c.samples_count max_samples)) [
  | inl e ↦ push_sample-room c v k e
  | inr e ↦ push_sample-full c v k e
]

reset-RingOk : (now : ℕ) (c : Collector) → RingOk (reset now c)
unfolding reset
reset-RingOk now c = ground arith

reset-window : (now : ℕ) (c : Collector) → window (reset now c) ≡ []
unfolding reset window copy
reset-window now c = refl

record_request-window :
    (idx : ℕ) (q : Sample) (c : Collector)
    → RingOk c
    → RingOk (record_request idx q c)
      × (window (record_request idx q c) ≡ push_bounded (window c) (clamp q.latency))
unfolding record_request window
record_request-window idx q c k =
    let d = record c { shards = update idx (record_shard q) c.shards } in
    let d_ok : RingOk d = record {
      count_le = k.count_le;
      head_lt = k.head_lt;
      head_count = k.head_count;
    } in
    let p = push_sample-RingOk d (clamp q.latency) d_ok in
    (
      record { count_le = p.count_le; head_lt = p.head_lt; head_count = p.head_count },
      push_sample-window d (clamp q.latency) d_ok,
    )

roll_window-window :
    (now : ℕ) (c : Collector)
    → RingOk c
    → RingOk (roll_window now c) × (window (roll_window now c) ≡ window c)
unfolding roll_window window
roll_window-window now c k = elim (Bool-cases (leb (c.rps_window_start + 1_000_000_000) now)) [
  | inl e ↦
      rw e (record { count_le = k.count_le; head_lt = k.head_lt; head_count = k.head_count }, refl)
  | inr e ↦ rw e (k, refl)
]

-- From a ring whose head and count agree, as they do in a new collector, the samples of a snapshot
-- after any calls are those of a queue that holds the newest `max_samples` latencies recorded since
-- the last reset.
pub window-run :
    (c : Collector) (es : List Call) → RingOk c → window (run c es) ≡ queue_run (window c) es
unfolding run step
window-run c [] k = refl
window-run c (records idx q ∷ es) k =
    let (k', e) = record_request-window idx q c k in
    window-run (record_request idx q c) es k' ∙ ap (λ (t : List ℕ). queue_run t es) e
window-run c (resets now ∷ es) k =
    window-run (reset now c) es (reset-RingOk now c)
    ∙ ap (λ (t : List ℕ). queue_run t es) (reset-window now c)
window-run c (reads_rate now ∷ es) k =
    let (k', e) = roll_window-window now c k in
    window-run (roll_window now c) es k' ∙ ap (λ (t : List ℕ). queue_run t es) e
