-- ===== src/Metrics/Sharded/Totals.antt =====
-- core/metrics/sharded_collector.cpp: what `snapshot` counts.
use cppload_workflow.Prelude.{
  Double, ℕ, zero, suc, ◌+◌, ◌%◌, ◌<◌, ◌≡◌, refl, ap, ◌∙◌, List, [], ◌∷◌, if◌then◌else◌, length,
  arith, leb, Bool-cases, inl, inr,
}
use cppload_workflow.Metrics.Sharded.{
  Shard, Collector, Sample, Call, records, resets, reads_rate, roll_window, word, fresh, is_success,
  record_shard, update, push_sample, record_request, clear_shards, reset, add_all, snapshot, step,
  run, create, fresh_shards, num_shards,
}

-- The counter starts anew with each reset.
abbrev pub tally : (Sample → ℕ) → ℕ → List Call → ℕ
tally w n [] = n
tally w n (records idx q ∷ es) = tally w (n + w q) es
tally w n (resets now ∷ es) = tally w 0 es
tally w n (reads_rate now ∷ es) = tally w n es

-- Every call goes to a shard that is there.
abbrev pub InRange : ℕ → List Call → Type 0
InRange n [] = Unit
InRange n (records idx q ∷ es) = (idx < n) × InRange n es
InRange n (resets now ∷ es) = InRange n es
InRange n (reads_rate now ∷ es) = InRange n es

module _ (f : Shard → ℕ) where
  add_all-shift :
      (a d : ℕ) (ss : List Shard)
      → add_all f ((a + d) % word) ss ≡ (add_all f (a % word) ss + d) % word
  unfolding add_all
  add_all-shift a d [] = omega arith
  add_all-shift a d (s ∷ ss) =
      ap (λ (t : ℕ). add_all f t ss) (omega arith)
      ∙ add_all-shift (a + f s) d ss
      ∙ ap (λ (t : ℕ). (add_all f t ss + d) % word) (omega arith)

  -- A counter that one call raises by `d` in its shard.
  add_all-update :
      (g : Shard → Shard) (d : ℕ)
      → ((s : Shard) → f (g s) % word ≡ (f s + d) % word)
      → (i a : ℕ) (ss : List Shard) → i < length ss
      → add_all f (a % word) (update i g ss) ≡ (add_all f (a % word) ss + d) % word
  unfolding add_all update
  add_all-update g d h i a [] l = elim l [ ]
  add_all-update g d h zero a (s ∷ ss) l =
      ap (λ (t : ℕ). add_all f t ss) (omega (arith, h s))
      ∙ add_all-shift (a + f s) d ss
      ∙ ap (λ (t : ℕ). (add_all f t ss + d) % word) (omega arith)
  add_all-update g d h (suc i) a (s ∷ ss) l =
      add_all-update g d h i (a % word + f s) ss (omega arith)

  add_all-clear : f fresh ≡ 0 → (ss : List Shard) → add_all f 0 (clear_shards ss) ≡ 0
  unfolding add_all clear_shards
  add_all-clear h [] = refl
  add_all-clear h (s ∷ ss) =
      ap (λ (t : ℕ). add_all f t (clear_shards ss)) (omega (arith, h)) ∙ add_all-clear h ss

length-update : (i : ℕ) (g : Shard → Shard) (ss : List Shard) → length (update i g ss) ≡ length ss
unfolding update
length-update i g [] = refl
length-update zero g (s ∷ ss) = refl
length-update (suc i) g (s ∷ ss) = omega (arith, length-update i g ss)

length-clear_shards : (ss : List Shard) → length (clear_shards ss) ≡ length ss
unfolding clear_shards
length-clear_shards [] = refl
length-clear_shards (s ∷ ss) = omega (arith, length-clear_shards ss)

roll_window-shards : (now : ℕ) (c : Collector) → (roll_window now c).shards ≡ c.shards
unfolding roll_window
roll_window-shards now c = elim (Bool-cases (leb (c.rps_window_start + 1_000_000_000) now)) [
  | inl e ↦ rw e refl
  | inr e ↦ rw e refl
]

-- A counter of the shards that each call raises by the weight of its sample.
run-counter :
    (f : Shard → ℕ) (w : Sample → ℕ)
    → ((q : Sample) (s : Shard) → f (record_shard q s) % word ≡ (f s + w q) % word)
    → f fresh ≡ 0
    → (c : Collector) (es : List Call) (n : ℕ) → InRange (length c.shards) es
    → add_all f 0 c.shards ≡ n % word
    → add_all f 0 (run c es).shards ≡ tally w n es % word
unfolding run step record_request push_sample reset
run-counter f w h z c [] n r e = e
run-counter f w h z c (records idx q ∷ es) n (i, r) e =
    run-counter f w h z (record_request idx q c) es (n + w q)
      (rw (length-update idx (record_shard q) c.shards) r)
      (add_all-update f (record_shard q) (w q) (h q) idx 0 c.shards i
        ∙ ap (λ (t : ℕ). (t + w q) % word) e
        ∙ omega arith)
run-counter f w h z c (resets now ∷ es) n r e =
    run-counter f w h z (reset now c) es 0 (rw (length-clear_shards c.shards) r)
      (add_all-clear f z c.shards)
run-counter f w h z c (reads_rate now ∷ es) n r e =
    run-counter f w h z (roll_window now c) es n (rw (roll_window-shards now c) r)
      (rw (roll_window-shards now c) e)

length-fresh_shards : (n : ℕ) → length (fresh_shards n) ≡ n
unfolding fresh_shards
length-fresh_shards zero = refl
length-fresh_shards (suc n) = omega (arith, length-fresh_shards n)

add_all-fresh : (f : Shard → ℕ) → f fresh ≡ 0 → (n : ℕ) → add_all f 0 (fresh_shards n) ≡ 0
unfolding add_all fresh_shards
add_all-fresh f z zero = refl
add_all-fresh f z (suc n) =
    ap (λ (t : ℕ). add_all f t (fresh_shards n)) (omega (arith, z)) ∙ add_all-fresh f z n

create-counter :
    (f : Shard → ℕ) (w : Sample → ℕ)
    → ((q : Sample) (s : Shard) → f (record_shard q s) % word ≡ (f s + w q) % word)
    → f fresh ≡ 0
    → (hw now : ℕ) (es : List Call) → InRange (num_shards hw) es
    → add_all f 0 (run (create hw now) es).shards ≡ tally w 0 es % word
unfolding create
create-counter f w h z hw now es r =
    run-counter f w h z (create hw now) es 0 (rw (length-fresh_shards (num_shards hw)) r)
      (add_all-fresh f z (num_shards hw))

abbrev pub success : Sample → ℕ
success q = if is_success q.status_code then 1 else 0

abbrev pub failure : Sample → ℕ
failure q = if is_success q.status_code then 0 else 1

-- After any calls to a new collector, each for a shard that is there, a snapshot counts over all
-- shards and modulo 2^64 the calls since the last reset, those with a status from 200 to 399 and
-- the others, and their bytes.
pub snapshot-tally :
    {F : Type 0} (D : Double F) (hw now : ℕ) (es : List Call)
    → InRange (num_shards hw) es
    → let m = snapshot D (run (create hw now) es) in
      (m.total_requests ≡ tally (λ q. 1) 0 es % word)
      × (m.successful_requests ≡ tally success 0 es % word)
      × (m.failed_requests ≡ tally failure 0 es % word)
      × (m.total_bytes_sent ≡ tally (λ q. q.bytes_sent) 0 es % word)
      × (m.total_bytes_received ≡ tally (λ q. q.bytes_received) 0 es % word)
unfolding snapshot record_shard
snapshot-tally D hw now es r = (
  create-counter (λ s. s.requests) (λ q. 1) (λ q s. omega arith) refl hw now es r,
  create-counter (λ s. s.successful) success (λ q s. ground arith) refl hw now es r,
  create-counter (λ s. s.failed) failure (λ q s. ground arith) refl hw now es r,
  create-counter (λ s. s.bytes_sent) (λ q. q.bytes_sent) (λ q s. omega arith) refl hw now es r,
  create-counter (λ s. s.bytes_received) (λ q. q.bytes_received) (λ q s. omega arith) refl hw now es
      r,
)
