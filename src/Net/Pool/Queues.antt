-- ===== src/Net/Pool/Queues.antt =====
-- core/net/connection_pool.cpp: the map of queues, and sums over its entries.
use cppload_workflow.Prelude.{
  ℕ, ◌+◌, ◌-◌, ◌≤◌, ◌≡◌, refl, sym, true, List, [], ◌∷◌, ◌++◌, arith, Bytes, to_string,
  to_string-IsDigits, to_string_injective, IsDigits,
}
use cppload_workflow.Net.Pool.{
  PoolEntry, Pools, key_of, queue_at, set_queue, expire, expire_all, is_drained, weigh, weigh_all,
}

cons_injective : (x y : ℕ) (xs ys : Bytes) → x ∷ xs ≡ y ∷ ys → (x ≡ y) × (xs ≡ ys)
cons_injective x y xs ys e = (cc, cc)

no_colon : (xs d ys : Bytes) → IsDigits d → d ≡ xs ++ (b':' ∷ ys) → ⊥
no_colon [] [] ys i e = cc
no_colon [] (c ∷ d) ys i e = ground (arith, cons_injective c b':' d ys e)
no_colon (x ∷ xs) [] ys i e = cc
no_colon (x ∷ xs) (c ∷ d) ys i e = no_colon xs d ys i.1 (cons_injective c x d _ e).1

last_colon :
    (h h' d d' : Bytes)
    → IsDigits d
    → IsDigits d'
    → h ++ (b':' ∷ d) ≡ h' ++ (b':' ∷ d')
    → (h ≡ h') × (d ≡ d')
last_colon [] [] d d' i i' e = (refl, (cons_injective _ _ d d' e).1)
last_colon [] (x ∷ h') d d' i i' e = absurd (no_colon h' d d' i (cons_injective _ x d _ e).1)
last_colon (x ∷ h) [] d d' i i' e = absurd (no_colon h d' d i' (sym (cons_injective x _ _ d' e).1))
last_colon (x ∷ h) (y ∷ h') d d' i i' e =
    let (p, q) = cons_injective x y _ _ e in let (r, s) = last_colon h h' d d' i i' q in (cc, s)

-- Two endpoints share a queue only if they have the same host and the same port, also where a host
-- holds colons.
pub key_of_injective : (h h' : Bytes) (p p' : ℕ) → key_of h p ≡ key_of h' p' → (h ≡ h') × (p ≡ p')
unfolding key_of
key_of_injective h h' p p' e =
    let (r, s) =
      last_colon h h' (to_string p) (to_string p') (to_string-IsDigits p) (to_string-IsDigits p')
        e in
    (r, to_string_injective p p' s)

module _ (w : PoolEntry → ℕ) where
  pub weigh-append : (q r : List PoolEntry) → weigh w (q ++ r) ≡ weigh w q + weigh w r
  weigh-append [] r = omega arith
  weigh-append (e ∷ q) r = omega (arith, weigh-append q r)

  pub weigh_all-set_queue :
      (k : Bytes) (q : List PoolEntry) (ps : Pools)
      → weigh_all w (set_queue k q ps) + weigh w (queue_at k ps) ≡ weigh_all w ps + weigh w q
  unfolding weigh_all set_queue queue_at
  weigh_all-set_queue k q [] = omega arith
  weigh_all-set_queue k q ((j, r) ∷ ps) = ground (arith, weigh_all-set_queue k q ps)

  pub weigh-queue_at-le : (k : Bytes) (ps : Pools) → weigh w (queue_at k ps) ≤ weigh_all w ps
  unfolding weigh_all queue_at
  weigh-queue_at-le k [] = omega arith
  weigh-queue_at-le k ((j, r) ∷ ps) = ground (arith, weigh-queue_at-le k ps)

  weigh-expire-le :
      (now timeout : ℕ) (q : List PoolEntry) (total : ℕ)
      → weigh w (expire now timeout q total).0 ≤ weigh w q
  unfolding expire
  weigh-expire-le now timeout [] total = omega arith
  weigh-expire-le now timeout (e ∷ q) total =
      ground (arith, weigh-expire-le now timeout q (total - 1))

  pub weigh_all-expire_all-le :
      (now timeout : ℕ) (ps : Pools) (total : ℕ)
      → weigh_all w (expire_all now timeout ps total).0 ≤ weigh_all w ps
  unfolding expire_all weigh_all
  weigh_all-expire_all-le now timeout [] total = omega arith
  weigh_all-expire_all-le now timeout ((k, q) ∷ ps) total =
      let r = expire now timeout q total in
      ground
        (arith, weigh-expire-le now timeout q total, weigh_all-expire_all-le now timeout ps r.1)

abbrev pub unit_weight : PoolEntry → ℕ
unit_weight _ = 1

expire_total :
    (now timeout : ℕ) (q : List PoolEntry) (total : ℕ)
    → weigh unit_weight q ≤ total
    → let (q', total') = expire now timeout q total in
      total' + weigh unit_weight q ≡ total + weigh unit_weight q'
unfolding expire
expire_total now timeout [] total h = refl
expire_total now timeout (e ∷ q) total h = ground (arith, expire_total now timeout q (total - 1))

drained_weight : (q : List PoolEntry) → is_drained q ≡ true → weigh unit_weight q ≡ 0
unfolding is_drained
drained_weight [] h = refl
drained_weight (e ∷ q) h = cc

-- `cleanup` takes off the counter just what it takes out of the queues.
pub expire_all_total :
    (now timeout : ℕ) (ps : Pools) (total : ℕ)
    → weigh_all unit_weight ps ≤ total
    → let (ps', total') = expire_all now timeout ps total in
      total' + weigh_all unit_weight ps ≡ total + weigh_all unit_weight ps'
unfolding expire_all weigh_all
expire_all_total now timeout [] total h = refl
expire_all_total now timeout ((k, q) ∷ ps) total h =
    let r = expire now timeout q total in
    ground (
      arith,
      expire_total now timeout q total,
      drained_weight r.0,
      expire_all_total now timeout ps r.1,
    )
