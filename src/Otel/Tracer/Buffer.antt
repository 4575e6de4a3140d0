-- ===== src/Otel/Tracer/Buffer.antt =====
-- core/otel/otlp_exporter.cpp: the buffer of spans, and what becomes of it when the tracer stops.
use cppload_workflow.Prelude.{
  ℕ, zero, suc, ◌+◌, ◌-◌, ◌≤◌, ◌<◌, ◌≡◌, refl, sym, ap, ◌∙◌, inl, inr, Bool, true, false, ◌&&◌,
  some, List, [], ◌∷◌, ◌++◌, arith, ltb, if◌then◌else◌, length, length-append, take, drop, min,
  is_empty, All, Bytes, ok, err, Bool-cases, Result-cases,
}
use mathlib.Core.List.{append_assoc, append-nil}
use cppload_workflow.Prelude.Json.{Json}
use cppload_workflow.Net.Network.{Network}
use cppload_workflow.Otel.Tracer.{
  SpanData, Tracer, batch_size, max_buffered, bounded, enqueue, take_batch, do_post_json, do_export,
  export_loop, next_backoff, open_connection, post_body, otlp_message, payload,
}

module _ {A : Type 0} where
  length-drop : (n : ℕ) (xs : List A) → length (drop n xs) ≡ length xs - n
  length-drop zero xs = omega arith
  length-drop (suc n) [] = omega arith
  length-drop (suc n) (x ∷ xs) = omega (arith, length-drop n xs)

  length-take : (n : ℕ) (xs : List A) → length (take n xs) ≤ n
  length-take zero xs = omega arith
  length-take (suc n) [] = omega arith
  length-take (suc n) (x ∷ xs) = omega (arith, length-take n xs)

  take-drop : (n : ℕ) (xs : List A) → take n xs ++ drop n xs ≡ xs
  take-drop zero xs = refl
  take-drop (suc n) [] = refl
  take-drop (suc n) (x ∷ xs) = ap (◌∷◌ x) (take-drop n xs)

  drop-drop : (m n : ℕ) (xs : List A) → drop m (drop n xs) ≡ drop (n + m) xs
  drop-drop m zero xs = ap (λ k. drop k xs) (omega arith)
  drop-drop m (suc n) [] = drop_nil m ∙ sym (drop_nil (suc n + m))
    where
      drop_nil : (k : ℕ) → drop {A = A} k [] ≡ []
      drop_nil zero = refl
      drop_nil (suc k) = refl
  drop-drop m (suc n) (x ∷ xs) =
      let e : suc n + m ≡ suc (n + m) = omega arith in rw e (drop-drop m n xs)

  drop-append : (n : ℕ) (xs ys : List A) → n ≤ length xs → drop n (xs ++ ys) ≡ drop n xs ++ ys
  drop-append zero xs ys h = refl
  drop-append (suc n) [] ys h = elim h [ ]
  drop-append (suc n) (x ∷ xs) ys h = drop-append n xs ys (omega (arith, h))

  unfoldable pub concat : List (List A) → List A
  concat [] = []
  concat (xs ∷ xss) = xs ++ concat xss

-- The last spans of a list, as many as the buffer holds.
unfoldable pub newest : List SpanData → List SpanData
newest spans = drop (length spans - max_buffered) spans

empty-nil : {A : Type 0} (xs : List A) → is_empty xs ≡ true → xs ≡ []
empty-nil [] e = refl
empty-nil (x ∷ xs) e = cc

nonempty-length : {A : Type 0} (xs : List A) → is_empty xs ≡ false → 0 < length xs
nonempty-length [] e = cc
nonempty-length (x ∷ xs) e = omega arith

both : (a b : Bool) → a ≡ true → b ≡ true → (a && b) ≡ true
both true b e e' = e'
both false b e e' = e

second_fails : (a b : Bool) → b ≡ false → (a && b) ≡ false
second_fails true b e = e
second_fails false b e = refl

bounded-newest :
    (spans : List SpanData) (span : SpanData) → bounded spans span ≡ newest (spans ++ (span ∷ []))
unfolding bounded newest
bounded-newest spans span =
    let spans' = spans ++ (span ∷ []) in
    elim (Bool-cases (ltb max_buffered (length spans'))) [
      | inl e ↦ rw e refl
      | inr e ↦
          let none_over : length spans' - max_buffered ≡ 0 = ground arith in rw (e, none_over) refl
    ]

newest-append : (xs ys : List SpanData) → newest (newest xs ++ ys) ≡ newest (xs ++ ys)
unfolding newest
newest-append xs ys =
    let d = length xs - max_buffered in
    let zs = xs ++ ys in
    let len = length-append xs ys in
    let joined : drop d xs ++ ys ≡ drop d zs = sym (drop-append d xs ys (omega arith)) in
    ap (λ l. drop (length l - max_buffered) l) joined
    ∙ drop-drop (length (drop d zs) - max_buffered) d zs
    ∙ ap (λ n. drop n zs) (omega (arith, len, length-drop d zs))

newest-length :
    (spans : List SpanData) (span : SpanData) → length (bounded spans span) ≤ max_buffered
unfolding newest
newest-length spans span =
    let spans' = spans ++ (span ∷ []) in
    rw (bounded-newest spans span)
      (omega (arith, length-drop (length spans' - max_buffered) spans'))

module _ {F : Type 0} where
  abbrev pub enqueue_all : Tracer F → List SpanData → Tracer F
  enqueue_all t [] = t
  enqueue_all t (span ∷ spans) = enqueue_all (enqueue t span) spans

  -- A tracer whose buffer is within its bound keeps, of what it held and of the spans that are then added one
  -- by one, the 4096 that were added last, in their order, and all of them where there are no more.
  pub enqueue_all-newest :
      (t : Tracer F) (spans : List SpanData)
      → length t.completed_spans ≤ max_buffered
      → (enqueue_all t spans).completed_spans ≡ newest (t.completed_spans ++ spans)
  unfolding enqueue newest
  enqueue_all-newest t [] h =
      let none_over : length t.completed_spans - max_buffered ≡ 0 = omega (arith, h) in
      rw (append-nil, none_over) refl
  enqueue_all-newest t (span ∷ spans) h =
      let added = t.completed_spans ++ (span ∷ []) in
      let kept = bounded-newest t.completed_spans span in
      enqueue_all-newest (enqueue t span) spans (newest-length t.completed_spans span)
      ∙ ap (λ l. newest (l ++ spans)) kept
      ∙ newest-append added spans
      ∙ ap newest (append_assoc t.completed_spans (span ∷ []) spans)

-- The batches are the spans of the buffer in their order, none larger than a batch may be, and none is left.
abbrev pub IsDrained : {F : Type 0} → List SpanData → List (List SpanData) × Tracer F → Type 0
IsDrained spans (batches, t') =
    (concat batches ≡ spans)
    × All (λ batch. length batch ≤ batch_size) batches
    × (t'.completed_spans ≡ [])

module _ {W S J : Type 0} (N : Network W S) (L : Json J)
    (dump_total : (j : J) → (s : Bytes) × (L.dump j ≡ ok s)) where
  do_post_json-ok :
      (host port target : Bytes) (body : J) (w : W)
      → (b : Bool) × ((do_post_json N L host port target body w).0 ≡ ok b)
  unfolding do_post_json
  do_post_json-ok host port target body w =
      let (r, w1) = open_connection N L host port w in
      elim (Result-cases r) [
        | inl (e, p) ↦ (false, rw (p, do_post_json) refl)
        | inr (s, p) ↦
            let (text, q) = dump_total body in
            let req = otlp_message host target text in
            let sent : Bool = elim (post_body N L req s w1).0 [ ok _ ↦ true | err e ↦ false ] in
            (sent, rw (p, do_post_json, q) refl)
      ]

  do_export-ok :
      {F : Type 0} (t : Tracer F) (spans : List SpanData) (w : W)
      → (b : Bool) × ((do_export N L t spans w).0 ≡ ok b)
  unfolding do_export
  do_export-ok t [] w = (true, refl)
  do_export-ok t (span ∷ spans) w = elim (Bool-cases (is_empty t.endpoint_host)) [
    | inl e ↦ (true, rw e refl)
    | inr e ↦
        let (b, p) =
          do_post_json-ok t.endpoint_host t.endpoint_port t.endpoint_target
            (payload L t.config (span ∷ spans)) w in
        (b, rw e p)
  ]

  loop-IsDrained :
      {F : Type 0} (fuel : ℕ) (t : Tracer F) (backoff : ℕ) (w : W)
      → t.stop ≡ true
      → length t.completed_spans < fuel
      → (r : List (List SpanData) × Tracer F) × (w' : W) × (export_loop N L fuel t backoff w
          ≡ some (ok r, w'))
        × IsDrained t.completed_spans r
  unfolding export_loop take_batch concat
  loop-IsDrained zero t backoff w s h = elim h [ ]
  loop-IsDrained (suc fuel) t backoff w s h = elim (Bool-cases (is_empty t.completed_spans)) [
    | inl e ↦
        let nil = empty-nil t.completed_spans e in
        let over : (t.stop && is_empty t.completed_spans) ≡ true = both t.stop _ s e in
        (([], t), w, rw (over, export_loop) refl, (sym nil, tt, nil))
    | inr e ↦
        let go_on : (t.stop && is_empty t.completed_spans) ≡ false = second_fails t.stop _ e in
        let (batch, t') = take_batch t in
        let n = min batch_size (length t.completed_spans) in
        let (sent, p) = do_export-ok t' batch w in
        let backoff' = if is_empty t.endpoint_host then backoff else next_backoff sent backoff in
        let shorter : length t'.completed_spans < fuel =
          omega (arith, h, nonempty-length t.completed_spans e, length-drop n t.completed_spans) in
        let ((batches, t''), w'', q, (c, sizes, nil)) =
          loop-IsDrained fuel t' backoff' (do_export N L t' batch w).1 s shorter in
        (
          (batch ∷ batches, t''),
          w'',
          rw (go_on, p, q, export_loop) refl,
          (
            ap (λ l. batch ++ l) c ∙ take-drop n t.completed_spans,
            (omega (arith, length-take n t.completed_spans), sizes),
            nil,
          ),
        )
  ]

  -- Where the JSON library dumps every body, a tracer that is told to stop leaves its loop after one round more
  -- than it holds spans at most, whatever the network does: it has taken every span of the buffer once, in
  -- order, in batches of 64 at most, and its buffer is empty.
  pub export_loop_drains :
      {F : Type 0} (t : Tracer F) (backoff : ℕ) (w : W)
      → t.stop ≡ true
      → (r : List (List SpanData) × Tracer F) × (w' : W) × (export_loop N L
            (suc (length t.completed_spans))
            t
            backoff
            w
          ≡ some (ok r, w'))
        × IsDrained t.completed_spans r
  export_loop_drains t backoff w s =
      loop-IsDrained (suc (length t.completed_spans)) t backoff w s (omega arith)
