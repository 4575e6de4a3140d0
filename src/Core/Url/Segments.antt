-- ===== src/Core/Url/Segments.antt =====
-- include/cppload/core/url_parse.hpp, `sanitize_path`: the loop over the segments of a path.
use cppload_workflow.Prelude.{
  ℕ, zero, suc, ◌<◌, ◌≡◌, refl, sym, ap, ◌∙◌, false, List, [], ◌∷◌, ◌++◌, arith, ◌==◌, ==_iff,
  if◌then◌else◌, length, length-append, All, All-append, Bytes, none, some, find, Bool-cases, inl,
  inr, take, drop, take-append, ◌⊎◌,
}
use mathlib.Core.Path.{subst}
use mathlib.Core.List.{append_assoc, append-nil}
use cppload_workflow.Core.Url.{is_dots, drop_dots}
use cppload_workflow.Core.Url.Find.{Absent, find-append_cons, find-Absent}

abbrev slash : ℕ
slash = b'/'

-- The segments of a path, between its slashes.
abbrev pub on_head : ℕ → List Bytes → List Bytes
on_head c [] = (c ∷ []) ∷ []
on_head c (s ∷ ss) = (c ∷ s) ∷ ss

unfoldable pub segments : Bytes → List Bytes
segments [] = [] ∷ []
segments (c ∷ s) = if c == b'/' then [] ∷ segments s else on_head c (segments s)

-- The text of the segments that are kept; the last one has no slash behind it.
pub emit : List Bytes → Bytes
emit [] = []
emit (seg ∷ []) = if is_dots seg then [] else seg
emit (seg ∷ more ∷ rest) =
    if is_dots seg then emit (more ∷ rest) else seg ++ (b'/' ∷ emit (more ∷ rest))

segments-Absent : (s : Bytes) → Absent slash s → segments s ≡ s ∷ []
unfolding segments
segments-Absent [] a = refl
segments-Absent (c ∷ s) (a, as') = rw (a, segments-Absent s as')

segments-append : (s r : Bytes) → Absent slash s → segments (s ++ (slash ∷ r)) ≡ s ∷ segments r
unfolding segments
segments-append [] r a = refl
segments-append (c ∷ s) r (a, as') = rw (a, segments-append s r as')

-- A text holds a slash, and splits there, or holds none.
pub slash_cases :
    (s : Bytes)
    → Absent slash s ⊎ ((h : Bytes) × (r : Bytes) × (s ≡ h ++ (slash ∷ r)) × Absent slash h)
slash_cases [] = inl tt
slash_cases (c ∷ s) = elim (Bool-cases (c == slash)) [
  | inl e ↦ inr ([], s, ap (λ x. x ∷ s) ((==_iff c slash).0 e), tt)
  | inr e ↦ elim (slash_cases s) [
    | inl a ↦ inl (e, a)
    | inr (h, r, p, a) ↦ inr (c ∷ h, r, ap (◌∷◌ c) p, (e, a))
  ]
]

pub segments-cons : (s : Bytes) → (h : Bytes) × (t : List Bytes) × (segments s ≡ h ∷ t)
segments-cons s = elim (slash_cases s) [
  | inl a ↦ (s, [], segments-Absent s a)
  | inr (h, r, p, a) ↦ (h, segments r, rw p (segments-append h r a))
]

emit-cons :
    (h : Bytes) (r : Bytes)
    → emit (h ∷ segments r)
      ≡ (if is_dots h then emit (segments r) else h ++ (slash ∷ emit (segments r)))
unfolding emit
emit-cons h r = let (x, t, p) = segments-cons r in rw (p, emit) refl

drop_after : (s r : Bytes) → drop (suc (length s)) (s ++ (slash ∷ r)) ≡ r
drop_after [] r = refl
drop_after (c ∷ s) r = drop_after s r

drop_dots_last :
    (fuel : ℕ) (rest out : Bytes)
    → find slash rest ≡ none
    → drop_dots (suc fuel) rest out ≡ some (if is_dots rest then out else out ++ rest)
unfolding drop_dots
drop_dots_last fuel rest out e = rw (e, drop_dots)

drop_dots_next :
    (fuel : ℕ) (rest out : Bytes) (i : ℕ)
    → find slash rest ≡ some i
    → drop_dots (suc fuel) rest out
      ≡ drop_dots fuel
          (drop (suc i) rest)
          (if is_dots (take i rest) then out else (out ++ take i rest) ++ (slash ∷ []))
unfolding drop_dots
drop_dots_next fuel rest out i e = rw (e, drop_dots)

emit_last : (s : Bytes) → emit (s ∷ []) ≡ (if is_dots s then [] else s)
unfolding emit
emit_last s = refl

drop_dots-slash :
    (fuel : ℕ) (s r out : Bytes)
    → Absent slash s
    → drop_dots (suc fuel) (s ++ (slash ∷ r)) out
      ≡ drop_dots fuel r (if is_dots s then out else (out ++ s) ++ (slash ∷ []))
drop_dots-slash fuel s r out a =
    drop_dots_next fuel (s ++ (slash ∷ r)) out (length s) (find-append_cons slash s r a)
    ∙ rw (drop_after s r, take-append s (slash ∷ r))

-- The loop writes the kept segments behind what it has written, if its rounds exceed the length.
pub drop_dots-emit :
    (fuel : ℕ) (rest out : Bytes)
    → length rest < fuel
    → drop_dots fuel rest out ≡ some (out ++ emit (segments rest))
drop_dots-emit zero rest out h = elim h [ ]
drop_dots-emit (suc fuel) rest out h = elim (slash_cases rest) [
  | inl a ↦
      drop_dots_last fuel rest out (find-Absent slash rest a)
      ∙ ap some (
          rw (segments-Absent rest a, emit_last rest)
            (elim (Bool-cases (is_dots rest)) [ inl d ↦ rw (d, append-nil) | inr d ↦ rw d ]))
  | inr (s, r, p, a) ↦
      let out' = if is_dots s then out else (out ++ s) ++ (slash ∷ []) in
      let shorter : length r < fuel = omega (arith, ap length p, length-append s (slash ∷ r)) in
      rw p (
        drop_dots-slash fuel s r out a
        ∙ drop_dots-emit fuel r out' shorter
        ∙ ap some (
            rw (segments-append s r a, emit-cons s r)
              (elim (Bool-cases (is_dots s)) [ inl d ↦ rw d | inr d ↦ rw d (simp append_assoc) ])))
]

abbrev pub IsKept : Bytes → Type 0
IsKept s = is_dots s ≡ false

abbrev pub SegmentsKept : Bytes → Type 0
SegmentsKept s = All IsKept (segments s)

-- Induction on the segments of a text.
by_segments_fuel {κ} :
    (P : Bytes → Type κ)
    → ((s : Bytes) → Absent slash s → P s)
    → ((t r : Bytes) → Absent slash t → P r → P (t ++ (slash ∷ r)))
    → (fuel : ℕ) (s : Bytes) → length s < fuel
    → P s
by_segments_fuel P last next zero s h = elim h [ ]
by_segments_fuel P last next (suc fuel) s h = elim (slash_cases s) [
  | inl a ↦ last s a
  | inr (t, r, p, a) ↦ subst P (sym p) (
      next t r a (
        by_segments_fuel P last next fuel r
          (omega (arith, ap length p, length-append t (slash ∷ r)))))
]

by_segments {κ} :
    (P : Bytes → Type κ)
    → ((s : Bytes) → Absent slash s → P s)
    → ((t r : Bytes) → Absent slash t → P r → P (t ++ (slash ∷ r)))
    → (s : Bytes) → P s
by_segments P last next s = by_segments_fuel P last next (suc (length s)) s (omega arith)

pub emit_kept : (s : Bytes) → SegmentsKept (emit (segments s))
unfolding is_dots segments
emit_kept =
    by_segments (λ s. SegmentsKept (emit (segments s)))
      (λ s a.
        rw (segments-Absent s a, emit_last s)
          (elim (Bool-cases (is_dots s)) [
            | inl d ↦ rw d (refl, tt)
            | inr d ↦ rw (d, segments-Absent s a) (d, tt)
          ]))
      (λ t r a ih.
        rw (segments-append t r a, emit-cons t r)
          (elim (Bool-cases (is_dots t)) [
            | inl d ↦ rw d ih
            | inr d ↦ rw (d, segments-append t (emit (segments r)) a) (d, ih)
          ]))

pub emit_same : (s : Bytes) → SegmentsKept s → emit (segments s) ≡ s
emit_same =
    by_segments (λ s. SegmentsKept s → emit (segments s) ≡ s)
      (λ s a k.
        let d = (rw (segments-Absent s a) at k).0 in rw (segments-Absent s a, emit_last s, d))
      (λ t r a ih k.
        let k' = rw (segments-append t r a) at k in
        rw (segments-append t r a, emit-cons t r, k'.0) (ap (λ x. t ++ (slash ∷ x)) (ih k'.1)))

module _ {κ} (P : ℕ → Type κ) where
  All-split : (t r : Bytes) → All P (t ++ (slash ∷ r)) → All P t × All P r
  All-split [] r (p, ps) = (tt, ps)
  All-split (c ∷ t) r (p, ps) = let rest = All-split t r ps in ((p, rest.0), rest.1)

  pub All-emit : P slash → (s : Bytes) → All P s → All P (emit (segments s))
  All-emit ps =
      by_segments (λ s. All P s → All P (emit (segments s)))
        (λ s a h.
          rw (segments-Absent s a, emit_last s)
            (elim (Bool-cases (is_dots s)) [ inl d ↦ rw d tt | inr d ↦ rw d h ]))
        (λ t r a ih h.
          let (ht, hr) = All-split t r h in
          rw (segments-append t r a, emit-cons t r)
            (elim (Bool-cases (is_dots t)) [
              | inl d ↦ rw d (ih hr)
              | inr d ↦ rw d (All-append P t (slash ∷ emit (segments r)) ht (ps, ih hr))
            ]))
