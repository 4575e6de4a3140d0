-- ===== src/Core/Url/Sanitize.antt =====
-- include/cppload/core/url_parse.hpp, `sanitize_path`: the bytes and the segments of its result.
use cppload_workflow.Prelude.{
  ℕ, suc, ◌≡◌, refl, ap, ◌∙◌, true, false, List, [], ◌∷◌, arith, ◌==◌, length, All, Bytes, none,
  some, find, Bool-cases, Option-cases, inl, inr,
}
use cppload_workflow.Core.Url.{
  is_path_byte, keep_path_bytes, is_dots, drop_dots, drop_dot_segments, sanitize_path,
}
use cppload_workflow.Core.Url.Find.{Absent}
use cppload_workflow.Core.Url.Segments.{
  segments, segments-cons, emit, drop_dots-emit, emit_kept, emit_same, All-emit, SegmentsKept,
  IsKept,
}

abbrev pub IsPathByte : ℕ → Type 0
IsPathByte c = is_path_byte c ≡ true

keep_path_bytes-All : (s : Bytes) → All IsPathByte (keep_path_bytes s)
unfolding keep_path_bytes
keep_path_bytes-All [] = tt
keep_path_bytes-All (c ∷ s) = elim (Bool-cases (is_path_byte c)) [
  | inl e ↦ rw e (e, keep_path_bytes-All s)
  | inr e ↦ rw e (keep_path_bytes-All s)
]

keep_path_bytes_same : (s : Bytes) → All IsPathByte s → keep_path_bytes s ≡ s
unfolding keep_path_bytes
keep_path_bytes_same [] a = refl
keep_path_bytes_same (c ∷ s) (a, as') = rw (a, keep_path_bytes_same s as')

no_dot : (s : Bytes) → find b'.' s ≡ none → Absent b'.' s
unfolding find
no_dot [] e = tt
no_dot (c ∷ s) e = elim (Bool-cases (c == b'.')) [
  | inl p ↦ ground arith
  | inr p ↦ (p, no_dot s (ground arith))
]

no_dot_kept : (s : Bytes) → Absent b'.' s → is_dots s ≡ false
unfolding is_dots
no_dot_kept [] a = refl
no_dot_kept (c ∷ s) (a, as') = ground arith

Absent-segments : (c : ℕ) (s : Bytes) → Absent c s → All (Absent c) (segments s)
unfolding segments
Absent-segments c [] a = (tt, tt)
Absent-segments c (x ∷ s) (a, as') =
    let (h, t, p) = segments-cons s in
    let rest = Absent-segments c s as' in
    elim (Bool-cases (x == b'/')) [
      | inl e ↦ rw e (tt, rest)
      | inr e ↦ let rest' = rw p at rest in rw (e, p) ((a, rest'.0), rest'.1)
    ]

All-map : (ss : List Bytes) → All (Absent b'.') ss → All IsKept ss
All-map [] a = tt
All-map (s ∷ ss) (a, as') = (no_dot_kept s a, All-map ss as')

-- Bytes that are not kept make no difference.
sanitize_path_kept : (path : Bytes) → sanitize_path path ≡ sanitize_path (keep_path_bytes path)
unfolding sanitize_path
sanitize_path_kept path =
    rw (keep_path_bytes_same (keep_path_bytes path) (keep_path_bytes-All path))

drop_none : (r : Bytes) → find b'.' r ≡ none → drop_dot_segments r ≡ some r
unfolding drop_dot_segments
drop_none r e = rw (e, drop_dot_segments)

drop_some :
    (r : Bytes) (i : ℕ)
    → find b'.' r ≡ some i
    → drop_dot_segments r ≡ drop_dots (suc (length r)) r []
unfolding drop_dot_segments
drop_some r i e = rw (e, drop_dot_segments)

-- What becomes of the bytes that are kept.
cleaned :
    (r : Bytes)
    → All IsPathByte r
    → (q : Bytes) × (drop_dot_segments r ≡ some q)
      × SegmentsKept q
      × All IsPathByte q
      × (SegmentsKept r → q ≡ r)
cleaned r a = elim (Option-cases (find b'.' r)) [
  | inl e ↦
      (r, drop_none r e, All-map (segments r) (Absent-segments b'.' r (no_dot r e)), a, λ _. refl)
  | inr (i, e) ↦ (
    emit (segments r),
    drop_some r i e ∙ drop_dots-emit (suc (length r)) r [] (omega arith),
    emit_kept r,
    All-emit IsPathByte refl r a,
    emit_same r,
  )
]

-- `sanitize_path` returns for every path: no segment of its result is `.` or `..`, every byte of it is
-- one of those that it keeps, and to sanitize it again changes nothing.
pub sanitize_path_safe :
    (path : Bytes)
    → (q : Bytes) × (sanitize_path path ≡ some q)
      × All (λ seg. is_dots seg ≡ false) (segments q)
      × All IsPathByte q
      × (sanitize_path q ≡ some q)
unfolding sanitize_path
sanitize_path_safe path =
    let (q, e, kept, safe, _) = cleaned (keep_path_bytes path) (keep_path_bytes-All path) in
    let (q', e', _, _, same) = cleaned q safe in
    (
      q,
      e,
      kept,
      safe,
      ap drop_dot_segments (keep_path_bytes_same q safe) ∙ e' ∙ ap some (same kept),
    )
