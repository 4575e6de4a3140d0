-- ===== src/Core/Url/Find.antt =====
-- Searching bytes: what `find`, `take` and `drop` give on a text that is put together.
use cppload_workflow.Prelude.{
  ℕ, ◌≡◌, refl, false, none, some, [], ◌∷◌, ◌++◌, ◌==◌, ==_refl, length, All, Bytes, find,
}

-- A byte that does not occur.
abbrev pub Absent : ℕ → Bytes → Type 0
Absent c = All λ x. (x == c) ≡ false

pub find-append_cons :
    (c : ℕ) (xs ys : Bytes) → Absent c xs → find c (xs ++ (c ∷ ys)) ≡ some (length xs)
unfolding find
find-append_cons c [] ys a = rw (==_refl c)
find-append_cons c (x ∷ xs) ys (a, as') = rw (a, find-append_cons c xs ys as')

pub find-Absent : (c : ℕ) (xs : Bytes) → Absent c xs → find c xs ≡ none
unfolding find
find-Absent c [] a = refl
find-Absent c (x ∷ xs) (a, as') = rw (a, find-Absent c xs as')
