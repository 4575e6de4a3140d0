-- ===== src/Platform/Repository/Listing.antt =====
-- core/platform/in_memory_repo.cpp: the `list_` members and `std::sort`.
use cppload_workflow.Prelude.{
  ℕ, ◌≤◌, inl, inr, List, [], ◌∷◌, arith, Bool-cases, Bytes, eqb, values, All, ltb,
}
use mathlib.Core.List.{Perm}
use mathlib.Core.List.Perm
use cppload_workflow.Platform.Repository.{
  Repo, list_scenarios, list_runs, sort_desc, sort_insert, select,
}

-- The newest entries come first.
abbrev pub IsNewestFirst {ℓ} : {A : Type ℓ} → (A → ℕ) → List A → Type 0
IsNewestFirst key [] = Unit
IsNewestFirst key (a ∷ l) = All (λ b. key b ≤ key a) l × IsNewestFirst key l

module _ {ℓ} {A : Type ℓ} (key : A → ℕ) where
  sort_insert-perm : (a : A) (l : List A) → Perm (sort_insert key a l) (a ∷ l)
  unfolding sort_insert
  sort_insert-perm a [] = Perm.refl _
  sort_insert-perm a (b ∷ l) = elim (Bool-cases (ltb (key b) (key a))) [
    | inl e ↦ rw e (Perm.refl _)
    | inr e ↦ rw e (Perm.trans (Perm.cons b (sort_insert-perm a l)) (Perm.swap a b l))
  ]

  sort_desc-perm : (l : List A) → Perm (sort_desc key l) l
  unfolding sort_desc
  sort_desc-perm [] = Perm.refl _
  sort_desc-perm (a ∷ l) =
      Perm.trans (sort_insert-perm a (sort_desc key l)) (Perm.cons a (sort_desc-perm l))

  sort_insert-All :
      (n : ℕ) (a : A) (l : List A)
      → key a ≤ n
      → All (λ b. key b ≤ n) l
      → All (λ b. key b ≤ n) (sort_insert key a l)
  unfolding sort_insert
  sort_insert-All n a [] h t = (h, tt)
  sort_insert-All n a (b ∷ l) h (t, ts) = elim (Bool-cases (ltb (key b) (key a))) [
    | inl e ↦ rw e (h, (t, ts))
    | inr e ↦ rw e (t, sort_insert-All n a l h ts)
  ]

  All-le : (m n : ℕ) (l : List A) → m ≤ n → All (λ b. key b ≤ m) l → All (λ b. key b ≤ n) l
  All-le m n [] h t = tt
  All-le m n (b ∷ l) h (t, ts) = (omega arith, All-le m n l h ts)

  sort_insert-IsNewestFirst :
      (a : A) (l : List A) → IsNewestFirst key l → IsNewestFirst key (sort_insert key a l)
  unfolding sort_insert
  sort_insert-IsNewestFirst a [] s = (tt, tt)
  sort_insert-IsNewestFirst a (b ∷ l) (h, s) = elim (Bool-cases (ltb (key b) (key a))) [
    | inl e ↦
        let le : key b ≤ key a = ground arith in rw e ((le, All-le (key b) (key a) l le h), (h, s))
    | inr e ↦ rw e (sort_insert-All (key b) a l (ground arith) h, sort_insert-IsNewestFirst a l s)
  ]

  sort_desc-IsNewestFirst : (l : List A) → IsNewestFirst key (sort_desc key l)
  unfolding sort_desc
  sort_desc-IsNewestFirst [] = tt
  sort_desc-IsNewestFirst (a ∷ l) =
      sort_insert-IsNewestFirst a (sort_desc key l) (sort_desc-IsNewestFirst l)

module _ {F : Type 0} where
  -- The lists of scenarios and of runs hold the entries of the project, each as often as the repository
  -- does, the newest first.
  pub list-perm :
      (r : Repo F) (id : Bytes)
      → Perm (list_scenarios r id) (select (λ s. eqb s.project_id id) (values r.scenarios))
        × IsNewestFirst (λ s. s.created_at) (list_scenarios r id)
        × Perm (list_runs r id) (select (λ u. eqb u.project_id id) (values r.runs))
        × IsNewestFirst (λ u. u.started_at) (list_runs r id)
  unfolding list_scenarios list_runs
  list-perm r id = (
    sort_desc-perm _ _,
    sort_desc-IsNewestFirst _ _,
    sort_desc-perm _ _,
    sort_desc-IsNewestFirst _ _,
  )
