-- ===== src/Prelude/Dictionary.antt =====
-- `std::unordered_map` keyed by strings, as an association list: `find`, `operator[]`, `erase_if`.
use mathlib.Core.Path.{◌≡◌, refl, subst}
use mathlib.Core.Logic.{inl, inr}
use mathlib.Core.Bool.{Bool, false}
use mathlib.Core.Option.{Option, none, some, some-injective}
use mathlib.Core.List.{List, [], ◌∷◌}
use native.Mathlib.Omega.{arith}
use cppload_workflow.Prelude.Tests.{if◌then◌else◌, Bool-cases}
use cppload_workflow.Prelude.Text.{Bytes, eqb, eqb_iff, eqb_refl}

abbrev pub Dict {ℓ} : Type ℓ → Type ℓ
Dict V = List (Bytes × V)

module _ {ℓ} {V : Type ℓ} where
  unfoldable pub lookup : Bytes → Dict V → Option V
  lookup k [] = none
  lookup k ((j, v) ∷ m) = if eqb j k then some v else lookup k m

  unfoldable pub insert : Bytes → V → Dict V → Dict V
  insert k v [] = (k, v) ∷ []
  insert k v ((j, w) ∷ m) = if eqb j k then (j, v) ∷ m else (j, w) ∷ insert k v m

  -- `erase(it)` at a key.
  unfoldable pub remove : Bytes → Dict V → Dict V
  remove k [] = []
  remove k ((j, v) ∷ m) = if eqb j k then remove k m else (j, v) ∷ remove k m

  unfoldable pub erase_if : (V → Bool) → Dict V → Dict V
  erase_if p [] = []
  erase_if p ((j, v) ∷ m) = if p v then erase_if p m else (j, v) ∷ erase_if p m

  unfoldable pub values : Dict V → List V
  values [] = []
  values ((j, v) ∷ m) = v ∷ values m

  abbrev pub Every {κ} : (V → Type κ) → Dict V → Type κ
  Every P [] = Unit
  Every P ((j, v) ∷ m) = P v × Every P m

  pub lookup-insert :
      (j k : Bytes) (v : V) (m : Dict V)
      → lookup j (insert k v m) ≡ (if eqb k j then some v else lookup j m)
  unfolding lookup insert
  lookup-insert j k v [] = refl
  lookup-insert j k v ((i, w) ∷ m) =
      ground (arith, eqb_iff i k, eqb_iff i j, eqb_iff k j, lookup-insert j k v m)

  pub lookup-insert_same : (k : Bytes) (v : V) (m : Dict V) → lookup k (insert k v m) ≡ some v
  lookup-insert_same k v m = rw (lookup-insert k k v m, eqb_refl k) refl

  pub lookup-remove :
      (j k : Bytes) (m : Dict V) → lookup j (remove k m) ≡ (if eqb k j then none else lookup j m)
  unfolding lookup remove
  lookup-remove j k [] = ground arith
  lookup-remove j k ((i, w) ∷ m) =
      ground (arith, eqb_iff i k, eqb_iff i j, eqb_iff k j, lookup-remove j k m)

  -- An entry that the test spares stays where it is found.
  pub lookup-erase_if :
      (p : V → Bool) (k : Bytes) (m : Dict V) (v : V)
      → lookup k m ≡ some v
      → p v ≡ false
      → lookup k (erase_if p m) ≡ some v
  unfolding lookup erase_if
  lookup-erase_if p k [] v e h = ground arith
  lookup-erase_if p k ((i, w) ∷ m) v e h = ground (arith, lookup-erase_if p k m v)

  module _ {κ} (P : V → Type κ) where
    pub insert-Every : (k : Bytes) (v : V) (m : Dict V) → P v → Every P m → Every P (insert k v m)
    unfolding insert
    insert-Every k v [] p a = (p, tt)
    insert-Every k v ((i, w) ∷ m) p (b, bs) = elim (Bool-cases (eqb i k)) [
      | inl e ↦ rw e (p, bs)
      | inr e ↦ rw e (b, insert-Every k v m p bs)
    ]

    pub lookup-Every : (k : Bytes) (m : Dict V) (v : V) → Every P m → lookup k m ≡ some v → P v
    unfolding lookup
    lookup-Every k [] v a e = cc
    lookup-Every k ((i, w) ∷ m) v (b, bs) e = elim (Bool-cases (eqb i k)) [
      | inl t ↦ subst P (some-injective _ _ (rw t at e)) b
      | inr t ↦ lookup-Every k m v bs (rw t at e)
    ]

    pub Every-insert : (k : Bytes) (v : V) (m : Dict V) → Every P (insert k v m) → P v
    Every-insert k v m a = lookup-Every k (insert k v m) v a (lookup-insert_same k v m)

    -- What is left after `erase_if` fails the test, and keeps what held before.
    pub erase_if-Every :
        (p : V → Bool) (m : Dict V) → Every P m → Every (λ v. P v × (p v ≡ false)) (erase_if p m)
    unfolding erase_if
    erase_if-Every p [] a = tt
    erase_if-Every p ((i, w) ∷ m) (b, bs) = elim (Bool-cases (p w)) [
      | inl e ↦ rw e (erase_if-Every p m bs)
      | inr e ↦ rw e ((b, e), erase_if-Every p m bs)
    ]

    pub Every-mono {μ} :
        (Q : V → Type μ) → ((v : V) → P v → Q v) → (m : Dict V) → Every P m → Every Q m
    Every-mono Q f [] a = tt
    Every-mono Q f ((i, w) ∷ m) (b, bs) = (f w b, Every-mono Q f m bs)
