-- ===== src/Prelude/Sorting.antt =====
-- A stable sort by a Boolean comparison, and what it keeps.
use Prim.Native.Nat.{suc}
use mathlib.Core.Path.{◌≡◌, refl, ap, ◌∙◌}
use mathlib.Core.Logic.{inl, inr}
use mathlib.Core.Bool.{Bool, true, false, ◌||◌}
use mathlib.Core.List.{List, [], ◌∷◌}
use native.Mathlib.Omega.{arith}
use ats_smart_backend.Prelude.Tests.{if◌then◌else◌, Bool-cases}
use ats_smart_backend.Prelude.Lists.{length, All, All-imp, any}

module _ {A : Type 0} (le : A → A → Bool) where
  insert_by : A → List A → List A
  insert_by x [] = x ∷ []
  insert_by x (y ∷ ys) = let rest = insert_by x ys in if le x y then x ∷ y ∷ ys else y ∷ rest

  unfoldable pub sort_by : List A → List A
  unfolding insert_by
  sort_by [] = []
  sort_by (x ∷ xs) = insert_by x (sort_by xs)

  All-insert_by : (P : A → Type 0) (x : A) (l : List A) → P x → All P l → All P (insert_by x l)
  unfolding insert_by
  All-insert_by P x [] p h = (p, tt)
  All-insert_by P x (y ∷ l) p h = elim (Bool-cases (le x y)) [
    | inl first ↦ rw first (p, h)
    | inr later ↦ rw later (h.0, All-insert_by P x l p h.1)
  ]

  pub All-sort_by : (P : A → Type 0) (l : List A) → All P l → All P (sort_by l)
  unfolding sort_by
  All-sort_by P [] h = tt
  All-sort_by P (x ∷ l) h = All-insert_by P x (sort_by l) h.0 (All-sort_by P l h.1)

  length-insert_by : (x : A) (l : List A) → length (insert_by x l) ≡ suc (length l)
  unfolding insert_by
  length-insert_by x [] = refl
  length-insert_by x (y ∷ l) = ground (arith, length-insert_by x l)

  pub length-sort_by : (l : List A) → length (sort_by l) ≡ length l
  unfolding sort_by
  length-sort_by [] = refl
  length-sort_by (x ∷ l) = omega (arith, length-insert_by x (sort_by l), length-sort_by l)

  any-insert_by : (p : A → Bool) (x : A) (l : List A) → any p (insert_by x l) ≡ (p x || any p l)
  unfolding insert_by any
  any-insert_by p x [] = refl
  any-insert_by p x (y ∷ l) = elim (Bool-cases (le x y)) [
    | inl first ↦ rw first refl
    | inr later ↦ rw (later, any-insert_by p x l) (ground arith)
  ]

  pub any-sort_by : (p : A → Bool) (l : List A) → any p (sort_by l) ≡ any p l
  unfolding sort_by any
  any-sort_by p [] = refl
  any-sort_by p (x ∷ l) = any-insert_by p x (sort_by l) ∙ ap (λ b. p x || b) (any-sort_by p l)

  -- Every element is before all later ones.
  abbrev pub IsOrdered : List A → Type 0
  IsOrdered [] = Unit
  IsOrdered (x ∷ xs) = All (λ y. le x y ≡ true) xs × IsOrdered xs

  module _ (total : (x y : A) → le x y ≡ false → le y x ≡ true)
      (transitive : (x y z : A) → le x y ≡ true → le y z ≡ true → le x z ≡ true) where
    IsOrdered-insert_by : (x : A) (l : List A) → IsOrdered l → IsOrdered (insert_by x l)
    unfolding insert_by
    IsOrdered-insert_by x [] h = (tt, tt)
    IsOrdered-insert_by x (y ∷ l) h = elim (Bool-cases (le x y)) [
      | inl first ↦ rw first (
        (
          first,
          All-imp (λ z. le y z ≡ true) (λ z. le x z ≡ true) l (λ z. transitive x y z first) h.0,
        ),
        h,
      )
      | inr later ↦ rw later (
        All-insert_by (λ z. le y z ≡ true) x l (total x y later) h.0,
        IsOrdered-insert_by x l h.1,
      )
    ]

    pub IsOrdered-sort_by : (l : List A) → IsOrdered (sort_by l)
    unfolding sort_by
    IsOrdered-sort_by [] = tt
    IsOrdered-sort_by (x ∷ l) = IsOrdered-insert_by x (sort_by l) (IsOrdered-sort_by l)
