-- ===== src/Pagination/Beyond.antt =====
-- The rows beyond a row of an ordered list, for the queries of app/core/pagination.py.
use ats_smart_backend.Prelude.{
  ℕ, zero, suc, ◌≤◌, ◌≡◌, refl, sym, ◌∙◌, ap, Bool, true, false, none, some, List, [], ◌∷◌, ◌++◌,
  arith, All, All-filter, ltb, if◌then◌else◌, filter, take, drop, length, Bool-cases, inl, inr,
}
use mathlib.Core.Bool.{false≢true}
use ats_smart_backend.Pagination.Order.{
  Key, before, before_asym, before_irrefl, before_trans, insert, order_by, AllBefore, IsOrdered,
  HasUniqueKeys, order_by-IsOrdered,
}
use ats_smart_backend.Pagination.{last}

module _ {A : Type 0} where
  pub take-drop : (n : ℕ) (l : List A) → take n l ++ drop n l ≡ l
  take-drop zero l = refl
  take-drop (suc n) [] = refl
  take-drop (suc n) (x ∷ l) = ap (λ t. x ∷ t) (take-drop n l)

  pub take-take : (n : ℕ) (l : List A) → take n (take (suc n) l) ≡ take n l
  take-take zero l = refl
  take-take (suc n) [] = refl
  take-take (suc n) (x ∷ l) = ap (λ t. x ∷ t) (take-take n l)

  pub ltb-length-take : (n : ℕ) (l : List A) → ltb n (length (take (suc n) l)) ≡ ltb n (length l)
  ltb-length-take zero [] = refl
  ltb-length-take zero (x ∷ l) = ground arith
  ltb-length-take (suc n) [] = refl
  ltb-length-take (suc n) (x ∷ l) = ground (arith, ltb-length-take n l)

  pub length-drop-le : (n : ℕ) (l : List A) → length (drop n l) ≤ length l
  length-drop-le zero l = omega arith
  length-drop-le (suc n) [] = omega arith
  length-drop-le (suc n) (x ∷ l) = omega (arith, length-drop-le n l)

  pub drop-all : (n : ℕ) (l : List A) → length l ≤ n → drop n l ≡ []
  drop-all zero [] h = refl
  drop-all zero (x ∷ l) h = absurd (omega arith)
  drop-all (suc n) [] h = refl
  drop-all (suc n) (x ∷ l) h = drop-all n l (omega arith)

  filter-All : (p : A → Bool) (l : List A) → All (λ x. p x ≡ true) l → filter p l ≡ l
  unfolding filter
  filter-All p [] h = refl
  filter-All p (x ∷ l) h = rw h.0 (ap (λ t. x ∷ t) (filter-All p l h.1))

  -- The last element of a list that is not empty, and what comes before it.
  abbrev pub final : A → List A → A
  final x [] = x
  final x (y ∷ l) = final y l

  abbrev pub initial : A → List A → List A
  initial x [] = []
  initial x (y ∷ l) = x ∷ initial y l

  pub last-cons : (x : A) (l : List A) → last (x ∷ l) ≡ some (final x l)
  unfolding last
  last-cons x [] = refl
  last-cons x (y ∷ l) = last-cons y l

  pub last-final :
      (x : A) (l : List A) → (elim (last l) as (λ _. A) [ none ↦ x | some y ↦ y ]) ≡ final x l
  unfolding last
  last-final x [] = refl
  last-final x (y ∷ l) = rw (last-cons y l) refl

  pub initial-final : (x : A) (l : List A) → initial x l ++ (final x l ∷ []) ≡ x ∷ l
  initial-final x [] = refl
  initial-final x (y ∷ l) = ap (λ t. x ∷ t) (initial-final y l)

module _ {A : Type 0} (key : A → Key) (d : Bool) where
  before_member :
      (pre post : List A) (x y : A)
      → AllBefore key d y (pre ++ x ∷ post)
      → before d (key y) (key x) ≡ true
  before_member [] post x y h = h.0
  before_member (z ∷ pre) post x y h = before_member pre post x y h.1

  -- In an ordered list, the rows beyond one of its rows are those that follow it.
  pub filter-beyond :
      (pre post : List A) (x : A)
      → IsOrdered key d (pre ++ x ∷ post)
      → filter (λ row. before d (key x) (key row)) (pre ++ x ∷ post) ≡ post
  unfolding filter
  filter-beyond [] post x h = rw (before_irrefl d (key x)) (filter-All _ post h.0)
  filter-beyond (y ∷ pre) post x h =
      rw (before_asym d (key y) (key x) (before_member pre post x y h.0))
        (filter-beyond pre post x h.1)

  -- A row that no row of a list precedes is put first.
  insert-first :
      (x : A) (l : List A)
      → All (λ y. before d (key y) (key x) ≡ false) l
      → insert key d x l ≡ x ∷ l
  unfolding insert
  insert-first x [] h = refl
  insert-first x (y ∷ l) h = rw h.0 refl

  not_before :
      (x y z : A)
      → before d (key y) (key x) ≡ false
      → before d (key y) (key z) ≡ true
      → before d (key z) (key x) ≡ false
  not_before x y z h k = elim (Bool-cases (before d (key z) (key x))) [
    | inl e ↦ absurd (false≢true (sym h ∙ before_trans d (key y) (key z) (key x) k e))
    | inr e ↦ e
  ]

  none_before :
      (x y : A) (l : List A)
      → before d (key y) (key x) ≡ false
      → AllBefore key d y l
      → All (λ z. before d (key z) (key x) ≡ false) l
  none_before x y [] h k = tt
  none_before x y (z ∷ l) h k = (not_before x y z h k.0, none_before x y l h k.1)

  filter-insert :
      (p : A → Bool) (x : A) (l : List A)
      → IsOrdered key d l
      → filter p (insert key d x l) ≡ (if p x then insert key d x (filter p l) else filter p l)
  unfolding filter insert
  filter-insert p x [] h = refl
  filter-insert p x (y ∷ l) h = elim (Bool-cases (before d (key y) (key x))) [
    | inl later ↦ rw later (elim (Bool-cases (p y)) [
      | inl fine ↦
          rw (fine, filter-insert p x l h.1)
            (elim (Bool-cases (p x)) [
              | inl taken ↦ rw (taken, later) refl
              | inr gone ↦ rw gone refl
            ])
      | inr gone ↦ rw (gone, filter-insert p x l h.1) refl
    ])
    | inr first ↦ rw first (elim (Bool-cases (p x)) [
      | inl kept ↦ rw kept (
          sym (
            insert-first x (filter p (y ∷ l))
              (All-filter _ p (y ∷ l) (first, none_before x y l first h.0))))
      | inr gone ↦ rw gone refl
    ])
  ]

  pub filter-order_by :
      (p : A → Bool) (l : List A)
      → HasUniqueKeys key d l
      → order_by key d (filter p l) ≡ filter p (order_by key d l)
  unfolding filter order_by
  filter-order_by p [] h = refl
  filter-order_by p (x ∷ l) h = elim (Bool-cases (p x)) [
    | inl kept ↦
        rw (kept, filter-order_by p l h.1)
          (sym (
            filter-insert p x (order_by key d l) (order_by-IsOrdered key d l h.1)
            ∙ ap
                (λ b.
                  if b
                  then insert key d x (filter p (order_by key d l))
                  else filter p (order_by key d l))
                kept))
    | inr gone ↦
        rw (gone, filter-order_by p l h.1)
          (sym (
            filter-insert p x (order_by key d l) (order_by-IsOrdered key d l h.1)
            ∙ ap
                (λ b.
                  if b
                  then insert key d x (filter p (order_by key d l))
                  else filter p (order_by key d l))
                gone))
  ]
