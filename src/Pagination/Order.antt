-- ===== src/Pagination/Order.antt =====
-- The order of the rows in a query of app/core/pagination.py, and its laws.
use ats_smart_backend.Prelude.{
  ℕ, ◌≡◌, ◌≢◌, ◌∙◌, ap, Bool, true, false, List, [], ◌∷◌, arith, All, ltb, ◌==◌, if◌then◌else◌,
  ◌&&◌, ◌||◌, Bool-cases, inl, inr,
}

-- The value of the sort column and the id
abbrev pub Key : Type 0
Key = ℕ × ℕ

-- (sort_column, id_column) < boundary, as SQL compares rows
unfoldable pub precedes : Key → Key → Bool
precedes (v, i) (w, j) = ltb v w || (v == w && ltb i j)

-- `a` comes before `b` in the order of `descending`.
unfoldable pub before : Bool → Key → Key → Bool
unfolding precedes
before true a b = precedes b a
before false a b = precedes a b

pub before_trans :
    (d : Bool) (a b c : Key) → before d a b ≡ true → before d b c ≡ true → before d a c ≡ true
unfolding before precedes
before_trans true a b c h k = ground arith
before_trans false a b c h k = ground arith

pub before_asym : (d : Bool) (a b : Key) → before d a b ≡ true → before d b a ≡ false
unfolding before precedes
before_asym true a b h = ground arith
before_asym false a b h = ground arith

pub before_irrefl : (d : Bool) (a : Key) → before d a a ≡ false
unfolding before precedes
before_irrefl true a = ground arith
before_irrefl false a = ground arith

same_value : (v w i j : ℕ) → precedes (v, i) (w, j) ≡ false → precedes (w, j) (v, i) ≡ false → v ≡ w
unfolding precedes
same_value v w i j h k = ground arith

same_id : (v w i j : ℕ) → precedes (v, i) (w, j) ≡ false → precedes (w, j) (v, i) ≡ false → i ≡ j
unfolding precedes
same_id v w i j h k = ground arith

precedes_total : (a b : Key) → precedes a b ≡ false → precedes b a ≡ false → a ≡ b
precedes_total (v, i) (w, j) h k =
    ap (λ t. (t, i)) (same_value v w i j h k) ∙ ap (λ t. (w, t)) (same_id v w i j h k)

before_total : (d : Bool) (a b : Key) → before d b a ≡ false → a ≢ b → before d a b ≡ true
unfolding before
before_total true a b h ne = elim (Bool-cases (precedes b a)) [
  | inl e ↦ e
  | inr e ↦ absurd (ne (precedes_total a b h e))
]
before_total false a b h ne = elim (Bool-cases (precedes a b)) [
  | inl e ↦ e
  | inr e ↦ absurd (ne (precedes_total a b e h))
]

module _ {A : Type 0} (key : A → Key) (d : Bool) where
  unfoldable pub insert : A → List A → List A
  insert x [] = x ∷ []
  insert x (y ∷ ys) =
      let rest = insert x ys in if before d (key y) (key x) then y ∷ rest else x ∷ y ∷ ys

  -- ORDER BY sort_column, id_column
  unfoldable pub order_by : List A → List A
  unfolding insert
  order_by [] = []
  order_by (x ∷ xs) = insert x (order_by xs)

  -- Every row comes before all that follow it.
  abbrev pub AllBefore : A → List A → Type 0
  AllBefore x = All (λ y. before d (key x) (key y) ≡ true)

  abbrev pub IsOrdered : List A → Type 0
  IsOrdered [] = Unit
  IsOrdered (x ∷ xs) = AllBefore x xs × IsOrdered xs

  -- No two rows have one key: the id is a primary key.
  abbrev pub Differs : A → A → Type 0
  Differs x y = key x ≢ key y

  abbrev pub HasUniqueKeys : List A → Type 0
  HasUniqueKeys [] = Unit
  HasUniqueKeys (x ∷ xs) = All (Differs x) xs × HasUniqueKeys xs

module _ {A : Type 0} (key : A → Key) (d : Bool) where
  AllBefore-trans :
      (x y : A) (l : List A)
      → before d (key x) (key y) ≡ true
      → AllBefore key d y l
      → AllBefore key d x l
  AllBefore-trans x y [] h k = tt
  AllBefore-trans x y (z ∷ l) h k =
      (before_trans d (key x) (key y) (key z) h k.0, AllBefore-trans x y l h k.1)

  AllBefore-insert :
      (z x : A) (l : List A)
      → before d (key z) (key x) ≡ true
      → AllBefore key d z l
      → AllBefore key d z (insert key d x l)
  unfolding insert
  AllBefore-insert z x [] h k = (h, tt)
  AllBefore-insert z x (y ∷ l) h k = elim (Bool-cases (before d (key y) (key x))) [
    | inl later ↦ rw later (k.0, AllBefore-insert z x l h k.1)
    | inr first ↦ rw first (h, k)
  ]

  insert-IsOrdered :
      (x : A) (l : List A)
      → All (Differs key d x) l
      → IsOrdered key d l
      → IsOrdered key d (insert key d x l)
  unfolding insert
  insert-IsOrdered x [] ne h = (tt, tt)
  insert-IsOrdered x (y ∷ l) ne h = elim (Bool-cases (before d (key y) (key x))) [
    | inl later ↦ rw later (AllBefore-insert y x l later h.0, insert-IsOrdered x l ne.1 h.1)
    | inr first ↦ rw first (
      (
        before_total d (key x) (key y) first ne.0,
        AllBefore-trans x y l (before_total d (key x) (key y) first ne.0) h.0,
      ),
      h,
    )
  ]

  All-Differs-insert :
      (z x : A) (l : List A)
      → Differs key d z x
      → All (Differs key d z) l
      → All (Differs key d z) (insert key d x l)
  unfolding insert
  All-Differs-insert z x [] h k = (h, tt)
  All-Differs-insert z x (y ∷ l) h k = elim (Bool-cases (before d (key y) (key x))) [
    | inl later ↦ rw later (k.0, All-Differs-insert z x l h k.1)
    | inr first ↦ rw first (h, k)
  ]

  All-Differs-order_by :
      (z : A) (l : List A) → All (Differs key d z) l → All (Differs key d z) (order_by key d l)
  unfolding order_by
  All-Differs-order_by z [] h = tt
  All-Differs-order_by z (x ∷ l) h =
      All-Differs-insert z x (order_by key d l) h.0 (All-Differs-order_by z l h.1)

  pub order_by-IsOrdered : (l : List A) → HasUniqueKeys key d l → IsOrdered key d (order_by key d l)
  unfolding order_by
  order_by-IsOrdered [] h = tt
  order_by-IsOrdered (x ∷ l) h =
      insert-IsOrdered x (order_by key d l) (All-Differs-order_by x l h.0)
        (order_by-IsOrdered l h.1)
