-- ===== src/Board/Distinct.antt =====
-- `COUNT(DISTINCT …)` over numbers, and that it grows with the set of the values.
use ats_smart_backend.Prelude.{
  ℕ, suc, ◌≤◌, ◌≡◌, refl, sym, ◌∙◌, Bool, true, false, List, [], ◌∷◌, map, arith, ◌==◌, ◌||◌, ◌&&◌,
  if◌then◌else◌, length, filter, any, Bool-cases, inl, inr,
}

unfoldable pub member : ℕ → List ℕ → Bool
member x [] = false
member x (y ∷ ys) = y == x || member x ys

unfoldable pub distinct : List ℕ → List ℕ
unfolding member
distinct [] = []
distinct (x ∷ xs) = let rest = distinct xs in if member x xs then rest else x ∷ rest

unfoldable pub count_distinct : List ℕ → ℕ
unfolding distinct
count_distinct xs = length (distinct xs)

-- Every value of the one is a value of the other.
abbrev pub Subset : List ℕ → List ℕ → Type 0
Subset xs ys = (x : ℕ) → member x xs ≡ true → member x ys ≡ true

without : ℕ → List ℕ → List ℕ
without x [] = []
without x (y ∷ ys) = let rest = without x ys in if y == x then rest else y ∷ rest

member-without :
    (x z : ℕ) (ys : List ℕ) → member z (without x ys) ≡ (if z == x then false else member z ys)
unfolding member without
member-without x z [] = ground arith
member-without x z (y ∷ ys) = ground (arith, member-without x z ys)

length-without-le : (x : ℕ) (ys : List ℕ) → length (without x ys) ≤ length ys
unfolding without
length-without-le x [] = omega arith
length-without-le x (y ∷ ys) = ground (arith, length-without-le x ys)

length-without-lt :
    (x : ℕ) (ys : List ℕ) → member x ys ≡ true → suc (length (without x ys)) ≤ length ys
unfolding member without
length-without-lt x [] h = cc
length-without-lt x (y ∷ ys) h = ground (arith, length-without-lt x ys, length-without-le x ys)

abbrev AllDistinct : List ℕ → Type 0
AllDistinct [] = Unit
AllDistinct (x ∷ xs) = (member x xs ≡ false) × AllDistinct xs

length-le_of_subset : (xs ys : List ℕ) → AllDistinct xs → Subset xs ys → length xs ≤ length ys
unfolding member
length-le_of_subset [] ys d s = omega arith
length-le_of_subset (x ∷ xs) ys d s =
    let smaller : length xs ≤ length (without x ys) =
      length-le_of_subset xs (without x ys) d.1
        (λ z m. ground (arith, member-without x z ys, s z, d.0)) in
    let found : member x ys ≡ true = s x (ground arith) in
    omega (arith, smaller, length-without-lt x ys found)

member-distinct : (z : ℕ) (xs : List ℕ) → member z (distinct xs) ≡ member z xs
unfolding member distinct
member-distinct z [] = refl
member-distinct z (x ∷ xs) = ground (arith, member-distinct z xs)

distinct-AllDistinct : (xs : List ℕ) → AllDistinct (distinct xs)
unfolding distinct
distinct-AllDistinct [] = tt
distinct-AllDistinct (x ∷ xs) = elim (Bool-cases (member x xs)) [
  | inl e ↦ rw e (distinct-AllDistinct xs)
  | inr e ↦ rw e (rw member-distinct e, distinct-AllDistinct xs)
]

pub count_distinct-le : (xs ys : List ℕ) → Subset xs ys → count_distinct xs ≤ count_distinct ys
unfolding count_distinct
count_distinct-le xs ys s =
    length-le_of_subset (distinct xs) (distinct ys) (distinct-AllDistinct xs)
      (λ z m. member-distinct z ys ∙ s z (sym (member-distinct z xs) ∙ m))

pub member-map-filter {ℓ} :
    {A : Type ℓ} (f : A → ℕ) (p : A → Bool) (x : ℕ) (l : List A)
    → member x (map f (filter p l)) ≡ any (λ a. f a == x && p a) l
unfolding member filter any
member-map-filter f p x [] = refl
member-map-filter f p x (a ∷ l) = ground (arith, member-map-filter f p x l)

pub any-filter {ℓ} :
    {A : Type ℓ} (p q : A → Bool) (l : List A) → any q (filter p l) ≡ any (λ a. p a && q a) l
unfolding filter any
any-filter p q [] = refl
any-filter p q (a ∷ l) = ground (arith, any-filter p q l)
