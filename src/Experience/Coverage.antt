-- ===== src/Experience/Coverage.antt =====
-- The net years are the number of years that some interval covers.
use ats_smart_backend.Prelude.{
  ℕ, zero, suc, ◌+◌, ◌-◌, ◌<◌, ◌≤◌, ◌≡◌, refl, sym, ◌∙◌, ap, Bool, false, List, [], ◌∷◌, arith, All,
  leb, ltb, max, if◌then◌else◌, ◌&&◌, ◌||◌, Bool-cases, inl, inr, leb-false→lt, leb→le,
}
use ats_smart_backend.Experience.Intervals.{
  insert, sort_by_start, sum_merged, from_first, merge_intervals_and_sum_years,
}

-- An interval holds the years from its start up to, and without, its end.
abbrev pub holds : ℕ × ℕ → ℕ → Bool
holds (a, b) y = leb a y && ltb y b

unfoldable pub covered : List (ℕ × ℕ) → ℕ → Bool
covered [] y = false
covered (x ∷ xs) y = holds x y || covered xs y

-- How many of the years 0, …, n - 1 pass a test.
unfoldable pub count_below : ℕ → (ℕ → Bool) → ℕ
count_below zero p = 0
count_below (suc n) p = let rest = count_below n p in if p n then suc rest else rest

abbrev pub IsInterval : ℕ → ℕ × ℕ → Type 0
IsInterval n (a, b) = (a ≤ b) × (b ≤ n)

pub count_below-ext :
    (n : ℕ) (p q : ℕ → Bool) → ((y : ℕ) → p y ≡ q y) → count_below n p ≡ count_below n q
unfolding count_below
count_below-ext zero p q h = refl
count_below-ext (suc n) p q h = rw (h n, count_below-ext n p q h)

-- Two tests that no year passes both.
pub count_below-or :
    (n : ℕ) (p q : ℕ → Bool)
    → ((y : ℕ) → p y && q y ≡ false)
    → count_below n (λ y. p y || q y) ≡ count_below n p + count_below n q
unfolding count_below
count_below-or zero p q h = omega arith
count_below-or (suc n) p q h = ground (arith, h n, count_below-or n p q h)

pub count_below-none : (n : ℕ) → count_below n (λ y. false) ≡ 0
unfolding count_below
count_below-none zero = refl
count_below-none (suc n) = count_below-none n

-- the length of an interval, cut at n
count_below-holds :
    (n a b : ℕ) → count_below n (λ y. leb a y && ltb y b) ≡ (if leb n b then n - a else b - a)
unfolding count_below
count_below-holds zero a b = ground arith
count_below-holds (suc n) a b = ground (arith, count_below-holds n a b)

abbrev StartsFrom : ℕ → List (ℕ × ℕ) → Type 0
StartsFrom a = All (λ x. a ≤ x.0)

covered_later : (a y : ℕ) (l : List (ℕ × ℕ)) → StartsFrom a l → y < a → covered l y ≡ false
unfolding covered
covered_later a y [] h k = refl
covered_later a y (x ∷ l) h k = ground (arith, covered_later a y l h.1 k)

StartsFrom-le : (a b : ℕ) (l : List (ℕ × ℕ)) → a ≤ b → StartsFrom b l → StartsFrom a l
StartsFrom-le a b [] k h = tt
StartsFrom-le a b (x ∷ l) k h = (omega arith, StartsFrom-le a b l k h.1)

abbrev IsSorted : List (ℕ × ℕ) → Type 0
IsSorted [] = Unit
IsSorted (x ∷ xs) = StartsFrom x.0 xs × IsSorted xs

-- A list that starts from the end of an interval, or later, shares no year with it.
disjoint :
    (a b y s e : ℕ) (l : List (ℕ × ℕ))
    → b < s
    → StartsFrom s l
    → holds (a, b) y && covered ((s, e) ∷ l) y ≡ false
unfolding covered
disjoint a b y s e l k from = elim (Bool-cases (ltb y b)) [
  | inl in_time ↦ ground (arith, covered_later s y l from (ground arith))
  | inr late ↦ ground arith
]

module _ (n : ℕ) where
  pub count_below-interval : (a b : ℕ) → a ≤ b → b ≤ n → count_below n (holds (a, b)) ≡ b - a
  count_below-interval a b ab bn = ground (arith, count_below-holds n a b)

  count_below-apart :
      (a b s e : ℕ) (l : List (ℕ × ℕ)) {total : ℕ}
      → a ≤ b
      → b ≤ n
      → b < s
      → StartsFrom s l
      → total ≡ count_below n (covered ((s, e) ∷ l))
      → b - a + total ≡ count_below n (covered ((a, b) ∷ (s, e) ∷ l))
  unfolding covered
  count_below-apart a b s e l {total} ab bn bs from h = omega (
    arith,
    h,
    count_below-interval a b ab bn,
    count_below-or n (holds (a, b)) (covered ((s, e) ∷ l)) (λ y. disjoint a b y s e l bs from),
  )

  sum_merged-covered :
      (a b : ℕ) (l : List (ℕ × ℕ))
      → a ≤ b
      → b ≤ n
      → StartsFrom a l
      → IsSorted l
      → All (IsInterval n) l
      → sum_merged a b l ≡ count_below n (covered ((a, b) ∷ l))
  unfolding sum_merged covered
  sum_merged-covered a b [] ab bn from sorted fit =
      sym (count_below-ext n _ _ (λ y. ground arith) ∙ count_below-interval a b ab bn)
  sum_merged-covered a b ((s, e) ∷ l) ab bn from sorted fit = elim (Bool-cases (leb s b)) [
    | inl touch ↦ rw touch (
        sum_merged-covered a (max b e) l (omega arith) (omega (arith, fit.0)) from.1 sorted.1 fit.1
        ∙ count_below-ext n _ _ (λ y. ground (arith, fit.0)))
    | inr apart ↦ rw apart (
        count_below-apart a b s e l ab bn (leb-false→lt s b apart) sorted.0
          (sum_merged-covered s e l fit.0.0 fit.0.1 sorted.0 sorted.1 fit.1))
  ]

-- Sorting keeps the years covered and orders the starts.
covered-insert : (x : ℕ × ℕ) (l : List (ℕ × ℕ)) (y : ℕ) → covered (insert x l) y ≡ covered (x ∷ l) y
unfolding insert covered
covered-insert x [] y = refl
covered-insert x (z ∷ l) y = ground (arith, covered-insert x l y)

StartsFrom-insert :
    (a : ℕ) (x : ℕ × ℕ) (l : List (ℕ × ℕ)) → a ≤ x.0 → StartsFrom a l → StartsFrom a (insert x l)
unfolding insert
StartsFrom-insert a x [] k h = (k, tt)
StartsFrom-insert a x (z ∷ l) k h = elim (Bool-cases (leb x.0 z.0)) [
  | inl first ↦ rw first (k, h)
  | inr later ↦ rw later (h.0, StartsFrom-insert a x l k h.1)
]

insert-IsSorted : (x : ℕ × ℕ) (l : List (ℕ × ℕ)) → IsSorted l → IsSorted (insert x l)
unfolding insert
insert-IsSorted x [] h = (tt, tt)
insert-IsSorted x (z ∷ l) h = elim (Bool-cases (leb x.0 z.0)) [
  | inl first ↦
      rw first ((leb→le x.0 z.0 first, StartsFrom-le x.0 z.0 l (leb→le x.0 z.0 first) h.0), h)
  | inr later ↦ rw later (
    StartsFrom-insert z.0 x l (omega (arith, leb-false→lt x.0 z.0 later)) h.0,
    insert-IsSorted x l h.1,
  )
]

All-insert :
    (P : ℕ × ℕ → Type 0) (x : ℕ × ℕ) (l : List (ℕ × ℕ)) → P x → All P l → All P (insert x l)
unfolding insert
All-insert P x [] p h = (p, tt)
All-insert P x (z ∷ l) p h = elim (Bool-cases (leb x.0 z.0)) [
  | inl first ↦ rw first (p, h)
  | inr later ↦ rw later (h.0, All-insert P x l p h.1)
]

covered-sort_by_start : (l : List (ℕ × ℕ)) (y : ℕ) → covered (sort_by_start l) y ≡ covered l y
unfolding sort_by_start covered
covered-sort_by_start [] y = refl
covered-sort_by_start (x ∷ l) y =
    covered-insert x (sort_by_start l) y ∙ ap (λ b. holds x y || b) (covered-sort_by_start l y)

sort_by_start-IsSorted : (l : List (ℕ × ℕ)) → IsSorted (sort_by_start l)
unfolding sort_by_start
sort_by_start-IsSorted [] = tt
sort_by_start-IsSorted (x ∷ l) = insert-IsSorted x (sort_by_start l) (sort_by_start-IsSorted l)

All-sort_by_start : (P : ℕ × ℕ → Type 0) (l : List (ℕ × ℕ)) → All P l → All P (sort_by_start l)
unfolding sort_by_start
All-sort_by_start P [] h = tt
All-sort_by_start P (x ∷ l) h = All-insert P x (sort_by_start l) h.0 (All-sort_by_start P l h.1)

module _ (n : ℕ) where
  from_first-covered :
      (l : List (ℕ × ℕ))
      → IsSorted l
      → All (IsInterval n) l
      → from_first l ≡ count_below n (covered l)
  unfolding from_first covered
  from_first-covered [] sorted fit = sym (count_below-none n)
  from_first-covered ((a, b) ∷ l) sorted fit =
      sum_merged-covered n a b l fit.0.0 fit.0.1 sorted.0 sorted.1 fit.1

  -- For intervals that do not end before their start, and `n` no less than any of their ends: the
  -- merged total is the number of years below `n` that at least one interval covers. Overlaps count
  -- once, gaps do not count, and the order of the list does not matter.
  pub merge_intervals_and_sum_years-covered :
      (l : List (ℕ × ℕ))
      → All (IsInterval n) l
      → merge_intervals_and_sum_years l ≡ count_below n (covered l)
  unfolding merge_intervals_and_sum_years
  merge_intervals_and_sum_years-covered l fit =
      from_first-covered (sort_by_start l) (sort_by_start-IsSorted l)
        (All-sort_by_start (IsInterval n) l fit)
      ∙ count_below-ext n _ _ (covered-sort_by_start l)

-- A year that more tests pass is counted no less, and one more interval adds its length at most.
count_below-or-bounds :
    (n : ℕ) (p q : ℕ → Bool)
    → (count_below n q ≤ count_below n (λ y. p y || q y))
      × (count_below n (λ y. p y || q y) ≤ count_below n p + count_below n q)
unfolding count_below
count_below-or-bounds zero p q = omega arith
count_below-or-bounds (suc n) p q = ground (arith, count_below-or-bounds n p q)

-- For intervals that do not end before their start: one more job never lowers the net years, and adds
-- its own length at most.
pub merge_intervals_and_sum_years-cons :
    (n a b : ℕ) (l : List (ℕ × ℕ))
    → All (IsInterval n) ((a, b) ∷ l)
    → (merge_intervals_and_sum_years l ≤ merge_intervals_and_sum_years ((a, b) ∷ l))
      × (merge_intervals_and_sum_years ((a, b) ∷ l) ≤ (b - a) + merge_intervals_and_sum_years l)
unfolding covered
merge_intervals_and_sum_years-cons n a b l fit =
    let bounds = count_below-or-bounds n (holds (a, b)) (covered l) in
    omega (
      arith,
      merge_intervals_and_sum_years-covered n ((a, b) ∷ l) fit,
      merge_intervals_and_sum_years-covered n l fit.1,
      count_below-interval n a b fit.0.0 fit.0.1,
      bounds.0,
      bounds.1,
    )
