-- ===== src/ExperienceAgent/Totals.antt =====
-- The total of the experience agent, its overlaps and its peak of concurrent roles.
use ats_smart_backend.Prelude.{
  ℕ, zero, suc, ◌+◌, ◌-◌, ◌<◌, ◌≤◌, ◌≡◌, refl, ◌∙◌, ap, Bool, true, false, List, [], ◌∷◌, ◌++◌,
  arith, All, ltb, leb, if◌then◌else◌, ◌&&◌, ◌||◌, Bool-cases, inl, inr, ltb→lt, leb→le,
  leb-false→lt,
}
use mathlib.Core.List.{cons≢nil}
use ats_smart_backend.Experience.{merge_intervals_and_sum_years}
use ats_smart_backend.Experience.Coverage.{
  holds, covered, count_below, IsInterval, merge_intervals_and_sum_years-covered, count_below-or,
  count_below-interval, count_below-none,
}
use ats_smart_backend.ExperienceAgent.{
  ValidEntry, spans, overlaps, overlaps_with, common_years, roles_in, peak_from, peak, first_start,
  last_end,
}

-- The sum of the lengths of the spans
unfoldable pub sum_lengths : List (ℕ × ℕ) → ℕ
sum_lengths [] = 0
sum_lengths ((a, b) ∷ l) = b - a + sum_lengths l

no-holds :
    (a b s e y : ℕ)
    → ltb 0 (common_years (a, b) (s, e)) ≡ false
    → holds (a, b) y && holds (s, e) y ≡ false
unfolding common_years
no-holds a b s e y h = ground arith

append-empty : {A : Type 0} (l k : List A) → l ++ k ≡ [] → (l ≡ []) × (k ≡ [])
append-empty [] k h = (refl, h)
append-empty (x ∷ l) k h = absurd (cons≢nil h)

if_cons-empty :
    {A : Type 0} (b : Bool) (x : A) (l : List A)
    → (if b then x ∷ l else l) ≡ []
    → (b ≡ false) × (l ≡ [])
if_cons-empty true x l h = absurd (cons≢nil h)
if_cons-empty false x l h = (refl, h)

and_false : (a : Bool) → a && false ≡ false
and_false true = refl
and_false false = refl

and_or_false : (a b c : Bool) → a && b ≡ false → a && c ≡ false → a && (b || c) ≡ false
and_or_false true b c h k = rw h k
and_or_false false b c h k = refl

overlaps_with-empty :
    (first : ValidEntry) (valid : List ValidEntry) (y : ℕ)
    → overlaps_with first valid ≡ []
    → holds first.span y && covered (spans valid) y ≡ false
unfolding overlaps_with spans covered
overlaps_with-empty first [] y h = and_false (holds first.span y)
overlaps_with-empty first (second ∷ valid) y h =
    let (apart, later) = if_cons-empty (ltb 0 (common_years first.span second.span)) _ _ h in
    and_or_false (holds first.span y) (holds second.span y) (covered (spans valid) y)
      (no-holds first.span.0 first.span.1 second.span.0 second.span.1 y apart)
      (overlaps_with-empty first valid y later)

module _ (n : ℕ) where
  count_below-sum_lengths :
      (valid : List ValidEntry)
      → All (IsInterval n) (spans valid)
      → overlaps valid ≡ []
      → count_below n (covered (spans valid)) ≡ sum_lengths (spans valid)
  unfolding overlaps spans covered sum_lengths
  count_below-sum_lengths [] fit h = count_below-none n
  count_below-sum_lengths (first ∷ valid) fit h =
      let (here, later) = append-empty (overlaps_with first valid) (overlaps valid) h in
      omega (
        arith,
        count_below-or n (holds first.span) (covered (spans valid))
            (λ y. overlaps_with-empty first valid y here),
        count_below-interval n first.span.0 first.span.1 fit.0.0 fit.0.1,
        count_below-sum_lengths valid fit.1 later,
      )

-- If the agent finds no overlap, the years of experience are the sum of the lengths of the valid rows, for
-- rows that do not end before they start: only an overlap makes the total differ from the plain sum.
pub total-no_overlaps :
    (n : ℕ) (valid : List ValidEntry)
    → All (IsInterval n) (spans valid)
    → overlaps valid ≡ []
    → merge_intervals_and_sum_years (spans valid) ≡ sum_lengths (spans valid)
total-no_overlaps n valid fit none =
    merge_intervals_and_sum_years-covered n (spans valid) fit
    ∙ count_below-sum_lengths n valid fit none

same_year : (a b : ℕ) → a ≤ b → ltb a b ≡ false → a ≡ b
same_year a b h k = ground arith

roles_in-peak_from :
    (year count y : ℕ) (l : List (ℕ × ℕ))
    → year ≤ y
    → y < year + count
    → roles_in y l ≤ peak_from year count l
unfolding peak_from
roles_in-peak_from year zero y l h k = absurd (omega arith)
roles_in-peak_from year (suc count) y l h k = elim (Bool-cases (ltb year y)) [
  | inl later ↦ omega (
    arith,
    roles_in-peak_from (suc year) count y l (omega (arith, ltb→lt year y later)) (omega arith),
  )
  | inr here ↦ omega (arith, ap (λ t. roles_in t l) (same_year year y h here))
]

roles_in-before :
    (y : ℕ) (x : ℕ × ℕ) (l : List (ℕ × ℕ)) → y < first_start x l → roles_in y (x ∷ l) ≡ 0
unfolding roles_in first_start
roles_in-before y x [] h = ground arith
roles_in-before y x (z ∷ l) h = ground (arith, roles_in-before y z l (omega arith))

roles_in-after : (y : ℕ) (x : ℕ × ℕ) (l : List (ℕ × ℕ)) → last_end x l ≤ y → roles_in y (x ∷ l) ≡ 0
unfolding roles_in last_end
roles_in-after y x [] h = ground arith
roles_in-after y x (z ∷ l) h = ground (arith, roles_in-after y z l (omega arith))

-- In no year are there more concurrent roles than the peak that the agent compares with its limit, though
-- it looks only at the years from the first start to the last end.
pub roles_in-peak : (y : ℕ) (l : List (ℕ × ℕ)) → roles_in y l ≤ peak l
unfolding peak roles_in
roles_in-peak y [] = omega arith
roles_in-peak y (x ∷ l) = elim (Bool-cases (ltb y (first_start x l))) [
  | inl early ↦ omega (arith, roles_in-before y x l (ltb→lt y (first_start x l) early))
  | inr started ↦ elim (Bool-cases (leb (last_end x l) y)) [
    | inl over ↦ omega (arith, roles_in-after y x l (leb→le (last_end x l) y over))
    | inr running ↦
        roles_in-peak_from (first_start x l) (last_end x l - first_start x l) y (x ∷ l)
          (ground arith) (omega (arith, leb-false→lt (last_end x l) y running))
  ]
]
