-- ===== src/Experience/Validity.antt =====
-- The checks of an entry, and the net years of `analyze_work_experience` by its valid rows.
use mathlib.Core.Bool.{false≢true}
use ats_smart_backend.Prelude.{
  true, filter, leb, ◌||◌, ◌<◌, ◌+◌, ltb, subst, ℕ, ◌-◌, ◌≤◌, ◌≡◌, ◌↔◌, refl, sym, ◌∙◌, ap, Bool,
  Option, none, some, List, [], ◌∷◌, arith, All, if◌then◌else◌,
}
use ats_smart_backend.Experience.{
  shamsi_year_threshold, validate_entry, FlagReason, Entry, AnalyzedEntry, judged, kept, verdict,
  years_of, analyzed, add_valid, analyze_entries, analyze_work_experience,
  current_year_for_calendar, max_reasonable_single_job_years, merge_intervals_and_sum_years,
}
use ats_smart_backend.Experience.Coverage.{
  covered, count_below, count_below-ext, count_below-or, IsInterval,
  merge_intervals_and_sum_years-covered, merge_intervals_and_sum_years-cons,
}

-- An entry has no flag exactly if it does not end before it starts, does not end after the current
-- year of its calendar, and is not longer than forty years.
pub validate_entry_iff :
    (this_year start_year end_year : ℕ) (is_shamsi : Bool)
    → (validate_entry this_year start_year end_year is_shamsi ≡ none) ↔ (
        (start_year ≤ end_year)
        × (end_year ≤ current_year_for_calendar this_year is_shamsi)
        × (end_year - start_year ≤ max_reasonable_single_job_years))
unfolding validate_entry
validate_entry_iff this_year start_year end_year is_shamsi = ground arith

-- The years of the rows that are shown as valid.
unfoldable pub valid_years : List AnalyzedEntry → List (ℕ × ℕ)
valid_years [] = []
valid_years (row ∷ rows) =
    let rest = valid_years rows in
    if row.is_valid then elim row.years [ none ↦ rest | some years ↦ years ∷ rest ] else rest

current_year_le : (this_year : ℕ) (b : Bool) → current_year_for_calendar this_year b ≤ this_year
unfolding current_year_for_calendar
current_year_le this_year b = ground arith

-- The years that pass the checks, in their own calendar.
abbrev pub Fits : ℕ → ℕ × ℕ → Type 0
Fits this_year (a, b) =
    (a ≤ b) × (b ≤ current_year_for_calendar this_year (ltb a shamsi_year_threshold))

All-Fits-IsInterval :
    (this_year : ℕ) (l : List (ℕ × ℕ)) → All (Fits this_year) l → All (IsInterval this_year) l
All-Fits-IsInterval this_year [] h = tt
All-Fits-IsInterval this_year ((a, b) ∷ l) h = (
  (h.0.0, omega (arith, h.0.1, current_year_le this_year (ltb a shamsi_year_threshold))),
  All-Fits-IsInterval this_year l h.1,
)

kept-Fits :
    (n a b : ℕ) (o : Option FlagReason) (l : List (ℕ × ℕ))
    → (o ≡ none → Fits n (a, b))
    → All (Fits n) l
    → All (Fits n) (kept (a, b) o l)
unfolding kept
kept-Fits n a b none l k h = (k refl, h)
kept-Fits n a b (some reason) l k h = h

valid_years-judged :
    (entry : Entry) (years : ℕ × ℕ) (o : Option FlagReason) (rows : List AnalyzedEntry)
    → valid_years (judged entry years o ∷ rows) ≡ kept years o (valid_years rows)
unfolding valid_years kept judged
valid_years-judged entry years none rows = refl
valid_years-judged entry years (some reason) rows = refl

-- The years that are taken for Shamsi years, and the others
unfoldable pub shamsi_rows : List (ℕ × ℕ) → List (ℕ × ℕ)
unfolding filter
shamsi_rows years = filter (λ x. ltb x.0 shamsi_year_threshold) years

unfoldable pub gregorian_rows : List (ℕ × ℕ) → List (ℕ × ℕ)
unfolding filter
gregorian_rows years = filter (λ x. leb shamsi_year_threshold x.0) years

covered_by_calendar :
    (l : List (ℕ × ℕ)) (y : ℕ)
    → covered l y ≡ (covered (shamsi_rows l) y || covered (gregorian_rows l) y)
unfolding covered shamsi_rows gregorian_rows
covered_by_calendar [] y = refl
covered_by_calendar ((a, b) ∷ l) y = ground (arith, covered_by_calendar l y)

no_year_of_both :
    (this_year : ℕ)
    → this_year < 2121
    → (l : List (ℕ × ℕ)) (y : ℕ) → All (Fits this_year) l
    → (covered (shamsi_rows l) y ≡ true → y < 1500)
      × (covered (gregorian_rows l) y ≡ true → 1500 ≤ y)
unfolding covered shamsi_rows gregorian_rows current_year_for_calendar
no_year_of_both this_year now [] y h = ((λ e. absurd (false≢true e)), λ e. absurd (false≢true e))
no_year_of_both this_year now ((a, b) ∷ l) y h =
    ground (arith, no_year_of_both this_year now l y h.1)

count_by_calendar :
    (this_year : ℕ)
    → this_year < 2121
    → (l : List (ℕ × ℕ)) → All (Fits this_year) l
    → count_below this_year (covered l)
      ≡ count_below this_year (covered (shamsi_rows l))
        + count_below this_year (covered (gregorian_rows l))
count_by_calendar this_year now l h =
    count_below-ext this_year (covered l)
      (λ y. covered (shamsi_rows l) y || covered (gregorian_rows l) y) (covered_by_calendar l)
    ∙ count_below-or this_year (covered (shamsi_rows l)) (covered (gregorian_rows l))
        (λ y. ground (arith, no_year_of_both this_year now l y h))

module _ (digit : ℕ → Option ℕ) (is_space : ℕ → Bool) (lower : List ℕ → List ℕ)
    (this_year : ℕ) where
  add_valid-Fits :
      (o : Option (ℕ × ℕ)) (l : List (ℕ × ℕ))
      → All (Fits this_year) l
      → All (Fits this_year) (add_valid digit is_space lower this_year o l)
  unfolding add_valid verdict
  add_valid-Fits none l h = h
  add_valid-Fits (some (a, b)) l h =
      kept-Fits this_year a b _ l
        (λ e. let checked = (validate_entry_iff this_year a b _).0 e in (checked.0, checked.1)) h

  analyze_entries-Fits :
      (l : List Entry) → All (Fits this_year) (analyze_entries digit is_space lower this_year l).1
  unfolding analyze_entries
  analyze_entries-Fits [] = tt
  analyze_entries-Fits (entry ∷ l) =
      add_valid-Fits (years_of digit is_space lower this_year entry) _ (analyze_entries-Fits l)

  analyze_entries-IsInterval :
      (l : List Entry)
      → All (IsInterval this_year) (analyze_entries digit is_space lower this_year l).1
  analyze_entries-IsInterval l = All-Fits-IsInterval this_year _ (analyze_entries-Fits l)

  analyzed-add_valid :
      (entry : Entry) (o : Option (ℕ × ℕ)) (rows : List AnalyzedEntry) (l : List (ℕ × ℕ))
      → valid_years rows ≡ l
      → valid_years (analyzed digit is_space lower this_year entry o ∷ rows)
        ≡ add_valid digit is_space lower this_year o l
  unfolding analyzed add_valid valid_years
  analyzed-add_valid entry none rows l h = h
  analyzed-add_valid entry (some years) rows l h =
      valid_years-judged entry years (verdict digit is_space lower this_year years) rows
      ∙ ap (kept years _) h

  valid_years-analyze_entries :
      (l : List Entry)
      → valid_years (analyze_entries digit is_space lower this_year l).0
        ≡ (analyze_entries digit is_space lower this_year l).1
  unfolding analyze_entries valid_years
  valid_years-analyze_entries [] = refl
  valid_years-analyze_entries (entry ∷ l) =
      analyzed-add_valid entry (years_of digit is_space lower this_year entry)
        ((analyze_entries digit is_space lower this_year l).0) _ (valid_years-analyze_entries l)

  pub valid_years-Fits :
      (l : List Entry)
      → All
          (Fits this_year)
          (valid_years ((analyze_work_experience digit is_space lower this_year l).1))
  unfolding analyze_work_experience
  valid_years-Fits l =
      subst (All (Fits this_year)) (sym (valid_years-analyze_entries l)) (analyze_entries-Fits l)

  analyze_work_experience-valid_years :
      (l : List Entry)
      → (analyze_work_experience digit is_space lower this_year l).0
        ≡ count_below this_year
            (covered (valid_years (analyze_work_experience digit is_space lower this_year l).1))
  unfolding analyze_work_experience
  analyze_work_experience-valid_years l =
      merge_intervals_and_sum_years-covered this_year _ (analyze_entries-IsInterval l)
      ∙ sym (ap (λ years. count_below this_year (covered years)) (valid_years-analyze_entries l))

  -- Up to the year 2120, the net years of a work experience are the number of Shamsi years that at least
  -- one valid row of that calendar covers, plus the number of Gregorian years that at least one other
  -- valid row covers: rows that overlap count once within a calendar, and nothing is taken off for rows
  -- of different calendars.
  pub analyze_work_experience-covered :
      (l : List Entry)
      → this_year < 2121
      → (analyze_work_experience digit is_space lower this_year l).0
        ≡ count_below this_year (
            covered (
              shamsi_rows
                (valid_years (analyze_work_experience digit is_space lower this_year l).1)))
          + count_below this_year (
              covered (
                gregorian_rows
                  (valid_years (analyze_work_experience digit is_space lower this_year l).1)))
  analyze_work_experience-covered l now =
      analyze_work_experience-valid_years l
      ∙ count_by_calendar this_year now
          (valid_years (analyze_work_experience digit is_space lower this_year l).1)
          (valid_years-Fits l)

  kept-grows :
      (years : ℕ × ℕ) (o : Option FlagReason) (l : List (ℕ × ℕ))
      → All (IsInterval this_year) (kept years o l)
      → merge_intervals_and_sum_years l ≤ merge_intervals_and_sum_years (kept years o l)
  unfolding kept
  kept-grows (a, b) none l h = (merge_intervals_and_sum_years-cons this_year a b l h).0
  kept-grows (a, b) (some reason) l h = omega arith

  add_valid-grows :
      (o : Option (ℕ × ℕ)) (l : List (ℕ × ℕ))
      → All (IsInterval this_year) (add_valid digit is_space lower this_year o l)
      → merge_intervals_and_sum_years l
        ≤ merge_intervals_and_sum_years (add_valid digit is_space lower this_year o l)
  unfolding add_valid
  add_valid-grows none l h = omega arith
  add_valid-grows (some years) l h =
      kept-grows years (verdict digit is_space lower this_year years) l h

  -- One more entry in a work experience, whatever it holds, never lowers the net years.
  pub analyze_work_experience-grows :
      (entry : Entry) (l : List Entry)
      → (analyze_work_experience digit is_space lower this_year l).0
        ≤ (analyze_work_experience digit is_space lower this_year (entry ∷ l)).0
  unfolding analyze_work_experience analyze_entries
  analyze_work_experience-grows entry l =
      add_valid-grows (years_of digit is_space lower this_year entry) _
        (analyze_entries-IsInterval (entry ∷ l))
