-- ===== src/ExperienceAgent/Calendar.antt =====
-- The experience agent counts in one calendar.
use ats_smart_backend.Prelude.{
  ℕ, suc, ◌<◌, ◌≤◌, ◌≡◌, refl, sym, ◌∙◌, ap, subst, Bool, Option, List, [], ◌∷◌, String, arith, All,
  Bool-cases, Option-cases, inl, inr,
}
use ats_smart_backend.Experience.{
  AnalyzedEntry, Entry, current_year_for_calendar, analyze_work_experience,
}
use ats_smart_backend.Experience.Coverage.{
  IsInterval, covered, count_below, merge_intervals_and_sum_years-covered,
}
use ats_smart_backend.Experience.Validity.{valid_years, Fits, valid_years-Fits}
use ats_smart_backend.ExperienceAgent.{
  gregorian, valid_entry, valid_entries, spans, checked, run_experience_agent,
  ExperienceAgentOutput, Level,
}
use ats_smart_backend.ExperienceAgent.Totals.{sum_lengths, total-no_overlaps}

unfoldable pub in_gregorian : List (ℕ × ℕ) → List (ℕ × ℕ)
in_gregorian [] = []
in_gregorian ((a, b) ∷ l) = (gregorian a, gregorian b) ∷ in_gregorian l

spans-valid_entries :
    (index : ℕ) (rows : List AnalyzedEntry)
    → spans (valid_entries index rows) ≡ in_gregorian (valid_years rows)
unfolding spans valid_entries valid_entry in_gregorian valid_years
spans-valid_entries index [] = refl
spans-valid_entries index (row ∷ rows) = elim (Bool-cases row.is_valid) [
  | inr invalid ↦ rw (invalid, valid_entry) (spans-valid_entries (suc index) rows)
  | inl valid ↦
      rw (valid, valid_entry)
        (elim (Option-cases row.years) [
          | inl unknown ↦ rw unknown (spans-valid_entries (suc index) rows)
          | inr (years, known) ↦ rw known (
              ap (λ l. (gregorian years.0, gregorian years.1) ∷ l)
                (spans-valid_entries (suc index) rows))
        ])
]

-- The years of this century and the next in which a Shamsi year is below the threshold
abbrev pub IsNow : ℕ → Type 0
IsNow this_year = (621 ≤ this_year) × (this_year < 2121)

gregorian-IsInterval :
    (this_year a b : ℕ)
    → IsNow this_year
    → Fits this_year (a, b)
    → IsInterval this_year (gregorian a, gregorian b)
unfolding gregorian current_year_for_calendar
gregorian-IsInterval this_year a b now h = ground arith

in_gregorian-IsInterval :
    (this_year : ℕ) (l : List (ℕ × ℕ))
    → IsNow this_year
    → All (Fits this_year) l
    → All (IsInterval this_year) (in_gregorian l)
unfolding in_gregorian
in_gregorian-IsInterval this_year [] now h = tt
in_gregorian-IsInterval this_year ((a, b) ∷ l) now h =
    (gregorian-IsInterval this_year a b now h.0, in_gregorian-IsInterval this_year l now h.1)

module _ (digit : ℕ → Option ℕ) (is_space : ℕ → Bool) (lower : List ℕ → List ℕ) (this_year : ℕ)
    (search : Level → Option String → Bool) (claimed_total : Option ℕ)
    (skill_claims : List (String × ℕ)) where
  abbrev answer : List Entry → ExperienceAgentOutput
  answer l = run_experience_agent digit is_space lower this_year search claimed_total skill_claims l

  spans-IsInterval :
      (l : List Entry)
      → IsNow this_year
      → All
          (IsInterval this_year)
          (spans (valid_entries 0 ((analyze_work_experience digit is_space lower this_year l).1)))
  spans-IsInterval l now =
      subst (All (IsInterval this_year)) (sym (spans-valid_entries 0 _)) (
        in_gregorian-IsInterval this_year _ now (valid_years-Fits digit is_space lower this_year l))

  -- In a year of our calendar from 621 to 2120: the total of the agent is the number of Gregorian years, up
  -- to this year, in which at least one valid row was held, the Shamsi rows converted first.
  pub run_experience_agent-covered :
      (l : List Entry)
      → IsNow this_year
      → (answer l).total_experience_years
        ≡ count_below this_year (
            covered (
              in_gregorian
                (valid_years ((analyze_work_experience digit is_space lower this_year l).1))))
  unfolding run_experience_agent checked
  run_experience_agent-covered l now =
      merge_intervals_and_sum_years-covered this_year _ (spans-IsInterval l now)
      ∙ ap (λ t. count_below this_year (covered t)) (spans-valid_entries 0 _)

  -- In such a year: if the agent reports no overlap of two rows, its total is the sum of the lengths of the
  -- valid rows.
  pub run_experience_agent-no_overlaps :
      (l : List Entry)
      → IsNow this_year
      → (answer l).overlaps_found ≡ []
      → (answer l).total_experience_years
        ≡ sum_lengths (
            in_gregorian
              (valid_years ((analyze_work_experience digit is_space lower this_year l).1)))
  unfolding run_experience_agent checked
  run_experience_agent-no_overlaps l now apart =
      total-no_overlaps this_year _ (spans-IsInterval l now) apart
      ∙ ap sum_lengths (spans-valid_entries 0 _)
