-- ===== src/Tests/Experience.antt =====
-- Concrete runs of the experience analyzer, and its properties at them.
use ats_smart_backend.Prelude.{
  codes, ℕ, ◌+◌, ◌-◌, ◌≤◌, ◌≡◌, refl, ◌↔◌, Bool, true, Option, none, some, List, [], ◌∷◌, arith,
  if◌then◌else◌, ◌&&◌, leb,
}
use ats_smart_backend.Experience.{
  Entry, validate_entry, analyze_work_experience, merge_intervals_and_sum_years,
  current_year_for_calendar, max_reasonable_single_job_years, parse_duration,
}
use ats_smart_backend.Experience.Coverage.{
  covered, count_below, merge_intervals_and_sum_years-covered, merge_intervals_and_sum_years-cons,
}
use ats_smart_backend.Experience.Validity.{
  valid_years, shamsi_rows, gregorian_rows, validate_entry_iff, analyze_work_experience-covered,
  analyze_work_experience-grows,
}

-- Two jobs that overlap and one later job.
abbrev jobs : List (ℕ × ℕ)
jobs = (2015, 2019) ∷ (2010, 2012) ∷ (2018, 2021) ∷ []

merged_jobs : merge_intervals_and_sum_years jobs ≡ 8
unfolding merge_intervals_and_sum_years
merged_jobs = refl

merge_intervals_and_sum_years-covered_example :
    merge_intervals_and_sum_years jobs ≡ count_below 2026 (covered jobs)
merge_intervals_and_sum_years-covered_example =
    merge_intervals_and_sum_years-covered 2026 jobs
      ((omega arith, omega arith), ((omega arith, omega arith), ((omega arith, omega arith), tt)))

merge_intervals_and_sum_years-cons_example :
    (merge_intervals_and_sum_years jobs ≤ merge_intervals_and_sum_years ((2011, 2016) ∷ jobs))
    × (merge_intervals_and_sum_years ((2011, 2016) ∷ jobs)
        ≤ (2016 - 2011) + merge_intervals_and_sum_years jobs)
merge_intervals_and_sum_years-cons_example =
    merge_intervals_and_sum_years-cons 2026 2011 2016 jobs (
      (omega arith, omega arith),
      ((omega arith, omega arith), ((omega arith, omega arith), ((omega arith, omega arith), tt))),
    )

validate_entry_iff_example : (validate_entry 2026 1398 1401 true ≡ none) ↔ (
    (1398 ≤ 1401)
    × (1401 ≤ current_year_for_calendar 2026 true)
    × (1401 - 1398 ≤ max_reasonable_single_job_years))
validate_entry_iff_example = validate_entry_iff 2026 1398 1401 true

-- ASCII digits, blanks and letters
abbrev pub digit : ℕ → Option ℕ
digit c = if leb b'0' c && leb c b'9' then some (c - b'0') else none

abbrev pub is_space : ℕ → Bool
is_space c = leb c 32

abbrev pub lower : List ℕ → List ℕ
lower text = text

abbrev pub job : List ℕ → Entry
job duration = record { company = none; job_title = none; duration = some duration }

abbrev pub work_experience : List Entry
work_experience =
    job (codes "1398 - 1401")
    ∷ job (codes "2020 - present")
    ∷ job (codes "2030-2031")
    ∷ job (codes "long ago")
    ∷ []

parsed :
    parse_duration digit is_space lower 2026 (some (codes "2020 - present")) ≡ some (2020, 2026)
unfolding parse_duration
parsed = refl

analyzed : (analyze_work_experience digit is_space lower 2026 work_experience).0 ≡ 9
unfolding analyze_work_experience merge_intervals_and_sum_years
analyzed = refl

-- The rows 1398 - 1401, which is 2019 - 2022, and 2020 - 2026: 3 + 6 years, of which two are the same.
analyze_work_experience-covered_example :
    (analyze_work_experience digit is_space lower 2026 work_experience).0
    ≡ count_below 2026 (
        covered (
          shamsi_rows
            (valid_years (analyze_work_experience digit is_space lower 2026 work_experience).1)))
      + count_below 2026 (
          covered (
            gregorian_rows
              (valid_years (analyze_work_experience digit is_space lower 2026 work_experience).1)))
analyze_work_experience-covered_example =
    analyze_work_experience-covered digit is_space lower 2026 work_experience (omega arith)

analyze_work_experience-grows_example :
    (analyze_work_experience digit is_space lower 2026 work_experience).0
    ≤ (analyze_work_experience digit is_space lower 2026
        (job (codes "2001 - 2004") ∷ work_experience)).0
analyze_work_experience-grows_example =
    analyze_work_experience-grows digit is_space lower 2026 (job (codes "2001 - 2004"))
      work_experience
