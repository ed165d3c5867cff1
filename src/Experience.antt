-- ===== src/Experience.antt =====
-- app/core/experience_analyzer.py: the years of a work experience, its checks, and the net years of all
-- of them. A text is the list of its code points. What a digit, a space and a lower-case text are is
-- Unicode's, and a parameter; `this_year` is the Gregorian year of today.
pub mod Duration
pub mod Intervals
pub mod Coverage
pub mod Validity
unfoldable pub use Duration.{
  parse_duration, shamsi_year_threshold, shamsi_to_gregorian_offset, current_year_for_calendar,
}
unfoldable pub use Intervals.{merge_intervals_and_sum_years}
use ats_smart_backend.Prelude.{
  ℕ, ◌+◌, ◌-◌, ◌<◌, ◌≤◌, Bool, true, false, Option, none, some, List, [], ◌∷◌, ltb, if◌then◌else◌,
  ◌||◌, String,
}

abbrev pub max_reasonable_single_job_years : ℕ
max_reasonable_single_job_years = 40

pub data FlagReason : Type 0 where
  unreadable : FlagReason
  ends_before_start : FlagReason
  in_the_future : FlagReason
  exaggerated : ℕ → FlagReason

-- `_validate_entry`; the length is subtracted behind the guard on the order of the years.
unfoldable pub validate_entry : ℕ → ℕ → ℕ → Bool → Option FlagReason
unfolding current_year_for_calendar
validate_entry this_year start_year end_year is_shamsi =
    let current_year = current_year_for_calendar this_year is_shamsi in
    if ltb end_year start_year
    then some ends_before_start
    else if ltb current_year start_year || ltb current_year end_year
    then some in_the_future
    else if ltb max_reasonable_single_job_years (end_year - start_year)
    then some (exaggerated (end_year - start_year))
    else none

pub record Entry : Type 0 where
  pub company : Option String
  pub job_title : Option String
  pub duration : Option (List ℕ)

pub record AnalyzedEntry : Type 0 where
  pub entry : Entry
  pub years : Option (ℕ × ℕ)  -- start_year and end_year
  pub is_valid : Bool
  pub flag_reason : Option FlagReason

-- The record of a row whose years are read.
judged : Entry → ℕ × ℕ → Option FlagReason → AnalyzedEntry
judged entry years none = record {
  entry = entry;
  years = some years;
  is_valid = true;
  flag_reason = none;
}
judged entry years (some reason) = record {
  entry = entry;
  years = some years;
  is_valid = false;
  flag_reason = some reason;
}

kept : ℕ × ℕ → Option FlagReason → List (ℕ × ℕ) → List (ℕ × ℕ)
kept years none rest = years ∷ rest
kept years (some reason) rest = rest

module _ (digit : ℕ → Option ℕ) (is_space : ℕ → Bool) (lower : List ℕ → List ℕ)
    (this_year : ℕ) where
  verdict : ℕ × ℕ → Option FlagReason
  unfolding validate_entry
  verdict (start_year, end_year) =
      validate_entry this_year start_year end_year (ltb start_year shamsi_year_threshold)

  years_of : Entry → Option (ℕ × ℕ)
  unfolding parse_duration
  years_of entry = parse_duration digit is_space lower this_year entry.duration

  analyzed : Entry → Option (ℕ × ℕ) → AnalyzedEntry
  unfolding judged verdict
  analyzed entry none = record {
    entry = entry;
    years = none;
    is_valid = false;
    flag_reason = some unreadable;
  }
  analyzed entry (some years) = judged entry years (verdict years)

  add_valid : Option (ℕ × ℕ) → List (ℕ × ℕ) → List (ℕ × ℕ)
  unfolding kept verdict
  add_valid none rest = rest
  add_valid (some years) rest = kept years (verdict years) rest

  -- The loop of `analyze_work_experience`: the rows that it appends and the valid intervals.
  unfoldable pub analyze_entries : List Entry → List AnalyzedEntry × List (ℕ × ℕ)
  unfolding years_of analyzed add_valid
  analyze_entries [] = ([], [])
  analyze_entries (entry ∷ work_experience) =
      let (rows, intervals) = analyze_entries work_experience in
      (analyzed entry (years_of entry) ∷ rows, add_valid (years_of entry) intervals)

  unfoldable pub analyze_work_experience : List Entry → ℕ × List AnalyzedEntry
  unfolding analyze_entries
  analyze_work_experience work_experience =
      let (rows, intervals) = analyze_entries work_experience in
      (merge_intervals_and_sum_years intervals, rows)
