-- ===== src/ExperienceAgent.antt =====
-- app/agents/experience_agent.py: the agent that checks a work history. The claims of the text come with
-- the request, in hundredths of a year; the search of a title for the words of a level is a parameter.
pub mod Totals
pub mod Calendar
use ats_smart_backend.Prelude.{
  ℕ, zero, suc, ◌+◌, ◌-◌, ◌*◌, Bool, true, false, Option, none, some, List, [], ◌∷◌, ◌++◌, String,
  map, ltb, leb, min, max, if◌then◌else◌, ◌&&◌,
}
use ats_smart_backend.Experience.{
  Entry, AnalyzedEntry, shamsi_year_threshold, shamsi_to_gregorian_offset,
  merge_intervals_and_sum_years, analyze_work_experience,
}
use ats_smart_backend.Experience.Coverage.{holds}

abbrev pub claim_tolerance_years : ℕ
claim_tolerance_years = 200

abbrev pub max_concurrent_roles : ℕ
max_concurrent_roles = 2

-- `_gregorian`, of a year that is known
unfoldable pub gregorian : ℕ → ℕ
gregorian year = if ltb year shamsi_year_threshold then year + shamsi_to_gregorian_offset else year

-- The levels of `_SENIORITY_TITLE_MIN_YEARS`, with their years
pub data Level : Type 0 where
  executive : Level
  manager : Level
  senior : Level

unfoldable pub min_years : Level → ℕ
min_years executive = 7
min_years manager = 5
min_years senior = 3

pub data Severity : Type 0 where
  low : Severity
  medium : Severity
  high : Severity

pub data Code : Type 0 where
  invalid_period : Code
  claimed_years_exceed_history : Code
  seniority_title_vs_tenure : Code
  concurrent_full_time_roles : Code
  skill_years_exceed_career : Code

pub record Flag : Type 0 where
  pub code : Code
  pub severity : Severity

-- A row that is valid, with its years in the Gregorian calendar.
pub record ValidEntry : Type 0 where
  pub index : ℕ
  pub job_title : Option String
  pub span : ℕ × ℕ

pub record Overlap : Type 0 where
  pub entries : ℕ × ℕ
  pub years : ℕ

valid_entry : ℕ → AnalyzedEntry → List ValidEntry → List ValidEntry
unfolding gregorian
valid_entry index row rest =
    if row.is_valid
    then elim row.years [
      | none ↦ rest
      | some (start_year, end_year) ↦
          record {
            index = index;
            job_title = row.entry.job_title;
            span = (gregorian start_year, gregorian end_year);
          }
          ∷ rest
    ]
    else rest

unfoldable pub valid_entries : ℕ → List AnalyzedEntry → List ValidEntry
unfolding valid_entry
valid_entries index [] = []
valid_entries index (row ∷ rows) = valid_entry index row (valid_entries (suc index) rows)

unfoldable pub spans : List ValidEntry → List (ℕ × ℕ)
spans [] = []
spans (entry ∷ valid) = entry.span ∷ spans valid

-- The common years of two spans; Python's difference is not positive where this one is 0.
unfoldable pub common_years : ℕ × ℕ → ℕ × ℕ → ℕ
common_years (a, b) (s, e) = min b e - max a s

unfoldable pub overlaps_with : ValidEntry → List ValidEntry → List Overlap
unfolding common_years
overlaps_with first [] = []
overlaps_with first (second ∷ valid) =
    let rest = overlaps_with first valid in
    let years = common_years first.span second.span in
    if ltb 0 years
    then record { entries = (first.index, second.index); years = years } ∷ rest
    else rest

unfoldable pub overlaps : List ValidEntry → List Overlap
unfolding overlaps_with
overlaps [] = []
overlaps (first ∷ valid) = overlaps_with first valid ++ overlaps valid

-- How many of the spans hold a year.
unfoldable pub roles_in : ℕ → List (ℕ × ℕ) → ℕ
roles_in year [] = 0
roles_in year (span ∷ l) = let rest = roles_in year l in if holds span year then suc rest else rest

-- The greatest number of roles in one of `count` years from `year` on.
unfoldable pub peak_from : ℕ → ℕ → List (ℕ × ℕ) → ℕ
unfolding roles_in
peak_from year zero l = 0
peak_from year (suc count) l = max (roles_in year l) (peak_from (suc year) count l)

unfoldable pub first_start : ℕ × ℕ → List (ℕ × ℕ) → ℕ
first_start x [] = x.0
first_start x (y ∷ l) = min x.0 (first_start y l)

unfoldable pub last_end : ℕ × ℕ → List (ℕ × ℕ) → ℕ
last_end x [] = x.1
last_end x (y ∷ l) = max x.1 (last_end y l)

unfoldable pub peak : List (ℕ × ℕ) → ℕ
unfolding peak_from first_start last_end
peak [] = 0
peak (x ∷ l) = peak_from (first_start x l) (last_end x l - first_start x l) (x ∷ l)

-- Claims are checked if there is a valid row.
exceeds : List ValidEntry → ℕ → ℕ → Bool
exceeds [] total claim = false
exceeds (entry ∷ valid) total claim = ltb (100 * total + claim_tolerance_years) claim

claim_flag : Code → List ValidEntry → ℕ → ℕ → List Flag → List Flag
unfolding exceeds
claim_flag code valid total claim rest =
    if exceeds valid total claim
    then record { code = code; severity = if leb (100 * total + 500) claim then high else medium }
      ∷ rest
    else rest

invalid_flags : List AnalyzedEntry → List Flag
invalid_flags [] = []
invalid_flags (row ∷ rows) =
    let rest = invalid_flags rows in
    if row.is_valid then rest else record { code = invalid_period; severity = low } ∷ rest

unfoldable pub invalid_indices : ℕ → List AnalyzedEntry → List ℕ
invalid_indices index [] = []
invalid_indices index (row ∷ rows) =
    let rest = invalid_indices (suc index) rows in if row.is_valid then rest else index ∷ rest

skill_flags : List ValidEntry → ℕ → List (String × ℕ) → List Flag
unfolding claim_flag
skill_flags valid total [] = []
skill_flags valid total ((skill, claim) ∷ claims) =
    claim_flag skill_years_exceed_career valid total claim (skill_flags valid total claims)

module _ (search : Level → Option String → Bool) where
  -- The first level whose words the title has
  level_of : Option String → Option Level
  level_of title =
      if search executive title
      then some executive
      else if search manager title
      then some manager
      else if search senior title
      then some senior
      else none

  seniority_flags : ℕ → List ValidEntry → List Flag
  unfolding level_of min_years
  seniority_flags total [] = []
  seniority_flags total (entry ∷ valid) =
      let rest = seniority_flags total valid in
      elim (level_of entry.job_title) [
        | none ↦ rest
        | some level ↦
            if ltb total (min_years level)
            then record { code = seniority_title_vs_tenure; severity = medium } ∷ rest
            else rest
      ]

  unfoldable pub flags :
      List AnalyzedEntry → List ValidEntry → ℕ → Option ℕ → List (String × ℕ) → List Flag
  unfolding invalid_flags claim_flag seniority_flags peak skill_flags spans
  flags rows valid total claimed_total skill_claims =
      invalid_flags rows
      ++ ((elim claimed_total [
        | none ↦ []
        | some claim ↦ claim_flag claimed_years_exceed_history valid total claim []
      ])
          ++ (seniority_flags total valid
              ++ ((if ltb max_concurrent_roles (peak (spans valid))
                    then record { code = concurrent_full_time_roles; severity = medium } ∷ []
                    else [])
                  ++ skill_flags valid total skill_claims)))

pub record ExperienceAgentOutput : Type 0 where
  pub entries : List AnalyzedEntry
  pub total_experience_years : ℕ
  pub overlaps_found : List Overlap
  pub invalid_periods : List ℕ
  pub claimed_total_years : Option ℕ
  pub flags_raised : List Flag

-- The agent after `analyze_work_experience` has judged the rows.
unfoldable pub checked :
    (Level → Option String → Bool)
    → Option ℕ
    → List (String × ℕ)
    → List AnalyzedEntry
    → ExperienceAgentOutput
unfolding valid_entries merge_intervals_and_sum_years overlaps flags invalid_indices spans
checked search claimed_total skill_claims rows =
    let valid = valid_entries 0 rows in
    let total_years = merge_intervals_and_sum_years (spans valid) in
    record {
      entries = rows;
      total_experience_years = total_years;
      overlaps_found = overlaps valid;
      invalid_periods = invalid_indices 0 rows;
      claimed_total_years = claimed_total;
      flags_raised = flags search rows valid total_years claimed_total skill_claims;
    }

unfoldable pub run_experience_agent :
    (ℕ → Option ℕ)
    → (ℕ → Bool)
    → (List ℕ → List ℕ)
    → ℕ
    → (Level → Option String → Bool)
    → Option ℕ
    → List (String × ℕ)
    → List Entry
    → ExperienceAgentOutput
unfolding analyze_work_experience checked
run_experience_agent digit is_space lower this_year search claimed_total skill_claims
      work_experience =
    checked search claimed_total skill_claims
      ((analyze_work_experience digit is_space lower this_year work_experience).1)
