-- ===== src/Experience/Duration.antt =====
-- `_parse_duration` of app/core/experience_analyzer.py: a text such as «1398 - 1401» as two years.
use ats_smart_backend.Prelude.{
  starts_with, codes, strip, ℕ, ◌+◌, ◌-◌, ◌*◌, Bool, Option, none, some, List, [], ◌∷◌, any, ltb,
  leb, ◌==◌, ◌||◌, if◌then◌else◌, length,
}

abbrev pub shamsi_year_threshold : ℕ
shamsi_year_threshold = 1500

abbrev pub shamsi_to_gregorian_offset : ℕ
shamsi_to_gregorian_offset = 621

-- `this_year` is past the year 621, so that the truncated difference is the source's.
unfoldable pub current_year_for_calendar : ℕ → Bool → ℕ
current_year_for_calendar this_year is_shamsi =
    if is_shamsi then this_year - shamsi_to_gregorian_offset else this_year

-- `_CURRENT_MARKERS`: three Persian phrases, by their code points, and two English words
abbrev pub current_markers : List (List ℕ)
current_markers =
    (0x062a ∷ 0x0627 ∷ 0x06a9 ∷ 0x0646 ∷ 0x0648 ∷ 0x0646 ∷ [])
    ∷ (0x0627 ∷ 0x06a9 ∷ 0x0646 ∷ 0x0648 ∷ 0x0646 ∷ [])
    ∷ (0x062d ∷ 0x0627 ∷ 0x0644 ∷ 0x0020 ∷ 0x062d ∷ 0x0627 ∷ 0x0636 ∷ 0x0631 ∷ [])
    ∷ codes "present"
    ∷ codes "current"
    ∷ []

-- `pattern in text`
unfoldable pub occurs : List ℕ → List ℕ → Bool
occurs pattern' [] = starts_with pattern' []
occurs pattern' (c ∷ cs) = starts_with pattern' (c ∷ cs) || occurs pattern' cs

-- one of the three dashes of the split
abbrev is_dash : ℕ → Bool
is_dash c = c == b'-' || (c == 0x2013 || c == 0x2014)

-- `re.split(r"[-–—]", text, maxsplit=1)`; `none` if there is one part only
split_dash : List ℕ → Option (List ℕ × List ℕ)
split_dash [] = none
split_dash (c ∷ cs) =
    let rest = split_dash cs in
    if is_dash c then some ([], cs) else elim rest [ none ↦ none | some (a, b) ↦ some (c ∷ a, b) ]

module _ (digit : ℕ → Option ℕ) (is_space : ℕ → Bool) where
  -- the digits at the head of a text, `n` at most
  leading_digits : ℕ → List ℕ → List ℕ
  leading_digits ℕ.zero text = []
  leading_digits (ℕ.suc n) [] = []
  leading_digits (ℕ.suc n) (c ∷ cs) = elim (digit c) [
    | none ↦ []
    | some d ↦ d ∷ leading_digits n cs
  ]

  -- `int` of digits, the first one first
  decimal : ℕ → List ℕ → ℕ
  decimal n [] = n
  decimal n (d ∷ ds) = decimal (n * 10 + d) ds

  -- `int(_YEAR_PATTERN.search(text).group(0))`: the first three or four digits in a row
  search_year : List ℕ → Option ℕ
  unfolding leading_digits decimal
  search_year [] = none
  search_year (c ∷ cs) =
      let later = search_year cs in
      let digits = leading_digits 4 (c ∷ cs) in
      if leb 3 (length digits) then some (decimal 0 digits) else later

  module _ (lower : List ℕ → List ℕ) (this_year : ℕ) where
    end_of : ℕ → List ℕ → Option ℕ
    unfolding any
    end_of start_year end_part =
        if any (λ marker. occurs marker end_part || occurs marker (lower end_part)) current_markers
        then some (current_year_for_calendar this_year (ltb start_year shamsi_year_threshold))
        else search_year end_part

    years_of_parts : List ℕ → List ℕ → Option (ℕ × ℕ)
    unfolding end_of search_year
    years_of_parts start_part end_part = elim (search_year start_part) [
      | none ↦ none
      | some start_year ↦ elim (end_of start_year end_part) [
        | none ↦ none
        | some end_year ↦ some (start_year, end_year)
      ]
    ]

    unfoldable pub parse_duration : Option (List ℕ) → Option (ℕ × ℕ)
    unfolding split_dash years_of_parts strip occurs current_year_for_calendar
    parse_duration none = none
    parse_duration (some duration) = elim (split_dash duration) [
      | none ↦ none
      | some (a, b) ↦ years_of_parts (strip is_space a) (strip is_space b)
    ]
