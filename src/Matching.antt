-- ===== src/Matching.antt =====
-- app/core/matching_engine.py: the score of a candidate for a job, out of 100. Texts are code points;
-- `str.lower`, the classes of the regular expression, and what app/core/skill_graph.py answers are
-- parameters, and so is the rounding of an exact score to hundredths. An absent text is an empty one,
-- which the source treats alike, and a negative number of years counts as none.
pub mod Scores
pub mod Bounds
pub mod Skills
use ats_smart_backend.Prelude.{
  codes, eq_codes, strip, ℕ, ◌+◌, ◌*◌, Bool, true, false, Option, none, some, List, [], ◌∷◌, map,
  any, not, filter, length, leb, ltb, ◌==◌, ◌&&◌, ◌||◌, if◌then◌else◌, min, max,
}
use ats_smart_backend.Search.{Text}
use ats_smart_backend.Search.Words.{find_words}
use ats_smart_backend.Experience.Duration.{occurs}
use ats_smart_backend.Matching.Scores.{Fraction, whole, weighted, plus}

abbrev pub skill_match_weight : ℕ
skill_match_weight = 50

abbrev pub title_match_weight : ℕ
title_match_weight = 15

abbrev pub seniority_match_weight : ℕ
seniority_match_weight = 15

abbrev pub education_match_weight : ℕ
education_match_weight = 8

abbrev pub location_match_weight : ℕ
location_match_weight = 8

abbrev pub secondary_keywords_weight : ℕ
secondary_keywords_weight = 4

unfoldable pub is_among : List Text → Text → Bool
unfolding any
is_among texts text = any (λ t. eq_codes t text) texts

-- A set of texts: each one once
unfoldable pub distinct : List Text → List Text
unfolding is_among
distinct [] = []
distinct (t ∷ texts) = let rest = distinct texts in if is_among rest t then rest else t ∷ rest

unfoldable pub lookup : {A : Type 0} → Text → List (Text × A) → Option A
lookup key [] = none
lookup key ((k, value) ∷ rows) =
    let rest = lookup key rows in if eq_codes k key then some value else rest

-- `_SENIORITY_YEAR_RANGES`: the lower ends, the only ones that are used
abbrev pub seniority_years : List (Text × ℕ)
seniority_years =
    (codes "junior", 0)
    ∷ (codes "mid-level", 2)
    ∷ (codes "mid", 2)
    ∷ (codes "senior", 5)
    ∷ (codes "lead", 8)
    ∷ (codes "principal", 10)
    ∷ []

-- `_STOPWORDS`: four Persian words by their code points, and seven English ones
abbrev pub stopwords : List Text
stopwords =
    (0x0648 ∷ [])
    ∷ (0x062f ∷ 0x0631 ∷ [])
    ∷ (0x0628 ∷ 0x0631 ∷ 0x0627 ∷ 0x06cc ∷ [])
    ∷ (0x0628 ∷ 0x0627 ∷ [])
    ∷ codes "the"
    ∷ codes "a"
    ∷ codes "an"
    ∷ codes "of"
    ∷ codes "and"
    ∷ codes "for"
    ∷ codes "to"
    ∷ []

-- `_EDUCATION_LEVEL_RANKS`
abbrev pub education_ranks : List (Text × ℕ)
education_ranks =
    ((0x062f ∷ 0x06cc ∷ 0x067e ∷ 0x0644 ∷ 0x0645 ∷ []), 1)
    ∷ (codes "diploma", 1)
    ∷ ((0x06a9 ∷ 0x0627 ∷ 0x0631 ∷ 0x062f ∷ 0x0627 ∷ 0x0646 ∷ 0x06cc ∷ []), 2)
    ∷ (codes "associate", 2)
    ∷ ((0x06a9 ∷ 0x0627 ∷ 0x0631 ∷ 0x0634 ∷ 0x0646 ∷ 0x0627 ∷ 0x0633 ∷ 0x06cc ∷ []), 3)
    ∷ (codes "bachelor", 3)
    ∷ (codes "b.sc", 3)
    ∷ (
      (0x06a9 ∷ 0x0627 ∷ 0x0631 ∷ 0x0634 ∷ 0x0646 ∷ 0x0627 ∷ 0x0633 ∷ 0x06cc ∷ 0x0020 ∷ 0x0627
          ∷ 0x0631 ∷ 0x0634 ∷ 0x062f ∷ []),
      4,
    )
    ∷ (codes "master", 4)
    ∷ (codes "m.sc", 4)
    ∷ (codes "mba", 4)
    ∷ ((0x062f ∷ 0x06a9 ∷ 0x062a ∷ 0x0631 ∷ 0x06cc ∷ []), 5)
    ∷ (codes "phd", 5)
    ∷ (codes "ph.d", 5)
    ∷ []

pub record Job : Type 0 where
  pub skills_required : List Text
  pub title : Text
  pub required_seniority : Text
  pub required_education : Text
  pub location : Text
  pub description : Text

pub record Applicant : Type 0 where
  pub skills : List Text
  pub job_titles : List Text
  pub total_experience_years : Fraction
  pub degrees : List Text
  pub location : Text

-- The scores in hundredths of a point
pub record Result : Type 0 where
  pub final_score : ℕ
  pub skill_match : ℕ
  pub title_match : ℕ
  pub seniority_match : ℕ
  pub education_match : ℕ
  pub location_match : ℕ
  pub secondary_keywords_match : ℕ
  pub matched_required_skills : List Text

-- A loop that keeps the best
unfoldable pub best_of : List ℕ → ℕ
best_of [] = 0
best_of (n ∷ ns) = max (best_of ns) n

-- `str.lower`, the classes of characters, and app/core/skill_graph.py
pub record Language : Type 0 where
  pub lower : Text → Text
  pub is_word : ℕ → Bool
  pub is_space : ℕ → Bool
  pub get_core_skill : Text → Text
  pub match_skills : Text → List Text

module _ (lang : Language) where
  unfoldable pub has_skill : List Text → Text → Bool
  unfolding is_among
  has_skill candidate_skills skill = is_among (map lang.lower candidate_skills) (lang.lower skill)

  unfoldable pub matched_skills : List Text → List Text → List Text
  unfolding has_skill filter
  matched_skills required_skills candidate_skills =
      filter
        (λ skill.
          has_skill candidate_skills skill
          || has_skill candidate_skills (lang.get_core_skill skill))
        required_skills

  unfoldable pub calculate_skill_match_score : List Text → List Text → Fraction
  unfolding matched_skills weighted whole
  calculate_skill_match_score [] candidate_skills = whole skill_match_weight
  calculate_skill_match_score (skill ∷ required_skills) candidate_skills =
      weighted skill_match_weight
        (length (matched_skills (skill ∷ required_skills) candidate_skills))
        (length (skill ∷ required_skills))

  unfoldable pub extract_significant_words : Text → List Text
  unfolding find_words distinct is_among filter
  extract_significant_words text = distinct (
      filter (λ word. not (is_among stopwords word) && ltb 1 (length word))
        (find_words (λ c. lang.is_word c || (leb 0x0600 c && leb c 0x06ff)) [] (lang.lower text)))

  -- The significant words that two titles share
  unfoldable pub overlap : List Text → Text → ℕ
  unfolding extract_significant_words is_among filter
  overlap job_title_words [] = 0
  overlap job_title_words (c ∷ candidate_title) =
      length (filter (is_among (extract_significant_words (c ∷ candidate_title))) job_title_words)

  unfoldable pub calculate_title_match_score : Text → List Text → Fraction
  unfolding extract_significant_words overlap best_of weighted whole
  calculate_title_match_score job_title [] = whole 0
  calculate_title_match_score job_title (title ∷ titles) =
      elim (extract_significant_words job_title) [
        | [] ↦ whole title_match_weight
        | word ∷ words ↦
            weighted title_match_weight (best_of (map (overlap (word ∷ words)) (title ∷ titles)))
              (length (word ∷ words))
      ]

  unfoldable pub calculate_seniority_match_score : Text → Fraction → Fraction
  unfolding lookup weighted whole strip
  calculate_seniority_match_score [] total_experience_years = whole seniority_match_weight
  calculate_seniority_match_score (c ∷ required_seniority) total_experience_years =
      elim (lookup (lang.lower (strip lang.is_space (c ∷ required_seniority))) seniority_years) [
        | none ↦ whole seniority_match_weight
        | some min_years ↦
            if min_years == 0
              || leb (min_years * total_experience_years.den) total_experience_years.num
            then whole seniority_match_weight
            else weighted seniority_match_weight total_experience_years.num
                (min_years * total_experience_years.den)
      ]

  unfoldable pub rank_of : Text → ℕ
  unfolding lookup strip
  rank_of degree = elim (lookup (lang.lower (strip lang.is_space degree)) education_ranks) [
    | none ↦ 0
    | some rank ↦ rank
  ]

  unfoldable pub highest_education_rank : List Text → ℕ
  unfolding rank_of best_of
  highest_education_rank degrees = best_of (map rank_of degrees)

  unfoldable pub calculate_education_match_score : Text → List Text → Fraction
  unfolding lookup highest_education_rank weighted whole strip
  calculate_education_match_score [] degrees = whole education_match_weight
  calculate_education_match_score (c ∷ required_education) degrees =
      elim (lookup (lang.lower (strip lang.is_space (c ∷ required_education))) education_ranks) [
        | none ↦ whole education_match_weight
        | some required_rank ↦
            let candidate_rank = highest_education_rank degrees in
            if candidate_rank == 0
            then whole 0
            else if leb required_rank candidate_rank
            then whole education_match_weight
            else weighted education_match_weight candidate_rank required_rank
      ]

  unfoldable pub calculate_location_match_score : Text → Text → Fraction
  unfolding whole strip occurs
  calculate_location_match_score [] candidate_location = whole location_match_weight
  calculate_location_match_score (c ∷ job_location) [] = whole location_match_weight
  calculate_location_match_score (c ∷ job_location) (d ∷ candidate_location) =
      let there = lang.lower (strip lang.is_space (c ∷ job_location)) in
      let here = lang.lower (strip lang.is_space (d ∷ candidate_location)) in
      if eq_codes there here
      then whole location_match_weight
      else if occurs there here || occurs here there
      then weighted location_match_weight 7 10
      else whole 0

  unfoldable pub calculate_secondary_keywords_score : Text → List Text → Fraction
  unfolding has_skill distinct filter weighted whole
  calculate_secondary_keywords_score [] candidate_skills = whole secondary_keywords_weight
  calculate_secondary_keywords_score (c ∷ job_description) candidate_skills =
      elim (distinct (lang.match_skills (c ∷ job_description))) [
        | [] ↦ whole secondary_keywords_weight
        | skill ∷ skills ↦
            weighted secondary_keywords_weight
              (length (filter (has_skill candidate_skills) (skill ∷ skills)))
              (length (skill ∷ skills))
      ]

  -- The sum of the six scores, from left to right
  unfoldable pub total_score : Job → Applicant → Fraction
  unfolding calculate_skill_match_score calculate_title_match_score calculate_seniority_match_score
      calculate_education_match_score calculate_location_match_score
      calculate_secondary_keywords_score plus
  total_score job candidate =
      plus
        (plus
          (plus
            (plus
              (plus (calculate_skill_match_score job.skills_required candidate.skills)
                (calculate_title_match_score job.title candidate.job_titles))
              (calculate_seniority_match_score job.required_seniority
                candidate.total_experience_years))
            (calculate_education_match_score job.required_education candidate.degrees))
          (calculate_location_match_score job.location candidate.location))
        (calculate_secondary_keywords_score job.description candidate.skills)

  unfoldable pub calculate_matching_score : (Fraction → ℕ) → Job → Applicant → Result
  unfolding total_score
  calculate_matching_score round job candidate = record {
    final_score = min 10000 (round (total_score job candidate));
    skill_match = round (calculate_skill_match_score job.skills_required candidate.skills);
    title_match = round (calculate_title_match_score job.title candidate.job_titles);
    seniority_match =
        round
          (calculate_seniority_match_score job.required_seniority candidate.total_experience_years);
    education_match =
        round (calculate_education_match_score job.required_education candidate.degrees);
    location_match = round (calculate_location_match_score job.location candidate.location);
    secondary_keywords_match =
        round (calculate_secondary_keywords_score job.description candidate.skills);
    matched_required_skills = matched_skills job.skills_required candidate.skills;
  }
