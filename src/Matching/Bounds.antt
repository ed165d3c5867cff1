-- ===== src/Matching/Bounds.antt =====
-- The range of each of the six scores, and of their sum.
use ats_smart_backend.Prelude.{
  eq_codes, strip, ℕ, ◌*◌, ◌≤◌, Bool, true, false, Option, none, some, List, [], ◌∷◌, map, filter,
  length, length-filter-le, leb, ◌==◌, ◌||◌, if◌then◌else◌, arith, All, Bool-cases, inl, inr,
}
use ats_smart_backend.Search.{Text}
use ats_smart_backend.Experience.Duration.{occurs}
use ats_smart_backend.Matching.Scores.{
  none-AtMost, Fraction, whole, weighted, AtMost, whole-AtMost, weighted-AtMost, plus-AtMost,
}
use ats_smart_backend.Matching.{
  Language, Job, Applicant, best_of, is_among, distinct, lookup, seniority_years, education_ranks,
  has_skill, matched_skills, calculate_skill_match_score, extract_significant_words, overlap,
  calculate_title_match_score, calculate_seniority_match_score, highest_education_rank,
  calculate_education_match_score, calculate_location_match_score,
  calculate_secondary_keywords_score, total_score,
}

best_of-le : (ns : List ℕ) (n : ℕ) → All (λ m. m ≤ n) ns → best_of ns ≤ n
unfolding best_of
best_of-le [] n h = omega arith
best_of-le (m ∷ ns) n h = omega (arith, best_of-le ns n h.1, h.0)

All-map :
    {A : Type 0} (P : ℕ → Type 0) (f : A → ℕ) (l : List A) → ((x : A) → P (f x)) → All P (map f l)
All-map P f [] h = tt
All-map P f (x ∷ l) h = (h x, All-map P f l h)

module _ (lang : Language) where
  length-matched_skills :
      (required skills : List Text) → length (matched_skills lang required skills) ≤ length required
  unfolding matched_skills
  length-matched_skills required skills =
      length-filter-le
        (λ skill. has_skill lang skills skill || has_skill lang skills (lang.get_core_skill skill))
        required

  skill-AtMost :
      (required skills : List Text) → AtMost 50 (calculate_skill_match_score lang required skills)
  unfolding calculate_skill_match_score
  skill-AtMost [] skills = whole-AtMost 50
  skill-AtMost (skill ∷ required) skills =
      weighted-AtMost 50 _ _ (length-matched_skills (skill ∷ required) skills)

  overlap-le : (words : List Text) (title : Text) → overlap lang words title ≤ length words
  unfolding overlap
  overlap-le words [] = omega arith
  overlap-le words (c ∷ title) =
      length-filter-le (is_among (extract_significant_words lang (c ∷ title))) words

  title-AtMost :
      (job_title : Text) (titles : List Text)
      → AtMost 15 (calculate_title_match_score lang job_title titles)
  unfolding calculate_title_match_score
  title-AtMost job_title [] = none-AtMost 15
  title-AtMost job_title (title ∷ titles) = by_words (extract_significant_words lang job_title)
    where
      by_words :
          (words : List Text)
          → AtMost 15 (elim words as (λ _. Fraction) [
            | [] ↦ whole 15
            | w ∷ ws ↦
                weighted 15
                  (best_of (map (overlap lang (w ∷ ws)) (title ∷ titles)))
                  (length (w ∷ ws))
          ])
      by_words [] = whole-AtMost 15
      by_words (w ∷ ws) =
          weighted-AtMost 15 (best_of (map (overlap lang (w ∷ ws)) (title ∷ titles)))
            (length (w ∷ ws))
            (best_of-le (map (overlap lang (w ∷ ws)) (title ∷ titles)) (length (w ∷ ws)) (
              All-map (λ n. n ≤ length (w ∷ ws)) (overlap lang (w ∷ ws)) (title ∷ titles)
                (overlap-le (w ∷ ws))))

  seniority-AtMost :
      (required : Text) (years : Fraction)
      → AtMost 15 (calculate_seniority_match_score lang required years)
  unfolding calculate_seniority_match_score
  seniority-AtMost [] years = whole-AtMost 15
  seniority-AtMost (c ∷ required) years =
      by_range (lookup (lang.lower (strip lang.is_space (c ∷ required))) seniority_years)
    where
      by_range :
          (o : Option ℕ)
          → AtMost 15 (elim o as (λ _. Fraction) [
            | none ↦ whole 15
            | some min_years ↦
                if min_years == 0 || leb (min_years * years.den) years.num
                then whole 15
                else weighted 15 years.num (min_years * years.den)
          ])
      by_range none = whole-AtMost 15
      by_range (some min_years) =
          elim (Bool-cases (min_years == 0 || leb (min_years * years.den) years.num)) [
            | inl enough ↦ rw enough (whole-AtMost 15)
            | inr short ↦
                rw short (weighted-AtMost 15 years.num (min_years * years.den) (ground arith))
          ]

  education-AtMost :
      (required : Text) (degrees : List Text)
      → AtMost 8 (calculate_education_match_score lang required degrees)
  unfolding calculate_education_match_score
  education-AtMost [] degrees = whole-AtMost 8
  education-AtMost (c ∷ required) degrees =
      by_rank (highest_education_rank lang degrees)
        (lookup (lang.lower (strip lang.is_space (c ∷ required))) education_ranks)
    where
      by_rank :
          (rank : ℕ) (o : Option ℕ)
          → AtMost 8 (elim o as (λ _. Fraction) [
            | none ↦ whole 8
            | some required_rank ↦
                if rank == 0
                then whole 0
                else if leb required_rank rank
                then whole 8
                else weighted 8 rank required_rank
          ])
      by_rank rank none = whole-AtMost 8
      by_rank rank (some required_rank) = elim (Bool-cases (rank == 0)) [
        | inl without ↦ rw without (none-AtMost 8)
        | inr ranked ↦ rw ranked (elim (Bool-cases (leb required_rank rank)) [
          | inl enough ↦ rw enough (whole-AtMost 8)
          | inr short ↦ rw short (weighted-AtMost 8 rank required_rank (ground arith))
        ])
      ]

  location-AtMost :
      (job_location location : Text)
      → AtMost 8 (calculate_location_match_score lang job_location location)
  unfolding calculate_location_match_score
  location-AtMost [] location = whole-AtMost 8
  location-AtMost (c ∷ job_location) [] = whole-AtMost 8
  location-AtMost (c ∷ job_location) (d ∷ location) =
      by_tests
        (eq_codes (lang.lower (strip lang.is_space (c ∷ job_location)))
          (lang.lower (strip lang.is_space (d ∷ location))))
        (occurs (lang.lower (strip lang.is_space (c ∷ job_location)))
            (lang.lower (strip lang.is_space (d ∷ location)))
          || occurs (lang.lower (strip lang.is_space (d ∷ location)))
              (lang.lower (strip lang.is_space (c ∷ job_location))))
    where
      by_tests :
          (same within : Bool)
          → AtMost 8 (if same then whole 8 else if within then weighted 8 7 10 else whole 0)
      by_tests true within = whole-AtMost 8
      by_tests false true = weighted-AtMost 8 7 10 (omega arith)
      by_tests false false = none-AtMost 8

  secondary-AtMost :
      (description : Text) (skills : List Text)
      → AtMost 4 (calculate_secondary_keywords_score lang description skills)
  unfolding calculate_secondary_keywords_score
  secondary-AtMost [] skills = whole-AtMost 4
  secondary-AtMost (c ∷ description) skills =
      by_skills (distinct (lang.match_skills (c ∷ description)))
    where
      by_skills :
          (found : List Text)
          → AtMost 4 (elim found as (λ _. Fraction) [
            | [] ↦ whole 4
            | s ∷ ss ↦
                weighted 4 (length (filter (has_skill lang skills) (s ∷ ss))) (length (s ∷ ss))
          ])
      by_skills [] = whole-AtMost 4
      by_skills (s ∷ ss) =
          weighted-AtMost 4 (length (filter (has_skill lang skills) (s ∷ ss))) (length (s ∷ ss))
            (length-filter-le (has_skill lang skills) (s ∷ ss))

  -- The six scores never exceed 100 points together, for any job and any candidate, so that the bounds of
  -- the source only cut what rounding adds.
  pub total_score-AtMost :
      (job : Job) (candidate : Applicant) → AtMost 100 (total_score lang job candidate)
  unfolding total_score
  total_score-AtMost job candidate =
      plus-AtMost 96 4 _ _
        (plus-AtMost 88 8 _ _
          (plus-AtMost 80 8 _ _
            (plus-AtMost 65 15 _ _
              (plus-AtMost 50 15 _ _ (skill-AtMost job.skills_required candidate.skills)
                (title-AtMost job.title candidate.job_titles))
              (seniority-AtMost job.required_seniority candidate.total_experience_years))
            (education-AtMost job.required_education candidate.degrees))
          (location-AtMost job.location candidate.location))
        (secondary-AtMost job.description candidate.skills)
