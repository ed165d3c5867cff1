-- ===== src/Tests/Matching.antt =====
-- A job that asks for two skills, and a candidate who has one of them.
use ats_smart_backend.Prelude.{
  codes, ℕ, suc, zero, ◌+◌, ◌*◌, ◌/◌, ◌≤◌, ◌<◌, ◌≡◌, refl, Bool, List, [], ◌∷◌, ◌++◌, leb, ◌==◌,
  ◌&&◌, ◌||◌, map, if◌then◌else◌, ap, arith,
}
use native.Mathlib.Nat.{div-mul-le_self, le-div_iff_mul-le}
use ats_smart_backend.Search.{Text}
use ats_smart_backend.Matching.Scores.{Fraction, AtMost, AtLeast}
use ats_smart_backend.Matching.{
  Language, Job, Applicant, calculate_matching_score, total_score, extract_significant_words,
}
use ats_smart_backend.Matching.Bounds.{total_score-AtMost}
use ats_smart_backend.Matching.Skills.{
  with_skills, IsMonotone, calculate_matching_score-with_skills,
}

abbrev lower_letter : ℕ → ℕ
lower_letter c = if leb b'A' c && leb c b'Z' then c + 32 else c

abbrev english : Language
english = record {
  lower = map lower_letter;
  is_word = λ c. leb b'a' (lower_letter c) && leb (lower_letter c) b'z';
  is_space = λ c. c == b' ';
  get_core_skill = λ skill. skill;
  match_skills = λ text. codes "Redis" ∷ codes "Kafka" ∷ [];
}

-- Down to the hundredth
abbrev round : Fraction → ℕ
round score = (score.num * 100) / score.den

abbrev job : Job
job = record {
  skills_required = codes "Python" ∷ codes "Docker" ∷ [];
  title = codes "Senior Engineer of the Platform";
  required_seniority = codes " Senior";
  required_education = codes "Master";
  location = codes "Tehran";
  description = codes "Redis and Kafka";
}

abbrev candidate : Applicant
candidate = record {
  skills = codes "python" ∷ codes "redis" ∷ [];
  job_titles = codes "Clerk" ∷ codes "platform engineer" ∷ [];
  total_experience_years = record { num = 5; den = 2 };
  degrees = codes "Bachelor" ∷ [];
  location = codes "Tehran, Iran";
}

words :
    extract_significant_words english job.title
    ≡ codes "senior" ∷ codes "engineer" ∷ codes "platform" ∷ []
unfolding extract_significant_words ats_smart_backend.Search.Words.find_words
words = refl

-- 25 + 10 + 7.5 + 6 + 5.6 + 2
score : (calculate_matching_score english round job candidate).final_score ≡ 5610
unfolding calculate_matching_score ats_smart_backend.Prelude.strip
    ats_smart_backend.Experience.Duration.occurs
score = refl

matched :
    (calculate_matching_score english round job candidate).matched_required_skills
    ≡ codes "Python" ∷ []
unfolding calculate_matching_score
matched = refl

total_score-AtMost_example : AtMost 100 (total_score english job candidate)
total_score-AtMost_example = total_score-AtMost english job candidate

quotient_le : (m n d : ℕ) → m ≤ n → m / d ≤ n / d
quotient_le m n zero h = omega arith
quotient_le m n (suc d) h =
    (le-div_iff_mul-le {k = suc d} {x = m / suc d} {y = n} (omega arith)).1
      (omega (arith, div-mul-le_self m (suc d), h))

round_mono : IsMonotone round
unfolding IsMonotone AtLeast
round_mono x y h = rw (h.0) (quotient_le (x.num * 100) (y.num * 100) y.den (omega (arith, h.1)))

calculate_matching_score-with_skills_example :
    (calculate_matching_score english round job candidate).final_score
    ≤ (calculate_matching_score english round job
        (with_skills (codes "Docker" ∷ []) candidate)).final_score
calculate_matching_score-with_skills_example =
    calculate_matching_score-with_skills english round job candidate (codes "Docker" ∷ [])
      round_mono
