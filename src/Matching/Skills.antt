-- ===== src/Matching/Skills.antt =====
-- What a further skill of the candidate does to the score.
use ats_smart_backend.Prelude.{
  eq_codes, ℕ, ◌≤◌, ◌≡◌, refl, ap, Bool, true, List, [], ◌∷◌, ◌++◌, map, any, filter, length, ◌||◌,
  arith, Bool-cases, inl, inr,
}
use ats_smart_backend.Search.{Text}
use ats_smart_backend.Matching.Scores.{
  Fraction, whole, weighted, AtLeast, AtLeast-refl, weighted-AtLeast, plus-AtLeast,
}
use ats_smart_backend.Matching.{
  Language, Job, Applicant, is_among, distinct, has_skill, matched_skills,
  calculate_skill_match_score, calculate_secondary_keywords_score, total_score,
  calculate_matching_score,
}

-- A test that passes wherever another does, passes at least as often.
length-filter-imp :
    {A : Type 0} (p q : A → Bool) (l : List A)
    → ((x : A) → p x ≡ true → q x ≡ true)
    → length (filter p l) ≤ length (filter q l)
unfolding filter
length-filter-imp p q [] h = omega arith
length-filter-imp p q (x ∷ l) h = elim (Bool-cases (p x)) [
  | inl here ↦ rw (here, h x here) (omega (arith, length-filter-imp p q l h))
  | inr gone ↦ rw gone (elim (Bool-cases (q x)) [
    | inl new ↦ rw new (omega (arith, length-filter-imp p q l h))
    | inr gone_too ↦ rw gone_too (length-filter-imp p q l h)
  ])
]

any-append_right :
    {A : Type 0} (p : A → Bool) (extra l : List A) → any p l ≡ true → any p (extra ++ l) ≡ true
unfolding any
any-append_right p [] l h = h
any-append_right p (x ∷ extra) l h = ground (arith, any-append_right p extra l h)

or_mono :
    {a b c d : Bool}
    → (a ≡ true → c ≡ true)
    → (b ≡ true → d ≡ true)
    → (a || b) ≡ true
    → (c || d) ≡ true
or_mono f g h = ground (arith, f, g)

map-append : {A B : Type 0} (f : A → B) (a b : List A) → map f (a ++ b) ≡ map f a ++ map f b
map-append f [] b = refl
map-append f (x ∷ a) b = ap (λ t. f x ∷ t) (map-append f a b)

unfoldable pub with_skills : List Text → Applicant → Applicant
with_skills extra candidate = record candidate { skills = extra ++ candidate.skills }

-- Rounding that keeps the order of two scores out of the same number
unfoldable pub IsMonotone : (Fraction → ℕ) → Type 0
IsMonotone round = (x y : Fraction) → AtLeast x y → round x ≤ round y

module _ (lang : Language) where
  -- One more skill, wherever it is listed, keeps the skills that a candidate has.
  has_skill-append :
      (extra skills : List Text) (skill : Text)
      → has_skill lang skills skill ≡ true
      → has_skill lang (extra ++ skills) skill ≡ true
  unfolding has_skill is_among
  has_skill-append extra skills skill h = rw (map-append lang.lower extra skills) (
      any-append_right (λ t. eq_codes t (lang.lower skill)) (map lang.lower extra)
        (map lang.lower skills) h)

  skill-AtLeast :
      (required extra skills : List Text)
      → AtLeast
          (calculate_skill_match_score lang required skills)
          (calculate_skill_match_score lang required (extra ++ skills))
  unfolding calculate_skill_match_score matched_skills
  skill-AtLeast [] extra skills = AtLeast-refl (whole 50)
  skill-AtLeast (skill ∷ required) extra skills =
      weighted-AtLeast 50 (length (matched_skills lang (skill ∷ required) skills))
        (length (matched_skills lang (skill ∷ required) (extra ++ skills)))
        (length (skill ∷ required))
        (length-filter-imp
          (λ s. has_skill lang skills s || has_skill lang skills (lang.get_core_skill s))
          (λ s.
            has_skill lang (extra ++ skills) s
            || has_skill lang (extra ++ skills) (lang.get_core_skill s))
          (skill ∷ required)
          (λ s.
            or_mono (has_skill-append extra skills s)
              (has_skill-append extra skills (lang.get_core_skill s))))

  secondary-AtLeast :
      (description : Text) (extra skills : List Text)
      → AtLeast
          (calculate_secondary_keywords_score lang description skills)
          (calculate_secondary_keywords_score lang description (extra ++ skills))
  unfolding calculate_secondary_keywords_score
  secondary-AtLeast [] extra skills = AtLeast-refl (whole 4)
  secondary-AtLeast (c ∷ description) extra skills =
      by_skills (distinct (lang.match_skills (c ∷ description)))
    where
      by_skills :
          (found : List Text)
          → AtLeast
              (elim found as (λ _. Fraction) [
                | [] ↦ whole 4
                | s ∷ ss ↦
                    weighted 4 (length (filter (has_skill lang skills) (s ∷ ss))) (length (s ∷ ss))
              ])
              (elim found as (λ _. Fraction) [
                | [] ↦ whole 4
                | s ∷ ss ↦
                    weighted 4
                      (length (filter (has_skill lang (extra ++ skills)) (s ∷ ss)))
                      (length (s ∷ ss))
              ])
      by_skills [] = AtLeast-refl (whole 4)
      by_skills (s ∷ ss) =
          weighted-AtLeast 4 (length (filter (has_skill lang skills) (s ∷ ss)))
            (length (filter (has_skill lang (extra ++ skills)) (s ∷ ss))) (length (s ∷ ss))
            (length-filter-imp (has_skill lang skills) (has_skill lang (extra ++ skills)) (s ∷ ss)
              (has_skill-append extra skills))

  total_score-AtLeast :
      (job : Job) (candidate : Applicant) (extra : List Text)
      → AtLeast
          (total_score lang job candidate)
          (total_score lang job (with_skills extra candidate))
  unfolding total_score with_skills
  total_score-AtLeast job candidate extra =
      plus-AtLeast _ _ _ _
        (plus-AtLeast _ _ _ _
          (plus-AtLeast _ _ _ _
            (plus-AtLeast _ _ _ _
              (plus-AtLeast _ _ _ _ (skill-AtLeast job.skills_required extra candidate.skills)
                (AtLeast-refl _))
              (AtLeast-refl _))
            (AtLeast-refl _))
          (AtLeast-refl _))
        (secondary-AtLeast job.description extra candidate.skills)

  -- Further skills, put before those of a candidate, never lower the final score for any job, when rounding
  -- keeps the order of two scores with one denominator.
  pub calculate_matching_score-with_skills :
      (round : Fraction → ℕ) (job : Job) (candidate : Applicant) (extra : List Text)
      → IsMonotone round
      → (calculate_matching_score lang round job candidate).final_score
        ≤ (calculate_matching_score lang round job (with_skills extra candidate)).final_score
  unfolding calculate_matching_score IsMonotone
  calculate_matching_score-with_skills round job candidate extra monotone = omega (
    arith,
    monotone (total_score lang job candidate) (total_score lang job (with_skills extra candidate))
        (total_score-AtLeast job candidate extra),
  )
