-- ===== src/Supervisor/Conflicts.antt =====
-- What the rules R1 to R4 of app/agents/supervisor.py guarantee of the analysis.
use ats_smart_backend.Prelude.{
  subst, ℕ, ◌≡◌, refl, sym, ◌∙◌, ap, Bool, true, false, Option, List, [], ◌∷◌, ◌++◌, String, arith,
  All, ◌&&◌, ◌||◌, any, not, Bool-cases, inl, inr, map, filter,
}
use mathlib.Core.Bool.{false≢true}
use ats_smart_backend.Supervisor.{
  Agent, skill_extraction, experience_validation, culture_fit_soft_skills, SkillItem, SoftSkill,
  Experience, Payload, output, Settled, completed, failed, settle, has_error, record_failure,
  status_of, Status, all_completed, partial, all_failed, cap_skill, cap_skills, over_claims, unify,
  aggregate, is_completed, value_or, same_agent,
}

module _ (capped halved : ℕ → ℕ) (has_leadership_title : Option String → Bool) where
  over_claims-cap_skill :
      (years : ℕ) (item : SkillItem)
      → over_claims years
          (cap_skill capped halved has_leadership_title true years item).claimed_years
        ≡ false
  unfolding cap_skill over_claims
  over_claims-cap_skill years item = elim (Bool-cases (over_claims years item.claimed_years)) [
    | inl over ↦ rw over (ground arith)
    | inr fine ↦ rw fine fine
  ]

  over_claims-cap_skills :
      (years : ℕ) (items : List SkillItem)
      → All
          (λ item. over_claims years item.claimed_years ≡ false)
          (cap_skills capped halved has_leadership_title true years items)
  unfolding cap_skills
  over_claims-cap_skills years [] = tt
  over_claims-cap_skills years (item ∷ items) =
      (over_claims-cap_skill years item, over_claims-cap_skills years items)

  -- R1: if the experience agent finished with at least one valid row, no skill of the analysis claims
  -- more than two years above the validated total.
  pub aggregate-capped :
      (skills : Payload (List SkillItem)) (history : Experience) (soft : Payload (List SoftSkill))
      (errors : List (Agent × String))
      → any (λ entry. entry.is_valid) history.entries ≡ true
      → All
          (λ item. over_claims history.total_experience_years item.claimed_years ≡ false)
          (aggregate capped halved has_leadership_title skills
            (output history)
            soft
            errors).skill_items
  unfolding aggregate settle unify value_or
  aggregate-capped skills history soft errors valid =
      rw valid (over_claims-cap_skills history.total_experience_years _)

  name-cap_skill :
      (b : Bool) (years : ℕ) (item : SkillItem)
      → (cap_skill capped halved has_leadership_title b years item).name ≡ item.name
  unfolding cap_skill
  name-cap_skill b years item = elim (Bool-cases (b && over_claims years item.claimed_years)) [
    | inl over ↦ rw over refl
    | inr fine ↦ rw fine refl
  ]

  unfoldable pub names : List SkillItem → List String
  names items = map (λ item. item.name) items

  names-cap_skills :
      (b : Bool) (years : ℕ) (items : List SkillItem)
      → names (cap_skills capped halved has_leadership_title b years items) ≡ names items
  unfolding cap_skills names
  names-cap_skills b years [] = refl
  names-cap_skills b years (item ∷ items) =
      rw (name-cap_skill b years item, names-cap_skills b years items) refl

  -- The rules drop, add, rename and reorder no skill of the skill agent.
  pub names-aggregate :
      (items : List SkillItem) (experience : Payload Experience) (soft : Payload (List SoftSkill))
      (errors : List (Agent × String))
      → names
          (aggregate capped halved has_leadership_title
            (output items)
            experience
            soft
            errors).skill_items
        ≡ names items
  unfolding aggregate settle unify value_or
  names-aggregate items experience soft errors = names-cap_skills _ _ items

-- An agent is down if the graph recorded an error of it, or if it left no finished output.
unfoldable pub is_down : {A : Type 0} → Agent → Payload A → List (Agent × String) → Bool
is_down agent payload errors =
    has_error agent errors || not (is_completed (settle payload "no_output"))

unfoldable pub grade : Bool → Bool → Bool → Status
grade false false false = all_completed
grade true true true = all_failed
grade _ _ _ = partial

has_error-append :
    (a b : Agent) (e : String) (errors : List (Agent × String))
    → has_error a (errors ++ ((b, e) ∷ [])) ≡ has_error a errors || same_agent a b
unfolding has_error any
has_error-append a b e [] = or_false (same_agent a b)
  where
    or_false : (x : Bool) → x || false ≡ x
    or_false true = refl
    or_false false = refl
has_error-append a b e (x ∷ errors) =
    ap (λ t. same_agent a x.0 || t) (has_error-append a b e errors)
    ∙ sym (or_assoc (same_agent a x.0) _ _)
  where
    or_assoc : (x y z : Bool) → (x || y) || z ≡ x || (y || z)
    or_assoc true y z = refl
    or_assoc false y z = refl

same_agent-eq : (a b : Agent) → same_agent a b ≡ true → a ≡ b
unfolding same_agent
same_agent-eq skill_extraction skill_extraction h = refl
same_agent-eq experience_validation experience_validation h = refl
same_agent-eq culture_fit_soft_skills culture_fit_soft_skills h = refl
same_agent-eq skill_extraction experience_validation h = absurd (false≢true h)
same_agent-eq skill_extraction culture_fit_soft_skills h = absurd (false≢true h)
same_agent-eq experience_validation skill_extraction h = absurd (false≢true h)
same_agent-eq experience_validation culture_fit_soft_skills h = absurd (false≢true h)
same_agent-eq culture_fit_soft_skills skill_extraction h = absurd (false≢true h)
same_agent-eq culture_fit_soft_skills experience_validation h = absurd (false≢true h)

absorb : (x y : Bool) → (y ≡ true → x ≡ true) → x ≡ x || y
absorb true y h = refl
absorb false true h = h refl
absorb false false h = refl

and_true : (x : Bool) → x && true ≡ x
and_true true = refl
and_true false = refl

same_error :
    (a b : Agent) (errors : List (Agent × String))
    → has_error b errors ≡ true
    → same_agent a b && true ≡ true
    → has_error a errors ≡ true
same_error a b errors known h =
    subst (λ t. has_error t errors ≡ true)
      (sym (same_agent-eq a b (sym (and_true (same_agent a b)) ∙ h))) known

has_error-record_failure :
    {A : Type 0} (a b : Agent) (s : Settled A) (errors : List (Agent × String))
    → has_error a (record_failure b s errors)
      ≡ has_error a errors || (same_agent a b && not (is_completed s))
unfolding record_failure is_completed
has_error-record_failure a b (completed x) errors =
    absorb _ _ (λ h. absurd (not_true (same_agent a b) h))
  where
    not_true : (x : Bool) → x && false ≡ true → ⊥
    not_true true h = false≢true h
    not_true false h = false≢true h
has_error-record_failure a b (failed e) errors = elim (Bool-cases (has_error b errors)) [
  | inl known ↦ rw known (absorb _ _ (λ h. same_error a b errors known h))
  | inr new ↦ rw new (
      has_error-append a b e errors
      ∙ ap (λ t. has_error a errors || t) (sym (and_true (same_agent a b))))
]

status_of-grade :
    (errors : List (Agent × String))
    → status_of errors
      ≡ grade
          (has_error skill_extraction errors)
          (has_error experience_validation errors)
          (has_error culture_fit_soft_skills errors)
unfolding status_of grade filter
status_of-grade errors = ground arith

has_error-all :
    (agent : Agent) (skills : Settled (List SkillItem)) (experience : Settled Experience)
    (soft : Settled (List SoftSkill)) (errors : List (Agent × String))
    → has_error agent (
        record_failure culture_fit_soft_skills soft (
          record_failure experience_validation experience
            (record_failure skill_extraction skills errors)))
      ≡ ((has_error agent errors
            || (same_agent agent skill_extraction && not (is_completed skills)))
          || (same_agent agent experience_validation && not (is_completed experience)))
        || (same_agent agent culture_fit_soft_skills && not (is_completed soft))
has_error-all agent skills experience soft errors =
    has_error-record_failure agent culture_fit_soft_skills soft _
    ∙ ap (λ t. t || (same_agent agent culture_fit_soft_skills && not (is_completed soft)))
        (has_error-record_failure agent experience_validation experience _
          ∙ ap (λ t. t || (same_agent agent experience_validation && not (is_completed experience)))
              (has_error-record_failure agent skill_extraction skills errors))

first_only : (e d x y : Bool) → ((e || (true && d)) || (false && x)) || (false && y) ≡ e || d
first_only e d x y = ground arith

second_only : (e d x y : Bool) → ((e || (false && x)) || (true && d)) || (false && y) ≡ e || d
second_only e d x y = ground arith

third_only : (e d x y : Bool) → ((e || (false && x)) || (false && y)) || (true && d) ≡ e || d
third_only e d x y = ground arith

grade-eq : {a b c a' b' c' : Bool} → a ≡ a' → b ≡ b' → c ≡ c' → grade a b c ≡ grade a' b' c'
grade-eq {a} {b} {c} {a'} {b'} {c'} p q r =
    ap (λ t. grade t b c) p ∙ ap (λ t. grade a' t c) q ∙ ap (λ t. grade a' b' t) r

module _ (skills : Settled (List SkillItem)) (experience : Settled Experience)
    (soft : Settled (List SoftSkill)) (errors : List (Agent × String)) where
  all_errors : List (Agent × String)
  all_errors = record_failure culture_fit_soft_skills soft (
      record_failure experience_validation experience
        (record_failure skill_extraction skills errors))

  grade-all_errors :
      grade
        (has_error skill_extraction all_errors)
        (has_error experience_validation all_errors)
        (has_error culture_fit_soft_skills all_errors)
      ≡ grade
          (has_error skill_extraction errors || not (is_completed skills))
          (has_error experience_validation errors || not (is_completed experience))
          (has_error culture_fit_soft_skills errors || not (is_completed soft))
  unfolding all_errors same_agent
  grade-all_errors =
      grade-eq
        (has_error-all skill_extraction skills experience soft errors
          ∙ first_only (has_error skill_extraction errors) (not (is_completed skills))
              (not (is_completed experience)) (not (is_completed soft)))
        (has_error-all experience_validation skills experience soft errors
          ∙ second_only (has_error experience_validation errors) (not (is_completed experience))
              (not (is_completed skills)) (not (is_completed soft)))
        (has_error-all culture_fit_soft_skills skills experience soft errors
          ∙ third_only (has_error culture_fit_soft_skills errors) (not (is_completed soft))
              (not (is_completed skills)) (not (is_completed experience)))

  status_of-all_errors :
      status_of all_errors
      ≡ grade
          (has_error skill_extraction errors || not (is_completed skills))
          (has_error experience_validation errors || not (is_completed experience))
          (has_error culture_fit_soft_skills errors || not (is_completed soft))
  status_of-all_errors = status_of-grade all_errors ∙ grade-all_errors

-- R4: the analysis is complete if no agent is down, failed if all three are, and partial otherwise; an
-- error that the graph recorded before counts even beside a finished output.
pub aggregate-status :
    (capped halved : ℕ → ℕ) (has_leadership_title : Option String → Bool)
    (skills : Payload (List SkillItem)) (experience : Payload Experience)
    (soft : Payload (List SoftSkill)) (errors : List (Agent × String))
    → (aggregate capped halved has_leadership_title skills experience soft errors).status
      ≡ grade
          (is_down skill_extraction skills errors)
          (is_down experience_validation experience errors)
          (is_down culture_fit_soft_skills soft errors)
unfolding aggregate unify is_down all_errors
aggregate-status capped halved has_leadership_title skills experience soft errors =
    status_of-all_errors (settle skills "no_output") (settle experience "no_output")
      (settle soft "no_output") errors
