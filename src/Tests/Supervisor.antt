-- ===== src/Tests/Supervisor.antt =====
-- One analysis with an exaggerated skill and an agent that timed out.
use ats_smart_backend.Prelude.{
  ℕ, ◌*◌, ◌/◌, ◌≡◌, refl, Bool, true, false, Option, none, some, String, List, [], ◌∷◌, All, any,
}
use ats_smart_backend.Supervisor.{
  culture_fit_soft_skills, experience_validation, skill_extraction, SkillItem, SoftSkill,
  Experience, Payload, missing, output, aggregate, partial, over_claims,
}
use ats_smart_backend.Supervisor.Conflicts.{
  aggregate-capped, aggregate-status, names-aggregate, names, grade, is_down,
}

abbrev capped : ℕ → ℕ
capped c = 70 * c / 100

abbrev halved : ℕ → ℕ
halved s = s / 2

abbrev leads : Option String → Bool
leads title = false

abbrev skills : List SkillItem
skills =
    record { name = "python"; confidence = 90; claimed_years = some 1200 }
    ∷ record { name = "sql"; confidence = 80; claimed_years = none }
    ∷ []

abbrev history : Experience
history = record {
  entries = record { job_title = none; is_valid = true } ∷ [];
  total_experience_years = 400;
  claimed_total_years = some 500;
}

abbrev soft : Payload (List SoftSkill)
soft = missing

status_partial :
    (aggregate capped halved leads (output skills) (output history) soft []).status ≡ partial
unfolding aggregate
status_partial = refl

has_valid_row : any (λ entry. entry.is_valid) history.entries ≡ true
unfolding any
has_valid_row = refl

aggregate-capped_example :
    All
      (λ item. over_claims 400 item.claimed_years ≡ false)
      (aggregate capped halved leads (output skills) (output history) soft []).skill_items
aggregate-capped_example =
    aggregate-capped capped halved leads (output skills) history soft [] has_valid_row

names-aggregate_example :
    names capped halved leads
      (aggregate capped halved leads (output skills) (output history) soft []).skill_items
    ≡ names capped halved leads skills
names-aggregate_example = names-aggregate capped halved leads skills (output history) soft []

aggregate-status_example :
    (aggregate capped halved leads (output skills) (output history) soft []).status
    ≡ grade
        (is_down skill_extraction (output skills) [])
        (is_down experience_validation (output history) [])
        (is_down culture_fit_soft_skills soft [])
aggregate-status_example =
    aggregate-status capped halved leads (output skills) (output history) soft []
