-- ===== src/Supervisor.antt =====
-- app/agents/supervisor.py: `_failed` and `aggregate`. Years, scores and confidences are in hundredths;
-- `capped` is a confidence times 0.7 and `halved` a score over 2, each rounded to two places as Python
-- does; `has_leadership_title` is the search of a title.
pub mod Conflicts
use ats_smart_backend.Prelude.{
  ℕ, ◌+◌, ◌-◌, ◌*◌, Bool, true, false, Option, none, some, List, [], ◌∷◌, ◌++◌, String, ltb,
  if◌then◌else◌, ◌&&◌, ◌||◌, not, any, str_eq, filter, length, ◌==◌,
}

pub data Agent : Type 0 where
  skill_extraction : Agent
  experience_validation : Agent
  culture_fit_soft_skills : Agent

unfoldable pub same_agent : Agent → Agent → Bool
same_agent skill_extraction skill_extraction = true
same_agent experience_validation experience_validation = true
same_agent culture_fit_soft_skills culture_fit_soft_skills = true
same_agent _ _ = false

-- `AGENTS`
abbrev pub agents : List Agent
agents = skill_extraction ∷ experience_validation ∷ culture_fit_soft_skills ∷ []

abbrev pub claim_tolerance_years : ℕ
claim_tolerance_years = 200

abbrev pub leadership_min_years : ℕ
leadership_min_years = 300

pub record SkillItem : Type 0 where
  pub name : String
  pub confidence : ℕ
  pub claimed_years : Option ℕ

pub record SoftSkill : Type 0 where
  pub key : String
  pub score : ℕ

pub record HistoryEntry : Type 0 where
  pub job_title : Option String
  pub is_valid : Bool

pub record Experience : Type 0 where
  pub entries : List HistoryEntry
  pub total_experience_years : ℕ
  pub claimed_total_years : Option ℕ

-- What an agent leaves in the graph's state: nothing, a failure, or its output.
pub data Payload (A : Type 0) : Type 0 where
  missing : Payload A
  failure : Option String → Payload A
  output : A → Payload A

pub data Settled (A : Type 0) : Type 0 where
  completed : A → Settled A
  failed : String → Settled A

-- `error or default_error`; an empty text counts as none.
error_or : Option String → String → String
error_or none default_error = default_error
error_or (some error) default_error = if str_eq error "" then default_error else error

-- `_failed`
unfoldable pub settle : {A : Type 0} → Payload A → String → Settled A
unfolding error_or
settle missing default_error = failed default_error
settle (failure error) default_error = failed (error_or error default_error)
settle (output a) default_error = completed a

pub data Conflict : Type 0 where
  agent_failed : Agent → Conflict
  skill_years_capped : String → Conflict
  claimed_total_overridden : Conflict
  leadership_unsupported : Conflict

pub data Status : Type 0 where
  all_completed : Status
  partial : Status
  all_failed : Status

-- `name in errors`
unfoldable pub has_error : Agent → List (Agent × String) → Bool
unfolding any same_agent
has_error agent errors = any (λ e. same_agent agent e.0) errors

-- One turn of the loop over the three outputs: `setdefault`, and the conflict.
unfoldable pub record_failure :
    {A : Type 0} → Agent → Settled A → List (Agent × String) → List (Agent × String)
unfolding has_error
record_failure agent (completed a) errors = errors
record_failure agent (failed error) errors =
    if has_error agent errors then errors else errors ++ ((agent, error) ∷ [])

failure_conflict : {A : Type 0} → Agent → Settled A → List Conflict
failure_conflict agent (completed a) = []
failure_conflict agent (failed error) = agent_failed agent ∷ []

value_or : {A : Type 0} → Settled A → A → A
value_or (completed a) default' = a
value_or (failed error) default' = default'

unfoldable pub is_completed : {A : Type 0} → Settled A → Bool
is_completed (completed a) = true
is_completed (failed error) = false

-- `claimed > validated_years + _CLAIM_TOLERANCE_YEARS`, if there is a claim
unfoldable pub over_claims : ℕ → Option ℕ → Bool
over_claims validated_years none = false
over_claims validated_years (some claim) = ltb (validated_years + claim_tolerance_years) claim

unfoldable pub status_of : List (Agent × String) → Status
unfolding has_error filter
status_of errors =
    let failed_agents = length (filter (λ agent. has_error agent errors) agents) in
    if failed_agents == 0
    then all_completed
    else if failed_agents == length agents
    then all_failed
    else partial

no_history : Experience
no_history = record { entries = []; total_experience_years = 0; claimed_total_years = none }

pub record UnifiedAnalysis : Type 0 where
  pub status : Status
  pub skill_items : List SkillItem
  pub total_years : ℕ
  pub soft_items : List SoftSkill
  pub conflicts_resolved : List Conflict
  pub errors : List (Agent × String)

module _ (capped halved : ℕ → ℕ) (has_leadership_title : Option String → Bool) where
  -- R1, for one skill
  unfoldable pub cap_skill : Bool → ℕ → SkillItem → SkillItem
  unfolding over_claims
  cap_skill has_history validated_years item =
      if has_history && over_claims validated_years item.claimed_years
      then record {
        name = item.name;
        confidence = capped item.confidence;
        claimed_years = some validated_years;
      }
      else item

  unfoldable pub cap_skills : Bool → ℕ → List SkillItem → List SkillItem
  unfolding cap_skill
  cap_skills has_history validated_years [] = []
  cap_skills has_history validated_years (item ∷ items) =
      cap_skill has_history validated_years item ∷ cap_skills has_history validated_years items

  unfoldable pub skill_conflicts : Bool → ℕ → List SkillItem → List Conflict
  unfolding over_claims
  skill_conflicts has_history validated_years [] = []
  skill_conflicts has_history validated_years (item ∷ items) =
      let rest = skill_conflicts has_history validated_years items in
      if has_history && over_claims validated_years item.claimed_years
      then skill_years_capped item.name ∷ rest
      else rest

  -- R3, for one soft skill of a history without a leading title
  unfoldable pub is_unsupported : Bool → ℕ → SoftSkill → Bool
  is_unsupported has_lead_title validated_years item =
      str_eq item.key "leadership"
      && (not has_lead_title && ltb validated_years leadership_min_years)

  unfoldable pub support : Bool → ℕ → List SoftSkill → List SoftSkill
  unfolding is_unsupported
  support has_lead_title validated_years [] = []
  support has_lead_title validated_years (item ∷ items) =
      let rest = support has_lead_title validated_years items in
      (if is_unsupported has_lead_title validated_years item
        then record { key = item.key; score = halved item.score }
        else item)
      ∷ rest

  unfoldable pub soft_conflicts : Bool → ℕ → List SoftSkill → List Conflict
  unfolding is_unsupported
  soft_conflicts has_lead_title validated_years [] = []
  soft_conflicts has_lead_title validated_years (item ∷ items) =
      let rest = soft_conflicts has_lead_title validated_years items in
      if is_unsupported has_lead_title validated_years item
      then leadership_unsupported ∷ rest
      else rest

  -- The three settled outputs become one analysis.
  unfoldable pub unify :
      Settled (List SkillItem)
      → Settled Experience
      → Settled (List SoftSkill)
      → List (Agent × String)
      → UnifiedAnalysis
  unfolding record_failure failure_conflict value_or cap_skills skill_conflicts over_claims support
      soft_conflicts status_of any is_completed no_history
  unify skills experience soft errors =
      let errors' = record_failure culture_fit_soft_skills soft (
        record_failure experience_validation experience
          (record_failure skill_extraction skills errors)) in
      let history = value_or experience no_history in
      let validated_years = history.total_experience_years in
      let has_history = any (λ entry. entry.is_valid) history.entries in
      let has_lead_title = any (λ entry. has_leadership_title entry.job_title) history.entries in
      let soft_skills = value_or soft [] in
      record {
        status = status_of errors';
        skill_items = cap_skills has_history validated_years (value_or skills []);
        total_years = validated_years;
        soft_items =
            if is_completed experience
            then support has_lead_title validated_years soft_skills
            else soft_skills;
        conflicts_resolved =
            failure_conflict skill_extraction skills
            ++ (failure_conflict experience_validation experience
                ++ (failure_conflict culture_fit_soft_skills soft
                    ++ (skill_conflicts has_history validated_years (value_or skills [])
                        ++ ((if has_history
                                && over_claims validated_years history.claimed_total_years
                              then claimed_total_overridden ∷ []
                              else [])
                            ++ (if is_completed experience
                                then soft_conflicts has_lead_title validated_years soft_skills
                                else [])))));
        errors = errors';
      }

  unfoldable pub aggregate :
      Payload (List SkillItem)
      → Payload Experience
      → Payload (List SoftSkill)
      → List (Agent × String)
      → UnifiedAnalysis
  unfolding settle unify
  aggregate skill_payload experience_payload soft_payload errors =
      unify (settle skill_payload "no_output") (settle experience_payload "no_output")
        (settle soft_payload "no_output") errors
