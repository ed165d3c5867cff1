-- ===== src/Privacy.antt =====
-- app/core/privacy.py: the account of a candidate is made anonymous. A resume's file is named by its
-- address; the random parts of the new names, the hash of a new password and the text of an id are
-- parameters. The analysis is what the skill engine writes, which is never an empty dictionary.
pub mod Erasure
use ats_smart_backend.Prelude.{
  codes, starts_with, ℕ, ◌+◌, Bool, true, false, Option, none, some, List, [], ◌∷◌, ◌++◌, map, not,
  length, filter, any, eq_codes, ◌==◌, if◌then◌else◌, ◌&&◌,
}
use ats_smart_backend.Search.{Text}
use ats_smart_backend.Sessions.{Store, assign, revoke_all_sessions}

pub record UserRow : Type 0 where
  pub id : ℕ
  pub role : Text
  pub email : Text
  pub password_hash : Text
  pub is_active : Bool
  pub anonymized_at : Option ℕ

pub record CandidateRow : Type 0 where
  pub id : ℕ
  pub user_id : ℕ
  pub first_name : Text
  pub last_name : Text
  pub phone : Option Text
  pub location : Option Text
  pub skills : Option (List Text)

pub record SkillAnalysis : Type 0 where
  pub skills : List Text
  pub total_experience_years : Option ℕ
  pub experience_entries : List Text

pub record ResumeRow : Type 0 where
  pub id : ℕ
  pub candidate_id : ℕ
  pub file_url : Text
  pub raw_text : Option Text
  pub search_tokens : Option (List ℕ)
  pub parsed_data : Option Text
  pub skill_analysis : Option SkillAnalysis
  pub agent_analysis : Option Text

pub record Rows : Type 0 where
  pub users : List UserRow
  pub candidates : List CandidateRow
  pub resumes : List ResumeRow

-- The database, the sessions, the users that `get_current_user` cached, and the files of the object store
pub record Platform : Type 0 where
  pub rows : Rows
  pub sessions : Store
  pub cached_users : ℕ → Option Text
  pub files : List Text

-- The code points of `ANONYMIZED_FIRST_NAME`
abbrev pub anonymized_first_name : Text
anonymized_first_name =
    0x06a9 ∷ 0x0627 ∷ 0x0631 ∷ 0x0628 ∷ 0x0631 ∷ 0x0020 ∷ 0x062d ∷ 0x0630 ∷ 0x0641 ∷ 0x200c ∷ 0x0634
    ∷ 0x062f ∷ 0x0647 ∷ []

abbrev pub anonymized_email_domain : Text
anonymized_email_domain = codes "anonymized.invalid"

abbrev pub deleted_file_url_prefix : Text
deleted_file_url_prefix = codes "deleted:"

unfoldable pub anonymous_skill_analysis : Option SkillAnalysis → Option SkillAnalysis
anonymous_skill_analysis none = none
anonymous_skill_analysis (some analysis) = some (record {
  skills = analysis.skills;
  total_experience_years = analysis.total_experience_years;
  experience_entries = [];
})

unfoldable pub find_candidate : ℕ → List CandidateRow → Option CandidateRow
find_candidate user_id [] = none
find_candidate user_id (c ∷ candidates) =
    let rest = find_candidate user_id candidates in if c.user_id == user_id then some c else rest

-- What one call draws: `secrets.token_hex`, `uuid4().hex`, and the hash of a random password
pub record Draw : Type 0 where
  pub suffix : Text
  pub email_token : Text
  pub password_hash : Text

unfoldable pub anonymous_candidate : Draw → CandidateRow → CandidateRow
anonymous_candidate draw candidate = record candidate {
  first_name = anonymized_first_name;
  last_name = codes "#" ++ draw.suffix;
  phone = none;
  location = none;
  skills = none;
}

unfoldable pub anonymous_user : Draw → ℕ → UserRow → UserRow
anonymous_user draw now user = record user {
  email = codes "deleted-" ++ draw.email_token ++ codes "@" ++ anonymized_email_domain;
  password_hash = draw.password_hash;
  is_active = false;
  anonymized_at = some now;
}

module _ (id_text : ℕ → Text) where
  -- `raw_text = None` clears the index too: the listener of the model sets the tokens of no text.
  unfoldable pub anonymous_resume : ResumeRow → ResumeRow
  unfolding anonymous_skill_analysis
  anonymous_resume resume = record resume {
    file_url = deleted_file_url_prefix ++ id_text resume.id;
    raw_text = none;
    search_tokens = none;
    parsed_data = none;
    skill_analysis = anonymous_skill_analysis resume.skill_analysis;
  }

  -- The transaction
  unfoldable pub anonymize_rows : Draw → ℕ → ℕ → Rows → Rows
  unfolding find_candidate anonymous_resume anonymous_candidate anonymous_user
  anonymize_rows draw now user_id rows =
      let users = map (λ u. if u.id == user_id then anonymous_user draw now u else u) rows.users in
      elim (find_candidate user_id rows.candidates) [
        | none ↦ record rows { users = users }
        | some candidate ↦ record {
          users = users;
          candidates =
              map (λ c. if c.id == candidate.id then anonymous_candidate draw c else c)
                rows.candidates;
          resumes =
              map (λ r. if r.candidate_id == candidate.id then anonymous_resume r else r)
                rows.resumes;
        }
      ]

  -- The files of the candidate's resumes that are not deleted yet
  unfoldable pub file_urls : ℕ → Rows → List Text
  unfolding find_candidate filter
  file_urls user_id rows = elim (find_candidate user_id rows.candidates) [
    | none ↦ []
    | some candidate ↦
        map (λ r. r.file_url)
          (filter
            (λ r.
              r.candidate_id == candidate.id
              && not (starts_with deleted_file_url_prefix r.file_url))
            rows.resumes)
  ]

  -- After the commit; `redis` says whether Redis answers, and a failure is logged.
  unfoldable pub forget_sessions : Bool → ℕ → ℕ → Store → Store
  unfolding revoke_all_sessions assign
  forget_sessions redis now user_id store =
      if redis
      then (let revoked = (revoke_all_sessions now user_id store).0 in
          record revoked {
            known_devices = assign user_id none revoked.known_devices;
            login_history = assign user_id none revoked.login_history;
          })
      else store

  unfoldable pub anonymize_candidate_account : Bool → Draw → ℕ → ℕ → Platform → Platform
  unfolding anonymize_rows forget_sessions file_urls assign any filter
  anonymize_candidate_account redis draw now user_id platform = record {
    rows = anonymize_rows draw now user_id platform.rows;
    sessions = forget_sessions redis now user_id platform.sessions;
    cached_users =
        if redis then assign user_id none platform.cached_users else platform.cached_users;
    files =
        filter (λ file. not (any (λ url. eq_codes url file) (file_urls user_id platform.rows)))
          platform.files;
  }
