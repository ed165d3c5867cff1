-- ===== src/Privacy/Erasure.antt =====
-- What an anonymised account still says of the person.
use ats_smart_backend.Prelude.{
  ==_iff, ℕ, ◌≡◌, refl, sym, ◌∙◌, ap, Bool, true, false, Option, none, some, List, [], ◌∷◌, map,
  ◌==◌, if◌then◌else◌, Bool-cases, Option-cases, inl, inr,
}
use mathlib.Core.Option.{some-injective, none-ne-some}
use ats_smart_backend.Search.{Text}
use ats_smart_backend.Sessions.{assign, revoke_all_sessions}
use ats_smart_backend.Privacy.{
  UserRow, CandidateRow, ResumeRow, SkillAnalysis, Rows, Platform, Draw, anonymous_skill_analysis,
  find_candidate, anonymous_resume, anonymous_candidate, anonymous_user, anonymize_rows,
  anonymize_candidate_account, forget_sessions,
}

assign-here : {A : Type 0} (k : ℕ) (value : A) (f : ℕ → A) → assign k value f k ≡ value
unfolding assign
assign-here k value f = rw ((==_iff k k).1 refl, assign) refl

-- Whatever identifies a person in the rows: of the account, of the profile, and of each resume
pub record Identity : Type 0 where
  pub email : Text
  pub password_hash : Text
  pub first_name : Text
  pub last_name : Text
  pub phone : Option Text
  pub location : Option Text
  pub tags : Option (List Text)
  pub file_url : ℕ → Text
  pub raw_text : ℕ → Option Text
  pub search_tokens : ℕ → Option (List ℕ)
  pub parsed_data : ℕ → Option Text
  pub experience_entries : ℕ → List Text

with_entries : List Text → Option SkillAnalysis → Option SkillAnalysis
with_entries entries none = none
with_entries entries (some analysis) = some (record analysis { experience_entries = entries })

user_as : Identity → UserRow → UserRow
user_as who user = record user { email = who.email; password_hash = who.password_hash }

candidate_as : Identity → CandidateRow → CandidateRow
candidate_as who candidate = record candidate {
  first_name = who.first_name;
  last_name = who.last_name;
  phone = who.phone;
  location = who.location;
  skills = who.tags;
}

resume_as : Identity → ResumeRow → ResumeRow
unfolding with_entries
resume_as who resume = record resume {
  file_url = who.file_url resume.id;
  raw_text = who.raw_text resume.id;
  search_tokens = who.search_tokens resume.id;
  parsed_data = who.parsed_data resume.id;
  skill_analysis = with_entries (who.experience_entries resume.id) resume.skill_analysis;
}

change_where : {A : Type 0} → (A → Bool) → (A → A) → List A → List A
change_where p f rows = map (λ x. if p x then f x else x) rows

-- The same rows, of an account that another person holds
unfoldable pub held_by : Identity → ℕ → Rows → Rows
unfolding user_as candidate_as resume_as change_where
held_by who user_id rows =
    let users = change_where (λ u. u.id == user_id) (user_as who) rows.users in
    elim (find_candidate user_id rows.candidates) [
      | none ↦ record rows { users = users }
      | some candidate ↦ record {
        users = users;
        candidates = change_where (λ c. c.id == candidate.id) (candidate_as who) rows.candidates;
        resumes = change_where (λ r. r.candidate_id == candidate.id) (resume_as who) rows.resumes;
      }
    ]

change_where-twice :
    {A : Type 0} (p : A → Bool) (f g : A → A) (rows : List A)
    → ((x : A) → p (f x) ≡ p x)
    → ((x : A) → g (f x) ≡ g x)
    → change_where p g (change_where p f rows) ≡ change_where p g rows
unfolding change_where
change_where-twice p f g [] keeps same = refl
change_where-twice p f g (x ∷ rows) keeps same = elim (Bool-cases (p x)) [
  | inl chosen ↦
      rw chosen (
        rw (keeps x, chosen, same x) (ap (λ t. g x ∷ t) (change_where-twice p f g rows keeps same)))
  | inr other ↦ rw other (rw other (ap (λ t. x ∷ t) (change_where-twice p f g rows keeps same)))
]

-- One row of the search for a candidate
find_step :
    (b : Bool) (x y c : CandidateRow) (rest rest' : Option CandidateRow)
    → y.id ≡ x.id
    → (rest ≡ some c → (d : CandidateRow) × (rest' ≡ some d) × (d.id ≡ c.id))
    → (if b then some x else rest) ≡ some c
    → (d : CandidateRow) × ((if b then some y else rest') ≡ some d) × (d.id ≡ c.id)
find_step true x y c rest rest' same next h =
    (y, refl, same ∙ ap (λ z. z.id) (some-injective x c h))
find_step false x y c rest rest' same next h = next h

as_id :
    (who : Identity) (b : Bool) (x : CandidateRow) → (if b then candidate_as who x else x).id ≡ x.id
unfolding candidate_as
as_id who true x = refl
as_id who false x = refl

as_user_id :
    (who : Identity) (b : Bool) (x : CandidateRow)
    → (if b then candidate_as who x else x).user_id ≡ x.user_id
unfolding candidate_as
as_user_id who true x = refl
as_user_id who false x = refl

find-change_where :
    (who : Identity) (user_id k : ℕ) (candidates : List CandidateRow) (c : CandidateRow)
    → find_candidate user_id candidates ≡ some c
    → (d : CandidateRow) × (find_candidate user_id
          (change_where (λ x. x.id == k) (candidate_as who) candidates)
        ≡ some d)
      × (d.id ≡ c.id)
unfolding find_candidate change_where
find-change_where who user_id k [] c h = absurd (none-ne-some c h)
find-change_where who user_id k (x ∷ candidates) c h = rw (as_user_id who (x.id == k) x) (
    find_step (x.user_id == user_id) x (if x.id == k then candidate_as who x else x) c _ _
      (as_id who (x.id == k) x) (find-change_where who user_id k candidates c) h)

module _ (id_text : ℕ → Text) (draw : Draw) (now user_id : ℕ) (who : Identity) where
  anonymous_users :
      (users : List UserRow)
      → change_where
          (λ u. u.id == user_id)
          (anonymous_user draw now)
          (change_where (λ u. u.id == user_id) (user_as who) users)
        ≡ change_where (λ u. u.id == user_id) (anonymous_user draw now) users
  unfolding user_as anonymous_user
  anonymous_users users = change_where-twice _ _ _ users (λ u. refl) (λ u. refl)

  anonymous_candidates :
      (k : ℕ) (candidates : List CandidateRow)
      → change_where
          (λ c. c.id == k)
          (anonymous_candidate draw)
          (change_where (λ c. c.id == k) (candidate_as who) candidates)
        ≡ change_where (λ c. c.id == k) (anonymous_candidate draw) candidates
  unfolding candidate_as anonymous_candidate
  anonymous_candidates k candidates = change_where-twice _ _ _ candidates (λ c. refl) (λ c. refl)

  forgotten_entries :
      (entries : List Text) (analysis : Option SkillAnalysis)
      → anonymous_skill_analysis (with_entries entries analysis) ≡ anonymous_skill_analysis analysis
  unfolding anonymous_skill_analysis with_entries
  forgotten_entries entries none = refl
  forgotten_entries entries (some analysis) = refl

  anonymous_resumes :
      (k : ℕ) (resumes : List ResumeRow)
      → change_where
          (λ r. r.candidate_id == k)
          (anonymous_resume id_text)
          (change_where (λ r. r.candidate_id == k) (resume_as who) resumes)
        ≡ change_where (λ r. r.candidate_id == k) (anonymous_resume id_text) resumes
  unfolding resume_as anonymous_resume
  anonymous_resumes k resumes =
      change_where-twice _ _ _ resumes (λ r. refl)
        (λ r.
          ap
            (λ a. record r {
              file_url = (anonymous_resume id_text r).file_url;
              raw_text = none;
              search_tokens = none;
              parsed_data = none;
              skill_analysis = a;
            })
            (forgotten_entries (who.experience_entries r.id) r.skill_analysis))

  -- The rows after the transaction, when the candidate with the id `k` was found
  anonymous_rows : ℕ → Rows → Rows
  unfolding change_where
  anonymous_rows k rows = record {
    users = change_where (λ u. u.id == user_id) (anonymous_user draw now) rows.users;
    candidates = change_where (λ c. c.id == k) (anonymous_candidate draw) rows.candidates;
    resumes = change_where (λ r. r.candidate_id == k) (anonymous_resume id_text) rows.resumes;
  }

  anonymize_found :
      (rows : Rows) (c : CandidateRow)
      → find_candidate user_id rows.candidates ≡ some c
      → anonymize_rows id_text draw now user_id rows ≡ anonymous_rows c.id rows
  unfolding anonymize_rows anonymous_rows change_where
  anonymize_found rows c h = rw (h, anonymize_rows) refl

  held_rows : ℕ → Rows → Rows
  held_rows k rows = record {
    users = change_where (λ u. u.id == user_id) (user_as who) rows.users;
    candidates = change_where (λ c. c.id == k) (candidate_as who) rows.candidates;
    resumes = change_where (λ r. r.candidate_id == k) (resume_as who) rows.resumes;
  }

  held_found :
      (rows : Rows) (c : CandidateRow)
      → find_candidate user_id rows.candidates ≡ some c
      → held_by who user_id rows ≡ held_rows c.id rows
  unfolding held_by held_rows
  held_found rows c h = rw (h, held_by) refl

  anonymous_rows-held_rows :
      (k : ℕ) (rows : Rows) → anonymous_rows k (held_rows k rows) ≡ anonymous_rows k rows
  unfolding anonymous_rows held_rows
  anonymous_rows-held_rows k rows =
      ap
        (λ us. record {
          users = us;
          candidates = (anonymous_rows k (held_rows k rows)).candidates;
          resumes = (anonymous_rows k (held_rows k rows)).resumes;
        })
        (anonymous_users rows.users)
      ∙ ap
          (λ cs. record {
            users = (anonymous_rows k rows).users;
            candidates = cs;
            resumes = (anonymous_rows k (held_rows k rows)).resumes;
          })
          (anonymous_candidates k rows.candidates)
      ∙ ap
          (λ rs. record {
            users = (anonymous_rows k rows).users;
            candidates = (anonymous_rows k rows).candidates;
            resumes = rs;
          })
          (anonymous_resumes k rows.resumes)

  anonymize_missing :
      (rows : Rows)
      → find_candidate user_id rows.candidates ≡ none
      → anonymize_rows id_text draw now user_id rows ≡ record rows {
        users = change_where (λ u. u.id == user_id) (anonymous_user draw now) rows.users;
      }
  unfolding anonymize_rows change_where
  anonymize_missing rows h = rw (h, anonymize_rows) refl

  held_missing :
      (rows : Rows)
      → find_candidate user_id rows.candidates ≡ none
      → held_by who user_id rows
        ≡ record rows { users = change_where (λ u. u.id == user_id) (user_as who) rows.users }
  unfolding held_by
  held_missing rows h = rw (h, held_by) refl

  anonymize_rows-held_by :
      (rows : Rows)
      → anonymize_rows id_text draw now user_id (held_by who user_id rows)
        ≡ anonymize_rows id_text draw now user_id rows
  unfolding held_rows change_where
  anonymize_rows-held_by rows = elim (Option-cases (find_candidate user_id rows.candidates)) [
    | inl missing ↦
        ap (anonymize_rows id_text draw now user_id) (held_missing rows missing)
        ∙ anonymize_missing _ missing
        ∙ ap (λ us. record rows { users = us }) (anonymous_users rows.users)
        ∙ sym (anonymize_missing rows missing)
    | inr (c, there) ↦
        ap (anonymize_rows id_text draw now user_id) (held_found rows c there)
        ∙ found_again c there (find-change_where who user_id c.id rows.candidates c there)
        ∙ anonymous_rows-held_rows c.id rows
        ∙ sym (anonymize_found rows c there)
  ]
    where
      found_again :
          (c : CandidateRow)
          → find_candidate user_id rows.candidates ≡ some c
          → (d : CandidateRow) × (find_candidate user_id
                (change_where (λ x. x.id == c.id) (candidate_as who) rows.candidates)
              ≡ some d)
            × (d.id ≡ c.id)
          → anonymize_rows id_text draw now user_id (held_rows c.id rows)
            ≡ anonymous_rows c.id (held_rows c.id rows)
      found_again c there (d, again, same) =
          anonymize_found (held_rows c.id rows) d again
          ∙ ap (λ k. anonymous_rows k (held_rows c.id rows)) same

  -- An anonymised account says nothing of the person: the rows that are left are the same whoever held the
  -- account, that is whatever the address, password, name, phone, place and tags were, and whatever the
  -- files, texts, tokens, parsed data and histories of the resumes were. (The column `agent_analysis` and
  -- the numbers of the skill analysis are not among them.) When Redis answers, no cached user, known
  -- device or place of a login of the account is left either.
  pub anonymize_candidate_account-held_by :
      (redis : Bool) (platform : Platform)
      → ((anonymize_candidate_account id_text redis draw now user_id
            (record platform { rows = held_by who user_id platform.rows })).rows
          ≡ (anonymize_candidate_account id_text redis draw now user_id platform).rows)
        × ((anonymize_candidate_account id_text true draw now user_id platform).cached_users user_id
            ≡ none)
        × ((anonymize_candidate_account id_text true draw now user_id
                platform).sessions.known_devices
              user_id
            ≡ none)
        × ((anonymize_candidate_account id_text true draw now user_id
                platform).sessions.login_history
              user_id
            ≡ none)
  unfolding anonymize_candidate_account forget_sessions
  anonymize_candidate_account-held_by redis platform = (
    anonymize_rows-held_by platform.rows,
    assign-here user_id none platform.cached_users,
    assign-here user_id none (revoke_all_sessions now user_id platform.sessions).0.known_devices,
    assign-here user_id none (revoke_all_sessions now user_id platform.sessions).0.login_history,
  )
