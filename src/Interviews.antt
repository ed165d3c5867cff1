-- ===== src/Interviews.antt =====
-- app/routers/interviews.py: the interviews of one tenant and the reminders that the scheduler holds for
-- them. The rows that a handler can read are those that the tenant's criteria let through.
pub mod Reminders
pub mod Owned
pub mod Reach
unfoldable pub use Reminders.{
  effective_time, schedule_interview_reminder, cancel_interview_reminder, jobs_for, is_among,
}
pub use Reminders.{Job, Turn, Meeting}
use ats_smart_backend.Prelude.{
  strip, ℕ, ◌+◌, Bool, true, false, Option, none, some, List, [], ◌∷◌, ◌++◌, String, str_eq, any,
  ◌==◌, if◌then◌else◌, ◌&&◌, ◌||◌, length,
}
use ats_smart_backend.Exec.{
  Exec, Result, ok, raised, pure, raise, found, require, get, put, ◌>>=◌, ◌>>◌,
}
use ats_smart_backend.Sessions.{assign}
use ats_smart_backend.Search.{Text}

pub record Person : Type 0 where
  pub id : ℕ
  pub email : Text
  pub role : String
  pub tenant_id : Option ℕ

pub record Profile : Type 0 where
  pub user_id : ℕ
  pub first_name : Text
  pub last_name : Text

pub data Status : Type 0 where
  pending : Status
  completed : Status

pub record Interview : Type 0 where
  pub application_id : ℕ
  pub interviewer_id : ℕ
  pub scheduled_at : Option ℕ
  pub meeting_link : Option Text
  pub reminder_job_ids : Option (List ℕ)
  pub status : Status
  pub evaluation_scores : Option (List (Text × ℕ))
  pub overall_score : Option ℕ
  pub feedback_text : Option Text
  pub evaluated_at : Option ℕ

-- The tables that these handlers only read: users, candidates, and the candidate of an application
pub record Directory : Type 0 where
  pub users : ℕ → Option Person
  pub candidates : ℕ → Option Profile
  pub applications : ℕ → Option ℕ

pub record World : Type 0 where
  pub interviews : ℕ → Option Interview
  pub jobs : List Job

pub data Error : Type 0 where
  forbidden : Error
  application_not_found : Error
  interviewer_not_found : Error
  not_an_interviewer : Error
  candidate_not_found : Error
  candidate_user_not_found : Error
  interview_not_found : Error
  internal_server_error : Error

abbrev pub Handler : Type 0 → Type 0
Handler = Exec World Error

abbrev pub interview_manager_roles : List String
interview_manager_roles = "Admin" ∷ "HR_Manager" ∷ []

abbrev pub valid_interviewer_roles : List String
valid_interviewer_roles = "Interviewer" ∷ "HR_Manager" ∷ []

unfoldable pub role_in : List String → Person → Bool
unfolding any
role_in roles person = any (λ r. str_eq r person.role) roles

pub record InterviewCreateRequest : Type 0 where
  pub application_id : ℕ
  pub interviewer_id : ℕ
  pub scheduled_at : ℕ
  pub meeting_link : Text

-- A field that is not set is `none`; one that is set may be null.
pub record InterviewUpdateRequest : Type 0 where
  pub interviewer_id : Option (Option ℕ)
  pub scheduled_at : Option (Option ℕ)
  pub meeting_link : Option (Option Text)

pub record InterviewEvaluationRequest : Type 0 where
  pub evaluation_scores : List (Text × ℕ)
  pub feedback_text : Text

unfoldable pub of_tenant : ℕ → Option Person → Option Person
of_tenant tenant none = none
of_tenant tenant (some person) = elim person.tenant_id [
  | none ↦ none
  | some t ↦ if t == tenant then some person else none
]

abbrev pub or_else : {A : Type 0} → A → Option A → A
or_else default none = default
or_else default (some a) = a

-- f"{first_name} {last_name}".strip() or user.email
unfoldable pub contact_name : (ℕ → Bool) → Profile → Person → Text
unfolding strip
contact_name is_space candidate user =
    elim (strip is_space (candidate.first_name ++ b' ' ∷ candidate.last_name)) [
      | [] ↦ user.email
      | c ∷ name ↦ c ∷ name
    ]

unfoldable pub sum_scores : List (Text × ℕ) → ℕ
sum_scores [] = 0
sum_scores ((criterion, score) ∷ scores) = score + sum_scores scores

-- `reminder_job_ids or None`
unfoldable pub ids_or_none : List ℕ → Option (List ℕ)
ids_or_none [] = none
ids_or_none (id ∷ ids) = some (id ∷ ids)

abbrev pub email_of : Option Person → Text
email_of none = []
email_of (some person) = person.email

unfoldable pub schedule_for : Turn → ℕ → Text × Text → Text → Text → List Job → List Job × List ℕ
unfolding schedule_interview_reminder
schedule_for turn scheduled_at (email, name) interviewer_email meeting_link jobs =
    schedule_interview_reminder turn
      (record {
        scheduled_at = scheduled_at;
        candidate_email = email;
        candidate_name = name;
        interviewer_email = interviewer_email;
        interviewer_name = interviewer_email;
        meeting_link = meeting_link;
      })
      jobs

-- The `setattr` of the fields that are set; a null interviewer does not get this far.
unfoldable pub with_update : InterviewUpdateRequest → Interview → Interview
with_update payload interview = record interview {
  interviewer_id = or_else interview.interviewer_id (or_else none payload.interviewer_id);
  scheduled_at = or_else interview.scheduled_at payload.scheduled_at;
  meeting_link = or_else interview.meeting_link payload.meeting_link;
}

is_set : {A : Type 0} → Option A → Bool
is_set none = false
is_set (some a) = true

unfoldable pub needs_reschedule : InterviewUpdateRequest → Bool
unfolding is_set
needs_reschedule payload = is_set payload.scheduled_at || is_set payload.interviewer_id

-- The commit of one row
unfoldable pub save_interview : ℕ → Interview → Handler (Unit {0})
save_interview interview_id row = do
  world ← get
  put (record world { interviews = assign interview_id (some row) world.interviews })

-- The reminders of a new interview, and the commit of its row
unfoldable pub book : Turn → ℕ → InterviewCreateRequest → Person → Text × Text → Handler ℕ
book turn fresh payload interviewer contact = do
  world ← get
  let scheduled =
      schedule_for turn payload.scheduled_at contact interviewer.email payload.meeting_link
        world.jobs
  put (record {
    interviews =
        assign fresh
          (some (record {
            application_id = payload.application_id;
            interviewer_id = payload.interviewer_id;
            scheduled_at = some payload.scheduled_at;
            meeting_link = some payload.meeting_link;
            reminder_job_ids = ids_or_none scheduled.1;
            status = pending;
            evaluation_scores = none;
            overall_score = none;
            feedback_text = none;
            evaluated_at = none;
          }))
          world.interviews;
    jobs = scheduled.0;
  })
  pure fresh

module _ (tenant : ℕ) (directory : Directory) (is_space : ℕ → Bool) where
  unfoldable pub get_valid_interviewer : Option ℕ → Handler Person
  get_valid_interviewer none = raise interviewer_not_found
  get_valid_interviewer (some interviewer_id) = do
    user ← found (of_tenant tenant (directory.users interviewer_id)) interviewer_not_found
    require (role_in valid_interviewer_roles user) not_an_interviewer
    pure user

  unfoldable pub get_candidate_contact : ℕ → Handler (Text × Text)
  get_candidate_contact candidate_id = do
    candidate ← found (directory.candidates candidate_id) candidate_not_found
    user ← found (directory.users candidate.user_id) candidate_user_not_found
    pure (user.email, contact_name is_space candidate user)

  unfoldable pub create_interview : Turn → Person → ℕ → InterviewCreateRequest → Handler ℕ
  create_interview turn current_user fresh payload = do
    require (role_in interview_manager_roles current_user) forbidden
    candidate_id ← found (directory.applications payload.application_id) application_not_found
    interviewer ← get_valid_interviewer (some payload.interviewer_id)
    contact ← get_candidate_contact candidate_id
    book turn fresh payload interviewer contact

  -- `None` unless the field is set
  unfoldable pub chosen_interviewer : Option (Option ℕ) → Handler (Option Person)
  chosen_interviewer none = pure none
  chosen_interviewer (some interviewer_id) = do
    user ← get_valid_interviewer interviewer_id
    pure (some user)

  -- The reminders of a changed row, and its commit
  unfoldable pub rebook :
      Turn → Option Person → ℕ → Interview → Text × Text → ℕ → Handler (Unit {0})
  rebook turn interviewer interview_id row contact scheduled_at = do
    world ← get
    let scheduled =
        schedule_for turn scheduled_at contact
          (email_of
            (elim interviewer [ some p ↦ some p | none ↦ directory.users row.interviewer_id ]))
          (or_else [] row.meeting_link) world.jobs
    put (record {
      interviews =
          assign interview_id (some (record row { reminder_job_ids = ids_or_none scheduled.1 }))
            world.interviews;
      jobs = scheduled.0;
    })

  -- The reads that the reminders need; a null moment breaks the subtraction of the lead time.
  unfoldable pub remind : Turn → Option Person → ℕ → Interview → Handler (Unit {0})
  remind turn interviewer interview_id row = do
    candidate_id ← found (directory.applications row.application_id) application_not_found
    contact ← get_candidate_contact candidate_id
    scheduled_at ← found row.scheduled_at internal_server_error
    rebook turn interviewer interview_id row contact scheduled_at

  -- The second block of `update_interview`: the old jobs are cancelled at once, before the reads that may
  -- fail.
  unfoldable pub reschedule : Turn → Option Person → ℕ → Interview → Handler (Unit {0})
  reschedule turn interviewer interview_id row = do
    world ← get
    put (record world { jobs = cancel_interview_reminder turn row.reminder_job_ids world.jobs })
    remind turn interviewer interview_id row

  unfoldable pub update_interview : Turn → Person → ℕ → InterviewUpdateRequest → Handler (Unit {0})
  update_interview turn current_user interview_id payload = do
    require (role_in interview_manager_roles current_user) forbidden
    world ← get
    interview ← found (world.interviews interview_id) interview_not_found
    interviewer ← chosen_interviewer payload.interviewer_id
    if needs_reschedule payload
        then reschedule turn interviewer interview_id (with_update payload interview)
        else save_interview interview_id (with_update payload interview)

-- Managers, or the interviewer of this interview
unfoldable pub may_see : Person → Interview → Bool
unfolding role_in
may_see current_user interview =
    role_in interview_manager_roles current_user || (current_user.id == interview.interviewer_id)

unfoldable pub get_interview : Person → ℕ → Handler Interview
get_interview current_user interview_id = do
  world ← get
  interview ← found (world.interviews interview_id) interview_not_found
  require (may_see current_user interview) forbidden
  pure interview

-- `mean` is the average of a sum over a number of scores, rounded to two places.
unfoldable pub with_evaluation :
    (ℕ → ℕ → ℕ) → ℕ → InterviewEvaluationRequest → Interview → Interview
unfolding sum_scores
with_evaluation mean now payload interview = record interview {
  evaluation_scores = some payload.evaluation_scores;
  overall_score =
      some (mean (sum_scores payload.evaluation_scores) (length payload.evaluation_scores));
  feedback_text = some payload.feedback_text;
  status = completed;
  evaluated_at = some now;
}

unfoldable pub submit_interview_evaluation :
    (ℕ → ℕ → ℕ) → ℕ → Person → ℕ → InterviewEvaluationRequest → Handler (Unit {0})
submit_interview_evaluation mean now current_user interview_id payload = do
  world ← get
  interview ← found (world.interviews interview_id) interview_not_found
  require (may_see current_user interview) forbidden
  save_interview interview_id (with_evaluation mean now payload interview)

-- The jobs are cancelled, and the row is deleted.
unfoldable pub drop_interview : Turn → ℕ → Interview → Handler (Unit {0})
drop_interview turn interview_id interview = do
  world ← get
  put (record {
    interviews = assign interview_id none world.interviews;
    jobs = cancel_interview_reminder turn interview.reminder_job_ids world.jobs;
  })

unfoldable pub delete_interview : Turn → Person → ℕ → Handler (Unit {0})
delete_interview turn current_user interview_id = do
  require (role_in interview_manager_roles current_user) forbidden
  world ← get
  interview ← found (world.interviews interview_id) interview_not_found
  drop_interview turn interview_id interview
