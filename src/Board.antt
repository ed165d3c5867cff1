-- ===== src/Board.antt =====
-- The applications of a board, and the handlers that write them: `update_application_status` of
-- app/routers/applications.py, `respond_to_offer` of app/routers/candidates.py with
-- `get_or_create_candidate_profile` of app/core/candidate_utils.py, and `upload_resume` of
-- app/routers/resumes.py. The database is the record `Db` of its tables, newest row first;
-- identifiers and times are numbers, and the identifiers of new rows are arguments. A handler returns
-- the database that it leaves and its answer.
mod Filename
pub mod Tables
pub mod Distinct
pub mod Trail
pub mod Reach
pub mod Stages
pub mod Funnel
pub mod Handlers
pub mod Offers
pub mod Once
pub mod Course
pub mod Hired
unfoldable pub use Filename.{file_extension, has_extension}
use Prim.Native.String
use Prim.Native.Char.{code}
use ats_smart_backend.Prelude.{
  ℕ, String, ◌*◌, Bool, true, false, Option, none, some, List, [], ◌∷◌, filter, any, ltb, str_eq,
  ◌==◌, ◌&&◌, ◌||◌, if◌then◌else◌, not,
}
use ats_smart_backend.Exec.{Exec, pure, found, get, put, require, ◌>>=◌, ◌>>◌}
use ats_smart_backend.StateMachine.{
  ApplicationStatus, draft, offer, accepted, rejected, value, is_transition_allowed,
}
use ats_smart_backend.Tenancy.{TenantContext, visible, stamp}

pub record User : Type 0 where
  pub id : ℕ
  pub email : String
  pub role : String

pub record Candidate : Type 0 where
  pub id : ℕ
  pub user_id : ℕ
  pub first_name : String
  pub last_name : String

pub record Job : Type 0 where
  pub id : ℕ
  pub tenant_id : ℕ

pub record Resume : Type 0 where
  pub id : ℕ
  pub candidate_id : ℕ
  pub file_url : String
  pub tenant_id : ℕ

pub record Application : Type 0 where
  pub id : ℕ
  pub job_id : ℕ
  pub candidate_id : ℕ
  pub tenant_id : ℕ
  pub current_status : String
  pub created_at : ℕ
  pub updated_at : ℕ

pub record StatusHistory : Type 0 where
  pub application_id : ℕ
  pub tenant_id : ℕ
  pub old_status : String
  pub new_status : String
  pub changed_by : ℕ

-- What a handler hands to the event loop with `asyncio.create_task`.
pub data BackgroundTask : Type 0 where
  trigger_status_change_email : ℕ → ℕ → String → BackgroundTask  -- candidate, job, new status
  process_resume : ℕ → String → BackgroundTask  -- application, file

pub record Db : Type 0 where
  pub jobs : List Job
  pub candidates : List Candidate
  pub resumes : List Resume
  pub applications : List Application
  pub history : List StatusHistory
  pub started : List BackgroundTask

pub data Error : Type 0 where
  forbidden bad_format empty_file too_large job_not_found application_not_found : Error
  business_logic_violation no_active_offer database_error tenant_access_error : Error

unfoldable pub status_code : Error → ℕ
status_code forbidden = 403
status_code bad_format = 400
status_code empty_file = 400
status_code too_large = 400
status_code job_not_found = 404
status_code application_not_found = 404
status_code business_logic_violation = 400
status_code no_active_offer = 400
status_code database_error = 500
status_code tenant_access_error = 500

abbrev pub Handler : Type 0 → Type 0
Handler = Exec Db Error

-- `require_roles` of app/core/deps.py
unfoldable pub has_role : List String → User → Bool
unfolding any
has_role allowed_roles user = any (λ r. str_eq r user.role) allowed_roles

abbrev pub application_manager_roles : List String
application_manager_roles = "Admin" ∷ "HR_Manager" ∷ []

-- `scalar_one_or_none` of a select by the primary key and the tenant criterion.
unfoldable pub find_application : TenantContext → ℕ → List Application → Option Application
find_application context application_id [] = none
find_application context application_id (a ∷ rest) =
    let found = find_application context application_id rest in
    if a.id == application_id && visible context false a.tenant_id then some a else found

-- The flush of a changed row: the row with its primary key is replaced.
unfoldable pub save : Application → List Application → List Application
save row [] = []
save row (a ∷ rest) = let rest' = save row rest in if a.id == row.id then row ∷ rest' else a ∷ rest'

pub record StatusUpdate : Type 0 where
  pub application_id : ℕ
  pub previous_status : String
  pub new_status : String
  pub updated_at : ℕ

-- The flush of a new row, of which the stamp says the tenant; a row without one breaks the NOT NULL of
-- its column.
unfoldable pub flush : Option (Option ℕ) → Handler ℕ
unfolding found
flush none = found none tenant_access_error
flush (some tenant_id) = found tenant_id database_error

-- The two statuses of the payload are enum values, which is what pydantic lets through. A rollback has
-- nothing to undo, and the writes are committed together.
unfoldable pub update_application_status :
    TenantContext → User → ℕ → ℕ → ApplicationStatus → ApplicationStatus → Handler StatusUpdate
update_application_status context current_user now application_id current_status new_status = do
  require (has_role application_manager_roles current_user) forbidden
  db ← get
  application ←
      found (find_application context application_id db.applications) application_not_found
  let requested_current = value current_status
  let requested_new = value new_status
  require (str_eq application.current_status requested_current) business_logic_violation
  require (is_transition_allowed requested_current requested_new) business_logic_violation
  let previous_status = application.current_status
  let row : Application = record application { current_status = requested_new; updated_at = now }
  tenant_id ← flush (stamp context none)
  put (record db {
    applications = save row db.applications;
    history =
        record {
          application_id = row.id;
          tenant_id = tenant_id;
          old_status = previous_status;
          new_status = requested_new;
          changed_by = current_user.id;
        }
        ∷ db.history;
    started =
        trigger_status_change_email row.candidate_id row.job_id row.current_status ∷ db.started;
  })
  pure (record {
    application_id = row.id;
    previous_status = previous_status;
    new_status = row.current_status;
    updated_at = row.updated_at;
  })

-- `s.split("@")[0]`
unfoldable pub before_at : String → String
before_at String.[] = ""
before_at (String.◌∷◌ c s) =
    let rest = before_at s in if code c == b'@' then "" else String.◌∷◌ c rest

find_candidate : ℕ → List Candidate → Option Candidate
find_candidate user_id [] = none
find_candidate user_id (c ∷ rest) =
    let found = find_candidate user_id rest in if c.user_id == user_id then some c else found

create_candidate : User → ℕ → Db → Handler Candidate
create_candidate user fresh db = do
  let candidate : Candidate = record {
    id = fresh;
    user_id = user.id;
    first_name = before_at user.email;
    last_name = "";
  }
  put (record db { candidates = candidate ∷ db.candidates })
  pure candidate

-- The profile of a user, made and committed when it is missing; `fresh` is the identifier of a new row.
unfoldable pub get_or_create_candidate_profile : User → ℕ → Handler Candidate
unfolding find_candidate before_at create_candidate
get_or_create_candidate_profile user fresh = do
  db ← get
  elim (find_candidate user.id db.candidates) [
    | some candidate ↦ pure candidate
    | none ↦ create_candidate user fresh db
  ]

pub data Decision : Type 0 where
  accept reject : Decision

abbrev pub decided : Decision → ApplicationStatus
decided accept = accepted
decided reject = rejected

pub record OfferResponse : Type 0 where
  pub application_id : ℕ
  pub new_status : String

-- The context is the candidate's, whose queries have no tenant criterion; the query names the
-- candidate, and the history row takes the application's tenant.
unfoldable pub respond_to_offer :
    TenantContext → User → ℕ → ℕ → ℕ → Decision → Handler OfferResponse
respond_to_offer context current_user fresh now application_id decision = do
  require (has_role ("Candidate" ∷ []) current_user) forbidden
  candidate ← get_or_create_candidate_profile current_user fresh
  db ← get
  application ←
      found
        (find_application context application_id
          (filter (λ a. a.candidate_id == candidate.id) db.applications))
        application_not_found
  require (str_eq application.current_status (value offer)) no_active_offer
  let new_status = value (decided decision)
  require (is_transition_allowed application.current_status new_status) business_logic_violation
  let previous_status = application.current_status
  let row : Application = record application { current_status = new_status; updated_at = now }
  tenant_id ← flush (stamp context (some application.tenant_id))
  put (record db {
    applications = save row db.applications;
    history =
        record {
          application_id = row.id;
          tenant_id = tenant_id;
          old_status = previous_status;
          new_status = new_status;
          changed_by = current_user.id;
        }
        ∷ db.history;
  })
  pure (record { application_id = row.id; new_status = new_status })

abbrev pub allowed_content_types : List String
allowed_content_types =
    "application/pdf" ∷ "application/vnd.openxmlformats-officedocument.wordprocessingml.document"
    ∷ []

abbrev pub allowed_extensions : List String
allowed_extensions = ".pdf" ∷ ".docx" ∷ []

abbrev pub max_file_size_bytes : ℕ
max_file_size_bytes = 10 * (1024 * 1024)

-- `file.content_type in _ALLOWED_CONTENT_TYPES`
allowed_type : Option String → Bool
unfolding any
allowed_type none = false
allowed_type (some t) = any (λ a. str_eq a t) allowed_content_types

find_job : ℕ → List Job → Option Job
find_job job_id [] = none
find_job job_id (j ∷ rest) =
    let found = find_job job_id rest in if j.id == job_id then some j else found

-- What the client sends, and what the world answers: the address at which the storage put the file,
-- the identifiers of the new rows, the time, and whether the commit went through.
pub record Upload : Type 0 where
  pub job_id : ℕ
  pub content_type : Option String
  pub filename : Option (List ℕ)
  pub size : ℕ
  pub file_url : String
  pub fresh_candidate : ℕ
  pub fresh_resume : ℕ
  pub fresh_application : ℕ
  pub now : ℕ
  pub committed : Bool

-- Past the guards of the file. The two new rows have the tenant of the job, and a candidate's context
-- stamps nothing; `committed` is the outcome of the commit under `try`.
submit : User → Upload → Handler ℕ
unfolding find_job
submit current_user upload = do
  before ← get
  job ← found (find_job upload.job_id before.jobs) job_not_found
  candidate ← get_or_create_candidate_profile current_user upload.fresh_candidate
  require upload.committed database_error
  db ← get
  put (record db {
    resumes =
        record {
          id = upload.fresh_resume;
          candidate_id = candidate.id;
          file_url = upload.file_url;
          tenant_id = job.tenant_id;
        }
        ∷ db.resumes;
    applications =
        record {
          id = upload.fresh_application;
          job_id = job.id;
          candidate_id = candidate.id;
          tenant_id = job.tenant_id;
          current_status = "Draft";
          created_at = upload.now;
          updated_at = upload.now;
        }
        ∷ db.applications;
    started = process_resume upload.fresh_application upload.file_url ∷ db.started;
  })
  pure upload.fresh_application

unfoldable pub upload_resume : User → Upload → Handler ℕ
unfolding allowed_type submit file_extension has_extension
upload_resume current_user upload = do
  require (has_role ("Candidate" ∷ []) current_user) forbidden
  let name : List ℕ = elim upload.filename [ none ↦ [] | some n ↦ n ]
  require
      (allowed_type upload.content_type && has_extension allowed_extensions (file_extension name))
      bad_format
  require (not (upload.size == 0)) empty_file
  require (not (ltb max_file_size_bytes upload.size)) too_large
  submit current_user upload
