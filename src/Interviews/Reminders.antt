-- ===== src/Interviews/Reminders.antt =====
-- app/core/interview_scheduler.py: the reminders of an interview, over the jobs that the scheduler holds.
-- Redis may stop answering after a number of calls: `some n` says that the first n calls succeed.
use ats_smart_backend.Prelude.{
  ℕ, ◌-◌, ◌*◌, Bool, Option, none, some, List, [], ◌∷◌, ◌++◌, filter, any, not, ltb, ◌==◌,
  if◌then◌else◌, take,
}
use ats_smart_backend.Search.{Text}

-- A job of rq-scheduler: a call of `send_interview_reminder_email_task` at a moment
pub record Job : Type 0 where
  pub id : ℕ
  pub at : ℕ
  pub recipient_email : Text
  pub recipient_name : Text
  pub candidate_name : Text
  pub interviewer_name : Text
  pub scheduled_at : ℕ
  pub meeting_link : Text

-- `REMINDER_LEAD_TIME`, in seconds
abbrev pub reminder_lead_time : ℕ
reminder_lead_time = 24 * 3600

-- The subtraction stops at zero, where the source's is in the past too.
unfoldable pub effective_time : ℕ → ℕ → ℕ
effective_time now scheduled_at =
    let reminder_time = scheduled_at - reminder_lead_time in
    if ltb now reminder_time then reminder_time else now

-- The calls that Redis answers
unfoldable pub answered : {A : Type 0} → Option ℕ → List A → List A
answered none calls = calls
answered (some n) calls = take n calls

-- What one call of a handler meets: the moment, the ids of the two jobs that the library makes, and
-- after how many calls Redis fails, if it does
pub record Turn : Type 0 where
  pub now : ℕ
  pub candidate_job : ℕ
  pub interviewer_job : ℕ
  pub cancel_outage : Option ℕ
  pub enqueue_outage : Option ℕ

-- The arguments of a reminder
pub record Meeting : Type 0 where
  pub scheduled_at : ℕ
  pub candidate_email : Text
  pub candidate_name : Text
  pub interviewer_email : Text
  pub interviewer_name : Text
  pub meeting_link : Text

unfoldable pub job_for : Turn → Meeting → ℕ → Text → Text → Job
unfolding effective_time
job_for turn meeting id email name = record {
  id = id;
  at = effective_time turn.now meeting.scheduled_at;
  recipient_email = email;
  recipient_name = name;
  candidate_name = meeting.candidate_name;
  interviewer_name = meeting.interviewer_name;
  scheduled_at = meeting.scheduled_at;
  meeting_link = meeting.meeting_link;
}

unfoldable pub jobs_for : Turn → Meeting → List Job
unfolding job_for
jobs_for turn meeting =
    job_for turn meeting turn.candidate_job meeting.candidate_email meeting.candidate_name
    ∷ job_for turn meeting turn.interviewer_job meeting.interviewer_email meeting.interviewer_name
    ∷ []

-- Any exception is logged, and no id is given back.
unfoldable pub schedule_interview_reminder : Turn → Meeting → List Job → List Job × List ℕ
unfolding jobs_for answered
schedule_interview_reminder turn meeting jobs = (
  answered turn.enqueue_outage (jobs_for turn meeting) ++ jobs,
  elim turn.enqueue_outage [
    | none ↦ turn.candidate_job ∷ turn.interviewer_job ∷ []
    | some n ↦ if ltb n 2 then [] else turn.candidate_job ∷ turn.interviewer_job ∷ []
  ],
)

unfoldable pub is_among : List ℕ → ℕ → Bool
unfolding any
is_among ids id = any (λ i. i == id) ids

-- The `cancel` of each id in turn; an exception ends the loop and is logged.
unfoldable pub cancel_interview_reminder : Turn → Option (List ℕ) → List Job → List Job
unfolding answered is_among filter
cancel_interview_reminder turn none jobs = jobs
cancel_interview_reminder turn (some job_ids) jobs =
    filter (λ job. not (is_among (answered turn.cancel_outage job_ids) job.id)) jobs
