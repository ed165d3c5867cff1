-- ===== src/Tests/Interviews.antt =====
-- An interview that is made, moved and deleted.
use ats_smart_backend.Prelude.{
  codes, ℕ, ◌+◌, ◌*◌, ◌≡◌, refl, Bool, Option, none, some, [], ◌∷◌, ◌==◌, if◌then◌else◌, map, ◌/◌,
}
use ats_smart_backend.Exec.{◌>>=◌}
use ats_smart_backend.Interviews.{
  Person, Profile, Directory, World, Turn, Interview, InterviewCreateRequest,
  InterviewUpdateRequest, create_interview, update_interview, delete_interview,
}
use ats_smart_backend.Interviews.Owned.{IsOwned}
use ats_smart_backend.Interviews.Reach.{Reach, start, created, updated, Reach-IsOwned}

abbrev hour : ℕ
hour = 3600

abbrev manager : Person
manager = record { id = 1; email = codes "hr@x.ir"; role = "HR_Manager"; tenant_id = some 7 }

abbrev sara : Person
sara = record { id = 2; email = codes "sara@x.ir"; role = "Candidate"; tenant_id = none }

abbrev user_of : ℕ → Option Person
user_of id = if id == 1 then some manager else if id == 2 then some sara else none

abbrev directory : Directory
directory = record {
  users = user_of;
  candidates = λ id. some (record { user_id = 2; first_name = codes "Sara"; last_name = codes "" });
  applications = λ id. if id == 4 then some 5 else none;
}

abbrev is_space : ℕ → Bool
is_space c = c == b' '

abbrev mean : ℕ → ℕ → ℕ
mean sum count = sum * 100 / count

abbrev at_hour : ℕ → ℕ → Turn
at_hour h first_job = record {
  now = h * hour;
  candidate_job = first_job;
  interviewer_job = first_job + 1;
  cancel_outage = none;
  enqueue_outage = none;
}

abbrev booking : InterviewCreateRequest
booking = record {
  application_id = 4;
  interviewer_id = 1;
  scheduled_at = 100 * hour;
  meeting_link = codes "https://meet";
}

-- The moment is moved to less than a day ahead.
abbrev sooner : InterviewUpdateRequest
sooner = record {
  interviewer_id = none;
  scheduled_at = some (some (30 * hour));
  meeting_link = none;
}

abbrev empty : World
empty = record { interviews = λ id. none; jobs = [] }

abbrev booked : World
booked = (create_interview 7 directory is_space (at_hour 10 21) manager 9 booking empty).0

abbrev moved : World
moved = (update_interview 7 directory is_space (at_hour 11 23) manager 9 sooner booked).0

booked_reminders :
    map {B = ℕ × ℕ} (λ job. (job.id, job.at)) booked.jobs ≡ (21, 76 * 3600) ∷ (22, 76 * 3600) ∷ []
unfolding create_interview ◌>>=◌ ats_smart_backend.Interviews.role_in
    ats_smart_backend.Interviews.get_valid_interviewer ats_smart_backend.Interviews.of_tenant
    ats_smart_backend.Interviews.get_candidate_contact ats_smart_backend.Interviews.book
    ats_smart_backend.Interviews.schedule_for
booked_reminders = refl

moved_reminders :
    map {B = ℕ × ℕ} (λ job. (job.id, job.at)) moved.jobs ≡ (23, 11 * 3600) ∷ (24, 11 * 3600) ∷ []
unfolding create_interview ◌>>=◌ ats_smart_backend.Interviews.role_in
    ats_smart_backend.Interviews.get_valid_interviewer ats_smart_backend.Interviews.of_tenant
    ats_smart_backend.Interviews.get_candidate_contact ats_smart_backend.Interviews.book
    ats_smart_backend.Interviews.schedule_for update_interview
    ats_smart_backend.Interviews.chosen_interviewer ats_smart_backend.Interviews.needs_reschedule
    ats_smart_backend.Interviews.reschedule ats_smart_backend.Interviews.remind
    ats_smart_backend.Interviews.rebook ats_smart_backend.Interviews.with_update
    ats_smart_backend.Interviews.cancel_interview_reminder ats_smart_backend.Sessions.assign
    ats_smart_backend.Interviews.ids_or_none
moved_reminders = refl

Reach-moved : Reach 7 directory is_space mean moved
Reach-moved =
    updated (at_hour 11 23) manager 9 sooner refl refl
      (created (at_hour 10 21) manager 9 booking refl refl refl (start (λ id. none)))

Reach-IsOwned_example : IsOwned moved
Reach-IsOwned_example = Reach-IsOwned 7 directory is_space mean moved Reach-moved
