-- ===== src/Tests/Board.antt =====
-- One application from its upload to the hiring, and the theorems of the board there.
use ats_smart_backend.Prelude.{
  codes, ℕ, String, ◌≡◌, ◌≢◌, ◌↔◌, refl, inl, true, none, some, [], ◌∷◌, All, filter,
}
use ats_smart_backend.Exec.{ok, raised, ◌>>=◌}
use ats_smart_backend.StateMachine.{
  ApplicationStatus, draft, applied, screening, technical_interview, hr_interview, offer, accepted,
  hired, rejected, is_transition_allowed, funnel_stages,
}
use ats_smart_backend.StateMachine.Moves.{
  Allowed, is_transition_allowed_iff, apply, screen, interview,
}
use ats_smart_backend.Tenancy.{TenantContext, tenant, candidate, visible, stamp}
use ats_smart_backend.Board.{
  User, Db, Application, Upload, accept, update_application_status, respond_to_offer, upload_resume,
  find_application, has_role, application_manager_roles, save, flush,
  get_or_create_candidate_profile, bad_format, business_logic_violation,
}
use ats_smart_backend.Board.Tables.{rows}
use ats_smart_backend.Board.Trail.{IsConsistent}
use ats_smart_backend.Board.Reach.{
  Reach, start, next, moved, responded, uploaded, IsFresh, Reach-IsConsistent,
}
use ats_smart_backend.Board.Funnel.{
  get_recruitment_funnel, NeverRises, get_recruitment_funnel-NeverRises,
}
use ats_smart_backend.Board.Hired.{Entered, Reach-hired}
use ats_smart_backend.Board.Handlers.{Outcome, update_application_status_lem}
use ats_smart_backend.Board.Course.{Course, stay, go, follow, HasStatus, Arrives, follow-Arrives}
use ats_smart_backend.Board.Once.{update_application_status-once}
use ats_smart_backend.Board.Offers.{
  update_application_status-closed, respond_to_offer-ne-business_logic_violation,
}

abbrev hr : User
hr = record { id = 1; email = "hr@acme.example"; role = "HR_Manager" }

abbrev sara : User
sara = record { id = 2; email = "sara@mail.example"; role = "Candidate" }

abbrev acme : TenantContext
acme = record { scope = tenant; tenant_id = some 7; user_id = some 1 }

abbrev outside : TenantContext
outside = record { scope = candidate; tenant_id = none; user_id = some 2 }

abbrev empty : Db
empty = record {
  jobs = record { id = 3; tenant_id = 7 } ∷ [];
  candidates = [];
  resumes = [];
  applications = [];
  history = [];
  started = [];
}

abbrev cv : Upload
cv = record {
  job_id = 3;
  content_type = some "application/pdf";
  filename = some (codes "cv.2026.PDF");
  size = 1000;
  file_url = "/media/cv.pdf";
  fresh_candidate = 50;
  fresh_resume = 60;
  fresh_application = 70;
  now = 10;
  committed = true;
}

abbrev drafted : Db
drafted = (upload_resume sara cv empty).0

abbrev move : ApplicationStatus → ApplicationStatus → Db → Db
move current new db = (update_application_status acme hr 11 70 current new db).0

abbrev offered : Db
offered = move hr_interview offer (
    move technical_interview hr_interview
      (move screening technical_interview (move applied screening (move draft applied drafted))))

abbrev joined : Db
joined = move accepted hired (respond_to_offer outside sara 51 12 70 accept offered).0

abbrev at : String → ℕ → Application
at status now = record {
  id = 70;
  job_id = 3;
  candidate_id = 50;
  tenant_id = 7;
  current_status = status;
  created_at = 10;
  updated_at = now;
}

upload_draft : find_application acme 70 drafted.applications ≡ some (at "Draft" 10)
unfolding upload_resume find_application ◌>>=◌ has_role get_or_create_candidate_profile visible
    stamp filter
upload_draft = refl

upload_refused :
    (upload_resume sara (record cv { filename = some (codes "cv.exe") }) empty).1
    ≡ raised bad_format
unfolding upload_resume has_role ◌>>=◌
upload_refused = refl

joined_hired : find_application acme 70 joined.applications ≡ some (at "Hired" 11)
unfolding upload_resume find_application update_application_status respond_to_offer save flush
    is_transition_allowed ◌>>=◌ has_role get_or_create_candidate_profile visible stamp filter
joined_hired = refl

fresh : IsFresh 70 empty
unfolding rows
fresh = record { no_application = tt; no_history = refl }

Reach-offered : Reach offered
Reach-offered =
    next
      (next
        (next
          (next
            (next (next (start empty refl refl) (uploaded sara cv fresh))
              (moved acme hr 11 70 draft applied))
            (moved acme hr 11 70 applied screening))
          (moved acme hr 11 70 screening technical_interview))
        (moved acme hr 11 70 technical_interview hr_interview))
      (moved acme hr 11 70 hr_interview offer)

Reach-joined : Reach joined
Reach-joined =
    next (next Reach-offered (responded outside sara 51 12 70 accept))
      (moved acme hr 11 70 accepted hired)

Reach-IsConsistent_example : IsConsistent joined
Reach-IsConsistent_example = Reach-IsConsistent Reach-joined

Reach-hired_example : All (Entered (rows 70 joined.history)) funnel_stages
Reach-hired_example = Reach-hired acme 70 joined (at "Hired" 11) Reach-joined joined_hired refl

funnel_offered :
    (get_recruitment_funnel acme hr (some 3) offered).1 ≡ ok (1 ∷ 1 ∷ 1 ∷ 1 ∷ 1 ∷ 0 ∷ 0 ∷ [])
unfolding get_recruitment_funnel upload_resume find_application update_application_status save flush
    is_transition_allowed ◌>>=◌ has_role get_or_create_candidate_profile visible stamp filter
funnel_offered = refl

get_recruitment_funnel-NeverRises_example : NeverRises (1 ∷ 1 ∷ 1 ∷ 1 ∷ 1 ∷ 0 ∷ 0 ∷ [])
get_recruitment_funnel-NeverRises_example =
    get_recruitment_funnel-NeverRises acme hr (some 3) offered (1 ∷ 1 ∷ 1 ∷ 1 ∷ 1 ∷ 0 ∷ 0 ∷ [])
      Reach-offered funnel_offered

is_transition_allowed_iff_example :
    (is_transition_allowed "Screening" "Hired" ≡ true) ↔ Allowed "Screening" "Hired"
is_transition_allowed_iff_example = is_transition_allowed_iff "Screening" "Hired"

update_application_status_lem_example :
    Outcome acme hr 11 70 screening hired drafted
      (update_application_status acme hr 11 70 screening hired drafted)
update_application_status_lem_example =
    update_application_status_lem acme hr 11 70 screening hired drafted

update_application_status-closed_example :
    (update_application_status acme hr 13 70 hired rejected joined).0 ≡ joined
update_application_status-closed_example =
    update_application_status-closed acme hr 13 70 hired rejected joined (at "Hired" 11)
      joined_hired (inl refl)

respond_to_offer-ne-business_logic_violation_example :
    (respond_to_offer outside sara 51 12 70 accept offered).1 ≢ raised business_logic_violation
respond_to_offer-ne-business_logic_violation_example =
    respond_to_offer-ne-business_logic_violation outside sara 51 12 70 accept offered

made :
    (update_application_status acme hr 11 70 draft applied drafted).1
    ≡ ok (record {
      application_id = 70;
      previous_status = "Draft";
      new_status = "Applied";
      updated_at = 11;
    })
unfolding upload_resume find_application update_application_status save flush is_transition_allowed
    ◌>>=◌ has_role get_or_create_candidate_profile visible stamp filter
made = refl

is_manager : has_role application_manager_roles hr ≡ true
unfolding has_role
is_manager = refl

update_application_status-once_example :
    update_application_status acme hr 12 70 draft rejected (move draft applied drafted)
    ≡ (move draft applied drafted, raised business_logic_violation)
update_application_status-once_example =
    update_application_status-once acme hr hr 11 12 70 draft applied rejected drafted
      (record {
        application_id = 70;
        previous_status = "Draft";
        new_status = "Applied";
        updated_at = 11;
      })
      made is_manager

abbrev interview_course : Course draft technical_interview
interview_course = go draft applied apply (
    go applied screening screen
      (go screening technical_interview interview (stay technical_interview)))

drafted_status : HasStatus acme hr 11 70 draft drafted
unfolding HasStatus
drafted_status = (at "Draft" 10, (upload_draft, refl))

stamped : stamp acme none ≡ some (some 7)
unfolding stamp
stamped = refl

follow-Arrives_example :
    Arrives acme hr 11 70 technical_interview (follow acme hr 11 70 interview_course drafted)
follow-Arrives_example =
    follow-Arrives acme hr 11 70 is_manager 7 stamped interview_course drafted drafted_status
