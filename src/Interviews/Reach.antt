-- ===== src/Interviews/Reach.antt =====
-- Every handler of app/routers/interviews.py keeps each reminder owned, whatever it answers.
use ats_smart_backend.Prelude.{
  ℕ, ◌≡◌, refl, sym, ◌∙◌, ap, subst, Bool, true, false, Option, none, some, List, [], All, All-imp,
  All-filter, filter, not, ◌==◌, arith, if◌then◌else◌,
}
use mathlib.Core.Bool.{false≢true}
use mathlib.Core.Option.{some-injective, none-ne-some}
use ats_smart_backend.Exec.{Result, after, after_require, after_found, after_get, after_put, ◌>>=◌}
use ats_smart_backend.Search.{Text}
use ats_smart_backend.Sessions.{assign}
use ats_smart_backend.Interviews.Owned.{
  listed, Owned, IsOwned, jobs-IsOwned, IsOwned-jobs, assign-Owned, remove-Owned, cancel-All,
  scheduled-Owned,
}
use ats_smart_backend.Interviews.{
  needs_reschedule, drop_interview, with_evaluation, book, rebook, Job, Turn, Interview, World,
  Error, Person, Directory, forbidden, application_not_found, interview_not_found,
  internal_server_error, create_interview, update_interview, delete_interview,
  submit_interview_evaluation, reschedule, remind, InterviewCreateRequest, InterviewUpdateRequest,
  InterviewEvaluationRequest, save_interview, with_update, get_valid_interviewer,
  get_candidate_contact, chosen_interviewer, schedule_for,
}

-- The reads of the handlers leave the state.
module _ (tenant : ℕ) (directory : Directory) (is_space : ℕ → Bool) where
  get_valid_interviewer_state :
      (id : Option ℕ) (w : World) → (get_valid_interviewer tenant directory is_space id w).0 ≡ w
  unfolding get_valid_interviewer ◌>>=◌
  get_valid_interviewer_state none w = refl
  get_valid_interviewer_state (some id) w = ground arith

  get_candidate_contact_state :
      (id : ℕ) (w : World) → (get_candidate_contact tenant directory is_space id w).0 ≡ w
  unfolding get_candidate_contact ◌>>=◌
  get_candidate_contact_state id w = ground arith

  chosen_interviewer_state :
      (id : Option (Option ℕ)) (w : World)
      → (chosen_interviewer tenant directory is_space id w).0 ≡ w
  unfolding chosen_interviewer ◌>>=◌ get_valid_interviewer
  chosen_interviewer_state none w = refl
  chosen_interviewer_state (some none) w = refl
  chosen_interviewer_state (some (some id)) w = ground arith

abbrev Keeps : {A : Type 0} → World × Result Error A → Type 0
Keeps p = IsOwned p.0

-- A step that reads, in a proof that the state stays owned
after_read :
    {A B : Type 0} (w : World) (m : World → World × Result Error A)
    (f : A → World → World × Result Error B)
    → (m w).0 ≡ w
    → IsOwned w
    → ((a : A) → Keeps (f a w))
    → Keeps ((m >>= f) w)
after_read w m f same h k =
    after Keeps w (λ p. p.0 ≡ w) m f same (λ t e there. subst IsOwned (sym there) h)
      (λ t a there. subst (λ u. Keeps (f a u)) (sym there) (k a))

-- What is left after the jobs of a row were cancelled, under a new row in its place
left-Owned :
    (m : ℕ → Option Interview) (i : ℕ) (ids : Option (List ℕ)) (interview r : Interview) (job : Job)
    → m i ≡ some interview
    → ids ≡ interview.reminder_job_ids
    → Owned m job × (listed ids job.id ≡ false)
    → Owned (assign i (some r) m) job
left-Owned m i ids interview r job there same p =
    assign-Owned m i r job (λ row k lists. absurd (false≢true (sym (not_listed row k p.1) ∙ lists)))
      p.0
  where
    not_listed :
        (row : Interview)
        → m i ≡ some row
        → listed ids job.id ≡ false
        → listed row.reminder_job_ids job.id ≡ false
    not_listed row k gone =
        subst (λ x. listed x.reminder_job_ids job.id ≡ false)
          (some-injective interview row (sym there ∙ k))
          (subst (λ o. listed o job.id ≡ false) same gone)

save-IsOwned :
    (i : ℕ) (row interview : Interview) (world : World)
    → world.interviews i ≡ some interview
    → row.reminder_job_ids ≡ interview.reminder_job_ids
    → IsOwned world
    → All (Owned (assign i (some row) world.interviews)) world.jobs
save-IsOwned i row interview world there same h =
    All-imp _ _ world.jobs
      (λ job. assign-Owned world.interviews i row job (λ r k lists.
        subst (λ o. listed o job.id ≡ true)
          (ap (λ x. x.reminder_job_ids) (some-injective r interview (sym k ∙ there)) ∙ sym same)
          lists))
      (IsOwned-jobs world h)

save_interview-IsOwned :
    (i : ℕ) (row interview : Interview) (world : World)
    → world.interviews i ≡ some interview
    → row.reminder_job_ids ≡ interview.reminder_job_ids
    → IsOwned world
    → IsOwned (save_interview i row world).0
unfolding save_interview ◌>>=◌
save_interview-IsOwned i row interview world there same h =
    jobs-IsOwned _ (save-IsOwned i row interview world there same h)

submit_interview_evaluation-IsOwned :
    (mean : ℕ → ℕ → ℕ) (now : ℕ) (user : Person) (i : ℕ) (payload : InterviewEvaluationRequest)
    (world : World)
    → IsOwned world
    → IsOwned (submit_interview_evaluation mean now user i payload world).0
unfolding submit_interview_evaluation with_evaluation
submit_interview_evaluation-IsOwned mean now user i payload world h = after_get Keeps world _ (
    after_found Keeps world _ interview_not_found _ (λ no. h)
      (λ interview there.
        after_require Keeps world _ forbidden _ (λ no. h)
          (λ yes. save_interview-IsOwned i _ interview world there refl h)))

module _ (turn : Turn) (cancels : turn.cancel_outage ≡ none) where
  drop_interview-IsOwned :
      (i : ℕ) (interview : Interview) (world : World)
      → world.interviews i ≡ some interview
      → IsOwned world
      → IsOwned (drop_interview turn i interview world).0
  unfolding drop_interview ◌>>=◌
  drop_interview-IsOwned i interview world there h = jobs-IsOwned _ (
      All-imp _ _ _
        (λ job p.
          remove-Owned world.interviews i job
            (λ row k.
              ap (λ x. listed x.reminder_job_ids job.id)
                (some-injective row interview (sym k ∙ there))
              ∙ p.1)
            p.0)
        (cancel-All (Owned world.interviews) turn interview.reminder_job_ids world.jobs cancels
          (IsOwned-jobs world h)))

  delete_interview-IsOwned :
      (user : Person) (i : ℕ) (world : World)
      → IsOwned world
      → IsOwned (delete_interview turn user i world).0
  unfolding delete_interview
  delete_interview-IsOwned user i world h =
      after_require Keeps world _ forbidden _ (λ no. h)
        (λ yes. after_get Keeps world _ (
          after_found Keeps world _ interview_not_found _ (λ no. h)
            (λ interview there. drop_interview-IsOwned i interview world there h)))

module _ (tenant : ℕ) (directory : Directory) (is_space : ℕ → Bool) (turn : Turn)
    (cancels : turn.cancel_outage ≡ none) (enqueues : turn.enqueue_outage ≡ none) where
  book-IsOwned :
      (fresh : ℕ) (payload : InterviewCreateRequest) (interviewer : Person) (contact : Text × Text)
      (world : World)
      → world.interviews fresh ≡ none
      → IsOwned world
      → IsOwned (book turn fresh payload interviewer contact world).0
  unfolding book schedule_for ◌>>=◌
  book-IsOwned fresh payload interviewer contact world new h = jobs-IsOwned _ (
      scheduled-Owned world.interviews fresh _ turn _ world.jobs enqueues refl (
        All-imp _ _ world.jobs
          (λ job.
            assign-Owned world.interviews fresh _ job
              (λ row k. absurd (none-ne-some row (sym new ∙ k))))
          (IsOwned-jobs world h)))

  create_interview-IsOwned :
      (user : Person) (fresh : ℕ) (payload : InterviewCreateRequest) (world : World)
      → world.interviews fresh ≡ none
      → IsOwned world
      → IsOwned (create_interview tenant directory is_space turn user fresh payload world).0
  unfolding create_interview
  create_interview-IsOwned user fresh payload world new h =
      after_require Keeps world _ forbidden _ (λ no. h)
        (λ yes.
          after_found Keeps world _ application_not_found _ (λ no. h)
            (λ candidate_id there.
              after_read world _ _
                (get_valid_interviewer_state tenant directory is_space (some payload.interviewer_id)
                  world)
                h
                (λ interviewer.
                  after_read world _ _
                    (get_candidate_contact_state tenant directory is_space candidate_id world) h
                    (λ contact. book-IsOwned fresh payload interviewer contact world new h))))

  -- A row whose jobs were all cancelled gets its new ones.
  IsCleared : ℕ → Interview → World → Type 0
  IsCleared i row world =
      (interview : Interview) × (world.interviews i ≡ some interview)
      × (row.reminder_job_ids ≡ interview.reminder_job_ids)
      × All (λ job. Owned world.interviews job × (listed row.reminder_job_ids job.id ≡ false))
          world.jobs

  IsCleared-IsOwned :
      (i : ℕ) (row : Interview) (world : World) → IsCleared i row world → IsOwned world
  unfolding IsCleared
  IsCleared-IsOwned i row world (interview, there, same, left) =
      jobs-IsOwned world (All-imp _ _ _ (λ job p. p.0) left)

  rebook-IsOwned :
      (interviewer : Option Person) (i : ℕ) (row : Interview) (contact : Text × Text)
      (scheduled_at : ℕ) (world : World)
      → IsCleared i row world
      → IsOwned
          (rebook tenant directory is_space turn interviewer i row contact scheduled_at world).0
  unfolding rebook schedule_for ◌>>=◌ IsCleared
  rebook-IsOwned interviewer i row contact scheduled_at world (interview, there, same, left) =
      jobs-IsOwned _ (
        scheduled-Owned world.interviews i _ turn _ world.jobs enqueues refl (
          All-imp _ _ world.jobs
            (λ job. left-Owned world.interviews i row.reminder_job_ids interview _ job there same)
            left))

  remind-IsOwned :
      (interviewer : Option Person) (i : ℕ) (row : Interview) (world : World)
      → IsCleared i row world
      → IsOwned (remind tenant directory is_space turn interviewer i row world).0
  unfolding remind
  remind-IsOwned interviewer i row world c =
      after_found Keeps world _ application_not_found _ (λ no. IsCleared-IsOwned i row world c)
        (λ candidate_id k.
          after_read world _ _
            (get_candidate_contact_state tenant directory is_space candidate_id world)
            (IsCleared-IsOwned i row world c)
            (λ contact.
              after_found Keeps world _ internal_server_error _
                (λ no. IsCleared-IsOwned i row world c)
                (λ scheduled_at l. rebook-IsOwned interviewer i row contact scheduled_at world c)))

  reschedule-IsOwned :
      (interviewer : Option Person) (i : ℕ) (row interview : Interview) (world : World)
      → world.interviews i ≡ some interview
      → row.reminder_job_ids ≡ interview.reminder_job_ids
      → IsOwned world
      → IsOwned (reschedule tenant directory is_space turn interviewer i row world).0
  unfolding reschedule IsCleared
  reschedule-IsOwned interviewer i row interview world there same h = after_get Keeps world _ (
      after_put Keeps world _ _ (
        remind-IsOwned interviewer i row _ (
          interview,
          there,
          same,
          cancel-All (Owned world.interviews) turn row.reminder_job_ids world.jobs cancels
              (IsOwned-jobs world h),
        )))

  update_interview-IsOwned :
      (user : Person) (i : ℕ) (payload : InterviewUpdateRequest) (world : World)
      → IsOwned world
      → IsOwned (update_interview tenant directory is_space turn user i payload world).0
  unfolding update_interview with_update
  update_interview-IsOwned user i payload world h =
      after_require Keeps world _ forbidden _ (λ no. h)
        (λ yes. after_get Keeps world _ (
          after_found Keeps world _ interview_not_found _ (λ no. h)
            (λ interview there.
              after_read world _ _
                (chosen_interviewer_state tenant directory is_space payload.interviewer_id world) h
                (λ interviewer.
                  either_way (needs_reschedule payload) interviewer interview there))))
    where
      either_way :
          (b : Bool) (interviewer : Option Person) (interview : Interview)
          → world.interviews i ≡ some interview
          → IsOwned
              ((if b
                  then reschedule tenant directory is_space turn interviewer i
                      (with_update payload interview)
                  else save_interview i (with_update payload interview))
                world).0
      either_way true interviewer interview there =
          reschedule-IsOwned interviewer i (with_update payload interview) interview world there
            refl h
      either_way false interviewer interview there =
          save_interview-IsOwned i (with_update payload interview) interview world there refl h

-- What one request does, while Redis answers: a handler by any user, or the scheduler runs a job.
module _ (tenant : ℕ) (directory : Directory) (is_space : ℕ → Bool) (mean : ℕ → ℕ → ℕ) where
  pub data Reach : World → Type 0 where
    start :
        (interviews : ℕ → Option Interview) → Reach (record { interviews = interviews; jobs = [] })
    created :
        {world : World} (turn : Turn) (user : Person) (fresh : ℕ) (payload : InterviewCreateRequest)
        → turn.cancel_outage ≡ none
        → turn.enqueue_outage ≡ none
        → world.interviews fresh ≡ none
        → Reach world
        → Reach (create_interview tenant directory is_space turn user fresh payload world).0
    updated :
        {world : World} (turn : Turn) (user : Person) (i : ℕ) (payload : InterviewUpdateRequest)
        → turn.cancel_outage ≡ none
        → turn.enqueue_outage ≡ none
        → Reach world
        → Reach (update_interview tenant directory is_space turn user i payload world).0
    evaluated :
        {world : World} (now : ℕ) (user : Person) (i : ℕ) (payload : InterviewEvaluationRequest)
        → Reach world
        → Reach (submit_interview_evaluation mean now user i payload world).0
    deleted :
        {world : World} (turn : Turn) (user : Person) (i : ℕ)
        → turn.cancel_outage ≡ none
        → Reach world
        → Reach (delete_interview turn user i world).0
    executed :
        {world : World} (id : ℕ)
        → Reach world
        → Reach (record world { jobs = filter (λ job. not (job.id == id)) world.jobs })

  -- While Redis answers, the scheduler never holds a reminder that no interview lists: from an empty
  -- scheduler, after any requests by any users, accepted or refused, and any executed jobs, each job that
  -- is left is listed by an interview that exists, so that moving or deleting the interview cancels it.
  pub Reach-IsOwned : (world : World) → Reach world → IsOwned world
  Reach-IsOwned _ (start interviews) = jobs-IsOwned _ tt
  Reach-IsOwned _ (created {world} turn user fresh payload cancels enqueues new r) =
      create_interview-IsOwned tenant directory is_space turn cancels enqueues user fresh payload
        world new (Reach-IsOwned world r)
  Reach-IsOwned _ (updated {world} turn user i payload cancels enqueues r) =
      update_interview-IsOwned tenant directory is_space turn cancels enqueues user i payload world
        (Reach-IsOwned world r)
  Reach-IsOwned _ (evaluated {world} now user i payload r) =
      submit_interview_evaluation-IsOwned mean now user i payload world (Reach-IsOwned world r)
  Reach-IsOwned _ (deleted {world} turn user i cancels r) =
      delete_interview-IsOwned turn cancels user i world (Reach-IsOwned world r)
  Reach-IsOwned _ (executed {world} id r) =
      jobs-IsOwned _ (All-filter _ _ world.jobs (IsOwned-jobs world (Reach-IsOwned world r)))
