-- ===== src/Interviews/Owned.antt =====
-- Every reminder that the scheduler holds belongs to an interview.
use ats_smart_backend.Prelude.{
  ℕ, ◌≡◌, refl, sym, ◌∙◌, ap, subst, Bool, true, false, Option, none, some, List, [], ◌∷◌, All,
  All-imp, filter, any, not, ◌==◌, ==_iff, arith, Bool-cases, inl, inr, ◌||◌,
}
use mathlib.Core.Bool.{false≢true}
use ats_smart_backend.Sessions.{assign}
use ats_smart_backend.Interviews.Reminders.{answered}
use ats_smart_backend.Interviews.{
  Job, Turn, Meeting, Interview, World, is_among, cancel_interview_reminder,
  schedule_interview_reminder, jobs_for, ids_or_none,
}

-- Does an interview list a job?
unfoldable pub listed : Option (List ℕ) → ℕ → Bool
unfolding is_among
listed none id = false
listed (some ids) id = is_among ids id

unfoldable pub Owned : (ℕ → Option Interview) → Job → Type 0
unfolding listed
Owned interviews job =
    (k : ℕ) × (row : Interview) × (interviews k ≡ some row)
    × (listed row.reminder_job_ids job.id ≡ true)

unfoldable pub IsOwned : World → Type 0
unfolding Owned
IsOwned world = All (Owned world.interviews) world.jobs

pub jobs-IsOwned : (world : World) → All (Owned world.interviews) world.jobs → IsOwned world
unfolding IsOwned
jobs-IsOwned world h = h

pub IsOwned-jobs : (world : World) → IsOwned world → All (Owned world.interviews) world.jobs
unfolding IsOwned
IsOwned-jobs world h = h

assign-here : (m : ℕ → Option Interview) (i : ℕ) (o : Option Interview) → assign i o m i ≡ o
unfolding assign
assign-here m i o = rw ((==_iff i i).1 refl, assign) refl

-- A row that is written keeps the jobs that the row before it listed.
pub assign-Owned :
    (m : ℕ → Option Interview) (i : ℕ) (r : Interview) (job : Job)
    → ((row : Interview)
        → m i ≡ some row
        → listed row.reminder_job_ids job.id ≡ true
        → listed r.reminder_job_ids job.id ≡ true)
    → Owned m job
    → Owned (assign i (some r) m) job
unfolding assign Owned
assign-Owned m i r job keeps (k, row, found_row, lists) = elim (Bool-cases (k == i)) [
  | inl same ↦ (
    k,
    r,
    rw (same, assign) refl,
    keeps row (subst (λ n. m n ≡ some row) ((==_iff k i).0 same) found_row) lists,
  )
  | inr other ↦ (k, row, rw (other, assign) found_row, lists)
]

pub remove-Owned :
    (m : ℕ → Option Interview) (i : ℕ) (job : Job)
    → ((row : Interview) → m i ≡ some row → listed row.reminder_job_ids job.id ≡ false)
    → Owned m job
    → Owned (assign i none m) job
unfolding assign Owned
remove-Owned m i job gone (k, row, found_row, lists) = elim (Bool-cases (k == i)) [
  | inl same ↦ absurd (
      false≢true
        (sym (gone row (subst (λ n. m n ≡ some row) ((==_iff k i).0 same) found_row)) ∙ lists))
  | inr other ↦ (k, row, rw (other, assign) found_row, lists)
]

filter-All-and :
    (P : Job → Type 0) (p : Job → Bool) (jobs : List Job)
    → All P jobs
    → All (λ job. P job × (p job ≡ true)) (filter p jobs)
unfolding filter
filter-All-and P p [] h = tt
filter-All-and P p (job ∷ jobs) h = elim (Bool-cases (p job)) [
  | inl kept ↦ rw kept ((h.0, kept), filter-All-and P p jobs h.1)
  | inr gone ↦ rw gone (filter-All-and P p jobs h.1)
]

not-true : (b : Bool) → not b ≡ true → b ≡ false
not-true true h = absurd (false≢true h)
not-true false h = refl

pub cancel-All :
    (P : Job → Type 0) (turn : Turn) (ids : Option (List ℕ)) (jobs : List Job)
    → turn.cancel_outage ≡ none
    → All P jobs
    → All (λ job. P job × (listed ids job.id ≡ false)) (cancel_interview_reminder turn ids jobs)
unfolding cancel_interview_reminder listed answered
cancel-All P turn none jobs up h = All-imp P _ jobs (λ job p. (p, refl)) h
cancel-All P turn (some ids) jobs up h =
    subst
      (λ o.
        All (λ job. P job × (is_among ids job.id ≡ false))
          (filter (λ job. not (is_among (answered o ids) job.id)) jobs))
      (sym up)
      (All-imp _ _ _ (λ job p. (p.0, not-true _ p.1))
        (filter-All-and P (λ job. not (is_among ids job.id)) jobs h))

scheduled_ids :
    (turn : Turn) (meeting : Meeting) (jobs : List Job)
    → turn.enqueue_outage ≡ none
    → (schedule_interview_reminder turn meeting jobs).1
      ≡ turn.candidate_job ∷ turn.interviewer_job ∷ []
unfolding schedule_interview_reminder
scheduled_ids turn meeting jobs up = rw up refl

is_among-head : (id : ℕ) (ids : List ℕ) → is_among (id ∷ ids) id ≡ true
unfolding is_among any
is_among-head id ids = ap (λ b. b || any (λ i. i == id) ids) ((==_iff id id).1 refl)

is_among-cons : (i id : ℕ) (ids : List ℕ) → is_among ids id ≡ true → is_among (i ∷ ids) id ≡ true
unfolding is_among any
is_among-cons i id ids h = ground (arith, h)

-- The new jobs are listed by the row that gets their ids.
pub scheduled-Owned :
    (m : ℕ → Option Interview) (i : ℕ) (r : Interview) (turn : Turn) (meeting : Meeting)
    (jobs : List Job)
    → turn.enqueue_outage ≡ none
    → r.reminder_job_ids ≡ ids_or_none (schedule_interview_reminder turn meeting jobs).1
    → All (Owned (assign i (some r) m)) jobs
    → All (Owned (assign i (some r) m)) (schedule_interview_reminder turn meeting jobs).0
unfolding schedule_interview_reminder Owned jobs_for ids_or_none
scheduled-Owned m i r turn meeting jobs up h owned = rw up (
  (i, r, assign-here m i (some r), lists turn.candidate_job first),
  ((i, r, assign-here m i (some r), lists turn.interviewer_job second), owned),
)
  where
    lists :
        (id : ℕ)
        → is_among (turn.candidate_job ∷ turn.interviewer_job ∷ []) id ≡ true
        → listed r.reminder_job_ids id ≡ true
    lists id k =
        subst (λ o. listed o id ≡ true)
          (sym (h ∙ ap ids_or_none (scheduled_ids turn meeting jobs up))) k

    first : is_among (turn.candidate_job ∷ turn.interviewer_job ∷ []) turn.candidate_job ≡ true
    first = is_among-head turn.candidate_job (turn.interviewer_job ∷ [])

    second : is_among (turn.candidate_job ∷ turn.interviewer_job ∷ []) turn.interviewer_job ≡ true
    second =
        is_among-cons turn.candidate_job turn.interviewer_job (turn.interviewer_job ∷ [])
          (is_among-head turn.interviewer_job [])
