-- ===== src/Board/Funnel.antt =====
-- `get_recruitment_funnel` of app/routers/analytics.py, and that its counts never rise from one stage
-- to the next.
use ats_smart_backend.Prelude.{
  false, ℕ, ◌≤◌, String, ◌≡◌, ◌≢◌, sym, ◌∙◌, Bool, true, Option, none, some, List, [], ◌∷◌, map,
  arith, ◌==◌, ◌&&◌, if◌then◌else◌, filter, any, subst,
}
use ats_smart_backend.Exec.{
  Result, ok, ok-injective, after_require, after_get, after_pure, after, pure, found, get, require,
  ◌>>=◌, ◌>>◌,
}
use ats_smart_backend.StateMachine.{
  ApplicationStatus, applied, screening, technical_interview, hr_interview, offer, accepted, hired,
  value, funnel_stages,
}
use ats_smart_backend.StateMachine.Moves.{Move}
use ats_smart_backend.Tenancy.{TenantContext, visible}
use ats_smart_backend.Board.{
  Error, User, Job, Application, StatusHistory, Db, Handler, has_role, forbidden, job_not_found,
}
use ats_smart_backend.Board.Distinct.{
  member, count_distinct, count_distinct-le, member-map-filter, any-filter,
}
use ats_smart_backend.Board.Stages.{
  counted, stage_before, only_applied, only_screening, only_technical, only_hr, only_offer,
  only_accepted, not_draft,
}
use ats_smart_backend.Board.Tables.{rows}
use ats_smart_backend.Board.Trail.{IsConsistent}
use ats_smart_backend.Board.Reach.{Reach, Reach-IsConsistent}

-- The join with the applications of one advert, if one is asked for.
joined : TenantContext → Option ℕ → List Application → ℕ → Bool
unfolding any
joined context none applications application_id = true
joined context (some job_id) applications application_id =
    any (λ a. a.id == application_id && (a.job_id == job_id && visible context false a.tenant_id))
      applications

-- The rows that the WHERE clauses keep, whatever their status: by application and tenant.
criteria : TenantContext → Option ℕ → List Application → ℕ → ℕ → Bool
unfolding joined
criteria context job_id applications application_id tenant_id =
    visible context false tenant_id && joined context job_id applications application_id

module _ (keep : ℕ → ℕ → Bool) where
  -- The group of a stage: how many applications have a row with it, and 0 if there is no group.
  stage_count : List StatusHistory → String → ℕ
  unfolding count_distinct filter
  stage_count history stage =
      count_distinct (map (λ h. h.application_id) (filter (counted keep stage) history))

unfoldable pub counts : TenantContext → Option ℕ → Db → List ℕ
unfolding criteria stage_count
counts context job_id db =
    map (stage_count (criteria context job_id db.applications) db.history) funnel_stages

find_job : TenantContext → ℕ → List Job → Option Job
find_job context job_id [] = none
find_job context job_id (j ∷ rest) =
    let found = find_job context job_id rest in
    if j.id == job_id && visible context false j.tenant_id then some j else found

-- `_ensure_job_exists`
ensure_job_exists : TenantContext → Option ℕ → Handler Unit
unfolding find_job
ensure_job_exists context none = pure tt
ensure_job_exists context (some job_id) = do
  db ← get
  found (find_job context job_id db.jobs) job_not_found
  pure tt

abbrev analytics_roles : List String
analytics_roles = "Admin" ∷ "HR_Manager" ∷ []

-- One count for each of `FUNNEL_STAGES`, in their order.
unfoldable pub get_recruitment_funnel : TenantContext → User → Option ℕ → Handler (List ℕ)
unfolding ensure_job_exists counts
get_recruitment_funnel context current_user job_id = do
  require (has_role analytics_roles current_user) forbidden
  ensure_job_exists context job_id
  db ← get
  pure (counts context job_id db)

-- Every count is at most the one before it.
abbrev pub NeverRises : List ℕ → Type 0
NeverRises [] = Unit
NeverRises (n ∷ []) = Unit
NeverRises (n ∷ m ∷ rest) = (m ≤ n) × NeverRises (m ∷ rest)

module _ (keep : ℕ → ℕ → Bool) (a b : ApplicationStatus) (first : value a ≢ "Draft")
    (only : (x : ApplicationStatus) → Move x b → x ≡ a) where
  counted_in_rows :
      (i : ℕ) (stage : String) (l : List StatusHistory)
      → member i (map (λ h. h.application_id) (filter (counted keep stage) l))
        ≡ any (counted keep stage) (rows i l)
  unfolding rows
  counted_in_rows i stage l =
      member-map-filter (λ h. h.application_id) (counted keep stage) i l
      ∙ sym (any-filter (λ h. h.application_id == i) (counted keep stage) l)

  stage_count-le :
      (db : Db)
      → IsConsistent db
      → stage_count keep db.history (value b) ≤ stage_count keep db.history (value a)
  unfolding stage_count
  stage_count-le db v = count_distinct-le _ _ λ i m.
      let (t, s, k) = v.trails i in
      counted_in_rows i (value a) db.history
      ∙ stage_before keep a b first only i t (rows i db.history) s k
          (sym (counted_in_rows i (value b) db.history) ∙ m)

counts-NeverRises :
    (context : TenantContext) (job_id : Option ℕ) (db : Db)
    → IsConsistent db
    → NeverRises (counts context job_id db)
unfolding counts
counts-NeverRises context job_id db v =
    let le = stage_count-le (criteria context job_id db.applications) in
    let p = le applied screening (not_draft applied (λ e. cc)) only_applied db v in
    let q = le screening technical_interview (not_draft screening (λ e. cc)) only_screening db v in
    let r =
      le technical_interview hr_interview (not_draft technical_interview (λ e. cc)) only_technical
        db v in
    let s = le hr_interview offer (not_draft hr_interview (λ e. cc)) only_hr db v in
    let t = le offer accepted (not_draft offer (λ e. cc)) only_offer db v in
    let u = le accepted hired (not_draft accepted (λ e. cc)) only_accepted db v in
    (p, (q, (r, (s, (t, (u, tt))))))

-- What the handler answers.
abbrev Answers : Db × Result Error (List ℕ) → Type 0
Answers r = (ns : List ℕ) → r.1 ≡ ok ns → NeverRises ns

ensure_job_exists-keeps :
    (context : TenantContext) (job_id : Option ℕ) (db : Db)
    → (ensure_job_exists context job_id db).0 ≡ db
unfolding ensure_job_exists ◌>>=◌
ensure_job_exists-keeps context job_id db = ground arith

-- In every database that the handlers reach, for every reader and with or without an advert: where the
-- funnel is answered, its counts never rise from one stage to the next.
pub get_recruitment_funnel-NeverRises :
    (context : TenantContext) (user : User) (job_id : Option ℕ) (db : Db) (ns : List ℕ)
    → Reach db
    → (get_recruitment_funnel context user job_id db).1 ≡ ok ns
    → NeverRises ns
unfolding get_recruitment_funnel
get_recruitment_funnel-NeverRises context user job_id db ns r h =
    after_require Answers db _ _ _ (λ _ ns e. cc)
      (λ _.
        after Answers db (λ p. p.0 ≡ db) _ _ (ensure_job_exists-keeps context job_id db)
          (λ _ _ _ ns e. cc)
          λ db' _ same. after_get Answers db' _ (
            after_pure Answers db' _ (λ ns e. subst NeverRises (ok-injective e) (
              counts-NeverRises context job_id db'
                (subst IsConsistent (sym same) (Reach-IsConsistent r))))))
      ns h
