-- ===== src/Board/Hired.antt =====
-- Nobody is hired past a stage.
use ats_smart_backend.Prelude.{
  ℕ, String, ◌≡◌, refl, Bool, true, some, List, All, any, subst, str_eq,
}
use ats_smart_backend.StateMachine.{
  applied, screening, technical_interview, hr_interview, offer, accepted, hired, value,
  funnel_stages,
}
use ats_smart_backend.Tenancy.{TenantContext}
use ats_smart_backend.Board.{Application, StatusHistory, Db, find_application}
use ats_smart_backend.Board.Tables.{rows, find_application-All}
use ats_smart_backend.Board.Trail.{Trail, Explains}
use ats_smart_backend.Board.Reach.{Reach, Reach-IsConsistent}
use ats_smart_backend.Board.Stages.{
  last_row, stage_before, only_applied, only_screening, only_technical, only_hr, only_offer,
  only_accepted, not_draft,
}

abbrev everywhere : ℕ → ℕ → Bool
everywhere i t = true

-- Some row of the history says that the stage was entered.
abbrev pub Entered : List StatusHistory → String → Type 0
Entered l stage = any (λ h. str_eq h.new_status stage) l ≡ true

module _ (i t : ℕ) (l : List StatusHistory) (k : Trail i t l (value hired)) where
  stages_of_hired : All (Entered l) funnel_stages
  stages_of_hired =
      let back = stage_before everywhere in
      let r7 : Entered l (value hired) =
        last_row everywhere hired (not_draft hired (λ e. cc)) i t l (value hired) k refl refl in
      let r6 : Entered l (value accepted) =
        back accepted hired (not_draft accepted (λ e. cc)) only_accepted i t l (value hired) k r7 in
      let r5 : Entered l (value offer) =
        back offer accepted (not_draft offer (λ e. cc)) only_offer i t l (value hired) k r6 in
      let r4 : Entered l (value hr_interview) =
        back hr_interview offer (not_draft hr_interview (λ e. cc)) only_hr i t l (value hired) k
          r5 in
      let r3 : Entered l (value technical_interview) =
        back technical_interview hr_interview (not_draft technical_interview (λ e. cc))
          only_technical i t l (value hired) k r4 in
      let r2 : Entered l (value screening) =
        back screening technical_interview (not_draft screening (λ e. cc)) only_screening i t l
          (value hired) k r3 in
      let r1 : Entered l (value applied) =
        back applied screening (not_draft applied (λ e. cc)) only_applied i t l (value hired) k
          r2 in
      (r1, (r2, (r3, (r4, (r5, (r6, (r7, tt)))))))

-- In every database that the handlers reach, the history of an application that is hired has a row for
-- every stage of the funnel: no stage was skipped.
pub Reach-hired :
    (context : TenantContext) (i : ℕ) (db : Db) (a : Application)
    → Reach db
    → find_application context i db.applications ≡ some a
    → a.current_status ≡ value hired
    → All (Entered (rows a.id db.history)) funnel_stages
Reach-hired context i db a r row e =
    let own =
      find_application-All context i (Explains db.history) db.applications
        (Reach-IsConsistent r).explained row in
    stages_of_hired a.id a.tenant_id (rows a.id db.history)
      (subst (Trail a.id a.tenant_id (rows a.id db.history)) e own)
