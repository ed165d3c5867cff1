-- ===== src/Board/Course.antt =====
-- A whole course of an application, request by request.
use ats_smart_backend.Prelude.{ℕ, ◌≡◌, refl, ◌∙◌, ap, true, none, some, List, [], ◌∷◌, eq_iff, All}
use ats_smart_backend.Exec.{Result, ok, step_require, step_get, step_found, step_put, step_pure}
use ats_smart_backend.StateMachine.{ApplicationStatus, value}
use ats_smart_backend.StateMachine.Moves.{Move, is_transition_allowed-Move}
use ats_smart_backend.Tenancy.{TenantContext, stamp}
use ats_smart_backend.Board.{
  User, Application, Db, Error, save, has_role, application_manager_roles, find_application,
  update_application_status, StatusUpdate, trigger_status_change_email,
}
use ats_smart_backend.Board.Tables.{find_application-row, step_flush}
use ats_smart_backend.Board.Once.{find_application-save}

-- The statuses that a manager asks for, one after the other
pub data Course : ApplicationStatus → ApplicationStatus → Type 0 where
  stay : (a : ApplicationStatus) → Course a a
  go : (a b : ApplicationStatus) {c : ApplicationStatus} → Move a b → Course b c → Course a c

module _ (context : TenantContext) (user : User) (now i : ℕ) where
  -- The requests of a course, and all answers
  unfoldable pub follow :
      {a c : ApplicationStatus} → Course a c → Db → Db × List (Result Error StatusUpdate)
  follow (stay a) db = (db, [])
  follow (go a b m course) db =
      let (db', answer) = update_application_status context user now i a b db in
      let (last, answers) = follow course db' in (last, answer ∷ answers)

  -- The application of the identifier has a status.
  unfoldable pub HasStatus : ApplicationStatus → Db → Type 0
  HasStatus s db =
      (a : Application) × ((find_application context i db.applications ≡ some a)
        × (a.current_status ≡ value s))

  IsMade : Result Error StatusUpdate → Type 0
  IsMade r = (u : StatusUpdate) × (r ≡ ok u)

  -- Every request was carried out, and the application has the last status of the course.
  unfoldable pub Arrives : ApplicationStatus → Db × List (Result Error StatusUpdate) → Type 0
  unfolding HasStatus IsMade
  Arrives s (db, answers) = All IsMade answers × HasStatus s db

  module _ (manager : has_role application_manager_roles user ≡ true) (t : ℕ)
      (stamped : stamp context none ≡ some (some t)) where
    moved_db : Application → ApplicationStatus → Db → Db
    moved_db a new db = record db {
      applications =
          save (record a { current_status = value new; updated_at = now }) db.applications;
      history =
          record {
            application_id = a.id;
            tenant_id = t;
            old_status = a.current_status;
            new_status = value new;
            changed_by = user.id;
          }
          ∷ db.history;
      started = trigger_status_change_email a.candidate_id a.job_id (value new) ∷ db.started;
    }

    update-moves :
        (a : Application) (current new : ApplicationStatus) (db : Db)
        → find_application context i db.applications ≡ some a
        → a.current_status ≡ value current
        → Move current new
        → update_application_status context user now i current new db ≡ (
          moved_db a new db,
          ok (record {
            application_id = a.id;
            previous_status = a.current_status;
            new_status = value new;
            updated_at = now;
          }),
        )
    unfolding update_application_status moved_db
    update-moves a current new db found same legal =
        step_require db _ _ manager
        ∙ step_get db _
        ∙ step_found db _ _ found
        ∙ step_require db _ _ ((eq_iff a.current_status (value current)).1 same)
        ∙ step_require db _ _ (is_transition_allowed-Move legal)
        ∙ step_flush db _ stamped
        ∙ step_put db _ _
        ∙ step_pure _ _

    update-IsMade :
        (current new : ApplicationStatus) (db : Db)
        → HasStatus current db
        → Move current new
        → IsMade (update_application_status context user now i current new db).1
          × HasStatus new (update_application_status context user now i current new db).0
    unfolding HasStatus IsMade moved_db
    update-IsMade current new db (a, (found, same)) legal =
        let done = update-moves a current new db found same legal in
        let own = find_application-row context i db.applications found in
        let row : Application = record a { current_status = value new; updated_at = now } in
        (
          (_, ap (λ r. r.1) done),
          (
            row,
            (
              ap (λ r. find_application context i r.0.applications) done
                  ∙ find_application-save context i row db.applications a found own.0 own.1,
              refl,
            ),
          ),
        )

    -- Whatever course of legal moves a manager takes an application through, from the status that it has
    -- and in a context that sees it and stamps a tenant on new rows: no request of the course is refused,
    -- and the application ends in the last status of the course.
    pub follow-Arrives :
        {a c : ApplicationStatus} (course : Course a c) (db : Db)
        → HasStatus a db
        → Arrives c (follow course db)
    unfolding follow Arrives
    follow-Arrives (stay a) db here = (tt, here)
    follow-Arrives (go a b m course) db here =
        let (made, there) = update-IsMade a b db here m in
        let rest = follow-Arrives course _ there in ((made, rest.0), rest.1)
