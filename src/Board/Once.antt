-- ===== src/Board/Once.antt =====
-- Two requests that expect the same status of an application.
use mathlib.Core.Bool.{false≢true}
use mathlib.Core.Option.{some-injective}
use ats_smart_backend.Prelude.{
  ℕ, ◌≡◌, ◌≢◌, refl, sym, ◌∙◌, ap, subst, true, false, some, List, [], ◌∷◌, ◌==◌, ==_iff, eq_iff,
  Bool-cases, inl, inr,
}
use ats_smart_backend.Exec.{Result, ok, raised, after_require, after_found, after_get}
use ats_smart_backend.StateMachine.{
  ApplicationStatus, draft, applied, screening, technical_interview, hr_interview, offer, accepted,
  hired, rejected, value, is_transition_allowed,
}
use ats_smart_backend.StateMachine.Moves.{Move, is_transition_allowed-Move}
use ats_smart_backend.Tenancy.{TenantContext, visible}
use ats_smart_backend.Board.{
  User, Application, Db, Error, save, has_role, application_manager_roles, find_application,
  update_application_status, StatusUpdate, business_logic_violation,
}
use ats_smart_backend.Board.Tables.{find_application-row}
use ats_smart_backend.Board.Handlers.{IsMoved, update_application_status_lem}

-- A row that was saved is the one that is found next.
pub find_application-save :
    (context : TenantContext) (i : ℕ) (row : Application) (l : List Application) (a : Application)
    → find_application context i l ≡ some a
    → row.id ≡ i
    → visible context false row.tenant_id ≡ true
    → find_application context i (save row l) ≡ some row
unfolding find_application save
find_application-save context i row [] a found same seen = cc
find_application-save context i row (b ∷ l) a found same seen = elim (Bool-cases (b.id == row.id)) [
  | inl saved ↦ rw saved (rw (same, (==_iff i i).1 refl, seen) refl)
  | inr other ↦ rw other (
      rw (other_id b same other)
        (find_application-save context i row l a (rw (other_id b same other) at found) same seen))
]
  where
    other_id : (b : Application) → row.id ≡ i → b.id == row.id ≡ false → b.id == i ≡ false
    other_id b e h = subst (λ n. b.id == n ≡ false) e h

not_allowed_back : (a : ApplicationStatus) → is_transition_allowed (value a) (value a) ≡ false
unfolding is_transition_allowed
not_allowed_back draft = refl
not_allowed_back applied = refl
not_allowed_back screening = refl
not_allowed_back technical_interview = refl
not_allowed_back hr_interview = refl
not_allowed_back offer = refl
not_allowed_back accepted = refl
not_allowed_back hired = refl
not_allowed_back rejected = refl

-- No move leads back to the status that it starts from.
value-ne : (a b : ApplicationStatus) → Move a b → value b ≢ value a
value-ne a b m e = false≢true (
    sym (not_allowed_back a)
    ∙ ap (is_transition_allowed (value a)) (sym e)
    ∙ is_transition_allowed-Move m)

module _ (context : TenantContext) (user : User) (now i : ℕ) (current new : ApplicationStatus)
    (db : Db) where
  -- A request whose expected status is not that of the row is refused.
  stale :
      (a : Application)
      → has_role application_manager_roles user ≡ true
      → find_application context i db.applications ≡ some a
      → a.current_status ≢ value current
      → update_application_status context user now i current new db
        ≡ (db, raised business_logic_violation)
  unfolding update_application_status
  stale a manager found other =
      let Refused : Db × Result Error StatusUpdate → Type 0 =
        λ r. r ≡ (db, raised business_logic_violation) in
      after_require Refused db _ _ _ (λ refused. absurd (false≢true (sym refused ∙ manager)))
        λ _. after_get Refused db _ (
          after_found Refused db _ _ _ (λ missing. cc (sym missing ∙ found))
            λ b found'.
              after_require Refused db _ _ _ (λ _. refl)
                λ same. absurd (
                  other (
                    ap (λ r. r.current_status) (some-injective a b (sym found ∙ found'))
                    ∙ (eq_iff b.current_status (value current)).0 same)))

-- The row that a move leaves is found, and has the new status.
found_moved :
    (context : TenantContext) (user : User) (now i : ℕ) (current new : ApplicationStatus)
    (db db' : Db)
    → IsMoved context user now i current new db db'
    → (a : Application) × ((find_application context i db'.applications ≡ some a)
        × (a.current_status ≡ value new))
found_moved context user now i current new db db' m =
    let own = find_application-row context i db.applications m.row in
    let row : Application = record m.a { current_status = value new; updated_at = now } in
    (
      row,
      (
        ap (λ d. find_application context i d.applications) m.written
            ∙ find_application-save context i row db.applications m.a m.row own.0 own.1,
        refl,
      ),
    )

-- Of two requests of one tenant that expect the same status of an application, only one is carried out:
-- after the first one, every other of a manager, whatever status it asks for, is refused as a violation
-- of the business logic and changes nothing.
pub update_application_status-once :
    (context : TenantContext) (user other : User) (now later i : ℕ)
    (current new wanted : ApplicationStatus) (db : Db) (answer : StatusUpdate)
    → (update_application_status context user now i current new db).1 ≡ ok answer
    → has_role application_manager_roles other ≡ true
    → update_application_status context other later i current wanted
        ((update_application_status context user now i current new db).0)
      ≡ (
        (update_application_status context user now i current new db).0,
        raised business_logic_violation,
      )
update_application_status-once context user other now later i current new wanted db answer done
      manager =
    elim (update_application_status_lem context user now i current new db) [
      | inl (same, (e, failed)) ↦ cc (sym failed ∙ done)
      | inr (moved, answered) ↦
          let (a, (found, status)) = found_moved context user now i current new db _ moved in
          stale context other later i current wanted _ a manager found
            (λ e. value-ne current new moved.legal (sym status ∙ e))
    ]
