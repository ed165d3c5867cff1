-- ===== src/Board/Handlers.antt =====
-- Every outcome of the two handlers that move an application.
use ats_smart_backend.Prelude.{ℕ, ◌≡◌, refl, ◌⊎◌, true, none, some, ◌∷◌, eq_iff, inl, inr}
use ats_smart_backend.Exec.{
  Result, ok, raised, after_require, after_found, after_get, after_put, after_pure,
}
use ats_smart_backend.StateMachine.{ApplicationStatus, value}
use ats_smart_backend.StateMachine.Moves.{Move, Allowed-Move, is_transition_allowed_iff}
use ats_smart_backend.Tenancy.{TenantContext, stamp}
use ats_smart_backend.Board.{
  User, Application, Db, Error, save, has_role, application_manager_roles, find_application,
  update_application_status, StatusUpdate, trigger_status_change_email,
}
use ats_smart_backend.Board.Tables.{after_flush}

module _ (context : TenantContext) (user : User) (now i : ℕ) (current new : ApplicationStatus)
    (db : Db) where
  -- The outcome of a move that was made: which row, and what it wrote.
  pub record IsMoved (db' : Db) : Type 0 where
    pub a : Application
    pub t : ℕ
    pub manager : has_role application_manager_roles user ≡ true
    pub row : find_application context i db.applications ≡ some a
    pub expected : a.current_status ≡ value current
    pub legal : Move current new
    pub stamped : stamp context none ≡ some (some t)
    pub written : db' ≡ record db {
      applications =
          save (record a { current_status = value new; updated_at = now }) db.applications;
      history =
          record {
            application_id = a.id;
            tenant_id = t;
            old_status = a.current_status;
            new_status = value new;
            changed_by = user.id;
          }
          ∷ db.history;
      started = trigger_status_change_email a.candidate_id a.job_id (value new) ∷ db.started;
    }

  abbrev pub Outcome : Db × Result Error StatusUpdate → Type 0
  Outcome r =
      ((r.0 ≡ db) × ((e : Error) × (r.1 ≡ raised e)))
      ⊎ (IsMoved r.0 × ((u : StatusUpdate) × (r.1 ≡ ok u)))

  -- Every call either raises and changes nothing, or moves the one row that it found, from the status
  -- that the client expects by a legal move, and records and announces exactly that move.
  pub update_application_status_lem :
      Outcome (update_application_status context user now i current new db)
  unfolding update_application_status
  update_application_status_lem =
      let unchanged : (e : Error) → Outcome (db, raised e) = λ e. inl (refl, (e, refl)) in
      after_require Outcome db _ _ _ (λ _. unchanged _)
        λ manager. after_get Outcome db _ (
          after_found Outcome db _ _ _ (λ _. unchanged _)
            λ a found.
              after_require Outcome db _ _ _ (λ _. unchanged _)
                λ same.
                  after_require Outcome db _ _ _ (λ _. unchanged _)
                    λ allowed.
                      after_flush Outcome db _ _ (λ _. unchanged _) (λ _. unchanged _)
                        λ t stamped. after_put Outcome db _ _ (
                          after_pure Outcome _ _ (
                            inr (
                              record {
                                a = a;
                                t = t;
                                manager = manager;
                                row = found;
                                expected = (eq_iff a.current_status (value current)).0 same;
                                legal = Allowed-Move (
                                    (is_transition_allowed_iff (value current) (value new)).0
                                      allowed);
                                stamped = stamped;
                                written = refl;
                              },
                              (_, refl),
                            ))))
