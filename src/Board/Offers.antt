-- ===== src/Board/Offers.antt =====
-- What `respond_to_offer` and a closed application allow.
use ats_smart_backend.Prelude.{
  ℕ, ◌≡◌, refl, sym, subst, ◌∙◌, ◌⊎◌, inl, inr, true, some, eq_iff, ◌≢◌, String, ap,
}
use mathlib.Core.Bool.{false≢true}
use mathlib.Core.Option.{some-injective}
use ats_smart_backend.Board.Handlers.{update_application_status_lem}
use ats_smart_backend.Exec.{
  Result, raised, after_require, after_found, after_get, after_put, after_pure, after,
}
use ats_smart_backend.StateMachine.{
  ApplicationStatus, value, offer, rejected, hired, is_transition_allowed,
}
use ats_smart_backend.StateMachine.Moves.{
  Move, value-injective, is_transition_allowed-Move, accept, reject_offer,
}
use ats_smart_backend.Tenancy.{TenantContext}
use ats_smart_backend.Board.{
  User, Db, Error, Application, Decision, accept as accepting, reject, decided, find_application,
  update_application_status, respond_to_offer, business_logic_violation, OfferResponse,
}
use ats_smart_backend.Board.Tables.{after_flush}
use ats_smart_backend.Board.Reach.{get_or_create-answers}

decided-Move : (decision : Decision) → Move offer (decided decision)
decided-Move accepting = accept
decided-Move reject = reject_offer

-- The guard that the code calls defensive never fires: no answer to an offer is refused as a violation
-- of the business logic.
pub respond_to_offer-ne-business_logic_violation :
    (context : TenantContext) (user : User) (fresh now i : ℕ) (decision : Decision) (db : Db)
    → (respond_to_offer context user fresh now i decision db).1 ≢ raised business_logic_violation
unfolding respond_to_offer
respond_to_offer-ne-business_logic_violation context user fresh now i decision before =
    let Fine : Db × Result Error OfferResponse → Type 0 =
      λ r. r.1 ≢ raised business_logic_violation in
    after_require Fine before _ _ _ (λ _ e. cc)
      λ _.
        after Fine before (λ r. (e : Error) → r.1 ≢ raised e) _ _
          (get_or_create-answers user fresh before) (λ _ e k. absurd (k e refl))
          λ db candidate _. after_get Fine db _ (
            after_found Fine db _ _ _ (λ _ e. cc)
              λ a found.
                after_require Fine db _ _ _ (λ _ e. cc)
                  λ same.
                    after_require Fine db _ _ _
                      (λ refused. absurd (
                        false≢true (
                          sym refused
                          ∙ subst (λ s. is_transition_allowed s (value (decided decision)) ≡ true)
                              (sym ((eq_iff a.current_status (value offer)).0 same))
                              (is_transition_allowed-Move (decided-Move decision)))))
                      λ allowed.
                        after_flush Fine db _ _ (λ _ e. cc) (λ _ e. cc)
                          λ t stamped. after_put Fine db _ _ (after_pure Fine _ _ (λ e. cc)))

closed : (a b : ApplicationStatus) → (a ≡ hired) ⊎ (a ≡ rejected) → ¬ Move a b
closed a b (inl e) m = no_hired (subst (λ x. Move x b) e m)
  where
    no_hired : Move hired b → ⊥
    no_hired m = elim m [ ]
closed a b (inr e) m = no_rejected (subst (λ x. Move x b) e m)
  where
    no_rejected : Move rejected b → ⊥
    no_rejected m = elim m [ ]

terminal_status :
    (current : ApplicationStatus) (s : String)
    → s ≡ value current
    → (s ≡ value hired) ⊎ (s ≡ value rejected)
    → (current ≡ hired) ⊎ (current ≡ rejected)
terminal_status current s e (inl h) = inl (value-injective current hired (sym e ∙ h))
terminal_status current s e (inr h) = inr (value-injective current rejected (sym e ∙ h))

-- An application that is hired or rejected is closed: whatever status is asked of it, by whomever and
-- whatever the client expects, the database stays as it was.
pub update_application_status-closed :
    (context : TenantContext) (user : User) (now i : ℕ) (current new : ApplicationStatus) (db : Db)
    (a : Application)
    → find_application context i db.applications ≡ some a
    → (a.current_status ≡ value hired) ⊎ (a.current_status ≡ value rejected)
    → (update_application_status context user now i current new db).0 ≡ db
update_application_status-closed context user now i current new db a row terminal =
    elim (update_application_status_lem context user now i current new db) [
      | inl r ↦ r.0
      | inr (m, _) ↦
          let same : a ≡ m.a = some-injective a m.a (sym row ∙ m.row) in
          let status : a.current_status ≡ value current =
            ap (λ x. x.current_status) same ∙ m.expected in
          absurd
            (closed current new (terminal_status current a.current_status status terminal) m.legal)
    ]
