-- ===== src/Sessions/Revocation.antt =====
-- What the revocation of a session guarantees.
use ats_smart_backend.Prelude.{
  ℕ, ◌≡◌, refl, true, false, Option, none, List, [], ◌∷◌, arith, if◌then◌else◌, take, Bool-cases,
  Option-cases, inl, inr,
}
use mathlib.Core.Bool.{false≢true}
use ats_smart_backend.Exec.{raised}
use ats_smart_backend.Sessions.Redis.{Store, Session, live, assign}
use ats_smart_backend.Sessions.Lifecycle.{
  Reason, Turn, rotate_refresh, rotate_refresh_turns, revoke_session, without_session, is_owned_by,
  is_live, revoked_session, unknown_session, max_rotation_attempts,
}
use ats_smart_backend.Sessions.Activity.{touch_session}

module _ (session_id : ℕ) where
  pub sessions-without_session :
      (now : ℕ) (data' : Session) (store : Store)
      → (without_session now session_id data' store).sessions session_id ≡ none
  unfolding without_session assign
  sessions-without_session now data' store = ground arith

  sessions-revoke_session :
      (now : ℕ) (owner : Option ℕ) (store : Store)
      → (revoke_session now session_id owner store).1 ≡ true
      → (revoke_session now session_id owner store).0.sessions session_id ≡ none
  unfolding revoke_session
  sessions-revoke_session now owner store =
      elim (Option-cases (live now (store.sessions session_id))) [
        | inl gone ↦ rw (gone, revoke_session) (λ e. absurd (false≢true e))
        | inr (data', found) ↦
            rw (found, revoke_session)
              (elim (Bool-cases (is_owned_by owner data')) [
                | inl own ↦ rw own (λ e. sessions-without_session now data' store)
                | inr other ↦ rw other (λ e. absurd (false≢true e))
              ])
      ]

module _ (refresh_lifetime_seconds : ℕ) (session_id jti user_id : ℕ) where
  rotate_refresh_turns-gone :
      (turns : List Turn) (store : Store)
      → store.sessions session_id ≡ none
      → (reason : Reason) × (rotate_refresh_turns refresh_lifetime_seconds turns session_id jti
            user_id store
          ≡ (store, raised reason))
  unfolding rotate_refresh_turns live
  rotate_refresh_turns-gone [] store gone = (_, refl)
  rotate_refresh_turns-gone (turn ∷ turns) store gone = (
    if is_live turn.now (store.revoked_refresh jti) then revoked_session else unknown_session,
    rw (gone, rotate_refresh_turns) refl,
  )

  touch_session-gone :
      (now : ℕ) (store : Store)
      → store.sessions session_id ≡ none
      → (touch_session now session_id store).1 ≡ false
  unfolding touch_session live
  touch_session-gone now store gone = rw (gone, touch_session) refl

  -- A revoked session is dead at once and for good: when `revoke_session` answers true, every refresh with
  -- any token of it is refused and changes nothing, and every request's check of it fails, at any time.
  pub revoke_session-refused :
      (now : ℕ) (owner : Option ℕ) (store : Store)
      → (revoke_session now session_id owner store).1 ≡ true
      → ((turns : List Turn)
          → (reason : Reason) × (rotate_refresh refresh_lifetime_seconds turns session_id jti
                user_id
                ((revoke_session now session_id owner store).0)
              ≡ ((revoke_session now session_id owner store).0, raised reason)))
        × ((later : ℕ)
            → (touch_session later session_id ((revoke_session now session_id owner store).0)).1
              ≡ false)
  unfolding rotate_refresh
  revoke_session-refused now owner store done =
      let gone = sessions-revoke_session session_id now owner store done in
      (
        (λ turns. rotate_refresh_turns-gone (take max_rotation_attempts turns) _ gone),
        λ later. touch_session-gone later _ gone,
      )
