-- ===== src/Auth/Ending.antt =====
-- A session that its user ended admits no request.
use ats_smart_backend.Prelude.{
  ℕ, ◌≡◌, refl, sym, ap, Bool, true, false, Option, some, str_eq, if◌then◌else◌, Bool-cases, inl,
  inr, Option-cases,
}
use mathlib.Core.Bool.{false≢true}
use ats_smart_backend.Exec.{Result, ok, raised}
use ats_smart_backend.Sessions.{Store, touch_session}
use ats_smart_backend.Sessions.Revocation.{revoke_session-refused}
use ats_smart_backend.Auth.{
  Claims, Account, AuthState, AuthError, unauthorized, session_not_found, authenticate, after_touch,
  revoke_my_session, get_current_user,
}

is_ok : {E A : Type 0} → Result E A → Bool
is_ok (ok a) = true
is_ok (raised e) = false

is_revoked :
    (b : Bool)
    → ◌≡◌ {A = Result AuthError (Unit {0})} (if b then ok tt else raised session_not_found) (ok tt)
    → b ≡ true
unfolding is_ok
is_revoked true h = refl
is_revoked false h = absurd (false≢true (ap is_ok h))

after_touch-false :
    (user_id : ℕ) (token_tenant : Option ℕ) (s : AuthState) (p : Store × Bool)
    → p.1 ≡ false
    → (after_touch user_id token_tenant s p).1 ≡ raised unauthorized
unfolding after_touch
after_touch-false user_id token_tenant s (store, true) h = absurd (false≢true (sym h))
after_touch-false user_id token_tenant s (store, false) h = refl

-- A token of a session whose check fails admits nobody.
authenticate-dead :
    (now : ℕ) (claims : Claims) (session_id : ℕ) (s : AuthState)
    → claims.sid ≡ some session_id
    → (touch_session now session_id s.sessions).1 ≡ false
    → (authenticate now claims s).1 ≡ raised unauthorized
unfolding authenticate
authenticate-dead now claims session_id s named dead =
    elim (Bool-cases (str_eq claims.kind "access")) [
      | inr other ↦ rw (other, authenticate) refl
      | inl access ↦
          rw (access, authenticate)
            (elim (Option-cases claims.sub) [
              | inl nobody ↦ rw nobody refl
              | inr (user_id, known) ↦ rw known (
                  rw named (
                    after_touch-false user_id claims.tid s (touch_session now session_id s.sessions)
                      dead))
            ])
    ]

module _ (Token : Type 0) (decode_token : Token → Option Claims) where
  get_current_user-dead :
      (now : ℕ) (token : Token) (claims : Claims) (session_id : ℕ) (s : AuthState)
      → decode_token token ≡ some claims
      → claims.sid ≡ some session_id
      → (touch_session now session_id s.sessions).1 ≡ false
      → (get_current_user Token decode_token now (some token) s).1 ≡ raised unauthorized
  unfolding get_current_user
  get_current_user-dead now token claims session_id s decoded named dead =
      rw (decoded, get_current_user) (authenticate-dead now claims session_id s named dead)

  -- When `revoke_my_session` answers 204, no access token of that session admits a request any more, at
  -- any later moment, whatever the token still claims and the cache still holds.
  pub revoke_my_session-unauthorized :
      (now later session_id : ℕ) (current_user : Account) (s : AuthState) (token : Token)
      (claims : Claims)
      → (revoke_my_session now session_id current_user s).1 ≡ ok tt
      → decode_token token ≡ some claims
      → claims.sid ≡ some session_id
      → (get_current_user Token decode_token later
          (some token)
          ((revoke_my_session now session_id current_user s).0)).1
        ≡ raised unauthorized
  unfolding revoke_my_session
  revoke_my_session-unauthorized now later session_id current_user s token claims done decoded
        named =
      get_current_user-dead later token claims session_id _ decoded named (
        (revoke_session-refused 0 session_id 0 0 now (some current_user.id) s.sessions
            (is_revoked _ done)).1
          later)
