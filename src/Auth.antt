-- ===== src/Auth.antt =====
-- app/core/deps.py and app/routers/auth.py: who makes a request, the refresh of a token, and the ways to
-- end a session. `decode_token` is a parameter; a subject is the uuid that the token was made with.
pub mod Context
pub mod Ending
pub mod Passwords
use ats_smart_backend.Prelude.{
  ℕ, Bool, true, false, Option, none, some, List, [], ◌∷◌, String, str_eq, ◌==◌, if◌then◌else◌,
  ◌&&◌, ◌||◌, not,
}
use ats_smart_backend.Exec.{Result, ok, raised}
use ats_smart_backend.Sessions.{
  Store, Turn, touch_session, revoke_session, rotate_refresh, assign, RefreshOutcome, Reason,
}

pub record Claims : Type 0 where
  pub kind : String
  pub sub : Option ℕ
  pub tid : Option ℕ
  pub sid : Option ℕ
  pub jti : Option ℕ

pub record Account : Type 0 where
  pub id : ℕ
  pub role : String
  pub tenant_id : Option ℕ

-- The users of the database, the cache of them by id, and the sessions
pub record AuthState : Type 0 where
  pub users : ℕ → Option Account
  pub cache : ℕ → Option Account
  pub sessions : Store

pub data AuthError : Type 0 where
  unauthorized : AuthError
  refresh_rejected : AuthError
  session_not_found : AuthError

abbrev pub with_sessions : Store → AuthState → AuthState
with_sessions store s = record { users = s.users; cache = s.cache; sessions = store }

-- `_ensure_token_tenant_matches`
unfoldable pub token_tenant_matches : Account → Option ℕ → Bool
token_tenant_matches user token_tenant =
    if str_eq user.role "Candidate"
    then elim token_tenant [ none ↦ true | some t ↦ false ]
    else elim user.tenant_id [
      | none ↦ false
      | some expected ↦ elim token_tenant [ none ↦ false | some t ↦ t == expected ]
    ]

unfoldable pub admit : Account → Option ℕ → AuthState → AuthState × Result AuthError Account
unfolding token_tenant_matches
admit user token_tenant s =
    if token_tenant_matches user token_tenant then (s, ok user) else (s, raised unauthorized)

-- The cached user, or the one of the database, who is then cached.
unfoldable pub load_user : ℕ → Option ℕ → AuthState → AuthState × Result AuthError Account
unfolding admit assign
load_user user_id token_tenant s = elim (s.cache user_id) [
  | some user ↦ admit user token_tenant s
  | none ↦ elim (s.users user_id) [
    | none ↦ (s, raised unauthorized)
    | some user ↦ admit user token_tenant (record {
      users = s.users;
      cache = assign user_id (some user) s.cache;
      sessions = s.sessions;
    })
  ]
]

-- What follows the check of the session
unfoldable pub after_touch :
    ℕ → Option ℕ → AuthState → Store × Bool → AuthState × Result AuthError Account
unfolding load_user
after_touch user_id token_tenant s (store, true) =
    load_user user_id token_tenant (with_sessions store s)
after_touch user_id token_tenant s (store, false) = (with_sessions store s, raised unauthorized)

unfoldable pub authenticate : ℕ → Claims → AuthState → AuthState × Result AuthError Account
unfolding after_touch touch_session
authenticate now claims s =
    if str_eq claims.kind "access"
    then elim claims.sub [
      | none ↦ (s, raised unauthorized)
      | some user_id ↦ elim claims.sid [
        | none ↦ (s, raised unauthorized)
        | some session_id ↦
            after_touch user_id claims.tid s (touch_session now session_id s.sessions)
      ]
    ]
    else (s, raised unauthorized)

-- `revoke_my_session`: 404 for a session that is not the user's
unfoldable pub revoke_my_session :
    ℕ → ℕ → Account → AuthState → AuthState × Result AuthError (Unit {0})
unfolding revoke_session
revoke_my_session now session_id current_user s =
    let (store, was_revoked) = revoke_session now session_id (some current_user.id) s.sessions in
    (with_sessions store s, (if was_revoked then ok tt else raised session_not_found))

-- `logout` ends the session of the request; the answer is 204 in any case.
unfoldable pub logout : ℕ → ℕ → Account → AuthState → AuthState × Result AuthError (Unit {0})
unfolding revoke_session
logout now session_id current_user s =
    (with_sessions ((revoke_session now session_id (some current_user.id) s.sessions).0) s, ok tt)

-- The answer of a refresh: who the access token is for, and the jti of a new refresh token
pub record Refreshed : Type 0 where
  pub user : Account
  pub session_id : ℕ
  pub new_refresh_jti : Option ℕ

module _ (Token : Type 0) (decode_token : Token → Option Claims) where
  unfoldable pub get_current_user :
      ℕ → Option Token → AuthState → AuthState × Result AuthError Account
  unfolding authenticate
  get_current_user now none s = (s, raised unauthorized)
  get_current_user now (some token) s = elim (decode_token token) [
    | none ↦ (s, raised unauthorized)
    | some claims ↦ authenticate now claims s
  ]

-- What follows the rotation: the user may be gone, and then the session is revoked.
unfoldable pub after_rotation :
    ℕ
    → ℕ
    → ℕ
    → AuthState
    → Store × Result Reason RefreshOutcome
    → AuthState × Result AuthError Refreshed
unfolding revoke_session
after_rotation now session_id user_id s (store, raised reason) =
    (with_sessions store s, raised refresh_rejected)
after_rotation now session_id user_id s (store, ok outcome) = elim (s.users user_id) [
  | none ↦ (with_sessions ((revoke_session now session_id none store).0) s, raised refresh_rejected)
  | some user ↦ (
    with_sessions store s,
    ok (record { user = user; session_id = session_id; new_refresh_jti = outcome.new_refresh_jti }),
  )
]

unfoldable pub refresh_access_token :
    ℕ → List Turn → ℕ → Option Claims → AuthState → AuthState × Result AuthError Refreshed
unfolding after_rotation rotate_refresh
refresh_access_token lifetime turns now none s = (s, raised refresh_rejected)
refresh_access_token lifetime turns now (some claims) s =
    if str_eq claims.kind "refresh"
    then elim claims.sid [
      | none ↦ (s, raised refresh_rejected)
      | some session_id ↦ elim claims.jti [
        | none ↦ (s, raised refresh_rejected)
        | some jti ↦ elim claims.sub [
          | none ↦ (s, raised refresh_rejected)
          | some user_id ↦
              after_rotation now session_id user_id s
                (rotate_refresh lifetime turns session_id jti user_id s.sessions)
        ]
      ]
    ]
    else (s, raised refresh_rejected)
