-- ===== src/Sessions/Activity.antt =====
-- The list of a user's sessions, the end of all of them and the check on every request, from
-- app/core/sessions.py.
use ats_smart_backend.Prelude.{
  ℕ, ◌+◌, Bool, true, false, Option, none, some, List, [], ◌∷◌, ltb, ◌==◌, if◌then◌else◌, ◌&&◌, not,
  filter, max, any,
}
use ats_smart_backend.Sessions.Redis.{Timed, live, Session, Store, assign, or_empty, zadd}
use ats_smart_backend.Sessions.Lifecycle.{is_live, until, revoke_session, activity_throttle_seconds}

unfoldable pub with_activity : ℕ → Session → Session
with_activity last_active data' = record {
  user_id = data'.user_id;
  tenant_id = data'.tenant_id;
  created_at = data'.created_at;
  last_active_at = max last_active data'.last_active_at;
  expires_at = data'.expires_at;
  refresh_jti = data'.refresh_jti;
  previous_jti = data'.previous_jti;
  rotated_at = data'.rotated_at;
  suspicious = data'.suspicious;
}

-- The answer of `list_sessions`: the sessions that are still there, with the later of the two moments of
-- activity.
unfoldable pub listed : ℕ → Store → List (ℕ × ℕ) → List (ℕ × Session)
unfolding live with_activity
listed now store [] = []
listed now store ((session_id, last_active) ∷ rows) =
    let rest = listed now store rows in
    elim (live now (store.sessions session_id)) [
      | none ↦ rest
      | some data' ↦ (session_id, with_activity last_active data') ∷ rest
    ]

abbrev pub with_user_sessions : (ℕ → Option (Timed (List (ℕ × ℕ)))) → Store → Store
with_user_sessions index store = record {
  sessions = store.sessions;
  user_sessions = index;
  revoked_refresh = store.revoked_refresh;
  session_touch = store.session_touch;
  known_devices = store.known_devices;
  login_history = store.login_history;
}

-- The members whose session is gone are removed from the set.
unfoldable pub list_sessions : ℕ → ℕ → Store → Store × List (ℕ × Session)
unfolding listed live assign
list_sessions now user_id store = elim (store.user_sessions user_id) [
  | none ↦ (store, [])
  | some index ↦
      let rows = if ltb now index.until then index.value else [] in
      let kept = filter (λ row. is_live now (store.sessions row.0)) rows in
      (
        with_user_sessions (assign user_id (until index.until kept) store.user_sessions) store,
        listed now store rows,
      )
]

-- The loop of `revoke_all_sessions`, and the number of sessions that it revoked.
unfoldable pub revoke_each : ℕ → ℕ → List (ℕ × Session) → Store → Store × ℕ
unfolding revoke_session
revoke_each now user_id [] store = (store, 0)
revoke_each now user_id (session ∷ sessions) store =
    let (next, was_revoked) = revoke_session now session.0 (some user_id) store in
    let (last, count) = revoke_each now user_id sessions next in
    (last, (if was_revoked then 1 else 0) + count)

unfoldable pub revoke_all_sessions : ℕ → ℕ → Store → Store × ℕ
unfolding list_sessions revoke_each
revoke_all_sessions now user_id store =
    let (next, sessions) = list_sessions now user_id store in revoke_each now user_id sessions next

-- ZADD with XX: a member that is not there is not added.
unfoldable pub zadd_xx : ℕ → ℕ → List (ℕ × ℕ) → List (ℕ × ℕ)
unfolding any zadd
zadd_xx member score rows =
    if any (λ row. row.0 == member) rows then zadd member score rows else rows

-- `touch_session`: is the session still valid; its activity is written once a minute at most.
unfoldable pub touch_session : ℕ → ℕ → Store → Store × Bool
unfolding live assign or_empty zadd_xx
touch_session now session_id store =
    let should_write = not (is_live now (store.session_touch session_id)) in
    let locked : Store = record {
      sessions = store.sessions;
      user_sessions = store.user_sessions;
      revoked_refresh = store.revoked_refresh;
      session_touch =
          if should_write
          then assign session_id (until (now + activity_throttle_seconds) tt) store.session_touch
          else store.session_touch;
      known_devices = store.known_devices;
      login_history = store.login_history;
    } in
    elim (live now (store.sessions session_id)) [
      | none ↦ (locked, false)
      | some data' ↦ elim (store.user_sessions data'.user_id) [
        | none ↦ (locked, true)
        | some index ↦
            let rows =
              assign data'.user_id (until index.until (zadd_xx session_id now index.value))
                store.user_sessions in
            if should_write && ltb now index.until
            then (with_user_sessions rows locked, true)
            else (locked, true)
      ]
    ]
