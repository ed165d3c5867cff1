-- ===== src/Sessions/Lifecycle.antt =====
-- The life of a session, from app/core/sessions.py: creation, rotation of the refresh token, revocation.
use ats_smart_backend.Prelude.{
  ℕ, ◌+◌, ◌-◌, ◌*◌, Bool, true, false, Option, none, some, List, [], ◌∷◌, ◌++◌, String, ltb, leb,
  ◌==◌, if◌then◌else◌, ◌&&◌, ◌||◌, not, filter, take, max, str_eq, any,
}
use ats_smart_backend.Exec.{Result, ok, raised}
use ats_smart_backend.Sessions.Redis.{
  Timed, live, Location, Session, rotated, revoked, Member, ua, ip, Store, assign, or_empty, zrem,
  zadd,
}
use ats_smart_backend.Sessions.Anomaly.{Limits, LoginAssessment, assess_login, same_member}

abbrev pub known_devices_ttl_seconds : ℕ
known_devices_ttl_seconds = 90 * 24 * 3600

abbrev pub known_devices_max : ℕ
known_devices_max = 50

abbrev pub login_history_max : ℕ
login_history_max = 20

abbrev pub activity_throttle_seconds : ℕ
activity_throttle_seconds = 60

abbrev pub refresh_reuse_grace_seconds : ℕ
refresh_reuse_grace_seconds = 10

abbrev pub max_rotation_attempts : ℕ
max_rotation_attempts = 3

-- Why SessionInvalid is raised
pub data Reason : Type 0 where
  revoked_session : Reason
  unknown_session : Reason
  refresh_token_reuse : Reason
  concurrent_rotation : Reason

pub record RefreshOutcome : Type 0 where
  pub data' : Session
  pub new_refresh_jti : Option ℕ

abbrev pub is_live : {A : Type 0} → ℕ → Option (Timed A) → Bool
is_live now key = elim (live now key) [ none ↦ false | some value ↦ true ]

abbrev pub until : ℕ → {A : Type 0} → A → Option (Timed A)
until deadline value = some (record { value = value; until = deadline })

-- The members of a sorted set that the new ones do not name; the new ones have the highest score.
unfoldable pub remember : List (Member × ℕ) → List (Member × ℕ) → List (Member × ℕ)
unfolding any
remember new known = new ++ filter (λ row. not (any (λ added. same_member added.0 row.0) new)) known

-- No owner is asked for, or the session is the owner's.
unfoldable pub is_owned_by : Option ℕ → Session → Bool
is_owned_by none data' = true
is_owned_by (some user_id) data' = data'.user_id == user_id

-- The commands of `revoke_session`; the deadline of the black-listed jti is at least one second away.
unfoldable pub without_session : ℕ → ℕ → Session → Store → Store
unfolding live assign or_empty zrem
without_session now session_id data' store =
    let rows = or_empty (live now (store.user_sessions data'.user_id)) in
    record {
      sessions = assign session_id none store.sessions;
      user_sessions = elim (store.user_sessions data'.user_id) [
        | none ↦ store.user_sessions
        | some index ↦
            assign data'.user_id (until index.until (zrem session_id rows)) store.user_sessions
      ];
      revoked_refresh =
          assign data'.refresh_jti (until (now + max (data'.expires_at - now) 1) revoked)
            store.revoked_refresh;
      session_touch = assign session_id none store.session_touch;
      known_devices = store.known_devices;
      login_history = store.login_history;
    }

unfoldable pub revoke_session : ℕ → ℕ → Option ℕ → Store → Store × Bool
unfolding live is_owned_by without_session
revoke_session now session_id user_id store = elim (live now (store.sessions session_id)) [
  | none ↦ (store, false)
  | some data' ↦
      if is_owned_by user_id data'
      then (without_session now session_id data' store, true)
      else (store, false)
]

-- One turn of the loop of `rotate_refresh`: its clock, its fresh jti, and the store that EXEC finds if
-- another client wrote the watched key after WATCH.
pub record Turn : Type 0 where
  pub now : ℕ
  pub new_jti : ℕ
  pub written : Option Store

module _ (refresh_lifetime_seconds : ℕ) where
  unfoldable pub rotated_session : Turn → ℕ → Session → Session
  rotated_session turn jti data' = record {
    user_id = data'.user_id;
    tenant_id = data'.tenant_id;
    created_at = data'.created_at;
    last_active_at = turn.now;
    expires_at = turn.now + refresh_lifetime_seconds;
    refresh_jti = turn.new_jti;
    previous_jti = some jti;
    rotated_at = some turn.now;
    suspicious = data'.suspicious;
  }

  -- The commands between MULTI and EXEC.
  unfoldable pub rotate : Turn → ℕ → ℕ → Session → Store → Store × RefreshOutcome
  unfolding live assign or_empty zadd rotated_session
  rotate turn session_id jti data' store =
      let deadline = turn.now + refresh_lifetime_seconds in
      let rows = or_empty (live turn.now (store.user_sessions data'.user_id)) in
      let updated = rotated_session turn jti data' in
      (
        record {
          sessions = assign session_id (until deadline updated) store.sessions;
          user_sessions =
              assign data'.user_id (until deadline (zadd session_id turn.now rows))
                store.user_sessions;
          revoked_refresh =
              assign jti (until (turn.now + max (data'.expires_at - turn.now) 1) rotated)
                store.revoked_refresh;
          session_touch = store.session_touch;
          known_devices = store.known_devices;
          login_history = store.login_history;
        },
        record { data' = updated; new_refresh_jti = some turn.new_jti },
      )

  -- A jti that the last rotation replaced, within the seconds of grace.
  unfoldable pub is_in_grace : ℕ → ℕ → Session → Bool
  is_in_grace now jti data' = elim data'.previous_jti [
    | none ↦ false
    | some previous_jti ↦ elim data'.rotated_at [
      | none ↦ false
      | some rotated_at ↦ jti == previous_jti && leb now (rotated_at + refresh_reuse_grace_seconds)
    ]
  ]

  unfoldable pub rotate_refresh_turns :
      List Turn → ℕ → ℕ → ℕ → Store → Store × Result Reason RefreshOutcome
  unfolding rotate is_in_grace revoke_session live
  rotate_refresh_turns [] session_id jti user_id store = (store, raised concurrent_rotation)
  rotate_refresh_turns (turn ∷ turns) session_id jti user_id store =
      let rest = rotate_refresh_turns turns session_id jti user_id in
      let blacklisted = is_live turn.now (store.revoked_refresh jti) in
      let reason = if blacklisted then revoked_session else unknown_session in
      elim (live turn.now (store.sessions session_id)) [
        | none ↦ (store, raised reason)
        | some data' ↦
            if not (data'.user_id == user_id)
            then (store, raised reason)
            else if is_in_grace turn.now jti data'
            then (store, ok (record { data' = data'; new_refresh_jti = none }))
            else if not (jti == data'.refresh_jti) || blacklisted
            then ((revoke_session turn.now session_id none store).0, raised refresh_token_reuse)
            else elim turn.written [
              | some other ↦ rest other
              | none ↦
                  let (rotated_store, outcome) = rotate turn session_id jti data' store in
                  (rotated_store, ok outcome)
            ]
      ]

  unfoldable pub rotate_refresh :
      List Turn → ℕ → ℕ → ℕ → Store → Store × Result Reason RefreshOutcome
  unfolding rotate_refresh_turns
  rotate_refresh turns = rotate_refresh_turns (take max_rotation_attempts turns)

  unfoldable pub create_session :
      (ℕ × ℕ → ℕ × ℕ → ℕ)
      → Limits
      → ℕ
      → ℕ
      → ℕ
      → ℕ
      → Option ℕ
      → String
      → String
      → Option Location
      → Store
      → Store × LoginAssessment
  unfolding live assign or_empty zadd assess_login remember
  create_session distance limits now session_id refresh_jti user_id tenant_id address fingerprint
        geo store =
      let deadline = now + refresh_lifetime_seconds in
      let known = or_empty (live now (store.known_devices user_id)) in
      let history = or_empty (live now (store.login_history user_id)) in
      let rows = or_empty (live now (store.user_sessions user_id)) in
      let assessment =
        assess_login distance limits now (names known) history fingerprint address geo in
      let members =
        (ua fingerprint, now) ∷ (if str_eq address "" then [] else (ip address, now) ∷ []) in
      (
        record {
          sessions =
              assign session_id
                (until deadline (record {
                  user_id = user_id;
                  tenant_id = tenant_id;
                  created_at = now;
                  last_active_at = now;
                  expires_at = deadline;
                  refresh_jti = refresh_jti;
                  previous_jti = none;
                  rotated_at = none;
                  suspicious = assessment.suspicious;
                }))
                store.sessions;
          user_sessions =
              assign user_id
                (until deadline (
                  filter (λ row. ltb now (row.1 + refresh_lifetime_seconds))
                    (zadd session_id now rows)))
                store.user_sessions;
          revoked_refresh = store.revoked_refresh;
          session_touch = store.session_touch;
          known_devices =
              assign user_id
                (until (now + known_devices_ttl_seconds)
                  (take known_devices_max (remember members known)))
                store.known_devices;
          login_history =
              assign user_id
                (until (now + known_devices_ttl_seconds)
                  (take login_history_max (record { ts = now; location = geo } ∷ history)))
                store.login_history;
        },
        assessment,
      )
    where
      names : List (Member × ℕ) → List Member
      names [] = []
      names (row ∷ rest) = row.0 ∷ names rest
