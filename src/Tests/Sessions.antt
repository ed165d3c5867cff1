-- ===== src/Tests/Sessions.antt =====
-- A store with one session, and the properties of the sessions at it.
use ats_smart_backend.Prelude.{
  ℕ, ◌+◌, ◌<◌, ◌≡◌, ◌≢◌, refl, Bool, true, false, Option, none, some, List, [], ◌∷◌, arith, ap,
  ◌==◌,
}
use ats_smart_backend.Exec.{raised}
use ats_smart_backend.Sessions.{
  Store, Turn, rotate_refresh, create_session, revoke_session, touch_session, Reason,
  refresh_token_reuse, Limits, list_sessions, revoke_all_sessions,
}
use ats_smart_backend.Sessions.Rotation.{issued, rotate_refresh-single_use, rotate_refresh-replay}
use ats_smart_backend.Sessions.Revocation.{revoke_session-refused}

abbrev empty_store : Store
empty_store = record {
  sessions = λ _. none;
  user_sessions = λ _. none;
  revoked_refresh = λ _. none;
  session_touch = λ _. none;
  known_devices = λ _. none;
  login_history = λ _. none;
}

abbrev limits : Limits
limits = record { distance_km = 500; speed_kmh = 900 }

-- The session 7 of the user 5, with the jti 100, from the second 1000 on; a refresh token lives for
-- a thousand seconds.
abbrev pub store : Store
store =
    (create_session 1000 (λ a b. 0) limits 1000 7 100 5 none "10.0.0.1" "Firefox|Linux" none
      empty_store).0

abbrev turn : ℕ → ℕ → Turn
turn now new_jti = record { now = now; new_jti = new_jti; written = none }

rotated_once : issued (rotate_refresh 1000 (turn 1100 101 ∷ []) 7 100 5 store).1 ≡ some 101
unfolding issued rotate_refresh create_session
rotated_once = refl

listed_after : (list_sessions 1200 5 (revoke_all_sessions 1200 5 store).0).1 ≡ []
unfolding list_sessions revoke_all_sessions create_session ats_smart_backend.Prelude.filter
listed_after = refl

new_is_other : (n : ℕ) → 100 < n → n ≢ 100
new_is_other n h e = omega (arith, e)

rotate_refresh-single_use_example :
    issued
      (rotate_refresh 1000
        (turn 1105 102 ∷ [])
        7
        100
        5
        (rotate_refresh 1000 (turn 1100 101 ∷ []) 7 100 5 store).0).1
    ≡ none
rotate_refresh-single_use_example =
    rotate_refresh-single_use 1000 7 100 5 (turn 1100 101 ∷ []) (turn 1105 102 ∷ []) store 101
      (new_is_other 101 (omega arith)) rotated_once

rotate_refresh-replay_example :
    (let (next, answer) = rotate_refresh 1000 (turn 1100 101 ∷ []) 7 100 5 store in
      let (last, refused) = rotate_refresh 1000 (turn 1200 102 ∷ []) 7 100 5 next in
      (refused ≡ raised refresh_token_reuse) × (last.sessions 7 ≡ none))
rotate_refresh-replay_example =
    rotate_refresh-replay 1000 7 100 5 (turn 1100 101) (turn 1200 102) [] [] store 101 refl
      (new_is_other 101 (omega arith)) (omega arith) (omega arith) rotated_once

revoked : (revoke_session 1100 7 (some 5) store).1 ≡ true
unfolding revoke_session create_session
revoked = refl

revoke_session-refused_example :
    ((turns : List Turn)
      → (reason : Reason) × (rotate_refresh 1000 turns 7 100 5
            ((revoke_session 1100 7 (some 5) store).0)
          ≡ ((revoke_session 1100 7 (some 5) store).0, raised reason)))
    × ((later : ℕ) → (touch_session later 7 ((revoke_session 1100 7 (some 5) store).0)).1 ≡ false)
revoke_session-refused_example = revoke_session-refused 1000 7 100 5 1100 (some 5) store revoked
