-- ===== src/Sessions/Redis.antt =====
-- The Redis keys of app/core/sessions.py, each with the moment at which Redis drops it, and the
-- commands that the module calls.
use ats_smart_backend.Prelude.{
  ℕ, Bool, Option, none, some, List, [], ◌∷◌, String, ltb, ◌==◌, if◌then◌else◌, ◌&&◌, ◌||◌, filter,
  not,
}

pub record Timed (A : Type 0) : Type 0 where
  pub value : A
  pub until : ℕ

-- A key that is past its time is as if it were missing.
unfoldable pub live : {A : Type 0} → ℕ → Option (Timed A) → Option A
live now none = none
live now (some t) = if ltb now t.until then some t.value else none

pub record Location : Type 0 where
  pub country_code : Option String
  pub coordinates : Option (ℕ × ℕ)  -- latitude and longitude, in the unit of `distance`

-- The fields of the hash `session:{sid}` that the module reads again; `previous_jti` and `rotated_at`
-- are empty texts until the first rotation.
pub record Session : Type 0 where
  pub user_id : ℕ
  pub tenant_id : Option ℕ
  pub created_at : ℕ
  pub last_active_at : ℕ
  pub expires_at : ℕ
  pub refresh_jti : ℕ
  pub previous_jti : Option ℕ
  pub rotated_at : Option ℕ
  pub suspicious : Bool

pub data RevokedAs : Type 0 where
  rotated : RevokedAs
  revoked : RevokedAs

-- A member of `user_known_devices:{user_id}`: a device's fingerprint, or an address.
pub data Member : Type 0 where
  ua : String → Member
  ip : String → Member

pub record Login : Type 0 where
  pub ts : ℕ
  pub location : Option Location

-- A sorted set is a list of members and scores, the highest score first.
pub record Store : Type 0 where
  pub sessions : ℕ → Option (Timed Session)
  pub user_sessions : ℕ → Option (Timed (List (ℕ × ℕ)))
  pub revoked_refresh : ℕ → Option (Timed RevokedAs)
  pub session_touch : ℕ → Option (Timed (Unit {0}))
  pub known_devices : ℕ → Option (Timed (List (Member × ℕ)))
  pub login_history : ℕ → Option (Timed (List Login))

-- A key gets a value, or is deleted.
unfoldable pub assign : {A : Type 0} → ℕ → A → (ℕ → A) → ℕ → A
assign key value f k = if k == key then value else f k

unfoldable pub or_empty : {A : Type 0} → Option (List A) → List A
or_empty none = []
or_empty (some xs) = xs

-- ZADD and ZREM
unfoldable pub zrem : ℕ → List (ℕ × ℕ) → List (ℕ × ℕ)
zrem member rows = filter (λ row. not (row.0 == member)) rows

place : ℕ × ℕ → List (ℕ × ℕ) → List (ℕ × ℕ)
place row [] = row ∷ []
place row (x ∷ xs) =
    let rest = place row xs in
    if ltb x.1 row.1 || (x.1 == row.1 && ltb x.0 row.0) then row ∷ x ∷ xs else x ∷ rest

unfoldable pub zadd : ℕ → ℕ → List (ℕ × ℕ) → List (ℕ × ℕ)
unfolding place zrem
zadd member score rows = place (member, score) (zrem member rows)
