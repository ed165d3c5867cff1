-- ===== src/Sessions/Anomaly.antt =====
-- `detect_anomaly` and `assess_login` of app/core/sessions.py. The great-circle distance, in kilometres,
-- is a parameter, and the quotients are multiplied out.
use ats_smart_backend.Prelude.{
  ℕ, ◌-◌, ◌*◌, Bool, true, false, Option, none, some, List, [], ◌∷◌, ◌++◌, String, ltb, max,
  if◌then◌else◌, ◌&&◌, ◌||◌, not, any, str_eq,
}
use ats_smart_backend.Sessions.Redis.{Location, Login, Member, ua, ip}

pub data AnomalyReason : Type 0 where
  unknown_country : AnomalyReason
  impossible_travel : AnomalyReason

-- SUSPICIOUS_LOGIN_DISTANCE_KM and SUSPICIOUS_LOGIN_SPEED_KMH
pub record Limits : Type 0 where
  pub distance_km : ℕ
  pub speed_kmh : ℕ

country_of : Login → Option String
country_of login = elim login.location [ none ↦ none | some place ↦ place.country_code ]

unfoldable pub known_countries : List Login → List String
unfolding country_of
known_countries [] = []
known_countries (entry ∷ history) =
    let rest = known_countries history in
    elim (country_of entry) [ none ↦ rest | some country ↦ country ∷ rest ]

-- The last login with coordinates: the history has the newest first.
unfoldable pub last_located : List Login → Option (ℕ × (ℕ × ℕ))
last_located [] = none
last_located (entry ∷ history) =
    let rest = last_located history in
    elim entry.location [
      | none ↦ rest
      | some place ↦ elim place.coordinates [ none ↦ rest | some point ↦ some (entry.ts, point) ]
    ]

unfoldable pub is_unknown_country : Option String → List String → Bool
is_unknown_country none countries = false
is_unknown_country (some country) [] = false
is_unknown_country (some country) (c ∷ cs) = not (any (λ known. str_eq country known) (c ∷ cs))

-- distance > distance_km and distance / hours > speed_kmh, for hours = max(now - ts, 60) / 3600
unfoldable pub is_impossible : Limits → ℕ → ℕ → Bool
is_impossible limits distance seconds =
    ltb limits.distance_km distance && ltb (limits.speed_kmh * max seconds 60) (distance * 3600)

unfoldable pub should_alert_new_device : Bool → Bool → Bool → Bool → Bool
should_alert_new_device first_login suspicious new_device new_ip =
    not first_login && (not suspicious && (new_device || new_ip))

pub record LoginAssessment : Type 0 where
  pub first_login : Bool
  pub new_device : Bool
  pub new_ip : Bool
  pub suspicious : Bool
  pub reasons : List AnomalyReason

abbrev pub same_member : Member → Member → Bool
same_member (ua a) (ua b) = str_eq a b
same_member (ip a) (ip b) = str_eq a b
same_member _ _ = false

unfoldable pub is_empty : {A : Type 0} → List A → Bool
is_empty [] = true
is_empty (x ∷ xs) = false

module _ (distance : ℕ × ℕ → ℕ × ℕ → ℕ) (limits : Limits) (now : ℕ) where
  is_impossible_travel : Option (ℕ × ℕ) → Option (ℕ × (ℕ × ℕ)) → Bool
  unfolding is_impossible
  is_impossible_travel none previous = false
  is_impossible_travel (some point) none = false
  is_impossible_travel (some point) (some (ts, last)) =
      is_impossible limits (distance last point) (now - ts)

  unfoldable pub detect_anomaly : List Login → Option Location → List AnomalyReason
  unfolding is_impossible_travel is_unknown_country known_countries last_located
  detect_anomaly history none = []
  detect_anomaly history (some geo) =
      (if is_unknown_country geo.country_code (known_countries history)
        then unknown_country ∷ []
        else [])
      ++ (if is_impossible_travel geo.coordinates (last_located history)
          then impossible_travel ∷ []
          else [])

  -- The address is empty where the request has none.
  unfoldable pub assess_login :
      List Member → List Login → String → String → Option Location → LoginAssessment
  unfolding detect_anomaly is_empty any
  assess_login known_members history fingerprint address geo =
      let first_login = is_empty known_members && is_empty history in
      let reasons = if first_login then [] else detect_anomaly history geo in
      record {
        first_login = first_login;
        new_device = not (any (same_member (ua fingerprint)) known_members);
        new_ip = not (str_eq address "") && not (any (same_member (ip address)) known_members);
        suspicious = not (is_empty reasons);
        reasons = reasons;
      }
