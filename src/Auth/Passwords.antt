-- ===== src/Auth/Passwords.antt =====
-- app/routers/auth.py: the one-time codes of a forgotten password, kept in Redis for ten minutes by
-- app/core/cache.py, whose functions log a failure of Redis and go on. The hash of a password and the
-- random code are parameters.
use ats_smart_backend.Prelude.{
  eq_codes, eq_codes_eq, ℕ, ◌+◌, ◌≤◌, ◌≡◌, refl, ap, Bool, true, false, Option, none, some, List,
  [], ◌∷◌, if◌then◌else◌, All, arith, Bool-cases, Option-cases, inl, inr, ◌&&◌,
}
use mathlib.Core.Bool.{false≢true}
use ats_smart_backend.Exec.{Result, ok, raised}
use ats_smart_backend.Search.{Text}
use ats_smart_backend.Sessions.{Timed, live}

-- `_OTP_TTL_SECONDS`
abbrev pub otp_ttl_seconds : ℕ
otp_ttl_seconds = 600

pub record Recovery : Type 0 where
  pub password_hash : Text → Option Text
  pub otp : Text → Option (Timed Text)

pub data RecoveryError : Type 0 where
  invalid_code : RecoveryError

pub record ResetPasswordRequest : Type 0 where
  pub email : Text
  pub otp_code : Text
  pub new_password : Text

-- Which commands Redis answers during a request
pub record Redis : Type 0 where
  pub writes : Bool
  pub reads : Bool
  pub deletes : Bool

unfoldable pub assign_text : {A : Type 0} → Text → A → (Text → A) → Text → A
assign_text key value f k = if eq_codes k key then value else f k

-- `_issue_and_send_password_reset_otp`, which the request starts in the background
unfoldable pub issue_otp : Redis → ℕ → Text → Text → Recovery → Recovery
unfolding assign_text
issue_otp redis now otp_code email s =
    if redis.writes
    then record s {
      otp =
          assign_text email (some (record { value = otp_code; until = now + otp_ttl_seconds }))
            s.otp;
    }
    else s

unfoldable pub forgot_password : Redis → ℕ → Text → Text → Recovery → Recovery
unfolding issue_otp
forgot_password redis now otp_code email s = elim (s.password_hash email) [
  | none ↦ s
  | some hash ↦ issue_otp redis now otp_code email s
]

-- `cached_otp is None or cached_otp.get("otp") != payload.otp_code`, negated
unfoldable pub is_valid_code : Redis → ℕ → ResetPasswordRequest → Recovery → Bool
unfolding live
is_valid_code redis now payload s = redis.reads && (elim (live now (s.otp payload.email)) [
  | none ↦ false
  | some code ↦ eq_codes code payload.otp_code
])

unfoldable pub changed : Text → Text → Result RecoveryError (Unit {0}) → ℕ
changed email of_payload (raised e) = 0
changed email of_payload (ok done) = if eq_codes email of_payload then 1 else 0

-- One code may be waiting.
held : Option (Timed Text) → ℕ
held none = 0
held (some t) = 1

held_le : (o : Option (Timed Text)) → held o ≤ 1
unfolding held
held_le none = omega arith
held_le (some t) = omega arith

assign_text-same :
    {A : Type 0} (key k : Text) (value : A) (f : Text → A)
    → eq_codes k key ≡ true
    → assign_text key value f k ≡ value
unfolding assign_text
assign_text-same key k value f h = rw (h, assign_text) refl

assign_text-other :
    {A : Type 0} (key k : Text) (value : A) (f : Text → A)
    → eq_codes k key ≡ false
    → assign_text key value f k ≡ f k
unfolding assign_text
assign_text-other key k value f h = rw (h, assign_text) refl

pub data Request : Type 0 where
  forgot : Redis → ℕ → Text → Text → Request
  reset : Redis → ℕ → ResetPasswordRequest → Request

-- Was a code sent to an address?
unfoldable pub codes_sent : Text → Request → ℕ
codes_sent email (forgot redis now otp_code to) = if eq_codes email to then 1 else 0
codes_sent email (reset redis now payload) = 0

unfoldable pub all_codes_sent : Text → List Request → ℕ
unfolding codes_sent
all_codes_sent email [] = 0
all_codes_sent email (request ∷ requests) = codes_sent email request + all_codes_sent email requests

-- Redis answers each deletion of a used code.
unfoldable pub Deletes : Request → Type 0
Deletes (forgot redis now otp_code to) = Unit
Deletes (reset redis now payload) = redis.deletes ≡ true

issued_step :
    (email to otp_code : Text) (redis : Redis) (now : ℕ) (s : Recovery)
    → held ((issue_otp redis now otp_code to s).otp email)
      ≤ (if eq_codes email to then 1 else 0) + held (s.otp email)
unfolding issue_otp held
issued_step email to otp_code redis now s = elim (Bool-cases redis.writes) [
  | inr off ↦ rw (off, issue_otp) (omega arith)
  | inl on ↦
      rw (on, issue_otp)
        (elim (Bool-cases (eq_codes email to)) [
          | inl same ↦ rw same (omega arith)
          | inr other ↦ rw other (omega arith)
        ])
]

forgot_step :
    (email to otp_code : Text) (redis : Redis) (now : ℕ) (s : Recovery)
    → held ((forgot_password redis now otp_code to s).otp email)
      ≤ (if eq_codes email to then 1 else 0) + held (s.otp email)
unfolding forgot_password
forgot_step email to otp_code redis now s = elim (Option-cases (s.password_hash to)) [
  | inl unknown ↦ rw (unknown, forgot_password) (omega arith)
  | inr (hash, known) ↦ rw (known, forgot_password) (issued_step email to otp_code redis now s)
]

-- A code that is accepted was held.
held-live :
    (now : ℕ) (code : Text) (o : Option (Timed Text))
    → (elim (live now o) as (λ _. Bool) [ none ↦ false | some c ↦ eq_codes c code ]) ≡ true
    → held o ≡ 1
unfolding held live
held-live now code none h = absurd (false≢true h)
held-live now code (some t) h = refl

held-valid :
    (redis : Redis) (now : ℕ) (payload : ResetPasswordRequest) (s : Recovery)
    → is_valid_code redis now payload s ≡ true
    → held (s.otp payload.email) ≡ 1
unfolding is_valid_code
held-valid redis now payload s h =
    held-live now payload.otp_code (s.otp payload.email) (second redis.reads _ h)
  where
    second : (a b : Bool) → (a && b) ≡ true → b ≡ true
    second true b h = h
    second false b h = absurd (false≢true h)

used_step :
    (email : Text) (payload : ResetPasswordRequest) (s : Recovery)
    → held (s.otp payload.email) ≡ 1
    → changed email payload.email (ok tt) + held (assign_text payload.email none s.otp email)
      ≤ held (s.otp email)
unfolding changed held
used_step email payload s one = elim (Bool-cases (eq_codes email payload.email)) [
  | inl same ↦
      rw
        (
          same,
          assign_text-same payload.email email none s.otp same,
          eq_codes_eq email payload.email same,
        )
        (omega (arith, one))
  | inr other ↦ rw (other, assign_text-other payload.email email none s.otp other) (omega arith)
]

module _ (hash_password : Text → Text) where
  unfoldable pub reset_password :
      Redis → ℕ → ResetPasswordRequest → Recovery → Recovery × Result RecoveryError (Unit {0})
  unfolding is_valid_code assign_text
  reset_password redis now payload s =
      if is_valid_code redis now payload s
      then elim (s.password_hash payload.email) [
        | none ↦ (s, raised invalid_code)
        | some hash ↦ (
          record {
            password_hash =
                assign_text payload.email (some (hash_password payload.new_password))
                  s.password_hash;
            otp = if redis.deletes then assign_text payload.email none s.otp else s.otp;
          },
          ok tt,
        )
      ]
      else (s, raised invalid_code)

  unfoldable pub handle : Request → Recovery → Recovery
  unfolding forgot_password reset_password
  handle (forgot redis now otp_code email) s = forgot_password redis now otp_code email s
  handle (reset redis now payload) s = (reset_password redis now payload s).0

  -- Was the password of an address changed by a request?
  unfoldable pub changes : Text → Request → Recovery → ℕ
  unfolding reset_password changed
  changes email (forgot redis now otp_code to) s = 0
  changes email (reset redis now payload) s =
      changed email payload.email (reset_password redis now payload s).1

  unfoldable pub all_changes : Text → List Request → Recovery → ℕ
  unfolding changes handle
  all_changes email [] s = 0
  all_changes email (request ∷ requests) s =
      changes email request s + all_changes email requests (handle request s)

  abbrev Spends : Text → Text → Recovery → Recovery × Result RecoveryError (Unit {0}) → Type 0
  Spends email to s p = changed email to p.1 + held (p.0.otp email) ≤ held (s.otp email)

  reset_step :
      (email : Text) (redis : Redis) (now : ℕ) (payload : ResetPasswordRequest) (s : Recovery)
      → redis.deletes ≡ true
      → Spends email payload.email s (reset_password redis now payload s)
  unfolding reset_password changed
  reset_step email redis now payload s d = elim (Bool-cases (is_valid_code redis now payload s)) [
    | inr wrong ↦ rw (wrong, reset_password) (omega arith)
    | inl fits ↦
        rw (fits, reset_password)
          (elim (Option-cases (s.password_hash payload.email)) [
            | inl unknown ↦ rw unknown (omega arith)
            | inr (hash, known) ↦
                rw known (rw d (used_step email payload s (held-valid redis now payload s fits)))
          ])
  ]

  -- One request: at most one change for each code sent or waiting
  handle_step :
      (email : Text) (request : Request) (s : Recovery)
      → Deletes request
      → changes email request s + held ((handle request s).otp email)
        ≤ codes_sent email request + held (s.otp email)
  unfolding changes handle codes_sent Deletes
  handle_step email (forgot redis now otp_code to) s d =
      omega (arith, forgot_step email to otp_code redis now s)
  handle_step email (reset redis now payload) s d =
      omega (arith, reset_step email redis now payload s d)

  all_changes_le :
      (email : Text) (requests : List Request) (s : Recovery)
      → All Deletes requests
      → all_changes email requests s ≤ all_codes_sent email requests + held (s.otp email)
  unfolding all_changes all_codes_sent
  all_changes_le email [] s d = omega arith
  all_changes_le email (request ∷ requests) s d =
      omega (
        arith,
        handle_step email request s d.0,
        all_changes_le email requests (handle request s) d.1,
      )

  -- A code is used once: in any sequence of requests, at any moments and with any failures of reading and
  -- writing, an address whose code is not waiting at the start has its password changed at most as many
  -- times as codes were sent to it, when Redis answers the deletion of each code that was used.
  pub all_changes-all_codes_sent :
      (email : Text) (requests : List Request) (s : Recovery)
      → s.otp email ≡ none
      → All Deletes requests
      → all_changes email requests s ≤ all_codes_sent email requests
  unfolding held
  all_changes-all_codes_sent email requests s fresh d =
      omega (arith, all_changes_le email requests s d, ap held fresh)
