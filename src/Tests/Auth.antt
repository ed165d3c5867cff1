-- ===== src/Tests/Auth.antt =====
-- A member of the tenant 9 with the session 7, and the end of that session.
use ats_smart_backend.Prelude.{
  Bool-cases, inl, inr, sym, ap, ◌∙◌, eq_iff, ℕ, zero, suc, str_eq, false, ◌≡◌, refl, Option, none,
  some, String, if◌then◌else◌, ◌==◌,
}
use ats_smart_backend.Exec.{ok, raised}
use ats_smart_backend.Auth.{
  Claims, Account, AuthState, unauthorized, get_current_user, revoke_my_session,
  token_tenant_matches,
}
use ats_smart_backend.Auth.Ending.{revoke_my_session-unauthorized}
use ats_smart_backend.Auth.Context.{
  IsUuidText, IsContextOf, request_context, get_current_user-IsContextOf,
}
use ats_smart_backend.Tenancy.{tenant}
use ats_smart_backend.Sessions.{create_session}
use ats_smart_backend.Tests.Sessions.{store}

abbrev member : Account
member = record { id = 5; role = "HR"; tenant_id = some 9 }

abbrev claims : Claims
claims = record { kind = "access"; sub = some 5; tid = some 9; sid = some 7; jti = none }

abbrev decode_token : String → Option Claims
decode_token token = some claims

abbrev state : AuthState
state = record {
  users = λ id. if id == 5 then some member else none;
  cache = λ _. none;
  sessions = store;
}

admitted : (get_current_user String decode_token 1100 (some "t") state).1 ≡ ok member
unfolding get_current_user create_session
admitted = refl

-- A UUID as so many letters and one more
print : ℕ → String
print zero = "u"
print (suc n) = String.◌∷◌ "u" (print n)

uuid : String → Option ℕ
uuid String.[] = none
uuid (String.◌∷◌ c s) = elim (uuid s) [ none ↦ some 0 | some n ↦ some (suc n) ]

uuid-print : (n : ℕ) → uuid (print n) ≡ some n
unfolding uuid print
uuid-print zero = refl
uuid-print (suc n) = rw (uuid-print n) refl

print-not_empty : (n : ℕ) → str_eq (print n) "" ≡ false
unfolding uuid
print-not_empty n = elim (Bool-cases (str_eq (print n) "")) [
  | inl empty ↦ cc (sym (uuid-print n) ∙ ap uuid ((eq_iff (print n) "").0 empty))
  | inr other ↦ other
]

in_tenant :
    request_context decode_token print uuid "t"
    ≡ record { scope = tenant; tenant_id = some 9; user_id = some 5 }
unfolding request_context uuid print ats_smart_backend.Auth.Context.payload_of
in_tenant = refl

get_current_user-IsContextOf_example :
    IsContextOf member (request_context decode_token print uuid "t")
get_current_user-IsContextOf_example =
    get_current_user-IsContextOf decode_token print uuid
      (record { reads = uuid-print; not_empty = print-not_empty }) 1100 "t" claims state member refl
      refl admitted

ended : (revoke_my_session 1100 7 member state).1 ≡ ok tt
unfolding revoke_my_session create_session
ended = refl

revoke_my_session-unauthorized_example :
    (get_current_user String decode_token 1200
      (some "t")
      ((revoke_my_session 1100 7 member state).0)).1
    ≡ raised unauthorized
revoke_my_session-unauthorized_example =
    revoke_my_session-unauthorized String decode_token 1100 1200 7 member state "t" claims ended
      refl refl
