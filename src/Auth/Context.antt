-- ===== src/Auth/Context.antt =====
-- The user that a request is admitted for, and the tenant context that the middleware made of its token.
use ats_smart_backend.Prelude.{
  ==_iff, sym, subst, ap, String, none, ◌==◌, arith, ℕ, ◌≡◌, refl, Bool, true, false, Option, some,
  str_eq, Bool-cases, inl, inr, Option-cases,
}
use mathlib.Core.Bool.{false≢true}
use ats_smart_backend.Exec.{Result, ok, raised, ok-injective}
use ats_smart_backend.Sessions.{Store}
use ats_smart_backend.Auth.{
  Claims, Account, AuthState, AuthError, unauthorized, authenticate, after_touch, with_sessions,
  get_current_user, admit, load_user, token_tenant_matches,
}
use ats_smart_backend.Tenancy.{
  Payload, TenantContext, tenant, candidate, context_from_token, truthy, str, is_kind, visible,
  stamp,
}
use ats_smart_backend.Tenancy.Isolation.{context_of_candidate, context_of_tenant}
use mathlib.Core.Option.{map as map_option}

is_ok : {E A : Type 0} → Result E A → Bool
is_ok (ok a) = true
is_ok (raised e) = false

Matches : Option ℕ → AuthState × Result AuthError Account → Type 0
Matches token_tenant p =
    (user : Account) → p.1 ≡ ok user → token_tenant_matches user token_tenant ≡ true

refused-Matches :
    (token_tenant : Option ℕ) (s : AuthState) → Matches token_tenant (s, raised unauthorized)
unfolding Matches is_ok
refused-Matches token_tenant s user h = absurd (false≢true (ap is_ok h))

admit-Matches :
    (user : Account) (token_tenant : Option ℕ) (s : AuthState)
    → Matches token_tenant (admit user token_tenant s)
unfolding Matches admit
admit-Matches user token_tenant s = elim (Bool-cases (token_tenant_matches user token_tenant)) [
  | inl same ↦
      rw same
        (λ found h. subst (λ u. token_tenant_matches u token_tenant ≡ true) (ok-injective h) same)
  | inr other ↦ rw other (refused-Matches token_tenant s)
]

load_user-Matches :
    (user_id : ℕ) (token_tenant : Option ℕ) (s : AuthState)
    → Matches token_tenant (load_user user_id token_tenant s)
unfolding load_user
load_user-Matches user_id token_tenant s = elim (Option-cases (s.cache user_id)) [
  | inr (user, cached) ↦ rw (cached, load_user) (admit-Matches user token_tenant s)
  | inl missing ↦
      rw (missing, load_user)
        (elim (Option-cases (s.users user_id)) [
          | inl gone ↦ rw gone (refused-Matches token_tenant s)
          | inr (user, found) ↦ rw found (admit-Matches user token_tenant _)
        ])
]

after_touch-Matches :
    (user_id : ℕ) (token_tenant : Option ℕ) (s : AuthState) (p : Store × Bool)
    → Matches token_tenant (after_touch user_id token_tenant s p)
unfolding after_touch
after_touch-Matches user_id token_tenant s (store, true) =
    load_user-Matches user_id token_tenant (with_sessions store s)
after_touch-Matches user_id token_tenant s (store, false) =
    refused-Matches token_tenant (with_sessions store s)

authenticate-Matches :
    (now : ℕ) (claims : Claims) (s : AuthState) → Matches claims.tid (authenticate now claims s)
unfolding authenticate
authenticate-Matches now claims s = elim (Bool-cases (str_eq claims.kind "access")) [
  | inr other ↦ rw (other, authenticate) (refused-Matches claims.tid s)
  | inl access ↦
      rw (access, authenticate)
        (elim (Option-cases claims.sub) [
          | inl nobody ↦ rw nobody (refused-Matches claims.tid s)
          | inr (user_id, known) ↦ rw known (elim (Option-cases claims.sid) [
            | inl unnamed ↦ rw unnamed (refused-Matches claims.tid s)
            | inr (session_id, named) ↦ rw named (after_touch-Matches user_id claims.tid s _)
          ])
        ])
]

get_current_user-Matches :
    (Token : Type 0) (decode_token : Token → Option Claims) (now : ℕ) (token : Token)
    (claims : Claims) (s : AuthState) (user : Account)
    → decode_token token ≡ some claims
    → (get_current_user Token decode_token now (some token) s).1 ≡ ok user
    → token_tenant_matches user claims.tid ≡ true
unfolding get_current_user Matches
get_current_user-Matches Token decode_token now token claims s user decoded =
    rw (decoded, get_current_user) (authenticate-Matches now claims s user)

not_ok :
    {A : Type 0} {e : AuthError} {user : Account}
    → ◌≡◌ {A = Result AuthError Account} (raised e) (ok user)
    → A
unfolding is_ok
not_ok h = absurd (false≢true (ap is_ok h))

authenticate-claims :
    (now : ℕ) (claims : Claims) (s : AuthState) (user : Account)
    → (authenticate now claims s).1 ≡ ok user
    → (str_eq claims.kind "access" ≡ true) × ((i : ℕ) × (claims.sub ≡ some i))
unfolding authenticate
authenticate-claims now claims s user h = elim (Bool-cases (str_eq claims.kind "access")) [
  | inr other ↦ not_ok (rw (other, authenticate) at h)
  | inl access ↦ elim (Option-cases claims.sub) [
    | inl nobody ↦ not_ok (rw (access, nobody, authenticate) at h)
    | inr known ↦ (access, known)
  ]
]

-- The payload that `create_access_token` writes for some claims: a UUID as its text
unfoldable pub payload_of : (ℕ → String) → Claims → Payload
payload_of print claims = record {
  kind = some claims.kind;
  sub = map_option print claims.sub;
  tid = map_option print claims.tid;
}

-- The queries and the new rows of a request are those of its user's own tenant.
pub record IsTenantOf (context : TenantContext) (t : ℕ) : Type 0 where
  pub sees : (row_tenant : ℕ) → visible context false row_tenant ≡ (t == row_tenant)
  pub writes : (given : Option ℕ) (u : ℕ) → stamp context given ≡ some (some u) → u ≡ t

pub record IsContextOf (user : Account) (context : TenantContext) : Type 0 where
  pub of_candidate :
      str_eq user.role "Candidate" ≡ true → (context.scope ≡ candidate) × (context.tenant_id ≡ none)
  pub of_staff :
      str_eq user.role "Candidate" ≡ false
      → (t : ℕ) × ((user.tenant_id ≡ some t) × IsTenantOf context t)

stamped-own :
    (t i : ℕ) (given : Option ℕ) (u : ℕ)
    → stamp (record { scope = tenant; tenant_id = some t; user_id = some i }) given ≡ some (some u)
    → u ≡ t
unfolding stamp
stamped-own t i none u h = ground arith
stamped-own t i (some v) u h = ground arith

tenant-IsTenantOf :
    (t i : ℕ) → IsTenantOf (record { scope = tenant; tenant_id = some t; user_id = some i }) t
unfolding visible
tenant-IsTenantOf t i = record { sees = λ row_tenant. refl; writes = stamped-own t i }

-- What the tenant of a token says of its user
candidate_unnamed :
    (user : Account) (tid : Option ℕ)
    → token_tenant_matches user tid ≡ true
    → str_eq user.role "Candidate" ≡ true
    → tid ≡ none
unfolding token_tenant_matches
candidate_unnamed user none h role = refl
candidate_unnamed user (some t) h role = absurd (false≢true (rw role at h))

same_tenant :
    (tid : Option ℕ) (t : ℕ)
    → (elim tid as (λ _. Bool) [ none ↦ false | some u ↦ u == t ]) ≡ true
    → tid ≡ some t
same_tenant none t h = absurd (false≢true h)
same_tenant (some u) t h = ap some ((==_iff u t).0 h)

staff_named :
    (user : Account) (tid : Option ℕ)
    → token_tenant_matches user tid ≡ true
    → str_eq user.role "Candidate" ≡ false
    → (t : ℕ) × ((user.tenant_id ≡ some t) × (tid ≡ some t))
unfolding token_tenant_matches
staff_named user tid h role = elim (Option-cases user.tenant_id) [
  | inl nowhere ↦ absurd (false≢true (rw (role, nowhere) at h))
  | inr (t, member) ↦ (t, (member, same_tenant tid t (rw (role, member) at h)))
]

module _ (decode_token : String → Option Claims) (print : ℕ → String)
    (uuid : String → Option ℕ) where
  -- What the library of UUIDs does: it reads what it prints, and prints no empty text.
  pub record IsUuidText : Type 0 where
    pub reads : (n : ℕ) → uuid (print n) ≡ some n
    pub not_empty : (n : ℕ) → str_eq (print n) "" ≡ false

  payload : String → Option Payload
  payload token = map_option (payload_of print) (decode_token token)

  -- The context that the middleware puts on a request with a token
  unfoldable pub request_context : String → TenantContext
  unfolding context_from_token payload
  request_context token = context_from_token payload uuid (some token)

  module _ (texts : IsUuidText) (token : String) (given : str_eq token "" ≡ false) (claims : Claims)
      (decoded : decode_token token ≡ some claims) (access : str_eq claims.kind "access" ≡ true)
      (i : ℕ) (known : claims.sub ≡ some i) where
    decoded_payload : payload token ≡ some (payload_of print claims)
    unfolding payload
    decoded_payload = rw decoded refl

    known_text : uuid (str (payload_of print claims).sub) ≡ some i
    unfolding payload_of
    known_text = rw known (texts.reads i)

    access_kind : is_kind (payload_of print claims).kind "access" ≡ true
    unfolding payload_of
    access_kind = access

    no_claim : claims.tid ≡ none → truthy (payload_of print claims).tid ≡ none
    unfolding payload_of
    no_claim e = rw e refl

    claim : (t : ℕ) → claims.tid ≡ some t → truthy (payload_of print claims).tid ≡ some (print t)
    unfolding payload_of
    claim t e = rw (e, texts.not_empty t) refl

    without_tenant :
        claims.tid ≡ none
        → request_context token ≡ record { scope = candidate; tenant_id = none; user_id = some i }
    unfolding request_context
    without_tenant unnamed =
        context_of_candidate payload uuid token (payload_of print claims) i given decoded_payload
          access_kind known_text (no_claim unnamed)

    with_tenant :
        (t : ℕ)
        → claims.tid ≡ some t
        → request_context token ≡ record { scope = tenant; tenant_id = some t; user_id = some i }
    unfolding request_context
    with_tenant t named =
        context_of_tenant payload uuid token (payload_of print claims) i t (print t) given
          decoded_payload access_kind known_text (claim t named) (texts.reads t)

  -- An admitted request runs in the tenant context of its user: with the UUIDs of the claims written as
  -- text, the context that the middleware makes of the same token names no tenant for a candidate, and
  -- for anybody else it is that of the tenant of the account, whose rows are all that it sees, and whose
  -- name is all that it writes on a new row.
  pub get_current_user-IsContextOf :
      IsUuidText
      → (now : ℕ) (token : String) (claims : Claims) (s : AuthState) (user : Account)
      → str_eq token "" ≡ false
      → decode_token token ≡ some claims
      → (get_current_user String decode_token now (some token) s).1 ≡ ok user
      → IsContextOf user (request_context token)
  unfolding get_current_user
  get_current_user-IsContextOf texts now token claims s user given decoded admitted =
      let (access, (i, known)) =
        authenticate-claims now claims s user (rw (decoded, get_current_user) at admitted) in
      let same =
        get_current_user-Matches String decode_token now token claims s user decoded admitted in
      record {
        of_candidate = λ role.
            let e =
              without_tenant texts token given claims decoded access i known
                (candidate_unnamed user claims.tid same role) in
            (ap (λ c. c.scope) e, ap (λ c. c.tenant_id) e);
        of_staff = λ role.
            let (t, (member, named)) = staff_named user claims.tid same role in
            (
              t,
              (
                member,
                subst (λ c. IsTenantOf c t)
                    (sym (with_tenant texts token given claims decoded access i known t named))
                    (tenant-IsTenantOf t i),
              ),
            );
      }
