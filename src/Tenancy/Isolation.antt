-- ===== src/Tenancy/Isolation.antt =====
-- What the context of a token can be, and that filter and stamp of a context agree.
use ats_smart_backend.Prelude.{
  Bool, ℕ, String, ◌≡◌, ◌≢◌, refl, inl, inr, true, false, Option, none, some, arith, str_eq,
  Bool-cases, Option-cases,
}
use ats_smart_backend.Tenancy.{
  system, tenant, candidate, public, TenantContext, Payload, truthy, str, is_kind, public_context,
  caught, context_of_payload, context_from_token, visible, stamp,
}

-- A context made from a token is never the system's, names a tenant exactly in the tenant scope, and
-- names a user in the scopes of a tenant and of a candidate.
pub record IsTokenContext (context : TenantContext) : Type 0 where
  pub not_system : context.scope ≢ system
  pub tenant_known : context.scope ≡ tenant → (t : ℕ) × (context.tenant_id ≡ some t)
  pub tenant_only : context.scope ≢ tenant → context.tenant_id ≡ none
  pub user_known : context.scope ≢ public → (u : ℕ) × (context.user_id ≡ some u)

public-IsTokenContext : IsTokenContext public_context
public-IsTokenContext = record {
  not_system = λ e. cc;
  tenant_known = λ e. cc;
  tenant_only = λ e. refl;
  user_known = λ e. absurd (e refl);
}

candidate-IsTokenContext :
    (u : ℕ) → IsTokenContext (record { scope = candidate; tenant_id = none; user_id = some u })
candidate-IsTokenContext u = record {
  not_system = λ e. cc;
  tenant_known = λ e. cc;
  tenant_only = λ e. refl;
  user_known = λ e. (u, refl);
}

tenant-IsTokenContext :
    (t u : ℕ) → IsTokenContext (record { scope = tenant; tenant_id = some t; user_id = some u })
tenant-IsTokenContext t u = record {
  not_system = λ e. cc;
  tenant_known = λ e. (t, refl);
  tenant_only = λ e. absurd (e refl);
  user_known = λ e. (u, refl);
}

module _ (decode_token : String → Option Payload) (uuid : String → Option ℕ) where
  caught-IsTokenContext :
      (p : Payload)
      → IsTokenContext (caught decode_token uuid (context_of_payload decode_token uuid p))
  unfolding context_from_token
  caught-IsTokenContext p = elim (Bool-cases (is_kind p.kind "access")) [
    | inr e ↦ rw e public-IsTokenContext
    | inl e ↦ elim (Option-cases (uuid (str p.sub))) [
      | inl n ↦ rw (e, n) public-IsTokenContext
      | inr (u, n) ↦ elim (Option-cases (truthy p.tid)) [
        | inl m ↦ rw (e, n, m) (candidate-IsTokenContext u)
        | inr (c, m) ↦ elim (Option-cases (uuid c)) [
          | inl k ↦ rw (e, n, m, k) public-IsTokenContext
          | inr (t, k) ↦ rw (e, n, m, k) (tenant-IsTokenContext t u)
        ]
      ]
    ]
  ]

  -- Whatever the token, and whatever the decoder and the UUID reader answer, the context is that of
  -- no system user, has a tenant exactly in the tenant scope and a user outside the public scope.
  pub context_from_token-IsTokenContext :
      (token : Option String) → IsTokenContext (context_from_token decode_token uuid token)
  unfolding context_from_token
  context_from_token-IsTokenContext none = public-IsTokenContext
  context_from_token-IsTokenContext (some token) = elim (Bool-cases (str_eq token "")) [
    | inl e ↦ rw e public-IsTokenContext
    | inr e ↦ elim (Option-cases (decode_token token)) [
      | inl n ↦ rw (e, n) public-IsTokenContext
      | inr (p, n) ↦ rw (e, n) (caught-IsTokenContext p)
    ]
  ]

  pub context_of_candidate :
      (token : String) (p : Payload) (u : ℕ)
      → str_eq token "" ≡ false
      → decode_token token ≡ some p
      → is_kind p.kind "access" ≡ true
      → uuid (str p.sub) ≡ some u
      → truthy p.tid ≡ none
      → context_from_token decode_token uuid (some token)
        ≡ record { scope = candidate; tenant_id = none; user_id = some u }
  unfolding context_from_token
  context_of_candidate token p u given decoded access known none_claimed =
      rw (given, decoded, access, known, none_claimed) refl

  pub context_of_tenant :
      (token : String) (p : Payload) (u t : ℕ) (claim : String)
      → str_eq token "" ≡ false
      → decode_token token ≡ some p
      → is_kind p.kind "access" ≡ true
      → uuid (str p.sub) ≡ some u
      → truthy p.tid ≡ some claim
      → uuid claim ≡ some t
      → context_from_token decode_token uuid (some token)
        ≡ record { scope = tenant; tenant_id = some t; user_id = some u }
  unfolding context_from_token
  context_of_tenant token p u t claim given decoded access known claimed read =
      rw (given, decoded, access, known, claimed, read) refl

-- A row that a context flushed is one that the same context sees.
pub visible-stamp :
    (context : TenantContext) (is_column_load : Bool) (row_tenant : Option ℕ) (t : ℕ)
    → stamp context row_tenant ≡ some (some t)
    → visible context is_column_load t ≡ true
unfolding stamp visible
visible-stamp context is_column_load none t h = ground arith
visible-stamp context is_column_load (some u) t h = ground arith
