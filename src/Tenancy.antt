-- ===== src/Tenancy.antt =====
-- app/core/tenancy.py: the tenant context of a request, the filter that it puts on every query, and
-- the tenant that it stamps on new rows. Identifiers are numbers. Decoding a token and reading a UUID
-- are the libraries' (jose, uuid) and parameters here; row-level security of PostgreSQL is not modelled.
pub mod Isolation
use ats_smart_backend.Prelude.{
  ℕ, String, Bool, true, false, Option, none, some, str_eq, ◌==◌, ◌||◌, not, if◌then◌else◌,
}

pub data Scope : Type 0 where
  system tenant candidate public : Scope

pub record TenantContext : Type 0 where
  pub scope : Scope
  pub tenant_id : Option ℕ
  pub user_id : Option ℕ

abbrev pub system_context : TenantContext
system_context = record { scope = system; tenant_id = none; user_id = none }

abbrev pub public_context : TenantContext
public_context = record { scope = public; tenant_id = none; user_id = none }

-- The claims of a token that the code reads.
pub record Payload : Type 0 where
  pub kind : Option String  -- "type"
  pub sub : Option String
  pub tid : Option String

-- Python's `str` of a claim that may be missing.
abbrev pub str : Option String → String
str none = "None"
str (some s) = s

-- `payload.get("type") == s`
abbrev pub is_kind : Option String → String → Bool
is_kind none s = false
is_kind (some k) s = str_eq k s

-- A claim that counts as true: present and not empty.
abbrev pub truthy : Option String → Option String
truthy none = none
truthy (some s) = if str_eq s "" then none else some s

module _ (decode_token : String → Option Payload) (uuid : String → Option ℕ) where
  -- the part of `context_from_token` under `try`; `none` is an exception that it catches
  context_of_payload : Payload → Option TenantContext
  context_of_payload payload =
      if is_kind payload.kind "access"
      then elim (uuid (str payload.sub)) [
        | none ↦ none
        | some user_id ↦ elim (truthy payload.tid) [
          | none ↦ some (record { scope = candidate; tenant_id = none; user_id = some user_id })
          | some tenant_claim ↦ elim (uuid tenant_claim) [
            | none ↦ none
            | some t ↦ some (record { scope = tenant; tenant_id = some t; user_id = some user_id })
          ]
        ]
      ]
      else some public_context

  caught : Option TenantContext → TenantContext
  caught none = public_context
  caught (some context) = context

  unfoldable pub context_from_token : Option String → TenantContext
  unfolding context_of_payload caught
  context_from_token none = public_context
  context_from_token (some token) =
      if str_eq token "" then public_context else elim (decode_token token) [
        | none ↦ public_context
        | some payload ↦ caught (context_of_payload payload)
      ]

abbrev pub is_tenant : Scope → Bool
is_tenant tenant = true
is_tenant _ = false

-- `column == value` in SQL, where the value may be NULL
abbrev pub eq_column : Option ℕ → ℕ → Bool
eq_column none t = false
eq_column (some u) t = u == t

-- The criterion of `_add_tenant_criteria` on a row of a `TenantMixin` table, for a SELECT, an UPDATE or a
-- DELETE; `is_column_load` tells a load of columns of a row that the session has.
unfoldable pub visible : TenantContext → Bool → ℕ → Bool
visible context is_column_load row_tenant =
    if not (is_tenant context.scope) || is_column_load
    then true
    else eq_column context.tenant_id row_tenant

-- The same on a row of a `SharedTenantMixin` table; `is_select` tells a SELECT from a write.
unfoldable pub visible_shared : TenantContext → Bool → Bool → Option ℕ → Bool
visible_shared context is_column_load is_select none =
    if not (is_tenant context.scope) || is_column_load then true else is_select
visible_shared context is_column_load is_select (some t) =
    if not (is_tenant context.scope) || is_column_load then true else eq_column context.tenant_id t

-- `none` is `TenantAccessError`.
stamp_tenant : Option ℕ → Option ℕ → Option (Option ℕ)
stamp_tenant current none = some current
stamp_tenant none (some t) = none
stamp_tenant (some u) (some t) = if u == t then some (some t) else none

-- `_stamp_tenant_on_new_rows`, for one new row: the tenant that it is flushed with.
unfoldable pub stamp : TenantContext → Option ℕ → Option (Option ℕ)
unfolding stamp_tenant
stamp context row_tenant =
    if is_tenant context.scope then stamp_tenant context.tenant_id row_tenant else some row_tenant
