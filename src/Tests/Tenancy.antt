-- ===== src/Tests/Tenancy.antt =====
-- The tenant contexts of three tokens.
use ats_smart_backend.Prelude.{
  ℕ, String, ◌≡◌, refl, true, false, Option, none, some, str_eq, if◌then◌else◌,
}
use ats_smart_backend.Tenancy.{
  Payload, TenantContext, tenant, public, context_from_token, visible, stamp,
}
use ats_smart_backend.Tenancy.Isolation.{
  IsTokenContext, context_from_token-IsTokenContext, visible-stamp,
}

abbrev decode_token : String → Option Payload
decode_token t =
    if str_eq t "staff"
    then some (record { kind = some "access"; sub = some "5"; tid = some "7" })
    else if str_eq t "candidate"
    then some (record { kind = some "access"; sub = some "6"; tid = none })
    else none

abbrev uuid : String → Option ℕ
uuid s =
    if str_eq s "5"
    then some 5
    else if str_eq s "6"
    then some 6
    else if str_eq s "7"
    then some 7
    else none

staff_context :
    context_from_token decode_token uuid (some "staff")
    ≡ record { scope = tenant; tenant_id = some 7; user_id = some 5 }
unfolding context_from_token
staff_context = refl

forged_context : (context_from_token decode_token uuid (some "forged")).scope ≡ public
unfolding context_from_token
forged_context = refl

context_from_token-IsTokenContext_example :
    IsTokenContext (context_from_token decode_token uuid (some "candidate"))
context_from_token-IsTokenContext_example =
    context_from_token-IsTokenContext decode_token uuid (some "candidate")

abbrev acme : TenantContext
acme = record { scope = tenant; tenant_id = some 7; user_id = some 5 }

stamped : stamp acme none ≡ some (some 7)
unfolding stamp
stamped = refl

visible-stamp_example : visible acme false 7 ≡ true
visible-stamp_example = visible-stamp acme false none 7 stamped
