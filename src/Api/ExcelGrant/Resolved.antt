-- ===== src/Api/ExcelGrant/Resolved.antt =====
-- The grant that `_resolve_excel_grant` of packages/api/dfip_api/excel_grant.py finds is stored and not
-- spent.
use dfip_v.Prelude.{
  ◌≡◌, refl, String, Bool, true, false, Option, none, some, string_eq, option_eq, arith,
}
use dfip_v.Prelude.Dates.{Moment}
use dfip_v.Prelude.Dict.{lookup, lookup-insert_self}
use dfip_v.Prelude.Result.{ok}
use dfip_v.Api.ExcelGrant.{
  ExcelWorkbookGrant, GrantStore, register, register_over, grant_of, is_spent,
}
use dfip_v.Api.ExcelGrant.Tokens.{Settings}
use dfip_v.Api.ExcelGrant.Restoring.{
  resolve_excel_grant, resolve_over, accept_restored, restored_registration,
}

-- the grant that a resolution found, stored under its token id and not spent
abbrev pub Resolved : String → Moment → GrantStore → ExcelWorkbookGrant → Type 0
Resolved jti now s g = (lookup jti s ≡ some g) × (is_spent g now ≡ false)

pub accept_restored_ok :
    (jti user client : String) (now : Moment) (r : GrantStore × ExcelWorkbookGrant)
    (s' : GrantStore) (g : ExcelWorkbookGrant)
    → accept_restored jti user client now r ≡ (s', ok g)
    → (r ≡ (s', g)) × (is_spent g now ≡ false)
accept_restored_ok jti user client now (s, h) s' g e = ground arith

register-lookup :
    (c : Settings) (fresh jti user client : String) (issued : Moment) (s s' : GrantStore)
    (g : ExcelWorkbookGrant)
    → lookup jti s ≡ none
    → register (restored_registration c fresh jti user client issued) s ≡ (s', g)
    → lookup jti s' ≡ some g
unfolding register register_over
register-lookup c fresh jti user client issued s s' g free h =
    let r = restored_registration c fresh jti user client issued in
    let h' = rw free at h in ground (arith, h', lookup-insert_self jti (grant_of r) s)

resolve_over_ok :
    (c : Settings) (iat : Option Moment) (fresh jti user client : String) (restore : Bool)
    (now : Moment) (s s' : GrantStore) (g : ExcelWorkbookGrant) (o : Option ExcelWorkbookGrant)
    → lookup jti s ≡ o
    → resolve_over c iat fresh jti user client restore now s o ≡ (s', ok g)
    → Resolved jti now s' g
unfolding resolve_over
resolve_over_ok c iat fresh jti user client restore now s s' g (some x) l h = ground arith
resolve_over_ok c iat fresh jti user client false now s s' g none l h = absurd (ground arith)
resolve_over_ok c none fresh jti user client true now s s' g none l h = absurd (ground arith)
resolve_over_ok c (some issued) fresh jti user client true now s s' g none l h = ground (
  arith,
  accept_restored_ok jti user client now
      (register (restored_registration c fresh jti user client issued) s) s' g,
  register-lookup c fresh jti user client issued s s' g,
)

pub resolve_excel_grant_ok :
    (c : Settings) (iat : Option Moment) (fresh jti user client : String) (restore : Bool)
    (now : Moment) (s s' : GrantStore) (g : ExcelWorkbookGrant)
    → resolve_excel_grant c iat fresh jti user client restore now s ≡ (s', ok g)
    → Resolved jti now s' g
unfolding resolve_excel_grant
resolve_excel_grant_ok c iat fresh jti user client restore now s s' g h =
    resolve_over_ok c iat fresh jti user client restore now s s' g (lookup jti s) refl h
