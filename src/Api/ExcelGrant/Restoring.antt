-- ===== src/Api/ExcelGrant/Restoring.antt =====
-- How a token finds its grant again: `_resolve_excel_grant` of packages/api/dfip_api/excel_grant.py.
use dfip_v.Prelude.{
  ◌+◌, String, Bool, false, not, Option, none, some, [], ◌∷◌, ◌==◌, ◌||◌, string_eq, option_eq, leb,
  if◌then◌else◌,
}
use dfip_v.Prelude.Dates.{Moment}
use dfip_v.Prelude.Dict.{lookup}
use dfip_v.Prelude.Result.{Result, ok, err}
use dfip_v.Api.PublisherSession.{Principal}
use dfip_v.Api.Membership.{AuthError, authentication}
use dfip_v.Api.ExcelGrant.{ExcelWorkbookGrant, GrantStore, Registration, register, is_spent, touch}
use dfip_v.Api.ExcelGrant.Tokens.{Settings, grant_ttl}

-- `resolve_excel_grant` once the grant is restored from the token
abbrev pub accept_restored :
    String
    → String
    → String
    → Moment
    → GrantStore × ExcelWorkbookGrant
    → GrantStore × Result AuthError ExcelWorkbookGrant
accept_restored jti user_id client_id now (s, g) =
    if is_spent g now
    then (s, err authentication)
    else if not (g.jti == jti) || not (g.client_id == client_id) || not (g.user_id == user_id)
    then (s, err authentication)
    else (s, ok g)

abbrev pub restored_registration :
    Settings → String → String → String → String → Moment → Registration
restored_registration c grant_id jti user_id client_id issued_at = record {
  grant_id = grant_id;
  user_id = user_id;
  client_id = client_id;
  jti = jti;
  expires_at = issued_at + grant_ttl c;
  created_at = issued_at;
}

abbrev pub restore_grant :
    Settings
    → String
    → String
    → String
    → String
    → Moment
    → GrantStore
    → Option Moment
    → GrantStore × Result AuthError ExcelWorkbookGrant
restore_grant c grant_id jti user_id client_id now s none = (s, err authentication)
restore_grant c grant_id jti user_id client_id now s (some issued_at) =
    if leb (issued_at + grant_ttl c) now
    then (s, err authentication)
    else accept_restored jti user_id client_id now
        (register (restored_registration c grant_id jti user_id client_id issued_at) s)

unfoldable pub resolve_over :
    Settings
    → Option Moment
    → String
    → String
    → String
    → String
    → Bool
    → Moment
    → GrantStore
    → Option ExcelWorkbookGrant
    → GrantStore × Result AuthError ExcelWorkbookGrant
resolve_over c iat grant_id jti user_id client_id restore_missing now s (some g) =
    if is_spent g now then (s, err authentication) else (s, ok g)
resolve_over c iat grant_id jti user_id client_id restore_missing now s none =
    if restore_missing
    then restore_grant c grant_id jti user_id client_id now s iat
    else (s, err authentication)

unfoldable pub resolve_excel_grant :
    Settings
    → Option Moment
    → String
    → String
    → String
    → String
    → Bool
    → Moment
    → GrantStore
    → GrantStore × Result AuthError ExcelWorkbookGrant
resolve_excel_grant c iat grant_id jti user_id client_id restore_missing now s =
    resolve_over c iat grant_id jti user_id client_id restore_missing now s (lookup jti s)

-- `replace(principal, role="client", ...)`
abbrev pub client_principal : Principal → String → Principal
client_principal p client_id = record p {
  role = "client";
  platform_admin = false;
  client_id = some client_id;
  membership_client_ids = some (client_id ∷ []);
}

abbrev pub bound_to :
    Principal
    → String
    → String
    → Moment
    → GrantStore × Result AuthError ExcelWorkbookGrant
    → GrantStore × Result AuthError Principal
bound_to p user_id jti now (s, err e) = (s, err e)
bound_to p user_id jti now (s, ok g) =
    if not (p.client_id == some g.client_id)
    then (s, err authentication)
    else if not (user_id == g.user_id)
    then (s, err authentication)
    else (touch jti now s, ok (client_principal p g.client_id))
