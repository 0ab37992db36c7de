-- ===== src/Api/ExcelGrant/Minting.antt =====
-- How a token is issued: `issue_excel_workbook_token` of packages/api/dfip_api/excel_grant.py.
use dfip_v.Prelude.{
  ◌+◌, String, Bool, not, Option, none, some, ◌==◌, string_eq, option_eq, is_some, if◌then◌else◌,
}
use dfip_v.Prelude.Dates.{Moment}
use dfip_v.Prelude.Result.{Result, ok, err}
use dfip_v.Prelude.Text.{or_text}
use dfip_v.Api.PublisherSession.{Principal}
use dfip_v.Api.Membership.{AuthError, authentication, persistence_unavailable}
use dfip_v.Api.ExcelGrant.{GrantStore, Registration, register, get_active}
use dfip_v.Api.ExcelGrant.Tokens.{Claims, authorize_excel_grant_client, grant_ttl}
use dfip_v.Api.ExcelGrant.Binding.{Call}

abbrev pub issued_registration : Call → String → String → String → Registration
issued_registration call jti user_id client_id = record {
  grant_id = call.fresh;
  user_id = user_id;
  client_id = client_id;
  jti = jti;
  expires_at = call.now + grant_ttl call.settings;
  created_at = call.now;
}

-- the payload that `issue_access_token` signs; `iat` is its own reading of the clock
abbrev pub issued_claims : Principal → String → String → Moment → Claims
issued_claims p client_id jti iat = record {
  sub = some p.subject;
  role = some "client";
  client_id = some client_id;
  token_version = p.token_version;
  iat = some iat;
  jti = some jti;
  typ = some "excel";
}

abbrev pub issue_registered :
    Call
    → Principal
    → String
    → String
    → Moment
    → GrantStore
    → GrantStore × Result AuthError (Option Claims)
issue_registered call p client_id jti iat s =
    if not (is_some (get_active jti call.now s))
    then (s, err persistence_unavailable)
    else if call.settings.dfip_auth_secret == ""
    then (s, err authentication)
    else (s, ok (some (issued_claims p client_id jti iat)))

abbrev pub issue_authorized :
    Call
    → Principal
    → String
    → String
    → String
    → Moment
    → GrantStore
    → Result AuthError (Unit {0})
    → GrantStore × Result AuthError (Option Claims)
issue_authorized call p user_id client_id jti iat s (err e) = (s, err e)
issue_authorized call p user_id client_id jti iat s (ok _) =
    issue_registered call p client_id jti iat
      (register (issued_registration call jti user_id client_id) s).0

abbrev pub issue_for :
    (String → Bool)
    → Call
    → Principal
    → String
    → Moment
    → GrantStore
    → Option String
    → Option String
    → GrantStore × Result AuthError (Option Claims)
issue_for is_uuid call p jti iat s (some user_id) (some target) =
    if user_id == ""
    then (s, ok none)
    else if target == ""
    then (s, ok none)
    else if not (is_uuid target)
    then (s, ok none)
    else issue_authorized call p user_id target jti iat s (authorize_excel_grant_client p target)
issue_for is_uuid call p jti iat s _ _ = (s, ok none)

-- `none`: no token for this caller. `jti` is the fresh token id.
unfoldable pub issue_excel_workbook_token :
    (String → Bool)
    → Call
    → Principal
    → Option String
    → String
    → Moment
    → GrantStore
    → GrantStore × Result AuthError (Option Claims)
issue_excel_workbook_token is_uuid call p client_id jti iat s =
    if not (p.auth_mode == "jwt")
    then (s, ok none)
    else issue_for is_uuid call p jti iat s p.user_id (or_text client_id p.client_id)
