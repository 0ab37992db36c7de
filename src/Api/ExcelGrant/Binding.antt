-- ===== src/Api/ExcelGrant/Binding.antt =====
-- How a token is bound to its grant: `principal_from_excel_grant` of
-- packages/api/dfip_api/excel_grant.py.
use dfip_v.Prelude.{
  String, Bool, not, Option, none, some, ◌==◌, string_eq, option_eq, if◌then◌else◌,
}
use dfip_v.Prelude.Dates.{Moment}
use dfip_v.Prelude.Result.{Result, ok, err}
use dfip_v.Prelude.Text.{is_falsy, truthy}
use dfip_v.Api.PublisherSession.{Principal}
use dfip_v.Api.Identity.{IdentityRecord, IdentityStore, get_by_subject}
use dfip_v.Api.Membership.{AuthError, authentication, apply_identity}
use dfip_v.Api.ExcelGrant.{GrantStore}
use dfip_v.Api.ExcelGrant.Tokens.{Claims, Settings, is_grant_role, principal_from_access_claims}
use dfip_v.Api.ExcelGrant.Restoring.{bound_to, resolve_excel_grant}

-- the data of one call that does not come from the stores
pub record Call : Type 0 where
  pub settings : Settings
  pub restore_missing : Bool
  pub now : Moment
  pub fresh : String

abbrev pub bind_member :
    Call
    → Claims
    → String
    → String
    → GrantStore
    → Result AuthError Principal
    → GrantStore × Result AuthError Principal
bind_member call c jti user_id s (err e) = (s, err e)
bind_member call c jti user_id s (ok p) = bound_to p user_id jti call.now (
    resolve_excel_grant call.settings c.iat call.fresh jti user_id (truthy p.client_id "")
      call.restore_missing call.now s)

abbrev pub bind_identity :
    Call
    → Claims
    → String
    → Principal
    → GrantStore
    → Option IdentityRecord
    → GrantStore × Result AuthError Principal
bind_identity call c jti p s none = (s, err authentication)
bind_identity call c jti p s (some i) =
    if i.user_id == ""
    then (s, err authentication)
    else bind_member call c jti i.user_id s (apply_identity p i)

abbrev pub bind_principal :
    Call
    → Option IdentityStore
    → Claims
    → String
    → GrantStore
    → Result AuthError Principal
    → GrantStore × Result AuthError Principal
bind_principal call directory c jti s (err e) = (s, err e)
bind_principal call none c jti s (ok p) = (s, err authentication)
bind_principal call (some directory) c jti s (ok p) =
    if not (is_grant_role p.role)
    then (s, err authentication)
    else if is_falsy p.client_id
    then (s, err authentication)
    else bind_identity call c jti p s (get_by_subject p.subject directory)

abbrev pub bind_jti :
    Call
    → Option IdentityStore
    → Claims
    → GrantStore
    → Option String
    → GrantStore × Result AuthError Principal
bind_jti call directory c s none = (s, err authentication)
bind_jti call directory c s (some jti) =
    if not (c.typ == some "excel")
    then (s, err authentication)
    else if jti == ""
    then (s, err authentication)
    else bind_principal call directory c jti s (principal_from_access_claims c)

-- The grant store is there: without one the function refuses every token.
unfoldable pub principal_from_excel_grant :
    Call
    → Option IdentityStore
    → Result AuthError Claims
    → GrantStore
    → GrantStore × Result AuthError Principal
principal_from_excel_grant call directory (err e) s = (s, err e)
principal_from_excel_grant call directory (ok c) s = bind_jti call directory c s c.jti
