-- ===== src/Api/ExcelGrant/Tokens.antt =====
-- The claims of a token, of dfip_api/auth.py, and who may have a grant for a company, of
-- packages/api/dfip_api/excel_grant.py and dfip_api/publication_service.py.
use dfip_v.Prelude.{
  ℕ, String, Bool, false, not, Option, none, some, ◌==◌, ◌&&◌, ◌||◌, string_eq, option_eq, any,
  if◌then◌else◌, leb,
}
use dfip_v.Prelude.Dates.{Moment}
use dfip_v.Prelude.Int.{ℤ, pos_part}
use dfip_v.Prelude.Result.{Result, ok, err}
use dfip_v.Prelude.Text.{is_falsy}
use dfip_v.Api.PublisherSession.{Principal, can_inspect}
use dfip_v.Api.Identity.{is_allowed_role}
use dfip_v.Api.Membership.{AuthError, authentication, authorization, requires_client_selection}

pub record Settings : Type 0 where
  pub dfip_auth_secret : String
  pub dfip_excel_access_ttl_seconds : ℤ
  pub dfip_excel_grant_ttl_seconds : ℤ

-- `max(1, int(...))` and `max(access_ttl, int(...))`
abbrev pub access_ttl : Settings → ℕ
access_ttl c = let n = pos_part c.dfip_excel_access_ttl_seconds in if leb 1 n then n else 1

abbrev pub grant_ttl : Settings → ℕ
grant_ttl c =
    let n = pos_part c.dfip_excel_grant_ttl_seconds in
    if leb (access_ttl c) n then n else access_ttl c

abbrev pub is_grant_role : String → Bool
is_grant_role role = role == "client" || role == "reader"

-- the verified claims of a token
pub record Claims : Type 0 where
  pub sub : Option String
  pub role : Option String
  pub client_id : Option String
  pub token_version : Option ℕ
  pub iat : Option Moment
  pub jti : Option String
  pub typ : Option String

-- `DEFAULT_ROLE` for an absent or empty role
abbrev pub claimed_role : Option String → String
claimed_role none = "reader"
claimed_role (some role) = if role == "" then "reader" else role

abbrev pub principal_of : Claims → String → Principal
principal_of c subject = record {
  subject = subject;
  auth_mode = "jwt";
  role = claimed_role c.role;
  client_id = c.client_id;
  platform_admin = false;
  membership_client_ids = none;
  user_id = none;
  token_version = c.token_version;
}

abbrev pub principal_under : Claims → Option String → Result AuthError Principal
principal_under c none = err authentication
principal_under c (some subject) =
    if subject == ""
    then err authentication
    else if is_allowed_role (claimed_role c.role)
    then ok (principal_of c subject)
    else err authentication

unfoldable pub principal_from_access_claims : Claims → Result AuthError Principal
principal_from_access_claims c = principal_under c c.sub

-- dfip_api/publication_service.py
abbrev pub outside : Principal → String → Bool
outside p client_id = elim p.membership_client_ids [
  | none ↦ false
  | some ids ↦ not p.platform_admin && not (any (λ id. id == client_id) ids)
]

unfoldable pub enforce_client_scope : Principal → String → Result AuthError (Unit {0})
enforce_client_scope p client_id =
    if requires_client_selection p
    then err authorization
    else if not (is_falsy p.client_id) && not (p.client_id == some client_id)
    then err authorization
    else if outside p client_id
    then err authorization
    else ok tt

unfoldable pub authorize_excel_grant_client : Principal → String → Result AuthError (Unit {0})
authorize_excel_grant_client p client_id =
    if is_grant_role p.role
    then (if p.client_id == some client_id then ok tt else err authorization)
    else if can_inspect p.role || p.platform_admin
    then enforce_client_scope p client_id
    else err authorization
