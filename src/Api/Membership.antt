-- ===== src/Api/Membership.antt =====
-- packages/api/dfip_api/membership.py: what the directory says of the bearer of a token. The identity
-- that the store finds under the subject, and whether that store is the authoritative directory, are
-- arguments of `enrich_principal`.
pub mod Bound
pub mod Versions
use dfip_v.Prelude.{
  ℕ, String, Bool, true, false, not, Option, none, some, List, [], ◌∷◌, map, ◌==◌, ◌&&◌, string_eq,
  nat_eq, option_eq, length, filter, ltb, if◌then◌else◌,
}
use dfip_v.Prelude.Result.{Result, ok, err}
use dfip_v.Prelude.Sort.{best}
use dfip_v.Prelude.Text.{truthy, is_falsy}
use dfip_v.Api.PublisherSession.{Principal}
use dfip_v.Api.Identity.{MembershipRow, IdentityRecord, is_allowed_role, is_empty}

pub data AuthError : Type 0 where
  authentication authorization persistence_unavailable : AuthError

-- `_ROLE_RANK.get(role, 0)`
unfoldable pub role_rank : String → ℕ
role_rank role = if role == "admin" then 2 else if role == "publisher" then 1 else 0

abbrev pub several : Option (List String) → Bool
several none = false
several (some ids) = ltb 1 (length ids)

unfoldable pub requires_client_selection : Principal → Bool
requires_client_selection p =
    if p.platform_admin
    then false
    else if not (is_falsy p.client_id)
    then false
    else several p.membership_client_ids

-- dfip_db/rls.py
pub record RlsContext : Type 0 where
  pub user_id : String
  pub role : String
  pub client_ids : List String
  pub platform_admin : Bool
  pub subject : String

abbrev pub ids_or_empty : Option (List String) → List String
ids_or_empty none = []
ids_or_empty (some ids) = ids

abbrev pub rls_client_ids : Principal → Option String → List String
rls_client_ids p (some client_id) =
    if client_id == ""
    then (if requires_client_selection p then [] else ids_or_empty p.membership_client_ids)
    else client_id ∷ []
rls_client_ids p none =
    if requires_client_selection p then [] else ids_or_empty p.membership_client_ids

unfoldable pub rls_context_for : Principal → Bool → Option RlsContext
rls_context_for p db_mode =
    if not db_mode
    then none
    else some (record {
      user_id = truthy p.user_id "";
      role = p.role;
      client_ids = rls_client_ids p p.client_id;
      platform_admin = p.platform_admin;
      subject = p.subject;
    })

abbrev pub as_platform_admin : Principal → IdentityRecord → Principal
as_platform_admin p i = record p {
  role = "admin";
  platform_admin = true;
  membership_client_ids = none;
  user_id = some i.user_id;
  token_version = some i.token_version;
}

-- the memberships that a claimed client leaves
abbrev pub scoped_memberships : Option String → List MembershipRow → List MembershipRow
scoped_memberships none rows = rows
scoped_memberships (some client_id) rows =
    if client_id == "" then rows else filter (λ m. m.client_id == client_id) rows

abbrev pub outranks : String → String → Bool
outranks a b = ltb (role_rank b) (role_rank a)

abbrev pub as_member : Principal → IdentityRecord → List MembershipRow → String → Principal
as_member p i rows role = record p {
  role = role;
  platform_admin = false;
  membership_client_ids = some (map (λ m. m.client_id) rows);
  user_id = some i.user_id;
  token_version = some i.token_version;
}

abbrev pub with_effective_role :
    Principal → IdentityRecord → List MembershipRow → Option String → Result AuthError Principal
with_effective_role p i rows none = err authorization
with_effective_role p i rows (some role) = ok (as_member p i rows role)

abbrev pub allowed_roles : List MembershipRow → List String
allowed_roles rows = filter is_allowed_role (map (λ m. m.role) rows)

unfoldable pub apply_identity : Principal → IdentityRecord → Result AuthError Principal
apply_identity p i =
    let rows = scoped_memberships p.client_id i.memberships in
    if i.is_platform_admin
    then ok (as_platform_admin p i)
    else with_effective_role p i rows (best outranks (allowed_roles rows))

-- a version in the token that is not the current one of the account
abbrev pub is_stale : Option ℕ → ℕ → Bool
is_stale none current = false
is_stale (some version) current = not (version == current)

abbrev pub enrich_known : Principal → Option IdentityRecord → Bool → Result AuthError Principal
enrich_known p none requires_directory = if requires_directory then err authorization else ok p
enrich_known p (some i) requires_directory =
    if is_stale p.token_version i.token_version
    then err authentication
    else if not i.is_platform_admin && is_empty i.memberships
    then err authorization
    else apply_identity p i

unfoldable pub enrich_principal :
    Bool → Option IdentityRecord → Principal → Result AuthError Principal
enrich_principal requires_directory identity p =
    if not (p.auth_mode == "jwt") then ok p else enrich_known p identity requires_directory
