-- ===== src/Tests/Grants.antt =====
-- Runs of the workbook grants of packages/api/dfip_api/excel_grant.py and of
-- packages/api/dfip_api/membership.py.
use dfip_v.Prelude.{
  ℕ, ◌≡◌, refl, sym, inr, String, true, false, string_eq, ne_of_beq, none, some, List, [], ◌∷◌, All,
  any, filter, map, arith,
}
use mathlib.Core.Option.{some-injective}
use dfip_v.Prelude.Dict.{lookup, insert}
use dfip_v.Prelude.Int.{pos}
use dfip_v.Prelude.Result.{ok, err}
use dfip_v.Prelude.Sort.{best}
use dfip_v.Api.PublisherSession.{Principal}
use dfip_v.Api.Identity.{
  MembershipRow, IdentityRecord, IdentityStore, get_by_subject, increment_token_version,
}
use dfip_v.Api.Membership.{authentication, enrich_principal}
use dfip_v.Api.Membership.{AuthError, apply_identity, role_rank}
use dfip_v.Api.Membership.Versions.{
  Op as Change, renames, creates_client, increments, run_ops as run_changes,
  increment_token_version-refuses,
}
use dfip_v.Api.Membership.Bound.{admits, IsHighest, apply_identity_bound}
use dfip_v.Api.ExcelGrant.{
  GrantStore, register, register_over, get_active, touch, touch_over, revoke_for_user,
}
use dfip_v.Api.ExcelGrant.Tokens.{
  Settings, Claims, principal_from_access_claims, authorize_excel_grant_client,
}
use dfip_v.Api.ExcelGrant.Restoring.{client_principal, resolve_excel_grant, resolve_over}
use dfip_v.Api.ExcelGrant.Binding.{Call, principal_from_excel_grant}
use dfip_v.Api.ExcelGrant.Minting.{issue_excel_workbook_token, issued_claims}
use dfip_v.Api.ExcelGrant.Steps.{Op, binds, revokes, purges, Spares, run_ops}
use dfip_v.Api.ExcelGrant.Granted.{IsBound}
use dfip_v.Api.ExcelGrant.Bound.{principal_from_excel_grant-IsBound}
use dfip_v.Api.ExcelGrant.Member.{IsMember}
use dfip_v.Api.ExcelGrant.Works.{issue_excel_workbook_token-works}
use dfip_v.Api.ExcelGrant.Revoked.{revoke_for_user-refuses}

abbrev settings : Settings
settings = record {
  dfip_auth_secret = "secret";
  dfip_excel_access_ttl_seconds = pos 60;
  dfip_excel_grant_ttl_seconds = pos 1000;
}

abbrev reader_of : String → MembershipRow
reader_of client_id = record { client_id = client_id; role = "reader"; code = none; name = none }

abbrev ada : IdentityRecord
ada = record {
  user_id = "u1";
  subject = "ada";
  is_platform_admin = false;
  memberships = reader_of "c1" ∷ reader_of "c2" ∷ [];
  token_version = 1;
}

abbrev directory : IdentityStore
directory = record {
  by_subject = ("ada", record { identity = ada; password_hash = none }) ∷ [];
  by_user_id = ("u1", "ada") ∷ [];
}

-- a session of hers that has chosen a company
abbrev session : Principal
session = record {
  subject = "ada";
  auth_mode = "jwt";
  role = "reader";
  client_id = some "c1";
  platform_admin = false;
  membership_client_ids = some ("c1" ∷ []);
  user_id = some "u1";
  token_version = some 1;
}

abbrev at : ℕ → Call
at now = record { settings = settings; restore_missing = false; now = now; fresh = "g1" }

-- the claims of her token, issued at 100
abbrev claims : Claims
claims = issued_claims session "c1" "j1" 100

abbrev issued : GrantStore
issued = (issue_excel_workbook_token (λ id. true) (at 100) session none "j1" 100 []).0

abbrev bound : Principal
bound = client_principal (record session { user_id = some "u1" }) "c1"

issues_token :
    issue_excel_workbook_token (λ id. true) (at 100) session none "j1" 100 []
    ≡ (issued, ok (some claims))
unfolding issue_excel_workbook_token authorize_excel_grant_client register register_over get_active
    lookup insert any
issues_token = refl

abbrev used_once : GrantStore
used_once = (principal_from_excel_grant (at 200) (some directory) (ok claims) issued).0

binds_token :
    principal_from_excel_grant (at 200) (some directory) (ok claims) issued
    ≡ (used_once, ok (client_principal session "c1"))
unfolding principal_from_excel_grant principal_from_access_claims get_by_subject apply_identity
    resolve_excel_grant resolve_over issue_excel_workbook_token authorize_excel_grant_client
    register register_over get_active lookup insert any filter best role_rank touch touch_over
binds_token = refl

apply_identity_bound_example :
    let rows = filter (admits session.client_id) ada.memberships in
    let q = record session { membership_client_ids = some ("c1" ∷ []) } in
    (q.platform_admin ≡ false)
    × (q.subject ≡ session.subject)
    × (q.client_id ≡ session.client_id)
    × (q.user_id ≡ some ada.user_id)
    × (q.membership_client_ids ≡ some (map (λ m. m.client_id) rows))
    × IsHighest q.role rows
apply_identity_bound_example =
    apply_identity_bound session (record session { membership_client_ids = some ("c1" ∷ []) }) ada
      refl (unfold apply_identity in unfold filter in unfold best in unfold role_rank in refl)

principal_from_excel_grant-IsBound_example :
    IsBound (at 200) directory claims used_once (client_principal session "c1")
principal_from_excel_grant-IsBound_example =
    principal_from_excel_grant-IsBound (at 200) directory claims issued used_once
      (client_principal session "c1") binds_token

-- what may happen between the revocation and the next use of the token
abbrev requests : List Op
requests = binds (at 300) (some directory) (ok claims) ∷ revokes "u2" 310 ∷ purges "c2" ∷ []

purges_another :
    (target : String) → claims.client_id ≡ some target → All (Spares "u1" target) requests
purges_another target e = rw (sym (some-injective _ _ e)) (tt, (refl, (refl, tt)))

issued_row : (g : _) × ((lookup "j1" issued ≡ some g) × (g.user_id ≡ "u1"))
unfolding issue_excel_workbook_token authorize_excel_grant_client register register_over get_active
    lookup insert any
issued_row = (_, (refl, refl))

revoke_for_user-refuses_example :
    let s' = run_ops requests (revoke_for_user "u1" 250 issued).0 in
    (e : AuthError) × ((principal_from_excel_grant (at 400) (some directory) (ok claims) s').1
      ≡ err e)
unfolding issued_row
revoke_for_user-refuses_example =
    revoke_for_user-refuses "u1" "j1" 250 issued issued_row.0 requests (at 400) directory claims
      issued_row.1.0 issued_row.1.1 (tt, (tt, (refl, tt))) refl

still-IsMember : (target : String) → claims.client_id ≡ some target → IsMember target ada
unfolding any
still-IsMember target e = inr (rw (sym (some-injective _ _ e)) refl)

known : get_by_subject "ada" directory ≡ some ada
unfolding get_by_subject lookup
known = refl

issue_excel_workbook_token-works_example :
    (q : Principal) × (target : String) × (claims.client_id ≡ some target)
    × ((principal_from_excel_grant
          (at 400)
          (some directory)
          (ok claims)
          (run_ops requests issued)).1
        ≡ ok (client_principal q target))
issue_excel_workbook_token-works_example =
    issue_excel_workbook_token-works (λ id. true) (at 100) (at 400) session none "j1" "u1" 100 []
      issued claims requests directory ada issues_token (unfold lookup in refl) refl
      (ne_of_beq string_eq "j1" "" refl) (ne_of_beq string_eq "ada" "" refl) purges_another known
      refl still-IsMember (omega arith)

-- her token from before, after a name change and a new account
abbrev changes : List Change
changes = renames "c1" "Acme" ∷ creates_client "u2" "bob" none "c1" ∷ increments "u1" ∷ []

increment_token_version-refuses_example :
    let s' = run_changes changes (increment_token_version "u1" directory).0 in
    enrich_principal true (get_by_subject "ada" s') session ≡ err authentication
increment_token_version-refuses_example =
    increment_token_version-refuses "u1" "ada" (record { identity = ada; password_hash = none })
      directory changes session 1 true (unfold lookup in refl) (unfold lookup in refl) refl refl
      refl (omega arith)
