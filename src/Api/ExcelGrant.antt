-- ===== src/Api/ExcelGrant.antt =====
-- Workbook grants: packages/api/dfip_api/excel_grant.py over the row of
-- packages/db/dfip_db/excel_grant.py. The store is `InMemoryExcelGrantStore`, which raises nothing. The
-- claims are those of a token whose signature PyJWT has verified; a claim of the wrong type counts as
-- absent. Fresh ids, the clock's reading and the test for a UUID are arguments.
pub mod Tokens
pub mod Restoring
pub mod Binding
pub mod Minting
pub mod Steps
pub mod Entries
pub mod Resolved
pub mod Granted
pub mod Bound
pub mod Issued
pub mod Member
pub mod Works
pub mod Revoked
use dfip_v.Prelude.{
  ℕ, ◌+◌, String, Bool, true, false, not, Option, none, some, List, [], ◌∷◌, ◌==◌, ◌&&◌, ◌||◌,
  string_eq, option_eq, any, length, filter, if◌then◌else◌, leb, ltb, is_some,
}
use dfip_v.Prelude.Dates.{Moment}
use dfip_v.Prelude.Int.{ℤ, pos_part}
use dfip_v.Prelude.Dict.{Dict, lookup, insert, values, filter_values, map_values}
use dfip_v.Prelude.Result.{Result, ok, err, ◌>>=◌, ◌>>◌}
use dfip_v.Prelude.Text.{is_falsy, or_text, truthy}
use dfip_v.Api.PublisherSession.{Principal, can_inspect}
use dfip_v.Api.Identity.{IdentityRecord, IdentityStore, get_by_subject, is_allowed_role}
use dfip_v.Api.Membership.{
  AuthError, authentication, authorization, persistence_unavailable, apply_identity,
  requires_client_selection,
}

pub record ExcelWorkbookGrant : Type 0 where
  pub grant_id : String
  pub user_id : String
  pub client_id : String
  pub jti : String
  pub created_at : Moment
  pub expires_at : Moment
  pub revoked_at : Option Moment
  pub last_used_at : Option Moment

-- `_by_jti`
abbrev pub GrantStore : Type 0
GrantStore = Dict String ExcelWorkbookGrant

-- the keyword arguments of `register`, with the fresh `grant_id`
pub record Registration : Type 0 where
  pub grant_id : String
  pub user_id : String
  pub client_id : String
  pub jti : String
  pub expires_at : Moment
  pub created_at : Moment

abbrev pub grant_of : Registration → ExcelWorkbookGrant
grant_of r = record {
  grant_id = r.grant_id;
  user_id = r.user_id;
  client_id = r.client_id;
  jti = r.jti;
  created_at = r.created_at;
  expires_at = r.expires_at;
  revoked_at = none;
  last_used_at = none;
}

unfoldable pub register_over :
    Registration → GrantStore → Option ExcelWorkbookGrant → GrantStore × ExcelWorkbookGrant
register_over r s (some existing) = (s, existing)
register_over r s none = (insert r.jti (grant_of r) s, grant_of r)

unfoldable pub register : Registration → GrantStore → GrantStore × ExcelWorkbookGrant
register r s = register_over r s (lookup r.jti s)

-- `revoked_at is not None or expires_at <= now`
abbrev pub is_spent : ExcelWorkbookGrant → Moment → Bool
is_spent g now = is_some g.revoked_at || leb g.expires_at now

abbrev pub unless_spent : Moment → Option ExcelWorkbookGrant → Option ExcelWorkbookGrant
unless_spent now none = none
unless_spent now (some g) = if is_spent g now then none else some g

unfoldable pub get_active : String → Moment → GrantStore → Option ExcelWorkbookGrant
get_active jti now s = unless_spent now (lookup jti s)

abbrev pub used : Moment → ExcelWorkbookGrant → ExcelWorkbookGrant
used now g = record g { last_used_at = some now }

unfoldable pub touch_over : String → Moment → GrantStore → Option ExcelWorkbookGrant → GrantStore
touch_over jti now s none = s
touch_over jti now s (some g) = if is_some g.revoked_at then s else insert jti (used now g) s

unfoldable pub touch : String → Moment → GrantStore → GrantStore
touch jti now s = touch_over jti now s (lookup jti s)

abbrev pub is_open_of : String → ExcelWorkbookGrant → Bool
is_open_of user_id g = g.user_id == user_id && not (is_some g.revoked_at)

abbrev pub revoked : String → Moment → ExcelWorkbookGrant → ExcelWorkbookGrant
revoked user_id now g = if is_open_of user_id g then record g { revoked_at = some now } else g

unfoldable pub revoke_for_user : String → Moment → GrantStore → GrantStore × ℕ
revoke_for_user user_id now s =
    (map_values (revoked user_id now) s, length (filter (is_open_of user_id) (values s)))

unfoldable pub purge_client : String → GrantStore → GrantStore
purge_client client_id = filter_values (λ g. not (g.client_id == client_id))
