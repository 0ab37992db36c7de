-- ===== src/Api/ExcelGrant/Granted.antt =====
-- What a grant and the directory give the bearer of a workbook token: the last steps of
-- `principal_from_excel_grant` of packages/api/dfip_api/excel_grant.py.
use dfip_v.Prelude.{
  ◌≡◌, refl, sym, inl, inr, ◌⊎◌, String, true, false, some, [], ◌∷◌, ◌==◌, ◌&&◌, string_eq,
  option_eq, option_beq_iff, filter, any, any-filter, arith, eq_iff, Bool-cases, is_some,
}
use dfip_v.Prelude.Dates.{Moment}
use dfip_v.Prelude.Dict.{lookup, lookup-insert_self}
use dfip_v.Prelude.Result.{Result, ok, err, ok-injective}
use dfip_v.Api.PublisherSession.{Principal}
use dfip_v.Api.Identity.{
  MembershipRow, IdentityRecord, IdentityStore, get_by_subject, is_allowed_role,
}
use dfip_v.Api.Membership.{AuthError, apply_identity, as_platform_admin}
use dfip_v.Api.Membership.Bound.{gives, apply_identity-member_rows}
use dfip_v.Api.ExcelGrant.{ExcelWorkbookGrant, GrantStore, is_spent, touch, touch_over, used}
use dfip_v.Api.ExcelGrant.Tokens.{Claims}
use dfip_v.Api.ExcelGrant.Restoring.{bound_to, client_principal}
use dfip_v.Api.ExcelGrant.Binding.{Call}
use dfip_v.Api.ExcelGrant.Resolved.{Resolved}

-- The principal that a workbook token gives: a client of the company of the grant that the store holds
-- under the token's id, neither revoked nor expired, issued to this account, which is still a member of
-- that company in an allowed role or a platform administrator.
pub record IsBound (call : Call) (directory : IdentityStore) (c : Claims) (s : GrantStore)
    (p : Principal) : Type 0 where
  pub jti : String
  pub grant : ExcelWorkbookGrant
  pub identity : IdentityRecord
  pub token : c.jti ≡ some jti
  pub workbook : c.typ ≡ some "excel"
  pub stored : lookup jti s ≡ some grant
  pub live : is_spent grant call.now ≡ false
  pub known : get_by_subject p.subject directory ≡ some identity
  pub owner : grant.user_id ≡ identity.user_id
  pub claimed : c.client_id ≡ some grant.client_id
  pub client : p.client_id ≡ some grant.client_id
  pub only : p.membership_client_ids ≡ some (grant.client_id ∷ [])
  pub role : p.role ≡ "client"
  pub plain : p.platform_admin ≡ false
  pub member :
      (identity.is_platform_admin ≡ true)
      ⊎ (any (λ m. m.client_id == grant.client_id && is_allowed_role m.role) identity.memberships
          ≡ true)

pub touch-lookup :
    (jti : String) (now t : Moment) (s : GrantStore) (g : ExcelWorkbookGrant)
    → Resolved jti t s g
    → Resolved jti t (touch jti now s) (used now g)
unfolding touch touch_over
touch-lookup jti now t s g (l, live) =
    let open_ : is_some g.revoked_at ≡ false = ground arith in
    (rw (l, open_) (lookup-insert_self jti (used now g) s), live)

pub bound_to_ok :
    (p q : Principal) (user jti : String) (now : Moment)
    (r : GrantStore × Result AuthError ExcelWorkbookGrant) (s' : GrantStore)
    → bound_to p user jti now r ≡ (s', ok q)
    → (s1 : GrantStore) × (g : ExcelWorkbookGrant) × (r ≡ (s1, ok g))
      × (p.client_id ≡ some g.client_id)
      × (user ≡ g.user_id)
      × (s' ≡ touch jti now s1)
      × (q ≡ client_principal p g.client_id)
bound_to_ok p q user jti now (s1, ok g) s' h = (
  s1,
  g,
  refl,
  ground (arith, option_beq_iff string_eq p.client_id (some g.client_id)),
  ground (arith, eq_iff user g.user_id),
  ground arith,
  ground arith,
)
bound_to_ok p q user jti now (s1, err e) s' h = absurd (ground arith)

gives-allowed :
    (role : String) (m : MembershipRow) → gives role m ≡ true → is_allowed_role m.role ≡ true
gives-allowed role m h = elim (Bool-cases (m.role == role)) [
  | inl e ↦ rw e at h
  | inr e ↦ let h' = rw e at h in absurd cc
]

pub apply_identity_member :
    (p q : Principal) (i : IdentityRecord) (client : String)
    → apply_identity p i ≡ ok q
    → p.client_id ≡ some client
    → (client == "") ≡ false
    → (q.subject ≡ p.subject)
      × (q.client_id ≡ p.client_id)
      × ((i.is_platform_admin ≡ true)
          ⊎ (any (λ m. m.client_id == client && is_allowed_role m.role) i.memberships ≡ true))
unfolding apply_identity
apply_identity_member p q i client h e ne = elim (Bool-cases i.is_platform_admin) [
  | inl admin ↦
      let h' : ok (as_platform_admin p i) ≡ ok q = rw admin at h in
      let found = sym (ok-injective _ _ h') in rw found (refl, refl, inl admin)
  | inr plain ↦
      let b = apply_identity-member_rows p q i plain h in
      let given : any (gives q.role) (filter (λ m. m.client_id == client) i.memberships) ≡ true =
        rw (e, ne) at b.5 in
      (
        b.1,
        b.2,
        inr (
            any-filter (gives q.role) (λ m. m.client_id == client) (λ m. is_allowed_role m.role)
              i.memberships (gives-allowed q.role) given),
      )
]
