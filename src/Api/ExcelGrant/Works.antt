-- ===== src/Api/ExcelGrant/Works.antt =====
-- An issued workbook token works until its grant expires.
use dfip_v.Prelude.{
  ◌≡◌, ◌≢◌, refl, sym, ap, ◌∙◌, ◌+◌, ◌<◌, String, Bool, false, Option, none, some, List, ◌==◌, All,
  string_eq, option_eq, beq_ne, option_beq_iff, eq_iff, is_some, arith,
}
use mathlib.Core.Path.{subst}
use mathlib.Core.Option.{some-injective}
use dfip_v.Prelude.Dates.{Moment}
use dfip_v.Prelude.Dict.{lookup, lookup-insert_self}
use dfip_v.Prelude.Result.{ok}
use dfip_v.Prelude.Text.{truthy}
use dfip_v.Api.PublisherSession.{Principal}
use dfip_v.Api.Identity.{IdentityRecord, IdentityStore, get_by_subject}
use dfip_v.Api.Membership.{apply_identity}
use dfip_v.Api.ExcelGrant.{
  ExcelWorkbookGrant, GrantStore, register, register_over, grant_of, used, revoked, is_spent,
}
use dfip_v.Api.ExcelGrant.Binding.{Call, principal_from_excel_grant, bind_member, bind_identity}
use dfip_v.Api.ExcelGrant.Tokens.{Claims, principal_from_access_claims, principal_of, grant_ttl}
use dfip_v.Api.ExcelGrant.Restoring.{resolve_excel_grant, resolve_over, client_principal}
use dfip_v.Api.ExcelGrant.Minting.{issue_excel_workbook_token, issued_registration, issued_claims}
use dfip_v.Api.ExcelGrant.Steps.{Op, run_ops, Spares}
use dfip_v.Api.ExcelGrant.Entries.{Entry}
use dfip_v.Api.ExcelGrant.Revoked.{run_ops-Entry}
use dfip_v.Api.ExcelGrant.Issued.{issue_ok}
use dfip_v.Api.ExcelGrant.Member.{IsMember, apply_identity_succeeds}

-- the row that an issued token stands for, while nobody revokes it
abbrev Stands : String → String → Moment → ExcelWorkbookGrant → Type 0
Stands user target expires g =
    (g.user_id ≡ user)
    × (g.client_id ≡ target)
    × (g.expires_at ≡ expires)
    × (is_some g.revoked_at ≡ false)

used-Stands :
    (user target : String) (expires now : Moment) (g : ExcelWorkbookGrant)
    → Stands user target expires g
    → Stands user target expires (used now g)
used-Stands user target expires now g h = h

revoked-Stands :
    (user target : String) (expires : Moment) (other : String) (now : Moment)
    (g : ExcelWorkbookGrant)
    → (other == user) ≡ false
    → Stands user target expires g
    → Stands user target expires (revoked other now g)
revoked-Stands user target expires other now g ne h =
    ground (arith, eq_iff g.user_id other, eq_iff other user)

purged-Stands :
    (user target : String) (expires : Moment) (other : String) (g : ExcelWorkbookGrant)
    → (other == target) ≡ false
    → Stands user target expires g
    → (g.client_id == other) ≡ false
purged-Stands user target expires other g ne h =
    ground (arith, eq_iff g.client_id other, eq_iff other target)

register-Stands :
    (call : Call) (jti user target : String) (s : GrantStore)
    → lookup jti s ≡ none
    → Entry jti
        (Stands user target (call.now + grant_ttl call.settings))
        (register (issued_registration call jti user target) s).0
unfolding register register_over
register-Stands call jti user target s free =
    let g = grant_of (issued_registration call jti user target) in
    (g, (rw free (lookup-insert_self jti g s), (refl, refl, refl, refl)))

resolve_found :
    (call : Call) (iat : Option Moment) (jti user client : String) (s : GrantStore)
    (g : ExcelWorkbookGrant)
    → lookup jti s ≡ some g
    → is_spent g call.now ≡ false
    → resolve_excel_grant call.settings iat call.fresh jti user client call.restore_missing call.now
        s
      ≡ (s, ok g)
unfolding resolve_excel_grant resolve_over
resolve_found call iat jti user client s g l live = rw (l, live) refl

bind_member_found :
    (call : Call) (c : Claims) (jti target : String) (i : IdentityRecord) (p q : Principal)
    (s : GrantStore) (g : ExcelWorkbookGrant)
    → apply_identity p i ≡ ok q
    → q.client_id ≡ some target
    → lookup jti s ≡ some g
    → is_spent g call.now ≡ false
    → g.client_id ≡ target
    → g.user_id ≡ i.user_id
    → (bind_member call c jti i.user_id s (apply_identity p i)).1 ≡ ok (client_principal q target)
bind_member_found call c jti target i p q s g a qc l live gc gu =
    rw (a, resolve_found call c.iat jti i.user_id (truthy q.client_id "") s g l live)
      (ground (
        arith,
        option_beq_iff string_eq q.client_id (some g.client_id),
        eq_iff i.user_id g.user_id,
      ))

principal_of_issued :
    (p : Principal) (target jti : String) (iat : Moment)
    → (p.subject == "") ≡ false
    → principal_from_access_claims (issued_claims p target jti iat)
      ≡ ok (principal_of (issued_claims p target jti iat) p.subject)
unfolding principal_from_access_claims
principal_of_issued p target jti iat named = rw named refl

bind_identity_found :
    (call : Call) (c : Claims) (jti target : String) (i : IdentityRecord) (p : Principal)
    (s : GrantStore) (g : ExcelWorkbookGrant) (o : Option IdentityRecord)
    → o ≡ some i
    → (i.user_id == "") ≡ false
    → p.client_id ≡ some target
    → (target == "") ≡ false
    → IsMember target i
    → lookup jti s ≡ some g
    → is_spent g call.now ≡ false
    → g.client_id ≡ target
    → g.user_id ≡ i.user_id
    → (q : Principal) × ((bind_identity call c jti p s o).1 ≡ ok (client_principal q target))
bind_identity_found call c jti target i p s g none known named pc full m l live gc gu = absurd cc
bind_identity_found call c jti target i p s g (some j) known named pc full m l live gc gu =
    let same : j ≡ i = some-injective _ _ known in
    let (q, (a, qc)) = apply_identity_succeeds p i target pc full m in
    (q, rw (same, named) (bind_member_found call c jti target i p q s g a qc l live gc gu))

issued_claims_bind :
    (call : Call) (p : Principal) (target jti : String) (iat : Moment) (s : GrantStore)
    (directory : IdentityStore) (i : IdentityRecord) (g : ExcelWorkbookGrant)
    → (jti == "") ≡ false
    → (p.subject == "") ≡ false
    → (i.user_id == "") ≡ false
    → (target == "") ≡ false
    → get_by_subject p.subject directory ≡ some i
    → IsMember target i
    → lookup jti s ≡ some g
    → is_spent g call.now ≡ false
    → g.client_id ≡ target
    → g.user_id ≡ i.user_id
    → (q : Principal) × ((principal_from_excel_grant call
          (some directory)
          (ok (issued_claims p target jti iat))
          s).1
        ≡ ok (client_principal q target))
unfolding principal_from_excel_grant
issued_claims_bind call p target jti iat s directory i g fj fs fu ft known m l live gc gu =
    let c = issued_claims p target jti iat in
    let (q, e) =
      bind_identity_found call c jti target i (principal_of c p.subject) s g
        (get_by_subject p.subject directory) known fu refl ft m l live gc gu in
    (q, rw (fj, principal_of_issued p target jti iat fs, ft) e)

pub issue_excel_workbook_token-works :
    (is_uuid : String → Bool) (issuing using : Call) (p : Principal) (client : Option String)
    (jti user : String) (iat : Moment) (s s' : GrantStore) (c : Claims) (ops : List Op)
    (directory : IdentityStore) (i : IdentityRecord)
    → issue_excel_workbook_token is_uuid issuing p client jti iat s ≡ (s', ok (some c))
    → lookup jti s ≡ none
    → p.user_id ≡ some user
    → jti ≢ ""
    → p.subject ≢ ""
    → ((target : String) → c.client_id ≡ some target → All (Spares user target) ops)
    → get_by_subject p.subject directory ≡ some i
    → i.user_id ≡ user
    → ((target : String) → c.client_id ≡ some target → IsMember target i)
    → using.now < issuing.now + grant_ttl issuing.settings
    → (q : Principal) × (target : String) × (c.client_id ≡ some target)
      × ((principal_from_excel_grant using (some directory) (ok c) (run_ops ops s')).1
          ≡ ok (client_principal q target))
issue_excel_workbook_token-works is_uuid issuing using p client jti user iat s s' c ops directory i
      issue free pu full_jti full_subject spared known iu members early =
    let b = issue_ok is_uuid issuing p client jti iat s s' c issue in
    let expires = issuing.now + grant_ttl issuing.settings in
    let same : b.user ≡ user = some-injective _ _ (sym b.user_is ∙ pu) in
    let first : Entry jti (Stands b.user b.target expires) s' =
      rw b.store (register-Stands issuing jti b.user b.target s free) in
    let claims_client : c.client_id ≡ some b.target = ap (λ x. x.client_id) b.claims in
    let row =
      run_ops-Entry jti (Stands b.user b.target expires) (Spares b.user b.target)
        (used-Stands b.user b.target expires)
        (λ other now g. revoked-Stands b.user b.target expires other now g)
        (purged-Stands b.user b.target expires) ops s'
        (subst (λ u. All (Spares u b.target) ops) (sym same) (spared b.target claims_client))
        first in
    let live : is_spent row.0 using.now ≡ false = ground (arith, row.1.1) in
    let (q, e) =
      issued_claims_bind using p b.target jti iat (run_ops ops s') directory i row.0
        (beq_ne string_eq jti "" full_jti) (beq_ne string_eq p.subject "" full_subject)
        (ap (λ u. u == "") (iu ∙ sym same) ∙ b.user_full) b.target_full known
        (members b.target claims_client) row.1.0 live row.1.1.1 (row.1.1.0 ∙ same ∙ sym iu) in
    (
      q,
      b.target,
      claims_client,
      subst
          (λ x.
            (principal_from_excel_grant using (some directory) (ok x) (run_ops ops s')).1
            ≡ ok (client_principal q b.target))
          (sym b.claims) e,
    )
