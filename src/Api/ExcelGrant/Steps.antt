-- ===== src/Api/ExcelGrant/Steps.antt =====
-- What every call that reaches the grant store keeps: a property that a registration, a use and a
-- revocation keep is kept by the calls that bind and issue tokens, so by every sequence of calls.
use dfip_v.Prelude.{
  ◌≡◌, String, Bool, true, false, Option, none, some, List, [], ◌∷◌, ◌==◌, ◌||◌, not, string_eq,
  option_eq, if◌then◌else◌, leb,
}
use dfip_v.Prelude.Dates.{Moment}
use dfip_v.Prelude.Dict.{lookup}
use dfip_v.Prelude.Result.{Result, ok, err}
use dfip_v.Prelude.Text.{is_falsy, or_text, truthy}
use dfip_v.Api.PublisherSession.{Principal}
use dfip_v.Api.Identity.{IdentityRecord, IdentityStore, get_by_subject}
use dfip_v.Api.Membership.{AuthError, apply_identity}
use dfip_v.Api.ExcelGrant.{
  ExcelWorkbookGrant, GrantStore, Registration, register, touch, revoke_for_user, purge_client,
  is_spent, get_active,
}
use dfip_v.Api.ExcelGrant.Tokens.{
  Settings, Claims, principal_from_access_claims, is_grant_role, authorize_excel_grant_client,
}
use dfip_v.Api.ExcelGrant.Binding.{
  Call, principal_from_excel_grant, bind_jti, bind_principal, bind_identity, bind_member,
}
use dfip_v.Api.ExcelGrant.Restoring.{
  bound_to, resolve_excel_grant, resolve_over, restore_grant, accept_restored,
  restored_registration,
}
use dfip_v.Api.ExcelGrant.Minting.{
  issue_excel_workbook_token, issue_for, issue_authorized, issued_registration,
}

-- one call; `binds` and `issues` are whole requests
pub data Op : Type 0 where
  registers : Registration → Op
  touches : String → Moment → Op
  revokes : String → Moment → Op
  purges : String → Op
  binds : Call → Option IdentityStore → Result AuthError Claims → Op
  issues : (String → Bool) → Call → Principal → Option String → String → Moment → Op

abbrev pub apply : Op → GrantStore → GrantStore
apply (registers r) s = (register r s).0
apply (touches jti now) s = touch jti now s
apply (revokes user now) s = (revoke_for_user user now s).0
apply (purges client) s = purge_client client s
apply (binds call directory claims) s = (principal_from_excel_grant call directory claims s).0
apply (issues is_uuid call p client jti iat) s =
    (issue_excel_workbook_token is_uuid call p client jti iat s).0

abbrev pub run_ops : List Op → GrantStore → GrantStore
run_ops [] s = s
run_ops (op ∷ ops) s = run_ops ops (apply op s)

-- the call does not revoke the grants of this user and does not purge this company
abbrev pub Spares : String → String → Op → Type 0
Spares user client (revokes other now) = (other == user) ≡ false
Spares user client (purges other) = (other == client) ≡ false
Spares user client _ = Unit

-- the call does not purge this company
abbrev pub Retains : String → Op → Type 0
Retains client (purges other) = (other == client) ≡ false
Retains client _ = Unit

module _ {ℓ} {A : Type ℓ} (P : GrantStore → Type 0) where
  abbrev Keeps : GrantStore × A → Type 0
  Keeps r = P r.0

  if-Keeps : (b : Bool) (x y : GrantStore × A) → Keeps x → Keeps y → Keeps (if b then x else y)
  if-Keeps true x y px py = px
  if-Keeps false x y px py = py

module _ (P : GrantStore → Type 0)
    (on_register : (r : Registration) (s : GrantStore) → P s → P (register r s).0)
    (on_touch : (jti : String) (now : Moment) (s : GrantStore) → P s → P (touch jti now s)) where
  accept_restored-Keeps :
      (jti user client : String) (now : Moment) (r : GrantStore × ExcelWorkbookGrant)
      → P r.0
      → P (accept_restored jti user client now r).0
  accept_restored-Keeps jti user client now (s, g) h = if-Keeps P (is_spent g now) _ _ h (
      if-Keeps P (not (g.jti == jti) || not (g.client_id == client) || not (g.user_id == user)) _ _
        h h)

  restore_grant-Keeps :
      (c : Settings) (fresh jti user client : String) (now : Moment) (s : GrantStore)
      (iat : Option Moment)
      → P s
      → P (restore_grant c fresh jti user client now s iat).0
  restore_grant-Keeps c fresh jti user client now s none h = h
  restore_grant-Keeps c fresh jti user client now s (some issued) h =
      let r = restored_registration c fresh jti user client issued in
      if-Keeps P (leb r.expires_at now) _ _ h
        (accept_restored-Keeps jti user client now (register r s) (on_register r s h))

  resolve_over-Keeps :
      (c : Settings) (iat : Option Moment) (fresh jti user client : String) (restore : Bool)
      (now : Moment) (s : GrantStore) (o : Option ExcelWorkbookGrant)
      → P s
      → P (resolve_over c iat fresh jti user client restore now s o).0
  unfolding resolve_over
  resolve_over-Keeps c iat fresh jti user client restore now s (some g) h =
      if-Keeps P (is_spent g now) _ _ h h
  resolve_over-Keeps c iat fresh jti user client restore now s none h =
      if-Keeps P restore _ _ (restore_grant-Keeps c fresh jti user client now s iat h) h

  bound_to-Keeps :
      (p : Principal) (user jti : String) (now : Moment)
      (r : GrantStore × Result AuthError ExcelWorkbookGrant)
      → P r.0
      → P (bound_to p user jti now r).0
  bound_to-Keeps p user jti now (s, err e) h = h
  bound_to-Keeps p user jti now (s, ok g) h =
      if-Keeps P (not (p.client_id == some g.client_id)) _ _ h
        (if-Keeps P (not (user == g.user_id)) _ _ h (on_touch jti now s h))

  bind_member-Keeps :
      (call : Call) (c : Claims) (jti user : String) (s : GrantStore)
      (r : Result AuthError Principal)
      → P s
      → P (bind_member call c jti user s r).0
  unfolding resolve_excel_grant
  bind_member-Keeps call c jti user s (err e) h = h
  bind_member-Keeps call c jti user s (ok p) h =
      bound_to-Keeps p user jti call.now
        (resolve_excel_grant call.settings c.iat call.fresh jti user (truthy p.client_id "")
          call.restore_missing call.now s)
        (resolve_over-Keeps call.settings c.iat call.fresh jti user (truthy p.client_id "")
          call.restore_missing call.now s (lookup jti s) h)

  bind_identity-Keeps :
      (call : Call) (c : Claims) (jti : String) (p : Principal) (s : GrantStore)
      (o : Option IdentityRecord)
      → P s
      → P (bind_identity call c jti p s o).0
  bind_identity-Keeps call c jti p s none h = h
  bind_identity-Keeps call c jti p s (some i) h =
      if-Keeps P (i.user_id == "") _ _ h
        (bind_member-Keeps call c jti i.user_id s (apply_identity p i) h)

  bind_principal-Keeps :
      (call : Call) (directory : Option IdentityStore) (c : Claims) (jti : String) (s : GrantStore)
      (r : Result AuthError Principal)
      → P s
      → P (bind_principal call directory c jti s r).0
  bind_principal-Keeps call directory c jti s (err e) h = h
  bind_principal-Keeps call none c jti s (ok p) h = h
  bind_principal-Keeps call (some d) c jti s (ok p) h =
      if-Keeps P (not (is_grant_role p.role)) _ _ h (
        if-Keeps P (is_falsy p.client_id) _ _ h
          (bind_identity-Keeps call c jti p s (get_by_subject p.subject d) h))

  bind_jti-Keeps :
      (call : Call) (directory : Option IdentityStore) (c : Claims) (s : GrantStore)
      (o : Option String)
      → P s
      → P (bind_jti call directory c s o).0
  bind_jti-Keeps call directory c s none h = h
  bind_jti-Keeps call directory c s (some jti) h = if-Keeps P (not (c.typ == some "excel")) _ _ h (
      if-Keeps P (jti == "") _ _ h
        (bind_principal-Keeps call directory c jti s (principal_from_access_claims c) h))

  pub principal_from_excel_grant-Keeps :
      (call : Call) (directory : Option IdentityStore) (claims : Result AuthError Claims)
      (s : GrantStore)
      → P s
      → P (principal_from_excel_grant call directory claims s).0
  unfolding principal_from_excel_grant
  principal_from_excel_grant-Keeps call directory (err e) s h = h
  principal_from_excel_grant-Keeps call directory (ok c) s h =
      bind_jti-Keeps call directory c s c.jti h

  issue_authorized-Keeps :
      (call : Call) (p : Principal) (user client jti : String) (iat : Moment) (s : GrantStore)
      (r : Result AuthError (Unit {0}))
      → P s
      → P (issue_authorized call p user client jti iat s r).0
  issue_authorized-Keeps call p user client jti iat s (err e) h = h
  issue_authorized-Keeps call p user client jti iat s (ok _) h =
      let r = issued_registration call jti user client in
      let kept = on_register r s h in
      if-Keeps P
        (not (elim (get_active jti call.now (register r s).0) [ none ↦ false | some _ ↦ true ])) _ _
        kept (if-Keeps P (call.settings.dfip_auth_secret == "") _ _ kept kept)

  issue_for-Keeps :
      (is_uuid : String → Bool) (call : Call) (p : Principal) (jti : String) (iat : Moment)
      (s : GrantStore) (user target : Option String)
      → P s
      → P (issue_for is_uuid call p jti iat s user target).0
  issue_for-Keeps is_uuid call p jti iat s none target h = h
  issue_for-Keeps is_uuid call p jti iat s (some user) none h = h
  issue_for-Keeps is_uuid call p jti iat s (some user) (some target) h =
      if-Keeps P (user == "") _ _ h (
        if-Keeps P (target == "") _ _ h (
          if-Keeps P (not (is_uuid target)) _ _ h (
            issue_authorized-Keeps call p user target jti iat s
              (authorize_excel_grant_client p target) h)))

  pub issue_excel_workbook_token-Keeps :
      (is_uuid : String → Bool) (call : Call) (p : Principal) (client : Option String)
      (jti : String) (iat : Moment) (s : GrantStore)
      → P s
      → P (issue_excel_workbook_token is_uuid call p client jti iat s).0
  unfolding issue_excel_workbook_token
  issue_excel_workbook_token-Keeps is_uuid call p client jti iat s h =
      if-Keeps P (not (p.auth_mode == "jwt")) _ _ h
        (issue_for-Keeps is_uuid call p jti iat s p.user_id (or_text client p.client_id) h)
