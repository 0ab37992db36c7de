-- ===== src/Api/ExcelGrant/Revoked.antt =====
-- How long a workbook token works.
use dfip_v.Prelude.{
  false, ◌==◌, ◌≡◌, refl, sym, ap, ◌∙◌, inl, inr, String, true, some, List, [], ◌∷◌, string_eq,
  option_eq, eq_iff, is_some, arith, All,
}
use dfip_v.Prelude.Dates.{Moment}
use dfip_v.Prelude.Dict.{lookup, lookup-map_values}
use mathlib.Core.Option.{some-injective}
use dfip_v.Prelude.Result.{ok, err, Result-cases}
use dfip_v.Api.Identity.{IdentityStore}
use dfip_v.Api.Membership.{AuthError}
use dfip_v.Api.ExcelGrant.{ExcelWorkbookGrant, GrantStore, revoke_for_user, used, revoked}
use dfip_v.Api.ExcelGrant.Binding.{Call, principal_from_excel_grant}
use dfip_v.Api.ExcelGrant.Tokens.{Claims}
use dfip_v.Api.ExcelGrant.Steps.{
  Op, registers, touches, revokes, purges, Retains, binds, issues, apply, run_ops,
  principal_from_excel_grant-Keeps, issue_excel_workbook_token-Keeps,
}
use dfip_v.Api.ExcelGrant.Entries.{
  Entry, register-Entry, touch-Entry, revoke_for_user-Entry, purge_client-Entry,
}
use dfip_v.Api.ExcelGrant.Bound.{principal_from_excel_grant-IsBound}

-- A property of rows that use keeps, and that the revocations among some calls keep.
module _ (jti : String) (Q : ExcelWorkbookGrant → Type 0) (Allowed : Op → Type 0)
    (on_used : (now : Moment) (g : ExcelWorkbookGrant) → Q g → Q (used now g))
    (on_revoked : (other : String) (now : Moment) (g : ExcelWorkbookGrant)
      → Allowed (revokes other now)
      → Q g
      → Q (revoked other now g))
    (on_purged : (client : String) (g : ExcelWorkbookGrant)
      → Allowed (purges client)
      → Q g
      → (g.client_id == client) ≡ false) where
  apply-Entry : (op : Op) (s : GrantStore) → Allowed op → Entry jti Q s → Entry jti Q (apply op s)
  apply-Entry (registers r) s a h = register-Entry jti Q r s h
  apply-Entry (touches k now) s a h = touch-Entry jti Q k now s (on_used now) h
  apply-Entry (revokes other now) s a h =
      revoke_for_user-Entry jti Q other now s (λ g. on_revoked other now g a) h
  apply-Entry (purges client) s a h =
      purge_client-Entry jti Q client s (λ g. on_purged client g a) h
  apply-Entry (binds call directory claims) s a h =
      principal_from_excel_grant-Keeps (Entry jti Q) (register-Entry jti Q)
        (λ k now t. touch-Entry jti Q k now t (on_used now)) call directory claims s h
  apply-Entry (issues is_uuid call p client k iat) s a h =
      issue_excel_workbook_token-Keeps (Entry jti Q) (register-Entry jti Q)
        (λ k' now t. touch-Entry jti Q k' now t (on_used now)) is_uuid call p client k iat s h

  pub run_ops-Entry :
      (ops : List Op) (s : GrantStore)
      → All Allowed ops
      → Entry jti Q s
      → Entry jti Q (run_ops ops s)
  run_ops-Entry [] s a h = h
  run_ops-Entry (op ∷ ops) s a h = run_ops-Entry ops (apply op s) a.1 (apply-Entry op s a.0 h)

-- a revoked row of the company
abbrev IsRevoked : String → ExcelWorkbookGrant → Type 0
IsRevoked client g = (g.client_id ≡ client) × (is_some g.revoked_at ≡ true)

used-IsRevoked :
    (client : String) (now : Moment) (g : ExcelWorkbookGrant)
    → IsRevoked client g
    → IsRevoked client (used now g)
used-IsRevoked client now g h = h

revoked-IsRevoked :
    (client other : String) (now : Moment) (g : ExcelWorkbookGrant)
    → IsRevoked client g
    → IsRevoked client (revoked other now g)
revoked-IsRevoked client other now g h = ground arith

revokes_own :
    (user : String) (now : Moment) (g : ExcelWorkbookGrant)
    → g.user_id ≡ user
    → IsRevoked g.client_id (revoked user now g)
revokes_own user now g h = ground (arith, eq_iff g.user_id user)

revoke_for_user_row :
    (user jti : String) (now : Moment) (s : GrantStore) (g : ExcelWorkbookGrant)
    → lookup jti s ≡ some g
    → g.user_id ≡ user
    → Entry jti (IsRevoked g.client_id) (revoke_for_user user now s).0
unfolding revoke_for_user
revoke_for_user_row user jti now s g found owner = (
  revoked user now g,
  (rw (lookup-map_values (revoked user now) jti s, found) refl, revokes_own user now g owner),
)

revoked_refused :
    (client jti : String) (s : GrantStore) (call : Call) (directory : IdentityStore) (c : Claims)
    → c.jti ≡ some jti
    → Entry jti (IsRevoked client) s
    → (e : AuthError) × ((principal_from_excel_grant call (some directory) (ok c) s).1 ≡ err e)
revoked_refused client jti s call directory c j h =
    let r = principal_from_excel_grant call (some directory) (ok c) s in
    elim (Result-cases r.1) [
      | inr found ↦ found
      | inl (p, e) ↦
          let b =
            principal_from_excel_grant-IsBound call directory c s r.0 p (ap (λ x. (r.0, x)) e) in
          let kept =
            principal_from_excel_grant-Keeps (Entry jti (IsRevoked client))
              (register-Entry jti (IsRevoked client))
              (λ k now t. touch-Entry jti (IsRevoked client) k now t (used-IsRevoked client now))
              call (some directory) (ok c) s h in
          let same : b.jti ≡ jti = some-injective _ _ (sym b.token ∙ j) in
          let row : b.grant ≡ kept.0 =
            some-injective _ _ (sym b.stored ∙ ap (λ k. lookup k r.0) same ∙ kept.1.0) in
          absurd (ground (arith, row, kept.1.1.1, b.live))
    ]

-- Once the grants of a user are revoked, every token of a grant that he had is refused, at any time and
-- whatever its claims say: whatever registrations, uses, revocations, bindings and issues come in
-- between, and also where missing grants are restored from their tokens, as long as no purge of the
-- grant's company removes the revoked row. Purges of other companies may come in between.
pub revoke_for_user-refuses :
    (user jti : String) (now : Moment) (s : GrantStore) (g : ExcelWorkbookGrant) (ops : List Op)
    (call : Call) (directory : IdentityStore) (c : Claims)
    → lookup jti s ≡ some g
    → g.user_id ≡ user
    → All (Retains g.client_id) ops
    → c.jti ≡ some jti
    → let s' = run_ops ops (revoke_for_user user now s).0 in
      (e : AuthError) × ((principal_from_excel_grant call (some directory) (ok c) s').1 ≡ err e)
revoke_for_user-refuses user jti now s g ops call directory c found owner retained j =
    let client = g.client_id in
    let first : Entry jti (IsRevoked client) (revoke_for_user user now s).0 =
      revoke_for_user_row user jti now s g found owner in
    revoked_refused client jti (run_ops ops (revoke_for_user user now s).0) call directory c j (
      run_ops-Entry jti (IsRevoked client) (Retains client) (used-IsRevoked client)
        (λ other t x a. revoked-IsRevoked client other t x)
        (λ other x a h. ground (arith, a, h.0, eq_iff other client, eq_iff x.client_id other)) ops
        (revoke_for_user user now s).0 retained first)
