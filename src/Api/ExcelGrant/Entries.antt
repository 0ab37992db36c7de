-- ===== src/Api/ExcelGrant/Entries.antt =====
-- What becomes of the row under one token id in the store of packages/api/dfip_api/excel_grant.py.
use dfip_v.Prelude.{
  not, false, ◌≡◌, ◌≢◌, refl, sym, ap, ◌∙◌, inl, inr, Bool-cases, ne_of_beq, eq_iff, is_some,
  String, Option, none, some, ◌==◌, string_eq, option_eq,
}
use dfip_v.Prelude.Dates.{Moment}
use dfip_v.Prelude.Dict.{lookup, insert, lookup-insert_self, lookup-insert_ne, lookup-map_values}
use dfip_v.Prelude.Members.{lookup-filter_values_kept}
use mathlib.Core.Path.{subst}
use mathlib.Core.Option.{some-injective}
use dfip_v.Api.ExcelGrant.{
  ExcelWorkbookGrant, GrantStore, Registration, register, register_over, grant_of, touch,
  touch_over, used, revoke_for_user, revoked, purge_client,
}

-- The row under one token id, with a property of it.
abbrev pub Entry : String → (ExcelWorkbookGrant → Type 0) → GrantStore → Type 0
Entry jti Q s = (g : ExcelWorkbookGrant) × ((lookup jti s ≡ some g) × Q g)

none-ne-some : {g : ExcelWorkbookGrant} → none ≢ some g
none-ne-some e = cc

module _ (jti : String) (Q : ExcelWorkbookGrant → Type 0) where
  register_over-Entry :
      (r : Registration) (s : GrantStore) (o : Option ExcelWorkbookGrant)
      → lookup r.jti s ≡ o
      → Entry jti Q s
      → Entry jti Q (register_over r s o).0
  unfolding register_over
  register_over-Entry r s (some existing) l h = h
  register_over-Entry r s none l (g, (found, q)) =
      let ne : jti ≢ r.jti = λ e. none-ne-some (sym l ∙ ap (λ k. lookup k s) (sym e) ∙ found) in
      (g, (lookup-insert_ne r.jti (grant_of r) s jti ne ∙ found, q))

  pub register-Entry :
      (r : Registration) (s : GrantStore) → Entry jti Q s → Entry jti Q (register r s).0
  unfolding register
  register-Entry r s h = register_over-Entry r s (lookup r.jti s) refl h

  touch_over-Entry :
      (k : String) (now : Moment) (s : GrantStore) (o : Option ExcelWorkbookGrant)
      → ((g : ExcelWorkbookGrant) → Q g → Q (used now g))
      → lookup k s ≡ o
      → Entry jti Q s
      → Entry jti Q (touch_over k now s o)
  unfolding touch_over
  touch_over-Entry k now s none keep l h = h
  touch_over-Entry k now s (some x) keep l (g, (found, q)) =
      elim (Bool-cases (is_some x.revoked_at)) [
        | inl e ↦ rw e (g, (found, q))
        | inr e ↦ rw e (elim (Bool-cases (k == jti)) [
          | inl same ↦
              let k_is : k ≡ jti = (eq_iff k jti).0 same in
              let x_is : g ≡ x =
                some-injective _ _ (sym found ∙ ap (λ i. lookup i s) (sym k_is) ∙ l) in
              (
                used now x,
                (
                  ap (λ i. lookup i (insert k (used now x) s)) (sym k_is)
                      ∙ lookup-insert_self k (used now x) s,
                  keep x (subst Q x_is q),
                ),
              )
          | inr other ↦ (
            g,
            (
              lookup-insert_ne k (used now x) s jti (λ e'. ne_of_beq string_eq k jti other (sym e'))
                  ∙ found,
              q,
            ),
          )
        ])
      ]

  pub touch-Entry :
      (k : String) (now : Moment) (s : GrantStore)
      → ((g : ExcelWorkbookGrant) → Q g → Q (used now g))
      → Entry jti Q s
      → Entry jti Q (touch k now s)
  unfolding touch
  touch-Entry k now s keep h = touch_over-Entry k now s (lookup k s) keep refl h

  pub revoke_for_user-Entry :
      (user : String) (now : Moment) (s : GrantStore)
      → ((g : ExcelWorkbookGrant) → Q g → Q (revoked user now g))
      → Entry jti Q s
      → Entry jti Q (revoke_for_user user now s).0
  unfolding revoke_for_user
  revoke_for_user-Entry user now s keep (g, (found, q)) =
      (revoked user now g, (rw (lookup-map_values (revoked user now) jti s, found) refl, keep g q))

  -- A purge keeps the row of another company.
  pub purge_client-Entry :
      (client : String) (s : GrantStore)
      → ((g : ExcelWorkbookGrant) → Q g → (g.client_id == client) ≡ false)
      → Entry jti Q s
      → Entry jti Q (purge_client client s)
  unfolding purge_client
  purge_client-Entry client s other (g, (found, q)) = (
    g,
    (
      lookup-filter_values_kept (λ x. not (x.client_id == client)) s jti g found
          (rw (other g q) refl),
      q,
    ),
  )
