-- ===== src/Api/ExcelGrant/Member.antt =====
-- A member of a company gets a principal for it from the directory.
use dfip_v.Prelude.{
  ◌≡◌, ◌≢◌, refl, inl, inr, ◌⊎◌, String, true, false, Option, none, some, List, [], ◌∷◌, ◌==◌, ◌&&◌,
  filter, any, string_eq, option_eq, Bool-cases, Option-cases, arith,
}
use mathlib.Core.Option.{some-injective}
use dfip_v.Prelude.Result.{ok}
use dfip_v.Prelude.Sort.{best, best-none}
use dfip_v.Api.PublisherSession.{Principal}
use dfip_v.Api.Identity.{MembershipRow, IdentityRecord, is_allowed_role}
use dfip_v.Api.Membership.{
  apply_identity, as_member, as_platform_admin, allowed_roles, outranks, scoped_memberships,
}

-- this account may still act for the company
abbrev pub IsMember : String → IdentityRecord → Type 0
IsMember client i =
    (i.is_platform_admin ≡ true)
    ⊎ (any (λ m. m.client_id == client && is_allowed_role m.role) i.memberships ≡ true)

scoped_roles :
    (client : String) (rows : List MembershipRow)
    → any (λ m. m.client_id == client && is_allowed_role m.role) rows ≡ true
    → allowed_roles (filter (λ m. m.client_id == client) rows) ≢ []
unfolding any filter
scoped_roles client [] h e = cc
scoped_roles client (m ∷ rows) h e = elim (Bool-cases (m.client_id == client)) [
  | inr other ↦ let h' = rw other at h in let e' = rw other at e in scoped_roles client rows h' e'
  | inl mine ↦
      let h' = rw mine at h in
      let e' = rw mine at e in
      elim (Bool-cases (is_allowed_role m.role)) [
        | inl a ↦ let e'' = rw a at e' in absurd cc
        | inr a ↦ let h'' = rw a at h' in let e'' = rw a at e' in scoped_roles client rows h'' e''
      ]
]

scoped_filter :
    (o : Option String) (client : String) (rows : List MembershipRow)
    → o ≡ some client
    → (client == "") ≡ false
    → scoped_memberships o rows ≡ filter (λ m. m.client_id == client) rows
scoped_filter none client rows e full = absurd cc
scoped_filter (some a) client rows e full =
    let same : a ≡ client = some-injective _ _ e in rw (same, full) refl

pub apply_identity_succeeds :
    (p : Principal) (i : IdentityRecord) (client : String)
    → p.client_id ≡ some client
    → (client == "") ≡ false
    → IsMember client i
    → (q : Principal) × ((apply_identity p i ≡ ok q) × (q.client_id ≡ some client))
unfolding apply_identity
apply_identity_succeeds p i client e full m = elim (Bool-cases i.is_platform_admin) [
  | inl admin ↦ (as_platform_admin p i, (rw admin refl, e))
  | inr plain ↦
      let rows = filter (λ m. m.client_id == client) i.memberships in
      let given : any (λ m. m.client_id == client && is_allowed_role m.role) i.memberships ≡ true =
        elim m [ inl a ↦ absurd (ground (arith, a, plain)) | inr g ↦ g ] in
      elim (Option-cases (best outranks (allowed_roles rows))) [
        | inl n ↦
            absurd
              (scoped_roles client i.memberships given (best-none outranks (allowed_roles rows) n))
        | inr (role, b) ↦ (
          as_member p i rows role,
          (rw (plain, scoped_filter p.client_id client i.memberships e full, b) refl, e),
        )
      ]
]
