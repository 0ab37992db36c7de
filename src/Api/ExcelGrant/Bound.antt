-- ===== src/Api/ExcelGrant/Bound.antt =====
-- What a workbook token gives whom: `principal_from_excel_grant` of
-- packages/api/dfip_api/excel_grant.py.
use dfip_v.Prelude.{
  ◌≡◌, refl, sym, ap, ◌∙◌, inl, inr, String, false, Option, none, some, ◌==◌, string_eq, option_eq,
  option_beq_iff, arith, eq_iff, Bool-cases, Option-cases,
}
use mathlib.Core.Option.{some-injective}
use dfip_v.Prelude.Result.{Result, ok, err}
use dfip_v.Prelude.Text.{is_falsy, truthy}
use dfip_v.Api.PublisherSession.{Principal}
use dfip_v.Api.Identity.{IdentityRecord, IdentityStore, get_by_subject}
use dfip_v.Api.Membership.{AuthError, apply_identity}
use dfip_v.Api.ExcelGrant.{GrantStore, used}
use dfip_v.Api.ExcelGrant.Tokens.{Claims, is_grant_role, principal_from_access_claims}
use dfip_v.Api.ExcelGrant.Restoring.{resolve_excel_grant}
use dfip_v.Api.ExcelGrant.Binding.{
  Call, bind_identity, bind_jti, bind_member, bind_principal, principal_from_excel_grant,
}
use dfip_v.Api.ExcelGrant.Resolved.{resolve_excel_grant_ok}
use dfip_v.Api.ExcelGrant.Granted.{IsBound, apply_identity_member, bound_to_ok, touch-lookup}

truthy-some : (o : Option String) (client : String) → o ≡ some client → truthy o "" ≡ client
truthy-some none client h = absurd cc
truthy-some (some a) client h = ground (arith, eq_iff a "", some-injective _ _ h)

bind_member_ok :
    (call : Call) (directory : IdentityStore) (c : Claims) (jti client : String) (p0 q : Principal)
    (i : IdentityRecord) (r : Result AuthError Principal) (s s' : GrantStore)
    → apply_identity p0 i ≡ r
    → c.jti ≡ some jti
    → c.typ ≡ some "excel"
    → c.client_id ≡ some client
    → p0.client_id ≡ some client
    → (client == "") ≡ false
    → get_by_subject p0.subject directory ≡ some i
    → bind_member call c jti i.user_id s r ≡ (s', ok q)
    → IsBound call directory c s' q
bind_member_ok call directory c jti client p0 q i (err e) s s' a j t cl p0c ne known h =
    absurd (ground arith)
bind_member_ok call directory c jti client p0 q i (ok p) s s' a j t cl p0c ne known h =
    let m = apply_identity_member p0 p i client a p0c ne in
    let b =
      bound_to_ok p q i.user_id jti call.now
        (resolve_excel_grant call.settings c.iat call.fresh jti i.user_id (truthy p.client_id "")
          call.restore_missing call.now s)
        s' h in
    let g = b.1 in
    let found = touch-lookup jti call.now call.now b.0 g (
      resolve_excel_grant_ok call.settings c.iat call.fresh jti i.user_id (truthy p.client_id "")
        call.restore_missing call.now s b.0 g b.2) in
    let same : client ≡ g.client_id = some-injective _ _ (sym (m.1 ∙ p0c) ∙ b.3) in
    rw (b.5, b.6)
      (record {
        jti = jti;
        grant = used call.now g;
        identity = i;
        token = j;
        workbook = t;
        stored = found.0;
        live = found.1;
        known = rw m.0 known;
        owner = sym b.4;
        claimed = cl ∙ ap (λ x. some x) same;
        client = refl;
        only = refl;
        role = refl;
        plain = refl;
        member = rw same at m.2;
      })

bind_identity_ok :
    (call : Call) (directory : IdentityStore) (c : Claims) (jti client : String) (p q : Principal)
    (o : Option IdentityRecord) (s s' : GrantStore)
    → get_by_subject p.subject directory ≡ o
    → c.jti ≡ some jti
    → c.typ ≡ some "excel"
    → c.client_id ≡ some client
    → p.client_id ≡ some client
    → (client == "") ≡ false
    → bind_identity call c jti p s o ≡ (s', ok q)
    → IsBound call directory c s' q
bind_identity_ok call directory c jti client p q none s s' known j t cl pc ne h =
    absurd (ground arith)
bind_identity_ok call directory c jti client p q (some i) s s' known j t cl pc ne h =
    elim (Bool-cases (i.user_id == "")) [
      | inl e ↦ let h' = rw e at h in absurd (ground arith)
      | inr e ↦
          let h' : bind_member call c jti i.user_id s (apply_identity p i) ≡ (s', ok q) =
            rw e at h in
          bind_member_ok call directory c jti client p q i (apply_identity p i) s s' refl j t cl pc
            ne known h'
    ]

not_falsy :
    (o : Option String)
    → is_falsy o ≡ false
    → (text : String) × ((o ≡ some text) × ((text == "") ≡ false))
not_falsy none h = absurd (ground arith)
not_falsy (some text) h = (text, (refl, h))

bind_principal_ok :
    (call : Call) (directory : IdentityStore) (c : Claims) (jti : String) (q : Principal)
    (r : Result AuthError Principal) (s s' : GrantStore)
    → ((p : Principal) → r ≡ ok p → p.client_id ≡ c.client_id)
    → c.jti ≡ some jti
    → c.typ ≡ some "excel"
    → bind_principal call (some directory) c jti s r ≡ (s', ok q)
    → IsBound call directory c s' q
bind_principal_ok call directory c jti q (err e) s s' kept j t h = absurd (ground arith)
bind_principal_ok call directory c jti q (ok p) s s' kept j t h =
    elim (Bool-cases (is_grant_role p.role)) [
      | inr e ↦ let h' = rw e at h in absurd (ground arith)
      | inl e ↦
          let h1 = rw e at h in
          elim (Bool-cases (is_falsy p.client_id)) [
            | inl blank ↦ let h2 = rw blank at h1 in absurd (ground arith)
            | inr ne ↦
                let (client, (cl, full)) = not_falsy p.client_id ne in
                let h2 : bind_identity call c jti p s (get_by_subject p.subject directory)
                    ≡ (s', ok q) =
                  rw ne at h1 in
                bind_identity_ok call directory c jti client p q
                  (get_by_subject p.subject directory) s s' refl j t (sym (kept p refl) ∙ cl) cl
                  full h2
          ]
    ]

kept_client :
    (c : Claims) (p : Principal) → principal_from_access_claims c ≡ ok p → p.client_id ≡ c.client_id
unfolding principal_from_access_claims
kept_client c p h = elim (Option-cases c.sub) [
  | inl e ↦ let h' = rw e at h in absurd (ground arith)
  | inr (subject, e) ↦ let h' = rw e at h in ground arith
]

bind_jti_ok :
    (call : Call) (directory : IdentityStore) (c : Claims) (q : Principal) (s s' : GrantStore)
    (o : Option String)
    → c.jti ≡ o
    → bind_jti call (some directory) c s o ≡ (s', ok q)
    → IsBound call directory c s' q
bind_jti_ok call directory c q s s' none j h = absurd (ground arith)
bind_jti_ok call directory c q s s' (some jti) j h = elim (Bool-cases (c.typ == some "excel")) [
  | inr e ↦ let h' = rw e at h in absurd (ground arith)
  | inl e ↦
      let h1 = rw e at h in
      elim (Bool-cases (jti == "")) [
        | inl blank ↦ let h2 = rw blank at h1 in absurd (ground arith)
        | inr ne ↦
            let h2 : bind_principal call (some directory) c jti s (principal_from_access_claims c)
                ≡ (s', ok q) =
              rw ne at h1 in
            bind_principal_ok call directory c jti q (principal_from_access_claims c) s s'
              (kept_client c) j ((option_beq_iff string_eq c.typ (some "excel")).0 e) h2
      ]
]

-- A principal that a workbook token with verified claims `c` gives is bound to that token's grant, as
-- `IsBound` says, whatever role, rights or company the claims or the directory would give otherwise.
pub principal_from_excel_grant-IsBound :
    (call : Call) (directory : IdentityStore) (c : Claims) (s s' : GrantStore) (p : Principal)
    → principal_from_excel_grant call (some directory) (ok c) s ≡ (s', ok p)
    → IsBound call directory c s' p
unfolding principal_from_excel_grant
principal_from_excel_grant-IsBound call directory c s s' p h =
    bind_jti_ok call directory c p s s' c.jti refl h
