-- ===== src/Api/ExcelGrant/Issued.antt =====
-- What `issue_excel_workbook_token` of packages/api/dfip_api/excel_grant.py has done when it returns a
-- token.
use dfip_v.Prelude.{
  ◌≡◌, refl, inl, inr, String, Bool, false, Option, none, some, ◌==◌, string_eq, option_eq,
  Bool-cases, arith,
}
use dfip_v.Prelude.Dates.{Moment}
use dfip_v.Prelude.Result.{Result, ok, err}
use dfip_v.Prelude.Text.{or_text}
use dfip_v.Api.PublisherSession.{Principal}
use dfip_v.Api.Membership.{AuthError}
use dfip_v.Api.ExcelGrant.{GrantStore, register}
use dfip_v.Api.ExcelGrant.Binding.{Call}
use dfip_v.Api.ExcelGrant.Tokens.{Claims, authorize_excel_grant_client}
use dfip_v.Api.ExcelGrant.Minting.{
  issue_excel_workbook_token, issue_for, issue_authorized, issued_registration, issued_claims,
}

-- what a token was issued with
pub record IsIssued (call : Call) (p : Principal) (jti : String) (iat : Moment) (s s' : GrantStore)
    (c : Claims) : Type 0 where
  pub user : String
  pub target : String
  pub claims : c ≡ issued_claims p target jti iat
  pub user_is : p.user_id ≡ some user
  pub user_full : (user == "") ≡ false
  pub target_full : (target == "") ≡ false
  pub store : s' ≡ (register (issued_registration call jti user target) s).0

issue_authorized_ok :
    (call : Call) (p : Principal) (user client jti : String) (iat : Moment) (s s' : GrantStore)
    (r : Result AuthError (Unit {0})) (c : Claims)
    → issue_authorized call p user client jti iat s r ≡ (s', ok (some c))
    → (c ≡ issued_claims p client jti iat)
      × (s' ≡ (register (issued_registration call jti user client) s).0)
issue_authorized_ok call p user client jti iat s s' (err e) c h = absurd (ground arith)
issue_authorized_ok call p user client jti iat s s' (ok _) c h = ground arith

issue_for_ok :
    (is_uuid : String → Bool) (call : Call) (p : Principal) (jti : String) (iat : Moment)
    (s s' : GrantStore) (user target : Option String) (c : Claims)
    → p.user_id ≡ user
    → issue_for is_uuid call p jti iat s user target ≡ (s', ok (some c))
    → IsIssued call p jti iat s s' c
issue_for_ok is_uuid call p jti iat s s' none target c u h = absurd (ground arith)
issue_for_ok is_uuid call p jti iat s s' (some user) none c u h = absurd (ground arith)
issue_for_ok is_uuid call p jti iat s s' (some user) (some target) c u h =
    elim (Bool-cases (user == "")) [
      | inl e ↦ let h' = rw e at h in absurd (ground arith)
      | inr full ↦
          let h1 = rw full at h in
          elim (Bool-cases (target == "")) [
            | inl e ↦ let h' = rw e at h1 in absurd (ground arith)
            | inr full' ↦
                let h2 = rw full' at h1 in
                elim (Bool-cases (is_uuid target)) [
                  | inr e ↦ let h' = rw e at h2 in absurd (ground arith)
                  | inl e ↦
                      let h3 : issue_authorized call p user target jti iat s
                            (authorize_excel_grant_client p target)
                          ≡ (s', ok (some c)) =
                        rw e at h2 in
                      let r =
                        issue_authorized_ok call p user target jti iat s s'
                          (authorize_excel_grant_client p target) c h3 in
                      record {
                        user = user;
                        target = target;
                        claims = r.0;
                        user_is = u;
                        user_full = full;
                        target_full = full';
                        store = r.1;
                      }
                ]
          ]
    ]

pub issue_ok :
    (is_uuid : String → Bool) (call : Call) (p : Principal) (client : Option String) (jti : String)
    (iat : Moment) (s s' : GrantStore) (c : Claims)
    → issue_excel_workbook_token is_uuid call p client jti iat s ≡ (s', ok (some c))
    → IsIssued call p jti iat s s' c
unfolding issue_excel_workbook_token
issue_ok is_uuid call p client jti iat s s' c h = elim (Bool-cases (p.auth_mode == "jwt")) [
  | inr e ↦ let h' = rw e at h in absurd (ground arith)
  | inl e ↦
      let h' : issue_for is_uuid call p jti iat s p.user_id (or_text client p.client_id)
          ≡ (s', ok (some c)) =
        rw e at h in
      issue_for_ok is_uuid call p jti iat s s' p.user_id (or_text client p.client_id) c refl h'
]
