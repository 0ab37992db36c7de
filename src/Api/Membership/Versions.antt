-- ===== src/Api/Membership/Versions.antt =====
-- The token versions of the directory: the versions of packages/api/dfip_api/identity_store.py against
-- the check of a token in packages/api/dfip_api/membership.py.
use dfip_v.Prelude.{
  ℕ, ◌≤◌, ◌<◌, ◌≡◌, refl, sym, ap, ◌∙◌, inl, inr, String, Bool, true, false, Option, none, some,
  List, [], ◌∷◌, ◌==◌, string_eq, nat_eq, arith, Bool-cases, eq_iff, beq_refl, map, if◌then◌else◌,
}
use mathlib.Core.Option.{some-injective}
use dfip_v.Prelude.Dict.{Dict, lookup, insert, contains, lookup-insert}
use dfip_v.Prelude.Result.{err}
use dfip_v.Api.PublisherSession.{Principal}
use dfip_v.Api.Identity.{
  MembershipRow, IdentityRecord, CredentialRecord, IdentityStore, put_password_user,
  create_client_user, create_publisher_user, inspector_exists, get_by_subject, with_identity,
  rewrite_found, rewrite_user, next_version, increment_token_version, renamed, rename_all,
  apply_client_name, joined_membership, add_inspector_membership, is_empty,
}
use dfip_v.Api.Membership.{authentication, enrich_principal}

-- a call that changes the directory and drops no account
pub data Op : Type 0 where
  increments : String → Op
  renames : String → String → Op
  joins : String → MembershipRow → Op
  creates_client : String → String → Option String → String → Op
  creates_publisher : String → String → Option String → List MembershipRow → Op

abbrev pub apply : Op → IdentityStore → IdentityStore
apply (increments user) s = (increment_token_version user s).0
apply (renames client name) s = apply_client_name client name s
apply (joins user m) s = add_inspector_membership user m s
apply (creates_client user subject hash client) s =
    (create_client_user user subject hash client s).0
apply (creates_publisher user subject hash rows) s =
    (create_publisher_user user subject hash rows s).0

abbrev pub run_ops : List Op → IdentityStore → IdentityStore
run_ops [] s = s
run_ops (op ∷ ops) s = run_ops ops (apply op s)

module _ (subject : String) (v : ℕ) where
  -- the account of the subject has a later version than `v`
  abbrev IsAfter : Dict String CredentialRecord → Type 0
  IsAfter d = (c : CredentialRecord) × (lookup subject d ≡ some c) × (v < c.identity.token_version)

  insert-IsAfter :
      (k : String) (c : CredentialRecord) (d : Dict String CredentialRecord)
      → ((k == subject) ≡ true → v < c.identity.token_version)
      → IsAfter d
      → IsAfter (insert k c d)
  insert-IsAfter k c d newer (old, found, later) = elim (Bool-cases (k == subject)) [
    | inl e ↦ (c, lookup-insert k subject c d ∙ rw e refl, newer e)
    | inr e ↦ (old, lookup-insert k subject c d ∙ rw e found, later)
  ]

  rewrite_found-IsAfter :
      (f : IdentityRecord → IdentityRecord)
      → ((i : IdentityRecord) → i.token_version ≤ (f i).token_version)
      → (k : String) (o : Option CredentialRecord) (s : IdentityStore) → lookup k s.by_subject ≡ o
      → IsAfter s.by_subject
      → IsAfter (rewrite_found f k o s).by_subject
  rewrite_found-IsAfter f grows k none s e h = h
  rewrite_found-IsAfter f grows k (some c) s e (old, found, later) =
      insert-IsAfter k (with_identity f c) s.by_subject
        (λ same.
          let same' : k ≡ subject = (eq_iff k subject).0 same in
          let c_is : old ≡ c =
            some-injective _ _ (sym found ∙ ap (λ x. lookup x s.by_subject) (sym same') ∙ e) in
          let up : v < c.identity.token_version = rw c_is at later in
          omega (arith, up, grows c.identity))
        (old, found, later)

  rewrite_user-IsAfter :
      (f : IdentityRecord → IdentityRecord)
      → ((i : IdentityRecord) → i.token_version ≤ (f i).token_version)
      → (o : Option String) (s : IdentityStore) → IsAfter s.by_subject
      → IsAfter (rewrite_user f o s).by_subject
  rewrite_user-IsAfter f grows none s h = h
  rewrite_user-IsAfter f grows (some k) s h =
      rewrite_found-IsAfter f grows k (lookup k s.by_subject) s refl h

  rename_all-IsAfter :
      (client name : String) (d : Dict String CredentialRecord)
      → IsAfter d
      → IsAfter (rename_all client name d)
  unfolding lookup
  rename_all-IsAfter client name [] h = h
  rename_all-IsAfter client name ((k, c) ∷ d) (old, found, later) =
      elim (Bool-cases (k == subject)) [
        | inl e ↦
            let c_is : c ≡ old = some-injective _ _ (rw e at found) in
            let up : v < c.identity.token_version = rw c_is later in
            (
              with_identity
                  (λ i. record i { memberships = map (renamed client name) i.memberships }) c,
              rw e refl,
              up,
            )
        | inr e ↦
            let (x, fx, lx) = rename_all-IsAfter client name d (old, rw e at found, later) in
            (x, rw e fx, lx)
      ]

  put_new-IsAfter :
      (c : CredentialRecord) (s : IdentityStore)
      → contains c.identity.subject s.by_subject ≡ false
      → IsAfter s.by_subject
      → IsAfter (put_password_user c s).by_subject
  put_new-IsAfter c s free (old, found, later) =
      insert-IsAfter c.identity.subject c s.by_subject
        (λ same.
          let same' : c.identity.subject ≡ subject = (eq_iff c.identity.subject subject).0 same in
          let row = ap (λ x. lookup x s.by_subject) same' ∙ found in
          absurd (ground (arith, row, free)))
        (old, found, later)

  if-IsAfter {ℓ} :
      {A : Type ℓ} (b : Bool) (x y : IdentityStore × A)
      → (b ≡ true → IsAfter x.0.by_subject)
      → (b ≡ false → IsAfter y.0.by_subject)
      → IsAfter (if b then x else y).0.by_subject
  if-IsAfter true x y px py = px refl
  if-IsAfter false x y px py = py refl

  apply-IsAfter :
      (op : Op) (s : IdentityStore) → IsAfter s.by_subject → IsAfter (apply op s).by_subject
  unfolding increment_token_version apply_client_name add_inspector_membership create_client_user
      create_publisher_user
  apply-IsAfter (increments user) s h =
      rewrite_user-IsAfter next_version (λ i. omega arith) (lookup user s.by_user_id) s h
  apply-IsAfter (renames client name) s h = rename_all-IsAfter client name s.by_subject h
  apply-IsAfter (joins user m) s h =
      rewrite_user-IsAfter (joined_membership m) (λ i. ground arith) (lookup user s.by_user_id) s h
  apply-IsAfter (creates_client user new hash client) s h =
      if-IsAfter (contains new s.by_subject) _ _ (λ _. h) (λ free. put_new-IsAfter _ s free h)
  apply-IsAfter (creates_publisher user new hash rows) s h =
      if-IsAfter (inspector_exists s) _ _ (λ _. h)
        (λ _.
          if-IsAfter (is_empty rows) _ _ (λ _. h)
            (λ _.
              if-IsAfter (contains new s.by_subject) _ _ (λ _. h)
                (λ free. put_new-IsAfter _ s free h)))

  run_ops-IsAfter :
      (ops : List Op) (s : IdentityStore)
      → IsAfter s.by_subject
      → IsAfter (run_ops ops s).by_subject
  run_ops-IsAfter [] s h = h
  run_ops-IsAfter (op ∷ ops) s h = run_ops-IsAfter ops (apply op s) (apply-IsAfter op s h)

increment_token_version-IsAfter :
    (user subject : String) (c : CredentialRecord) (s : IdentityStore)
    → lookup user s.by_user_id ≡ some subject
    → lookup subject s.by_subject ≡ some c
    → IsAfter subject c.identity.token_version (increment_token_version user s).0.by_subject
unfolding increment_token_version
increment_token_version-IsAfter user subject c s known found =
    rw (known, found)
      (
        with_identity next_version c,
        lookup-insert subject subject (with_identity next_version c) s.by_subject
            ∙ rw (beq_refl subject) refl,
        omega arith,
      )

old_refused :
    (subject : String) (v : ℕ) (s : IdentityStore) (p : Principal) (w : ℕ)
    (requires_directory : Bool)
    → IsAfter subject v s.by_subject
    → p.auth_mode ≡ "jwt"
    → p.subject ≡ subject
    → p.token_version ≡ some w
    → w ≤ v
    → enrich_principal requires_directory (get_by_subject p.subject s) p ≡ err authentication
unfolding enrich_principal get_by_subject
old_refused subject v s p w requires_directory (c, found, later) jwt mine version old =
    let stale : (w == c.identity.token_version) ≡ false = ground arith in
    rw (mine, found, jwt, version, stale) refl

pub increment_token_version-refuses :
    (user subject : String) (c : CredentialRecord) (s : IdentityStore) (ops : List Op)
    (p : Principal) (w : ℕ) (requires_directory : Bool)
    → lookup user s.by_user_id ≡ some subject
    → lookup subject s.by_subject ≡ some c
    → p.auth_mode ≡ "jwt"
    → p.subject ≡ subject
    → p.token_version ≡ some w
    → w ≤ c.identity.token_version
    → let s' = run_ops ops (increment_token_version user s).0 in
      enrich_principal requires_directory (get_by_subject p.subject s') p ≡ err authentication
increment_token_version-refuses user subject c s ops p w requires_directory known found jwt mine
      version old =
    let v = c.identity.token_version in
    let s1 = (increment_token_version user s).0 in
    old_refused subject v (run_ops ops s1) p w requires_directory
      (run_ops-IsAfter subject v ops s1
        (increment_token_version-IsAfter user subject c s known found))
      jwt mine version old
