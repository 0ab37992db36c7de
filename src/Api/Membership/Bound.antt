-- ===== src/Api/Membership/Bound.antt =====
-- A token never gives more than the directory does.
use dfip_v.Prelude.{
  ◌≡◌, refl, sym, inl, inr, ◌≤◌, String, Bool, true, false, some, List, [], ◌∷◌, map, ◌==◌, ◌&&◌,
  string_eq, option_eq, nat_eq, Option, none, ap, ◌∙◌, ◌⊎◌, ◌||◌, if◌then◌else◌, eq_iff, filter,
  All_mono, any, All, arith, beq_refl, Bool-cases, Option-cases,
}
use mathlib.Core.Path.{subst}
use dfip_v.Prelude.Result.{ok, ok-injective}
use dfip_v.Prelude.Sort.{best, best-All, best-le}
use dfip_v.Api.PublisherSession.{Principal}
use dfip_v.Api.Identity.{MembershipRow, IdentityRecord, is_allowed_role}
use dfip_v.Api.Membership.{
  apply_identity, scoped_memberships, allowed_roles, outranks, as_member, role_rank,
}

-- a membership that gives this role
abbrev pub gives : String → MembershipRow → Bool
gives role m = m.role == role && is_allowed_role m.role

cons-gives :
    (m : MembershipRow) (rows : List MembershipRow)
    → All (λ role. any (gives role) rows ≡ true) (allowed_roles rows)
    → All (λ role. any (gives role) (m ∷ rows) ≡ true) (allowed_roles rows)
unfolding any
cons-gives m rows h =
    All_mono (λ role. any (gives role) rows ≡ true) (λ role. any (gives role) (m ∷ rows) ≡ true)
      (λ role e. rw e (ground arith)) (allowed_roles rows) h

allowed_roles-given :
    (rows : List MembershipRow) → All (λ role. any (gives role) rows ≡ true) (allowed_roles rows)
unfolding filter
allowed_roles-given [] = tt
allowed_roles-given (m ∷ rows) = elim (Bool-cases (is_allowed_role m.role)) [
  | inl e ↦
      rw e
        (unfold any in rw (beq_refl m.role, e) refl, cons-gives m rows (allowed_roles-given rows))
  | inr e ↦ rw e (cons-gives m rows (allowed_roles-given rows))
]

-- The same over the memberships and ranks of the code.
pub apply_identity-member_rows :
    (p q : Principal) (i : IdentityRecord)
    → i.is_platform_admin ≡ false
    → apply_identity p i ≡ ok q
    → let rows = scoped_memberships p.client_id i.memberships in
      (q.platform_admin ≡ false)
      × (q.subject ≡ p.subject)
      × (q.client_id ≡ p.client_id)
      × (q.user_id ≡ some i.user_id)
      × (q.membership_client_ids ≡ some (map (λ m. m.client_id) rows))
      × (any (gives q.role) rows ≡ true)
      × All (λ role. role_rank role ≤ role_rank q.role) (allowed_roles rows)
unfolding apply_identity
apply_identity-member_rows p q i plain h =
    let rows = scoped_memberships p.client_id i.memberships in
    elim (Option-cases (best outranks (allowed_roles rows))) [
      | inl e ↦ let h' = rw (plain, e) at h in absurd cc
      | inr (role, e) ↦
          let h' : ok (as_member p i rows role) ≡ ok q = rw (plain, e) at h in
          let found = sym (ok-injective _ _ h') in
          rw found (
            refl,
            refl,
            refl,
            refl,
            refl,
            best-All (λ r. any (gives r) rows ≡ true) outranks (allowed_roles rows) role
                (allowed_roles-given rows) e,
            best-le role_rank (allowed_roles rows) role e,
          )
    ]

-- The membership counts for a token that claims this client: every one does if it claims none.
abbrev pub admits : Option String → MembershipRow → Bool
admits none m = true
admits (some client_id) m = client_id == "" || m.client_id == client_id

abbrev pub has_role : String → MembershipRow → Bool
has_role role m = m.role == role

filter_all :
    (p : MembershipRow → Bool)
    → ((m : MembershipRow) → p m ≡ true)
    → (rows : List MembershipRow) → filter p rows ≡ rows
unfolding filter
filter_all p every [] = refl
filter_all p every (m ∷ rows) = rw (every m) (ap (λ l. m ∷ l) (filter_all p every rows))

scoped_memberships-admits :
    (client : Option String) (rows : List MembershipRow)
    → scoped_memberships client rows ≡ filter (admits client) rows
scoped_memberships-admits none rows = sym (filter_all (admits none) (λ m. refl) rows)
scoped_memberships-admits (some client_id) rows = elim (Bool-cases (client_id == "")) [
  | inl e ↦
      ap (λ b. if b then rows else filter (λ m. m.client_id == client_id) rows) e
      ∙ sym (filter_all (admits (some client_id)) (λ m. ground (arith, e)) rows)
  | inr e ↦
      ap (λ b. if b then rows else filter (λ m. m.client_id == client_id) rows) e
      ∙ ap (λ b. filter (λ m. b || m.client_id == client_id) rows) (sym e)
]

-- What holds of every allowed role holds of one that a membership has.
allowed_roles-All {κ} :
    (P : String → Type κ) (role : String) (rows : List MembershipRow)
    → is_allowed_role role ≡ true
    → any (has_role role) rows ≡ true
    → All P (allowed_roles rows)
    → P role
unfolding any filter
allowed_roles-All P role [] a h k = absurd cc
allowed_roles-All P role (m ∷ rows) a h k = elim (Bool-cases (m.role == role)) [
  | inl same ↦
      let e : m.role ≡ role = (eq_iff m.role role).0 same in
      let allowed : is_allowed_role m.role ≡ true = ap is_allowed_role e ∙ a in
      let k' : P m.role × All P (allowed_roles rows) = rw allowed at k in subst P e k'.0
  | inr other ↦
      let h' : any (has_role role) rows ≡ true = rw other at h in
      elim (Bool-cases (is_allowed_role m.role)) [
        | inl allowed ↦
            let k' : P m.role × All P (allowed_roles rows) = rw allowed at k in
            allowed_roles-All P role rows a h' k'.1
        | inr refused ↦
            let k' : All P (allowed_roles rows) = rw refused at k in
            allowed_roles-All P role rows a h' k'
      ]
]

-- a role of one of the memberships, and no lower than any of theirs
pub record IsHighest (role : String) (rows : List MembershipRow) : Type 0 where
  pub given : any (has_role role) rows ≡ true
  pub known : (role ≡ "admin") ⊎ ((role ≡ "publisher") ⊎ ((role ≡ "reader") ⊎ (role ≡ "client")))
  pub admin : any (has_role "admin") rows ≡ true → role ≡ "admin"
  pub publisher : any (has_role "publisher") rows ≡ true → (role ≡ "admin") ⊎ (role ≡ "publisher")

any-gives :
    (role : String) (rows : List MembershipRow)
    → any (gives role) rows ≡ true
    → (any (has_role role) rows ≡ true) × (is_allowed_role role ≡ true)
unfolding any
any-gives role [] h = absurd cc
any-gives role (m ∷ rows) h = elim (Bool-cases (gives role m)) [
  | inl e ↦
      let same : m.role ≡ role = (eq_iff m.role role).0 (ground (arith, e)) in
      let allowed : is_allowed_role m.role ≡ true = ground (arith, e) in
      (ground (arith, e), ap is_allowed_role (sym same) ∙ allowed)
  | inr e ↦
      let h' : any (gives role) rows ≡ true = rw e at h in
      let (found, allowed) = any-gives role rows h' in (rw found (ground arith), allowed)
]

of_ranks :
    (role : String) (rows : List MembershipRow)
    → any (gives role) rows ≡ true
    → All (λ r. role_rank r ≤ role_rank role) (allowed_roles rows)
    → IsHighest role rows
unfolding role_rank
of_ranks role rows g ranks =
    let (found, allowed) = any-gives role rows g in
    let R = λ (r : String). role_rank r ≤ role_rank role in
    record {
      given = found;
      known = ground (
        arith,
        allowed,
        eq_iff role "admin",
        eq_iff role "publisher",
        eq_iff role "reader",
        eq_iff role "client",
      );
      admin = λ h.
          let le : role_rank "admin" ≤ role_rank role =
            allowed_roles-All R "admin" rows refl h ranks in
          ground (arith, le, eq_iff role "admin", eq_iff role "publisher");
      publisher = λ h.
          let le : role_rank "publisher" ≤ role_rank role =
            allowed_roles-All R "publisher" rows refl h ranks in
          ground (arith, le, eq_iff role "admin", eq_iff role "publisher");
    }

-- What a token of a known account that is no platform administrator gives: no platform rights, its
-- own subject and claimed client, exactly the companies of the account's memberships under the claimed
-- client (of all its memberships, if none is claimed), and a known role of one of these memberships,
-- which is admin if one of them is admin, and otherwise publisher if one of them is publisher.
pub apply_identity_bound :
    (p q : Principal) (i : IdentityRecord)
    → i.is_platform_admin ≡ false
    → apply_identity p i ≡ ok q
    → let rows = filter (admits p.client_id) i.memberships in
      (q.platform_admin ≡ false)
      × (q.subject ≡ p.subject)
      × (q.client_id ≡ p.client_id)
      × (q.user_id ≡ some i.user_id)
      × (q.membership_client_ids ≡ some (map (λ m. m.client_id) rows))
      × IsHighest q.role rows
apply_identity_bound p q i plain h =
    let b = apply_identity-member_rows p q i plain h in
    let same = scoped_memberships-admits p.client_id i.memberships in
    (
      b.0,
      b.1,
      b.2,
      b.3,
      b.4 ∙ ap (λ rows. some (map (λ (m : MembershipRow). m.client_id) rows)) same,
      subst (IsHighest q.role) same
          (of_ranks q.role (scoped_memberships p.client_id i.memberships) b.5 b.6),
    )
