-- ===== src/Config/Catalog/Activation.antt =====
-- One active version to a tenant and a kind.
use mathlib.Core.Option
use mathlib.Core.Path.{subst}
use mathlib.Core.Option.{some-injective}
use dfip_v.Config.Catalog.{
  CatalogKind, draft, superseded, is_active, kind_eq, kind_beq_iff, CatalogVersion, CatalogStore,
  competes, supersede, activated, newest_first, get_for_client, activate, activate_found,
  active_for, of_client,
}
use dfip_v.Prelude.{
  ◌≡◌, ◌≢◌, refl, sym, ap, ◌∙◌, inl, inr, true, false, Bool-cases, Option, none, some, List, [],
  String, string_eq, arith, eq_iff,
}
use dfip_v.Prelude.Dict.{
  lookup, insert, map_values, UniqueKeys, insert-UniqueKeys, lookup-map_values,
  map_values-UniqueKeys, filter-values_one, lookup-insert_self, lookup-insert_cases,
  lookup-insert_ne,
}
use dfip_v.Prelude.Result.{ok}
use dfip_v.Prelude.Sort.{sort}
use mathlib.Core.List.{head?}

pub record IsValid (s : CatalogStore) : Type 0 where
  pub unique : UniqueKeys s
  pub keyed : (k : String) (v : CatalogVersion) → lookup k s ≡ some v → v.id ≡ k
  -- two active versions of one tenant and one kind are one version
  pub one_active :
      (j k : String) (u v : CatalogVersion)
      → lookup j s ≡ some u
      → lookup k s ≡ some v
      → u.client_id ≡ v.client_id
      → u.kind ≡ v.kind
      → is_active u.status ≡ true
      → is_active v.status ≡ true
      → j ≡ k

get_for_client-lookup :
    (c i : String) (s : CatalogStore) (v : CatalogVersion)
    → get_for_client c i s ≡ some v
    → (lookup i s ≡ some v) × (v.client_id ≡ c)
unfolding get_for_client
get_for_client-lookup c i s v e = go (lookup i s) e
  where
    go : (o : Option CatalogVersion) → of_client c o ≡ some v → (o ≡ some v) × (v.client_id ≡ c)
    go none h = cc
    go (some w) h = ground (arith, eq_iff w.client_id c)

-- Who is still active after superseding was there before and does not compete.
supersede_active :
    (c : String) (kind : CatalogKind) (now : String) (x w : CatalogVersion)
    → supersede c kind now x ≡ w
    → is_active w.status ≡ true
    → (x ≡ w) × (competes c kind w ≡ false)
unfolding supersede
supersede_active c kind now x w e a = elim (Bool-cases (competes c kind x)) [
  | inl t ↦
      let h : record x { status = superseded; effective_to = some now } ≡ w = rw t at e in
      absurd (cc (ap (λ (v : CatalogVersion). is_active v.status) h, a))
  | inr f ↦ let h : x ≡ w = rw f at e in (h, rw (← h) f)
]

module _ (c : String) (kind : CatalogKind) (now : String) (s : CatalogStore) where
  still_active :
      (k : String) (w : CatalogVersion)
      → lookup k (map_values (supersede c kind now) s) ≡ some w
      → is_active w.status ≡ true
      → (lookup k s ≡ some w) × (competes c kind w ≡ false)
  still_active k w e a =
      go (lookup k s) refl (sym (lookup-map_values (supersede c kind now) k s) ∙ e)
    where
      go :
          (o : Option CatalogVersion)
          → lookup k s ≡ o
          → Option.map (supersede c kind now) o ≡ some w
          → (lookup k s ≡ some w) × (competes c kind w ≡ false)
      go none l h = cc
      go (some x) l h =
          let (same, out) = supersede_active c kind now x w (some-injective _ _ h) a in
          (l ∙ ap (λ (v : CatalogVersion). some v) same, out)

  abbrev superseded_store : CatalogStore
  superseded_store = map_values (supersede c kind now) s

  supersede-id : (x : CatalogVersion) → (supersede c kind now x).id ≡ x.id
  unfolding supersede
  supersede-id x = ground arith

  superseded_keyed :
      IsValid s → (k : String) (w : CatalogVersion) → lookup k superseded_store ≡ some w → w.id ≡ k
  superseded_keyed valid k w e =
      go (lookup k s) refl (sym (lookup-map_values (supersede c kind now) k s) ∙ e)
    where
      go :
          (o : Option CatalogVersion)
          → lookup k s ≡ o
          → Option.map (supersede c kind now) o ≡ some w
          → w.id ≡ k
      go none l h = cc
      go (some x) l h =
          sym (ap (λ (y : CatalogVersion). y.id) (some-injective _ _ h))
          ∙ supersede-id x
          ∙ valid.keyed k x l

competes_of :
    (c : String) (kind : CatalogKind) (w : CatalogVersion)
    → w.client_id ≡ c
    → w.kind ≡ kind
    → is_active w.status ≡ true
    → competes c kind w ≡ true
unfolding competes
competes_of c kind w h k a = ground (arith, eq_iff w.client_id c, kind_beq_iff w.kind kind)

competes-active :
    (c : String) (kind : CatalogKind) (w : CatalogVersion)
    → competes c kind w ≡ true
    → is_active w.status ≡ true
unfolding competes
competes-active c kind w t = ground arith

module _ (c : String) (kind : CatalogKind) (now : String) (s : CatalogStore) (i : String)
    (v : CatalogVersion) (valid : IsValid s) (named : v.id ≡ i) (owned : v.client_id ≡ c)
    (kinded : v.kind ≡ kind) where
  abbrev store_with : CatalogStore
  store_with = insert i v (superseded_store c kind now s)

  -- No active version but `v` is left in the slot of `v`.
  only_activated :
      (k : String) (w : CatalogVersion)
      → lookup k store_with ≡ some w
      → competes c kind w ≡ true
      → is_active w.status ≡ true
      → k ≡ i
  only_activated k w l t a = elim (lookup-insert_cases i v (superseded_store c kind now s) k w l) [
    | inl (same, _) ↦ same
    | inr old ↦ absurd (cc (t, (still_active c kind now s k w old a).1))
  ]

  insert_activated-IsValid : IsValid store_with
  insert_activated-IsValid = record {
    unique =
        insert-UniqueKeys i v (superseded_store c kind now s)
          (map_values-UniqueKeys (supersede c kind now) s valid.unique);
    keyed = λ k w e. elim (lookup-insert_cases i v (superseded_store c kind now s) k w e) [
      | inl (same, is_v) ↦ ap (λ (y : CatalogVersion). y.id) is_v ∙ named ∙ sym same
      | inr old ↦ superseded_keyed c kind now s valid k w old
    ];
    one_active = λ j k u w lu lw sc sk au aw.
        elim (lookup-insert_cases i v (superseded_store c kind now s) j u lu) [
          | inl (same, is_v) ↦
              same
              ∙ sym (
                  only_activated k w lw
                    (competes_of c kind w
                      (sym sc ∙ ap (λ (y : CatalogVersion). y.client_id) is_v ∙ owned)
                      (sym sk ∙ ap (λ (y : CatalogVersion). y.kind) is_v ∙ kinded) aw)
                    aw)
          | inr old ↦ elim (lookup-insert_cases i v (superseded_store c kind now s) k w lw) [
            | inl (same, is_v) ↦ absurd (
                cc (
                  competes_of c kind u (sc ∙ ap (λ (y : CatalogVersion). y.client_id) is_v ∙ owned)
                      (sk ∙ ap (λ (y : CatalogVersion). y.kind) is_v ∙ kinded) au,
                  (still_active c kind now s j u old au).1,
                ))
            | inr old' ↦
                valid.one_active j k u w (still_active c kind now s j u old au).0
                  (still_active c kind now s k w old' aw).0 sc sk au aw
          ]
        ];
  }

  activated_alone : is_active v.status ≡ true → active_for c kind store_with ≡ some v
  unfolding active_for
  activated_alone a =
      ap (λ (l : List CatalogVersion). head? (sort newest_first l))
        (filter-values_one (competes c kind) store_with i v insert_activated-IsValid.unique
          (lookup-insert_self i v (superseded_store c kind now s))
          (competes_of c kind v owned kinded a)
          (λ j w l t. only_activated j w l t (competes-active c kind w t)))

  others_kept :
      (k : String) (w : CatalogVersion)
      → lookup k s ≡ some w
      → w.client_id ≢ c
      → k ≢ i
      → lookup k store_with ≡ some w
  unfolding supersede competes
  others_kept k w l foreign ne =
      lookup-insert_ne i v (superseded_store c kind now s) k ne
      ∙ lookup-map_values (supersede c kind now) k s
      ∙ ground (arith, l, foreign, eq_iff w.client_id c)

-- What a successful activation found under the id.
activate_found-ok :
    (c now : String) (by : Option String) (s s' : CatalogStore) (current v : CatalogVersion)
    → activate_found c now by s (some current) ≡ ok (s', v)
    → (current.status ≡ draft)
      × (current.rows ≢ [])
      × (v ≡ activated now by current)
      × (s' ≡ insert v.id v (superseded_store c current.kind now s))
unfolding activate_found activated
activate_found-ok c now by s s' current v h = ground arith

-- What a successful activation has done.
pub record Activated (c i now : String) (by : Option String) (s s' : CatalogStore)
    (v : CatalogVersion) : Type 0 where
  -- the version was a draft of the tenant with at least one row
  pub was_draft :
      (current : CatalogVersion) × (lookup i s ≡ some current)
      × (current.client_id ≡ c)
      × (current.status ≡ draft)
      × (current.rows ≢ [])
      × (v ≡ activated now by current)
  -- it is now the one that processing selects
  pub selected : active_for c v.kind s' ≡ some v
  pub stored : lookup i s' ≡ some v
  -- versions of other tenants are as they were
  pub others :
      (k : String) (w : CatalogVersion)
      → lookup k s ≡ some w
      → w.client_id ≢ c
      → lookup k s' ≡ some w
  pub valid : IsValid s'

module _ (c i now : String) (by : Option String) (s s' : CatalogStore) (v : CatalogVersion)
    (valid : IsValid s) where
  activate_found-Activated :
      (o : Option CatalogVersion)
      → get_for_client c i s ≡ o
      → activate_found c now by s o ≡ ok (s', v)
      → Activated c i now by s s' v
  activate_found-Activated none e h = absurd (unfold activate_found in cc)
  activate_found-Activated (some current) e h =
      let (stored, owned) = get_for_client-lookup c i s current e in
      let (was_draft, has_rows, is_v, is_s') = activate_found-ok c now by s s' current v h in
      let named : v.id ≡ i =
        ap (λ (x : CatalogVersion). x.id) is_v ∙ unfold activated in valid.keyed i current stored in
      let owns : v.client_id ≡ c =
        ap (λ (x : CatalogVersion). x.client_id) is_v ∙ unfold activated in owned in
      let kinded : v.kind ≡ current.kind =
        ap (λ (x : CatalogVersion). x.kind) is_v ∙ unfold activated in refl in
      let on : is_active v.status ≡ true =
        ap (λ (x : CatalogVersion). is_active x.status) is_v ∙ unfold activated in refl in
      let base = superseded_store c current.kind now s in
      let e' : s' ≡ insert i v base = is_s' ∙ ap (λ (x : String). insert x v base) named in
      record {
        was_draft = (current, stored, owned, was_draft, has_rows, is_v);
        selected =
            subst (λ k. active_for c k s' ≡ some v) (sym kinded)
              (subst (λ t. active_for c current.kind t ≡ some v) (sym e')
                (activated_alone c current.kind now s i v valid named owns kinded on));
        stored = rw e' (lookup-insert_self i v base);
        others = λ k w l foreign. rw e' (
            others_kept c current.kind now s i v valid named owns kinded k w l foreign (λ same.
              foreign (
                ap (λ (x : CatalogVersion). x.client_id)
                  (some-injective _ _ (sym l ∙ ap (λ (x : String). lookup x s) same ∙ stored))
                ∙ owned)));
        valid =
            subst IsValid (sym e')
              (insert_activated-IsValid c current.kind now s i v valid named owns kinded);
      }

-- In a store where each version stands under its own id and no tenant has two active versions of a kind,
-- a successful activation took a draft of the tenant that has rows; afterwards that version is the
-- one that processing selects for its tenant and kind, no other version of them is active, and the
-- versions of other tenants are unchanged.
pub activate_lem :
    (c i now : String) (by : Option String) (s s' : CatalogStore) (v : CatalogVersion)
    → IsValid s
    → activate c i now by s ≡ ok (s', v)
    → Activated c i now by s s' v
unfolding activate
activate_lem c i now by s s' v valid h =
    activate_found-Activated c i now by s s' v valid (get_for_client c i s) refl h
