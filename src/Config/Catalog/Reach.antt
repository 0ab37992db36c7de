-- ===== src/Config/Catalog/Reach.antt =====
-- Every store that imports, activations, deactivations and purges can reach. An import adds a draft
-- (packages/api/dfip_api/catalog_service.py gives a new version that status).
use dfip_v.Config.Catalog.{
  CatalogVersion, CatalogStore, draft, is_active, get_for_client, activate, deactivate,
  deactivate_found, add_version, purge_client,
}
use dfip_v.Config.Catalog.Activation.{IsValid, activate_lem}
use dfip_v.Prelude.{
  ◌≡◌, sym, ap, ◌∙◌, inl, inr, false, not, Option, none, some, [], String, ◌==◌, string_eq, arith,
}
use dfip_v.Prelude.Dict.{
  lookup, insert, filter_values, keep_if-some, insert-UniqueKeys, lookup-filter_values,
  filter_values-UniqueKeys, lookup-insert_cases,
}
use dfip_v.Prelude.Result.{ok}

-- Writing an inactive version under its own id.
insert_inactive-IsValid :
    (v : CatalogVersion) (s : CatalogStore)
    → is_active v.status ≡ false
    → IsValid s
    → IsValid (insert v.id v s)
insert_inactive-IsValid v s off valid = record {
  unique = insert-UniqueKeys v.id v s valid.unique;
  keyed = λ k w l. elim (lookup-insert_cases v.id v s k w l) [
    | inl (same, is_v) ↦ ap (λ (x : CatalogVersion). x.id) is_v ∙ sym same
    | inr old ↦ valid.keyed k w old
  ];
  one_active = λ j k u w lu lw sc sk au aw. elim (lookup-insert_cases v.id v s j u lu) [
    | inl (_, is_v) ↦ absurd (cc (ap (λ (x : CatalogVersion). is_active x.status) is_v, off, au))
    | inr old ↦ elim (lookup-insert_cases v.id v s k w lw) [
      | inl (_, is_v) ↦ absurd (cc (ap (λ (x : CatalogVersion). is_active x.status) is_v, off, aw))
      | inr old' ↦ valid.one_active j k u w old old' sc sk au aw
    ]
  ];
}

add_version-IsValid :
    (v : CatalogVersion) (s s' : CatalogStore)
    → v.status ≡ draft
    → IsValid s
    → add_version v s ≡ ok s'
    → IsValid s'
unfolding add_version
add_version-IsValid v s s' d valid h =
    let e : s' ≡ insert v.id v s = ground arith in
    rw e (insert_inactive-IsValid v s (ap is_active d) valid)

deactivate-IsValid :
    (c i now : String) (s s' : CatalogStore) (v : CatalogVersion)
    → IsValid s
    → deactivate c i now s ≡ ok (s', v)
    → IsValid s'
unfolding deactivate
deactivate-IsValid c i now s s' v valid h = go (get_for_client c i s) h
  where
    go : (o : Option CatalogVersion) → deactivate_found now s o ≡ ok (s', v) → IsValid s'
    go none e = absurd (unfold deactivate_found in cc)
    go (some current) e =
        let facts : (s' ≡ insert v.id v s) × (is_active v.status ≡ false) =
          unfold deactivate_found in ground arith in
        rw (facts.0) (insert_inactive-IsValid v s facts.1 valid)

purge_client-IsValid : (c : String) (s : CatalogStore) → IsValid s → IsValid (purge_client c s)
unfolding purge_client
purge_client-IsValid c s valid =
    let p = λ (v : CatalogVersion). not (v.client_id == c) in
    let kept = λ (k : String) (w : CatalogVersion) (l : lookup k (filter_values p s) ≡ some w).
      keep_if-some p (lookup k s) w (sym (lookup-filter_values p k s valid.unique) ∙ l) in
    record {
      unique = filter_values-UniqueKeys p s valid.unique;
      keyed = λ k w l. valid.keyed k w (kept k w l);
      one_active = λ j k u w lu lw sc sk au aw.
          valid.one_active j k u w (kept j u lu) (kept k w lw) sc sk au aw;
    }

pub data Step : CatalogStore → CatalogStore → Type 0 where
  imports :
      {s s' : CatalogStore} (v : CatalogVersion)
      → v.status ≡ draft
      → add_version v s ≡ ok s'
      → Step s s'
  activates :
      {s s' : CatalogStore} (c i now : String) (by : Option String) (v : CatalogVersion)
      → activate c i now by s ≡ ok (s', v)
      → Step s s'
  deactivates :
      {s s' : CatalogStore} (c i now : String) (v : CatalogVersion)
      → deactivate c i now s ≡ ok (s', v)
      → Step s s'
  purges : {s : CatalogStore} (c : String) → Step s (purge_client c s)

pub data Reach : CatalogStore → Type 0 where
  empty : Reach []
  next : {s s' : CatalogStore} → Reach s → Step s s' → Reach s'

Step-IsValid : {s s' : CatalogStore} → Step s s' → IsValid s → IsValid s'
Step-IsValid {s} {s'} (imports v d h) valid = add_version-IsValid v s s' d valid h
Step-IsValid {s} {s'} (activates c i now by v h) valid =
    (activate_lem c i now by s s' v valid h).valid
Step-IsValid {s} {s'} (deactivates c i now v h) valid = deactivate-IsValid c i now s s' v valid h
Step-IsValid {s} (purges c) valid = purge_client-IsValid c s valid

-- In every store that imports of drafts, activations, deactivations and purges lead to from the empty
-- one, each version stands under its own id, and no tenant has two active versions of one kind.
pub Reach-IsValid : {s : CatalogStore} → Reach s → IsValid s
unfolding lookup
Reach-IsValid empty = record {
  unique = tt;
  keyed = λ k v h. cc;
  one_active = λ j k u v lu lv sc sk au av. cc;
}
Reach-IsValid (next r st) = Step-IsValid st (Reach-IsValid r)
