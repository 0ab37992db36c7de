-- ===== src/Tests/Publication.antt =====
-- Runs of the publication store of packages/api/dfip_api/publication_store.py.
use dfip_v.Prelude.{◌≡◌, ◌⊎◌, refl, any, string_eq, ne_of_beq, none, some, List, [], ◌∷◌}
use dfip_v.Prelude.Dict.{insert}
use dfip_v.Prelude.Result.{ok, err}
use dfip_v.Transform.Fact.{FactRecord}
use dfip_v.Api.PublicationStore.{
  PublicationStore, Request, create, stored, unique_rows, copy_chunks, duplicate_grains,
}
use dfip_v.Api.PublicationStore.Copy.{DistinctGrains, Holds, create_lem}
use dfip_v.Api.PublicationStore.History.{Published, create-Published}
use dfip_v.Tests.Facts.{old, new}

abbrev nothing : PublicationStore
nothing = record { publications = []; current = []; snapshots = [] }

abbrev request : List FactRecord → Request
request facts = record {
  client_id = "c1";
  processing_run_id = "r1";
  period_start = none;
  period_end = none;
  published_by = some "u1";
  notes = none;
  fact_scope = "processing_run";
  snapshot_facts = facts;
}

abbrev first : PublicationStore
first = stored (request (old ∷ [])) "p1" 5 (old ∷ []) nothing

create_lem_example :
    (DistinctGrains (old ∷ new ∷ [])
      × (s' : PublicationStore) × (create (request (old ∷ new ∷ [])) "p1" 5 nothing ≡ ok s')
      × Holds "p1" (old ∷ new ∷ []) nothing s')
    ⊎ ((¬ DistinctGrains (old ∷ new ∷ []))
        × (create (request (old ∷ new ∷ [])) "p1" 5 nothing ≡ err duplicate_grains))
create_lem_example = create_lem (request (old ∷ new ∷ [])) "p1" 5 nothing

publishes_again :
    create (request (new ∷ [])) "p2" 6 first
    ≡ ok (stored (request (new ∷ [])) "p2" 6 (new ∷ []) first)
unfolding create unique_rows copy_chunks any
publishes_again = refl

create-Published_example :
    Published
      (request (new ∷ []))
      "p2"
      6
      first
      (stored (request (new ∷ [])) "p2" 6 (new ∷ []) first)
unfolding insert
create-Published_example =
    create-Published (request (new ∷ [])) "p2" 6 first
      (stored (request (new ∷ [])) "p2" 6 (new ∷ []) first)
      (ne_of_beq string_eq "p1" "p2" refl, ne_of_beq string_eq "p1" "p2" refl, tt) publishes_again
