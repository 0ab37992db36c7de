-- ===== src/Config/Catalog.antt =====
-- packages/config/dfip_config/catalog.py: the publisher's uploaded Logic and Labels versions. A row
-- is the dictionary that the import stored, with its number `row_order`.
pub mod Activation
pub mod Reach
use dfip_v.Prelude.{
  ℕ, String, Bool, true, false, not, Option, none, some, List, [], ◌∷◌, ◌&&◌, ◌==◌, string_eq,
  option_eq, Comparable, ◌↔◌, ◌≡◌, arith, ltb, is_some, or_else, filter, map, if◌then◌else◌,
}
use dfip_v.Prelude.Dates.{Moment}
use dfip_v.Prelude.Dict.{Dict, lookup, insert, contains, values, map_values, filter_values}
use dfip_v.Prelude.Result.{Result, ok, err}
use dfip_v.Prelude.Sort.{sort}
use dfip_v.Prelude.Text.{str_ltb, truthy, or_text}
use mathlib.Core.List.{head?}

pub data CatalogKind : Type 0 where
  logic labels : CatalogKind

pub data CatalogStatus : Type 0 where
  draft active superseded : CatalogStatus

abbrev pub kind_beq : CatalogKind → CatalogKind → Bool
kind_beq logic logic = true
kind_beq labels labels = true
kind_beq _ _ = false

pub kind_beq_iff : (a b : CatalogKind) → (kind_beq a b ≡ true) ↔ (a ≡ b)
kind_beq_iff a b = ground arith

instance abbrev pub kind_eq : Comparable CatalogKind
kind_eq = record { equal = kind_beq; equal_iff = kind_beq_iff }

abbrev pub is_active : CatalogStatus → Bool
is_active active = true
is_active _ = false

pub record CatalogRow : Type 0 where
  pub row_order : ℕ
  pub cells : Dict String String

pub record CatalogVersion : Type 0 where
  pub id : String
  pub client_id : String
  pub kind : CatalogKind
  pub version_label : String
  pub status : CatalogStatus
  pub row_count : ℕ
  pub distinct_key_count : ℕ
  pub duplicate_key_count : ℕ
  pub created_at : Moment
  pub created_by : Option String
  pub notes : Option String
  pub source_filename : Option String
  pub rows : List CatalogRow
  pub effective_from : Option String
  pub effective_to : Option String

abbrev pub CatalogStore : Type 0
CatalogStore = Dict String CatalogVersion

pub data CatalogError : Type 0 where
  already_exists key_error not_draft empty_rows not_active : CatalogError

unfoldable pub add_version : CatalogVersion → CatalogStore → Result CatalogError CatalogStore
add_version v s = if contains v.id s then err already_exists else ok (insert v.id v s)

unfoldable pub save : CatalogVersion → CatalogStore → CatalogStore
save v s = insert v.id v s

abbrev of_client : String → Option CatalogVersion → Option CatalogVersion
of_client client_id none = none
of_client client_id (some v) = if v.client_id == client_id then some v else none

unfoldable pub get_for_client : String → String → CatalogStore → Option CatalogVersion
get_for_client client_id version_id s = of_client client_id (lookup version_id s)

-- the sort key `(created_at, id)`, in reverse
unfoldable pub newest_first : CatalogVersion → CatalogVersion → Bool
newest_first a b =
    if ltb b.created_at a.created_at
    then true
    else if ltb a.created_at b.created_at
    then false
    else str_ltb b.id a.id

unfoldable pub list_for_client : String → CatalogKind → CatalogStore → List CatalogVersion
unfolding filter values sort newest_first
list_for_client client_id kind s =
    sort newest_first (filter (λ v. v.client_id == client_id && v.kind == kind) (values s))

-- the versions among which the active one is looked for
unfoldable pub competes : String → CatalogKind → CatalogVersion → Bool
competes client_id kind v = v.client_id == client_id && (v.kind == kind && is_active v.status)

unfoldable pub active_for : String → CatalogKind → CatalogStore → Option CatalogVersion
unfolding filter values sort
active_for client_id kind s =
    head? (sort newest_first (filter (competes client_id kind) (values s)))

-- one round of the loop in `activate`
unfoldable pub supersede : String → CatalogKind → String → CatalogVersion → CatalogVersion
unfolding competes
supersede client_id kind now v =
    if competes client_id kind v
    then record v { status = superseded; effective_to = some now }
    else v

unfoldable pub activated : String → Option String → CatalogVersion → CatalogVersion
activated now activated_by v = record v {
  status = active;
  effective_from = some (truthy v.effective_from now);
  effective_to = none;
  created_by = or_text v.created_by activated_by;
}

activate_found :
    String
    → String
    → Option String
    → CatalogStore
    → Option CatalogVersion
    → Result CatalogError (CatalogStore × CatalogVersion)
unfolding map_values supersede activated
activate_found client_id now activated_by s none = err key_error
activate_found client_id now activated_by s (some current) = elim current.status [
  | draft ↦ elim current.rows [
    | [] ↦ err empty_rows
    | r ∷ rs ↦
        let v = activated now activated_by current in
        ok (insert v.id v (map_values (supersede client_id current.kind now) s), v)
  ]
  | _ ↦ err not_draft
]

unfoldable pub activate :
    String
    → String
    → String
    → Option String
    → CatalogStore
    → Result CatalogError (CatalogStore × CatalogVersion)
unfolding activate_found get_for_client
activate client_id version_id now activated_by s =
    activate_found client_id now activated_by s (get_for_client client_id version_id s)

deactivate_found :
    String
    → CatalogStore
    → Option CatalogVersion
    → Result CatalogError (CatalogStore × CatalogVersion)
deactivate_found now s none = err key_error
deactivate_found now s (some current) =
    if is_active current.status
    then (let v = record current { status = superseded; effective_to = some now } in
        ok (insert v.id v s, v))
    else err not_active

unfoldable pub deactivate :
    String → String → String → CatalogStore → Result CatalogError (CatalogStore × CatalogVersion)
unfolding deactivate_found get_for_client
deactivate client_id version_id now s =
    deactivate_found now s (get_for_client client_id version_id s)

unfoldable pub purge_client : String → CatalogStore → CatalogStore
unfolding filter_values
purge_client client_id s = filter_values (λ v. not (v.client_id == client_id)) s
