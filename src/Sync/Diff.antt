-- ===== src/Sync/Diff.antt =====
-- sync_engine.rs, `diff_managed`.
pub mod Settled
pub mod Lookups
pub mod Settlement
pub mod Duplicates
use kr0ki.Common.{
  String, Bool, not, Option, none, some, List, [], ◌∷◌, ◌++◌, if◌then◌else◌, any, is_empty,
  option_map,
}
use kr0ki.Common.Results.{Result, ok, err}
use kr0ki.Common.OrdMap
use kr0ki.Common.OrdMap.{OrdMap, OrdSet, lookup, insert, extend, contains_key}
use kr0ki.Sync.Model.{Json, Fields, Element, DesiredElement, DataVersion, element_identifier}

pub data DiffError : Type 0 where
  duplicate_identifier : List String → DiffError

-- `by_identifier` and `duplicates`
pub record Index (V : Type 0) : Type 0 where
  pub by_identifier : OrdMap (Element V)
  pub duplicates : OrdSet

unfoldable pub data_version : {V : Type 0} → Option (Fields V) → Option (Element V) → DataVersion V
data_version payload existing = record {
  payload = payload;
  identity = option_map (λ e. e.at_id) existing;
}

-- `wanted`, and the duplicates with those that are wanted twice.
unfoldable pub want : {V : Type 0} → List (DesiredElement V) → OrdSet × OrdSet → OrdSet × OrdSet
want [] acc = acc
want (d ∷ ds) (wanted, duplicates) = want ds (
  OrdMap.add d.identifier wanted,
  if OrdMap.contains d.identifier wanted then OrdMap.add d.identifier duplicates else duplicates,
)

-- The last loop: what is not wanted is deleted.
unfoldable pub deletions : {V : Type 0} → OrdSet → OrdMap (Element V) → List (DataVersion V)
unfolding data_version
deletions wanted [] = []
deletions wanted ((identifier, current) ∷ rest) =
    let more = deletions wanted rest in
    if not (OrdMap.contains identifier wanted)
    then data_version none (some current) ∷ more
    else more

module _ {V : Type 0} (x : Json V) where
  open x use {eq, of_text, of_list}

  note : Option String → Element V → Index V → Index V
  note none e acc = acc
  note (some id) e acc = record {
    by_identifier = insert id e acc.by_identifier;
    duplicates =
        if contains_key id acc.by_identifier then OrdMap.add id acc.duplicates else acc.duplicates;
  }

  unfoldable pub index : List (Element V) → Index V → Index V
  unfolding note
  index [] acc = acc
  index (e ∷ es) acc = index es (note (element_identifier x e) e acc)

  unfoldable pub field_differs : Bool → V → Option V → Bool
  field_differs strict v none = not strict
  field_differs strict v (some have) = not (eq have v)

  -- A field that the sync owns has another value, or is absent where an absence says something.
  unfoldable pub owned_field_differs : Element V → Fields V → Bool
  unfolding field_differs
  owned_field_differs current fields =
      let strict_schema = not (contains_key "identifier" current.fields) in
      any (λ (k, v). field_differs strict_schema v (lookup k current.fields)) fields

  unfoldable pub created_payload : DesiredElement V → Fields V
  created_payload d =
      insert "aliasIds" (of_list (of_text d.identifier ∷ []))
        (insert "identifier" (of_text d.identifier) (insert "@type" (of_text d.type_) d.fields))

  unfoldable pub updated_payload : Element V → DesiredElement V → Fields V
  updated_payload current d =
      extend (insert "@type" (of_text current.at_type) current.fields) d.fields

  -- The change for an element that is wanted, given the one that there is.
  unfoldable pub change_for : Option (Element V) → DesiredElement V → List (DataVersion V)
  unfolding data_version owned_field_differs created_payload updated_payload
  change_for none d = data_version (some (created_payload d)) none ∷ []
  change_for (some current) d =
      if owned_field_differs current d.fields
      then data_version (some (updated_payload current d)) (some current) ∷ []
      else []

  unfoldable pub changes_for : OrdMap (Element V) → List (DesiredElement V) → List (DataVersion V)
  unfolding change_for
  changes_for by_identifier [] = []
  changes_for by_identifier (d ∷ ds) =
      change_for (lookup d.identifier by_identifier) d ++ changes_for by_identifier ds

  unfoldable pub diff_managed :
      List (Element V) → List (DesiredElement V) → Result (List (DataVersion V)) DiffError
  unfolding index want changes_for deletions
  diff_managed existing desired =
      let found = index existing (record { by_identifier = []; duplicates = [] }) in
      let (wanted, duplicates) = want desired ([], found.duplicates) in
      if not (is_empty duplicates)
      then err (duplicate_identifier duplicates)
      else ok (changes_for found.by_identifier desired ++ deletions wanted found.by_identifier)
