-- ===== src/Sync/Model.antt =====
-- Elements and changes: model.rs of crates/kr0ki-sysmlv2-client and the types of sync_engine.rs.
use kr0ki.Common.{String, Bool, Option, List, and_then, find_map, or_else}
use kr0ki.Common.OrdMap.{OrdMap, lookup}

-- What is used of `serde_json::Value`.
pub record Json (V : Type 0) : Type 0 where
  pub eq : V → V → Bool
  pub of_text : String → V
  pub of_list : List V → V
  pub as_text : V → Option String
  pub as_list : V → Option (List V)

-- `Map<String, Value>`
abbrev pub Fields : Type 0 → Type 0
Fields V = OrdMap V

pub record Element (V : Type 0) : Type 0 where
  pub at_id : String
  pub at_type : String
  pub fields : Fields V

pub record DesiredElement (V : Type 0) : Type 0 where
  pub identifier : String
  pub type_ : String
  pub fields : Fields V

-- A payload is an object; an identity is the `@id` of an element.
pub record DataVersion (V : Type 0) : Type 0 where
  pub payload : Option (Fields V)
  pub identity : Option String

pub record Commit : Type 0 where
  pub at_id : String
  pub created : Option String

module _ {V : Type 0} (x : Json V) where
  open x use {as_text, as_list}

  -- The `identifier` of a map of fields, or the first text of its `aliasIds`.
  unfoldable pub identifier_of : Fields V → Option String
  identifier_of fields =
      or_else (and_then (lookup "identifier" fields) as_text)
        (and_then (and_then (lookup "aliasIds" fields) as_list) (find_map as_text))

  unfoldable pub element_identifier : Element V → Option String
  unfolding identifier_of
  element_identifier e = identifier_of e.fields
