-- ===== src/Change/InMemory.antt =====
-- change_service.rs, `in_memory`: a model server whose commits form a chain. The mutex is held
-- within each operation, so that each is one step.
use kr0ki.Common.{
  true, ℕ, ◌+◌, String, ◌<>◌, ◌==◌, Bool, false, not, ◌&&◌, Option, none, some, List, [], ◌∷◌, ◌++◌,
  map, if◌then◌else◌, find, last?, length, option_map, unwrap_or, and_then,
}
use kr0ki.Common.Results.{Result, ok, err}
use kr0ki.Common.OrdMap.{OrdMap, lookup, insert, remove}
use kr0ki.Sync.Model.{Json, Fields, Element, DataVersion}
use kr0ki.Change.Model.{BackendError, conflict, other, ModelBackend}
use kr0ki.Change.Service.{same_revision}

-- A commit: its id, and its elements by their ids.
pub record Snapshot (V : Type 0) : Type 0 where
  pub id : String
  pub elements : OrdMap (Fields V)

pub record Server (V : Type 0) : Type 0 where
  pub commits : List (Snapshot V)
  pub next_element : ℕ
  pub conflict_once : Bool
  pub enforces_previous : Bool

-- `InMemoryServer::new`
abbrev pub new_server : {V : Type 0} → Bool → Server V
new_server enforces_previous = record {
  commits = [];
  next_element = 0;
  conflict_once = false;
  enforces_previous = enforces_previous;
}

abbrev pub inject_conflict_once : {V : Type 0} → Server V → Server V
inject_conflict_once s = record s { conflict_once = true }

abbrev pub commit_count : {V : Type 0} → Server V → ℕ
commit_count s = length s.commits

unfoldable pub head_id : {V : Type 0} → Server V → Option String
head_id s = option_map (λ c. c.id) (last? s.commits)

-- One change: the next number of an element, and the elements.
unfoldable pub apply_change :
    {V : Type 0} → (ℕ → String) → DataVersion V → ℕ × OrdMap (Fields V) → ℕ × OrdMap (Fields V)
apply_change show c (n, elements) = elim c.payload [
  | some p ↦ elim c.identity [
    | none ↦ (n + 1, insert ("el-" <> show (n + 1)) p elements)
    | some id ↦ (n, insert id p elements)
  ]
  | none ↦ elim c.identity [ some id ↦ (n, remove id elements) | none ↦ (n, elements) ]
]

unfoldable pub apply_changes :
    {V : Type 0}
    → (ℕ → String)
    → List (DataVersion V)
    → ℕ × OrdMap (Fields V)
    → ℕ × OrdMap (Fields V)
unfolding apply_change
apply_changes show [] acc = acc
apply_changes show (c ∷ cs) acc = apply_changes show cs (apply_change show c acc)

module _ {V : Type 0} (x : Json V) (show : ℕ → String) where
  -- `serde_json::from_value` of an element: `@id` and `@type` are taken out of its fields.
  unfoldable pub element_of : String × Fields V → Element V
  element_of (id, fields) = record {
    at_id = id;
    at_type = unwrap_or (and_then (lookup "@type" fields) x.as_text) "";
    fields = remove "@type" (remove "@id" fields);
  }

  unfoldable pub elements_at : String → Server V → Result (List (Element V)) BackendError
  unfolding element_of
  elements_at commit s = elim (find (λ c. c.id == commit) s.commits) [
    | none ↦ err (other ("no commit " <> commit))
    | some c ↦ ok (map element_of c.elements)
  ]

  -- The commit that the changes make on top of the last one.
  unfoldable pub grown : List (DataVersion V) → Server V → ℕ × Snapshot V
  unfolding apply_changes
  grown changes s =
      let (n, elements) =
        apply_changes show changes
          (s.next_element, unwrap_or (option_map (λ c. c.elements) (last? s.commits)) []) in
      (n, record { id = "commit-" <> show (length s.commits + 1); elements = elements })

  unfoldable pub post :
      Option String → List (DataVersion V) → Server V → Server V × Result String BackendError
  unfolding head_id grown same_revision
  post previous changes s =
      let (n, new) = grown changes s in
      if s.conflict_once
      then (record s { conflict_once = false }, err conflict)
      else if s.enforces_previous && not (same_revision previous (head_id s))
      then (s, err conflict)
      else (record s { commits = s.commits ++ (new ∷ []); next_element = n }, ok new.id)

  -- The server as a backend: it has one chain, whatever the project and the branch.
  abbrev pub in_memory : ModelBackend (Server V) V
  in_memory = record {
    head = λ project branch s. (s, ok (head_id s));
    elements_at = λ project commit s. (s, elements_at commit s);
    commit = λ project branch previous changes s. post previous changes s;
  }
