-- ===== src/Runner/Cases.antt =====
-- verification_runner.rs: the cases of a requirement graph, what they check, and what is current.
pub mod Verified
pub mod Digests
use Prim.Native.Nat.{Ordering}
use kr0ki.Common.{
  String, ◌<>◌, ◌==◌, compare_str, Bool, true, false, ◌&&◌, Option, none, some, List, [], ◌∷◌, map,
  filter, filter_map, find, and_then, unwrap_or, is_some_and, if◌then◌else◌,
}
use kr0ki.Common.Results.{Result, ok, err}
use kr0ki.Common.Sort.{sort_by}
use kr0ki.Common.OrdMap.{OrdMap, lookup, insert}

-- What the code reads of a requirement and of a relation of the graph. A relation is asserted or not,
-- and says that its source verifies its target or something else.
pub record Requirement : Type 0 where
  pub id : String
  pub text : String
  pub attributes : OrdMap String

pub record Relation : Type 0 where
  pub source : String
  pub target : String
  pub is_asserted : Bool
  pub is_verifies : Bool

pub record RequirementGraph : Type 0 where
  pub requirements : List Requirement
  pub relations : List Relation

abbrev pub Verified : Type 0
Verified = String × String × String

pub record VerificationCase : Type 0 where
  pub id : String
  pub argv : List String
  pub acceptance : String
  pub requirements : List Verified

-- The object that a digest is made of.
pub record Spec : Type 0 where
  pub acceptance : String
  pub argv : List String
  pub case_id : String
  pub requirements : List Verified
  pub toolchain : String

-- Where the revisions of a run come from: what the probe reads in its surroundings, as they are.
pub record RevisionProbe (W : Type 0) : Type 0 where
  pub implementation_revision : W → Result String String
  pub toolchain : W → String

pub record CurrentRevisions : Type 0 where
  pub model_revision : String
  pub implementation_revision : String
  pub cases : OrdMap String

-- What is called of the crates: the name of the attribute that holds a node's kind and the kind of
-- a case, the reading of a list of texts, and the digest of the text of an object.
pub record CaseCrates : Type 0 where
  pub node_kind_attr : String
  pub verification_case : String
  pub from_str : String → Option (List String)
  pub to_string : Spec → String
  pub sha256_hex : String → String

-- The order and the equality of triples of texts.
then_by : Ordering → Ordering → Ordering
then_by Ordering.eq o = o
then_by Ordering.lt o = Ordering.lt
then_by Ordering.gt o = Ordering.gt

unfoldable pub compare_verified : Verified → Verified → Ordering
unfolding then_by
compare_verified (a, b, c) (x, y, z) =
    then_by (compare_str a x) (then_by (compare_str b y) (compare_str c z))

unfoldable pub same_verified : Verified → Verified → Bool
same_verified (a, b, c) (x, y, z) = a == x && b == y && c == z

-- `dedup`: of neighbours that are equal one stays.
unfoldable pub dedup : List Verified → List Verified
unfolding same_verified
dedup [] = []
dedup (v ∷ []) = v ∷ []
dedup (v ∷ w ∷ vs) = let rest = dedup (w ∷ vs) in if same_verified v w then rest else v ∷ rest

module _ (c : CaseCrates) where
  open c use {node_kind_attr, verification_case, from_str, to_string, sha256_hex}

  unfoldable pub is_case : Requirement → Bool
  unfolding lookup
  is_case n = is_some_and (lookup node_kind_attr n.attributes) (λ kind. kind == verification_case)

  -- What a relation adds to the case of its source.
  unfoldable pub verified_by : String → Relation → Bool
  verified_by id r = r.is_asserted && r.is_verifies && r.source == id

  unfoldable pub target_of : RequirementGraph → Relation → Option Verified
  unfolding lookup
  target_of graph r =
      and_then (find (λ q. q.id == r.target) graph.requirements)
        λ q. some (q.id, q.text, unwrap_or (lookup "acceptance" q.attributes) "")

  unfoldable pub case_of : RequirementGraph → Requirement → VerificationCase
  unfolding verified_by target_of compare_verified sort_by dedup lookup
  case_of graph n = record {
    id = n.id;
    argv = unwrap_or (and_then (lookup "command" n.attributes) from_str) [];
    acceptance = n.text;
    requirements = dedup (
        sort_by compare_verified
          (filter_map (target_of graph) (filter (verified_by n.id) graph.relations)));
  }

  unfoldable pub cases_from_graph : RequirementGraph → List VerificationCase
  unfolding is_case case_of sort_by
  cases_from_graph graph =
      sort_by (λ a b. compare_str a.id b.id)
        (map (case_of graph) (filter is_case graph.requirements))

  unfoldable pub configuration_digest : VerificationCase → String → String
  configuration_digest v toolchain =
      "sha256:"
      <> sha256_hex (
          to_string (record {
            acceptance = v.acceptance;
            argv = v.argv;
            case_id = v.id;
            requirements = v.requirements;
            toolchain = toolchain;
          }))

  -- `with_case`, for every case in turn
  unfoldable pub with_cases : String → List VerificationCase → OrdMap String → OrdMap String
  unfolding configuration_digest insert
  with_cases toolchain [] digests = digests
  with_cases toolchain (v ∷ vs) digests =
      with_cases toolchain vs (insert v.id (configuration_digest v toolchain) digests)

  unfoldable pub current_revisions :
      {W : Type 0}
      → RequirementGraph
      → RevisionProbe W
      → String
      → W
      → Result CurrentRevisions String
  unfolding with_cases cases_from_graph
  current_revisions graph probe model_revision w = elim (probe.implementation_revision w) [
    | err e ↦ err e
    | ok implementation ↦ ok (record {
      model_revision = model_revision;
      implementation_revision = implementation;
      cases = with_cases (probe.toolchain w) (cases_from_graph graph) [];
    })
  ]
