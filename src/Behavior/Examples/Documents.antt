-- ===== src/Behavior/Examples/Documents.antt =====
-- A document with one source, two nodes and an edge, and a ring of containment.
use kr0ki.Common.{ℕ, String, ◌≡◌, refl, Bool, true, false, Option, none, some, List, [], ◌∷◌, All}
use kr0ki.Common.Results.{ok}
use kr0ki.Common.OrdMap
use kr0ki.Behavior.Model.{Anchor}
use kr0ki.Behavior.Table
use kr0ki.Behavior.Document.Types.{contains_, module_, function_, resolved, RustBehaviorIr}
use kr0ki.Behavior.Document.Cycles.{
  Contains, ids_of, forward, cost, walk, collect, containment_cycles,
}
use kr0ki.Behavior.Document.Cycles.Ends.{traversals_end}
use kr0ki.Behavior.Document.Validation.{ensure_valid}
use kr0ki.Behavior.Document.Grounded.{IsPlaced, ensure_valid-IsGrounded}
use kr0ki.Behavior.Document.Grounded.Anchors.{IsGrounded}
use kr0ki.Behavior.Document.Grounded.Distinct.{AreDistinct}

abbrev hash : String
hash = "0123456789abcdef0123456789abcdef0123456789abcdef0123456789abcdef"

abbrev here : Anchor
here = record { file = "src/lib.rs"; symbol = "f"; start = 0; end = 6 }

abbrev document : RustBehaviorIr
document = record {
  schema_version = 1;
  provenance = record {
    revision = hash;
    tree_digest = hash;
    toolchain = "stable";
    extractor = "extractor";
    config = [];
  };
  sources = record { path = "src/lib.rs"; sha256 = hash; content = "fn f()" } ∷ [];
  nodes =
      record { id = "m"; name = "lib"; kind = module_; anchor = some here; annotations = [] }
      ∷ record { id = "f"; name = "f"; kind = function_; anchor = some here; annotations = [] }
      ∷ [];
  edges =
      record {
        id = "e";
        from = "m";
        to = "f";
        kind = contains_;
        guard = none;
        resolution = resolved;
        anchor = here;
      }
      ∷ [];
  diagnostics = [];
  machines = [];
}

passes : ensure_valid (λ s. hash) (λ n. "") document ≡ ok tt
unfolding kr0ki.Behavior.Document.Validation.ensure_valid
    kr0ki.Behavior.Document.Validation.validate kr0ki.Behavior.Document.Validation.findings_of
    kr0ki.Behavior.Document.Validation.check_head kr0ki.Behavior.Document.Validation.check_cycles
    kr0ki.Behavior.Document.Validation.check_known kr0ki.Behavior.Document.Validation.check_machines
    kr0ki.Behavior.Document.Validation.dedup kr0ki.Behavior.Document.check_sources
    kr0ki.Behavior.Document.is_hex kr0ki.Behavior.Document.relative_path
    kr0ki.Behavior.Document.check_diagnostics kr0ki.Behavior.Document.check_nodes
    kr0ki.Behavior.Document.check_node kr0ki.Behavior.Document.check_anchor?
    kr0ki.Behavior.Document.check_anchor kr0ki.Behavior.Document.bad_span
    kr0ki.Behavior.Document.check_annotations kr0ki.Behavior.Document.Edges.check_edges
    kr0ki.Behavior.Document.Edges.check_edge kr0ki.Behavior.Document.Edges.check_name
    kr0ki.Behavior.Document.Edges.name_edge kr0ki.Behavior.Document.Edges.ends_of
    kr0ki.Behavior.Document.Edges.check_ends kr0ki.Behavior.Document.Edges.incompatible
    kr0ki.Behavior.Document.Edges.ambiguous kr0ki.Behavior.Document.Edges.own
    kr0ki.Behavior.Document.Edges.check_resolution kr0ki.Common.Text.all_chars
    kr0ki.Common.Text.any_char kr0ki.Common.Text.split kr0ki.Common.Text.trims_to_something
    kr0ki.Common.Text.is_whitespace kr0ki.Behavior.Table.nonempty kr0ki.Behavior.Table.finding_if
    kr0ki.Common.Sort.sort_by kr0ki.Common.Sort.insert_sorted
    kr0ki.Behavior.Document.Cycles.containment_cycles kr0ki.Behavior.Document.Cycles.ids_of
    kr0ki.Behavior.Document.Cycles.add_all kr0ki.Behavior.Document.Cycles.cost
    kr0ki.Behavior.Document.Cycles.forward kr0ki.Behavior.Document.Cycles.walk_all
    kr0ki.Behavior.Document.Cycles.walk kr0ki.Behavior.Document.Cycles.cyclic
    kr0ki.Behavior.Document.Cycles.collect kr0ki.Behavior.Document.Cycles.push_parents
    kr0ki.Behavior.Document.Cycles.reverse kr0ki.Behavior.Document.Cycles.times
    kr0ki.Common.OrdMap.lookup kr0ki.Common.OrdMap.insert kr0ki.Common.OrdMap.contains
    kr0ki.Common.OrdMap.add
passes = refl

ensure_valid-IsGrounded_example :
    All (IsGrounded document) document.edges
    × All (IsPlaced (λ s. hash) document) document.nodes
    × AreDistinct document.nodes
    × All (λ m. Table.ensure_valid m ≡ ok tt) document.machines
    × All (λ s. hash ≡ s.sha256) document.sources
ensure_valid-IsGrounded_example = ensure_valid-IsGrounded (λ s. hash) (λ n. "") document passes

-- Three vertices, two of them in a ring.
abbrev ring : Contains
ring = ("a", "b" ∷ []) ∷ ("b", "a" ∷ "c" ∷ []) ∷ []

ring_found : containment_cycles ring ≡ "a" ∷ "b" ∷ []
unfolding kr0ki.Behavior.Document.Cycles.containment_cycles kr0ki.Behavior.Document.Cycles.ids_of
    kr0ki.Behavior.Document.Cycles.add_all kr0ki.Behavior.Document.Cycles.cost
    kr0ki.Behavior.Document.Cycles.forward kr0ki.Behavior.Document.Cycles.walk_all
    kr0ki.Behavior.Document.Cycles.walk kr0ki.Behavior.Document.Cycles.cyclic
    kr0ki.Behavior.Document.Cycles.collect kr0ki.Behavior.Document.Cycles.push_parents
    kr0ki.Behavior.Document.Cycles.reverse kr0ki.Behavior.Document.Cycles.times
    kr0ki.Common.OrdMap.lookup kr0ki.Common.OrdMap.insert kr0ki.Common.OrdMap.contains
    kr0ki.Common.OrdMap.add
ring_found = refl

traversals_end_example :
    let fuel = cost ring (ids_of ring) [] in
    ((walk fuel ring (("a", forward ring "a") ∷ []) (OrdMap.add "a" []) []).0 ≡ [])
    × ((collect fuel ring ("a" ∷ []) (OrdMap.add "a" []) []).0 ≡ [])
unfolding ids_of kr0ki.Behavior.Document.Cycles.add_all kr0ki.Common.OrdMap.contains
    kr0ki.Common.OrdMap.add
traversals_end_example = traversals_end ring "a" [] [] [] refl refl
