-- ===== src/Behavior/Document.antt =====
-- crates/kr0ki-behavior/src/validation.rs, `impl RustBehaviorIr`: validation of a document. A finding
-- is appended at each point at which the source appends it.
pub mod Types
pub mod Cycles
pub mod Edges
pub mod Validation
pub mod Grounded
use text.Mathlib.Text.{is_char_boundary, get?}
use Prim.Native.Char.{code}
use kr0ki.Common.{
  ℕ, String, ◌<>◌, ◌==◌, starts_with, len, Bool, true, false, not, ◌&&◌, ◌||◌, Option, none, some,
  List, [], ◌∷◌, ◌++◌, if◌then◌else◌, is_some_and, is_empty, filter, any, all, and_then, unwrap_or,
  leb, eqb, Ordering, filter_map, map, is_some,
}
use kr0ki.Common.Results.{Result, ok, err}
use kr0ki.Common.Text.{is_digit, all_chars, any_char, split}
use kr0ki.Common.Sort.{sort_by}
use kr0ki.Common.OrdMap
use kr0ki.Common.OrdMap.{OrdMap, OrdSet}
use kr0ki.Behavior.Model.{
  Anchor, Severity, error, warning, Diagnostic, State, Transition, StateMachine, compare_diagnostic,
  is_error,
}
use kr0ki.Behavior.Table.{nonempty, finding_if}
use kr0ki.Behavior.Table as Table
use kr0ki.Behavior.Document.Types.{
  SourceFile, SourceAnnotation, Node, Edge, EdgeKind, contains_, satisfies, requires, governed_by,
  calls, branch, back, transition, Resolution, resolved, inferred, unresolved, RustBehaviorIr,
  is_state, is_type, is_trait, is_loop, is_dispatch, is_external, is_callable, is_branching,
  is_exit_edge, is_calls_edge,
}
use kr0ki.Behavior.Document.Cycles.{Contains, containment_cycles}

-- A text of lower-case hexadecimal digits, with one of two lengths.
unfoldable pub is_hex : String → ℕ → ℕ → Bool
unfolding all_chars
is_hex value short long =
    (eqb (len value) short || eqb (len value) long)
    && all_chars (λ b. is_digit b || (leb b'a' b && leb b b'f')) value

-- `char::is_control`: the category Cc
abbrev is_control : ℕ → Bool
is_control c = leb c 31 || (leb 127 c && leb c 159)

unfoldable pub relative_path : String → Bool
unfolding any_char split
relative_path path =
    not (path == "")
    && not (any_char (λ c. eqb c 92 || eqb c 58) path)
    && not (any_char is_control path)
    && all (λ part. not (part == "" || part == "." || part == "..")) (split 47 path)

unfoldable pub bad_span : Anchor → SourceFile → Bool
bad_span a source =
    not (nonempty a.symbol)
    || not (leb a.start a.end)
    || not (leb a.end (len source.content))
    || not (is_char_boundary source.content a.start)
    || not (is_char_boundary source.content a.end)

unfoldable pub check_anchor : OrdMap SourceFile → Anchor → List Diagnostic
unfolding bad_span
check_anchor sources a = elim (OrdMap.lookup a.file sources) [
  | none ↦
      finding_if true "anchor_source" error ("anchor source " <> a.file <> " is absent") (some a)
  | some source ↦
      finding_if (bad_span a source) "anchor_span" error
        "anchor must name a symbol and a valid UTF-8 byte range" (some a)
]

unfoldable pub check_anchor? : OrdMap SourceFile → Option Anchor → List Diagnostic
unfolding check_anchor
check_anchor? sources none = []
check_anchor? sources (some a) = check_anchor sources a

-- The loop over the sources; the digest of a text is SHA-256.
unfoldable pub check_sources :
    (String → String) → List SourceFile → OrdMap SourceFile → OrdMap SourceFile × List Diagnostic
unfolding relative_path is_hex
check_sources digest [] sources = (sources, [])
check_sources digest (s ∷ rest) sources =
    let (all_sources, found) = check_sources digest rest (OrdMap.insert s.path s sources) in
    (
      all_sources,
      finding_if (not (relative_path s.path)) "source_path" error
            ("source path must be portable and relative: " <> s.path) none
          ++ (finding_if (OrdMap.contains_key s.path sources) "duplicate_source" error
                ("duplicate source " <> s.path) none
              ++ (finding_if (not (is_hex s.sha256 64 64) || not (digest s.content == s.sha256))
                    "source_digest" error ("source digest mismatch for " <> s.path) none
                  ++ found)),
    )

unfoldable pub check_diagnostics : OrdMap SourceFile → List Diagnostic → List Diagnostic
unfolding check_anchor?
check_diagnostics sources [] = []
check_diagnostics sources (d ∷ rest) =
    finding_if (not (nonempty d.code) || not (nonempty d.message)) "diagnostic_content" error
      "diagnostic code and message must be nonempty" d.anchor
    ++ (check_anchor? sources d.anchor ++ check_diagnostics sources rest)

unfoldable pub source_text : OrdMap SourceFile → Anchor → Option String
source_text sources a =
    and_then (OrdMap.lookup a.file sources) λ source. get? source.content a.start a.end

unfoldable pub check_annotations : OrdMap SourceFile → List SourceAnnotation → List Diagnostic
unfolding check_anchor source_text
check_annotations sources [] = []
check_annotations sources (a ∷ rest) =
    let unlike =
      not (starts_with a.text "#[" || starts_with a.text "#![")
      || not (is_some_and (source_text sources a.anchor) (λ t. t == a.text)) in
    check_anchor sources a.anchor
    ++ (finding_if (not (nonempty a.path)) "annotation_path" error
          "source annotation path must be nonempty" (some a.anchor)
        ++ (finding_if unlike "annotation_source" error
              "source annotation text must begin with #[ or #![ and exactly match its source span"
              (some a.anchor)
            ++ check_annotations sources rest))

-- What the loop over the nodes finds for one node.
unfoldable pub check_node : OrdMap SourceFile → OrdMap Node → Node → List Diagnostic
unfolding check_anchor? check_annotations
check_node sources nodes n =
    finding_if (not (nonempty n.id) || not (nonempty n.name)) "node_identifier" error
      "nodes must have nonempty ids and names" n.anchor
    ++ (finding_if (OrdMap.contains_key n.id nodes) "duplicate_node" error
          ("duplicate node " <> n.id) n.anchor
        ++ (check_anchor? sources n.anchor
            ++ (finding_if (not (is_some n.anchor) && not (is_external n.kind)) "node_provenance"
                  error ("source-derived node " <> n.id <> " has no anchor") none
                ++ check_annotations sources n.annotations)))

unfoldable pub check_nodes :
    OrdMap SourceFile → List Node → OrdMap Node → OrdMap Node × List Diagnostic
unfolding check_node
check_nodes sources [] nodes = (nodes, [])
check_nodes sources (n ∷ rest) nodes =
    let (all_nodes, found) = check_nodes sources rest (OrdMap.insert n.id n nodes) in
    (all_nodes, check_node sources nodes n ++ found)
