-- ===== src/Behavior/Document/Edges.antt =====
-- crates/kr0ki-behavior/src/validation.rs, `RustBehaviorIr::validate`: the loop over the edges.
use kr0ki.Common.{
  String, ◌<>◌, ◌==◌, Bool, true, false, not, ◌&&◌, ◌||◌, Option, none, some, List, [], ◌∷◌, ◌++◌,
  if◌then◌else◌, is_some_and, unwrap_or,
}
use kr0ki.Common.OrdMap
use kr0ki.Common.OrdMap.{OrdMap, OrdSet}
use kr0ki.Behavior.Model.{error, warning, Diagnostic}
use kr0ki.Behavior.Table.{nonempty, finding_if}
use kr0ki.Behavior.Document.Types.{
  SourceFile, Node, NodeKind, Edge, EdgeKind, contains_, satisfies, requires, governed_by, calls,
  flow, branch, back, exits, transition, resolved, inferred, unresolved, is_state, is_type,
  is_trait, is_loop, is_callable, is_branching,
}
use kr0ki.Behavior.Document.Cycles.{Contains}
use kr0ki.Behavior.Document.{check_anchor}

-- What the loop over the edges remembers.
pub record Seen : Type 0 where
  pub ids : OrdSet
  pub containment : Contains
  pub owners : OrdMap String

unfoldable pub incompatible : Edge → NodeKind → NodeKind → Bool
incompatible e from to = elim e.kind [
  | transition ↦ not (is_state from) || not (is_state to)
  | satisfies ↦ not (is_type from) || not (is_trait to)
  | requires ↦ not (is_trait to)
  | governed_by ↦ not (is_trait to)
  | calls ↦ not (is_callable to)
  | back ↦ not (is_loop to)
  | branch ↦ not (is_branching from) || elim e.guard [ none ↦ true | some g ↦ false ]
  | contains_ ↦ e.from == e.to
  | flow ↦ false
  | exits ↦ false
]

abbrev is_contains : EdgeKind → Bool
is_contains contains_ = true
is_contains _ = false

-- The owner of a contained vertex, and the map of containment.
unfoldable pub own : Edge → Seen → Seen
own e seen =
    let more = unwrap_or (OrdMap.lookup e.from seen.containment) [] ++ (e.to ∷ []) in
    if is_contains e.kind
    then record seen {
      owners = OrdMap.insert e.to e.from seen.owners;
      containment = OrdMap.insert e.from more seen.containment;
    }
    else seen

unfoldable pub ambiguous : Edge → Seen → Bool
ambiguous e seen =
    is_contains e.kind
    && is_some_and (OrdMap.lookup e.to seen.owners) (λ owner. not (owner == e.from))

unfoldable pub check_resolution : Edge → List Diagnostic
check_resolution e = elim e.resolution [
  | resolved ↦ []
  | inferred ↦
      finding_if true "inferred_fact" warning ("edge " <> e.id <> " is Inferred") (some e.anchor)
  | unresolved ↦
      finding_if true "unresolved_fact" warning ("edge " <> e.id <> " is Unresolved")
        (some e.anchor)
]

-- The rest of the loop's body, for an edge whose ends are nodes.
unfoldable pub check_ends : Edge → Seen → NodeKind → NodeKind → List Diagnostic
unfolding incompatible ambiguous check_resolution
check_ends e seen from to =
    finding_if (is_some_and e.guard (λ g. not (nonempty g))) "empty_guard" error
      "guard must be absent or nonempty" (some e.anchor)
    ++ (finding_if (ambiguous e seen) "ambiguous_ownership" error
          ("node " <> e.to <> " has multiple containment parents") (some e.anchor)
        ++ (finding_if (incompatible e from to) "edge_kind" error
              ("edge " <> e.id <> " is incompatible with endpoint kinds or guard") (some e.anchor)
            ++ check_resolution e))

-- The ends of an edge, if both are nodes.
unfoldable pub ends_of : OrdMap Node → Edge → Option (Node × Node)
ends_of nodes e = elim (OrdMap.lookup e.from nodes) [
  | none ↦ none
  | some from ↦ elim (OrdMap.lookup e.to nodes) [ none ↦ none | some to ↦ some (from, to) ]
]

-- What the loop's body finds before it looks at the ends.
unfoldable pub check_name : OrdMap SourceFile → Seen → Edge → List Diagnostic
unfolding check_anchor
check_name sources seen e =
    let bad_id = not (nonempty e.id) || OrdMap.contains e.id seen.ids in
    check_anchor sources e.anchor
    ++ finding_if bad_id "duplicate_edge" error ("edge id is empty or duplicated: " <> e.id)
        (some e.anchor)

unfoldable pub name_edge : Edge → Seen → Seen
name_edge e seen = record seen {
  ids = if nonempty e.id then OrdMap.add e.id seen.ids else seen.ids;
}

unfoldable pub check_edge : OrdMap SourceFile → OrdMap Node → Seen → Edge → Seen × List Diagnostic
unfolding check_name name_edge ends_of check_ends own
check_edge sources nodes seen e =
    let seen' = name_edge e seen in
    elim (ends_of nodes e) [
      | none ↦ (
        seen',
        check_name sources seen e
            ++ finding_if true "dangling_edge" error
                ("edge " <> e.id <> " references an absent endpoint") (some e.anchor),
      )
      | some (from, to) ↦
          (own e seen', check_name sources seen e ++ check_ends e seen' from.kind to.kind)
    ]

unfoldable pub check_edges :
    OrdMap SourceFile → OrdMap Node → Seen → List Edge → Seen × List Diagnostic
unfolding check_edge
check_edges sources nodes seen [] = (seen, [])
check_edges sources nodes seen (e ∷ rest) =
    let (seen', found) = check_edge sources nodes seen e in
    let (last, more) = check_edges sources nodes seen' rest in (last, found ++ more)
