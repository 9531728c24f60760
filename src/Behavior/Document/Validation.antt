-- ===== src/Behavior/Document/Validation.antt =====
-- crates/kr0ki-behavior/src/validation.rs: `RustBehaviorIr::validate` and `ensure_valid`.
use kr0ki.Common.{
  ℕ, String, ◌<>◌, ◌==◌, true, not, ◌&&◌, ◌||◌, none, List, [], ◌∷◌, ◌++◌, if◌then◌else◌, is_some,
  is_empty, filter, any, eqb, Ordering,
}
use kr0ki.Common.Results.{Result, ok, err}
use kr0ki.Common.Sort.{sort_by}
use kr0ki.Common.OrdMap
use kr0ki.Common.OrdMap.{OrdMap, OrdSet}
use kr0ki.Behavior.Model.{
  error, warning, Diagnostic, State, Transition, StateMachine, compare_diagnostic, is_error,
}
use kr0ki.Behavior.Table
use kr0ki.Behavior.Table.{nonempty, finding_if}
use kr0ki.Behavior.Document.Types.{
  SourceFile, Node, Edge, Provenance, RustBehaviorIr, is_loop, is_dispatch, is_exit_edge,
  is_calls_edge,
}
use kr0ki.Behavior.Document.Cycles.{containment_cycles}
use kr0ki.Behavior.Document.{is_hex, check_anchor?, check_sources, check_diagnostics, check_nodes}
use kr0ki.Behavior.Document.Edges.{Seen, check_edges}

unfoldable pub check_head : (ℕ → String) → ℕ → Provenance → List Diagnostic
check_head display version p =
    finding_if (not (eqb version 1)) "schema_version" error
      ("expected schema version 1, got " <> display version) none
    ++ (finding_if (not (is_hex p.revision 40 64)) "source_revision" error
          "revision must be a full lowercase Git object id" none
        ++ (finding_if (not (is_hex p.tree_digest 64 64)) "tree_digest" error
              "tree_digest must be a lowercase SHA-256" none
            ++ finding_if (not (nonempty p.extractor) || not (nonempty p.toolchain))
                "analysis_provenance" error "extractor and toolchain must be recorded" none))

unfoldable pub check_cycles : List String → List Diagnostic
check_cycles [] = []
check_cycles (start ∷ rest) =
    finding_if true "containment_cycle" error ("containment cycle through " <> start) none
    ++ check_cycles rest

-- The second loop over the nodes.
unfoldable pub check_known : List Edge → List Node → List Diagnostic
check_known edges [] = []
check_known edges (n ∷ rest) =
    let exit_known = any (λ e. e.from == n.id && is_exit_edge e.kind) edges in
    let target_known = any (λ e. e.from == n.id && is_calls_edge e.kind) edges in
    finding_if (is_loop n.kind && not exit_known) "unknown_loop_exit" warning
      ("loop " <> n.id <> " has no known exit; termination is unproven") n.anchor
    ++ (finding_if (is_dispatch n.kind && not target_known) "unresolved_dispatch" warning
          ("dispatch " <> n.id <> " has no proven targets") n.anchor
        ++ check_known edges rest)

unfoldable pub states_grounded : String → List State → List Diagnostic
states_grounded machine [] = []
states_grounded machine (s ∷ rest) =
    finding_if (not (is_some s.anchor)) "machine_provenance" error
      ("machine " <> machine <> " state " <> s.id <> " has no source anchor") none
    ++ states_grounded machine rest

unfoldable pub transitions_grounded : String → List Transition → List Diagnostic
transitions_grounded machine [] = []
transitions_grounded machine (t ∷ rest) =
    finding_if (not (is_some t.anchor)) "machine_provenance" error
      ("machine " <> machine <> " transition " <> t.id <> " has no source anchor") none
    ++ transitions_grounded machine rest

unfoldable pub state_anchors : OrdMap SourceFile → List State → List Diagnostic
unfolding check_anchor?
state_anchors sources [] = []
state_anchors sources (s ∷ rest) = check_anchor? sources s.anchor ++ state_anchors sources rest

unfoldable pub transition_anchors : OrdMap SourceFile → List Transition → List Diagnostic
unfolding check_anchor?
transition_anchors sources [] = []
transition_anchors sources (t ∷ rest) =
    check_anchor? sources t.anchor ++ transition_anchors sources rest

unfoldable pub check_machines : OrdMap SourceFile → OrdSet → List StateMachine → List Diagnostic
unfolding states_grounded transitions_grounded state_anchors transition_anchors
check_machines sources ids [] = []
check_machines sources ids (m ∷ rest) =
    finding_if (OrdMap.contains m.id ids) "duplicate_machine" error ("duplicate machine " <> m.id)
      none
    ++ (Table.validate m
        ++ (states_grounded m.id m.states
            ++ (transitions_grounded m.id m.transitions
                ++ (state_anchors sources m.states
                    ++ (transition_anchors sources m.transitions
                        ++ check_machines sources (OrdMap.add m.id ids) rest)))))

-- `dedup`: of neighbours that are equal one stays.
unfoldable pub dedup : List Diagnostic → List Diagnostic
dedup [] = []
dedup (d ∷ []) = d ∷ []
dedup (d ∷ e ∷ ds) =
    let rest = dedup (e ∷ ds) in
    let both = d ∷ rest in elim (compare_diagnostic d e) [ Ordering.eq ↦ rest | _ ↦ both ]

abbrev pub no_edge : Seen
no_edge = record { ids = []; containment = []; owners = [] }

-- The findings in the order in which they are made. The digest of a text is SHA-256, and `display`
-- prints a number.
unfoldable pub findings_of : (String → String) → (ℕ → String) → RustBehaviorIr → List Diagnostic
unfolding check_head check_cycles check_known check_machines
findings_of digest display ir =
    let (sources, in_sources) = check_sources digest ir.sources [] in
    let (nodes, in_nodes) = check_nodes sources ir.nodes [] in
    let (seen, in_edges) = check_edges sources nodes no_edge ir.edges in
    ir.diagnostics
    ++ (check_head display ir.schema_version ir.provenance
        ++ (in_sources
            ++ (check_diagnostics sources ir.diagnostics
                ++ (in_nodes
                    ++ (in_edges
                        ++ (check_cycles (containment_cycles seen.containment)
                            ++ (check_known ir.edges ir.nodes
                                ++ check_machines sources [] ir.machines)))))))

unfoldable pub validate : (String → String) → (ℕ → String) → RustBehaviorIr → List Diagnostic
unfolding findings_of dedup sort_by
validate digest display ir = dedup (sort_by compare_diagnostic (findings_of digest display ir))

unfoldable pub ensure_valid :
    (String → String) → (ℕ → String) → RustBehaviorIr → Result (Unit {0}) (List Diagnostic)
unfolding validate
ensure_valid digest display ir =
    let errors = filter is_error (validate digest display ir) in
    if is_empty errors then ok tt else err errors
