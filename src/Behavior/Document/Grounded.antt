-- ===== src/Behavior/Document/Grounded.antt =====
-- crates/kr0ki-behavior/src/validation.rs, `RustBehaviorIr::ensure_valid`: what is true of a document
-- that passes.
pub mod Clean
pub mod Maps
pub mod Anchors
pub mod Distinct
use mathlib.Core.List.{Memᴰ}
use text.Mathlib.Text.{is_char_boundary}
use kr0ki.Common.{
  ℕ, ◌≤◌, String, ◌==◌, eq_iff, len, ◌≡◌, ◌∙◌, refl, sym, ap, Bool, true, false, not, ◌&&◌, ◌||◌,
  ◌⊎◌, Option, none, some, List, [], ◌∷◌, ◌++◌, arith, if◌then◌else◌, All, Bool-cases, Option-cases,
  inl, inr, is_empty, filter, is_some, leb, unwrap_or,
}
use kr0ki.Common.Results.{Result, ok, err}
use kr0ki.Common.OrdMap
use kr0ki.Common.OrdMap.{OrdMap, OrdSet, lookup}
use kr0ki.Behavior.Model.{Anchor, Diagnostic, StateMachine, State, Transition, is_error}
use kr0ki.Behavior.Table
use kr0ki.Behavior.Table.{nonempty}
use kr0ki.Behavior.Table.Findings.{flawed, flawed-append, flawed-error, is_empty-filter}
use kr0ki.Behavior.Document.Types.{SourceFile, Node, Edge, RustBehaviorIr, is_external}
use kr0ki.Behavior.Document.{
  is_hex, check_diagnostics, bad_span, check_anchor, check_anchor?, check_sources, check_node,
  check_nodes,
}
use kr0ki.Behavior.Document.Cycles.{containment_cycles}
use kr0ki.Behavior.Document.Edges.{
  Seen, ends_of, incompatible, check_ends, check_name, name_edge, check_edge, check_edges,
}
use kr0ki.Behavior.Document.Validation.{
  check_head, check_cycles, check_known, states_grounded, transitions_grounded, state_anchors,
  transition_anchors, no_edge, check_machines, findings_of, ensure_valid,
}
use kr0ki.Behavior.Document.Grounded.Clean.{ensure_valid-clean, clean_parts}
use kr0ki.Behavior.Document.Grounded.Distinct.{AreDistinct, check_nodes-AreDistinct}
use kr0ki.Behavior.Document.Grounded.Anchors.{
  IsAnchored, IsGrounded, check_anchor?-IsAnchored, sources_of, nodes_of, check_edges-IsGrounded,
}

module _ (digest : String → String) (ir : RustBehaviorIr) where
  -- A node is anchored, or stands for something outside the sources.
  abbrev pub IsPlaced : Node → Type 0
  IsPlaced n =
      ((n.anchor ≡ none) × (is_external n.kind ≡ true))
      ⊎ ((a : Anchor) × (n.anchor ≡ some a) × IsAnchored ir.sources a)

  check_node-IsPlaced :
      (nodes : OrdMap Node) (n : Node)
      → flawed (check_node (sources_of digest ir) nodes n) ≡ false
      → IsPlaced n
  unfolding check_node sources_of
  check_node-IsPlaced nodes n clean =
      let (id_clean, r1) = clean_parts _ _ clean in
      let (fresh_clean, r2) = clean_parts _ _ r1 in
      let (anchor_clean, r3) = clean_parts (check_anchor? (sources_of digest ir) n.anchor) _ r2 in
      let (placed_clean, annotations_clean) = clean_parts _ _ r3 in
      let placed : (not (is_some n.anchor) && not (is_external n.kind)) ≡ false =
        sym (flawed-error (not (is_some n.anchor) && not (is_external n.kind)) _ _ _)
        ∙ placed_clean in
      elim (check_anchor?-IsAnchored digest ir.sources n.anchor anchor_clean) [
        | inl none_ ↦ inl (none_, ground (arith, placed, none_))
        | inr found ↦ inr found
      ]

  check_nodes-IsPlaced :
      (ns : List Node) (nodes : OrdMap Node)
      → flawed (check_nodes (sources_of digest ir) ns nodes).1 ≡ false
      → All IsPlaced ns
  unfolding check_nodes
  check_nodes-IsPlaced [] nodes clean = tt
  check_nodes-IsPlaced (n ∷ ns) nodes clean =
      let (here, later) = clean_parts (check_node (sources_of digest ir) nodes n) _ clean in
      (check_node-IsPlaced nodes n here, check_nodes-IsPlaced ns (OrdMap.insert n.id n nodes) later)

  validate-ok :
      (m : StateMachine) → flawed (Table.validate m) ≡ false → Table.ensure_valid m ≡ ok tt
  unfolding Table.ensure_valid
  validate-ok m clean =
      let fine : is_empty (filter is_error (Table.validate m)) ≡ true =
        is_empty-filter (Table.validate m) ∙ ap not clean in
      rw fine refl

  check_machines-ok :
      (ids : OrdSet) (ms : List StateMachine)
      → flawed (check_machines (sources_of digest ir) ids ms) ≡ false
      → All (λ m. Table.ensure_valid m ≡ ok tt) ms
  unfolding check_machines
  check_machines-ok ids [] clean = tt
  check_machines-ok ids (m ∷ ms) clean =
      let (id_clean, r1) = clean_parts _ _ clean in
      let (table_clean, r2) = clean_parts (Table.validate m) _ r1 in
      let (states_clean, r3) = clean_parts (states_grounded m.id m.states) _ r2 in
      let (transitions_clean, r4) = clean_parts (transitions_grounded m.id m.transitions) _ r3 in
      let (anchors_clean, r5) = clean_parts (state_anchors (sources_of digest ir) m.states) _ r4 in
      let (more_clean, later) =
        clean_parts (transition_anchors (sources_of digest ir) m.transitions) _ r5 in
      (validate-ok m table_clean, check_machines-ok (OrdMap.add m.id ids) ms later)

-- The sources are what their digests say.
check_sources-digests :
    (digest : String → String) (xs : List SourceFile) (m : OrdMap SourceFile)
    → flawed (check_sources digest xs m).1 ≡ false
    → All (λ s. digest s.content ≡ s.sha256) xs
unfolding check_sources
check_sources-digests digest [] m clean = tt
check_sources-digests digest (s ∷ xs) m clean =
    let (path_clean, r1) = clean_parts _ _ clean in
    let (fresh_clean, r2) = clean_parts _ _ r1 in
    let (digest_clean, later) = clean_parts _ _ r2 in
    let bad = not (is_hex s.sha256 64 64) || not (digest s.content == s.sha256) in
    let fine : bad ≡ false = sym (flawed-error bad _ _ _) ∙ digest_clean in
    (
      (eq_iff (digest s.content) s.sha256).0 (ground (arith, fine)),
      check_sources-digests digest xs (OrdMap.insert s.path s m) later,
    )

-- In a document that passes the validation, every edge and every node that is not external has an
-- anchor, which names a symbol and a range of whole characters of one of the document's sources; both
-- ends of an edge are nodes of the document, of kinds that fit the edge's; no two nodes share an id;
-- and every machine passes the validation of its table. Every source has the digest that is recorded
-- for it.
pub ensure_valid-IsGrounded :
    (digest : String → String) (display : ℕ → String) (ir : RustBehaviorIr)
    → ensure_valid digest display ir ≡ ok tt
    → All (IsGrounded ir) ir.edges
      × All (IsPlaced digest ir) ir.nodes
      × AreDistinct ir.nodes
      × All (λ m. Table.ensure_valid m ≡ ok tt) ir.machines
      × All (λ s. digest s.content ≡ s.sha256) ir.sources
unfolding findings_of sources_of nodes_of
ensure_valid-IsGrounded digest display ir passes =
    let clean = ensure_valid-clean digest display ir passes in
    let (given, r1) = clean_parts ir.diagnostics _ clean in
    let (head_clean, r2) = clean_parts (check_head display ir.schema_version ir.provenance) _ r1 in
    let (sources_clean, r3) = clean_parts (check_sources digest ir.sources []).1 _ r2 in
    let sources = sources_of digest ir in
    let nodes = nodes_of digest ir in
    let (diagnostics_clean, r4) = clean_parts (check_diagnostics sources ir.diagnostics) _ r3 in
    let (nodes_clean, r5) = clean_parts (check_nodes sources ir.nodes []).1 _ r4 in
    let (edges_clean, r6) = clean_parts (check_edges sources nodes no_edge ir.edges).1 _ r5 in
    let (cycles_clean, r7) =
      clean_parts
        (check_cycles
          (containment_cycles (check_edges sources nodes no_edge ir.edges).0.containment))
        _ r6 in
    let (known_clean, machines_clean) = clean_parts (check_known ir.edges ir.nodes) _ r7 in
    (
      check_edges-IsGrounded digest ir no_edge ir.edges edges_clean,
      check_nodes-IsPlaced digest ir ir.nodes [] nodes_clean,
      check_nodes-AreDistinct sources ir.nodes [] nodes_clean,
      check_machines-ok digest ir [] ir.machines machines_clean,
      check_sources-digests digest ir.sources [] sources_clean,
    )
