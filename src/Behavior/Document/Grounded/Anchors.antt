-- ===== src/Behavior/Document/Grounded/Anchors.antt =====
-- crates/kr0ki-behavior/src/validation.rs: anchors and edges whose findings hold no error.
use mathlib.Core.List.{Memᴰ}
use text.Mathlib.Text.{is_char_boundary}
use kr0ki.Common.{
  ◌≤◌, String, len, ◌≡◌, ◌∙◌, refl, sym, ap, true, false, ◌⊎◌, Option, none, some, List, [], ◌∷◌,
  ◌++◌, arith, All, Option-cases, inl, inr, unwrap_or,
}
use kr0ki.Common.OrdMap.{OrdMap, lookup}
use kr0ki.Behavior.Model.{Anchor, Diagnostic}
use kr0ki.Behavior.Table.{nonempty}
use kr0ki.Behavior.Table.Findings.{flawed, flawed-append, flawed-error}
use kr0ki.Behavior.Document.Types.{SourceFile, Node, Edge, RustBehaviorIr}
use kr0ki.Behavior.Document.{bad_span, check_anchor, check_anchor?, check_sources, check_nodes}
use kr0ki.Behavior.Document.Edges.{
  Seen, ends_of, incompatible, check_ends, check_name, name_edge, check_edge, check_edges,
}
use kr0ki.Behavior.Document.Grounded.Clean.{clean_parts}
use kr0ki.Behavior.Document.Grounded.Maps.{lookup-check_sources, lookup-check_nodes}

-- An anchor names a symbol and a range of whole characters of one of the sources.
pub record IsAnchored (sources : List SourceFile) (a : Anchor) : Type 0 where
  pub source : SourceFile
  pub given : Memᴰ source sources
  pub named : source.path ≡ a.file
  pub symbol : nonempty a.symbol ≡ true
  pub ordered : a.start ≤ a.end
  pub inside : a.end ≤ len source.content
  pub starts : is_char_boundary source.content a.start ≡ true
  pub ends : is_char_boundary source.content a.end ≡ true

-- An edge is anchored, and its ends are nodes.
pub record IsGrounded (ir : RustBehaviorIr) (e : Edge) : Type 0 where
  pub anchored : IsAnchored ir.sources e.anchor
  pub from_node : Node
  pub to_node : Node
  pub from_given : Memᴰ from_node ir.nodes
  pub to_given : Memᴰ to_node ir.nodes
  pub from_named : from_node.id ≡ e.from
  pub to_named : to_node.id ≡ e.to
  pub compatible : incompatible e from_node.kind to_node.kind ≡ false

check_anchor-IsAnchored :
    (digest : String → String) (sources : List SourceFile) (a : Anchor)
    → flawed (check_anchor (check_sources digest sources []).0 a) ≡ false
    → IsAnchored sources a
unfolding check_anchor bad_span
check_anchor-IsAnchored digest sources a clean =
    let m = (check_sources digest sources []).0 in
    elim (Option-cases (lookup a.file m)) [
      | inl absent ↦
          let dirty : flawed (check_anchor m a) ≡ true =
            rw (check_anchor, absent) (flawed-error true _ _ _) in
          absurd (ground (arith, dirty, clean))
      | inr (s, at) ↦
          let (given, named) = lookup-check_sources digest sources a.file s at in
          let whole : flawed (check_anchor m a) ≡ bad_span a s =
            rw (check_anchor, at) (flawed-error (bad_span a s) _ _ _) in
          let fine : bad_span a s ≡ false = sym whole ∙ clean in
          record {
            source = s;
            given = given;
            named = named;
            symbol = ground (arith, fine);
            ordered = ground (arith, fine);
            inside = ground (arith, fine);
            starts = ground (arith, fine);
            ends = ground (arith, fine);
          }
    ]

pub check_anchor?-IsAnchored :
    (digest : String → String) (sources : List SourceFile) (o : Option Anchor)
    → flawed (check_anchor? (check_sources digest sources []).0 o) ≡ false
    → (o ≡ none) ⊎ ((a : Anchor) × (o ≡ some a) × IsAnchored sources a)
unfolding check_anchor?
check_anchor?-IsAnchored digest sources none clean = inl refl
check_anchor?-IsAnchored digest sources (some a) clean =
    inr (a, refl, check_anchor-IsAnchored digest sources a clean)

flawed-last : (xs ys : List Diagnostic) → flawed ys ≡ true → flawed (xs ++ ys) ≡ true
flawed-last xs ys h = flawed-append xs ys ∙ ground (arith, h)

ends_of-lookup :
    (nodes : OrdMap Node) (e : Edge) (from to : Node)
    → ends_of nodes e ≡ some (from, to)
    → (lookup e.from nodes ≡ some from) × (lookup e.to nodes ≡ some to)
unfolding ends_of
ends_of-lookup nodes e from to h = elim (Option-cases (lookup e.from nodes)) [
  | inl none_ ↦ absurd (ground (arith, h, none_))
  | inr (f, at) ↦ elim (Option-cases (lookup e.to nodes)) [
    | inl none_ ↦ absurd (ground (arith, h, at, none_))
    | inr (t, at') ↦
        let made : ends_of nodes e ≡ some (f, t) = rw (ends_of, at) (rw at' refl) in
        let same_ = ap (λ o. unwrap_or o (f, t)) (sym made ∙ h) in
        (at ∙ ap (λ u. some u.0) same_, at' ∙ ap (λ u. some u.1) same_)
  ]
]

module _ (digest : String → String) (ir : RustBehaviorIr) where
  unfoldable pub sources_of : OrdMap SourceFile
  sources_of = (check_sources digest ir.sources []).0

  unfoldable pub nodes_of : OrdMap Node
  unfolding sources_of
  nodes_of = (check_nodes sources_of ir.nodes []).0

  check_edge-IsGrounded :
      (seen : Seen) (e : Edge)
      → flawed (check_edge sources_of nodes_of seen e).1 ≡ false
      → IsGrounded ir e
  unfolding check_edge check_name check_ends sources_of nodes_of
  check_edge-IsGrounded seen e clean = elim (Option-cases (ends_of nodes_of e)) [
    | inl dangling ↦
        let dirty : flawed (check_edge sources_of nodes_of seen e).1 ≡ true =
          rw (check_edge, dangling)
            (flawed-last (check_name sources_of seen e) _ (flawed-error true _ _ _)) in
        absurd (ground (arith, dirty, clean))
    | inr ((from, to), at) ↦
        let seen' = name_edge e seen in
        let whole : (check_edge sources_of nodes_of seen e).1
            ≡ check_name sources_of seen e ++ check_ends e seen' from.kind to.kind =
          rw (check_edge, at) refl in
        let (name_clean, ends_clean) =
          clean_parts (check_name sources_of seen e) _ (ap flawed (sym whole) ∙ clean) in
        let (anchor_clean, id_clean) =
          clean_parts (check_anchor sources_of e.anchor) _ name_clean in
        let (guard_clean, rest) = clean_parts _ _ ends_clean in
        let (owner_clean, kinds) = clean_parts _ _ rest in
        let (kind_clean, resolution_clean) = clean_parts _ _ kinds in
        let (from_at, to_at) = ends_of-lookup nodes_of e from to at in
        let (from_given, from_named) = lookup-check_nodes sources_of ir.nodes e.from from from_at in
        let (to_given, to_named) = lookup-check_nodes sources_of ir.nodes e.to to to_at in
        record {
          anchored = check_anchor-IsAnchored digest ir.sources e.anchor anchor_clean;
          from_node = from;
          to_node = to;
          from_given = from_given;
          to_given = to_given;
          from_named = from_named;
          to_named = to_named;
          compatible = sym (flawed-error (incompatible e from.kind to.kind) _ _ _) ∙ kind_clean;
        }
  ]

  pub check_edges-IsGrounded :
      (seen : Seen) (es : List Edge)
      → flawed (check_edges sources_of nodes_of seen es).1 ≡ false
      → All (IsGrounded ir) es
  unfolding check_edges
  check_edges-IsGrounded seen [] clean = tt
  check_edges-IsGrounded seen (e ∷ es) clean =
      let (here, later) = clean_parts (check_edge sources_of nodes_of seen e).1 _ clean in
      (
        check_edge-IsGrounded seen e here,
        check_edges-IsGrounded (check_edge sources_of nodes_of seen e).0 es later,
      )
