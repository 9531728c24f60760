-- ===== src/Behavior/Document/Grounded/Distinct.antt =====
-- crates/kr0ki-behavior/src/validation.rs: the ids of the nodes, where no finding is an error.
use kr0ki.Common.{
  String, ◌≡◌, ◌≢◌, ◌∙◌, refl, sym, ap, true, false, List, [], ◌∷◌, arith, is_some, All, eq_refl,
}
use kr0ki.Common.OrdMap.{OrdMap, insert, contains_key, lookup-insert}
use kr0ki.Behavior.Table.Findings.{flawed, flawed-error}
use kr0ki.Behavior.Document.Types.{SourceFile, Node}
use kr0ki.Behavior.Document.{check_node, check_nodes}
use kr0ki.Behavior.Document.Grounded.Clean.{clean_parts}

-- No two nodes share an id.
abbrev pub AreDistinct : List Node → Type 0
AreDistinct [] = Unit
AreDistinct (n ∷ ns) = All (λ m. m.id ≢ n.id) ns × AreDistinct ns

fresh-check_node :
    (sources : OrdMap SourceFile) (nodes : OrdMap Node) (n : Node)
    → flawed (check_node sources nodes n) ≡ false
    → contains_key n.id nodes ≡ false
unfolding check_node
fresh-check_node sources nodes n clean =
    let (id_clean, r1) = clean_parts _ _ clean in
    let (fresh_clean, r2) = clean_parts _ _ r1 in
    sym (flawed-error (contains_key n.id nodes) _ _ _) ∙ fresh_clean

insert-contains_key :
    (k j : String) (n : Node) (nodes : OrdMap Node)
    → contains_key k nodes ≡ true
    → contains_key k (insert j n nodes) ≡ true
insert-contains_key k j n nodes h = ap is_some (lookup-insert j k n nodes) ∙ ground (arith, h)

check_nodes-apart :
    (sources : OrdMap SourceFile) (ns : List Node) (nodes : OrdMap Node) (k : String)
    → flawed (check_nodes sources ns nodes).1 ≡ false
    → contains_key k nodes ≡ true
    → All (λ m. m.id ≢ k) ns
unfolding check_nodes
check_nodes-apart sources [] nodes k clean there = tt
check_nodes-apart sources (n ∷ ns) nodes k clean there =
    let (here, later) = clean_parts (check_node sources nodes n) _ clean in
    let fresh = fresh-check_node sources nodes n here in
    (
      λ e.
          let clash : contains_key k nodes ≡ false =
            ap (λ j. contains_key j nodes) (sym e) ∙ fresh in
          absurd (ground (arith, clash, there)),
      check_nodes-apart sources ns (insert n.id n nodes) k later
          (insert-contains_key k n.id n nodes there),
    )

pub check_nodes-AreDistinct :
    (sources : OrdMap SourceFile) (ns : List Node) (nodes : OrdMap Node)
    → flawed (check_nodes sources ns nodes).1 ≡ false
    → AreDistinct ns
unfolding check_nodes
check_nodes-AreDistinct sources [] nodes clean = tt
check_nodes-AreDistinct sources (n ∷ ns) nodes clean =
    let (here, later) = clean_parts (check_node sources nodes n) _ clean in
    let now : contains_key n.id (insert n.id n nodes) ≡ true =
      ap is_some (lookup-insert n.id n.id n nodes) ∙ rw (eq_refl n.id) refl in
    (
      check_nodes-apart sources ns (insert n.id n nodes) n.id later now,
      check_nodes-AreDistinct sources ns (insert n.id n nodes) later,
    )
