-- ===== src/Behavior/Document/Grounded/Maps.antt =====
-- crates/kr0ki-behavior/src/validation.rs: what the maps of a validation hold is in the document.
use mathlib.Core.List.{Memᴰ}
use kr0ki.Common.{
  String, ◌==◌, eq_iff, ◌≡◌, ◌∙◌, refl, sym, ap, ◌⊎◌, some, List, [], ◌∷◌, arith, Bool-cases, inl,
  inr,
}
use kr0ki.Common.OrdMap.{OrdMap, lookup, insert, lookup-insert}
use kr0ki.Behavior.Document.Types.{SourceFile, Node}
use kr0ki.Behavior.Document.{check_sources, check_nodes}

-- A list under its keys, a later entry over an earlier one.
insert_all : {A : Type 0} → (A → String) → List A → OrdMap A → OrdMap A
unfolding insert
insert_all key [] m = m
insert_all key (x ∷ xs) m = insert_all key xs (insert (key x) x m)

lookup-insert_all :
    {A : Type 0} (key : A → String) (xs : List A) (m : OrdMap A) (k : String) (x : A)
    → lookup k (insert_all key xs m) ≡ some x
    → (lookup k m ≡ some x) ⊎ (Memᴰ x xs × (key x ≡ k))
unfolding insert_all
lookup-insert_all key [] m k x at = inl at
lookup-insert_all key (y ∷ ys) m k x at =
    elim (lookup-insert_all key ys (insert (key y) y m) k x at) [
      | inr (member, named) ↦ inr (Memᴰ.tail member, named)
      | inl now ↦
          let chosen = sym (lookup-insert (key y) k y m) ∙ now in
          elim (Bool-cases (key y == k)) [
            | inr other_ ↦ inl (ground (arith, chosen, other_))
            | inl here ↦
                let e : y ≡ x = ground (arith, chosen, here) in
                inr (Memᴰ.head (sym e), ap key (sym e) ∙ (eq_iff (key y) k).0 here)
          ]
    ]

check_sources-map :
    (digest : String → String) (xs : List SourceFile) (m : OrdMap SourceFile)
    → (check_sources digest xs m).0 ≡ insert_all (λ s. s.path) xs m
unfolding check_sources insert_all
check_sources-map digest [] m = refl
check_sources-map digest (x ∷ xs) m = check_sources-map digest xs (insert x.path x m)

check_nodes-map :
    (sources : OrdMap SourceFile) (xs : List Node) (m : OrdMap Node)
    → (check_nodes sources xs m).0 ≡ insert_all (λ n. n.id) xs m
unfolding check_nodes insert_all
check_nodes-map sources [] m = refl
check_nodes-map sources (x ∷ xs) m = check_nodes-map sources xs (insert x.id x m)

pub lookup-check_sources :
    (digest : String → String) (xs : List SourceFile) (k : String) (s : SourceFile)
    → lookup k (check_sources digest xs []).0 ≡ some s
    → Memᴰ s xs × (s.path ≡ k)
unfolding lookup
lookup-check_sources digest xs k s at =
    elim (lookup-insert_all (λ s. s.path) xs [] k s
      (ap (lookup k) (sym (check_sources-map digest xs [])) ∙ at)) [
        | inl none_ ↦ absurd (cc)
        | inr found ↦ found
      ]

pub lookup-check_nodes :
    (sources : OrdMap SourceFile) (xs : List Node) (k : String) (n : Node)
    → lookup k (check_nodes sources xs []).0 ≡ some n
    → Memᴰ n xs × (n.id ≡ k)
unfolding lookup
lookup-check_nodes sources xs k n at =
    elim (lookup-insert_all (λ n. n.id) xs [] k n
      (ap (lookup k) (sym (check_nodes-map sources xs [])) ∙ at)) [
        | inl none_ ↦ absurd (cc)
        | inr found ↦ found
      ]
