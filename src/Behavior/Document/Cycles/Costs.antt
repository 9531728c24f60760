-- ===== src/Behavior/Document/Cycles/Costs.antt =====
-- crates/kr0ki-behavior/src/validation.rs, `containment_cycles`: what is still to be visited.
use kr0ki.Common.{
  ℕ, suc, ◌+◌, ◌≤◌, String, ◌==◌, eq_iff, eq_refl, ◌≡◌, ◌∙◌, refl, true, false, List, [], ◌∷◌,
  arith, if◌then◌else◌, length, Bool-cases, inl, inr,
}
use kr0ki.Common.OrdMap.{OrdSet, contains, add, contains-add, contains-nil}
use kr0ki.Behavior.Document.Cycles.{Contains, forward, cost}

-- Visiting one more vertex takes its turns off the cost, if it is one of the list.
cost-add_le :
    (m : Contains) (k : String) (ks : List String) (visited : OrdSet)
    → cost m ks (add k visited) ≤ cost m ks visited
unfolding cost
cost-add_le m k [] visited = omega arith
cost-add_le m k (j ∷ ks) visited =
    let more = cost-add_le m k ks visited in ground (arith, more, contains-add k j visited)

pub cost-add :
    (m : Contains) (k : String) (ks : List String) (visited : OrdSet)
    → contains k ks ≡ true
    → contains k visited ≡ false
    → cost m ks (add k visited) + suc (length (forward m k)) ≤ cost m ks visited
unfolding cost contains
cost-add m k [] visited member fresh = absurd (cc)
cost-add m k (j ∷ ks) visited member fresh = elim (Bool-cases (j == k)) [
  | inl same_ ↦
      let e : j ≡ k = (eq_iff j k).0 same_ in
      let rest = cost-add_le m k ks visited in
      let now : contains k (add k visited) ≡ true =
        contains-add k k visited ∙ rw (eq_refl k) refl in
      rw (e, now, fresh) (omega (arith, rest))
  | inr other_ ↦
      let rest = cost-add m k ks visited (ground (arith, member, other_)) fresh in
      let there : contains j (add k visited) ≡ contains j visited =
        contains-add k j visited ∙ ground (arith, other_, eq_iff k j, eq_iff j k) in
      rw there (omega (arith, rest))
]

-- The vertices that are still to be visited.
abbrev pub unvisited : List String → OrdSet → ℕ
unvisited [] visited = 0
unvisited (k ∷ ks) visited = (if contains k visited then 0 else 1) + unvisited ks visited

unvisited-add_le :
    (k : String) (ks : List String) (visited : OrdSet)
    → unvisited ks (add k visited) ≤ unvisited ks visited
unvisited-add_le k [] visited = omega arith
unvisited-add_le k (j ∷ ks) visited =
    let more = unvisited-add_le k ks visited in ground (arith, more, contains-add k j visited)

pub unvisited-add :
    (k : String) (ks : List String) (visited : OrdSet)
    → contains k ks ≡ true
    → contains k visited ≡ false
    → unvisited ks (add k visited) + 1 ≤ unvisited ks visited
unfolding contains
unvisited-add k [] visited member fresh = absurd (cc)
unvisited-add k (j ∷ ks) visited member fresh = elim (Bool-cases (j == k)) [
  | inl same_ ↦
      let e : j ≡ k = (eq_iff j k).0 same_ in
      let rest = unvisited-add_le k ks visited in
      let now : contains k (add k visited) ≡ true =
        contains-add k k visited ∙ rw (eq_refl k) refl in
      rw (e, now, fresh) (omega (arith, rest))
  | inr other_ ↦
      let rest = unvisited-add k ks visited (ground (arith, member, other_)) fresh in
      let there : contains j (add k visited) ≡ contains j visited =
        contains-add k j visited ∙ ground (arith, other_, eq_iff k j, eq_iff j k) in
      rw there (omega (arith, rest))
]

pub unvisited-cost :
    (m : Contains) (ids : List String) (visited : OrdSet)
    → unvisited ids visited ≤ cost m ids visited
unfolding cost
unvisited-cost m [] visited = omega arith
unvisited-cost m (k ∷ ks) visited = let more = unvisited-cost m ks visited in ground (arith, more)

pub cost-nil :
    (m : Contains) (ids : List String) (visited : OrdSet) → cost m ids visited ≤ cost m ids []
unfolding cost
cost-nil m [] visited = omega arith
cost-nil m (k ∷ ks) visited =
    let more = cost-nil m ks visited in ground (arith, more, contains-nil k)
