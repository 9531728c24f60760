-- ===== src/Runner/Cases/Verified.antt =====
-- verification_runner.rs, `cases_from_graph`: the requirements of a case.
use mathlib.Core.List.{Memᴰ}
use kr0ki.Common.{
  String, ◌==◌, false, some, ◌++◌, find, unwrap_or, ◌↔◌, sym, subst, All, eq_iff, ◌≡◌, ◌∙◌, refl,
  ap, Bool, true, ◌&&◌, ◌||◌, Option, List, [], ◌∷◌, any, arith, filter, filter_map, Bool-cases,
  inl, inr, is_some_and, Option-cases,
}
use kr0ki.Common.OrdMap.{lookup}
use kr0ki.Common.Sort.{sort_by, any-sort_by}
use kr0ki.Runner.Cases.{
  Verified, Requirement, Relation, CaseCrates, RequirementGraph, same_verified, dedup,
  compare_verified, verified_by, target_of, case_of,
}

same_verified-path : (v w : Verified) → same_verified v w ≡ true → v ≡ w
unfolding same_verified
same_verified-path (a, b, c) (x, y, z) h =
    let e : a ≡ x = (eq_iff a x).0 (ground (arith, h)) in
    let f : b ≡ y = (eq_iff b y).0 (ground (arith, h)) in
    let g : c ≡ z = (eq_iff c z).0 (ground (arith, h)) in cc

same_verified_self : (v w : Verified) → v ≡ w → same_verified v w ≡ true
unfolding same_verified
same_verified_self (a, b, c) (x, y, z) h =
    let e = (eq_iff a x).1 (ap (λ t. t.0) h) in
    let f = (eq_iff b y).1 (ap (λ t. t.1) h) in
    let g = (eq_iff c z).1 (ap (λ t. t.2) h) in rw (e, f, g) refl

any-dedup : (p : Verified → Bool) (vs : List Verified) → any p (dedup vs) ≡ any p vs
unfolding dedup
any-dedup p [] = refl
any-dedup p (v ∷ []) = refl
any-dedup p (v ∷ w ∷ vs) = elim (Bool-cases (same_verified v w)) [
  | inl same_ ↦
      let e : p v ≡ p w = ap p (same_verified-path v w same_) in
      let rest = any-dedup p (w ∷ vs) in rw same_ (ground (arith, e, rest))
  | inr other_ ↦ rw other_ (ap (λ b. p v || b) (any-dedup p (w ∷ vs)))
]

any-filter_map :
    {A : Type 0} (p : Verified → Bool) (keep : A → Bool) (f : A → Option Verified) (xs : List A)
    → any p (filter_map f (filter keep xs)) ≡ any (λ x. keep x && is_some_and (f x) p) xs
any-filter_map p keep f [] = refl
any-filter_map p keep f (x ∷ xs) =
    let rest = any-filter_map p keep f xs in
    elim (Bool-cases (keep x)) [
      | inr out ↦ rw out rest
      | inl kept ↦ elim (Option-cases (f x)) [
        | inl e ↦ rw (kept, e) rest
        | inr (v, e) ↦ rw (kept, e) (ap (λ b. p v || b) rest)
      ]
    ]

any-true :
    {A : Type 0} (p : A → Bool) (xs : List A) (a : A) → Memᴰ a xs → p a ≡ true → any p xs ≡ true
any-true p [] a there h = elim there [ ]
any-true p (x ∷ xs) a (Memᴰ.head e) h = let f : p x ≡ true = ap p (sym e) ∙ h in ground (arith, f)
any-true p (x ∷ xs) a (Memᴰ.tail later) h = ground (arith, any-true p xs a later h)

any-true_member :
    {A : Type 0} (p : A → Bool) (xs : List A) → any p xs ≡ true → (a : A) × Memᴰ a xs × (p a ≡ true)
any-true_member p [] h = absurd (cc)
any-true_member p (x ∷ xs) h = elim (Bool-cases (p x)) [
  | inl here ↦ (x, Memᴰ.head refl, here)
  | inr not_here ↦
      let (a, there, e) = any-true_member p xs (ground (arith, h, not_here)) in
      (a, Memᴰ.tail there, e)
]

-- The first element of a list that passes a test.
pub record First {A : Type 0} (p : A → Bool) (xs : List A) (a : A) : Type 0 where
  pub front : List A
  pub back : List A
  pub listed : xs ≡ front ++ (a ∷ back)
  pub passes : p a ≡ true
  pub earlier : All (λ b. p b ≡ false) front

find-First : {A : Type 0} (p : A → Bool) (xs : List A) (a : A) → find p xs ≡ some a → First p xs a
find-First p [] a h = absurd (cc)
find-First p (x ∷ xs) a h = elim (Bool-cases (p x)) [
  | inl here ↦
      let e : x ≡ a = ground (arith, h, here) in
      record {
        front = [];
        back = xs;
        listed = ap (λ b. b ∷ xs) e;
        passes = ap p (sym e) ∙ here;
        earlier = tt;
      }
  | inr not_here ↦
      let f = find-First p xs a (ground (arith, h, not_here)) in
      record {
        front = x ∷ f.front;
        back = f.back;
        listed = ap (λ l. x ∷ l) f.listed;
        passes = f.passes;
        earlier = (not_here, f.earlier);
      }
]

find-front :
    {A : Type 0} (p : A → Bool) (front back : List A) (a : A)
    → p a ≡ true
    → All (λ b. p b ≡ false) front
    → find p (front ++ (a ∷ back)) ≡ some a
find-front p [] back a h before = rw h refl
find-front p (b ∷ front) back a h before = rw before.0 (find-front p front back a h before.1)

-- A relation of a graph by which a case verifies a requirement: it is asserted, says that its source
-- verifies its target, and leaves from the case. The requirement is the first of the graph with the
-- id of its target.
pub record Verifies (graph : RequirementGraph) (id : String) (v : Verified) (r : Relation)
    : Type 0 where
  pub asserted : r.is_asserted ≡ true
  pub verifies : r.is_verifies ≡ true
  pub from_case : r.source ≡ id
  pub requirement : Requirement
  pub at_target : First (λ q. q.id == r.target) graph.requirements requirement
  pub as_stated : v ≡ (
    requirement.id,
    requirement.text,
    unwrap_or (lookup "acceptance" requirement.attributes) "",
  )

Verifies-iff :
    (c : CaseCrates) (graph : RequirementGraph) (id : String) (v : Verified) (r : Relation)
    → ((verified_by c id r && is_some_and (target_of c graph r) (same_verified v)) ≡ true)
      ↔ Verifies graph id v r
unfolding verified_by target_of
Verifies-iff c graph id v r = (
  λ h. elim (Option-cases (find (λ q. q.id == r.target) graph.requirements)) [
    | inl none_ ↦ absurd (ground (arith, h, none_))
    | inr (q, e) ↦
        let stated : Verified = (q.id, q.text, unwrap_or (lookup "acceptance" q.attributes) "") in
        let same_ : same_verified v stated ≡ true = ground (arith, h, e) in
        record {
          asserted = ground (arith, h);
          verifies = ground (arith, h);
          from_case = (eq_iff r.source id).0 (ground (arith, h));
          requirement = q;
          at_target = find-First (λ q. q.id == r.target) graph.requirements q e;
          as_stated = same_verified-path v stated same_;
        }
  ],
  λ k.
      let q = k.requirement in
      let e : find (λ q. q.id == r.target) graph.requirements ≡ some q =
        ap (find (λ q. q.id == r.target)) k.at_target.listed
        ∙ find-front _ k.at_target.front k.at_target.back q k.at_target.passes
            k.at_target.earlier in
      let same_ = same_verified_self v _ k.as_stated in
      let from_ = (eq_iff r.source id).1 k.from_case in rw (k.asserted, k.verifies, from_, e) same_,
)

-- A case verifies exactly what the graph asserts that it verifies: a triple is one of its
-- requirements exactly when some relation of the graph is asserted, says that its source verifies its
-- target and leaves from the case, and the triple is the id, the text and the acceptance, empty where
-- there is none, of the first requirement of the graph whose id is the relation's target.
pub case_of-verified :
    (c : CaseCrates) (graph : RequirementGraph) (n : Requirement) (v : Verified)
    → Memᴰ v (case_of c graph n).requirements
      ↔ ((r : Relation) × Memᴰ r graph.relations × Verifies graph n.id v r)
unfolding case_of
case_of-verified c graph n v =
    let p = same_verified v in
    let same_any : any p (case_of c graph n).requirements
        ≡ any (λ r. verified_by c n.id r && is_some_and (target_of c graph r) p) graph.relations =
      any-dedup p (sort_by compare_verified _)
      ∙ any-sort_by compare_verified p _
      ∙ any-filter_map p (verified_by c n.id) (target_of c graph) graph.relations in
    let q : Relation → Bool = λ r. verified_by c n.id r && is_some_and (target_of c graph r) p in
    (
      λ there.
          let in_any = any-true p _ v there (same_verified_self v v refl) in
          let (r, listed, h) = any-true_member q graph.relations (sym same_any ∙ in_any) in
          (r, listed, (Verifies-iff c graph n.id v r).0 h),
      λ (r, listed, k).
          let h = any-true q graph.relations r listed ((Verifies-iff c graph n.id v r).1 k) in
          let (u, there, same_) =
            any-true_member p (case_of c graph n).requirements (same_any ∙ h) in
          subst (λ u. Memᴰ u (case_of c graph n).requirements) (sym (same_verified-path v u same_))
            there,
    )
