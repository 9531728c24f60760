-- ===== src/Sync/Diff/Lookups.antt =====
-- sync_engine.rs, what `diff_managed` knows of the elements and of those that are wanted.
use kr0ki.Common.{
  String, ◌==◌, eq_iff, eq_refl, subst, ◌≡◌, ◌∙◌, refl, ap, Bool, true, ◌||◌, Option, none, some,
  List, [], ◌∷◌, ◌++◌, map, arith, if◌then◌else◌, any, or_else, ◌↔◌, All, Bool-cases, inl, inr,
}
use kr0ki.Common.OrdMap.{
  OrdMap, OrdSet, lookup, contains_key, contains, add, contains-add, lookup-insert,
}
use kr0ki.Sync.Model.{Json, Element, DesiredElement, element_identifier}
use kr0ki.Sync.Diff.{Index, want, note, index, change_for, changes_for, deletions}

-- An identifier is one of some.
abbrev pub occurs : String → List String → Bool
occurs i is = any (λ j. j == i) is

pub want-contains :
    {V : Type 0} (ds : List (DesiredElement V)) (wanted duplicates : OrdSet) (i : String)
    → contains i (want ds (wanted, duplicates)).0
      ≡ (contains i wanted || occurs i (map (λ d. d.identifier) ds))
unfolding want
want-contains [] wanted duplicates i = ground arith
want-contains (d ∷ ds) wanted duplicates i =
    want-contains ds (add d.identifier wanted)
      (if contains d.identifier wanted then add d.identifier duplicates else duplicates) i
    ∙ ap (λ c. c || occurs i (map (λ d. d.identifier) ds)) (contains-add d.identifier i wanted)
    ∙ ground arith

module _ {V : Type 0} (x : Json V) where
  -- The last element that has an identifier, given that of the first one.
  abbrev pub named_one : Option String → Element V → String → Option (Element V)
  named_one none e i = none
  named_one (some j) e i = if j == i then some e else none

  unfoldable pub element_named : String → List (Element V) → Option (Element V)
  element_named i [] = none
  element_named i (e ∷ es) = or_else (element_named i es) (named_one (element_identifier x e) e i)

  note-lookup :
      (o : Option String) (e : Element V) (acc : Index V) (i : String)
      → lookup i (note x o e acc).by_identifier
        ≡ or_else (named_one o e i) (lookup i acc.by_identifier)
  unfolding note
  note-lookup none e acc i = refl
  note-lookup (some j) e acc i = lookup-insert j i e acc.by_identifier ∙ ground arith

  or_else_assoc :
      {A : Type 0} (a b c : Option A) → or_else a (or_else b c) ≡ or_else (or_else a b) c
  or_else_assoc none b c = refl
  or_else_assoc (some a) b c = refl

  pub index-lookup :
      (es : List (Element V)) (acc : Index V) (i : String)
      → lookup i (index x es acc).by_identifier
        ≡ or_else (element_named i es) (lookup i acc.by_identifier)
  unfolding index element_named
  index-lookup [] acc i = refl
  index-lookup (e ∷ es) acc i =
      index-lookup es (note x (element_identifier x e) e acc) i
      ∙ ap (or_else (element_named i es)) (note-lookup (element_identifier x e) e acc i)
      ∙ or_else_assoc (element_named i es) (named_one (element_identifier x e) e i)
          (lookup i acc.by_identifier)

append-none : {A : Type 0} (xs ys : List A) → xs ++ ys ≡ [] → (xs ≡ []) × (ys ≡ [])
append-none [] ys h = (refl, h)
append-none (x ∷ xs) ys h = absurd (cc)

pub append-none_iff : {A : Type 0} (xs ys : List A) → (xs ++ ys ≡ []) ↔ ((xs ≡ []) × (ys ≡ []))
append-none_iff xs ys = (append-none xs ys, λ (p, q). rw (p, q) refl)

pub changes_for_iff :
    {V : Type 0} (x : Json V) (by : OrdMap (Element V)) (ds : List (DesiredElement V))
    → (changes_for x by ds ≡ []) ↔ All (λ d. change_for x (lookup d.identifier by) d ≡ []) ds
unfolding changes_for
changes_for_iff x by [] = (λ h. tt, λ h. refl)
changes_for_iff x by (d ∷ ds) =
    let (into, back) = changes_for_iff x by ds in
    let (split, join_) =
      append-none_iff (change_for x (lookup d.identifier by) d) (changes_for x by ds) in
    (λ h. ((split h).0, into (split h).1), λ (one, more). join_ (one, back more))

keys_cons :
    {V : Type 0} (wanted : OrdSet) (j : String) (e : Element V) (by : OrdMap (Element V))
    (i : String)
    → contains j wanted ≡ true
    → ((i : String) → contains_key i by ≡ true → contains i wanted ≡ true)
    → contains_key i ((j, e) ∷ by) ≡ true
    → contains i wanted ≡ true
unfolding lookup
keys_cons wanted j e by i kept rest there = elim (Bool-cases (j == i)) [
  | inl same_ ↦ subst (λ k. contains k wanted ≡ true) ((eq_iff j i).0 same_) kept
  | inr other_ ↦ rest i (ground (arith, there, other_))
]

key-cons :
    {V : Type 0} (j : String) (e : Element V) (by : OrdMap (Element V)) (i : String)
    → contains_key i by ≡ true
    → contains_key i ((j, e) ∷ by) ≡ true
unfolding lookup
key-cons j e by i there = ground (arith, there)

key-first :
    {V : Type 0} (j : String) (e : Element V) (by : OrdMap (Element V))
    → contains_key j ((j, e) ∷ by) ≡ true
unfolding lookup
key-first j e by = rw (eq_refl j) refl

-- Every key of a map is in a set.
pub deletions_iff :
    {V : Type 0} (wanted : OrdSet) (by : OrdMap (Element V))
    → (deletions wanted by ≡ [])
      ↔ ((i : String) → contains_key i by ≡ true → contains i wanted ≡ true)
unfolding deletions lookup
deletions_iff wanted [] = (λ h i there. absurd (cc), λ h. refl)
deletions_iff wanted ((j, e) ∷ by) =
    let (into, back) = deletions_iff wanted by in
    elim (Bool-cases (contains j wanted)) [
      | inl kept ↦ rw kept (
        λ h i there. keys_cons wanted j e by i kept (into h) there,
        λ h. back (λ i there. h i (key-cons j e by i there)),
      )
      | inr gone ↦
          rw gone (λ h. absurd (cc), λ h. let there = h j (key-first j e by) in absurd (cc))
    ]
