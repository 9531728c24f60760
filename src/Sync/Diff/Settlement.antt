-- ===== src/Sync/Diff/Settlement.antt =====
-- sync_engine.rs, `diff_managed`: when it finds nothing to change.
use kr0ki.Common.{
  String, ◌≡◌, ◌∙◌, refl, sym, ap, subst, true, false, Option, none, some, List, [], ◌∷◌, ◌++◌, map,
  arith, is_some, or_else, filter_map, ◌↔◌, All, Bool-cases, Option-cases, inl, inr, not, ◌⊎◌,
}
use kr0ki.Common.Results.{ok}
use kr0ki.Common.OrdMap.{lookup, contains_key, contains}
use kr0ki.Sync.Model.{Json, Fields, Element, DesiredElement, element_identifier}
use kr0ki.Sync.Diff.{
  want, index, field_differs, change_for, changes_for, deletions, owned_field_differs, diff_managed,
}
use kr0ki.Sync.Diff.Duplicates.{repeats, empty_index, diff_managed_distinct}
use kr0ki.Sync.Diff.Lookups.{
  occurs, want-contains, named_one, element_named, index-lookup, append-none_iff, changes_for_iff,
  deletions_iff,
}

or_else-none : {A : Type 0} (o : Option A) → or_else o none ≡ o
or_else-none none = refl
or_else-none (some a) = refl

some_path : {A : Type 0} {a b : A} → some a ≡ some b → a ≡ b
some_path h = cc

module _ {V : Type 0} (x : Json V) where
  -- An element has a field that is wanted: with an equal value, or not at all if the element has no
  -- field `identifier`, as those of a server that stores only the fields of its own schema.
  abbrev pub HasField : Element V → String × V → Type 0
  HasField e (k, v) =
      ((have : V) × (lookup k e.fields ≡ some have) × (x.eq have v ≡ true))
      ⊎ ((lookup k e.fields ≡ none) × (lookup "identifier" e.fields ≡ none))

  -- An element that is wanted is there, with the fields that are wanted.
  abbrev pub IsThere : List (Element V) → DesiredElement V → Type 0
  IsThere existing d =
      (e : Element V) × (element_named x d.identifier existing ≡ some e) × All (HasField e) d.fields

  field_differs_iff :
      (e : Element V) (k : String) (v : V)
      → (field_differs x (not (contains_key "identifier" e.fields)) v (lookup k e.fields) ≡ false)
        ↔ HasField e (k, v)
  unfolding field_differs
  field_differs_iff e k v = elim (Option-cases (lookup k e.fields)) [
    | inr (have, at) ↦ rw at (
      λ h. inl (have, refl, ground (arith, h)),
      λ o. elim o [
        | inl (other_, same_, h) ↦
            let g : x.eq have v ≡ true = subst (λ u. x.eq u v ≡ true) (some_path (sym same_)) h in
            rw g refl
        | inr (absent, no_identifier) ↦ absurd (cc)
      ],
    )
    | inl none_ ↦ elim (Option-cases (lookup "identifier" e.fields)) [
      | inl loose ↦ (λ h. inr (none_, loose), λ o. rw (none_, loose) refl)
      | inr (i, named) ↦ (
        λ h. absurd (ground (arith, h, none_, named)),
        λ o. elim o [ inl (have, at, h) ↦ absurd (cc) | inr (absent, no_identifier) ↦ absurd (cc) ],
      )
    ]
  ]

  owned_field_differs_iff :
      (e : Element V) (fields : Fields V)
      → (owned_field_differs x e fields ≡ false) ↔ All (HasField e) fields
  unfolding owned_field_differs
  owned_field_differs_iff e [] = (λ h. tt, λ h. refl)
  owned_field_differs_iff e ((k, v) ∷ fields) =
      let (into, back) = owned_field_differs_iff e fields in
      let (has, same_) = field_differs_iff e k v in
      (
        λ h. (has (ground (arith, h)), into (ground (arith, h))),
        λ (f, fs). let here = same_ f in let more = back fs in ground (arith, here, more),
      )

  abbrev pub identifiers : List (Element V) → List String
  identifiers existing = filter_map (element_identifier x) existing

  change_for_iff :
      (o : Option (Element V)) (d : DesiredElement V)
      → (change_for x o d ≡ []) ↔ ((e : Element V) × (o ≡ some e) × All (HasField e) d.fields)
  unfolding change_for
  change_for_iff none d = (λ h. absurd (cc), λ (e, h, same_). absurd (cc))
  change_for_iff (some c) d =
      let (into, back) = owned_field_differs_iff c d.fields in
      elim (Bool-cases (owned_field_differs x c d.fields)) [
        | inl differs ↦ rw differs (
          λ h. absurd (cc),
          λ (e, h, has).
              let same_ = back (subst (λ c. All (HasField c) d.fields) (some_path (sym h)) has) in
              absurd (ground (arith, same_, differs)),
        )
        | inr same_ ↦ rw same_ (λ h. (c, refl, into same_), λ h. refl)
      ]

  occurs-cons :
      (o : Option String) (e : Element V) (i : String) (more : Option (Element V))
      (is : List String)
      → is_some more ≡ occurs i is
      → is_some (or_else more (named_one x o e i))
        ≡ occurs i (elim o [ none ↦ is | some j ↦ j ∷ is ])
  occurs-cons none e i none is h = h
  occurs-cons none e i (some m) is h = h
  occurs-cons (some j) e i none is h = ground (arith, h)
  occurs-cons (some j) e i (some m) is h = ground (arith, h)

  element_named-occurs :
      (i : String) (es : List (Element V))
      → is_some (element_named x i es) ≡ occurs i (identifiers es)
  unfolding element_named
  element_named-occurs i [] = refl
  element_named-occurs i (e ∷ es) =
      occurs-cons (element_identifier x e) e i (element_named x i es) (identifiers es)
        (element_named-occurs i es)

  -- The lookups in the index are those in the list.
  lookup-named :
      (existing : List (Element V)) (i : String)
      → lookup i (index x existing empty_index).by_identifier ≡ element_named x i existing
  unfolding lookup
  lookup-named existing i =
      index-lookup x existing empty_index i ∙ or_else-none (element_named x i existing)

  All_iff :
      {A : Type 0} (P Q : A → Type 0) (xs : List A) → ((a : A) → P a ↔ Q a) → All P xs ↔ All Q xs
  All_iff P Q [] h = (λ p. tt, λ q. tt)
  All_iff P Q (a ∷ xs) h =
      let (into, back) = All_iff P Q xs h in
      (λ (p, ps). ((h a).0 p, into ps), λ (q, qs). ((h a).1 q, back qs))

  nothing_made :
      (existing : List (Element V)) (desired : List (DesiredElement V))
      → (changes_for x (index x existing empty_index).by_identifier desired ≡ [])
        ↔ All (IsThere existing) desired
  nothing_made existing desired =
      let by = (index x existing empty_index).by_identifier in
      let (into, back) = changes_for_iff x by desired in
      let (out, home) =
        All_iff (λ d. change_for x (lookup d.identifier by) d ≡ []) (IsThere existing) desired
          (λ d.
            subst
              (λ o.
                (change_for x (lookup d.identifier by) d ≡ [])
                ↔ ((e : Element V) × (o ≡ some e) × All (HasField e) d.fields))
              (lookup-named existing d.identifier) (change_for_iff (lookup d.identifier by) d)) in
      (λ h. out (into h), λ h. back (home h))

  nothing_deleted :
      (existing : List (Element V)) (desired : List (DesiredElement V))
      → let found = index x existing empty_index in
        (deletions (want desired ([], found.duplicates)).0 found.by_identifier ≡ []) ↔ (
          (i : String)
          → occurs i (identifiers existing) ≡ true
          → occurs i (map (λ d. d.identifier) desired) ≡ true)
  unfolding contains
  nothing_deleted existing desired =
      let found = index x existing empty_index in
      let (into, back) =
        deletions_iff (want desired ([], found.duplicates)).0 found.by_identifier in
      let key : (i : String)
          → contains_key i found.by_identifier ≡ occurs i (identifiers existing) =
        λ i. ap is_some (lookup-named existing i) ∙ element_named-occurs i existing in
      let wanted = want-contains desired [] found.duplicates in
      (
        λ h i there. sym (wanted i) ∙ into h i (key i ∙ there),
        λ h. back (λ i there. wanted i ∙ h i (sym (key i) ∙ there)),
      )

-- When no identifier is repeated, `diff_managed` finds nothing to change exactly when for every
-- element that is wanted one with its identifier is there, which has every wanted field with an equal
-- value, and every identifier of an element that is there is wanted. A wanted field may also be
-- missing from an element that has no field `identifier`.
pub diff_managed-settled_iff :
    {V : Type 0} (x : Json V) (existing : List (Element V)) (desired : List (DesiredElement V))
    → repeats (identifiers x existing) ≡ false
    → repeats (map (λ d. d.identifier) desired) ≡ false
    → (diff_managed x existing desired ≡ ok []) ↔ (
        All (IsThere x existing) desired
        × ((i : String)
            → occurs i (identifiers x existing) ≡ true
            → occurs i (map (λ d. d.identifier) desired) ≡ true))
diff_managed-settled_iff x existing desired once_ wanted_once =
    let found = index x existing empty_index in
    let made = changes_for x found.by_identifier desired in
    let gone = deletions (want desired ([], found.duplicates)).0 found.by_identifier in
    let answer = diff_managed_distinct x existing desired once_ wanted_once in
    let (split, join_) = append-none_iff made gone in
    let (there, settled) = nothing_made x existing desired in
    let (kept, whole) = nothing_deleted x existing desired in
    (
      λ h.
          let both : ok (made ++ gone) ≡ ok [] = sym answer ∙ h in
          let empty_ : made ++ gone ≡ [] = cc in (there (split empty_).0, kept (split empty_).1),
      λ (a, b). answer ∙ ap ok (join_ (settled a, whole b)),
    )
