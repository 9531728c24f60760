-- ===== src/Sync/Diff/Duplicates.antt =====
-- sync_engine.rs, `diff_managed`: when it refuses its input.
use mathlib.Core.Path.{fun_ext}
use kr0ki.Common.{
  String, ◌==◌, ◌≡◌, ◌∙◌, refl, ap, ap₂, Bool, true, false, not, ◌&&◌, ◌||◌, Option, none, some,
  List, [], ◌∷◌, ◌++◌, map, arith, if◌then◌else◌, any, is_some, is_empty, filter_map,
}
use kr0ki.Common.Results.{Result, ok, err}
use kr0ki.Common.OrdMap.{
  OrdMap, OrdSet, lookup, insert, contains_key, contains, add, contains-add, lookup-insert,
}
use kr0ki.Sync.Model.{Json, Element, DesiredElement, element_identifier}
use kr0ki.Sync.Diff.{DiffError, Index, want, note, index, diff_managed, changes_for, deletions}

-- A text occurs twice.
unfoldable pub repeats : List String → Bool
repeats [] = false
repeats (s ∷ ss) = any (λ t. s == t) ss || repeats ss

-- A text was seen before, or occurs twice.
clashes : (String → Bool) → List String → Bool
clashes seen [] = false
clashes seen (s ∷ ss) = seen s || clashes (λ t. if s == t then true else seen t) ss

any-seen :
    (s : String) (seen : String → Bool) (ss : List String)
    → any (λ t. if s == t then true else seen t) ss ≡ (any (λ t. s == t) ss || any seen ss)
any-seen s seen [] = refl
any-seen s seen (t ∷ ss) = ground (arith, any-seen s seen ss)

clashes-repeats :
    (seen : String → Bool) (ss : List String) → clashes seen ss ≡ (any seen ss || repeats ss)
unfolding clashes repeats
clashes-repeats seen [] = refl
clashes-repeats seen (s ∷ ss) =
    ground (arith, clashes-repeats (λ t. if s == t then true else seen t) ss, any-seen s seen ss)

any_none : (ss : List String) → any (λ t. false) ss ≡ false
any_none [] = refl
any_none (s ∷ ss) = any_none ss

is_empty-add : (s : String) (ss : OrdSet) → is_empty (add s ss) ≡ false
unfolding add
is_empty-add s [] = refl
is_empty-add s (t ∷ ss) = ground arith

noted_empty :
    (twice rest : Bool) (i : String) (duplicates : OrdSet)
    → (is_empty (if twice then add i duplicates else duplicates) && not rest)
      ≡ (is_empty duplicates && not (twice || rest))
noted_empty true rest i duplicates = ground (arith, is_empty-add i duplicates)
noted_empty false rest i duplicates = refl

want-empty :
    {V : Type 0} (ds : List (DesiredElement V)) (wanted duplicates : OrdSet)
    → is_empty (want ds (wanted, duplicates)).1
      ≡ (is_empty duplicates && not (clashes (λ t. contains t wanted) (map (λ d. d.identifier) ds)))
unfolding want clashes
want-empty [] wanted duplicates = ground arith
want-empty (d ∷ ds) wanted duplicates =
    let i = d.identifier in
    let is = map (λ d. d.identifier) ds in
    let seen = ap (λ seen. clashes seen is) (fun_ext (λ t. contains-add i t wanted)) in
    let more = if contains i wanted then add i duplicates else duplicates in
    let rest = clashes (λ t. if i == t then true else contains t wanted) is in
    want-empty ds (add i wanted) more
    ∙ ap (λ c. is_empty more && not c) seen
    ∙ noted_empty (contains i wanted) rest i duplicates

contains_key-insert :
    {V : Type 0} (i : String) (v : V) (m : OrdMap V) (t : String)
    → contains_key t (insert i v m) ≡ (if i == t then true else contains_key t m)
contains_key-insert i v m t = ap is_some (lookup-insert i t v m) ∙ ground arith

note-empty :
    {V : Type 0} (x : Json V) (o : Option String) (e : Element V) (es : List (Element V))
    (acc : Index V)
    → ((acc : Index V)
        → is_empty (index x es acc).duplicates ≡ (
            is_empty acc.duplicates
            && not (
                clashes
                  (λ t. contains_key t acc.by_identifier)
                  (filter_map (element_identifier x) es))))
    → is_empty (index x es (note x o e acc)).duplicates ≡ (
        is_empty acc.duplicates
        && not (
            clashes
              (λ t. contains_key t acc.by_identifier)
              (elim o [
                | none ↦ filter_map (element_identifier x) es
                | some i ↦ i ∷ filter_map (element_identifier x) es
              ])))
unfolding note clashes
note-empty x none e es acc rest_ = rest_ acc
note-empty x (some i) e es acc rest_ =
    let is = filter_map (element_identifier x) es in
    let m = acc.by_identifier in
    let seen = ap (λ seen. clashes seen is) (fun_ext (λ t. contains_key-insert i e m t)) in
    let more = if contains_key i m then add i acc.duplicates else acc.duplicates in
    let rest = clashes (λ t. if i == t then true else contains_key t m) is in
    rest_ (note x (some i) e acc)
    ∙ ap (λ c. is_empty more && not c) seen
    ∙ noted_empty (contains_key i m) rest i acc.duplicates

index-empty :
    {V : Type 0} (x : Json V) (es : List (Element V)) (acc : Index V)
    → is_empty (index x es acc).duplicates ≡ (
        is_empty acc.duplicates
        && not (
            clashes (λ t. contains_key t acc.by_identifier) (filter_map (element_identifier x) es)))
unfolding index clashes
index-empty x [] acc = ground arith
index-empty x (e ∷ es) acc = note-empty x (element_identifier x e) e es acc (index-empty x es)

unfoldable pub is_refused : {V : Type 0} → Result V DiffError → Bool
is_refused (ok v) = false
is_refused (err e) = true

refused_if :
    {V : Type 0} (fine : Bool) (e : DiffError) (v : V)
    → is_refused (if not fine then err e else ok v) ≡ not fine
unfolding is_refused
refused_if true e v = refl
refused_if false e v = refl

abbrev pub empty_index : {V : Type 0} → Index V
empty_index = record { by_identifier = []; duplicates = [] }

-- The duplicates that are found are of texts that occur twice.
pub no_duplicates :
    {V : Type 0} (x : Json V) (existing : List (Element V)) (desired : List (DesiredElement V))
    → is_empty (want desired ([], (index x existing empty_index).duplicates)).1 ≡ (
        not (repeats (filter_map (element_identifier x) existing))
        && not (repeats (map (λ d. d.identifier) desired)))
unfolding contains lookup
no_duplicates x existing desired =
    let found = index x existing empty_index in
    let is = filter_map (element_identifier x) existing in
    let js = map (λ d. d.identifier) desired in
    let first_ = index-empty x existing empty_index in
    let both = want-empty desired [] found.duplicates in
    let left_ : clashes (λ t. false) is ≡ repeats is =
      clashes-repeats (λ t. false) is ∙ ap (λ b. b || repeats is) (any_none is) in
    let right_ : clashes (λ t. false) js ≡ repeats js =
      clashes-repeats (λ t. false) js ∙ ap (λ b. b || repeats js) (any_none js) in
    both ∙ ap₂ (λ a b. a && not b) (first_ ∙ ap not left_) right_

-- `diff_managed` refuses its input exactly when two elements that exist have one identifier, or two
-- that are wanted.
pub diff_managed-repeats :
    {V : Type 0} (x : Json V) (existing : List (Element V)) (desired : List (DesiredElement V))
    → is_refused (diff_managed x existing desired) ≡ (
        repeats (filter_map (element_identifier x) existing)
        || repeats (map (λ d. d.identifier) desired))
unfolding diff_managed is_refused
diff_managed-repeats x existing desired =
    refused_if (is_empty (want desired ([], (index x existing empty_index).duplicates)).1) _ _
    ∙ ap not (no_duplicates x existing desired)
    ∙ ground arith

-- Input that is not refused is answered with the changes for what is wanted and the deletions of
-- what is not.
pub diff_managed_distinct :
    {V : Type 0} (x : Json V) (existing : List (Element V)) (desired : List (DesiredElement V))
    → repeats (filter_map (element_identifier x) existing) ≡ false
    → repeats (map (λ d. d.identifier) desired) ≡ false
    → diff_managed x existing desired
      ≡ ok (
          changes_for x (index x existing empty_index).by_identifier desired
          ++ deletions
              (want desired ([], (index x existing empty_index).duplicates)).0
              (index x existing empty_index).by_identifier)
unfolding diff_managed
diff_managed_distinct x existing desired once_ wanted_once =
    let fine : is_empty (want desired ([], (index x existing empty_index).duplicates)).1 ≡ true =
      no_duplicates x existing desired ∙ rw (once_, wanted_once) refl in
    rw fine refl
