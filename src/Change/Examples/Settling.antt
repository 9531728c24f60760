-- ===== src/Change/Examples/Settling.antt =====
-- A requirement that was renamed is set right once.
use kr0ki.Common.{
  ◌↔◌, All, eq_refl, ◌||◌, subst, map, String, ◌≡◌, refl, true, some, List, [], ◌∷◌, filter_map,
}
use kr0ki.Common.Results.{ok}
use kr0ki.Common.OrdMap.{lookup}
use kr0ki.Sync.Model.{Fields, Element, DesiredElement, element_identifier}
use kr0ki.Sync.Diff.{diff_managed, change_for, updated_payload, owned_field_differs}
use kr0ki.Sync.Diff.Lookups.{occurs}
use kr0ki.Sync.Diff.Settlement.{IsThere, identifiers, diff_managed-settled_iff}
use kr0ki.Sync.Diff.Duplicates.{is_refused, repeats, diff_managed-repeats}
use kr0ki.Change.Settling.{JsonLaws, IsWritable, change_for-settles}
use kr0ki.Change.InMemory.{element_of}
use kr0ki.Change.Examples.{Value, text, texts, equal_texts, equal, as_text, values, numeral, wanted}

equal_texts_refl : (ss : List String) → equal_texts ss ss ≡ true
unfolding equal_texts
equal_texts_refl [] = refl
equal_texts_refl (s ∷ ss) = rw (eq_refl s) (equal_texts_refl ss)

equal_refl : (v : Value) → equal v v ≡ true
unfolding equal
equal_refl (text s) = eq_refl s
equal_refl (texts ss) = equal_texts_refl ss

values_laws : JsonLaws values
unfolding as_text
values_laws = record { eq_self = equal_refl; text_back = λ s. refl }

abbrev requirement : DesiredElement Value
requirement = record {
  identifier = "req:a";
  type_ = "Requirement";
  fields = ("name", text "A") ∷ [];
}

-- An element that another name was given to.
abbrev renamed : Element Value
renamed = record {
  at_id = "el-1";
  at_type = "Requirement";
  fields = ("identifier", text "req:a") ∷ ("name", text "B") ∷ [];
}

requirement-IsWritable : IsWritable requirement.fields
unfolding lookup
requirement-IsWritable = record {
  map_ = (refl, tt);
  no_type = refl;
  no_id = refl;
  no_identifier = refl;
  no_alias = refl;
}

named_so : (e : Element Value) → some renamed ≡ some e → element_identifier values e ≡ some "req:a"
unfolding element_identifier lookup as_text
named_so e h =
    let same : renamed ≡ e = cc in subst (λ e. element_identifier values e ≡ some "req:a") same refl

abbrev updated : Fields Value
updated = updated_payload values renamed requirement

change_for-settles_example :
    (element_identifier values (element_of values numeral ("el-1", updated)) ≡ some "req:a")
    × (change_for values (some (element_of values numeral ("el-1", updated))) requirement ≡ [])
unfolding change_for owned_field_differs lookup equal
change_for-settles_example =
    change_for-settles values numeral requirement (some renamed) updated "el-1" values_laws
      requirement-IsWritable named_so refl

diff_managed-repeats_example : is_refused (diff_managed values (renamed ∷ renamed ∷ []) wanted) ≡ (
    repeats (filter_map (element_identifier values) (renamed ∷ renamed ∷ []))
    || repeats (map (λ (d : DesiredElement Value). d.identifier) wanted))
diff_managed-repeats_example = diff_managed-repeats values (renamed ∷ renamed ∷ []) wanted

abbrev settled : Element Value
settled = record renamed { fields = ("identifier", text "req:a") ∷ ("name", text "A") ∷ [] }

diff_managed-settled_iff_example : (diff_managed values (settled ∷ []) wanted ≡ ok []) ↔ (
    All (IsThere values (settled ∷ [])) wanted
    × ((i : String)
        → occurs i (identifiers values (settled ∷ [])) ≡ true
        → occurs i ("req:a" ∷ []) ≡ true))
unfolding element_identifier lookup as_text repeats
diff_managed-settled_iff_example = diff_managed-settled_iff values (settled ∷ []) wanted refl refl

nothing_to_do : diff_managed values (settled ∷ []) wanted ≡ ok []
unfolding diff_managed lookup kr0ki.Common.OrdMap.contains element_identifier as_text
    kr0ki.Common.OrdMap.insert equal kr0ki.Common.OrdMap.add
nothing_to_do = refl
