-- ===== src/Change/Settling.antt =====
-- sync_engine.rs and change_service.rs: a payload, as the in-memory server stores it, against the
-- diff that made it.
use kr0ki.Common.{
  ℕ, String, ◌==◌, eq_iff, ◌≡◌, ◌∙◌, refl, sym, ap, subst, inl, inr, true, false, Option, none,
  some, List, [], ◌∷◌, arith, Bool-cases,
}
use kr0ki.Common.OrdMap.{lookup, insert, remove, lookup-insert, lookup-remove}
use kr0ki.Sync.Model.{Json, Fields, Element, DesiredElement, DataVersion, element_identifier}
use kr0ki.Sync.Diff.{
  data_version, owned_field_differs, created_payload, updated_payload, change_for,
}
use kr0ki.Sync.Diff.Settled.{IsMap, Holds-from, Holds-refl, lookup-extend, change_for-Holds}
use kr0ki.Change.InMemory.{element_of}

-- What is relied on of JSON values.
pub record JsonLaws {V : Type 0} (x : Json V) : Type 0 where
  pub eq_self : (v : V) → x.eq v v ≡ true
  pub text_back : (s : String) → x.as_text (x.of_text s) ≡ some s

-- The fields of an element that is wanted: a map without the keys that the sync or the server
-- writes itself.
pub record IsWritable {V : Type 0} (fields : Fields V) : Type 0 where
  pub map_ : IsMap fields
  pub no_type : lookup "@type" fields ≡ none
  pub no_id : lookup "@id" fields ≡ none
  pub no_identifier : lookup "identifier" fields ≡ none
  pub no_alias : lookup "aliasIds" fields ≡ none

module _ {V : Type 0} (x : Json V) (show : ℕ → String) (laws : JsonLaws x) (d : DesiredElement V)
    (writable : IsWritable d.fields) where
  -- A payload has the fields that are wanted.
  abbrev Covers : Fields V → Type 0
  Covers p = (k : String) (v : V) → lookup k d.fields ≡ some v → lookup k p ≡ some v

  stored-Covers : (p : Fields V) → Covers p → Covers (remove "@type" (remove "@id" p))
  stored-Covers p covers k v at =
      let had = covers k v at in
      ground (
        arith,
        eq_iff "@type" k,
        eq_iff "@id" k,
        lookup-remove "@type" k (remove "@id" p),
        lookup-remove "@id" k p,
        had,
        at,
        writable.no_type,
        writable.no_id,
      )

  Covers-settles :
      (id : String) (p : Fields V)
      → Covers p
      → change_for x (some (element_of x show (id, p))) d ≡ []
  unfolding element_of
  Covers-settles id p covers = change_for-Holds x laws.eq_self (element_of x show (id, p)) d (
      Holds-from d.fields (remove "@type" (remove "@id" p)) d.fields (stored-Covers p covers)
        (Holds-refl d.fields writable.map_))

  insert-Covers :
      (key : String) (value : V) (p : Fields V)
      → lookup key d.fields ≡ none
      → Covers p
      → Covers (insert key value p)
  insert-Covers key value p free covers k v at =
      let had = covers k v at in
      ground (arith, eq_iff key k, lookup-insert key k value p, had, at, free)

  created-Covers : Covers (created_payload x d)
  unfolding created_payload
  created-Covers =
      insert-Covers "aliasIds" (x.of_list (x.of_text d.identifier ∷ []))
        (insert "identifier" (x.of_text d.identifier) (insert "@type" (x.of_text d.type_) d.fields))
        writable.no_alias
        (insert-Covers "identifier" (x.of_text d.identifier)
          (insert "@type" (x.of_text d.type_) d.fields) writable.no_identifier
          (insert-Covers "@type" (x.of_text d.type_) d.fields writable.no_type (λ k v at. at)))

  updated-Covers : (current : Element V) → Covers (updated_payload x current d)
  unfolding updated_payload
  updated-Covers current k v at =
      lookup-extend d.fields (insert "@type" (x.of_text current.at_type) current.fields) k
        writable.map_
      ∙ rw at refl

  -- What the server stores of a payload has the payload's identifiers.
  stored-lookup :
      (id key : String) (p : Fields V)
      → ("@type" == key) ≡ false
      → ("@id" == key) ≡ false
      → lookup key (element_of x show (id, p)).fields ≡ lookup key p
  unfolding element_of
  stored-lookup id key p type_ id_ =
      ground
        (arith, lookup-remove "@type" key (remove "@id" p), lookup-remove "@id" key p, type_, id_)

  created-identifier :
      (id : String)
      → element_identifier x (element_of x show (id, created_payload x d)) ≡ some d.identifier
  unfolding element_identifier created_payload
  created-identifier id =
      let p =
        insert "identifier" (x.of_text d.identifier)
          (insert "@type" (x.of_text d.type_) d.fields) in
      let alias = x.of_list (x.of_text d.identifier ∷ []) in
      let at : lookup "identifier" (element_of x show (id, created_payload x d)).fields
          ≡ some (x.of_text d.identifier) =
        stored-lookup id "identifier" (created_payload x d) refl refl
        ∙ lookup-insert "aliasIds" "identifier" alias p
        ∙ lookup-insert "identifier" "identifier" (x.of_text d.identifier)
            (insert "@type" (x.of_text d.type_) d.fields) in
      rw (at, laws.text_back d.identifier) refl

  updated-lookup :
      (current : Element V) (id key : String)
      → ("@type" == key) ≡ false
      → ("@id" == key) ≡ false
      → lookup key d.fields ≡ none
      → lookup key (element_of x show (id, updated_payload x current d)).fields
        ≡ lookup key current.fields
  unfolding updated_payload
  updated-lookup current id key type_ id_ free =
      let m = insert "@type" (x.of_text current.at_type) current.fields in
      stored-lookup id key (updated_payload x current d) type_ id_
      ∙ lookup-extend d.fields m key writable.map_
      ∙ rw free
          (lookup-insert "@type" key (x.of_text current.at_type) current.fields ∙ rw type_ refl)

  updated-identifier :
      (current : Element V) (id : String)
      → element_identifier x (element_of x show (id, updated_payload x current d))
        ≡ element_identifier x current
  unfolding element_identifier
  updated-identifier current id =
      rw
        (
          updated-lookup current id "identifier" refl refl writable.no_identifier,
          updated-lookup current id "aliasIds" refl refl writable.no_alias,
        )
        refl

first_payload : {V : Type 0} → List (DataVersion V) → Option (Fields V)
first_payload [] = none
first_payload (c ∷ cs) = c.payload

-- A change that is made for an element that is wanted, because there is none or one that differs,
-- is not made again: the element that the server stores of its payload, under whatever id, has the
-- identifier that is wanted and needs no change. The fields that are wanted have distinct keys,
-- none of them `@id`, `@type`, `identifier` or `aliasIds`.
pub change_for-settles :
    {V : Type 0} (x : Json V) (show : ℕ → String) (d : DesiredElement V) (o : Option (Element V))
    (p : Fields V) (id : String)
    → JsonLaws x
    → IsWritable d.fields
    → ((e : Element V) → o ≡ some e → element_identifier x e ≡ some d.identifier)
    → change_for x o d ≡ data_version (some p) o ∷ []
    → (element_identifier x (element_of x show (id, p)) ≡ some d.identifier)
      × (change_for x (some (element_of x show (id, p))) d ≡ [])
unfolding change_for data_version first_payload
change_for-settles x show d none p id laws writable named made =
    let sent : some (created_payload x d) ≡ some p = ap first_payload made in
    let e : created_payload x d ≡ p = cc in
    subst
      (λ p.
        (element_identifier x (element_of x show (id, p)) ≡ some d.identifier)
        × (change_for x (some (element_of x show (id, p))) d ≡ []))
      e
      (
        created-identifier x show laws d writable id,
        Covers-settles x show laws d writable id (created_payload x d)
            (created-Covers x show laws d writable),
      )
change_for-settles x show d (some current) p id laws writable named made =
    let q = updated_payload x current d in
    elim (Bool-cases (owned_field_differs x current d.fields)) [
      | inr same_ ↦
          let nothing : change_for x (some current) d ≡ [] = rw same_ refl in
          let sent : none ≡ some p = ap first_payload (sym nothing ∙ made) in absurd (cc)
      | inl differs ↦
          let change : change_for x (some current) d ≡ data_version (some q) (some current) ∷ [] =
            rw differs refl in
          let sent : some q ≡ some p = ap first_payload (sym change ∙ made) in
          let e : q ≡ p = cc in
          subst
            (λ p.
              (element_identifier x (element_of x show (id, p)) ≡ some d.identifier)
              × (change_for x (some (element_of x show (id, p))) d ≡ []))
            e
            (
              updated-identifier x show laws d writable current id ∙ named current refl,
              Covers-settles x show laws d writable id q
                  (updated-Covers x show laws d writable current),
            )
    ]
