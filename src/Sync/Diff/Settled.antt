-- ===== src/Sync/Diff/Settled.antt =====
-- sync_engine.rs, `diff_managed`: an element that has the fields that are wanted.
use kr0ki.Common.{
  String, eq_iff, eq_refl, ◌≡◌, ◌∙◌, refl, Bool, true, false, not, none, some, [], ◌∷◌, arith, any,
  or_else,
}
use kr0ki.Common.OrdMap.{lookup, insert, extend, contains_key, lookup-insert}
use kr0ki.Sync.Model.{Json, Fields, Element, DesiredElement}
use kr0ki.Sync.Diff.{field_differs, owned_field_differs, change_for}

module _ {V : Type 0} where
  -- Every key is there once, as in a `Map`.
  abbrev pub IsMap : Fields V → Type 0
  IsMap [] = Unit
  IsMap ((k, v) ∷ fs) = (lookup k fs ≡ none) × IsMap fs

  pub lookup-extend :
      (fs m : Fields V) (k : String)
      → IsMap fs
      → lookup k (extend m fs) ≡ or_else (lookup k fs) (lookup k m)
  unfolding lookup extend
  lookup-extend [] m k h = refl
  lookup-extend ((j, v) ∷ fs) m k (fresh, h) =
      ground (arith, eq_iff j k, fresh, lookup-extend fs (insert j v m) k h, lookup-insert j k v m)

  -- A map has the entries of another.
  abbrev pub Holds : Fields V → Fields V → Type 0
  Holds m [] = Unit
  Holds m ((k, v) ∷ fs) = (lookup k m ≡ some v) × Holds m fs

  -- A map that agrees with another where that one has an entry.
  pub Holds-from :
      (m n gs : Fields V)
      → ((k : String) (v : V) → lookup k m ≡ some v → lookup k n ≡ some v)
      → Holds m gs
      → Holds n gs
  Holds-from m n [] agree h = tt
  Holds-from m n ((k, v) ∷ gs) agree (at, h) = (agree k v at, Holds-from m n gs agree h)

  pub Holds-refl : (fs : Fields V) → IsMap fs → Holds fs fs
  unfolding lookup
  Holds-refl [] h = tt
  Holds-refl ((k, v) ∷ fs) (fresh, h) = (
    rw (eq_refl k) refl,
    Holds-from fs ((k, v) ∷ fs) fs (λ j u at. ground (arith, eq_iff k j, fresh, at))
        (Holds-refl fs h),
  )

  pub extend-Holds : (m fs : Fields V) → IsMap fs → Holds (extend m fs) fs
  extend-Holds m fs h =
      Holds-from fs (extend m fs) fs (λ k v at. lookup-extend fs m k h ∙ rw at refl)
        (Holds-refl fs h)

module _ {V : Type 0} (x : Json V) (eq_refl_ : (v : V) → x.eq v v ≡ true) where
  any-Holds :
      (strict : Bool) (m fs : Fields V)
      → Holds m fs
      → any (λ (k, v). field_differs x strict v (lookup k m)) fs ≡ false
  unfolding field_differs
  any-Holds strict m [] h = refl
  any-Holds strict m ((k, v) ∷ fs) (at, h) = rw (at, eq_refl_ v) (any-Holds strict m fs h)

  -- An element that has the fields that are wanted is not changed.
  pub change_for-Holds :
      (e : Element V) (d : DesiredElement V)
      → Holds e.fields d.fields
      → change_for x (some e) d ≡ []
  unfolding change_for owned_field_differs
  change_for-Holds e d h =
      rw (any-Holds (not (contains_key "identifier" e.fields)) e.fields d.fields h) refl
