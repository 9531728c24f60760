-- ===== src/Common/OrdMap.antt =====
-- `BTreeMap<String, V>` and `BTreeSet<String>`: entries in the order of their keys. Keys are compared
-- as Rust compares `str`, by bytes.
use Prim.Native.Nat.{Ordering}
use Prim.Native.String.{String, compare}
use mathlib.Core.Path.{◌≡◌, refl}
use mathlib.Core.Bool.{Bool, true, false}
use mathlib.Core.Option.{Option, none, some}
use mathlib.Core.List.{List, [], ◌∷◌}
use native.Mathlib.Omega.{arith}
use text.Mathlib.Text.{◌==◌}
use text.Mathlib.TextEquality.{eq_iff}
use kr0ki.Common.Tests.{if◌then◌else◌}
use kr0ki.Common.Lists.{is_some}

abbrev pub OrdMap {ℓ} : Type ℓ → Type ℓ
OrdMap V = List (String × V)

module _ {ℓ} {V : Type ℓ} where
  -- `get`
  unfoldable pub lookup : String → OrdMap V → Option V
  lookup key [] = none
  lookup key ((at, value) ∷ rest) =
      let later = lookup key rest in if at == key then some value else later

  unfoldable pub insert : String → V → OrdMap V → OrdMap V
  insert k v [] = (k, v) ∷ []
  insert k v ((j, w) ∷ m) =
      let later = (j, w) ∷ insert k v m in
      elim (compare j k) [
        | Ordering.lt ↦ later
        | Ordering.eq ↦ (k, v) ∷ m
        | Ordering.gt ↦ (k, v) ∷ (j, w) ∷ m
      ]

  unfoldable pub remove : String → OrdMap V → OrdMap V
  remove k [] = []
  remove k ((j, v) ∷ m) = let rest = remove k m in if j == k then rest else (j, v) ∷ rest

  abbrev pub contains_key : String → OrdMap V → Bool
  contains_key k m = is_some (lookup k m)

  abbrev pub keys : OrdMap V → List String
  keys [] = []
  keys ((k, v) ∷ m) = k ∷ keys m

  abbrev pub values : OrdMap V → List V
  values [] = []
  values ((k, v) ∷ m) = v ∷ values m

  pub lookup-insert :
      (written key : String) (value : V) (entries : OrdMap V)
      → lookup key (insert written value entries)
        ≡ (if written == key then some value else lookup key entries)
  unfolding lookup insert
  lookup-insert written key value [] = refl
  lookup-insert written key value ((at, old) ∷ rest) =
      let later = lookup-insert written key value rest in
      ground (arith, eq_iff at key, eq_iff written key, eq_iff at written, later)

  pub lookup-remove :
      (k j : String) (m : OrdMap V) → lookup j (remove k m) ≡ (if k == j then none else lookup j m)
  unfolding lookup remove
  lookup-remove k j [] = ground arith
  lookup-remove k j ((i, w) ∷ m) =
      ground (arith, eq_iff k j, eq_iff i k, eq_iff i j, lookup-remove k j m)

  pub lookup-nil : (k : String) → lookup k [] ≡ none
  unfolding lookup
  lookup-nil k = refl

  -- `extend`: every entry of the second map is written over the first.
  unfoldable pub extend : OrdMap V → OrdMap V → OrdMap V
  extend m [] = m
  extend m ((k, v) ∷ more) = extend (insert k v m) more

abbrev pub OrdSet : Type 0
OrdSet = List String

-- `contains`
unfoldable pub contains : String → OrdSet → Bool
contains k [] = false
contains k (j ∷ s) = if j == k then true else contains k s

-- `insert`, without the Boolean that it returns: that is `not (contains k s)`.
unfoldable pub add : String → OrdSet → OrdSet
add k [] = k ∷ []
add k (j ∷ s) =
    let later = j ∷ add k s in
    elim (compare j k) [ Ordering.lt ↦ later | Ordering.eq ↦ j ∷ s | Ordering.gt ↦ k ∷ j ∷ s ]

-- `remove`, without the Boolean that it returns: that is `contains k s`.
unfoldable pub discard : String → OrdSet → OrdSet
discard k [] = []
discard k (j ∷ s) = let rest = discard k s in if j == k then rest else j ∷ rest

pub contains-add :
    (k j : String) (s : OrdSet) → contains j (add k s) ≡ (if k == j then true else contains j s)
unfolding contains add
contains-add k j [] = refl
contains-add k j (i ∷ s) = ground (arith, eq_iff k j, eq_iff i k, eq_iff i j, contains-add k j s)

pub contains-discard :
    (k j : String) (s : OrdSet)
    → contains j (discard k s) ≡ (if k == j then false else contains j s)
unfolding contains discard
contains-discard k j [] = ground arith
contains-discard k j (i ∷ s) =
    ground (arith, eq_iff k j, eq_iff i k, eq_iff i j, contains-discard k j s)

pub contains-nil : (k : String) → contains k [] ≡ false
unfolding contains
contains-nil k = refl

pub ruleset map_laws = (lookup-nil, lookup-insert, lookup-remove, contains-nil, contains-add)
