-- ===== src/Gateway/Identities/Denial.antt =====
-- `required_grant`: which of its answers an identity without the grant `admin` meets.
use mathlib.Core.List.{Memᴰ}
use kr0ki.Common.{
  String, ◌==◌, ◌≡◌, refl, sym, ap, ◌∙◌, ◌⊎◌, inl, inr, true, false, ◌&&◌, Option, none, some, List,
  [], ◌∷◌, find, arith, eq_iff, Bool-cases, Option-cases,
}
use kr0ki.Common.OrdMap
use kr0ki.Gateway.Routes.{Route, routes, grant_in, required_grant}
use kr0ki.Gateway.Identities.{Identity, permits}

-- A row of the table for a method and a pattern.
pub record IsRow (method pattern : String) (r : Route) (rows : List Route) : Type 0 where
  pub listed : Memᴰ r rows
  pub same_method : r.method ≡ method
  pub same_pattern : r.pattern ≡ pattern

IsRow-found :
    (method pattern : String) (r : Route) (rows : List Route)
    → find (λ r. r.method == method && r.pattern == pattern) rows ≡ some r
    → IsRow method pattern r rows
IsRow-found method pattern r [] h = absurd (cc)
IsRow-found method pattern r (q ∷ rows) h =
    elim (Bool-cases (q.method == method && q.pattern == pattern)) [
      | inl here ↦
          let same : q ≡ r = ground (arith, here, h) in
          record {
            listed = Memᴰ.head (sym same);
            same_method =
                ap (λ s. s.method) (sym same) ∙ ground (arith, eq_iff q.method method, here);
            same_pattern =
                ap (λ s. s.pattern) (sym same) ∙ ground (arith, eq_iff q.pattern pattern, here);
          }
      | inr other ↦
          let later = IsRow-found method pattern r rows (ground (arith, other, h)) in
          record {
            listed = Memᴰ.tail later.listed;
            same_method = later.same_method;
            same_pattern = later.same_pattern;
          }
    ]

-- A row whose grant an identity meets: it needs no grant, or one that the identity holds.
pub record Reachable (i : Identity) (method pattern : String) (rows : List Route) : Type 0 where
  pub row : Route
  pub listed : IsRow method pattern row rows
  pub granted :
      (row.grant ≡ none)
      ⊎ ((grant : String) × (row.grant ≡ some grant) × (OrdMap.contains grant i.grants ≡ true))

permits-plain :
    (i : Identity) (grant : String)
    → OrdMap.contains "admin" i.grants ≡ false
    → permits i grant ≡ true
    → OrdMap.contains grant i.grants ≡ true
unfolding permits
permits-plain i grant plain h = rw plain at h

grant_in-Reachable :
    (i : Identity) (method pattern : String) (rows : List Route)
    → OrdMap.contains "admin" i.grants ≡ false
    → ((grant : String) → grant_in rows method pattern ≡ some grant → permits i grant ≡ true)
    → Reachable i method pattern rows
unfolding grant_in
grant_in-Reachable i method pattern rows plain may =
    elim (Option-cases (find (λ r. r.method == method && r.pattern == pattern) rows)) [
      | inl missing ↦
          let held = permits-plain i "admin" plain (may "admin" (ground (arith, missing))) in
          absurd (ground (arith, held, plain))
      | inr (r, found) ↦ record {
        row = r;
        listed = IsRow-found method pattern r rows found;
        granted = elim (Option-cases r.grant) [
          | inl free ↦ inl free
          | inr (grant, needed) ↦ inr (
            grant,
            needed,
            permits-plain i grant plain (may grant (ground (arith, found, needed))),
          )
        ];
      }
    ]

-- What `required_grant` answers is met without the grant `admin` only where the table has a row, and
-- that row needs no grant or one that the identity itself holds.
pub required_grant-denies :
    (i : Identity) (method : String) (pattern : Option String)
    → OrdMap.contains "admin" i.grants ≡ false
    → ((grant : String) → required_grant method pattern ≡ some grant → permits i grant ≡ true)
    → (p : String) × (pattern ≡ some p) × Reachable i method p routes
unfolding required_grant
required_grant-denies i method none plain may =
    let held = permits-plain i "admin" plain (may "admin" refl) in
    absurd (ground (arith, held, plain))
required_grant-denies i method (some p) plain may =
    (p, refl, grant_in-Reachable i method p routes plain may)
