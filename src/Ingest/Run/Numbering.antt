-- ===== src/Ingest/Run/Numbering.antt =====
-- Attempts that carry their numbers in order, and places among them.
use kr0ki.Common.{
  ℕ, zero, suc, ◌+◌, ◌-◌, ◌<◌, ◌≡◌, ◌∙◌, refl, ap, subst, ◌⊎◌, inl, inr, Option, none, some, List,
  [], ◌∷◌, ◌++◌, arith, eqb, length, length-append, get_elem?, find, unwrap_or,
}
use kr0ki.Ingest.Types.{AttemptRecord}

pub add_one_sub_one : (i : ℕ) → 1 + i - 1 ≡ i
add_one_sub_one i = omega arith

module _ {F : Type 0} where
  -- The attempts carry their numbers in order.
  abbrev pub Numbered : ℕ → List (AttemptRecord F) → Type 0
  Numbered k [] = Unit
  Numbered k (r ∷ rs) = (r.n ≡ k) × Numbered (suc k) rs

  pub Numbered-snoc :
      (k : ℕ) (rs : List (AttemptRecord F)) (r : AttemptRecord F)
      → Numbered k rs
      → r.n ≡ k + length rs
      → Numbered k (rs ++ (r ∷ []))
  Numbered-snoc k [] r h e = (omega arith, tt)
  Numbered-snoc k (q ∷ rs) r h e = (h.0, Numbered-snoc (suc k) rs r h.1 (omega arith))

  abbrev pub IsPlace : Option ℕ → List (AttemptRecord F) → Type 0
  IsPlace none rs = Unit
  IsPlace (some i) rs = i < length rs

  pub IsPlace-snoc :
      (best best' : Option ℕ) (rs : List (AttemptRecord F)) (r : AttemptRecord F)
      → IsPlace best rs
      → (best' ≡ best) ⊎ (best' ≡ some (length rs))
      → IsPlace best' (rs ++ (r ∷ []))
  IsPlace-snoc best none rs r h e = tt
  IsPlace-snoc none (some i) rs r h (inl e) = absurd (cc)
  IsPlace-snoc (some j) (some i) rs r h (inl e) =
      omega (arith, length-append rs (r ∷ []), ap (λ o. unwrap_or o 0) e)
  IsPlace-snoc best (some i) rs r h (inr e) =
      omega (arith, length-append rs (r ∷ []), ap (λ o. unwrap_or o 0) e)

  -- The attempt at a place is found by its number.
  pub find-Numbered :
      (k i : ℕ) (rs : List (AttemptRecord F))
      → Numbered k rs
      → i < length rs
      → (r : AttemptRecord F) × (get_elem? rs i ≡ some r)
        × (r.n ≡ k + i)
        × (find (λ a. eqb a.n (k + i)) rs ≡ some r)
  find-Numbered k i [] h lt = absurd (omega arith)
  find-Numbered k zero (r ∷ rs) h lt = (r, refl, omega arith, ground arith)
  find-Numbered k (suc i) (r ∷ rs) h lt =
      let (q, at, number, found) = find-Numbered (suc k) i rs h.1 (omega arith) in
      let same : suc k + i ≡ k + suc i = omega arith in
      (
        q,
        at,
        number ∙ same,
        ground (arith, subst (λ m. find (λ a. eqb a.n m) rs ≡ some q) same found),
      )
