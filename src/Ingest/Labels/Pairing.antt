-- ===== src/Ingest/Labels/Pairing.antt =====
-- scoring.rs, `label_scores`: what its second pass takes, and what it leaves.
use kr0ki.Common.{
  ℕ, suc, ◌+◌, ◌≡◌, ◌∙◌, refl, sym, subst, ◌⊎◌, inl, inr, true, false, not, ◌&&◌, Option, none,
  some, List, [], ◌∷◌, arith, length, Bool-cases, Option-cases,
}
use kr0ki.Ingest.Scoring.{Text}
use kr0ki.Ingest.Labels.{Target, Found, Parts, mark_at, similar, best_from, better, fuzzy_mark}
use kr0ki.Ingest.Labels.Marking.{bit, unused, IsAt, mark_at-Uses, IsMarking, IsThorough}

module _ {F : Type 0} (x : Parts F) where
  better-cases : (b : Option (ℕ × F)) (c : ℕ × F) → (better x b c ≡ b) ⊎ (better x b c ≡ some c)
  unfolding better
  better-cases none c = inr refl
  better-cases (some (j, b)) (i, c) = elim (Bool-cases (x.is_greater b c)) [
    | inl keeps ↦ inl (rw keeps refl)
    | inr goes ↦ inr (rw goes refl)
  ]

  -- The best label is the best so far, or an unused one that is similar.
  best_from-IsAt :
      (t : Text) (best : Option (ℕ × F)) (k : ℕ) (fs : List Found) (i : ℕ) (s : F)
      → best_from x t best k fs ≡ some (i, s)
      → (best ≡ some (i, s))
        ⊎ ((j : ℕ) × (b : Text) × (i ≡ k + j) × (similar x t b ≡ true) × IsAt j b fs)
  unfolding best_from
  best_from-IsAt t best k [] i s h = inl h
  best_from-IsAt t best k (f ∷ fs) i s h = elim (Bool-cases (not f.used && similar x t f.text)) [
    | inr skipped ↦ elim (best_from-IsAt t best (suc k) fs i s (ground (arith, skipped, h))) [
      | inl e ↦ inl e
      | inr (j, b, e, like, at) ↦ inr (suc j, b, omega arith, like, at)
    ]
    | inl fits ↦
        let c : ℕ × F = (k, x.normalized_levenshtein t f.text) in
        elim (best_from-IsAt t (better x best c) (suc k) fs i s (ground (arith, fits, h))) [
          | inr (j, b, e, like, at) ↦ inr (suc j, b, omega arith, like, at)
          | inl e ↦ elim (better-cases best c) [
            | inl kept ↦ inl (sym kept ∙ e)
            | inr taken ↦
                let here : k ≡ i = ground (arith, taken, e) in
                let free : f.used ≡ false = ground (arith, fits) in
                inr (0, f.text, omega (arith, here), ground (arith, fits), (free, refl))
          ]
        ]
  ]

  better-some : (b : Option (ℕ × F)) (c : ℕ × F) → better x b c ≡ none → ⊥
  unfolding better
  better-some none c h = absurd (cc)
  better-some (some (j, b)) (i, c) h = elim (Bool-cases (x.is_greater b c)) [
    | inl keeps ↦ absurd (ground (arith, keeps, h))
    | inr goes ↦ absurd (ground (arith, goes, h))
  ]

  -- If there is no best label, no unused one is similar.
  best_from-none :
      (t : Text) (best : Option (ℕ × F)) (k : ℕ) (fs : List Found)
      → best_from x t best k fs ≡ none
      → (best ≡ none) × (unused (similar x t) fs ≡ 0)
  unfolding best_from
  best_from-none t best k [] h = (h, refl)
  best_from-none t best k (f ∷ fs) h = elim (Bool-cases (not f.used && similar x t f.text)) [
    | inr skipped ↦
        let (e, none_) = best_from-none t best (suc k) fs (ground (arith, skipped, h)) in
        (e, ground (arith, skipped, none_))
    | inl fits ↦
        let c : ℕ × F = (k, x.normalized_levenshtein t f.text) in
        let (e, none_) = best_from-none t (better x best c) (suc k) fs (ground (arith, fits, h)) in
        absurd (better-some best c e)
  ]

  pub fuzzy_mark-IsMarking :
      (normal : Text → Text) (t : Target) → IsMarking x normal (fuzzy_mark x) t
  unfolding fuzzy_mark
  fuzzy_mark-IsMarking normal t pool marked h = elim (Bool-cases t.matched) [
    | inl before ↦ absurd (ground (arith, before, h))
    | inr fresh ↦ elim (Option-cases (best_from x t.norm none 0 pool)) [
      | inl missed ↦ absurd (ground (arith, fresh, missed, h))
      | inr ((i, s), found) ↦
          let result : mark_at i pool ≡ marked = ground (arith, fresh, found, h) in
          elim (best_from-IsAt t.norm none 0 pool i s found) [
            | inl e ↦ absurd (cc)
            | inr (j, b, e, like, at) ↦
                let same_place : j ≡ i = omega (arith, e) in
                let (counts, size) =
                  mark_at-Uses i b pool (subst (λ n. IsAt n b pool) same_place at) in
                (
                  fresh,
                  b,
                  like,
                  (
                    λ p. subst (λ l. unused p pool ≡ bit (p b) + unused p l) result (counts p),
                    subst (λ l. length l ≡ length pool) result size,
                  ),
                )
          ]
    ]
  ]

  pub fuzzy_mark-IsThorough :
      (normal : Text → Text) (t : Target) → IsThorough x normal (fuzzy_mark x) t
  unfolding fuzzy_mark
  fuzzy_mark-IsThorough normal t pool h fresh =
      elim (Option-cases (best_from x t.norm none 0 pool)) [
        | inl missed ↦ (best_from-none t.norm none 0 pool missed).1
        | inr (best, found) ↦ absurd (ground (arith, fresh, found, h))
      ]
