-- ===== src/Ingest/Scoring/Normal.antt =====
-- The loop of `normalize_label` ends, on a text that a further turn leaves as it is.
use kr0ki.Common.{
  ℕ, zero, suc, ◌≤◌, ◌<◌, ◌≡◌, refl, ap, ap₂, ◌⊎◌, inl, inr, Bool, true, some, [], ◌∷◌, arith,
  length, eqb, Bool-cases,
}
use kr0ki.Common.Text.{is_whitespace}
use kr0ki.Ingest.Scoring.{
  Text, is_wrapping, join, keep_front, normalize_label, pieces, same, strip, strip_loop, trim_both,
  trim_end, trim_start,
}

same-eq : (a b : Text) → same a b ≡ true → a ≡ b
unfolding same
same-eq [] [] h = refl
same-eq [] (y ∷ ys) h = absurd (cc)
same-eq (x ∷ xs) [] h = absurd (cc)
same-eq (x ∷ xs) (y ∷ ys) h =
    ap₂ (λ z zs. z ∷ zs) (ground (arith, h)) (same-eq xs ys (ground (arith, h)))

-- A text that a trim gives: the text itself, or a shorter one.
abbrev Shrinks : Text → Text → Type 0
Shrinks t s = (t ≡ s) ⊎ (length t < length s)

trim_start-length : (p : ℕ → Bool) (s : Text) → length (trim_start p s) ≤ length s
unfolding trim_start
trim_start-length p [] = omega arith
trim_start-length p (x ∷ xs) = ground (arith, trim_start-length p xs)

trim_start-Shrinks : (p : ℕ → Bool) (s : Text) → Shrinks (trim_start p s) s
unfolding trim_start
trim_start-Shrinks p [] = inl refl
trim_start-Shrinks p (x ∷ xs) = elim (Bool-cases (p x)) [
  | inl go ↦ inr (ground (arith, go, trim_start-length p xs))
  | inr stay ↦ inl (rw stay refl)
]

same_refl : (a : Text) → same a a ≡ true
unfolding same
same_refl [] = refl
same_refl (x ∷ xs) = ground (arith, same_refl xs)

keep_front-Shrinks :
    (p : ℕ → Bool) (x : ℕ) (t xs : Text) → Shrinks t xs → Shrinks (keep_front p x t) (x ∷ xs)
unfolding keep_front
keep_front-Shrinks p x [] xs h = elim (Bool-cases (p x)) [
  | inl go ↦ inr (rw go (omega arith))
  | inr stay ↦ elim h [
    | inl e ↦ inl (rw stay (ap (λ t. x ∷ t) e))
    | inr shorter ↦ inr (rw stay (omega (arith, shorter)))
  ]
]
keep_front-Shrinks p x (y ∷ ys) xs (inl e) = inl (ap (λ t. x ∷ t) e)
keep_front-Shrinks p x (y ∷ ys) xs (inr shorter) = inr (omega (arith, shorter))

trim_end-Shrinks : (p : ℕ → Bool) (s : Text) → Shrinks (trim_end p s) s
unfolding trim_end
trim_end-Shrinks p [] = inl refl
trim_end-Shrinks p (x ∷ xs) = keep_front-Shrinks p x (trim_end p xs) xs (trim_end-Shrinks p xs)

Shrinks-trans : (r s t : Text) → Shrinks r s → Shrinks s t → Shrinks r t
Shrinks-trans r s t (inl e) k = rw e k
Shrinks-trans r s t (inr h) (inl e) = inr (rw⁻¹ e h)
Shrinks-trans r s t (inr h) (inr k) = inr (omega arith)

trim_both-Shrinks : (p : ℕ → Bool) (s : Text) → Shrinks (trim_both p s) s
unfolding trim_both
trim_both-Shrinks p s =
    Shrinks-trans (trim_end p (trim_start p s)) (trim_start p s) s
      (trim_end-Shrinks p (trim_start p s)) (trim_start-Shrinks p s)

strip-Shrinks : (s : Text) → Shrinks (strip s) s
unfolding strip
strip-Shrinks s =
    let unwrapped = trim_both is_wrapping s in
    let trimmed = trim_both is_whitespace unwrapped in
    Shrinks-trans (trim_end (λ c. eqb c b'.') trimmed) trimmed s
      (trim_end-Shrinks (λ c. eqb c b'.') trimmed)
      (Shrinks-trans trimmed unwrapped s (trim_both-Shrinks is_whitespace unwrapped)
        (trim_both-Shrinks is_wrapping s))

strip_loop-ends :
    (turns : ℕ) (s : Text)
    → length s < turns
    → (r : Text) × (strip_loop turns s ≡ some r) × (strip r ≡ r)
unfolding strip_loop
strip_loop-ends zero s room = absurd (omega arith)
strip_loop-ends (suc turns) s room = elim (Bool-cases (same (strip s) s)) [
  | inl stable ↦ (s, rw stable refl, same-eq (strip s) s stable)
  | inr changed ↦ elim (strip-Shrinks s) [
    | inl e ↦ absurd (ground (arith, changed, ap (λ t. same t s) e, same_refl s))
    | inr shorter ↦ rw changed (strip_loop-ends turns (strip s) (omega arith))
  ]
]

-- The loop of `normalize_label` ends on every label: with one turn more than the text has
-- characters it returns a text, and trimming that text once more leaves it as it is.
pub normalize_label-ends :
    (to_lowercase : Text → Text) (s : Text)
    → (r : Text) × (normalize_label to_lowercase s ≡ some r) × (strip r ≡ r)
unfolding normalize_label
normalize_label-ends to_lowercase s =
    let cur = join (pieces is_whitespace (to_lowercase s)) in
    strip_loop-ends (suc (length cur)) cur (omega arith)
