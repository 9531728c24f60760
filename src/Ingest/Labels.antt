-- ===== src/Ingest/Labels.antt =====
-- scoring.rs, `similar` and `label_scores`: the matching of the labels that were read with those of
-- a render, each label of a render being used once at most.
pub mod Alike
mod Marking
pub mod Pairing
pub mod Scores
mod Examples
use kr0ki.Common.{
  ℕ, zero, suc, ◌+◌, Bool, true, false, not, ◌&&◌, ◌||◌, Option, none, some, List, [], ◌∷◌, map,
  ltb, leb, eqb, min, if◌then◌else◌, filter, is_empty, length, option_map, filter_map,
}
use kr0ki.Ingest.Types.{LabelScore}
use kr0ki.Ingest.Scoring.{Text, same, normalized, digits, words, but_last}

-- A label that was read: as it stands, normalized, and whether it was matched.
pub record Target : Type 0 where
  pub label : Text
  pub norm : Text
  pub matched : Bool

-- A label of the render, normalized, and whether it was used.
pub record Found : Type 0 where
  pub text : Text
  pub used : Bool

-- `str::to_lowercase`, the similarity of `strsim`, `num as f64 / den as f64`, and what is done with
-- them.
pub record Parts (F : Type 0) : Type 0 where
  pub to_lowercase : Text → Text
  pub normalized_levenshtein : Text → Text → F
  pub at_least_threshold : F → Bool
  pub is_greater : F → F → Bool
  pub one : F
  pub quotient : ℕ → ℕ → F

-- The labels with their normal forms, those without one left out.
unfoldable pub targets_of : (Text → Text) → List Text → List Target
targets_of normal [] = []
targets_of normal (l ∷ ls) =
    let rest = targets_of normal ls in
    if is_empty (normal l)
    then rest
    else record { label = l; norm = normal l; matched = false } ∷ rest

unfoldable pub founds_of : (Text → Text) → List Text → List Found
founds_of normal [] = []
founds_of normal (l ∷ ls) =
    let rest = founds_of normal ls in
    if is_empty (normal l) then rest else record { text = normal l; used = false } ∷ rest

-- The first unused label that is the text, marked as used.
unfoldable pub mark_exact : Text → List Found → Option (List Found)
mark_exact t [] = none
mark_exact t (f ∷ fs) =
    let later = option_map (λ r. f ∷ r) (mark_exact t fs) in
    if not f.used && same f.text t then some (record f { used = true } ∷ fs) else later

unfoldable pub settle : Target → Option (List Found) → List Found → Target × List Found
settle t none pool = (t, pool)
settle t (some marked) pool = (record t { matched = true }, marked)

unfoldable pub mark_at : ℕ → List Found → List Found
mark_at i [] = []
mark_at zero (f ∷ fs) = record f { used = true } ∷ fs
mark_at (suc i) (f ∷ fs) = f ∷ mark_at i fs

-- The pass over the targets, with what one of them marks.
unfoldable pub pass :
    (Target → List Found → Option (List Found))
    → List Target
    → List Found
    → List Target × List Found
unfolding settle
pass mark [] pool = ([], pool)
pass mark (t ∷ ts) pool =
    let (t', pool') = settle t (mark t pool) pool in
    let (ts', pool'') = pass mark ts pool' in (t' ∷ ts', pool'')

unfoldable pub count_matched : List Target → ℕ
count_matched [] = 0
count_matched (t ∷ ts) = if t.matched then suc (count_matched ts) else count_matched ts

unfoldable pub missing_labels : List Target → List Text
missing_labels [] = []
missing_labels (t ∷ ts) = if t.matched then missing_labels ts else t.label ∷ missing_labels ts

unfoldable pub exact_mark : Target → List Found → Option (List Found)
unfolding mark_exact
exact_mark t pool = mark_exact t.norm pool

module _ {F : Type 0} (x : Parts F) where
  open x use {to_lowercase, normalized_levenshtein, at_least_threshold, is_greater, one, quotient}

  -- `zip` and `all`
  unfoldable pub words_alike : List Text → List Text → Bool
  words_alike (a ∷ more) (b ∷ others) =
      (same a b
        || (leb 7 (min (length a) (length b)) && at_least_threshold (normalized_levenshtein a b)))
      && words_alike more others
  words_alike _ _ = true

  unfoldable pub similar : Text → Text → Bool
  unfolding words_alike
  similar a b =
      let wa = words a in
      let wb = words b in
      if same a b
      then true
      else if not (same (digits a) (digits b))
      then false
      else if eqb (length wa) (length wb) && ltb 1 (length wa)
      then words_alike wa wb
      else if eqb (length a) (length b) && same (but_last a) (but_last b)
      then false
      else at_least_threshold (normalized_levenshtein a b)

  -- `max_by`: the later of two that are equal.
  unfoldable better : Option (ℕ × F) → ℕ × F → Option (ℕ × F)
  better none c = some c
  better (some (j, b)) (i, c) = if is_greater b c then some (j, b) else some (i, c)

  -- The best unused label that is similar, with the best so far and the next place.
  unfoldable pub best_from : Text → Option (ℕ × F) → ℕ → List Found → Option (ℕ × F)
  unfolding better
  best_from t best i [] = best
  best_from t best i (f ∷ fs) =
      best_from t
        (if not f.used && similar t f.text
          then better best (i, normalized_levenshtein t f.text)
          else best)
        (suc i) fs

  -- A target that is matched already is not pending.
  unfoldable pub fuzzy_mark : Target → List Found → Option (List Found)
  unfolding best_from mark_at
  fuzzy_mark t pool =
      let marked = option_map (λ (i, s). mark_at i pool) (best_from t.norm none 0 pool) in
      if t.matched then none else marked

  unfoldable pub ratio : ℕ → ℕ → F
  ratio num den = if eqb den 0 then one else quotient num den

  -- Both passes.
  unfoldable pub matching : List Target → List Found → List Target × List Found
  unfolding exact_mark fuzzy_mark pass
  matching ts pool = let (ts', pool') = pass exact_mark ts pool in pass fuzzy_mark ts' pool'

  unfoldable pub label_scores : List Text → List Text → (F × F × List Text)
  unfolding targets_of founds_of matching count_matched missing_labels ratio
  label_scores target rendered =
      let ts = targets_of (normalized to_lowercase) target in
      let pool = founds_of (normalized to_lowercase) rendered in
      let (ts', pool') = matching ts pool in
      let hits = count_matched ts' in
      (ratio hits (length ts), ratio hits (length pool), missing_labels ts')
