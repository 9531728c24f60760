-- ===== src/Ingest/Labels/Examples.antt =====
-- Labels over a toy similarity: percentages, and every two texts alike by their length.
use kr0ki.Common.{ℕ, ◌*◌, ◌/◌, ◌≡◌, refl, some, List, [], ◌∷◌, leb, ltb, eqb, length, if◌then◌else◌}
use kr0ki.Ingest.Scoring.{Text, normalized, normalize_label}
use kr0ki.Ingest.Labels.{Parts, label_scores}
use kr0ki.Ingest.Labels.Scores.{read_of, shown_of, IsMatching, label_scores-IsMatching}

abbrev lower : Text → Text
lower s = s

abbrev parts : Parts ℕ
parts = record {
  to_lowercase = lower;
  normalized_levenshtein = λ a b. if eqb (length a) (length b) then 100 else 0;
  at_least_threshold = λ s. leb 85 s;
  is_greater = λ a b. ltb b a;
  one = 100;
  quotient = λ num den. num * 100 / den;
}

abbrev label_db : Text
label_db = 40 ∷ 68 ∷ 66 ∷ 41 ∷ 46 ∷ []

abbrev label_c : Text
label_c = 67 ∷ []

-- `(DB).` is `DB`.
normal_db : normalize_label lower label_db ≡ some (68 ∷ 66 ∷ [])
unfolding normalize_label
normal_db = refl

abbrev read : List Text
read = label_db ∷ label_c ∷ []

abbrev shown : List Text
shown = (68 ∷ 66 ∷ []) ∷ []

scores : label_scores parts read shown ≡ (50, 100, label_c ∷ [])
unfolding label_scores normalized
scores = refl

label_scores-IsMatching_example :
    let (recall, precision, missing) = label_scores parts read shown in
    let normal = normalized lower in
    IsMatching parts normal
      (read_of parts normal read)
      (shown_of parts normal shown)
      missing
      recall
      precision
label_scores-IsMatching_example = label_scores-IsMatching parts read shown
