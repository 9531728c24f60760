-- ===== src/Ingest/Scoring.antt =====
-- scoring.rs: how well the labels of a render cover those that were read off the image. Texts are
-- lists of the numbers of their characters. `str::to_lowercase`, the Levenshtein similarity of the
-- `strsim` crate and the operations on floats are parameters.
pub mod Normal
use kr0ki.Common.{
  ℕ, zero, suc, ◌+◌, Bool, true, false, not, ◌&&◌, ◌||◌, Option, none, some, List, [], ◌∷◌, ◌++◌,
  map, ltb, leb, eqb, min, if◌then◌else◌, any, filter, is_empty, length, option_map, unwrap_or,
}
use kr0ki.Common.Text.{is_digit, is_whitespace}
unfoldable pub use kr0ki.Common.Chars.{
  Text, same, trim_start, keep_front, trim_end, trim_both, split_at,
}

-- The pieces that are not empty: `split_whitespace`, and `words`.
unfoldable pub pieces : (ℕ → Bool) → Text → List Text
unfolding split_at
pieces p s = filter (λ w. not (is_empty w)) (split_at p s)

-- `join(" ")`
unfoldable pub join : List Text → Text
join [] = []
join (s ∷ []) = s
join (s ∷ r ∷ rs) = s ++ (32 ∷ join (r ∷ rs))

-- `WRAPPING_PUNCTUATION`
abbrev pub is_wrapping : ℕ → Bool
is_wrapping c =
    any (λ w. eqb w c)
      (b'"' ∷ 39 ∷ b'`' ∷ b':' ∷ b';' ∷ b',' ∷ b'(' ∷ b')' ∷ b'[' ∷ b']' ∷ b'{' ∷ b'}' ∷ [])

-- One turn of the loop of `normalize_label`.
unfoldable pub strip : Text → Text
unfolding trim_both is_whitespace
strip s = trim_end (λ c. eqb c b'.') (trim_both is_whitespace (trim_both is_wrapping s))

-- The loop of `normalize_label`, on the turns that are left.
unfoldable pub strip_loop : ℕ → Text → Option Text
unfolding same strip
strip_loop zero cur = none
strip_loop (suc turns) cur =
    let next = strip cur in
    let rest = strip_loop turns next in if same next cur then some cur else rest

module _ (to_lowercase : Text → Text) where
  -- `normalize_label`, on more turns than the text has characters
  unfoldable pub normalize_label : Text → Option Text
  unfolding pieces join strip_loop
  normalize_label s =
      let cur = join (pieces is_whitespace (to_lowercase s)) in strip_loop (suc (length cur)) cur

  -- The text that the loop returns.
  unfoldable pub normalized : Text → Text
  unfolding normalize_label
  normalized s = unwrap_or (normalize_label s) []

unfoldable pub digits : Text → Text
digits s = filter is_digit s

unfoldable pub words : Text → List Text
unfolding pieces
words s = pieces (λ c. eqb c 32 || eqb c b'-' || eqb c b'_') s

-- All characters but the last.
unfoldable pub but_last : Text → Text
but_last [] = []
but_last (x ∷ []) = []
but_last (x ∷ y ∷ ys) = x ∷ but_last (y ∷ ys)
