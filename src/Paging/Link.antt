-- ===== src/Paging/Link.antt =====
-- paging.rs, `parse_link_next`.
pub mod Printed
use kr0ki.Common.{
  ℕ, Bool, true, false, not, ◌&&◌, ◌||◌, Option, none, some, List, [], ◌∷◌, ltb, eqb, if◌then◌else◌,
  any, filter, length, last?,
}
use kr0ki.Common.Text.{is_whitespace}
use kr0ki.Common.Chars.{Text, same, trim_both, split_at, chars}

unfoldable pub starts_with_char : ℕ → Text → Bool
starts_with_char c [] = false
starts_with_char c (x ∷ xs) = eqb x c

unfoldable pub ends_with_char : ℕ → Text → Bool
ends_with_char c [] = false
ends_with_char c (x ∷ []) = eqb x c
ends_with_char c (x ∷ y ∷ ys) = ends_with_char c (y ∷ ys)

unfoldable pub but_last : Text → Text
but_last [] = []
but_last (x ∷ []) = []
but_last (x ∷ y ∷ ys) = x ∷ but_last (y ∷ ys)

-- `&s[1..s.len() - 1]`, where the first and the last character are one byte each
unfoldable pub inner : Text → Text
unfolding but_last
inner [] = []
inner (x ∷ xs) = but_last xs

-- A segment that is one of the three spellings of the next relation, white space aside.
unfoldable pub is_rel_next : Text → Bool
unfolding is_whitespace same chars
is_rel_next segment =
    let s = filter (λ c. not (is_whitespace c)) segment in
    same s (chars "rel=\"next\"") || same s (chars "rel=next") || same s (chars "rel='next'")

-- The URL of an entry that has one and is of the next relation. A URL segment of one character is
-- of one byte if it starts with the bracket.
unfoldable pub entry_next : List Text → Option Text
unfolding is_rel_next starts_with_char ends_with_char inner trim_both is_whitespace
entry_next [] = none
entry_next (first ∷ segments) =
    let url = trim_both is_whitespace first in
    if ltb (length url) 2 || not (starts_with_char b'<' url) || not (ends_with_char b'>' url)
    then none
    else if any is_rel_next segments
    then some (inner url)
    else none

-- The loop over the entries of the header.
unfoldable pub first_next : List Text → Option Text
unfolding entry_next trim_both is_whitespace split_at
first_next [] = none
first_next (entry ∷ entries) =
    elim (entry_next (split_at (λ c. eqb c b';') (trim_both is_whitespace entry))) [
      | some url ↦ some url
      | none ↦ first_next entries
    ]

unfoldable pub parse_link_next : Text → Option Text
unfolding first_next split_at
parse_link_next header = first_next (split_at (λ c. eqb c b',') header)
