-- ===== src/Runner/Summary.antt =====
-- verification_runner.rs, `parse_test_summary`: the sums of what cargo's output says, line by line.
pub mod Numbers
pub mod Printed
pub mod Counts
pub mod Sums
use kr0ki.Common.{
  ℕ, zero, suc, ◌+◌, ◌-◌, ◌*◌, ◌%◌, ◌^◌, Bool, true, false, not, Option, none, some, List, [], ◌∷◌,
  ltb, eqb, if◌then◌else◌, is_empty, filter, get_elem?, unwrap_or, option_map, and_then, find_map,
}
use kr0ki.Common.Text.{is_digit, is_whitespace}
use kr0ki.Common.Chars.{Text, chars, same, split_at, trim_start}

-- A line without the carriage return before its line feed.
unfoldable pub strip_return : Text → Text
strip_return [] = []
strip_return (c ∷ []) = if eqb c 13 then [] else c ∷ []
strip_return (c ∷ d ∷ s) = c ∷ strip_return (d ∷ s)

unfoldable pub ended : List Text → List Text
unfolding strip_return
ended [] = []
ended (l ∷ []) = if is_empty l then [] else l ∷ []
ended (l ∷ m ∷ ms) = strip_return l ∷ ended (m ∷ ms)

-- `str::lines`
unfoldable pub lines : Text → List Text
unfolding ended split_at
lines s = ended (split_at (λ c. eqb c 10) s)

-- `split_whitespace`
unfoldable pub split_whitespace : Text → List Text
unfolding is_whitespace split_at
split_whitespace s = filter (λ t. not (is_empty t)) (split_at is_whitespace s)

-- `iter().position(p)`
unfoldable pub position : (Text → Bool) → List Text → Option ℕ
position p [] = none
position p (t ∷ ts) = let later = option_map suc (position p ts) in if p t then some 0 else later

-- `checked_sub(1)`
unfoldable pub checked_pred : ℕ → Option ℕ
checked_pred zero = none
checked_pred (suc n) = some n

-- `str::parse::<usize>`: digits behind a `+` or nothing, whose number is below 2^64.
unfoldable pub parse_digits : ℕ → Text → Option ℕ
parse_digits n [] = some n
parse_digits n (c ∷ s) =
    let m = n * 10 + (c - b'0') in
    let rest = parse_digits m s in
    if not (is_digit c) then none else if ltb m (2 ^ 64) then rest else none

unfoldable pub parse_unsigned : Text → Option ℕ
unfolding parse_digits
parse_unsigned [] = none
parse_unsigned (c ∷ s) = parse_digits 0 (c ∷ s)

unfoldable pub parse_usize : Text → Option ℕ
unfolding parse_unsigned
parse_usize [] = none
parse_usize (c ∷ s) = if eqb c 43 then parse_unsigned s else parse_unsigned (c ∷ s)

-- The count among the tokens of one segment: the token before the word.
unfoldable pub count_of : Text → List Text → Option ℕ
unfolding position checked_pred parse_usize same
count_of word tokens =
    and_then (position (λ t. same t word) tokens)
      λ found. and_then (checked_pred found) λ i. and_then (get_elem? tokens i) parse_usize

unfoldable pub count_in : Text → Text → Option ℕ
unfolding split_whitespace count_of
count_in word segment = count_of word (split_whitespace segment)

unfoldable pub count_before : Text → Text → ℕ
unfolding count_in split_at
count_before line word = unwrap_or (find_map (count_in word) (split_at (λ c. eqb c 59) line)) 0

-- `starts_with`
unfoldable pub text_starts_with : Text → Text → Bool
text_starts_with s [] = true
text_starts_with [] (p ∷ ps) = false
text_starts_with (c ∷ s) (p ∷ ps) =
    let rest = text_starts_with s ps in if eqb c p then rest else false

unfoldable pub is_result_line : Text → Bool
unfolding trim_start is_whitespace text_starts_with chars
is_result_line l = text_starts_with (trim_start is_whitespace l) (chars "test result:")

-- `usize` addition, which wraps in a release build
unfoldable pub sum_lines : ℕ × ℕ → List Text → ℕ × ℕ
unfolding count_before is_result_line chars
sum_lines sums [] = sums
sum_lines (p, f) (l ∷ ls) =
    let more =
      sum_lines
        (
          (p + count_before l (chars "passed")) % 2 ^ 64,
          (f + count_before l (chars "failed")) % 2 ^ 64,
        )
        ls in
    let skipped = sum_lines (p, f) ls in if is_result_line l then more else skipped

unfoldable pub parse_test_summary : Text → ℕ × ℕ
unfolding sum_lines lines
parse_test_summary output = sum_lines (0, 0) (lines output)
