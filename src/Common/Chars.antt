-- ===== src/Common/Chars.antt =====
-- The functions of `str` on texts that are lists of the numbers of their characters.
pub mod Splits
use Prim.Native.Nat.{ℕ}
use mathlib.Core.Bool.{Bool, true, false, ◌&&◌}
use mathlib.Core.List.{List, [], ◌∷◌}
use Prim.Native.Char.{code}
use Prim.Native.String.{String}
use mathlib.Core.Option.{Option, none, some}
use kr0ki.Common.Lists.{option_map}
use kr0ki.Common.Tests.{eqb, if◌then◌else◌}

abbrev pub Text : Type 0
Text = List ℕ

unfoldable pub same : Text → Text → Bool
same [] [] = true
same (x ∷ xs) (y ∷ ys) = eqb x y && same xs ys
same _ _ = false

-- `trim_start_matches`
unfoldable pub trim_start : (ℕ → Bool) → Text → Text
trim_start p [] = []
trim_start p (x ∷ xs) = let rest = trim_start p xs in if p x then rest else x ∷ xs

unfoldable pub keep_front : (ℕ → Bool) → ℕ → Text → Text
keep_front p x [] = if p x then [] else x ∷ []
keep_front p x (y ∷ ys) = x ∷ y ∷ ys

-- `trim_end_matches`
unfoldable pub trim_end : (ℕ → Bool) → Text → Text
unfolding keep_front
trim_end p [] = []
trim_end p (x ∷ xs) = keep_front p x (trim_end p xs)

-- `trim_matches`
unfoldable pub trim_both : (ℕ → Bool) → Text → Text
unfolding trim_start trim_end
trim_both p s = trim_end p (trim_start p s)

unfoldable pub push_first : ℕ → List Text → List Text
push_first x [] = (x ∷ []) ∷ []
push_first x (s ∷ ss) = (x ∷ s) ∷ ss

-- `split`, at every character that the test holds of
unfoldable pub split_at : (ℕ → Bool) → Text → List Text
unfolding push_first
split_at p [] = [] ∷ []
split_at p (x ∷ xs) = let rest = split_at p xs in if p x then [] ∷ rest else push_first x rest

-- `split_once`
unfoldable pub split_once_at : ℕ → Text → Option (Text × Text)
split_once_at sep [] = none
split_once_at sep (x ∷ xs) =
    let rest = option_map (λ (a, b). (x ∷ a, b)) (split_once_at sep xs) in
    if eqb x sep then some ([], xs) else rest

-- The characters of a text.
unfoldable pub chars : String → Text
chars String.[] = []
chars (String.◌∷◌ c s) = code c ∷ chars s
