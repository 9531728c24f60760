-- ===== src/Common/Text.antt =====
-- The functions of Rust's `str` and `char` that the components call.
pub mod Prefixes
use Prim.Native.Nat.{ℕ, zero, suc}
use Prim.Native.Char.{Char, code}
use Prim.Native.String.{String}
use mathlib.Core.Bool.{Bool, true, false, not, ◌&&◌, ◌||◌}
use mathlib.Core.Option.{Option, none, some}
use mathlib.Core.List.{List, [], ◌∷◌}
use kr0ki.Common.Tests.{leb, eqb, if◌then◌else◌}
use kr0ki.Common.Lists.{option_map}

-- `u8::is_ascii_digit`, on the number of a character
abbrev pub is_digit : ℕ → Bool
is_digit c = leb b'0' c && leb c b'9'

-- `char::is_whitespace`: the characters with the Unicode property White_Space
unfoldable pub is_whitespace : ℕ → Bool
is_whitespace c =
    (leb 9 c && leb c 13)
    || eqb c 32
    || eqb c 0x85
    || eqb c 0xa0
    || eqb c 0x1680
    || (leb 0x2000 c && leb c 0x200a)
    || eqb c 0x2028
    || eqb c 0x2029
    || eqb c 0x202f
    || eqb c 0x205f
    || eqb c 0x3000

-- `s.chars().any(p)` and `s.chars().all(p)`, a character given by its number
unfoldable pub any_char : (ℕ → Bool) → String → Bool
any_char p String.[] = false
any_char p (String.◌∷◌ c s) = p (code c) || any_char p s

unfoldable pub all_chars : (ℕ → Bool) → String → Bool
all_chars p String.[] = true
all_chars p (String.◌∷◌ c s) = p (code c) && all_chars p s

-- `!s.trim().is_empty()`: some character is no white space
unfoldable pub trims_to_something : String → Bool
unfolding is_whitespace any_char
trims_to_something s = any_char (λ c. not (is_whitespace c)) s

-- `strip_prefix`
unfoldable pub strip_prefix : String → String → Option String
strip_prefix String.[] s = some s
strip_prefix (String.◌∷◌ c p) String.[] = none
strip_prefix (String.◌∷◌ c p) (String.◌∷◌ d s) =
    let rest = strip_prefix p s in if eqb (code c) (code d) then rest else none

-- `s.chars().take(n).collect()`
unfoldable pub take_chars : ℕ → String → String
take_chars zero s = String.[]
take_chars (suc n) String.[] = String.[]
take_chars (suc n) (String.◌∷◌ c s) = String.◌∷◌ c (take_chars n s)

grow : Char → List String → List String
grow c [] = String.◌∷◌ c String.[] ∷ []
grow c (s ∷ ss) = String.◌∷◌ c s ∷ ss

-- `split`, at a character given by its number
unfoldable pub split : ℕ → String → List String
unfolding grow
split sep String.[] = String.[] ∷ []
split sep (String.◌∷◌ c s) =
    let rest = split sep s in if eqb (code c) sep then String.[] ∷ rest else grow c rest

-- `split_once`
unfoldable pub split_once : ℕ → String → Option (String × String)
split_once sep String.[] = none
split_once sep (String.◌∷◌ c s) =
    let rest = option_map (λ (a, b). (String.◌∷◌ c a, b)) (split_once sep s) in
    if eqb (code c) sep then some (String.[], s) else rest
