-- ===== src/Paging/Decode.antt =====
-- paging.rs, `hex_val`, `percent_decode` and `extract_query_param`.
pub mod Encoded
use kr0ki.Common.{
  ℕ, ◌+◌, ◌-◌, ◌*◌, Bool, true, false, not, ◌&&◌, Option, none, some, List, [], ◌∷◌, eqb, leb,
  if◌then◌else◌, option_map, unwrap_or,
}
use kr0ki.Common.Chars.{Text, same, split_at, split_once_at}

-- The bytes of a text, and the text of bytes that may not be UTF-8: `as_bytes` and
-- `from_utf8_lossy`.
pub record Utf8 : Type 0 where
  pub as_bytes : Text → List ℕ
  pub from_utf8_lossy : List ℕ → Text

unfoldable pub hex_val : ℕ → Option ℕ
hex_val b =
    if leb b'0' b && leb b b'9'
    then some (b - b'0')
    else if leb b'a' b && leb b b'f'
    then some (b - b'a' + 10)
    else if leb b'A' b && leb b b'F'
    then some (b - b'A' + 10)
    else none

-- The byte that `%` and two hexadecimal digits stand for.
unfoldable pub escaped : ℕ → ℕ → ℕ → Option ℕ
escaped b h l =
    if eqb b b'%'
    then elim (hex_val h) [
      | none ↦ none
      | some hi ↦ elim (hex_val l) [ none ↦ none | some lo ↦ some (hi * 16 + lo) ]
    ]
    else none

unfoldable pub plain : ℕ → ℕ
plain b = if eqb b b'+' then 32 else b

-- The loop of `percent_decode`, on the bytes that are left.
unfoldable pub decode : List ℕ → List ℕ
decode [] = []
decode (b ∷ []) = plain b ∷ []
decode (b ∷ h ∷ []) = plain b ∷ decode (h ∷ [])
decode (b ∷ h ∷ l ∷ rest) = elim (escaped b h l) [
  | some v ↦ v ∷ decode rest
  | none ↦ plain b ∷ decode (h ∷ l ∷ rest)
]

unfoldable pub percent_decode : Utf8 → Text → Text
unfolding decode escaped plain hex_val
percent_decode utf8 s = utf8.from_utf8_lossy (decode (utf8.as_bytes s))

-- The first piece of a `split`, which is never absent.
unfoldable pub first_piece : List Text → Text
first_piece [] = []
first_piece (s ∷ ss) = s

unfoldable pub find_param : Utf8 → Text → List Text → Option Text
unfolding percent_decode
find_param utf8 key [] = none
find_param utf8 key (pair ∷ pairs) =
    let rest = find_param utf8 key pairs in
    elim (split_once_at b'=' pair) [
      | none ↦ rest
      | some (k, v) ↦ if same k key then some (percent_decode utf8 v) else rest
    ]

unfoldable pub extract_query_param : Utf8 → Text → Text → Option Text
unfolding find_param first_piece split_at
extract_query_param utf8 url key =
    let after_q = unwrap_or (option_map (λ (base, q). q) (split_once_at b'?' url)) [] in
    find_param utf8 key
      (split_at (λ c. eqb c b'&') (first_piece (split_at (λ c. eqb c b'#') after_q)))
