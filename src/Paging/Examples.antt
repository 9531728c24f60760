-- ===== src/Paging/Examples.antt =====
-- Pages of a server with three elements.
use kr0ki.Common.{
  ℕ, ◌<◌, ◌≡◌, refl, Bool, true, false, Option, none, some, List, [], ◌∷◌, All, arith, is_empty,
  eqb,
}
use kr0ki.Common.Results.{ok}
use kr0ki.Common.Chars.{Text, chars}
use kr0ki.Paging.{hyphenated, json_api_bracket, derive_next_after, all_elements, page_of}
use kr0ki.Paging.Decode.{Utf8}
use kr0ki.Paging.Link.Printed.{next_link}
use kr0ki.Paging.Cursor.{IsUtf8, HasBytes, page_url, derive_next_after-next_link}
use kr0ki.Paging.Complete.{served, all_elements-served}

-- The bytes of texts of ASCII characters.
abbrev ascii : Utf8
ascii = record { as_bytes = λ s. s; from_utf8_lossy = λ s. s }

ascii-IsUtf8 : IsUtf8 ascii
ascii-IsUtf8 = record { as_bytes-ascii = λ s h. refl }

-- A cursor with a character that is encoded: `a+`.
abbrev cursor : Text
cursor = b'a' ∷ b'+' ∷ []

cursor-HasBytes : HasBytes ascii cursor
cursor-HasBytes = record { bytes = (omega arith, (omega arith, tt)); read_back = refl }

abbrev base : Text
base = b'/' ∷ b'p' ∷ []

derive_next_after-next_link_example :
    derive_next_after
      (λ (s : Text). s)
      ascii
      (some (next_link (page_url ascii json_api_bracket base cursor)))
      []
      none
      json_api_bracket
    ≡ some cursor
derive_next_after-next_link_example =
    derive_next_after-next_link (λ s. s) ascii json_api_bracket base cursor [] none ascii-IsUtf8
      cursor-HasBytes refl refl refl refl

abbrev three : List Text
three = (b'a' ∷ []) ∷ cursor ∷ (b'c' ∷ []) ∷ []

letter : (c : ℕ) → c < 256 → HasBytes ascii (c ∷ []) × (is_empty (c ∷ []) ≡ false)
letter c small = (record { bytes = (small, tt); read_back = refl }, refl)

all_elements-served_example :
    all_elements {W = ℕ} {A = Text} {E = ℕ}
      (λ after w. (
        w,
        page_of
            (λ s. s)
            ascii
            hyphenated
            (ok (served (λ s. s) ascii hyphenated base 2 three after)),
      ))
      4
      0
    ≡ (0, some (ok three))
unfolding kr0ki.Common.Chars.same
all_elements-served_example =
    all_elements-served (λ s. s) ascii hyphenated base 1 3 three 0 ascii-IsUtf8 refl refl refl
      ((refl, (refl, tt)), ((refl, tt), (tt, tt)))
      (letter b'a' (omega arith), ((cursor-HasBytes, refl), (letter b'c' (omega arith), tt)))
      (omega arith)

-- A header that names no next page, and a full page: a cursor is guessed all the same.
guessed :
    derive_next_after
      (λ (s : Text). s)
      ascii
      (some (chars "</p>; rel=\"last\""))
      three
      (some 3)
      hyphenated
    ≡ some (b'c' ∷ [])
unfolding derive_next_after
guessed = refl
