-- ===== src/Paging/Cursor.antt =====
-- The cursor that a server names in a `Link` header, against `derive_next_after` of paging.rs.
use kr0ki.Common.{
  ℕ, ◌/◌, ◌%◌, ◌<◌, ◌≡◌, ◌∙◌, refl, ap, inl, inr, Bool, true, false, Option, none, some, List, [],
  ◌∷◌, ◌++◌, All, eqb, leb, if◌then◌else◌, is_empty, and_then, arith, Bool-cases,
}
use kr0ki.Common.Chars.{Text, same, split_at, split_once_at, chars}
use kr0ki.Common.Chars.Splits.{
  NoneOf, NoneOf-append, split_at-none, split_once_at-append, same_refl,
}
use kr0ki.Paging.{
  PageParamStyle, hyphenated, json_api_bracket, after_key, linked, full_page, derive_next_after,
}
use kr0ki.Paging.Decode.{Utf8, decode, percent_decode, find_param, first_piece, extract_query_param}
use kr0ki.Paging.Decode.Encoded.{is_unreserved, hex_digit, encode, decode-encode}
use kr0ki.Paging.Link.Printed.{next_link, parse_link_next-next_link}

hex_digit_unreserved : (n : ℕ) → n < 16 → is_unreserved (hex_digit n) ≡ true
unfolding is_unreserved hex_digit
hex_digit_unreserved n small = ground arith

-- What no unreserved character has, nor `%`, no character of an encoding has.
encode-NoneOf :
    (p : ℕ → Bool) (bs : List ℕ)
    → ((c : ℕ) → is_unreserved c ≡ true → p c ≡ false)
    → p b'%' ≡ false
    → All (λ b. b < 256) bs
    → NoneOf p (encode bs)
unfolding encode
encode-NoneOf p [] kept percent small = refl
encode-NoneOf p (b ∷ bs) kept percent (small, rest) =
    let later = encode-NoneOf p bs kept percent rest in
    elim (Bool-cases (is_unreserved b)) [
      | inl u ↦ rw (u, kept b u) later
      | inr u ↦
          rw
            (
              u,
              percent,
              kept (hex_digit (b / 16)) (hex_digit_unreserved (b / 16) (omega arith)),
              kept (hex_digit (b % 16)) (hex_digit_unreserved (b % 16) (omega arith)),
            )
            later
    ]

is_unreserved_ascii : (c : ℕ) → is_unreserved c ≡ true → leb 128 c ≡ false
unfolding is_unreserved
is_unreserved_ascii c u = ground arith

encode-lacks :
    (sep : ℕ) (bs : List ℕ)
    → is_unreserved sep ≡ false
    → eqb b'%' sep ≡ false
    → All (λ b. b < 256) bs
    → NoneOf (λ c. eqb c sep) (encode bs)
encode-lacks sep bs reserved percent small =
    encode-NoneOf (λ c. eqb c sep) bs
      (λ c u. elim (Bool-cases (eqb c sep)) [
        | inr other_ ↦ other_
        | inl same_ ↦ let e : c ≡ sep = ground (arith, same_) in absurd (cc)
      ])
      percent small

-- What is relied on of the bytes of a text: those of ASCII characters are their numbers, and the
-- bytes of a text that has a UTF-8 form are read back.
pub record IsUtf8 (utf8 : Utf8) : Type 0 where
  pub as_bytes-ascii : (s : Text) → NoneOf (λ c. leb 128 c) s → utf8.as_bytes s ≡ s

pub record HasBytes (utf8 : Utf8) (s : Text) : Type 0 where
  pub bytes : All (λ b. b < 256) (utf8.as_bytes s)
  pub read_back : utf8.from_utf8_lossy (utf8.as_bytes s) ≡ s

-- The URL of the page behind an element, and what is asked for in it.
abbrev query_of : Utf8 → PageParamStyle → Text → Text
query_of utf8 style cursor = after_key style ++ (b'=' ∷ encode (utf8.as_bytes cursor))

abbrev pub page_url : Utf8 → PageParamStyle → Text → Text → Text
page_url utf8 style base cursor = base ++ (b'?' ∷ query_of utf8 style cursor)

key-lacks :
    (p : ℕ → Bool) (style : PageParamStyle)
    → NoneOf p (chars "page-after")
    → NoneOf p (chars "page[after]")
    → NoneOf p (after_key style)
unfolding after_key
key-lacks p hyphenated h j = h
key-lacks p json_api_bracket h j = j

module _ (utf8 : Utf8) (laws : IsUtf8 utf8) (style : PageParamStyle) (cursor : Text)
    (text : HasBytes utf8 cursor) where
  query-lacks :
      (sep : ℕ)
      → is_unreserved sep ≡ false
      → eqb b'%' sep ≡ false
      → eqb b'=' sep ≡ false
      → NoneOf (λ c. eqb c sep) (after_key style)
      → NoneOf (λ c. eqb c sep) (query_of utf8 style cursor)
  query-lacks sep reserved percent equals key =
      NoneOf-append (λ c. eqb c sep) (after_key style) (b'=' ∷ encode (utf8.as_bytes cursor)) key
        (rw equals (encode-lacks sep (utf8.as_bytes cursor) reserved percent text.bytes))

  percent_decode-encode : percent_decode utf8 (encode (utf8.as_bytes cursor)) ≡ cursor
  unfolding percent_decode
  percent_decode-encode =
      let bs = utf8.as_bytes cursor in
      let plain_ : utf8.as_bytes (encode bs) ≡ encode bs =
        laws.as_bytes-ascii (encode bs)
          (encode-NoneOf (λ c. leb 128 c) bs (λ c u. is_unreserved_ascii c u) refl text.bytes) in
      ap (λ s. utf8.from_utf8_lossy (decode s)) plain_
      ∙ ap utf8.from_utf8_lossy (decode-encode bs text.bytes)
      ∙ text.read_back

  extract_query_param-page_url :
      (base : Text)
      → NoneOf (λ c. eqb c b'?') base
      → extract_query_param utf8 (page_url utf8 style base cursor) (after_key style) ≡ some cursor
  unfolding extract_query_param find_param first_piece chars is_unreserved
  extract_query_param-page_url base no_query =
      let query = query_of utf8 style cursor in
      let whole : split_at (λ c. eqb c b'#') query ≡ query ∷ [] =
        split_at-none (λ c. eqb c b'#') query
          (query-lacks b'#' refl refl refl (key-lacks (λ c. eqb c b'#') style refl refl)) in
      let one : split_at (λ c. eqb c b'&') query ≡ query ∷ [] =
        split_at-none (λ c. eqb c b'&') query
          (query-lacks b'&' refl refl refl (key-lacks (λ c. eqb c b'&') style refl refl)) in
      let pair : split_once_at b'=' query ≡ some (after_key style, encode (utf8.as_bytes cursor)) =
        split_once_at-append b'=' (after_key style) (encode (utf8.as_bytes cursor))
          (key-lacks (λ c. eqb c b'=') style refl refl) in
      let found : find_param utf8 (after_key style) (query ∷ []) ≡ some cursor =
        ap
          (λ o. elim o [
            | none ↦ none
            | some (k, v) ↦ if same k (after_key style) then some (percent_decode utf8 v) else none
          ])
          pair
        ∙ rw (same_refl (after_key style), percent_decode-encode) refl in
      rw (split_once_at-append b'?' base query no_query, whole, one) found

-- The cursor that a server names in a `Link` header, percent-encoded in the URL of the next page, is
-- the one that is derived, whatever the elements of the page and the size that was asked for. The
-- cursor is not empty, and the rest of the URL has no comma, semicolon or question mark.
pub derive_next_after-next_link :
    {A : Type 0} (at_id : A → Text) (utf8 : Utf8) (style : PageParamStyle) (base cursor : Text)
    (items : List A) (size : Option ℕ)
    → IsUtf8 utf8
    → HasBytes utf8 cursor
    → is_empty cursor ≡ false
    → NoneOf (λ c. eqb c b',') base
    → NoneOf (λ c. eqb c b';') base
    → NoneOf (λ c. eqb c b'?') base
    → derive_next_after at_id utf8
        (some (next_link (page_url utf8 style base cursor)))
        items
        size
        style
      ≡ some cursor
unfolding derive_next_after linked chars is_unreserved
derive_next_after-next_link at_id utf8 style base cursor items size laws text named no_comma
      no_semicolon no_query =
    let url = page_url utf8 style base cursor in
    let query = query_of utf8 style cursor in
    let comma : NoneOf (λ c. eqb c b',') url =
      NoneOf-append (λ c. eqb c b',') base (b'?' ∷ query) no_comma
        (query-lacks utf8 laws style cursor text b',' refl refl refl
          (key-lacks (λ c. eqb c b',') style refl refl)) in
    let semicolon : NoneOf (λ c. eqb c b';') url =
      NoneOf-append (λ c. eqb c b';') base (b'?' ∷ query) no_semicolon
        (query-lacks utf8 laws style cursor text b';' refl refl refl
          (key-lacks (λ c. eqb c b';') style refl refl)) in
    let kept : Text → Option Text = λ c. if is_empty c then none else some c in
    let asked : Text → Option Text =
      λ u. and_then (extract_query_param utf8 u (after_key style)) kept in
    let cursor_linked : linked utf8 (some (next_link url)) style ≡ some cursor =
      ap (λ o. and_then o asked) (parse_link_next-next_link url comma semicolon)
      ∙ ap (λ o. and_then o kept)
          (extract_query_param-page_url utf8 laws style cursor text base no_query)
      ∙ rw named refl in
    ap (λ o. elim o [ some c ↦ some c | none ↦ full_page at_id items size ]) cursor_linked
