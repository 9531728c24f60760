-- ===== src/Paging/Link/Printed.antt =====
-- The `Link` header that names the next page, against `parse_link_next` of paging.rs.
use mathlib.Core.List.{append_assoc}
use kr0ki.Common.{
  ℕ, ◌≡◌, ◌∙◌, refl, sym, ap, Bool, true, false, none, some, [], ◌∷◌, ◌++◌, ltb, eqb, length,
  length-append, arith,
}
use kr0ki.Common.Text.{is_whitespace}
use kr0ki.Common.Chars.{Text, trim_both, split_at, chars}
use kr0ki.Common.Chars.Splits.{
  NoneOf, NoneOf-append, split_at-none, split_at-append, trim_both-between,
}
use kr0ki.Paging.Link.{
  starts_with_char, ends_with_char, but_last, inner, entry_next, first_next, parse_link_next,
}

abbrev rel_next : Text
rel_next = chars " rel=\"next\""

-- The header of a page that another one follows: its URL in brackets, and the relation.
unfoldable pub next_link : Text → Text
unfolding chars
next_link url = b'<' ∷ (url ++ (b'>' ∷ b';' ∷ rel_next))

bracketed : Text → Text
bracketed url = b'<' ∷ (url ++ (b'>' ∷ []))

ends_with_char-last : (c : ℕ) (s : Text) → ends_with_char c (s ++ (c ∷ [])) ≡ true
unfolding ends_with_char
ends_with_char-last c [] = ground arith
ends_with_char-last c (x ∷ []) = ends_with_char-last c []
ends_with_char-last c (x ∷ y ∷ s) = ends_with_char-last c (y ∷ s)

but_last-last : (s : Text) (z : ℕ) → but_last (s ++ (z ∷ [])) ≡ s
unfolding but_last
but_last-last [] z = refl
but_last-last (x ∷ []) z = refl
but_last-last (x ∷ y ∷ s) z = ap (λ t. x ∷ t) (but_last-last (y ∷ s) z)

entry_next-bracketed : (url : Text) → entry_next (bracketed url ∷ rel_next ∷ []) ≡ some url
unfolding entry_next bracketed starts_with_char inner
entry_next-bracketed url =
    let whole : trim_both is_whitespace (bracketed url) ≡ bracketed url =
      trim_both-between is_whitespace b'<' url b'>' refl refl in
    let long : ltb (length (bracketed url)) 2 ≡ false =
      ground (arith, length-append url (b'>' ∷ [])) in
    let closed : ends_with_char b'>' (bracketed url) ≡ true =
      ends_with_char-last b'>' (b'<' ∷ url) in
    rw (whole, long, closed, but_last-last url b'>') refl

-- A header that names a URL without a comma or a semicolon as the next page's is read back as that
-- URL.
pub parse_link_next-next_link :
    (url : Text)
    → NoneOf (λ c. eqb c b',') url
    → NoneOf (λ c. eqb c b';') url
    → parse_link_next (next_link url) ≡ some url
unfolding parse_link_next first_next next_link bracketed
parse_link_next-next_link url no_comma no_semicolon =
    let at : ℕ → ℕ → Bool = λ sep c. eqb c sep in
    let one_entry : split_at (at b',') (next_link url) ≡ next_link url ∷ [] =
      split_at-none (at b',') (next_link url)
        (NoneOf-append (at b',') (b'<' ∷ url) (b'>' ∷ b';' ∷ rel_next) no_comma refl) in
    let front : Text = url ++ (b'>' ∷ b';' ∷ chars " rel=\"next") in
    let ended : next_link url ≡ b'<' ∷ (front ++ (b'"' ∷ [])) =
      ap (λ t. b'<' ∷ t) (sym (append_assoc url (b'>' ∷ b';' ∷ chars " rel=\"next") (b'"' ∷ []))) in
    let whole : trim_both is_whitespace (next_link url) ≡ next_link url =
      ap (trim_both is_whitespace) ended
      ∙ trim_both-between is_whitespace b'<' front b'"' refl refl
      ∙ sym ended in
    let parts : split_at (at b';') (next_link url) ≡ bracketed url ∷ rel_next ∷ [] =
      ap (λ t. split_at (at b';') (b'<' ∷ t)) (sym (append_assoc url (b'>' ∷ []) (b';' ∷ rel_next)))
      ∙ split_at-append (at b';') (bracketed url) b';' rel_next
          (NoneOf-append (at b';') (b'<' ∷ url) (b'>' ∷ []) no_semicolon refl) refl in
    let found : entry_next (split_at (at b';') (trim_both is_whitespace (next_link url)))
        ≡ some url =
      ap (λ t. entry_next (split_at (at b';') t)) whole
      ∙ ap entry_next parts
      ∙ entry_next-bracketed url in
    ap first_next one_entry ∙ ap (λ o. elim o [ some u ↦ some u | none ↦ first_next [] ]) found
