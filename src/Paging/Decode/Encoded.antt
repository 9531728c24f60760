-- ===== src/Paging/Decode/Encoded.antt =====
-- Percent-encoding as RFC 3986 has it, against `percent_decode` of paging.rs.
use kr0ki.Common.{
  ℕ, ◌+◌, ◌*◌, ◌/◌, ◌%◌, ◌<◌, ◌≡◌, ◌∙◌, refl, ap, ap₂, inl, inr, Bool, true, false, ◌&&◌, ◌||◌,
  Option, none, some, List, [], ◌∷◌, All, eqb, leb, if◌then◌else◌, arith, Bool-cases,
}
use kr0ki.Paging.Decode.{hex_val, escaped, plain, decode}

-- The unreserved characters: letters, digits, `-`, `.`, `_` and `~`.
unfoldable pub is_unreserved : ℕ → Bool
is_unreserved b =
    (leb b'A' b && leb b b'Z')
    || (leb b'a' b && leb b b'z')
    || (leb b'0' b && leb b b'9')
    || eqb b b'-'
    || eqb b b'.'
    || eqb b b'_'
    || eqb b b'~'

-- The digits from 0 to 9 and from A to F.
unfoldable pub hex_digit : ℕ → ℕ
hex_digit n = if leb n 9 then n + b'0' else n + 55

unfoldable pub encode : List ℕ → List ℕ
unfolding is_unreserved hex_digit
encode [] = []
encode (b ∷ bs) =
    let rest = encode bs in
    if is_unreserved b then b ∷ rest else b'%' ∷ hex_digit (b / 16) ∷ hex_digit (b % 16) ∷ rest

hex_val-hex_digit : (n : ℕ) → n < 16 → hex_val (hex_digit n) ≡ some n
unfolding hex_val hex_digit
hex_val-hex_digit n small = ground arith

escaped_plain : (b h l : ℕ) → eqb b b'%' ≡ false → escaped b h l ≡ none
unfolding escaped
escaped_plain b h l e = rw e refl

decode_by :
    (b h l : ℕ) (rest : List ℕ) (o : Option ℕ)
    → escaped b h l ≡ o
    → decode (b ∷ h ∷ l ∷ rest)
      ≡ (elim o [ some v ↦ v ∷ decode rest | none ↦ plain b ∷ decode (h ∷ l ∷ rest) ])
unfolding decode
decode_by b h l rest o e =
    ap (λ o. elim o [ some v ↦ v ∷ decode rest | none ↦ plain b ∷ decode (h ∷ l ∷ rest) ]) e

decode_plain : (b : ℕ) (bs : List ℕ) → is_unreserved b ≡ true → decode (b ∷ bs) ≡ b ∷ decode bs
unfolding decode is_unreserved plain
decode_plain b [] u = ground arith
decode_plain b (h ∷ []) u = ground arith
decode_plain b (h ∷ l ∷ rest) u =
    let e : eqb b b'%' ≡ false = ground arith in
    let p : plain b ≡ b = ground arith in
    decode_by b h l rest none (escaped_plain b h l e) ∙ ap (λ c. c ∷ decode (h ∷ l ∷ rest)) p

escaped_digits :
    (hi lo : ℕ)
    → hi < 16
    → lo < 16
    → escaped b'%' (hex_digit hi) (hex_digit lo) ≡ some (hi * 16 + lo)
unfolding escaped
escaped_digits hi lo high low =
    ap₂
      (λ o q. elim o [ none ↦ none | some h ↦ elim q [ none ↦ none | some l ↦ some (h * 16 + l) ] ])
      (hex_val-hex_digit hi high) (hex_val-hex_digit lo low)

decode_escaped :
    (hi lo : ℕ) (bs : List ℕ)
    → hi < 16
    → lo < 16
    → decode (b'%' ∷ hex_digit hi ∷ hex_digit lo ∷ bs) ≡ (hi * 16 + lo) ∷ decode bs
decode_escaped hi lo bs high low =
    decode_by b'%' (hex_digit hi) (hex_digit lo) bs (some (hi * 16 + lo))
      (escaped_digits hi lo high low)

-- Every list of bytes is what its percent-encoding decodes to.
pub decode-encode : (bs : List ℕ) → All (λ b. b < 256) bs → decode (encode bs) ≡ bs
unfolding encode decode
decode-encode [] small = refl
decode-encode (b ∷ bs) (small, rest) = elim (Bool-cases (is_unreserved b)) [
  | inl u ↦ rw u (decode_plain b (encode bs) u ∙ ap (λ r. b ∷ r) (decode-encode bs rest))
  | inr u ↦ rw u (
      decode_escaped (b / 16) (b % 16) (encode bs) (omega arith) (omega arith)
      ∙ ap₂ (λ c r. c ∷ r) (omega arith) (decode-encode bs rest))
]
