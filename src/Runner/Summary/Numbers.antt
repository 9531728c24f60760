-- ===== src/Runner/Summary/Numbers.antt =====
-- The decimal form of a number, and that it is read back.
use kr0ki.Common.{
  ℕ, zero, suc, ◌+◌, ◌-◌, ◌*◌, ◌/◌, ◌%◌, ◌^◌, ◌≤◌, ◌<◌, ◌≡◌, ◌∙◌, refl, ap, false, not, some, [],
  ◌∷◌, ◌++◌, arith, ltb, if◌then◌else◌, is_empty, Bool-cases, inl, inr,
}
use kr0ki.Common.Text.{is_digit}
use kr0ki.Common.Chars.{Text}
use kr0ki.Common.Chars.Splits.{NoneOf}
use kr0ki.Runner.Summary.{parse_digits, parse_unsigned, parse_usize}

unfoldable pub decimal_on : ℕ → ℕ → Text
decimal_on zero n = []
decimal_on (suc k) n =
    let high = decimal_on k (n / 10) in (if ltb n 10 then [] else high) ++ ((b'0' + n % 10) ∷ [])

-- `Display` of a number; a number has no more digits than its successor counts.
unfoldable pub decimal : ℕ → Text
unfolding decimal_on
decimal n = decimal_on (suc n) n

parse_digits-snoc :
    (s : Text) (a n d : ℕ)
    → parse_digits a s ≡ some n
    → d < 10
    → n * 10 + d < 2 ^ 64
    → parse_digits a (s ++ ((b'0' + d) ∷ [])) ≡ some (n * 10 + d)
unfolding parse_digits
parse_digits-snoc [] a n d h lt fits = let e : a ≡ n = cc in ground (arith, e, lt, fits)
parse_digits-snoc (c ∷ s) a n d h lt fits =
    let more = parse_digits-snoc s (a * 10 + (c - b'0')) n d in ground (arith, more, h, lt, fits)

decimal_on-read : (k n : ℕ) → n < k → n < 2 ^ 64 → parse_digits 0 (decimal_on k n) ≡ some n
unfolding decimal_on parse_digits
decimal_on-read zero n lt fits = absurd (omega arith)
decimal_on-read (suc k) n lt fits = elim (Bool-cases (ltb n 10)) [
  | inl small ↦
      let digit : n % 10 ≡ n = ground (arith, small) in
      let below : n < 10 = ground (arith, small) in
      rw small (
        parse_digits-snoc [] 0 0 (n % 10) refl (omega arith) (omega arith)
        ∙ ap some (omega (arith, digit)))
  | inr large ↦
      let ten : 10 ≤ n = ground (arith, large) in
      let high = decimal_on-read k (n / 10) (omega arith) (omega arith) in
      let whole : n / 10 * 10 + n % 10 ≡ n = omega arith in
      rw large (
        parse_digits-snoc (decimal_on k (n / 10)) 0 (n / 10) (n % 10) high (omega arith)
          (omega arith)
        ∙ ap some whole)
]

-- What is read as a number has digits only.
parse_digits-AllDigits :
    (s : Text) (a n : ℕ) → parse_digits a s ≡ some n → NoneOf (λ c. not (is_digit c)) s
unfolding parse_digits
parse_digits-AllDigits [] a n h = refl
parse_digits-AllDigits (c ∷ s) a n h =
    let more = parse_digits-AllDigits s (a * 10 + (c - b'0')) n in ground (arith, more, h)

parse_usize-digits :
    (s : Text) (d n : ℕ)
    → parse_digits 0 (s ++ (d ∷ [])) ≡ some n
    → parse_usize (s ++ (d ∷ [])) ≡ some n
unfolding parse_usize parse_unsigned parse_digits
parse_usize-digits [] d n h = ground (arith, h)
parse_usize-digits (c ∷ s) d n h = ground (arith, h)

pub parse_usize-decimal : (n : ℕ) → n < 2 ^ 64 → parse_usize (decimal n) ≡ some n
unfolding decimal decimal_on
parse_usize-decimal n fits =
    parse_usize-digits (if ltb n 10 then [] else decimal_on n (n / 10)) (b'0' + n % 10) n
      (decimal_on-read (suc n) n (omega arith) fits)

append-full : (s : Text) (d : ℕ) → is_empty (s ++ (d ∷ [])) ≡ false
append-full [] d = refl
append-full (c ∷ s) d = refl

pub decimal-AllDigits : (n : ℕ) → n < 2 ^ 64 → NoneOf (λ c. not (is_digit c)) (decimal n)
unfolding decimal
decimal-AllDigits n fits =
    parse_digits-AllDigits (decimal n) 0 n (decimal_on-read (suc n) n (omega arith) fits)

pub decimal-full : (n : ℕ) → is_empty (decimal n) ≡ false
unfolding decimal decimal_on
decimal-full n = append-full (if ltb n 10 then [] else decimal_on n (n / 10)) (b'0' + n % 10)
