-- ===== src/Runner/Summary/Printed.antt =====
-- What is read of the lines that a test run prints.
use kr0ki.Common.{
  ℕ, ◌^◌, ◌<◌, ◌≡◌, ◌∙◌, refl, ap, Bool, true, false, not, none, some, List, [], ◌∷◌, ◌++◌, arith,
  eqb, if◌then◌else◌, is_empty,
}
use kr0ki.Common.Text.{is_digit, is_whitespace}
use kr0ki.Common.Chars.{Text, chars, same, split_at}
use kr0ki.Common.Chars.Splits.{NoneOf, split_at-append, split_at-none}
use kr0ki.Runner.Summary.{split_whitespace, position, checked_pred, count_of, count_in}
use kr0ki.Runner.Summary.Numbers.{decimal, parse_usize-decimal, decimal-AllDigits, decimal-full}

-- A line that sums up the tests of one binary, and any other line.
pub data Line : Type 0 where
  result : Bool → ℕ → ℕ → Text → Line
  other : Text → Line

unfoldable pub opening : Bool → Text
unfolding chars
opening fine = if fine then chars "test result: ok. " else chars "test result: FAILED. "

unfoldable pub print_line : Line → Text
unfolding opening chars
print_line (result fine passed failed rest) =
    (opening fine ++ (decimal passed ++ chars " passed"))
    ++ (59 ∷ ((32 ∷ (decimal failed ++ chars " failed")) ++ (59 ∷ rest)))
print_line (other t) = t

AllDigits-weaken :
    (p : ℕ → Bool) (s : Text)
    → ((c : ℕ) → is_digit c ≡ true → p c ≡ false)
    → NoneOf (λ c. not (is_digit c)) s
    → NoneOf p s
AllDigits-weaken p [] h k = refl
AllDigits-weaken p (c ∷ s) h k =
    let digit : is_digit c ≡ true = ground (arith, k) in
    let more = AllDigits-weaken p s h in let head = h c digit in ground (arith, more, head, k)

digit-is_whitespace : (c : ℕ) → is_digit c ≡ true → is_whitespace c ≡ false
unfolding is_whitespace
digit-is_whitespace c h = ground (arith, h)

pub digit-eqb : (sep c : ℕ) → 57 < sep → is_digit c ≡ true → eqb c sep ≡ false
digit-eqb sep c lt h = ground (arith, lt, h)

pub decimal-NoneOf :
    (p : ℕ → Bool) (n : ℕ)
    → ((c : ℕ) → is_digit c ≡ true → p c ≡ false)
    → n < 2 ^ 64
    → NoneOf p (decimal n)
decimal-NoneOf p n h fits = AllDigits-weaken p (decimal n) h (decimal-AllDigits n fits)

digits-same :
    (s : Text) (w : ℕ) (word : Text)
    → NoneOf (λ c. not (is_digit c)) s
    → is_digit w ≡ false
    → same s (w ∷ word) ≡ false
unfolding same
digits-same [] w word h k = refl
digits-same (c ∷ s) w word h k = ground (arith, h, k)

-- The words of a text that begins with a word and a space.
words-word :
    (s t : Text)
    → is_empty s ≡ false
    → NoneOf is_whitespace s
    → split_whitespace (s ++ (32 ∷ t)) ≡ s ∷ split_whitespace t
unfolding split_whitespace is_whitespace
words-word s t full spaceless =
    rw (split_whitespace, split_at-append is_whitespace s 32 t spaceless refl) (rw full refl)

words-last : (s : Text) → is_empty s ≡ false → NoneOf is_whitespace s → split_whitespace s ≡ s ∷ []
unfolding split_whitespace
words-last s full spaceless =
    rw (split_whitespace, split_at-none is_whitespace s spaceless) (rw full refl)

words-space : (t : Text) → split_whitespace (32 ∷ t) ≡ split_whitespace t
unfolding split_whitespace split_at is_whitespace
words-space t = refl

-- The words of a number and a word behind it.
counted : ℕ → Text → List Text
counted n word = decimal n ∷ word ∷ []

words-counted :
    (n : ℕ) (word : Text)
    → n < 2 ^ 64
    → is_empty word ≡ false
    → NoneOf is_whitespace word
    → split_whitespace (decimal n ++ (32 ∷ word)) ≡ counted n word
unfolding counted
words-counted n word fits full spaceless =
    words-word (decimal n) word (decimal-full n)
      (decimal-NoneOf is_whitespace n digit-is_whitespace fits)
    ∙ ap (λ ts. decimal n ∷ ts) (words-last word full spaceless)

-- What the two segments of a line that count tests hold.
status : Bool → Text
status fine = if fine then chars "ok." else chars "FAILED."

words-opened :
    (word end : Text) (ts : List Text)
    → is_empty word ≡ false
    → NoneOf is_whitespace word
    → split_whitespace end ≡ ts
    → split_whitespace (chars "test result: " ++ (word ++ (32 ∷ end)))
      ≡ chars "test" ∷ chars "result:" ∷ word ∷ ts
unfolding chars is_whitespace
words-opened word end ts full spaceless h =
    words-word (chars "test") (chars "result: " ++ (word ++ (32 ∷ end))) refl refl
    ∙ ap (λ ts. chars "test" ∷ ts)
        (words-word (chars "result:") (word ++ (32 ∷ end)) refl refl
          ∙ ap (λ ts. chars "result:" ∷ ts)
              (words-word word end full spaceless ∙ ap (λ ts. word ∷ ts) h))

passed_words :
    (fine : Bool) (n : ℕ)
    → n < 2 ^ 64
    → split_whitespace (opening fine ++ (decimal n ++ chars " passed"))
      ≡ chars "test" ∷ chars "result:" ∷ status fine ∷ counted n (chars "passed")
unfolding chars is_whitespace opening status
passed_words true n fits =
    words-opened (chars "ok.") (decimal n ++ chars " passed") (counted n (chars "passed")) refl refl
      (words-counted n (chars "passed") fits refl refl)
passed_words false n fits =
    words-opened (chars "FAILED.") (decimal n ++ chars " passed") (counted n (chars "passed")) refl
      refl (words-counted n (chars "passed") fits refl refl)

status-same :
    (fine : Bool)
    → (same (status fine) (chars "passed") ≡ false) × (same (status fine) (chars "failed") ≡ false)
unfolding status same chars
status-same true = (refl, refl)
status-same false = (refl, refl)

decimal-same :
    (n w : ℕ) (word : Text) → n < 2 ^ 64 → is_digit w ≡ false → same (decimal n) (w ∷ word) ≡ false
decimal-same n w word fits letter = digits-same (decimal n) w word (decimal-AllDigits n fits) letter

pub passed-count_in :
    (fine : Bool) (n : ℕ)
    → n < 2 ^ 64
    → count_in (chars "passed") (opening fine ++ (decimal n ++ chars " passed")) ≡ some n
unfolding count_in count_of counted position checked_pred same chars
passed-count_in fine n fits =
    ap (count_of (chars "passed")) (passed_words fine n fits)
    ∙ rw ((status-same fine).0, decimal-same n b'p' (chars "assed") fits refl)
        (parse_usize-decimal n fits)

pub failed-count_in :
    (fine : Bool) (n : ℕ)
    → n < 2 ^ 64
    → count_in (chars "failed") (opening fine ++ (decimal n ++ chars " passed")) ≡ none
unfolding count_in count_of counted position checked_pred same chars
failed-count_in fine n fits =
    ap (count_of (chars "failed")) (passed_words fine n fits)
    ∙ rw ((status-same fine).1, decimal-same n b'f' (chars "ailed") fits refl) refl

pub second-count_in :
    (n : ℕ) → n < 2 ^ 64 → count_in (chars "failed") (32 ∷ (decimal n ++ chars " failed")) ≡ some n
unfolding count_in count_of counted position checked_pred same chars is_whitespace
second-count_in n fits =
    ap (count_of (chars "failed"))
      (words-space (decimal n ++ chars " failed") ∙ words-counted n (chars "failed") fits refl refl)
    ∙ rw (decimal-same n b'f' (chars "ailed") fits refl) (parse_usize-decimal n fits)
