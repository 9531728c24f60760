-- ===== src/Runner/Summary/Counts.antt =====
-- verification_runner.rs, `parse_test_summary`: the counts of one line that was printed.
use kr0ki.Common.{
  ℕ, ◌^◌, ◌<◌, ◌≡◌, ◌∙◌, refl, ap, Bool, true, false, ◌||◌, ◌∷◌, ◌++◌, arith, eqb, find_map,
  unwrap_or,
}
use kr0ki.Common.Text.{is_digit, is_whitespace}
use kr0ki.Common.Chars.{Text, chars, split_at, trim_start}
use kr0ki.Common.Chars.Splits.{NoneOf, NoneOf-append, split_at-append}
use kr0ki.Runner.Summary.{count_in, count_before, text_starts_with, is_result_line}
use kr0ki.Runner.Summary.Numbers.{decimal}
use kr0ki.Runner.Summary.Printed.{
  Line, result, other, opening, print_line, passed-count_in, failed-count_in, second-count_in,
  decimal-NoneOf, digit-eqb,
}

-- What ends a line.
abbrev pub is_break : ℕ → Bool
is_break c = eqb c 10 || eqb c 13

-- The characters of a line, and that a line of no count does not look like one.
abbrev pub IsLine : Line → Type 0
IsLine (result fine passed failed rest) =
    (passed < 2 ^ 64) × (failed < 2 ^ 64) × NoneOf is_break rest
IsLine (other t) = NoneOf is_break t × (is_result_line t ≡ false)

digit-is_break : (c : ℕ) → is_digit c ≡ true → is_break c ≡ false
digit-is_break c h = ground (arith, h)

first_segment :
    (p : ℕ → Bool) (fine : Bool) (n : ℕ)
    → NoneOf p (opening fine)
    → NoneOf p (chars " passed")
    → ((c : ℕ) → is_digit c ≡ true → p c ≡ false)
    → n < 2 ^ 64
    → NoneOf p (opening fine ++ (decimal n ++ chars " passed"))
first_segment p fine n h k digits fits =
    NoneOf-append p (opening fine) _ h
      (NoneOf-append p (decimal n) (chars " passed") (decimal-NoneOf p n digits fits) k)

second_segment :
    (p : ℕ → Bool) (n : ℕ)
    → NoneOf p (chars " ")
    → NoneOf p (chars " failed")
    → ((c : ℕ) → is_digit c ≡ true → p c ≡ false)
    → n < 2 ^ 64
    → NoneOf p (32 ∷ (decimal n ++ chars " failed"))
unfolding chars
second_segment p n space k digits fits =
    NoneOf-append p (chars " ") _ space
      (NoneOf-append p (decimal n) (chars " failed") (decimal-NoneOf p n digits fits) k)

opening-semicolon : (fine : Bool) → NoneOf (λ c. eqb c 59) (opening fine)
unfolding opening chars
opening-semicolon true = refl
opening-semicolon false = refl

opening-is_break : (fine : Bool) → NoneOf is_break (opening fine)
unfolding opening chars
opening-is_break true = refl
opening-is_break false = refl

segments :
    (fine : Bool) (passed failed : ℕ) (rest : Text)
    → passed < 2 ^ 64
    → failed < 2 ^ 64
    → split_at (λ c. eqb c 59) (print_line (result fine passed failed rest))
      ≡ (opening fine ++ (decimal passed ++ chars " passed"))
        ∷ (32 ∷ (decimal failed ++ chars " failed"))
        ∷ split_at (λ c. eqb c 59) rest
unfolding print_line chars
segments fine passed failed rest fit_p fit_f =
    split_at-append (λ c. eqb c 59) (opening fine ++ (decimal passed ++ chars " passed")) 59 _
      (first_segment (λ c. eqb c 59) fine passed (opening-semicolon fine) refl
        (λ c h. digit-eqb 59 c (omega arith) h) fit_p)
      refl
    ∙ ap (λ ts. (opening fine ++ (decimal passed ++ chars " passed")) ∷ ts)
        (split_at-append (λ c. eqb c 59) (32 ∷ (decimal failed ++ chars " failed")) 59 rest
          (second_segment (λ c. eqb c 59) failed refl refl (λ c h. digit-eqb 59 c (omega arith) h)
            fit_f)
          refl)

pub passed-count_before :
    (fine : Bool) (passed failed : ℕ) (rest : Text)
    → passed < 2 ^ 64
    → failed < 2 ^ 64
    → count_before (print_line (result fine passed failed rest)) (chars "passed") ≡ passed
unfolding count_before
passed-count_before fine passed failed rest fit_p fit_f =
    ap (λ ts. unwrap_or (find_map (count_in (chars "passed")) ts) 0)
      (segments fine passed failed rest fit_p fit_f)
    ∙ rw (passed-count_in fine passed fit_p) refl

pub failed-count_before :
    (fine : Bool) (passed failed : ℕ) (rest : Text)
    → passed < 2 ^ 64
    → failed < 2 ^ 64
    → count_before (print_line (result fine passed failed rest)) (chars "failed") ≡ failed
unfolding count_before
failed-count_before fine passed failed rest fit_p fit_f =
    ap (λ ts. unwrap_or (find_map (count_in (chars "failed")) ts) 0)
      (segments fine passed failed rest fit_p fit_f)
    ∙ rw (failed-count_in fine passed fit_p, second-count_in failed fit_f) refl

pub result-is_result_line :
    (fine : Bool) (passed failed : ℕ) (rest : Text)
    → is_result_line (print_line (result fine passed failed rest)) ≡ true
unfolding is_result_line print_line opening chars trim_start text_starts_with is_whitespace
result-is_result_line true passed failed rest = refl
result-is_result_line false passed failed rest = refl

pub print_line-NoneOf : (l : Line) → IsLine l → NoneOf is_break (print_line l)
unfolding print_line chars
print_line-NoneOf (other t) h = h.0
print_line-NoneOf (result fine passed failed rest) (fit_p, fit_f, h) =
    NoneOf-append is_break (opening fine ++ (decimal passed ++ chars " passed")) _
      (first_segment is_break fine passed (opening-is_break fine) refl digit-is_break fit_p)
      (NoneOf-append is_break (59 ∷ (32 ∷ (decimal failed ++ chars " failed"))) (59 ∷ rest)
        (second_segment is_break failed refl refl digit-is_break fit_f) h)
