-- ===== src/Runner/Summary/Sums.antt =====
-- verification_runner.rs, `parse_test_summary`, on the output of several test binaries.
use kr0ki.Common.{
  ℕ, ◌+◌, ◌%◌, ◌^◌, ◌<◌, ◌≡◌, ◌∙◌, refl, ap, ap₂, Bool, true, false, List, [], ◌∷◌, ◌++◌, arith,
  eqb, Bool-cases, inl, inr, All,
}
use kr0ki.Common.Chars.{Text, chars, split_at, push_first}
use kr0ki.Common.Chars.Splits.{NoneOf, split_at-append}
use kr0ki.Runner.Summary.{
  strip_return, ended, lines, count_before, is_result_line, sum_lines, parse_test_summary,
}
use kr0ki.Runner.Summary.Printed.{Line, result, other, print_line}
use kr0ki.Runner.Summary.Counts.{
  is_break, IsLine, passed-count_before, failed-count_before, result-is_result_line,
  print_line-NoneOf,
}

unfoldable pub print_lines : List Line → Text
unfolding print_line
print_lines [] = []
print_lines (l ∷ ls) = print_line l ++ (10 ∷ print_lines ls)

abbrev pub passed_of : Line → ℕ
passed_of (result fine passed failed rest) = passed
passed_of (other t) = 0

abbrev pub failed_of : Line → ℕ
failed_of (result fine passed failed rest) = failed
failed_of (other t) = 0

abbrev pub total : (Line → ℕ) → List Line → ℕ
total count [] = 0
total count (l ∷ ls) = count l + total count ls

other-is_result_line :
    (t : Text) → is_result_line t ≡ false → is_result_line (print_line (other t)) ≡ false
unfolding print_line
other-is_result_line t h = h

-- Lines that end in a line feed alone are read as they were.
split_at-cons : (p : ℕ → Bool) (s : Text) → (m : Text) × (ms : List Text) × (split_at p s ≡ m ∷ ms)
unfolding split_at push_first
split_at-cons p [] = ([], [], refl)
split_at-cons p (c ∷ s) =
    let (m, ms, e) = split_at-cons p s in
    elim (Bool-cases (p c)) [
      | inl here ↦ rw here ([], split_at p s, refl)
      | inr later ↦ rw later (c ∷ m, ms, ap (push_first c) e)
    ]

strip_return-none : (s : Text) → NoneOf is_break s → strip_return s ≡ s
unfolding strip_return
strip_return-none [] h = refl
strip_return-none (c ∷ []) h = ground (arith, h)
strip_return-none (c ∷ d ∷ s) h =
    let more = strip_return-none (d ∷ s) (ground (arith, h)) in ap (λ t. c ∷ t) more

NoneOf-feed : (s : Text) → NoneOf is_break s → NoneOf (λ c. eqb c 10) s
NoneOf-feed [] h = refl
NoneOf-feed (c ∷ s) h = let more = NoneOf-feed s (ground (arith, h)) in ground (arith, more, h)

lines-line : (l rest : Text) → NoneOf is_break l → lines (l ++ (10 ∷ rest)) ≡ l ∷ lines rest
unfolding lines ended
lines-line l rest h =
    let (m, ms, e) = split_at-cons (λ c. eqb c 10) rest in
    ap ended (split_at-append (λ c. eqb c 10) l 10 rest (NoneOf-feed l h) refl)
    ∙ rw e (ap (λ t. t ∷ ended (m ∷ ms)) (strip_return-none l h))

sum_lines-skipped :
    (p f : ℕ) (l : Text) (ls : List Text)
    → is_result_line l ≡ false
    → sum_lines (p, f) (l ∷ ls) ≡ sum_lines (p, f) ls
unfolding sum_lines
sum_lines-skipped p f l ls e = rw e refl

sum_lines-counted :
    (p f a b : ℕ) (l : Text) (ls : List Text)
    → is_result_line l ≡ true
    → count_before l (chars "passed") ≡ a
    → count_before l (chars "failed") ≡ b
    → p + a < 2 ^ 64
    → f + b < 2 ^ 64
    → sum_lines (p, f) (l ∷ ls) ≡ sum_lines (p + a, f + b) ls
unfolding sum_lines
sum_lines-counted p f a b l ls e passed failed fit_p fit_f =
    let sum_p : (p + a) % 2 ^ 64 ≡ p + a = omega (arith, fit_p) in
    let sum_f : (f + b) % 2 ^ 64 ≡ f + b = omega (arith, fit_f) in
    rw (e, passed, failed) (rw (sum_p, sum_f) refl)

same_pair : {a b c d : ℕ} → a ≡ c → b ≡ d → ◌≡◌ {A = ℕ × ℕ} (a, b) (c, d)
same_pair e h = ap₂ {C = ℕ × ℕ} (λ x y. (x, y)) e h

sum_lines-printed :
    (ls : List Line) (p f : ℕ)
    → All IsLine ls
    → p + total passed_of ls < 2 ^ 64
    → f + total failed_of ls < 2 ^ 64
    → sum_lines (p, f) (lines (print_lines ls)) ≡ (p + total passed_of ls, f + total failed_of ls)
unfolding print_lines sum_lines lines ended split_at
sum_lines-printed [] p f h fit_p fit_f = same_pair (omega arith) (omega arith)
sum_lines-printed (other t ∷ ls) p f (h, hs) fit_p fit_f =
    ap (sum_lines (p, f))
      (lines-line (print_line (other t)) (print_lines ls) (print_line-NoneOf (other t) h))
    ∙ sum_lines-skipped p f (print_line (other t)) (lines (print_lines ls))
        (other-is_result_line t h.1)
    ∙ sum_lines-printed ls p f hs (omega (arith, fit_p)) (omega (arith, fit_f))
    ∙ same_pair (omega arith) (omega arith)
sum_lines-printed (result fine a b rest ∷ ls) p f ((fit_a, fit_b, h), hs) fit_p fit_f =
    let l = print_line (result fine a b rest) in
    ap (sum_lines (p, f))
      (lines-line l (print_lines ls) (print_line-NoneOf (result fine a b rest) (fit_a, fit_b, h)))
    ∙ sum_lines-counted p f a b l (lines (print_lines ls)) (result-is_result_line fine a b rest)
        (passed-count_before fine a b rest fit_a fit_b)
        (failed-count_before fine a b rest fit_a fit_b) (omega (arith, fit_p))
        (omega (arith, fit_f))
    ∙ sum_lines-printed ls (p + a) (f + b) hs (omega (arith, fit_p)) (omega (arith, fit_f))
    ∙ same_pair (omega arith) (omega arith)

-- The sums of the lines of a test run are those of its binaries: every line that counts tests, with
-- decimal numbers, adds its counts, and every other line adds nothing. The sums fit in a `usize`, and
-- no line holds the characters that end one.
pub parse_test_summary-print_lines :
    (ls : List Line)
    → All IsLine ls
    → total passed_of ls < 2 ^ 64
    → total failed_of ls < 2 ^ 64
    → parse_test_summary (print_lines ls) ≡ (total passed_of ls, total failed_of ls)
unfolding parse_test_summary
parse_test_summary-print_lines ls h fit_p fit_f =
    sum_lines-printed ls 0 0 h (omega (arith, fit_p)) (omega (arith, fit_f))
    ∙ same_pair (omega arith) (omega arith)
