-- ===== src/Audit/File.antt =====
-- The log's file: how `BufRead::lines` splits it, and the one write of `append`.
use kr0ki.Common.{
  ℕ, ◌≡◌, ◌∙◌, refl, Bool, false, not, Option, none, some, List, [], ◌∷◌, ◌++◌, arith,
  if◌then◌else◌, eqb, any, filter, last?, last?-snoc, ap, sym, Bool-cases, inl, inr,
}
use kr0ki.Common.Results.{Result, ok, err}
use kr0ki.Common.Text.{is_whitespace}
use mathlib.Core.List.{append-nil, append_assoc}

-- A text by the numbers of its characters.
abbrev pub Line : Type 0
Line = List ℕ

abbrev pub IoError : Type 0
IoError = List ℕ

-- The file's text, or none if there is no file; and the error, if reading it fails.
pub record LogFile : Type 0 where
  pub content : Option (List ℕ)
  pub failing : Option IoError

-- How the write of a line ends: done, or failed behind a part of the text.
pub data WriteAnswer : Type 0 where
  done : WriteAnswer
  failed : List ℕ → IoError → WriteAnswer

-- `\r` before the `\n` is dropped
unfoldable pub strip_cr : Line → Line
strip_cr [] = []
strip_cr (c ∷ []) = if eqb c 13 then [] else c ∷ []
strip_cr (c ∷ d ∷ l) = c ∷ strip_cr (d ∷ l)

-- A last line with no line feed behind it.
flush : Line → List Line
flush [] = []
flush (c ∷ l) = (c ∷ l) ∷ []

-- `BufRead::lines`; the first argument is the line so far.
unfoldable pub split_lines : Line → List ℕ → List Line
unfolding strip_cr flush
split_lines l [] = flush l
split_lines l (c ∷ cs) =
    let more = split_lines (l ++ (c ∷ [])) cs in
    let next = strip_cr l ∷ split_lines [] cs in if eqb c 10 then next else more

-- `!s.trim().is_empty()`
unfoldable pub is_blank : Line → Bool
is_blank l = not (any (λ c. not (is_whitespace c)) l)

unfoldable pub lines_of : List ℕ → List Line
unfolding split_lines is_blank
lines_of text = filter (λ l. not (is_blank l)) (split_lines [] text)

abbrev pub text_of : Option (List ℕ) → List ℕ
text_of none = []
text_of (some text) = text

-- `read_lines`: no file is no line, and any other error is returned.
unfoldable pub read_lines : LogFile → Result (List Line) IoError
unfolding lines_of
read_lines f = elim f.content [
  | none ↦ ok []
  | some text ↦ elim f.failing [ none ↦ ok (lines_of text) | some e ↦ err e ]
]

-- `create(true).append(true)`, the line, a line feed, and the sync.
unfoldable pub write_line : Line → WriteAnswer → LogFile → LogFile × Result (Unit {0}) IoError
write_line line done f =
    (record f { content = some (text_of f.content ++ (line ++ (10 ∷ []))) }, ok tt)
write_line line (failed part e) f = (record f { content = some (text_of f.content ++ part) }, err e)

-- What serializing a record guarantees of its line: one line, that a closing brace ends.
pub record IsOneLine (l : Line) : Type 0 where
  pub unbroken : any (λ c. eqb c 10) l ≡ false
  pub closed : last? l ≡ some 125

-- A text whose last line is ended.
abbrev pub IsEnded : List ℕ → Type 0
IsEnded [] = Unit
IsEnded (c ∷ cs) = last? (c ∷ cs) ≡ some 10

abbrev EndsIn : Line → List ℕ → Type 0
EndsIn l [] = l ≡ []
EndsIn l (c ∷ cs) = last? (c ∷ cs) ≡ some 10

split_lines-append :
    (l : Line) (text rest : List ℕ)
    → EndsIn l text
    → split_lines l (text ++ rest) ≡ split_lines l text ++ split_lines [] rest
unfolding split_lines
split_lines-append l [] rest e = rw e
split_lines-append l (c ∷ []) rest e = ground arith
split_lines-append l (c ∷ d ∷ cs) rest e = elim (Bool-cases (eqb c 10)) [
  | inl feed ↦ ground (arith, feed, split_lines-append [] (d ∷ cs) rest e)
  | inr other ↦ ground (arith, other, split_lines-append (l ++ (c ∷ [])) (d ∷ cs) rest e)
]

split_lines-line :
    (front l : Line)
    → any (λ c. eqb c 10) l ≡ false
    → split_lines front (l ++ (10 ∷ [])) ≡ strip_cr (front ++ l) ∷ []
unfolding split_lines
split_lines-line front [] h = rw append-nil
split_lines-line front (c ∷ l) h =
    ground
      (arith, split_lines-line (front ++ (c ∷ [])) l (ground arith), append_assoc front (c ∷ []) l)

strip_cr-closed : (l : Line) → last? l ≡ some 125 → strip_cr l ≡ l
unfolding strip_cr
strip_cr-closed [] h = refl
strip_cr-closed (c ∷ []) h = ground arith
strip_cr-closed (c ∷ d ∷ l) h = ap (λ k. c ∷ k) (strip_cr-closed (d ∷ l) h)

is_blank-closed : (l : Line) → last? l ≡ some 125 → is_blank l ≡ false
unfolding is_blank is_whitespace
is_blank-closed [] h = cc
is_blank-closed (c ∷ []) h = ground arith
is_blank-closed (c ∷ d ∷ l) h = ground (arith, is_blank-closed (d ∷ l) h)

filter-append {ℓ} :
    {A : Type ℓ} (p : A → Bool) (xs ys : List A) → filter p (xs ++ ys) ≡ filter p xs ++ filter p ys
filter-append p [] ys = refl
filter-append p (x ∷ xs) ys = ground (arith, filter-append p xs ys)

ends_in : (text : List ℕ) → IsEnded text → EndsIn [] text
ends_in [] e = refl
ends_in (c ∷ cs) e = e

-- A whole line behind a text that ends in a line feed is one more line.
pub lines_of-line :
    (text : List ℕ) (l : Line)
    → IsEnded text
    → IsOneLine l
    → lines_of (text ++ (l ++ (10 ∷ []))) ≡ lines_of text ++ (l ∷ [])
unfolding lines_of
lines_of-line text l e o = rw (
  split_lines-append [] text (l ++ (10 ∷ [])) (ends_in text e),
  split_lines-line [] l o.unbroken,
  strip_cr-closed l o.closed,
  filter-append (λ k. not (is_blank k)) (split_lines [] text) (l ∷ []),
  is_blank-closed l o.closed,
)

IsEnded-last : (text : List ℕ) → last? text ≡ some 10 → IsEnded text
IsEnded-last [] h = tt
IsEnded-last (c ∷ cs) h = h

pub IsEnded-line : (text : List ℕ) (l : Line) → IsEnded (text ++ (l ++ (10 ∷ [])))
IsEnded-line text l =
    IsEnded-last (text ++ (l ++ (10 ∷ [])))
      (ap last? (sym (append_assoc text l (10 ∷ []))) ∙ last?-snoc (text ++ l) 10)
