-- ===== src/Behavior/Table/Findings.antt =====
-- When a list of findings holds an error.
use kr0ki.Common.{
  String, ◌≡◌, refl, Bool, true, false, not, ◌||◌, Option, List, [], ◌∷◌, ◌++◌, arith, any, filter,
  is_empty,
}
use kr0ki.Behavior.Model.{Anchor, Diagnostic, error, warning, is_error}
use kr0ki.Behavior.Table.{finding_if}

-- Some finding is an error.
unfoldable pub flawed : List Diagnostic → Bool
flawed ds = any is_error ds

pub flawed-nil : flawed [] ≡ false
unfolding flawed
flawed-nil = refl

pub flawed-append : (xs ys : List Diagnostic) → flawed (xs ++ ys) ≡ (flawed xs || flawed ys)
unfolding flawed
flawed-append [] ys = refl
flawed-append (x ∷ xs) ys = ground (arith, flawed-append xs ys)

pub is_empty-filter : (xs : List Diagnostic) → is_empty (filter is_error xs) ≡ not (flawed xs)
unfolding flawed
is_empty-filter [] = refl
is_empty-filter (x ∷ xs) = ground (arith, is_empty-filter xs)

pub flawed-error :
    (b : Bool) (code message : String) (a : Option Anchor)
    → flawed (finding_if b code error message a) ≡ b
unfolding flawed finding_if
flawed-error false code message a = refl
flawed-error true code message a = refl

pub flawed-warning :
    (b : Bool) (code message : String) (a : Option Anchor)
    → flawed (finding_if b code warning message a) ≡ false
unfolding flawed finding_if
flawed-warning false code message a = refl
flawed-warning true code message a = refl

pub ruleset findings = (flawed-nil, flawed-append, flawed-error, flawed-warning)
