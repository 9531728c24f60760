-- ===== src/Behavior/Document/Grounded/Clean.antt =====
-- crates/kr0ki-behavior/src/validation.rs: documents whose findings hold no error.
use Prim.Native.Nat.{compare}
use Prim.Native.String.{then}
use kr0ki.Common.{
  ℕ, String, ◌≡◌, ◌∙◌, refl, ap, Bool, true, false, not, ◌||◌, List, [], ◌∷◌, ◌++◌, arith, is_empty,
  filter, Ordering, compare_str, Bool-cases, inl, inr,
}
use kr0ki.Common.Results.{ok}
use kr0ki.Common.Sort.{sort_by, any-sort_by}
use kr0ki.Behavior.Model.{
  Severity, error, warning, info, Diagnostic, compare_diagnostic, is_error, compare_anchor?, rank,
}
use kr0ki.Behavior.Table.Findings.{flawed, flawed-append, is_empty-filter}
use kr0ki.Behavior.Document.Types.{RustBehaviorIr}
use kr0ki.Behavior.Document.Validation.{dedup, findings_of, validate, ensure_valid}

error_rank : Severity → Bool
error_rank s = elim s [ error ↦ true | _ ↦ false ]

then-rank :
    (o : Ordering) (a b : Severity) (rest : Ordering)
    → then o (then (compare (rank a) (rank b)) rest) ≡ Ordering.eq
    → error_rank a ≡ error_rank b
unfolding error_rank
then-rank Ordering.lt a b rest h = absurd (cc)
then-rank Ordering.gt a b rest h = absurd (cc)
then-rank Ordering.eq error error rest h = refl
then-rank Ordering.eq error warning rest h = absurd (cc)
then-rank Ordering.eq error info rest h = absurd (cc)
then-rank Ordering.eq warning error rest h = absurd (cc)
then-rank Ordering.eq warning warning rest h = refl
then-rank Ordering.eq warning info rest h = absurd (cc)
then-rank Ordering.eq info error rest h = absurd (cc)
then-rank Ordering.eq info warning rest h = absurd (cc)
then-rank Ordering.eq info info rest h = refl

-- Diagnostics that compare as equal have one severity.
compare_diagnostic-is_error :
    (d e : Diagnostic) → compare_diagnostic d e ≡ Ordering.eq → is_error d ≡ is_error e
unfolding compare_diagnostic error_rank
compare_diagnostic-is_error d e h =
    then-rank (compare_str d.code e.code) d.severity e.severity
      (then (compare_str d.message e.message) (compare_anchor? d.anchor e.anchor)) h

-- `dedup` keeps whether there is an error.
dropped-flawed :
    (o : Ordering) (d e : Diagnostic) (rest ds : List Diagnostic)
    → (o ≡ Ordering.eq → is_error d ≡ is_error e)
    → flawed rest ≡ flawed (e ∷ ds)
    → flawed (elim o [ Ordering.eq ↦ rest | _ ↦ d ∷ rest ]) ≡ flawed (d ∷ e ∷ ds)
unfolding flawed
dropped-flawed Ordering.lt d e rest ds same_ h = ap (λ b. is_error d || b) h
dropped-flawed Ordering.gt d e rest ds same_ h = ap (λ b. is_error d || b) h
dropped-flawed Ordering.eq d e rest ds same_ h = let one = same_ refl in ground (arith, one, h)

flawed-dedup : (ds : List Diagnostic) → flawed (dedup ds) ≡ flawed ds
unfolding dedup
flawed-dedup [] = refl
flawed-dedup (d ∷ []) = refl
flawed-dedup (d ∷ e ∷ ds) =
    dropped-flawed (compare_diagnostic d e) d e (dedup (e ∷ ds)) ds
      (compare_diagnostic-is_error d e) (flawed-dedup (e ∷ ds))

flawed-sort_by : (ds : List Diagnostic) → flawed (sort_by compare_diagnostic ds) ≡ flawed ds
unfolding flawed
flawed-sort_by ds = any-sort_by compare_diagnostic is_error ds

-- A document passes only if none of its findings is an error.
pub ensure_valid-clean :
    (digest : String → String) (display : ℕ → String) (ir : RustBehaviorIr)
    → ensure_valid digest display ir ≡ ok tt
    → flawed (findings_of digest display ir) ≡ false
unfolding ensure_valid validate
ensure_valid-clean digest display ir h =
    let found = findings_of digest display ir in
    let same_ = flawed-dedup (sort_by compare_diagnostic found) ∙ flawed-sort_by found in
    elim (Bool-cases (flawed found)) [
      | inr clean ↦ clean
      | inl dirty ↦
          let full : is_empty (filter is_error (validate digest display ir)) ≡ false =
            is_empty-filter (validate digest display ir) ∙ ap not (same_ ∙ dirty) in
          absurd (ground (arith, full, h))
    ]

pub clean_parts :
    (xs ys : List Diagnostic)
    → flawed (xs ++ ys) ≡ false
    → (flawed xs ≡ false) × (flawed ys ≡ false)
clean_parts xs ys h = let e = flawed-append xs ys in (ground (arith, e, h), ground (arith, e, h))
