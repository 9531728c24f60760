-- ===== src/Common/Chars/Splits.antt =====
-- What splitting and trimming do to a text that is put together.
use Prim.Native.Nat.{ℕ}
use mathlib.Core.Path.{◌≡◌, ◌∙◌, refl}
use mathlib.Core.Bool.{Bool, true, false, ◌||◌}
use mathlib.Core.Option.{some}
use mathlib.Core.List.{[], ◌∷◌, ◌++◌}
use native.Mathlib.Omega.{arith}
use kr0ki.Common.Tests.{eqb}
use kr0ki.Common.Lists.{any}
use kr0ki.Common.Chars.{
  Text, same, trim_start, keep_front, trim_end, trim_both, push_first, split_at, split_once_at,
}

pub any-append : (p : ℕ → Bool) (s t : Text) → any p (s ++ t) ≡ (any p s || any p t)
any-append p [] t = refl
any-append p (x ∷ s) t = ground (arith, any-append p s t)

-- No character of a text has a property.
abbrev pub NoneOf : (ℕ → Bool) → Text → Type 0
NoneOf p s = any p s ≡ false

pub NoneOf-append : (p : ℕ → Bool) (s t : Text) → NoneOf p s → NoneOf p t → NoneOf p (s ++ t)
NoneOf-append p s t hs ht = any-append p s t ∙ ground (arith, hs, ht)

NoneOf-head : (p : ℕ → Bool) (x : ℕ) (s : Text) → NoneOf p (x ∷ s) → p x ≡ false
NoneOf-head p x s h = ground (arith, h)

NoneOf-tail : (p : ℕ → Bool) (x : ℕ) (s : Text) → NoneOf p (x ∷ s) → NoneOf p s
NoneOf-tail p x s h = ground (arith, h)

pub split_at-none : (p : ℕ → Bool) (s : Text) → NoneOf p s → split_at p s ≡ s ∷ []
unfolding split_at push_first
split_at-none p [] h = refl
split_at-none p (x ∷ s) h = rw (NoneOf-head p x s h, split_at-none p s (NoneOf-tail p x s h)) refl

pub split_at-append :
    (p : ℕ → Bool) (s : Text) (x : ℕ) (t : Text)
    → NoneOf p s
    → p x ≡ true
    → split_at p (s ++ (x ∷ t)) ≡ s ∷ split_at p t
unfolding split_at push_first
split_at-append p [] x t h e = rw e refl
split_at-append p (y ∷ s) x t h e =
    rw (NoneOf-head p y s h, split_at-append p s x t (NoneOf-tail p y s h) e) refl

eqb_refl : (x : ℕ) → eqb x x ≡ true
eqb_refl x = ground arith

pub split_once_at-append :
    (sep : ℕ) (s t : Text)
    → NoneOf (λ c. eqb c sep) s
    → split_once_at sep (s ++ (sep ∷ t)) ≡ some (s, t)
unfolding split_once_at
split_once_at-append sep [] t h = rw (eqb_refl sep) refl
split_once_at-append sep (y ∷ s) t h =
    rw
      (
        NoneOf-head (λ c. eqb c sep) y s h,
        split_once_at-append sep s t (NoneOf-tail (λ c. eqb c sep) y s h),
      )
      refl

trim_end-last :
    (p : ℕ → Bool) (s : Text) (z : ℕ) → p z ≡ false → trim_end p (s ++ (z ∷ [])) ≡ s ++ (z ∷ [])
unfolding trim_end keep_front
trim_end-last p [] z e = rw e refl
trim_end-last p (x ∷ []) z e = rw (trim_end-last p [] z e) refl
trim_end-last p (x ∷ y ∷ s) z e = rw (trim_end-last p (y ∷ s) z e) refl

-- A text that begins and ends with characters that stay is not trimmed.
pub trim_both-between :
    (p : ℕ → Bool) (a : ℕ) (s : Text) (z : ℕ)
    → p a ≡ false
    → p z ≡ false
    → trim_both p (a ∷ (s ++ (z ∷ []))) ≡ a ∷ (s ++ (z ∷ []))
unfolding trim_both trim_start
trim_both-between p a s z ea ez = rw ea (trim_end-last p (a ∷ s) z ez)

pub same_refl : (s : Text) → same s s ≡ true
unfolding same
same_refl [] = refl
same_refl (x ∷ s) = rw (eqb_refl x) (same_refl s)

pub same_sym : (s t : Text) → same s t ≡ same t s
unfolding same
same_sym [] [] = refl
same_sym [] (y ∷ t) = refl
same_sym (x ∷ s) [] = refl
same_sym (x ∷ s) (y ∷ t) = ground (arith, same_sym s t)
