-- ===== src/Common/Text/Prefixes.antt =====
-- What `strip_prefix` and `starts_with` say of a text that is put together.

use text.Mathlib.TextLemmas.{nil-append, cons-append}
use text.Mathlib.TextEquality.{Char-path}
use Prim.Native.String.{String, ◌++◌ as ◌<>◌}
use mathlib.Core.Path.{◌≡◌, ◌∙◌, sym, ap, ap₂}
use mathlib.Core.Option.{some}
use native.Mathlib.Omega.{arith}
use kr0ki.Common.Text.{strip_prefix}

pub strip_prefix-append : (p t : String) → strip_prefix p (p <> t) ≡ some t
unfolding strip_prefix
strip_prefix-append String.[] t = ap some (nil-append t)
strip_prefix-append (String.◌∷◌ c p) t =
    rw (cons-append c p t) (ground (arith, strip_prefix-append p t))

pub strip_prefix-some : (p s t : String) → strip_prefix p s ≡ some t → s ≡ p <> t
unfolding strip_prefix
strip_prefix-some String.[] s t h = ground arith ∙ sym (nil-append t)
strip_prefix-some (String.◌∷◌ c p) String.[] t h = absurd (ground arith)
strip_prefix-some (String.◌∷◌ c p) (String.◌∷◌ d s) t h =
    let same : c ≡ d = Char-path c d (ground arith) in
    let rest : s ≡ p <> t = strip_prefix-some p s t (ground arith) in
    ap₂ String.◌∷◌ (sym same) rest ∙ sym (cons-append c p t)
