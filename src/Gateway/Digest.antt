-- ===== src/Gateway/Digest.antt =====
-- gateway.rs, `constant_time_eq`, on the bytes of two digests.
pub mod Equality
use Prim.Native.Nat.{bit_or, bit_xor}
use kr0ki.Common.{ℕ, Bool, ◌&&◌, List, [], ◌∷◌, eqb, length}

-- The bytes of a digest in hexadecimal.
abbrev pub Digest : Type 0
Digest = List ℕ

-- `zip` and `fold`: the disjunction of the differences of the bytes.
unfoldable pub differences : ℕ → Digest → Digest → ℕ
differences acc [] _ = acc
differences acc (x ∷ xs) [] = acc
differences acc (x ∷ xs) (y ∷ ys) = differences (bit_or acc (bit_xor x y)) xs ys

unfoldable pub constant_time_eq : Digest → Digest → Bool
unfolding differences
constant_time_eq a b = eqb (length a) (length b) && eqb (differences 0 a b) 0
