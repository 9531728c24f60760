-- ===== src/Gateway/Digest/Equality.antt =====
-- `constant_time_eq` is equality.
use Prim.Native.Nat.{bit_or, bit_xor, bit_or-bitwise, bit_xor-bitwise, digits, differ}
use kr0ki.Common.{
  ℕ, zero, suc, ◌/◌, ◌%◌, ◌≤◌, ◌≡◌, refl, sym, ap, ap₂, ◌∙◌, ◌↔◌, true, [], ◌∷◌, arith, max, length,
  eqb,
}
use kr0ki.Gateway.Digest.{Digest, differences, constant_time_eq}

differ-zero : (a b : ℕ) → differ a b ≡ 0 → a ≡ b
differ-zero zero b h = sym h
differ-zero (suc a) zero h = h
differ-zero (suc a) (suc b) h = ap suc (differ-zero a b h)

differ-same : (a : ℕ) → differ a a ≡ 0
differ-same zero = refl
differ-same (suc a) = differ-same a

digits-differ-zero : (n a b : ℕ) → a ≤ n → digits (λ b. b) differ n a b ≡ 0 → a ≡ b
digits-differ-zero zero a b le h = omega arith
digits-differ-zero (suc n) zero b le h = sym h
digits-differ-zero (suc n) (suc a) b le h =
    let low = differ-zero (suc a % 2) (b % 2) (omega arith) in
    let high = digits-differ-zero n (suc a / 2) (b / 2) (omega arith) (omega arith) in
    omega (arith, low, high)

digits-differ-same : (n a : ℕ) → a ≤ n → digits (λ b. b) differ n a a ≡ 0
digits-differ-same zero a le = omega arith
digits-differ-same (suc n) zero le = refl
digits-differ-same (suc n) (suc a) le =
    omega (arith, differ-same (suc a % 2), digits-differ-same n (suc a / 2) (omega arith))

bit_xor-zero : (a b : ℕ) → bit_xor a b ≡ 0 → a ≡ b
bit_xor-zero a b h = digits-differ-zero a a b (omega arith) (sym (bit_xor-bitwise a b) ∙ h)

bit_xor-same : (a : ℕ) → bit_xor a a ≡ 0
bit_xor-same a = bit_xor-bitwise a a ∙ digits-differ-same a a (omega arith)

digits-max-zero : (n a b : ℕ) → a ≤ n → digits (λ b. b) max n a b ≡ 0 → (a ≡ 0) × (b ≡ 0)
digits-max-zero zero a b le h = (omega arith, h)
digits-max-zero (suc n) zero b le h = (refl, h)
digits-max-zero (suc n) (suc a) b le h =
    let low : max (suc a % 2) (b % 2) ≡ 0 = omega arith in
    let high = digits-max-zero n (suc a / 2) (b / 2) (omega arith) (omega arith) in
    (omega (arith, low, high.0, high.1), omega (arith, low, high.0, high.1))

bit_or-zero : (a b : ℕ) → bit_or a b ≡ 0 → (a ≡ 0) × (b ≡ 0)
bit_or-zero a b h = digits-max-zero a a b (omega arith) (sym (bit_or-bitwise a b) ∙ h)

differences-zero :
    (acc : ℕ) (a b : Digest) → length a ≡ length b → differences acc a b ≡ 0 → (acc ≡ 0) × (a ≡ b)
unfolding differences
differences-zero acc [] [] same h = (h, refl)
differences-zero acc [] (y ∷ ys) same h = absurd (omega arith)
differences-zero acc (x ∷ xs) [] same h = absurd (omega arith)
differences-zero acc (x ∷ xs) (y ∷ ys) same h =
    let (here, rest) = differences-zero (bit_or acc (bit_xor x y)) xs ys (omega arith) h in
    let (before, xor) = bit_or-zero acc (bit_xor x y) here in
    (before, ap₂ (λ z zs. z ∷ zs) (bit_xor-zero x y xor) rest)

differences-same : (a : Digest) → differences 0 a a ≡ 0
unfolding differences
differences-same [] = refl
differences-same (x ∷ xs) =
    ap (λ d. differences (bit_or 0 d) xs xs) (bit_xor-same x) ∙ differences-same xs

eqb_refl : (n : ℕ) → eqb n n ≡ true
eqb_refl n = ground arith

-- The comparison that looks at every byte answers true of two digests just when they are equal.
pub constant_time_eq_iff : (a b : Digest) → (constant_time_eq a b ≡ true) ↔ (a ≡ b)
unfolding constant_time_eq
constant_time_eq_iff a b = (
  λ h. (differences-zero 0 a b (ground arith) (ground arith)).1,
  λ e. rw (e, eqb_refl (length b), differences-same b) refl,
)
