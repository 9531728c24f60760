-- ===== src/Audit/Tamper.antt =====
-- Two logs that verify and end in the same hash are the same log.
use mathlib.Core.List.{Memᴰ}
use kr0ki.Common.{ℕ, ◌+◌, String, ◌≡◌, refl, ap₂, List, [], ◌∷◌, arith}
use kr0ki.Common.Results.{ok}
use kr0ki.Audit.File.{Line}
use kr0ki.Audit.{Crates, genesis_hash, verify_lines}
use kr0ki.Audit.Chain.{chain_hash, verify_lines-cons, verify_lines-length}

module _ (c : Crates) where
  open c use {sha256_hex}

  -- No line of the one has the hash of another line of the other.
  abbrev pub NoCollision : List Line → List Line → Type 0
  NoCollision ls ks = (l k : Line) → Memᴰ l ls → Memᴰ k ks → sha256_hex l ≡ sha256_hex k → l ≡ k

  chains-agree :
      (i : ℕ) (h g : String) (ls ks : List Line) {n : ℕ}
      → NoCollision ls ks
      → verify_lines c i h ls ≡ ok n
      → verify_lines c i g ks ≡ ok n
      → chain_hash c h ls ≡ chain_hash c g ks
      → (ls ≡ ks) × (h ≡ g)
  chains-agree i h g [] [] apart v w e = (refl, e)
  chains-agree i h g [] (k ∷ ks) apart v w e =
      absurd (omega (arith, verify_lines-length c i h [] v, verify_lines-length c i g (k ∷ ks) w))
  chains-agree i h g (l ∷ ls) [] apart v w e =
      absurd (omega (arith, verify_lines-length c i h (l ∷ ls) v, verify_lines-length c i g [] w))
  chains-agree i h g (l ∷ ls) (k ∷ ks) apart v w e =
      let (t, v') = verify_lines-cons c i h l ls v in
      let (u, w') = verify_lines-cons c i g k ks w in
      let (same, hashes) =
        chains-agree (i + 1) (sha256_hex l) (sha256_hex k) ls ks
          (λ a b ma mb. apart a b (Memᴰ.tail ma) (Memᴰ.tail mb)) v' w' e in
      let first : l ≡ k = apart l k (Memᴰ.head refl) (Memᴰ.head refl) hashes in
      (ap₂ (λ a b. a ∷ b) first same, cc (t.reads, u.reads, t.linked, u.linked, first))

  -- The chain is evidence of tampering: where no two different lines of two logs have the same
  -- hash, logs of as many records that both verify and end in the same hash are equal, line by
  -- line. So a log with an edited, exchanged or replaced line before its last does not verify.
  pub verify_lines-determines :
      (ls ks : List Line) (n : ℕ)
      → NoCollision ls ks
      → verify_lines c 0 genesis_hash ls ≡ ok n
      → verify_lines c 0 genesis_hash ks ≡ ok n
      → chain_hash c genesis_hash ls ≡ chain_hash c genesis_hash ks
      → ls ≡ ks
  verify_lines-determines ls ks n apart v w e =
      (chains-agree 0 genesis_hash genesis_hash ls ks apart v w e).0
