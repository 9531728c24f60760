-- ===== src/Audit/Chain.antt =====
-- What a chain that verifies is: how it grows by a line, and what its last line says.
use kr0ki.Common.{ℕ, ◌+◌, String, eq_iff, ◌≡◌, ◌∙◌, refl, ap, List, [], ◌∷◌, ◌++◌, arith, length}
use kr0ki.Common.Results.{ok, Result-cases}
use kr0ki.Common.{inl, inr}
use kr0ki.Audit.File.{Line}
use kr0ki.Audit.{Crates, AuditRecord, u64, verify_lines, last_line}

module _ (c : Crates) where
  open c use {sha256_hex, to_string, from_str}

  -- The hash that the next record carries.
  abbrev pub chain_hash : String → List Line → String
  chain_hash h [] = h
  chain_hash h (l ∷ ls) = chain_hash (sha256_hex l) ls

  -- A line that continues a chain.
  pub record Continues (seq : ℕ) (prev : String) (l : Line) : Type 0 where
    pub entry : AuditRecord
    pub reads : from_str l ≡ ok entry
    pub numbered : entry.seq ≡ u64 seq
    pub linked : entry.prev_hash ≡ prev

  pub verify_lines-cons :
      (i : ℕ) (h : String) (l : Line) (ls : List Line) {n : ℕ}
      → verify_lines c i h (l ∷ ls) ≡ ok n
      → Continues i h l × (verify_lines c (i + 1) (sha256_hex l) ls ≡ ok n)
  unfolding verify_lines
  verify_lines-cons i h l ls fine = elim (Result-cases (from_str l)) [
    | inr (e, bad) ↦ absurd (ground arith)
    | inl (r, good) ↦ (
      record {
        entry = r;
        reads = good;
        numbered = ground arith;
        linked = ground (arith, eq_iff r.prev_hash h);
      },
      ground arith,
    )
  ]

  pub verify_lines-Continues :
      (i : ℕ) (h : String) (l : Line) (ls : List Line)
      → Continues i h l
      → verify_lines c i h (l ∷ ls) ≡ verify_lines c (i + 1) (sha256_hex l) ls
  unfolding verify_lines
  verify_lines-Continues i h l ls t =
      ground (arith, t.reads, t.numbered, t.linked, eq_iff t.entry.prev_hash h)

  -- A chain that verifies has as many records as lines.
  pub verify_lines-length :
      (i : ℕ) (h : String) (ls : List Line) {n : ℕ}
      → verify_lines c i h ls ≡ ok n
      → n ≡ i + length ls
  verify_lines-length i h [] fine = unfold verify_lines in ground arith
  verify_lines-length i h (l ∷ ls) fine =
      let (t, rest) = verify_lines-cons i h l ls fine in
      omega (arith, verify_lines-length (i + 1) (sha256_hex l) ls rest)

  pub verify_lines-snoc :
      (i : ℕ) (h : String) (ls : List Line) (l : Line) {n : ℕ}
      → verify_lines c i h ls ≡ ok n
      → Continues n (chain_hash h ls) l
      → verify_lines c i h (ls ++ (l ∷ [])) ≡ ok (n + 1)
  verify_lines-snoc i h [] l {n} fine t =
      let e : i ≡ n = unfold verify_lines in ground arith in
      rw (verify_lines-Continues i h l [] (rw e t)) (unfold verify_lines in rw e)
  verify_lines-snoc i h (k ∷ ls) l fine t =
      let (first, rest) = verify_lines-cons i h k ls fine in
      verify_lines-Continues i h k (ls ++ (l ∷ [])) first
      ∙ verify_lines-snoc (i + 1) (sha256_hex k) ls l rest t

  pub chain_hash-snoc :
      (h : String) (ls : List Line) (l : Line) → chain_hash h (ls ++ (l ∷ [])) ≡ sha256_hex l
  chain_hash-snoc h [] l = refl
  chain_hash-snoc h (k ∷ ls) l = chain_hash-snoc (sha256_hex k) ls l

  pub chain_hash-last :
      (h : String) (l : Line) (ls : List Line) → chain_hash h (l ∷ ls) ≡ sha256_hex (last_line l ls)
  chain_hash-last h l [] = refl
  chain_hash-last h l (k ∷ ls) = chain_hash-last (sha256_hex l) k ls

  -- The last line of a chain that verifies carries the last number.
  pub last_line-reads :
      (i : ℕ) (h : String) (l : Line) (ls : List Line) {n : ℕ}
      → verify_lines c i h (l ∷ ls) ≡ ok n
      → (r : AuditRecord) × (from_str (last_line l ls) ≡ ok r) × (r.seq ≡ u64 (i + length ls))
  last_line-reads i h l [] fine =
      let (t, rest) = verify_lines-cons i h l [] fine in
      (t.entry, t.reads, t.numbered ∙ ap u64 (omega arith))
  last_line-reads i h l (k ∷ ls) fine =
      let (t, rest) = verify_lines-cons i h l (k ∷ ls) fine in
      let (r, reads, numbered) = last_line-reads (i + 1) (sha256_hex l) k ls rest in
      (r, reads, numbered ∙ ap u64 (omega arith))
