-- ===== src/Evidence/Checked.antt =====
-- evidence_store.rs, `verify`: what is found of an artifact that the store took.
use text.Mathlib.TextLemmas.{append_assoc}
use text.Mathlib.TextPositions.{starts_with-append}
use kr0ki.Common.{
  String, ◌<>◌, ◌==◌, eq_iff, starts_with, ◌≡◌, ◌∙◌, refl, sym, ap, true, Option, some, [], ◌∷◌,
  arith, is_some, All, Bool-cases, Option-cases, inl, inr, subst,
}
use kr0ki.Common.Text.Prefixes.{strip_prefix-append}
use kr0ki.Common.Results.{Result, ok}
use kr0ki.Common.OrdMap.{OrdMap, lookup}
use kr0ki.Evidence.{
  Crates, Store, EvidenceStoreError, Answer, ensure_file, put_artifact, check_artifact, intact,
}
use kr0ki.Evidence.Kept.{ensure_file-Ensured, or_error-ok}

lookup-All :
    {B : Type 0} (P : String × B → Type 0) (files : OrdMap B) (stem : String) (b : B)
    → All P files
    → lookup stem files ≡ some b
    → P (stem, b)
unfolding lookup
lookup-All P [] stem b h at = absurd (cc)
lookup-All P ((j, w) ∷ files) stem b (h, hs) at = elim (Bool-cases (j == stem)) [
  | inl same_ ↦
      let here : w ≡ b = ground (arith, same_, at) in
      let named : j ≡ stem = (eq_iff j stem).0 same_ in
      subst (λ k. P (k, b)) named (subst (λ v. P (j, v)) here h)
  | inr other_ ↦ lookup-All P files stem b hs (ground (arith, other_, at))
]

-- The path of an artifact, and the prefix that `verify` knows its own artifacts by.
abbrev pub artifact_path : String → String → String
artifact_path root digest = root <> "/artifacts/" <> digest <> ".log"

own_prefix-artifact_path :
    (root digest : String)
    → starts_with ("file://" <> artifact_path root digest) ("file://" <> root <> "/artifacts")
      ≡ true
own_prefix-artifact_path root digest =
    let end = "/" <> digest <> ".log" in
    let own = "file://" <> root <> "/artifacts" in
    let parts : own <> end ≡ "file://" <> artifact_path root digest =
      append_assoc "file://" (root <> "/artifacts") end
      ∙ ap (λ t. "file://" <> t)
          (append_assoc root "/artifacts" end
            ∙ ap (λ t. root <> t) (sym (append_assoc "/artifacts" "/" (digest <> ".log")))) in
    subst (λ t. starts_with t own ≡ true) parts (starts_with-append own end)

module _ {R B : Type 0} (c : Crates R B) where
  -- The artifacts are named by the digests of what they hold.
  abbrev pub IsNamed : String × B → Type 0
  IsNamed (stem, bytes) = stem ≡ c.sha256_hex bytes

  check_artifact-own :
      (root digest : String) (read : String → Option B) (r : R) (b : B)
      → c.artifact_uri r ≡ "file://" <> artifact_path root digest
      → read (artifact_path root digest) ≡ some b
      → "sha256:" <> c.sha256_hex b ≡ c.artifact_digest r
      → check_artifact c root read r ≡ intact
  unfolding check_artifact
  check_artifact-own root digest read r b uri there same_ =
      rw (check_artifact, uri, strip_prefix-append "file://" (artifact_path root digest))
        (rw (there, own_prefix-artifact_path root digest) (rw ((eq_iff _ _).1 same_) refl))

  -- What `put_artifact` leaves: named artifacts, one of them under the digest that it returns, and
  -- where it says that this is.
  pub record Filed (root : String) (bytes : B)
      (u : Store B × Result (String × String) EvidenceStoreError) (old : Store B) : Type 0 where
    pub artifacts : All IsNamed u.0.artifacts.files
    pub records : u.0.records ≡ old.records
    pub there :
        (uri digest : String)
        → u.1 ≡ ok (uri, digest)
        → (uri ≡ "file://" <> artifact_path root (c.sha256_hex bytes))
          × (digest ≡ "sha256:" <> c.sha256_hex bytes)
          × (is_some (lookup (c.sha256_hex bytes) u.0.artifacts.files) ≡ true)

  pub put_artifact-Filed :
      (root : String) (bytes : B) (answer : Answer B) (s : Store B)
      → All IsNamed s.artifacts.files
      → Filed root bytes (put_artifact c root bytes answer s) s
  unfolding put_artifact
  put_artifact-Filed root bytes answer s named =
      let stem = c.sha256_hex bytes in
      let e = ensure_file-Ensured c stem bytes answer s.artifacts in
      record {
        artifacts = e.files IsNamed refl named;
        records = refl;
        there = λ uri digest h.
            let (same_, fine) =
              or_error-ok c {A = String × String} _ (uri, digest)
                (ensure_file c stem bytes answer s.artifacts).1 h in
            (ap (λ u. u.0) same_, ap (λ u. u.1) same_, e.there fine);
      }

  -- A record whose artifact is filed in a store checks as intact.
  pub check_artifact-intact :
      (root : String) (bytes : B) (r : R) (s : Store B) (read : String → Option B)
      → All IsNamed s.artifacts.files
      → is_some (lookup (c.sha256_hex bytes) s.artifacts.files) ≡ true
      → ((stem : String) → read (artifact_path root stem) ≡ lookup stem s.artifacts.files)
      → c.artifact_uri r ≡ "file://" <> artifact_path root (c.sha256_hex bytes)
      → c.artifact_digest r ≡ "sha256:" <> c.sha256_hex bytes
      → check_artifact c root read r ≡ intact
  check_artifact-intact root bytes r s read named there reads uri digest =
      elim (Option-cases (lookup (c.sha256_hex bytes) s.artifacts.files)) [
        | inl none_ ↦ absurd (ground (arith, none_, there))
        | inr (b, at) ↦
            let held : c.sha256_hex bytes ≡ c.sha256_hex b =
              lookup-All IsNamed s.artifacts.files (c.sha256_hex bytes) b named at in
            check_artifact-own root (c.sha256_hex bytes) read r b uri
              (reads (c.sha256_hex bytes) ∙ at) (sym (digest ∙ ap (λ d. "sha256:" <> d) held))
      ]
