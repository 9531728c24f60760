-- ===== src/Runner/Revision.antt =====
-- verification_runner.rs, `GitRevisionProbe`: the revision of a working tree.
use kr0ki.Common.{
  ℕ, String, ◌≡◌, ◌≢◌, ◌∙◌, refl, sym, ap, ◌↔◌, false, Option, none, some, List, [], ◌∷◌, ◌++◌,
  arith, drop, take, is_empty, length, length-append, if◌then◌else◌, inl, inr,
}
use kr0ki.Common.Text.{is_whitespace}
use kr0ki.Common.Chars.{Text, chars, trim_both}
use kr0ki.Common.Results.{Result, ok, err, Result-cases, ok_path}
use kr0ki.Runner.Summary.{lines, text_starts_with}

abbrev pub Bytes : Type 0
Bytes = List ℕ

-- What the probe asks of its surroundings: git, a file of the tree, UTF-8 and the digest.
pub record Tree : Type 0 where
  pub git : List String → Result Bytes String
  pub read : Text → Option Bytes
  pub from_utf8_lossy : Bytes → Text
  pub as_bytes : Text → Bytes
  pub sha256_hex : Bytes → Text

module _ (t : Tree) where
  -- The names and the contents of the untracked files, those that can be read. A line of git has its
  -- path from the fourth byte on.
  unfoldable pub untracked : List Text → Bytes
  unfolding text_starts_with chars trim_both
  untracked [] = []
  untracked (l ∷ ls) =
      let path = trim_both is_whitespace (drop 3 l) in
      let more = untracked ls in
      let file : Bytes = elim (t.read path) [ none ↦ [] | some bytes ↦ t.as_bytes path ++ bytes ] in
      if text_starts_with l (chars "??") then file ++ more else more

  unfoldable pub dirty_revision : Text → Bytes → Result Text String
  unfolding untracked lines chars
  dirty_revision head status = elim (t.git ("diff" ∷ "HEAD" ∷ [])) [
    | err e ↦ err e
    | ok diff ↦
        let material = diff ++ (status ++ untracked (lines (t.from_utf8_lossy status))) in
        ok (head ++ (chars "+dirty." ++ take 12 (t.sha256_hex material)))
  ]

  unfoldable pub implementation_revision : Result Text String
  unfolding dirty_revision trim_both
  implementation_revision = elim (t.git ("rev-parse" ∷ "HEAD" ∷ [])) [
    | err e ↦ err e
    | ok out ↦
        let head = trim_both is_whitespace (t.from_utf8_lossy out) in
        elim (t.git ("status" ∷ "--porcelain" ∷ "--untracked-files=all" ∷ [])) [
          | err e ↦ err e
          | ok status ↦
              let dirty = dirty_revision head status in if is_empty status then ok head else dirty
        ]
  ]

longer : (head tail : Text) → is_empty tail ≡ false → head ++ tail ≢ head
longer head [] full h = absurd (cc)
longer head (c ∷ tail) full h =
    let e : length (head ++ (c ∷ tail)) ≡ length head = ap length h in
    omega (arith, e, length-append head (c ∷ tail))

dirty_revision-differs :
    (t : Tree) (head : Text) (status : Bytes) (r : Text)
    → dirty_revision t head status ≡ ok r
    → r ≢ head
unfolding dirty_revision chars
dirty_revision-differs t head status r h same_ =
    elim (Result-cases (t.git ("diff" ∷ "HEAD" ∷ []))) [
      | inr (e, failed) ↦ absurd (ground (arith, h, failed))
      | inl (diff, fine) ↦
          let material = diff ++ (status ++ untracked t (lines (t.from_utf8_lossy status))) in
          let tail = chars "+dirty." ++ take 12 (t.sha256_hex material) in
          let made : dirty_revision t head status ≡ ok (head ++ tail) =
            rw (dirty_revision, fine) refl in
          longer head tail refl (ok_path (sym made ∙ h) ∙ same_)
    ]

-- A revision that is read is that of the commit at HEAD, and no other text, exactly if git sees no
-- change of the tree; a tree with changes has another revision than its commit.
pub implementation_revision-clean_iff :
    (t : Tree) (head : Bytes) (status : Bytes) (r : Text)
    → t.git ("rev-parse" ∷ "HEAD" ∷ []) ≡ ok head
    → t.git ("status" ∷ "--porcelain" ∷ "--untracked-files=all" ∷ []) ≡ ok status
    → implementation_revision t ≡ ok r
    → (r ≡ trim_both is_whitespace (t.from_utf8_lossy head)) ↔ (status ≡ [])
unfolding implementation_revision
implementation_revision-clean_iff t head [] r at clean h =
    let made : implementation_revision t ≡ ok (trim_both is_whitespace (t.from_utf8_lossy head)) =
      rw (implementation_revision, at) (rw clean refl) in
    (λ e. refl, λ e. ok_path (sym h ∙ made))
implementation_revision-clean_iff t head (b ∷ status) r at changed h =
    let commit = trim_both is_whitespace (t.from_utf8_lossy head) in
    let made : implementation_revision t ≡ dirty_revision t commit (b ∷ status) =
      rw (implementation_revision, at) (rw changed refl) in
    (
      λ same_. absurd (dirty_revision-differs t commit (b ∷ status) r (sym made ∙ h) same_),
      λ e. absurd (cc),
    )
