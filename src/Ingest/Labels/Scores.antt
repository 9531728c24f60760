-- ===== src/Ingest/Labels/Scores.antt =====
-- scoring.rs, `label_scores`: the scores are those of a matching that is as large as it can be.
use kr0ki.Common.{
  suc, ◌+◌, ◌≡◌, ◌∙◌, refl, ap, subst, inl, inr, Bool, true, false, not, List, [], ◌∷◌, ◌++◌, map,
  filter, All, All-append, arith, length, is_empty, Bool-cases, if◌then◌else◌,
}
use kr0ki.Ingest.Scoring.{Text, normalized}
use kr0ki.Ingest.Labels.{
  Target, Found, Parts, targets_of, founds_of, pass, count_matched, missing_labels, similar,
  exact_mark, fuzzy_mark, ratio, matching, label_scores,
}
use kr0ki.Ingest.Labels.Alike.{IsAlike, similar_iff}
use kr0ki.Ingest.Labels.Marking.{
  count, unused, unmatched, IsNormal, IsMarking, exact_mark-IsMarking, IsPair, Passed, pass-Passed,
  IsSpent, IsThorough, pass-IsSpent,
}
use kr0ki.Ingest.Labels.Pairing.{fuzzy_mark-IsMarking, fuzzy_mark-IsThorough}

count-all : (ss : List Text) → count (λ s. true) ss ≡ length ss
count-all [] = refl
count-all (s ∷ ss) = omega (arith, count-all ss)

count-map_append :
    {A : Type 0} (p : Text → Bool) (f : A → Text) (xs ys : List A)
    → count p (map f (xs ++ ys)) ≡ count p (map f xs) + count p (map f ys)
count-map_append p f [] ys = omega arith
count-map_append p f (a ∷ xs) ys = omega (arith, count-map_append p f xs ys)

length-map_text : {A : Type 0} (f : A → Text) (xs : List A) → length (map f xs) ≡ length xs
length-map_text f [] = refl
length-map_text f (a ∷ xs) = ap suc (length-map_text f xs)

-- The texts that are not used.
unused_texts : List Found → List Text
unused_texts [] = []
unused_texts (f ∷ fs) = if f.used then unused_texts fs else f.text ∷ unused_texts fs

count-unused_texts : (p : Text → Bool) (fs : List Found) → count p (unused_texts fs) ≡ unused p fs
unfolding unused_texts
count-unused_texts p [] = refl
count-unused_texts p (f ∷ fs) = ground (arith, count-unused_texts p fs)

count-missing_labels :
    (p : Text → Bool) (ts : List Target) → count p (missing_labels ts) ≡ unmatched p ts
unfolding missing_labels
count-missing_labels p [] = refl
count-missing_labels p (t ∷ ts) = ground (arith, count-missing_labels p ts)

matched-missing : (ts : List Target) → count_matched ts + length (missing_labels ts) ≡ length ts
unfolding count_matched missing_labels
matched-missing [] = refl
matched-missing (t ∷ ts) = ground (arith, matched-missing ts)

count-none : (p : Text → Bool) (ss : List Text) → count p ss ≡ 0 → All (λ s. p s ≡ false) ss
count-none p [] h = tt
count-none p (s ∷ ss) h = elim (Bool-cases (p s)) [
  | inl here ↦ absurd (ground (arith, here, h))
  | inr not_here ↦ (not_here, count-none p ss (ground (arith, not_here, h)))
]

All-to :
    {A : Type 0} (P Q : A → Type 0) → ((a : A) → P a → Q a) → (as_ : List A) → All P as_ → All Q as_
All-to P Q f [] h = tt
All-to P Q f (a ∷ as_) h = (f a h.0, All-to P Q f as_ h.1)

module _ {F : Type 0} (x : Parts F) (normal : Text → Text) where
  -- The labels that have a normal form, and the normal forms of those of a render.
  abbrev pub read_of : List Text → List Text
  read_of target = filter (λ l. not (is_empty (normal l))) target

  abbrev pub shown_of : List Text → List Text
  shown_of rendered = filter (λ s. not (is_empty s)) (map normal rendered)

  -- The targets before the first pass.
  record Fresh (ts : List Target) (read : List Text) : Type 0 where
    fresh : All (λ t. t.matched ≡ false) ts
    normals : All (IsNormal x normal) ts
    labels : (p : Text → Bool) → unmatched p ts ≡ count p read
    size : length ts ≡ length read

  targets_of-Fresh : (ls : List Text) → Fresh (targets_of normal ls) (read_of ls)
  unfolding targets_of
  targets_of-Fresh [] = record { fresh = tt; normals = tt; labels = λ p. refl; size = refl }
  targets_of-Fresh (l ∷ ls) =
      let k = targets_of-Fresh ls in
      elim (Bool-cases (is_empty (normal l))) [
        | inl blank ↦ rw blank k
        | inr kept ↦ rw kept (record {
          fresh = (refl, k.fresh);
          normals = (refl, k.normals);
          labels = λ p. omega (arith, k.labels p);
          size = ap suc k.size;
        })
      ]

  founds_of-unused :
      (ls : List Text)
      → ((p : Text → Bool) → unused p (founds_of normal ls) ≡ count p (shown_of ls))
        × (length (founds_of normal ls) ≡ length (shown_of ls))
  unfolding founds_of
  founds_of-unused [] = (λ p. refl, refl)
  founds_of-unused (l ∷ ls) =
      let (counts, size) = founds_of-unused ls in
      elim (Bool-cases (is_empty (normal l))) [
        | inl blank ↦ rw blank (counts, size)
        | inr kept ↦ rw kept (λ p. omega (arith, counts p), ap suc size)
      ]

  -- The labels that were read and those of the render are paired one to one, each pair alike, so that
  -- no label that is missing is like one that is left.
  pub record IsMatching (read shown missing : List Text) (recall precision : F) : Type 0 where
    pub pairs : List (Text × Text)
    pub left : List Text
    pub alike : All (λ (label, s). IsAlike x (normal label) s) pairs
    pub of_read :
        (p : Text → Bool) → count p read ≡ count p (map (λ q. q.0) pairs) + count p missing
    pub of_shown : (p : Text → Bool) → count p shown ≡ count p (map (λ q. q.1) pairs) + count p left
    pub complete : All (λ label. All (λ s. ¬ IsAlike x (normal label) s) left) missing
    pub recalled : recall ≡ ratio x (length pairs) (length read)
    pub precise : precision ≡ ratio x (length pairs) (length shown)

  unlike :
      (pool : List Found) (ts : List Target)
      → All (IsSpent x normal pool) ts
      → All (IsNormal x normal) ts
      → All
          (λ label. All (λ s. ¬ IsAlike x (normal label) s) (unused_texts pool))
          (missing_labels ts)
  unfolding missing_labels
  unlike pool [] spent n = tt
  unlike pool (t ∷ ts) spent n =
      let more = unlike pool ts spent.1 n.1 in
      elim (Bool-cases t.matched) [
        | inl found ↦ rw found more
        | inr open_ ↦
            let left = unused_texts pool in
            let p = similar x t.norm in
            let none_ = count-none p left (count-unused_texts p pool ∙ spent.0 open_) in
            let apart : All (λ s. ¬ IsAlike x t.norm s) left =
              All-to (λ s. p s ≡ false) (λ s. ¬ IsAlike x t.norm s)
                (λ s unlike_ like.
                  let same_ = (similar_iff x t.norm s).1 like in ground (arith, unlike_, same_))
                left none_ in
            rw open_ (subst (λ n. All (λ s. ¬ IsAlike x n s) left) n.0 apart, more)
      ]

  all_exact :
      (ts : List Target) → All (λ t. t.matched ≡ false) ts → All (IsMarking x normal exact_mark) ts
  all_exact ts fresh = All-to _ _ (exact_mark-IsMarking x normal) ts fresh

  all_fuzzy :
      (ts : List Target)
      → All (IsMarking x normal (fuzzy_mark x)) ts × All (IsThorough x normal (fuzzy_mark x)) ts
  all_fuzzy [] = (tt, tt)
  all_fuzzy (t ∷ ts) =
      let (marks, thorough) = all_fuzzy ts in
      ((fuzzy_mark-IsMarking x normal t, marks), (fuzzy_mark-IsThorough x normal t, thorough))

  Passed-trans :
      (ts rs qs : List Target) (ps os ns : List Found)
      → Passed x normal ts ps rs os
      → Passed x normal rs os qs ns
      → Passed x normal ts ps qs ns
  Passed-trans ts rs qs ps os ns k l = record {
    pairs = k.pairs ++ l.pairs;
    alike = All-append (IsPair x normal) k.pairs l.pairs k.alike l.alike;
    targets =
        λ p. omega (arith, k.targets p, l.targets p, count-map_append p (λ q. q.0) k.pairs l.pairs);
    founds =
        λ p. omega (arith, k.founds p, l.founds p, count-map_append p (λ q. q.1) k.pairs l.pairs);
    normals = l.normals;
    sizes = (l.sizes.0 ∙ k.sizes.0, l.sizes.1 ∙ k.sizes.1);
  }

  scored :
      (target rendered : List Text)
      → let ts = targets_of normal target in
        let pool = founds_of normal rendered in
        let (ts', pool') = matching x ts pool in
        IsMatching
          (read_of target)
          (shown_of rendered)
          (missing_labels ts')
          (ratio x (count_matched ts') (length ts))
          (ratio x (count_matched ts') (length pool))
  unfolding matching
  scored target rendered =
      let ts = targets_of normal target in
      let pool = founds_of normal rendered in
      let (rs, os) = pass exact_mark ts pool in
      let (qs, ns) = pass (fuzzy_mark x) rs os in
      let f = targets_of-Fresh target in
      let (counts, size) = founds_of-unused rendered in
      let exact = pass-Passed x normal exact_mark ts pool (all_exact ts f.fresh) f.normals in
      let (marks, thorough) = all_fuzzy rs in
      let fuzzy = pass-Passed x normal (fuzzy_mark x) rs os marks exact.normals in
      let k = Passed-trans ts rs qs pool os ns exact fuzzy in
      let spent = pass-IsSpent x normal (fuzzy_mark x) rs os marks thorough exact.normals in
      let missed : (p : Text → Bool) → count p (missing_labels qs) ≡ unmatched p qs =
        λ p. count-missing_labels p qs in
      let always : Text → Bool = λ s. true in
      let hits : count_matched qs ≡ length k.pairs = omega (
        arith,
        matched-missing qs,
        k.sizes.0,
        f.size,
        f.labels always,
        k.targets always,
        missed always,
        count-all (missing_labels qs),
        count-all (read_of target),
        count-all (map (λ q. q.0) k.pairs),
        length-map_text (λ q. q.0) k.pairs,
      ) in
      record {
        pairs = k.pairs;
        left = unused_texts ns;
        alike =
            All-to (IsPair x normal) (λ (label, s). IsAlike x (normal label) s)
              (λ (label, s) like. (similar_iff x (normal label) s).0 like) k.pairs k.alike;
        of_read = λ p. omega (arith, f.labels p, k.targets p, missed p);
        of_shown = λ p. omega (arith, counts p, k.founds p, count-unused_texts p ns);
        complete = unlike ns qs spent k.normals;
        recalled = rw (hits, f.size) refl;
        precise = rw (hits, size) refl;
      }

-- The scores are those of a matching, one to one, of the labels that were read with those of the
-- render, the labels without a normal form left out. Every label that was read is in one pair or is
-- reported as missing, and every label of the render is in one pair or left over, each as often as it
-- stands there. The labels of a pair are alike: their normal forms are the same; or they have the same
-- digits and equally many words, more than one, which are by pairs the same or long and close; or the
-- same digits, are close and do not differ only in the last character. No missing label is like one
-- that is left over. The recall is the ratio of the pairs to the labels that were read, and the
-- precision that to the labels of the render.
pub label_scores-IsMatching :
    {F : Type 0} (x : Parts F) (target rendered : List Text)
    → let (recall, precision, missing) = label_scores x target rendered in
      let normal = normalized x.to_lowercase in
      IsMatching x normal
        (read_of x normal target)
        (shown_of x normal rendered)
        missing
        recall
        precision
unfolding label_scores
label_scores-IsMatching x target rendered = scored x (normalized x.to_lowercase) target rendered
