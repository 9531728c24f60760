-- ===== src/Ingest/Labels/Alike.antt =====
-- scoring.rs, `similar`: which texts are alike.
use kr0ki.Common.{
  ℕ, suc, ◌≤◌, ◌<◌, ◌≡◌, ◌∙◌, refl, sym, ap, subst, ◌⊎◌, inl, inr, ◌↔◌, Bool, true, false, ◌&&◌,
  List, [], ◌∷◌, ◌++◌, arith, length, ltb, eqb, Bool-cases,
}
use kr0ki.Ingest.Scoring.{Text, same, digits, words, but_last}
use kr0ki.Ingest.Labels.{Parts, words_alike, similar}

pub same_iff : (a b : Text) → (same a b ≡ true) ↔ (a ≡ b)
unfolding same
same_iff [] [] = (λ h. refl, λ h. refl)
same_iff [] (d ∷ b) = (λ h. absurd (cc), λ h. absurd (cc))
same_iff (c ∷ a) [] = (λ h. absurd (cc), λ h. absurd (cc))
same_iff (c ∷ a) (d ∷ b) =
    let (into, back) = same_iff a b in
    (
      λ h. let first : c ≡ d = ground (arith, h) in let rest = into (ground (arith, h)) in cc,
      λ h.
          let first : c ≡ d = cc in
          let rest : a ≡ b = cc in let more = back rest in ground (arith, first, more),
    )

-- Two texts that differ in their last characters at most.
pub record DiffersLast (a b : Text) : Type 0 where
  pub front : Text
  pub last_a : ℕ
  pub last_b : ℕ
  pub first : a ≡ front ++ (last_a ∷ [])
  pub second : b ≡ front ++ (last_b ∷ [])

DiffersLast-cons : (c : ℕ) (a b : Text) → DiffersLast a b → DiffersLast (c ∷ a) (c ∷ b)
DiffersLast-cons c a b d = record {
  front = c ∷ d.front;
  last_a = d.last_a;
  last_b = d.last_b;
  first = ap (λ s. c ∷ s) d.first;
  second = ap (λ s. c ∷ s) d.second;
}

DiffersLast-of :
    (c : ℕ) (a : Text) (d : ℕ) (b : Text)
    → length (c ∷ a) ≡ length (d ∷ b)
    → but_last (c ∷ a) ≡ but_last (d ∷ b)
    → DiffersLast (c ∷ a) (d ∷ b)
unfolding but_last
DiffersLast-of c [] d [] size h = record {
  front = [];
  last_a = c;
  last_b = d;
  first = refl;
  second = refl;
}
DiffersLast-of c [] d (e ∷ b) size h = absurd (omega (arith, size))
DiffersLast-of c (e ∷ a) d [] size h = absurd (omega (arith, size))
DiffersLast-of c (e ∷ a) d (f ∷ b) size h =
    let head : c ≡ d = cc in
    let tail : but_last (e ∷ a) ≡ but_last (f ∷ b) = cc in
    let rest = DiffersLast-of e a f b (omega (arith, size)) tail in
    subst (λ d. DiffersLast (c ∷ e ∷ a) (d ∷ f ∷ b)) head (DiffersLast-cons c (e ∷ a) (f ∷ b) rest)

but_last-snoc :
    (front : Text) (c d : ℕ)
    → (but_last (front ++ (c ∷ [])) ≡ but_last (front ++ (d ∷ [])))
      × (length (front ++ (c ∷ [])) ≡ length (front ++ (d ∷ [])))
unfolding but_last
but_last-snoc [] c d = (refl, refl)
but_last-snoc (e ∷ []) c d = (refl, refl)
but_last-snoc (e ∷ f ∷ front) c d =
    let (same_, size) = but_last-snoc (f ∷ front) c d in (ap (λ s. e ∷ s) same_, ap suc size)

abbrev last_only : Text → Text → Bool
last_only a b = eqb (length a) (length b) && same (but_last a) (but_last b)

last_only_iff : (a b : Text) → same a b ≡ false → (last_only a b ≡ true) ↔ DiffersLast a b
unfolding same
last_only_iff a b differ = (
  λ h. go a b differ h,
  λ d.
      let (same_, size) = but_last-snoc d.front d.last_a d.last_b in
      let e : but_last a ≡ but_last b = ap but_last d.first ∙ same_ ∙ ap but_last (sym d.second) in
      let f : length a ≡ length b = ap length d.first ∙ size ∙ ap length (sym d.second) in
      let g = (same_iff (but_last a) (but_last b)).1 e in ground (arith, f, g),
)
  where
    go : (a b : Text) → same a b ≡ false → last_only a b ≡ true → DiffersLast a b
    go [] [] differ h = absurd (cc)
    go [] (d ∷ b) differ h = absurd (ground (arith, h))
    go (c ∷ a) [] differ h = absurd (ground (arith, h))
    go (c ∷ a) (d ∷ b) differ h =
        DiffersLast-of c a d b (ground (arith, h))
          ((same_iff (but_last (c ∷ a)) (but_last (d ∷ b))).0 (ground (arith, h)))

module _ {F : Type 0} (x : Parts F) where
  abbrev close : Text → Text → Bool
  close a b = x.at_least_threshold (x.normalized_levenshtein a b)

  -- The words of two texts by pairs: each the same, or two long ones that are close.
  abbrev pub AreAlike : List Text → List Text → Type 0
  AreAlike (a ∷ more) (b ∷ others) =
      ((a ≡ b) ⊎ ((7 ≤ length a) × (7 ≤ length b) × (close a b ≡ true))) × AreAlike more others
  AreAlike _ _ = Unit

  AreAlike-iff : (as_ bs : List Text) → (words_alike x as_ bs ≡ true) ↔ AreAlike as_ bs
  unfolding words_alike
  AreAlike-iff [] [] = (λ h. tt, λ h. refl)
  AreAlike-iff [] (b ∷ bs) = (λ h. tt, λ h. refl)
  AreAlike-iff (a ∷ as_) [] = (λ h. tt, λ h. refl)
  AreAlike-iff (a ∷ as_) (b ∷ bs) =
      let (into, back) = AreAlike-iff as_ bs in
      (
        λ h. (
          elim (Bool-cases (same a b)) [
            | inl e ↦ inl ((same_iff a b).0 e)
            | inr differ ↦
                inr
                  (ground (arith, h, differ), ground (arith, h, differ), ground (arith, h, differ))
          ],
          into (ground (arith, h)),
        ),
        λ (first, rest).
            let more = back rest in
            elim first [
              | inl e ↦ let f = (same_iff a b).1 e in ground (arith, f, more)
              | inr (long_a, long_b, near) ↦ ground (arith, long_a, long_b, near, more)
            ],
      )

  -- Texts are alike if they are the same. Else their digits are the same, and if they are made of
  -- equally many words, more than one, these are alike by pairs; if not, they are close and differ
  -- not only in their last characters.
  abbrev pub SameWords : Text → Text → Type 0
  SameWords a b = (length (words a) ≡ length (words b)) × (1 < length (words a))

  pub data IsAlike (a b : Text) : Type 0 where
    same_text : a ≡ b → IsAlike a b
    same_words : digits a ≡ digits b → SameWords a b → AreAlike (words a) (words b) → IsAlike a b
    misread :
        digits a ≡ digits b → ¬ SameWords a b → ¬ DiffersLast a b → close a b ≡ true → IsAlike a b

  similar-IsAlike : (a b : Text) → similar x a b ≡ true → IsAlike a b
  unfolding similar
  similar-IsAlike a b h = elim (Bool-cases (same a b)) [
    | inl e ↦ same_text ((same_iff a b).0 e)
    | inr differ ↦
        let numbers : same (digits a) (digits b) ≡ true = ground (arith, h, differ) in
        let figures = (same_iff (digits a) (digits b)).0 numbers in
        elim (Bool-cases (eqb (length (words a)) (length (words b)) && ltb 1 (length (words a)))) [
          | inl both ↦
              same_words figures (ground (arith, both), ground (arith, both))
                ((AreAlike-iff (words a) (words b)).0 (ground (arith, h, differ, numbers, both)))
          | inr apart ↦ elim (Bool-cases (last_only a b)) [
            | inl last ↦ absurd (ground (arith, h, differ, numbers, apart, last))
            | inr elsewhere ↦
                misread figures (λ (size, many). ground (arith, apart, size, many))
                  (λ d.
                    let last = (last_only_iff a b differ).1 d in ground (arith, last, elsewhere))
                  (ground (arith, h, differ, numbers, apart, elsewhere))
          ]
        ]
  ]

  IsAlike-similar : (a b : Text) → IsAlike a b → similar x a b ≡ true
  unfolding similar
  IsAlike-similar a b alike = elim (Bool-cases (same a b)) [
    | inl e ↦ rw e refl
    | inr differ ↦ elim alike [
      | same_text e ↦ absurd (ground (arith, (same_iff a b).1 e, differ))
      | same_words figures (size, many) each ↦
          let numbers = (same_iff (digits a) (digits b)).1 figures in
          let all_ = (AreAlike-iff (words a) (words b)).1 each in
          ground (arith, differ, numbers, size, many, all_)
      | misread figures other last near ↦
          let numbers = (same_iff (digits a) (digits b)).1 figures in
          elim (Bool-cases
            (eqb (length (words a)) (length (words b)) && ltb 1 (length (words a)))) [
              | inl both ↦ absurd (other (ground (arith, both), ground (arith, both)))
              | inr apart ↦ elim (Bool-cases (last_only a b)) [
                | inl only ↦ absurd (last ((last_only_iff a b differ).0 only))
                | inr elsewhere ↦ ground (arith, differ, numbers, apart, elsewhere, near)
              ]
            ]
    ]
  ]

  pub similar_iff : (a b : Text) → (similar x a b ≡ true) ↔ IsAlike a b
  similar_iff a b = (similar-IsAlike a b, IsAlike-similar a b)
