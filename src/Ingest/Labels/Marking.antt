-- ===== src/Ingest/Labels/Marking.antt =====
-- A pass over the targets: each target that it matches is paired with a label of the render that was
-- not used, and is similar to it.
use kr0ki.Common.{
  ℕ, zero, suc, ◌+◌, ◌≡◌, ◌∙◌, refl, ap, subst, inl, inr, true, false, not, ◌&&◌, Bool, Option,
  none, some, List, [], ◌∷◌, map, All, arith, length, if◌then◌else◌, Bool-cases, Option-cases,
}
use kr0ki.Ingest.Scoring.{Text, same}
use kr0ki.Ingest.Labels.{
  Target, Found, Parts, mark_exact, settle, mark_at, pass, exact_mark, similar,
}
use kr0ki.Ingest.Labels.Alike.{same_iff}

abbrev pub bit : Bool → ℕ
bit true = 1
bit false = 0

-- How many texts pass a test.
abbrev pub count : (Text → Bool) → List Text → ℕ
count p [] = 0
count p (s ∷ ss) = bit (p s) + count p ss

-- How many labels of the render that are not used pass a test.
abbrev pub unused : (Text → Bool) → List Found → ℕ
unused p [] = 0
unused p (f ∷ fs) = (if f.used then 0 else bit (p f.text)) + unused p fs

-- How many labels that were read and not matched pass a test.
abbrev pub unmatched : (Text → Bool) → List Target → ℕ
unmatched p [] = 0
unmatched p (t ∷ ts) = (if t.matched then 0 else bit (p t.label)) + unmatched p ts

-- One label that was not used is used now, and nothing else has changed.
abbrev pub Uses : Text → List Found → List Found → Type 0
Uses b before after =
    ((p : Text → Bool) → unused p before ≡ bit (p b) + unused p after)
    × (length after ≡ length before)

mark_exact-Uses :
    (t : Text) (pool marked : List Found) → mark_exact t pool ≡ some marked → Uses t pool marked
unfolding mark_exact
mark_exact-Uses t [] marked h = absurd (cc)
mark_exact-Uses t (f ∷ fs) marked h = elim (Bool-cases (not f.used && same f.text t)) [
  | inl here ↦
      let free : f.used ≡ false = ground (arith, here) in
      let e : f.text ≡ t = (same_iff f.text t).0 (ground (arith, here)) in
      let same_list : record f { used = true } ∷ fs ≡ marked = ground (arith, here, h) in
      subst (Uses t (f ∷ fs)) same_list (λ p. rw (free, e) (omega arith), refl)
  | inr later ↦ elim (Option-cases (mark_exact t fs)) [
    | inl missed ↦ absurd (ground (arith, later, missed, h))
    | inr (rest, found) ↦
        let (counts, size) = mark_exact-Uses t fs rest found in
        let same_list : f ∷ rest ≡ marked = ground (arith, later, found, h) in
        subst (Uses t (f ∷ fs)) same_list (λ p. omega (arith, counts p), ap suc size)
  ]
]

-- The text of an unused label at a place.
abbrev pub IsAt : ℕ → Text → List Found → Type 0
IsAt i b [] = ⊥
IsAt zero b (f ∷ fs) = (f.used ≡ false) × (f.text ≡ b)
IsAt (suc i) b (f ∷ fs) = IsAt i b fs

pub mark_at-Uses :
    (i : ℕ) (b : Text) (pool : List Found) → IsAt i b pool → Uses b pool (mark_at i pool)
unfolding mark_at
mark_at-Uses i b [] at = absurd at
mark_at-Uses zero b (f ∷ fs) (free, e) = (λ p. rw (free, e) (omega arith), refl)
mark_at-Uses (suc i) b (f ∷ fs) at =
    let (counts, size) = mark_at-Uses i b fs at in (λ p. omega (arith, counts p), ap suc size)

module _ {F : Type 0} (x : Parts F) (normal : Text → Text) where
  -- A target holds the normal form of its label.
  abbrev pub IsNormal : Target → Type 0
  IsNormal t = t.norm ≡ normal t.label

  -- A marking uses one similar label for a target that is not matched yet.
  abbrev pub IsMarking : (Target → List Found → Option (List Found)) → Target → Type 0
  IsMarking mark t =
      (pool marked : List Found)
      → mark t pool ≡ some marked
      → (t.matched ≡ false) × (b : Text) × (similar x t.norm b ≡ true) × Uses b pool marked

  pub exact_mark-IsMarking : (t : Target) → t.matched ≡ false → IsMarking exact_mark t
  unfolding exact_mark similar
  exact_mark-IsMarking t fresh pool marked h = (
    fresh,
    t.norm,
    rw ((same_iff t.norm t.norm).1 refl) refl,
    mark_exact-Uses t.norm pool marked h,
  )

  abbrev pub IsPair : Text × Text → Type 0
  IsPair (label, b) = similar x (normal label) b ≡ true

  -- What a pass does: it pairs labels that were not matched with labels that were not used.
  pub record Passed (ts : List Target) (pool : List Found) (ts' : List Target) (pool' : List Found)
      : Type 0 where
    pub pairs : List (Text × Text)
    pub alike : All IsPair pairs
    pub targets :
        (p : Text → Bool) → unmatched p ts ≡ count p (map (λ q. q.0) pairs) + unmatched p ts'
    pub founds : (p : Text → Bool) → unused p pool ≡ count p (map (λ q. q.1) pairs) + unused p pool'
    pub normals : All IsNormal ts'
    pub sizes : (length ts' ≡ length ts) × (length pool' ≡ length pool)

  settle-Passed :
      (t : Target) (ts rest : List Target) (pool pool' : List Found) (o : Option (List Found))
      → IsNormal t
      → ((marked : List Found)
          → o ≡ some marked
          → (t.matched ≡ false) × (b : Text) × (similar x t.norm b ≡ true) × Uses b pool marked)
      → Passed ts (settle t o pool).1 rest pool'
      → Passed (t ∷ ts) pool ((settle t o pool).0 ∷ rest) pool'
  unfolding settle
  settle-Passed t ts rest pool pool' none n m k = record {
    pairs = k.pairs;
    alike = k.alike;
    targets = λ p. omega (arith, k.targets p);
    founds = k.founds;
    normals = (n, k.normals);
    sizes = (ap suc k.sizes.0, k.sizes.1);
  }
  settle-Passed t ts rest pool pool' (some marked) n m k =
      let (fresh, b, like, (counts, size)) = m marked refl in
      record {
        pairs = (t.label, b) ∷ k.pairs;
        alike = (subst (λ s. similar x s b ≡ true) n like, k.alike);
        targets = λ p. rw fresh (omega (arith, k.targets p));
        founds = λ p. omega (arith, counts p, k.founds p);
        normals = (n, k.normals);
        sizes = (ap suc k.sizes.0, k.sizes.1 ∙ size);
      }

  pub pass-Passed :
      (mark : Target → List Found → Option (List Found)) (ts : List Target) (pool : List Found)
      → All (IsMarking mark) ts
      → All IsNormal ts
      → let (ts', pool') = pass mark ts pool in Passed ts pool ts' pool'
  unfolding pass
  pass-Passed mark [] pool m n = record {
    pairs = [];
    alike = tt;
    targets = λ p. omega arith;
    founds = λ p. omega arith;
    normals = tt;
    sizes = (refl, refl);
  }
  pass-Passed mark (t ∷ ts) pool m n =
      let between = (settle t (mark t pool) pool).1 in
      let (ts', pool') = pass mark ts between in
      settle-Passed t ts ts' pool pool' (mark t pool) n.0 (m.0 pool)
        (pass-Passed mark ts between m.1 n.1)

  -- Nothing that is not used is similar to a target that is not matched.
  abbrev pub IsSpent : List Found → Target → Type 0
  IsSpent pool t = t.matched ≡ false → unused (similar x t.norm) pool ≡ 0

  -- A marking that finds nothing leaves nothing behind.
  abbrev pub IsThorough : (Target → List Found → Option (List Found)) → Target → Type 0
  IsThorough mark t = (pool : List Found) → mark t pool ≡ none → IsSpent pool t

  settle-IsSpent :
      (t : Target) (pool after : List Found) (o : Option (List Found)) (used : (Text → Bool) → ℕ)
      → (o ≡ none → IsSpent pool t)
      → ((p : Text → Bool) → unused p (settle t o pool).1 ≡ used p + unused p after)
      → IsSpent after (settle t o pool).0
  unfolding settle
  settle-IsSpent t pool after none used spent counts free =
      omega (arith, counts (similar x t.norm), spent refl free)
  settle-IsSpent t pool after (some marked) used spent counts free = absurd (cc)

  pub pass-IsSpent :
      (mark : Target → List Found → Option (List Found)) (ts : List Target) (pool : List Found)
      → All (IsMarking mark) ts
      → All (IsThorough mark) ts
      → All IsNormal ts
      → let (ts', pool') = pass mark ts pool in All (IsSpent pool') ts'
  unfolding pass settle
  pass-IsSpent mark [] pool m d n = tt
  pass-IsSpent mark (t ∷ ts) pool m d n =
      let between = (settle t (mark t pool) pool).1 in
      let k = pass-Passed mark ts between m.1 n.1 in
      let more = pass-IsSpent mark ts between m.1 d.1 n.1 in
      (
        settle-IsSpent t pool (pass mark ts between).1 (mark t pool)
            (λ p. count p (map (λ q. q.1) k.pairs)) (d.0 pool) k.founds,
        more,
      )
