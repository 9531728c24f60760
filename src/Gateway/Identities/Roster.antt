-- ===== src/Gateway/Identities/Roster.antt =====
-- What `parse_identities` guarantees of the identities that it returns.
use kr0ki.Common.{
  String, ◌==◌, ◌≡◌, ◌≢◌, ◌∙◌, refl, sym, ap, subst, inl, inr, true, false, not, none, List, [],
  ◌∷◌, ◌++◌, All, All-append, any, find, arith, eq_iff, Bool-cases,
}
use kr0ki.Common.Results.{Result, ok, Result-cases}
use kr0ki.Common.OrdMap
use kr0ki.Gateway.Digest.{Digest}
use kr0ki.Gateway.Identities.{
  Identity, IdentityDoc, digest_ok, is_known, same_bytes, set_of, check_identity, parse_docs,
  parse_identities,
}

-- An identity with a digest in hexadecimal and known grants alone.
pub record IsWellFormed (i : Identity) : Type 0 where
  pub digest : digest_ok i.token_sha256 ≡ true
  pub known : (g : String) → OrdMap.contains g i.grants ≡ true → is_known g ≡ true

-- Two identities with another id and another token.
abbrev pub Apart : Identity → Identity → Type 0
Apart i j = (i.id ≢ j.id) × (i.token_sha256 ≢ j.token_sha256)

abbrev pub IsApart : List Identity → Type 0
IsApart [] = Unit
IsApart (i ∷ rest) = All (Apart i) rest × IsApart rest

pub record IsRoster (ids : List Identity) : Type 0 where
  pub well_formed : All IsWellFormed ids
  pub apart : IsApart ids

IsApart-snoc :
    (ids : List Identity) (j : Identity)
    → IsApart ids
    → All (λ i. Apart i j) ids
    → IsApart (ids ++ (j ∷ []))
IsApart-snoc [] j apart other = (tt, tt)
IsApart-snoc (i ∷ ids) j apart other =
    (All-append (Apart i) ids (j ∷ []) apart.0 (other.0, tt), IsApart-snoc ids j apart.1 other.1)

same_bytes_refl : (d : Digest) → same_bytes d d ≡ true
unfolding same_bytes
same_bytes_refl [] = refl
same_bytes_refl (x ∷ xs) = ground (arith, same_bytes_refl xs)

set_of-IsKnown :
    (gs : List String)
    → find (λ g. not (is_known g)) gs ≡ none
    → (g : String) → OrdMap.contains g (set_of gs) ≡ true
    → is_known g ≡ true
unfolding set_of
set_of-IsKnown [] h g listed = absurd (ground (arith, OrdMap.contains-nil g))
set_of-IsKnown (k ∷ gs) h g listed = elim (Bool-cases (is_known k)) [
  | inr unknown ↦ absurd (ground (arith, unknown, h))
  | inl known ↦ elim (Bool-cases (k == g)) [
    | inl same ↦ ap is_known (sym ((eq_iff k g).0 same)) ∙ known
    | inr other ↦
        set_of-IsKnown gs (ground (arith, known, h)) g
          (ground (arith, OrdMap.contains-add k g (set_of gs), listed, other))
  ]
]

others-Apart :
    (out : List Identity) (j : Identity)
    → any (λ o. o.id == j.id) out ≡ false
    → find (λ o. same_bytes o.token_sha256 j.token_sha256) out ≡ none
    → All (λ i. Apart i j) out
others-Apart [] j ids tokens = tt
others-Apart (o ∷ out) j ids tokens = (
  (
    λ e. absurd (ground (arith, eq_iff o.id j.id, e, ids)),
    λ e. absurd (ground (arith, same_bytes_refl j.token_sha256, e, tokens)),
  ),
  others-Apart out j (ground arith) (ground arith),
)

check_identity-ok :
    (out : List Identity) (d : IdentityDoc) (j : Identity)
    → check_identity out d ≡ ok j
    → IsWellFormed j × All (λ i. Apart i j) out
unfolding check_identity
check_identity-ok out d j h =
    let unknown = find (λ g. not (is_known g)) d.grants in
    let shared = find (λ o. same_bytes o.token_sha256 d.token_sha256) out in
    let taken : any (λ o. o.id == d.id) out ≡ false = ground (arith, h) in
    let digest : digest_ok d.token_sha256 ≡ true = ground (arith, h) in
    let none_unknown : unknown ≡ none = ground (arith, h) in
    let none_shared : shared ≡ none = ground (arith, h) in
    let id : j.id ≡ d.id = ground (arith, h) in
    let token : j.token_sha256 ≡ d.token_sha256 = ground (arith, h) in
    let listed : j.grants ≡ set_of d.grants = ground (arith, h) in
    (
      record {
        digest = rw token digest;
        known = λ g m. set_of-IsKnown d.grants none_unknown g (rw listed at m);
      },
      others-Apart out j (rw id taken) (rw token none_shared),
    )

parse_docs-IsRoster :
    (out : List Identity) (docs : List IdentityDoc) (ids : List Identity)
    → IsRoster out
    → parse_docs out docs ≡ ok ids
    → IsRoster ids
unfolding parse_docs
parse_docs-IsRoster out [] ids r h = subst IsRoster (ground arith) r
parse_docs-IsRoster out (d ∷ docs) ids r h = elim (Result-cases (check_identity out d)) [
  | inr (e, refused) ↦ absurd (ground (arith, refused, h))
  | inl (j, fine) ↦
      let (well, other) = check_identity-ok out d j fine in
      parse_docs-IsRoster (out ++ (j ∷ [])) docs ids
        (record {
          well_formed = All-append IsWellFormed out (j ∷ []) r.well_formed (well, tt);
          apart = IsApart-snoc out j r.apart other;
        })
        (ground (arith, fine, h))
]

-- Every identities file that is accepted gives identities with pairwise different ids and pairwise
-- different tokens, each with the digest of a token in hexadecimal and with no grant but the known
-- ones.
pub parse_identities-IsRoster :
    (from_str : String → Result (List IdentityDoc) String) (text : String) (ids : List Identity)
    → parse_identities from_str text ≡ ok ids
    → IsRoster ids
unfolding parse_identities
parse_identities-IsRoster from_str text ids h = elim (Result-cases (from_str text)) [
  | inr (e, refused) ↦ absurd (ground (arith, refused, h))
  | inl (docs, fine) ↦
      parse_docs-IsRoster [] docs ids (record { well_formed = tt; apart = tt })
        (ground (arith, fine, h))
]
