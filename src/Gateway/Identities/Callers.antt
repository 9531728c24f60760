-- ===== src/Gateway/Identities/Callers.antt =====
-- Who is authenticated against an identities file.
use mathlib.Core.List.{Memᴰ}
use kr0ki.Common.{
  String, ◌<>◌, ◌≡◌, ◌∙◌, refl, sym, ap, subst, ◌↔◌, ◌⊎◌, inl, inr, Option, none, some, List, [],
  ◌∷◌, All, arith, if◌then◌else◌, Bool-cases, Option-cases,
}
use kr0ki.Common.Text.Prefixes.{strip_prefix-append, strip_prefix-some}
use kr0ki.Gateway.Digest.{Digest, constant_time_eq}
use kr0ki.Gateway.Digest.Equality.{constant_time_eq_iff}
use kr0ki.Gateway.Identities.{Identity, identities, caller, find_caller, bearer, authenticate}
use kr0ki.Gateway.Identities.Roster.{Apart, IsApart, IsRoster}

found-mem :
    (p : Digest) (acc : Option Identity) (ids : List Identity) (i : Identity)
    → find_caller p acc ids ≡ some i
    → (acc ≡ some i) ⊎ (Memᴰ i ids × (p ≡ i.token_sha256))
unfolding find_caller
found-mem p acc [] i h = inl h
found-mem p acc (j ∷ ids) i h = elim (Bool-cases (constant_time_eq p j.token_sha256)) [
  | inl same ↦ elim (found-mem p (some j) ids i (ground (arith, same, h))) [
    | inl e ↦
        let here : j ≡ i = ground arith in
        inr (
          Memᴰ.head (sym here),
          (constant_time_eq_iff p j.token_sha256).0 same ∙ ap (λ k. k.token_sha256) here,
        )
    | inr (m, e) ↦ inr (Memᴰ.tail m, e)
  ]
  | inr other ↦ elim (found-mem p acc ids i (ground (arith, other, h))) [
    | inl e ↦ inl e
    | inr (m, e) ↦ inr (Memᴰ.tail m, e)
  ]
]

find_caller-miss :
    (j : Identity) (acc : Option Identity) (ids : List Identity)
    → All (Apart j) ids
    → find_caller j.token_sha256 acc ids ≡ acc
unfolding find_caller
find_caller-miss j acc [] h = refl
find_caller-miss j acc (k ∷ ids) h =
    elim (Bool-cases (constant_time_eq j.token_sha256 k.token_sha256)) [
      | inl same ↦ absurd (h.0.1 ((constant_time_eq_iff j.token_sha256 k.token_sha256).0 same))
      | inr other ↦ rw other (find_caller-miss j acc ids h.1)
    ]

find_caller-hit :
    (acc : Option Identity) (ids : List Identity) (i : Identity)
    → IsApart ids
    → Memᴰ i ids
    → find_caller i.token_sha256 acc ids ≡ some i
unfolding find_caller
find_caller-hit acc [] i apart m = elim m [ ]
find_caller-hit acc (j ∷ ids) i apart (Memᴰ.head e) =
    let here : find_caller j.token_sha256 acc (j ∷ ids) ≡ some j =
      rw ((constant_time_eq_iff j.token_sha256 j.token_sha256).1 refl)
        (find_caller-miss j (some j) ids apart.0) in
    subst (λ k. find_caller k.token_sha256 acc (j ∷ ids) ≡ some k) (sym e) here
find_caller-hit acc (j ∷ ids) i apart (Memᴰ.tail m) =
    find_caller-hit (if constant_time_eq i.token_sha256 j.token_sha256 then some j else acc) ids i
      apart.1 m

bearer_iff :
    (header : Option String) (token : String)
    → (bearer header ≡ some token) ↔ (header ≡ some ("Bearer " <> token))
unfolding bearer
bearer_iff none token = (λ h. absurd (cc), λ h. absurd (cc))
bearer_iff (some text) token = (
  λ h. ap some (strip_prefix-some "Bearer " text token h),
  λ h.
      let e : text ≡ "Bearer " <> token = ground arith in
      rw e (strip_prefix-append "Bearer " token),
)

module _ (sha256_hex : String → Digest) where
  -- What a request has to show to be authenticated as an identity of a file.
  abbrev pub Shows : Option String → Identity → Type 0
  Shows header i =
      (token : String) × (header ≡ some ("Bearer " <> token)) × (sha256_hex token ≡ i.token_sha256)

  authenticated-Shows :
      (ids : List Identity) (header : Option String) (i : Identity)
      → authenticate sha256_hex (identities ids) header ≡ caller i
      → Memᴰ i ids × Shows header i
  unfolding authenticate
  authenticated-Shows ids header i h = elim (Option-cases (bearer header)) [
    | inl blank ↦ absurd (ground (arith, blank, h))
    | inr (token, shown) ↦ elim (Option-cases (find_caller (sha256_hex token) none ids)) [
      | inl missed ↦ absurd (ground (arith, shown, missed, h))
      | inr (j, found) ↦
          let same : j ≡ i = ground (arith, shown, found, h) in
          elim (found-mem (sha256_hex token) none ids i (found ∙ ap some same)) [
            | inl e ↦ absurd (cc)
            | inr (m, e) ↦ (m, (token, (bearer_iff header token).0 shown, e))
          ]
    ]
  ]

  Shows-authenticated :
      (ids : List Identity) (header : Option String) (i : Identity)
      → IsApart ids
      → Memᴰ i ids
      → Shows header i
      → authenticate sha256_hex (identities ids) header ≡ caller i
  unfolding authenticate
  Shows-authenticated ids header i apart m (token, shown, e) =
      let presented = (bearer_iff header token).1 shown in
      let found : find_caller (sha256_hex token) none ids ≡ some i =
        subst (λ d. find_caller d none ids ≡ some i) (sym e) (find_caller-hit none ids i apart m) in
      ground (arith, presented, found)

  -- Against an accepted identities file, a request is authenticated as an identity exactly if the
  -- file lists that identity and the request's header is `Bearer ` and a token with its digest.
  pub authenticate_iff :
      (ids : List Identity) (header : Option String) (i : Identity)
      → IsRoster ids
      → (authenticate sha256_hex (identities ids) header ≡ caller i) ↔ (Memᴰ i ids × Shows header i)
  authenticate_iff ids header i r = (
    authenticated-Shows ids header i,
    λ (m, shown). Shows-authenticated ids header i r.apart m shown,
  )
