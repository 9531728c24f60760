-- ===== src/Gateway/Identities.antt =====
-- gateway.rs: the identities file and `Gateway::authenticate`. The TOML parser and SHA-256 are
-- parameters.
pub mod Roster
pub mod Callers
pub mod Denial
use kr0ki.Common.{
  String, ◌==◌, Bool, true, false, not, ◌&&◌, ◌||◌, Option, none, some, List, [], ◌∷◌, ◌++◌, leb,
  eqb, if◌then◌else◌, any, all, find, is_empty, length, and_then,
}
use kr0ki.Common.Results.{Result, ok, err, ◌>>=◌, map_err}
use kr0ki.Common.Text.{is_digit, strip_prefix}
use kr0ki.Common.OrdMap
use kr0ki.Common.OrdMap.{OrdSet}
use kr0ki.Gateway.Digest.{Digest, constant_time_eq}
use kr0ki.Gateway.Routes.{grants as known_grants}

pub record Identity : Type 0 where
  pub id : String
  pub grants : OrdSet
  pub token_sha256 : Digest

unfoldable pub permits : Identity → String → Bool
permits i grant = OrdMap.contains "admin" i.grants || OrdMap.contains grant i.grants

pub data IdentityError : Type 0 where
  toml : String → IdentityError
  duplicate_id : String → IdentityError
  duplicate_token : String → String → IdentityError
  unknown_grant : String → String → IdentityError
  bad_digest : String → IdentityError
  empty : IdentityError

pub record IdentityDoc : Type 0 where
  pub id : String
  pub token_sha256 : Digest
  pub grants : List String

-- `collect` into a `BTreeSet`
unfoldable pub set_of : List String → OrdSet
set_of [] = []
set_of (g ∷ gs) = OrdMap.add g (set_of gs)

-- 64 digits of lower-case hexadecimal
unfoldable pub digest_ok : Digest → Bool
digest_ok d = eqb (length d) 64 && all (λ b. is_digit b || (leb 97 b && leb b 102)) d

unfoldable pub is_known : String → Bool
is_known g = any (λ k. k == g) known_grants

-- The equality of two texts by their bytes.
unfoldable pub same_bytes : Digest → Digest → Bool
same_bytes [] [] = true
same_bytes (x ∷ xs) (y ∷ ys) = eqb x y && same_bytes xs ys
same_bytes _ _ = false

-- One turn of the loop of `parse_identities`, with the identities so far.
unfoldable pub check_identity : List Identity → IdentityDoc → Result Identity IdentityError
unfolding digest_ok is_known same_bytes set_of
check_identity out i =
    if any (λ o. o.id == i.id) out
    then err (duplicate_id i.id)
    else if not (digest_ok i.token_sha256)
    then err (bad_digest i.id)
    else elim (find (λ g. not (is_known g)) i.grants) [
      | some g ↦ err (unknown_grant i.id g)
      | none ↦ elim (find (λ o. same_bytes o.token_sha256 i.token_sha256) out) [
        | some o ↦ err (duplicate_token o.id i.id)
        | none ↦ ok (record { id = i.id; grants = set_of i.grants; token_sha256 = i.token_sha256 })
      ]
    ]

unfoldable pub parse_docs : List Identity → List IdentityDoc → Result (List Identity) IdentityError
unfolding check_identity
parse_docs out [] = ok out
parse_docs out (i ∷ rest) = check_identity out i >>= λ o. parse_docs (out ++ (o ∷ [])) rest

unfoldable pub parse_identities :
    (String → Result (List IdentityDoc) String) → String → Result (List Identity) IdentityError
unfolding parse_docs
parse_identities from_str text =
    map_err toml (from_str text) >>= λ docs. if is_empty docs then err empty else parse_docs [] docs

pub data AuthMode : Type 0 where
  open_to_all : AuthMode
  shared_token : String → AuthMode
  identities : List Identity → AuthMode

pub data Authn : Type 0 where
  caller : Identity → Authn
  failed : Authn

-- The loop over the identities, with no early exit.
unfoldable pub find_caller : Digest → Option Identity → List Identity → Option Identity
find_caller presented found [] = found
find_caller presented found (i ∷ rest) =
    find_caller presented (if constant_time_eq presented i.token_sha256 then some i else found) rest

authn_of : Option Identity → Authn
authn_of none = failed
authn_of (some i) = caller i

unfoldable pub bearer : Option String → Option String
bearer authorization = and_then authorization (strip_prefix "Bearer ")

module _ (sha256_hex : String → Digest) where
  -- `Identity::new`, with the one grant that it is called for
  unfoldable pub all_powerful : String → String → Identity
  all_powerful id token = record { id = id; grants = "admin" ∷ []; token_sha256 = sha256_hex token }

  unfoldable pub authenticate_bearer : AuthMode → Option String → Authn
  unfolding find_caller authn_of all_powerful
  authenticate_bearer open_to_all presented = caller (all_powerful "anonymous" "")
  authenticate_bearer (shared_token token) none = failed
  authenticate_bearer (shared_token token) (some b) =
      if constant_time_eq (sha256_hex b) (sha256_hex token)
      then caller (all_powerful "shared-token" token)
      else failed
  authenticate_bearer (identities ids) none = failed
  authenticate_bearer (identities ids) (some b) = authn_of (find_caller (sha256_hex b) none ids)

  -- `Gateway::authenticate`
  unfoldable pub authenticate : AuthMode → Option String → Authn
  unfolding authenticate_bearer bearer
  authenticate mode authorization = authenticate_bearer mode (bearer authorization)
