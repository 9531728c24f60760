-- ===== src/Gateway/Middleware/Denial.antt =====
-- gateway.rs, `gateway_middleware`: what an identity without the grant `admin` reaches.
use kr0ki.Common.{String, ◌≡◌, inl, inr, ◌⊎◌, true, subst, false, Option, some}
use kr0ki.Common.OrdMap
use kr0ki.Audit.{Crates}
use kr0ki.Gateway.Digest.{Digest}
use kr0ki.Gateway.Routes.{routes, required_grant}
use kr0ki.Gateway.Identities.{Identity, permits, caller, authenticate}
use kr0ki.Gateway.Identities.Denial.{Reachable, required_grant-denies}
use kr0ki.Gateway.Middleware.{
  Gateway, Request, Response, Log, Moments, is_exempt, gateway_middleware,
}
use kr0ki.Gateway.Middleware.Guards.{
  unrecorded, unknown_caller, not_granted, served, gateway_middleware-Ends,
}

-- Unless it is exempt, a request of an identity without the grant `admin` either has a pattern with
-- which the table has a row for its method, one that needs no grant or a grant that the identity
-- itself holds; or it changes nothing, and the answer is 503 or 403. So what the table does not list
-- is denied to the identity.
pub gateway_middleware-denies :
    {B W : Type 0} (c : Crates) (sha256_hex : String → Digest)
    (next : Request B → W → W × Response B) (g : Gateway) (t : Moments) (req : Request B)
    (log : Option Log) (w : W) (i : Identity)
    → is_exempt g req ≡ false
    → authenticate sha256_hex g.mode req.authorization ≡ caller i
    → OrdMap.contains "admin" i.grants ≡ false
    → let (log', w', response) = gateway_middleware c sha256_hex next g t req log w in
      ((p : String) × (req.pattern ≡ some p) × Reachable i req.method p routes)
      ⊎ ((w' ≡ w) × ((response.status ≡ 503) ⊎ (response.status ≡ 403)))
gateway_middleware-denies c sha256_hex next g t req log w i guarded known plain =
    elim (gateway_middleware-Ends c sha256_hex next g t req log w guarded) [
      | unrecorded u same status ↦ inr (same, inl status)
      | unknown_caller r nobody same status ↦ absurd (cc)
      | not_granted j grant r who needed missing same status ↦ inr (same, inr status)
      | served j r who may ran answered ↦
          let e : j ≡ i = cc in
          inl (
            required_grant-denies i req.method req.pattern plain (
              subst
                (λ k.
                  (grant : String)
                  → required_grant req.method req.pattern ≡ some grant
                  → permits k grant ≡ true)
                e may))
    ]
