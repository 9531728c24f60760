-- ===== src/Runner/Cases/Digests.antt =====
-- verification_runner.rs, `configuration_digest` and `current_revisions`.
use text.Mathlib.TextLemmas.{append_cancel_left}
use kr0ki.Common.{String, ◌≡◌, ap}
use kr0ki.Runner.Cases.{Spec, VerificationCase, CaseCrates, configuration_digest}

of_spec : Spec → VerificationCase
of_spec s = record {
  id = s.case_id;
  argv = s.argv;
  acceptance = s.acceptance;
  requirements = s.requirements;
}

-- Two cases have the same digest only if they are the same in everything: the command, the acceptance,
-- the requirements and the toolchain they are checked with. No two texts share a digest, and no two
-- objects a text.
pub configuration_digest-determines :
    (c : CaseCrates) (v w : VerificationCase) (before now : String)
    → ((a b : String) → c.sha256_hex a ≡ c.sha256_hex b → a ≡ b)
    → ((a b : Spec) → c.to_string a ≡ c.to_string b → a ≡ b)
    → configuration_digest c v before ≡ configuration_digest c w now
    → (v ≡ w) × (before ≡ now)
unfolding configuration_digest of_spec
configuration_digest-determines c v w before now distinct readable h =
    let specs = readable _ _ (distinct _ _ (append_cancel_left "sha256:" _ _ h)) in
    (ap of_spec specs, ap (λ s. s.toolchain) specs)
