-- ===== src/Change/Service.antt =====
-- change_service.rs, `propose`, `validate` and `commit`, a caller at a time: the proposals and the
-- world are passed on. The digest of a proposal is a parameter.
use kr0ki.Common.{
  arith, ◌≡◌, ◌≢◌, refl, ap, eq_iff, eq_refl, String, ◌<>◌, ◌==◌, starts_with, Bool, true, false,
  not, Option, none, some, List, [], ◌∷◌, map, filter, if◌then◌else◌, is_some_and, and_then,
  or_else, unwrap_or,
}
use kr0ki.Common.Results.{Result, ok, err, ◌>>=◌, map_err}
use kr0ki.Common.Text.{take_chars}
use kr0ki.Common.OrdMap.{OrdMap, lookup, insert, remove, keys}
use kr0ki.Sync.Model.{Json, Fields, Element, DesiredElement, DataVersion, element_identifier}
use kr0ki.Sync.Diff.{diff_managed}
use kr0ki.Change.Model.{
  BackendError, conflict, ModelBackend, create, update, delete, ChangeSummary, ProposedChange,
  Validation, Committed, ChangeError, stale_base, proposal_mismatch, unknown_change, no_changes,
  sync, backend, Stored,
}

-- `ChangeService::proposals`
abbrev pub Proposals : Type 0 → Type 0
Proposals V = OrdMap (Stored V)

-- Two revisions are the same.
unfoldable pub same_revision : Option String → Option String → Bool
same_revision none none = true
same_revision (some a) (some b) = a == b
same_revision _ _ = false

pub same_revision-eq : (a b : Option String) → same_revision a b ≡ true → a ≡ b
unfolding same_revision
same_revision-eq none none h = refl
same_revision-eq none (some b) h = absurd (cc)
same_revision-eq (some a) none h = absurd (cc)
same_revision-eq (some a) (some b) h = ap some ((eq_iff a b).0 h)

pub same_revision_refl : (a : Option String) → same_revision a a ≡ true
unfolding same_revision
same_revision_refl none = refl
same_revision_refl (some a) = eq_refl a

pub same_revision-ne : (a b : Option String) → same_revision a b ≡ false → a ≢ b
unfolding same_revision
same_revision-ne none none h e = absurd (cc)
same_revision-ne none (some b) h e = absurd (cc)
same_revision-ne (some a) none h e = absurd (cc)
same_revision-ne (some a) (some b) h e = absurd (ground (arith, eq_iff a b, h, e))

module _ {V : Type 0} (x : Json V) where
  open x use {as_text, as_list}

  head_of_list : List V → Option V
  head_of_list [] = none
  head_of_list (v ∷ vs) = some v

  unfoldable pub payload_identifier : Fields V → String
  unfolding head_of_list
  payload_identifier p =
      unwrap_or
        (or_else (and_then (lookup "identifier" p) as_text)
          (and_then (and_then (and_then (lookup "aliasIds" p) as_list) head_of_list) as_text))
        ""

  -- `by_id`: the identifiers of the elements by their ids, a later one over an earlier.
  unfoldable pub identifiers_by_id : List (Element V) → OrdMap String → OrdMap String
  identifiers_by_id [] acc = acc
  identifiers_by_id (e ∷ es) acc =
      identifiers_by_id es
        (elim (element_identifier x e) [ none ↦ acc | some i ↦ insert e.at_id i acc ])

  unfoldable pub summary_of : OrdMap String → DataVersion V → ChangeSummary
  unfolding payload_identifier
  summary_of by_id c = elim c.payload [
    | some p ↦ elim c.identity [
      | none ↦ record { operation = create; identifier = payload_identifier p }
      | some id ↦ record {
        operation = update;
        identifier = unwrap_or (lookup id by_id) (payload_identifier p);
      }
    ]
    | none ↦ record {
      operation = delete;
      identifier = unwrap_or (or_else (and_then c.identity (λ i. lookup i by_id)) c.identity) "";
    }
  ]

module _ {W V : Type 0} (x : Json V) (b : ModelBackend W V)
    (digest : String → Option String → Option String → List (DataVersion V) → String) where
  managed : String → Element V → Bool
  managed prefix e = is_some_and (element_identifier x e) (λ i. starts_with i prefix)

  -- The managed elements at the head, if it has one.
  unfoldable pub existing_at :
      String → String → Option String → W → W × Result (List (Element V)) BackendError
  unfolding managed
  existing_at project prefix none w = (w, ok [])
  existing_at project prefix (some commit) w =
      let (w', answer) = b.elements_at project commit w in
      (w', answer >>= λ es. ok (filter (managed prefix) es))

  -- What is stored, once the elements are known and differ from those that are wanted.
  unfoldable pub stored_of :
      String → Option String → Option String → List (Element V) → List (DataVersion V) → Stored V
  unfolding summary_of identifiers_by_id
  stored_of project branch head existing changes = record {
    proposal = record {
      change_id = "chg-" <> take_chars 24 (digest project branch head changes);
      project_id = project;
      branch_id = branch;
      base_revision = head;
      summary = map (summary_of x (identifiers_by_id x existing [])) changes;
    };
    changes = changes;
  }

  unfoldable pub keep :
      String
      → Option String
      → Option String
      → List (Element V)
      → Proposals V
      → Result (List (DataVersion V)) ChangeError
      → Proposals V × Result ProposedChange ChangeError
  unfolding stored_of
  keep project branch head existing proposals (err e) = (proposals, err e)
  keep project branch head existing proposals (ok []) = (proposals, err (no_changes head))
  keep project branch head existing proposals (ok (change ∷ more)) =
      let s = stored_of project branch head existing (change ∷ more) in
      (insert s.proposal.change_id s proposals, ok s.proposal)

  unfoldable pub propose_on :
      String
      → Option String
      → List (DesiredElement V)
      → Proposals V
      → Option String
      → W × Result (List (Element V)) BackendError
      → W × Proposals V × Result ProposedChange ChangeError
  unfolding keep
  propose_on project branch desired proposals head (w, err e) = (w, proposals, err (backend e))
  propose_on project branch desired proposals head (w, ok existing) =
      let (proposals', result) =
        keep project branch head existing proposals
          (map_err sync (diff_managed x existing desired)) in
      (w, proposals', result)

  unfoldable pub propose_at :
      String
      → Option String
      → String
      → List (DesiredElement V)
      → Proposals V
      → W × Result (Option String) BackendError
      → W × Proposals V × Result ProposedChange ChangeError
  unfolding propose_on existing_at
  propose_at project branch prefix desired proposals (w, err e) = (w, proposals, err (backend e))
  propose_at project branch prefix desired proposals (w, ok head) =
      propose_on project branch desired proposals head (existing_at project prefix head w)

  unfoldable pub propose :
      String
      → Option String
      → String
      → List (DesiredElement V)
      → Proposals V
      → W
      → W × Proposals V × Result ProposedChange ChangeError
  unfolding propose_at
  propose project branch prefix desired proposals w =
      propose_at project branch prefix desired proposals (b.head project branch w)

module _ {W V : Type 0} (b : ModelBackend W V) where
  validated :
      ProposedChange
      → String
      → W × Result (Option String) BackendError
      → W × Result Validation ChangeError
  validated p change_id (w, err e) = (w, err (backend e))
  validated p change_id (w, ok current) = (
    w,
    ok (record {
      change_id = change_id;
      base_revision = p.base_revision;
      current_revision = current;
      current = same_revision current p.base_revision;
    }),
  )

  unfoldable pub validate : String → Proposals V → W → W × Result Validation ChangeError
  unfolding validated same_revision
  validate change_id proposals w = elim (lookup change_id proposals) [
    | none ↦ (w, err (unknown_change change_id))
    | some s ↦ validated s.proposal change_id (b.head s.proposal.project_id s.proposal.branch_id w)
  ]

  -- The head, once more, behind a conflict that the server reports.
  unfoldable pub conflicted :
      Option String
      → Proposals V
      → W × Result (Option String) BackendError
      → W × Proposals V × Result Committed ChangeError
  conflicted expected proposals (w, err e) = (w, proposals, err (backend e))
  conflicted expected proposals (w, ok current) = (w, proposals, err (stale_base expected current))

  -- What follows the server's answer to the commit.
  unfoldable pub posted :
      Stored V
      → String
      → Option String
      → Proposals V
      → W × Result String BackendError
      → W × Proposals V × Result Committed ChangeError
  unfolding conflicted
  posted s change_id expected proposals (w, ok commit_id) = (
    w,
    remove change_id proposals,
    ok (record { change_id = change_id; base_revision = expected; commit_id = commit_id }),
  )
  posted s change_id expected proposals (w, err conflict) =
      conflicted expected proposals (b.head s.proposal.project_id s.proposal.branch_id w)
  posted s change_id expected proposals (w, err (BackendError.other m)) =
      (w, proposals, err (backend (BackendError.other m)))

  -- What follows the head that is read under the lock.
  unfoldable pub at_head :
      Stored V
      → String
      → Option String
      → Proposals V
      → W × Result (Option String) BackendError
      → W × Proposals V × Result Committed ChangeError
  unfolding posted same_revision
  at_head s change_id expected proposals (w, err e) = (w, proposals, err (backend e))
  at_head s change_id expected proposals (w, ok current) =
      let sent =
        posted s change_id expected proposals
          (b.commit s.proposal.project_id s.proposal.branch_id expected s.changes w) in
      if same_revision current expected
      then sent
      else (w, proposals, err (stale_base expected current))

  -- With no other caller, the proposal is still there when the lock is taken.
  unfoldable pub commit :
      String → Option String → Proposals V → W → W × Proposals V × Result Committed ChangeError
  unfolding at_head same_revision
  commit change_id expected proposals w = elim (lookup change_id proposals) [
    | none ↦ (w, proposals, err (unknown_change change_id))
    | some s ↦
        if not (same_revision expected s.proposal.base_revision)
        then (w, proposals, err (proposal_mismatch expected s.proposal.base_revision))
        else at_head s change_id expected proposals
            (b.head s.proposal.project_id s.proposal.branch_id w)
  ]

-- `open_changes`
unfoldable pub open_changes : {V : Type 0} → Proposals V → List String
open_changes proposals = keys proposals
