-- ===== src/Change/Outcomes.antt =====
-- change_service.rs, `propose` and `commit`: what they leave behind, on every branch.
use kr0ki.Common.{String, ◌≡◌, ◌≢◌, inl, inr, ◌∙◌, refl, ap, Option, none, some, Bool-cases}
use kr0ki.Common.Results.{Result, ok, err}
use kr0ki.Common.OrdMap.{lookup, remove}
use kr0ki.Change.Model.{
  BackendError, conflict, other, ModelBackend, Committed, ChangeError, stale_base,
  proposal_mismatch, unknown_change, backend, Stored,
}
use kr0ki.Change.Service.{
  Proposals, same_revision, same_revision-eq, same_revision-ne, conflicted, posted, at_head, commit,
}

module _ {W V : Type 0} (b : ModelBackend W V) where
  abbrev head_for : Stored V → W → W × Result (Option String) BackendError
  head_for s w = b.head s.proposal.project_id s.proposal.branch_id w

  abbrev commit_for : Stored V → Option String → W → W × Result String BackendError
  commit_for s expected w = b.commit s.proposal.project_id s.proposal.branch_id expected s.changes w

  -- The ends of a commit that the server was sent, by its answer.
  pub data Sent (id : String) (expected : Option String) (proposals : Proposals V) (s : Stored V)
      : W × Result String BackendError
        → W × Proposals V × Result Committed ChangeError
        → Type 0 where
    made :
        (w : W) (commit_id : String)
        → Sent id expected proposals s
            (w, ok commit_id)
            (
              w,
              remove id proposals,
              ok (record { change_id = id; base_revision = expected; commit_id = commit_id }),
            )
    failed :
        (w : W) (m : String)
        → Sent id expected proposals s (w, err (other m)) (w, proposals, err (backend (other m)))
    raced :
        (w w₁ : W) (current : Option String)
        → head_for s w ≡ (w₁, ok current)
        → Sent id expected proposals s
            (w, err conflict)
            (w₁, proposals, err (stale_base expected current))
    lost :
        (w w₁ : W) (e : BackendError)
        → head_for s w ≡ (w₁, err e)
        → Sent id expected proposals s (w, err conflict) (w₁, proposals, err (backend e))

  -- The ends of a commit, each with the answers that lead to it.
  pub data Outcome (id : String) (expected : Option String) (proposals : Proposals V) (w : W)
      : W × Proposals V × Result Committed ChangeError → Type 0 where
    unknown :
        lookup id proposals ≡ none
        → Outcome id expected proposals w (w, proposals, err (unknown_change id))
    mismatch :
        (s : Stored V)
        → lookup id proposals ≡ some s
        → expected ≢ s.proposal.base_revision
        → Outcome id expected proposals w
            (w, proposals, err (proposal_mismatch expected s.proposal.base_revision))
    headless :
        (s : Stored V) (w₁ : W) (e : BackendError)
        → lookup id proposals ≡ some s
        → expected ≡ s.proposal.base_revision
        → head_for s w ≡ (w₁, err e)
        → Outcome id expected proposals w (w₁, proposals, err (backend e))
    stale :
        (s : Stored V) (w₁ : W) (current : Option String)
        → lookup id proposals ≡ some s
        → expected ≡ s.proposal.base_revision
        → head_for s w ≡ (w₁, ok current)
        → current ≢ expected
        → Outcome id expected proposals w (w₁, proposals, err (stale_base expected current))
    sent :
        (s : Stored V) (w₁ : W)
        → lookup id proposals ≡ some s
        → expected ≡ s.proposal.base_revision
        → head_for s w ≡ (w₁, ok expected)
        → (u : W × Proposals V × Result Committed ChangeError)
        → Sent id expected proposals s (commit_for s expected w₁) u
        → Outcome id expected proposals w u

  module _ (id : String) (expected : Option String) (proposals : Proposals V) where
    conflicted-Sent :
        (s : Stored V) (w : W) (a : W × Result (Option String) BackendError)
        → head_for s w ≡ a
        → Sent id expected proposals s (w, err conflict) (conflicted b expected proposals a)
    unfolding conflicted
    conflicted-Sent s w (w₁, err e) h = lost w w₁ e h
    conflicted-Sent s w (w₁, ok current) h = raced w w₁ current h

    posted-Sent :
        (s : Stored V) (a : W × Result String BackendError)
        → Sent id expected proposals s a (posted b s id expected proposals a)
    unfolding posted
    posted-Sent s (w, ok commit_id) = made w commit_id
    posted-Sent s (w, err conflict) = conflicted-Sent s w (head_for s w) refl
    posted-Sent s (w, err (other m)) = failed w m

    at_head-Outcome :
        (w : W) (s : Stored V) (a : W × Result (Option String) BackendError)
        → lookup id proposals ≡ some s
        → expected ≡ s.proposal.base_revision
        → head_for s w ≡ a
        → Outcome id expected proposals w (at_head b s id expected proposals a)
    unfolding at_head
    at_head-Outcome w s (w₁, err e) listed base head = headless s w₁ e listed base head
    at_head-Outcome w s (w₁, ok current) listed base head =
        elim (Bool-cases (same_revision current expected)) [
          | inr moved ↦
              rw moved
                (stale s w₁ current listed base head (same_revision-ne current expected moved))
          | inl same ↦ rw same (
              sent s w₁ listed base
                (head ∙ ap (λ r. (w₁, ok r)) (same_revision-eq current expected same))
                (posted b s id expected proposals (commit_for s expected w₁))
                (posted-Sent s (commit_for s expected w₁)))
        ]

    found-Outcome :
        (w : W) (o : Option (Stored V))
        → lookup id proposals ≡ o
        → Outcome id expected proposals w (commit b id expected proposals w)
    unfolding commit
    found-Outcome w none e = rw (commit, e) (unknown e)
    found-Outcome w (some s) e =
        elim (Bool-cases (same_revision expected s.proposal.base_revision)) [
          | inr differs ↦
              rw (commit, e, differs)
                (mismatch s e (same_revision-ne expected s.proposal.base_revision differs))
          | inl same ↦
              rw (commit, e, same)
                (at_head-Outcome w s (head_for s w) e
                  (same_revision-eq expected s.proposal.base_revision same) refl)
        ]

-- A commit ends in one of these ways, whatever the server answers. It asks the server for the head
-- only with a proposal whose base the caller names, and sends its changes only when that head is
-- the base, once; after a conflict it reads the head and reports it, and does not send them again.
-- Each error leaves the proposals as they are; a commit that the server made takes its proposal
-- away and names the base and the new commit.
pub commit-Outcome :
    {W V : Type 0} (b : ModelBackend W V) (id : String) (expected : Option String)
    (proposals : Proposals V) (w : W)
    → Outcome b id expected proposals w (commit b id expected proposals w)
commit-Outcome b id expected proposals w =
    found-Outcome b id expected proposals w (lookup id proposals) refl
