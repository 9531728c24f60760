-- ===== src/Change/Tasks/Moves.antt =====
-- What one step of a task does to the locks, the proposals and the chain of commits.
use kr0ki.Common.{
  ℕ, ◌+◌, String, eq_iff, ◌≡◌, ◌∙◌, refl, ap, ◌⊎◌, inl, inr, not, ◌&&◌, Option, none, some, List,
  [], ◌∷◌, ◌++◌, arith, if◌then◌else◌, last?, option_map, Bool-cases,
}
use mathlib.Core.List.{append_assoc}
use kr0ki.Common.Results.{ok, err}
use kr0ki.Common.OrdMap
use kr0ki.Common.OrdMap.{OrdMap, OrdSet, lookup, lookup-remove, contains_key}
use kr0ki.Sync.Model.{Json, DataVersion}
use kr0ki.Change.Model.{BackendError, conflict, Stored}
use kr0ki.Change.Service.{Proposals, same_revision}
use kr0ki.Change.InMemory.{Snapshot, Server, head_id, grown, post}
use kr0ki.Change.Tasks.{
  Task, starts, waits, locked, checks, posts, rereads, records, finished, Shared, key_of, release,
  found,
}

abbrev pub holds : String → OrdSet → ℕ
holds k held = if OrdMap.contains k held then 1 else 0

module _ {V : Type 0} where
  abbrev pub head_of : List (Snapshot V) → Option String
  head_of cs = option_map (λ c. c.id) (last? cs)

  -- A commit stands directly on a base in a chain.
  pub record Follows (base : Option String) (id : String) (cs : List (Snapshot V)) : Type 0 where
    pub before : List (Snapshot V)
    pub new : Snapshot V
    pub after : List (Snapshot V)
    pub split : cs ≡ before ++ (new ∷ after)
    pub named : new.id ≡ id
    pub on_base : head_of before ≡ base

  Follows-append :
      (base : Option String) (id : String) (cs : List (Snapshot V)) (sn : Snapshot V)
      → Follows base id cs
      → Follows base id (cs ++ (sn ∷ []))
  Follows-append base id cs sn f = record {
    before = f.before;
    new = f.new;
    after = f.after ++ (sn ∷ []);
    split = ap (λ l. l ++ (sn ∷ [])) f.split ∙ append_assoc f.before (f.new ∷ f.after) (sn ∷ []);
    named = f.named;
    on_base = f.on_base;
  }

  -- Whether a task holds a lock.
  unfoldable pub critical : Task V → ℕ
  critical (starts id expected) = 0
  critical (waits s id expected) = 0
  critical (finished result) = 0
  critical _ = 1

  -- What a task knows of the chain.
  abbrev pub Knows : List (Snapshot V) → Task V → Type 0
  Knows cs (posts s id expected) = head_of cs ≡ expected
  Knows cs (records s id expected commit_id) = Follows expected commit_id cs
  Knows cs (finished (ok c)) = Follows c.base_revision c.commit_id cs
  Knows cs _ = Unit

  -- The proposal of a task has the lock of a key.
  abbrev pub IsKeyed : String → Task V → Type 0
  IsKeyed k (starts id expected) = Unit
  IsKeyed k (waits s id expected) = key_of s ≡ k
  IsKeyed k (locked s id expected) = key_of s ≡ k
  IsKeyed k (checks s id expected) = key_of s ≡ k
  IsKeyed k (posts s id expected) = key_of s ≡ k
  IsKeyed k (rereads s id expected) = key_of s ≡ k
  IsKeyed k (records s id expected commit_id) = key_of s ≡ k
  IsKeyed k (finished result) = Unit

  -- Every proposal has the lock of a key.
  abbrev pub AreKeyed : String → Proposals V → Type 0
  AreKeyed k proposals = (id : String) (s : Stored V) → lookup id proposals ≡ some s → key_of s ≡ k

  -- A task without a lock knows what it knows of every longer chain.
  pub Knows-append :
      (t : Task V) (cs : List (Snapshot V)) (sn : Snapshot V)
      → critical t ≡ 0
      → Knows cs t
      → Knows (cs ++ (sn ∷ [])) t
  unfolding critical
  Knows-append (starts id expected) cs sn free h = tt
  Knows-append (waits s id expected) cs sn free h = tt
  Knows-append (locked s id expected) cs sn free h = tt
  Knows-append (checks s id expected) cs sn free h = tt
  Knows-append (posts s id expected) cs sn free h = absurd (omega arith)
  Knows-append (rereads s id expected) cs sn free h = tt
  Knows-append (records s id expected commit_id) cs sn free h =
      Follows-append expected commit_id cs sn h
  Knows-append (finished (ok c)) cs sn free h = Follows-append c.base_revision c.commit_id cs sn h
  Knows-append (finished (err e)) cs sn free h = tt

  pub post-cases :
      (x : Json V) (show : ℕ → String) (previous : Option String) (changes : List (DataVersion V))
      (sv : Server V)
      → let (sv', answer) = post x show previous changes sv in
        ((e : BackendError) × (answer ≡ err e) × (sv'.commits ≡ sv.commits))
        ⊎ ((sn : Snapshot V) × (answer ≡ ok sn.id) × (sv'.commits ≡ sv.commits ++ (sn ∷ [])))
  unfolding post
  post-cases x show previous changes sv = elim (Bool-cases sv.conflict_once) [
    | inl once ↦ inl (conflict, rw once refl, rw once refl)
    | inr calm ↦
        elim (Bool-cases (sv.enforces_previous && not (same_revision previous (head_id sv)))) [
          | inl stale ↦ inl (conflict, rw (calm, stale) refl, rw (calm, stale) refl)
          | inr fine ↦ inr ((grown x show changes sv).1, rw (calm, fine) refl, rw (calm, fine) refl)
        ]
  ]

  -- One step: the lock of the key and the task's hold on it change together; the chain stays, or a
  -- task that held the lock made it longer by one; and what the task knows holds.
  pub record Moves (k : String) (t : Task V) (sh : Shared (Server V) V) (t' : Task V)
      (sh' : Shared (Server V) V) : Type 0 where
    pub locks : critical t' + holds k sh.held ≡ critical t + holds k sh'.held
    pub chain :
        (sh'.world.commits ≡ sh.world.commits)
        ⊎ ((critical t ≡ 1)
            × ((sn : Snapshot V) × (sh'.world.commits ≡ sh.world.commits ++ (sn ∷ []))))
    pub knows : Knows sh'.world.commits t'
    pub keyed : IsKeyed k t'
    pub proposals : AreKeyed k sh'.proposals

  pub release-holds :
      (k : String) (s : Stored V) (sh : Shared (Server V) V)
      → key_of s ≡ k
      → holds k (release s sh).held ≡ 0
  unfolding release
  release-holds k s sh e =
      ground (arith, OrdMap.contains-discard (key_of s) k sh.held, eq_iff (key_of s) k, e)

  pub found-Moves :
      (k : String) (sh : Shared (Server V) V) (o : Option (Stored V)) (id : String)
      (expected : Option String)
      → ((s : Stored V) → o ≡ some s → key_of s ≡ k)
      → (critical (found o id expected) ≡ 0)
        × Knows sh.world.commits (found o id expected)
        × IsKeyed k (found o id expected)
  unfolding found critical
  found-Moves k sh none id expected keyed = (refl, tt, tt)
  found-Moves k sh (some s) id expected keyed =
      elim (Bool-cases (not (same_revision expected s.proposal.base_revision))) [
        | inl other_base ↦ rw other_base (refl, tt, tt)
        | inr same_base ↦ rw same_base (refl, tt, keyed s refl)
      ]
