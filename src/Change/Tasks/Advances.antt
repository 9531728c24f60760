-- ===== src/Change/Tasks/Advances.antt =====
-- change_service.rs, `commit`: each step of a task over the in-memory server.
use kr0ki.Common.{
  ℕ, String, eq_iff, ◌≡◌, refl, ◌⊎◌, inl, inr, Option, [], ◌∷◌, ◌++◌, arith, Bool-cases,
}
use kr0ki.Common.Results.{Result, ok, err}
use kr0ki.Common.OrdMap
use kr0ki.Common.OrdMap.{lookup, lookup-insert, lookup-remove, contains_key}
use kr0ki.Sync.Model.{Json}
use kr0ki.Change.Model.{BackendError, conflict, other, Stored}
use kr0ki.Change.Service.{same_revision, same_revision-eq}
use kr0ki.Change.InMemory.{Snapshot, Server, head_id, post, in_memory}
use kr0ki.Change.Tasks.{
  Task, starts, waits, locked, checks, posts, rereads, records, finished, Shared, key_of, release,
  checked, answered, reread, advance,
}
use kr0ki.Change.Tasks.Moves.{
  head_of, critical, Knows, IsKeyed, AreKeyed, holds, post-cases, Moves, release-holds, found-Moves,
}

module _ {V : Type 0} (x : Json V) (show : ℕ → String) (k : String) where
  abbrev pub next : Task V → Shared (Server V) V → Shared (Server V) V × Task V
  next t sh = advance (in_memory x show) t sh

  abbrev pub Advances : Task V → Shared (Server V) V → Type 0
  Advances t sh =
      AreKeyed k sh.proposals
      → (critical t ≡ 1 → holds k sh.held ≡ 1)
      → Knows sh.world.commits t
      → IsKeyed k t
      → Moves k t sh (next t sh).1 (next t sh).0

  advance-starts :
      (id : String) (expected : Option String) (sh : Shared (Server V) V)
      → Advances (starts id expected) sh
  unfolding advance critical
  advance-starts id expected sh keyed holding knows mine =
      let (free, nothing, key) = found-Moves k sh (lookup id sh.proposals) id expected (keyed id) in
      record {
        locks = omega (arith, free);
        chain = inl refl;
        knows = nothing;
        keyed = key;
        proposals = keyed;
      }

  advance-waits :
      (s : Stored V) (id : String) (expected : Option String) (sh : Shared (Server V) V)
      → Advances (waits s id expected) sh
  unfolding advance critical
  advance-waits s id expected sh keyed holding knows mine =
      elim (Bool-cases (OrdMap.contains (key_of s) sh.held)) [
        | inl taken ↦
            rw taken (record {
              locks = refl;
              chain = inl refl;
              knows = tt;
              keyed = mine;
              proposals = keyed;
            })
        | inr free ↦ rw free (record {
          locks =
              ground
                (arith, OrdMap.contains-add (key_of s) k sh.held, eq_iff (key_of s) k, mine, free);
          chain = inl refl;
          knows = tt;
          keyed = mine;
          proposals = keyed;
        })
      ]

  advance-locked :
      (s : Stored V) (id : String) (expected : Option String) (sh : Shared (Server V) V)
      → Advances (locked s id expected) sh
  unfolding advance critical release
  advance-locked s id expected sh keyed holding knows mine =
      elim (Bool-cases (contains_key id sh.proposals)) [
        | inl there ↦
            rw there (record {
              locks = refl;
              chain = inl refl;
              knows = tt;
              keyed = mine;
              proposals = keyed;
            })
        | inr gone ↦ rw gone (record {
          locks = omega (arith, holding refl, release-holds k s sh mine);
          chain = inl refl;
          knows = tt;
          keyed = tt;
          proposals = keyed;
        })
      ]

  advance-checks :
      (s : Stored V) (id : String) (expected : Option String) (sh : Shared (Server V) V)
      → Advances (checks s id expected) sh
  unfolding advance critical checked release head_id
  advance-checks s id expected sh keyed holding knows mine =
      elim (Bool-cases (same_revision (head_of sh.world.commits) expected)) [
        | inl current ↦ rw current (record {
          locks = refl;
          chain = inl refl;
          knows = same_revision-eq (head_of sh.world.commits) expected current;
          keyed = mine;
          proposals = keyed;
        })
        | inr stale ↦ rw stale (record {
          locks = omega (arith, holding refl, release-holds k s sh mine);
          chain = inl refl;
          knows = tt;
          keyed = tt;
          proposals = keyed;
        })
      ]

  answered-Moves :
      (s : Stored V) (id : String) (expected : Option String) (sh : Shared (Server V) V)
      (a : Server V × Result String BackendError)
      → ((e : BackendError) × (a.1 ≡ err e) × (a.0.commits ≡ sh.world.commits))
        ⊎ ((sn : Snapshot V) × (a.1 ≡ ok sn.id) × (a.0.commits ≡ sh.world.commits ++ (sn ∷ [])))
      → AreKeyed k sh.proposals
      → holds k sh.held ≡ 1
      → head_of sh.world.commits ≡ expected
      → key_of s ≡ k
      → Moves k
          (posts s id expected)
          sh
          (answered s id expected sh a).1
          (answered s id expected sh a).0
  unfolding answered critical release
  answered-Moves s id expected sh (w, ok commit_id) (inl (e, failed, same)) keyed held base mine =
      absurd (cc)
  answered-Moves s id expected sh (w, ok commit_id) (inr (sn, named, grown)) keyed held base mine =
      record {
        locks = refl;
        chain = inr (refl, (sn, grown));
        knows = record {
          before = sh.world.commits;
          new = sn;
          after = [];
          split = grown;
          named = ground arith;
          on_base = base;
        };
        keyed = mine;
        proposals = keyed;
      }
  answered-Moves s id expected sh (w, err conflict) (inl (e, failed, same)) keyed held base mine =
      record { locks = refl; chain = inl same; knows = tt; keyed = mine; proposals = keyed }
  answered-Moves s id expected sh (w, err (other m)) (inl (e, failed, same)) keyed held base mine =
      record {
        locks = omega (arith, held, release-holds k s sh mine);
        chain = inl same;
        knows = tt;
        keyed = tt;
        proposals = keyed;
      }
  answered-Moves s id expected sh (w, err e) (inr (sn, named, grown)) keyed held base mine =
      absurd (cc)

  advance-posts :
      (s : Stored V) (id : String) (expected : Option String) (sh : Shared (Server V) V)
      → Advances (posts s id expected) sh
  unfolding advance critical
  advance-posts s id expected sh keyed holding knows mine =
      answered-Moves s id expected sh (post x show expected s.changes sh.world)
        (post-cases x show expected s.changes sh.world) keyed (holding refl) knows mine

  advance-rereads :
      (s : Stored V) (id : String) (expected : Option String) (sh : Shared (Server V) V)
      → Advances (rereads s id expected) sh
  unfolding advance critical reread release
  advance-rereads s id expected sh keyed holding knows mine = record {
    locks = omega (arith, holding refl, release-holds k s sh mine);
    chain = inl refl;
    knows = tt;
    keyed = tt;
    proposals = keyed;
  }

  advance-records :
      (s : Stored V) (id : String) (expected : Option String) (commit_id : String)
      (sh : Shared (Server V) V)
      → Advances (records s id expected commit_id) sh
  unfolding advance critical release
  advance-records s id expected commit_id sh keyed holding knows mine = record {
    locks = omega (arith, holding refl, release-holds k s sh mine);
    chain = inl refl;
    knows = knows;
    keyed = tt;
    proposals = λ j s' listed. keyed j s' (ground (arith, listed, lookup-remove id j sh.proposals));
  }

  pub advance-Moves : (t : Task V) (sh : Shared (Server V) V) → Advances t sh
  unfolding advance critical
  advance-Moves (starts id expected) sh keyed holding knows mine =
      advance-starts id expected sh keyed holding knows mine
  advance-Moves (waits s id expected) sh keyed holding knows mine =
      advance-waits s id expected sh keyed holding knows mine
  advance-Moves (locked s id expected) sh keyed holding knows mine =
      advance-locked s id expected sh keyed holding knows mine
  advance-Moves (checks s id expected) sh keyed holding knows mine =
      advance-checks s id expected sh keyed holding knows mine
  advance-Moves (posts s id expected) sh keyed holding knows mine =
      advance-posts s id expected sh keyed holding knows mine
  advance-Moves (rereads s id expected) sh keyed holding knows mine =
      advance-rereads s id expected sh keyed holding knows mine
  advance-Moves (records s id expected commit_id) sh keyed holding knows mine =
      advance-records s id expected commit_id sh keyed holding knows mine
  advance-Moves (finished result) sh keyed holding knows mine = record {
    locks = refl;
    chain = inl refl;
    knows = knows;
    keyed = tt;
    proposals = keyed;
  }
