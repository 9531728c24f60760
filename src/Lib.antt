-- ===== src/Lib.antt =====
-- kr0ki, a rendering and evidence service: models of its core Rust code, and proofs about them.
-- Paths are from the repository's root.
--
-- - Common: the library names that the parts share, tests on numbers, lists and options as Rust's
--   iterators use them, BTreeMap and BTreeSet keyed by text, stable sorting, Result.
-- - Behavior (crates/kr0ki-behavior/src): Model has the parts of the evidence IR that make up a
--   state machine (lib.rs); Table has StateMachine::validate and ensure_valid (validation.rs), a
--   loop of the source being a recursion that returns what the loop appends; Document has
--   RustBehaviorIr::validate and ensure_valid (validation.rs), its module Types the document
--   (lib.rs) and Cycles containment_cycles over the ids of vertices, where the source has their
--   indices; Runtime has StateMachineRuntime::new, is_terminal and step (machine.rs), a method
--   with a mutable receiver returning the new runtime, the application's guards and effects being
--   the interface RuntimeContext.
-- - Audit (crates/kr0ki-core/src/audit_log.rs): File has the log's file as the numbers of its
--   characters, with BufRead::lines and the one write of append; Audit has open, append,
--   read_all, query and verify; Stamp has the fields that rfc3339 prints. SHA-256 and serde_json
--   are parameters (Crates); the file system answers each write, and a write that fails may leave
--   a part of the line.
-- - Ingest (crates/kr0ki-raster-ingest/src): Types has model.rs and types.rs and the types of
--   run.rs; Calls has Clock, describe, ask_judge and confirm; State has the loop's state; Judging
--   and Run have attempt, a stage of it being a function, and run_loop. The clock, the models,
--   the renderer, the parsers of replies, hashing and floats are parameters (Externals) over a
--   state of the world; a call that is cut off by its time limit answers none, and a dropped
--   future has no other effect. CallCounts has what is assumed of a count of the calls. Scoring
--   and Labels have scoring.rs on its own: normalize_label, similar and label_scores, over texts
--   by the numbers of their characters, with str::to_lowercase and the similarity of the strsim
--   crate as parameters; Labels/Alike says which texts are alike without following the code.
-- - Paging (crates/kr0ki-sysmlv2-client/src/paging.rs, and all_elements of its lib.rs): Decode
--   has percent_decode and extract_query_param, Link has parse_link_next, Paging itself
--   derive_next_after and all_elements; Encoded and Printed have the percent-encoding and the
--   header that a server would print, and Complete a server that hands out its elements in pages.
--   Texts are lists of the numbers of their characters, and str::as_bytes and
--   String::from_utf8_lossy are parameters.
-- - Gateway (crates/kr0ki-server/src/gateway.rs): Digest has the comparison of digests, Routes
--   the table of routes, Identities the identities file and authenticate, Middleware the
--   middleware: it passes the log of Audit from record to record, and the handler is a function
--   on a state of the world. SHA-256 and the TOML parser are parameters, and so are the times,
--   the answers of the file system to the two writes and the names of the tools.
-- - Sync (crates/kr0ki-core/src/sync_engine.rs): Model has the elements and changes
--   (crates/kr0ki-sysmlv2-client/src/model.rs), a JSON value being the interface Json; Diff has
--   diff_managed; Engine has resolve_head and sync_managed over the operations of the HTTP client
--   (Client), each a function on a state of the world. Engine/Counts has what is assumed of a
--   count of the commits: a failure of the client that is no conflict may hide a commit that the
--   server made.
-- - Change (crates/kr0ki-core/src/change_service.rs): Model has the types; Service has propose,
--   validate, commit and open_changes for one caller, the backend being the interface
--   ModelBackend; Sysml has SysmlBackend over the client of Sync; InMemory has the in-memory
--   server; Tasks has commit as a task that is suspended at its lock and at each answer of the
--   server, the step relation of a system of such tasks, and the proposals and locks that they
--   share. The digest of a change and the texts of errors are parameters. A lock is held by the
--   key of lock_for, and a mutex that is taken and let go within one step is not modelled; a lock
--   goes to any caller that waits for it, where tokio's is given in the order of the callers. The
--   default branch of a project has two keys, named by its id and left unnamed. An element of the
--   in-memory server whose @type is not a text has the empty type, where the source panics.
-- - Evidence (crates/kr0ki-core/src/evidence_store.rs): the two directories of the store as maps
--   from stems to contents, put_artifact, put, list, for_requirement, for_case and verify, which
--   reads files through a function from paths. The record type, its JSON form, its validation and
--   its order are those of the ufo-types and serde_json crates, and parameters (Crates), as
--   SHA-256 is; the file system answers each put, and a write that fails may leave a temporary
--   file. read_dir gives the files in the order of their stems, where the real one may give any.
-- - Runner (crates/kr0ki-core/src/verification_runner.rs, and cargo_test_target of its
--   assurance_trace.rs): Cases has cases_from_graph, configuration_digest and current_revisions;
--   Summary has parse_test_summary over texts that are lists of the numbers of their characters,
--   with str::lines, split_whitespace and parse::<usize>; Verdicts has classify; Revision has the
--   git probe, git and the files of the tree being parameters; Model has the types, and Runner
--   itself has cargo_test_target and run_case over the store of Evidence, the executor being a
--   function from a request and the surroundings to the surroundings behind the run and its
--   result, and the probe a function of the surroundings as they are. The fields that are read of
--   a requirement graph and the fields that an evidence record is made with are those of the
--   source; the JSON forms, UTF-8, the debugging form of texts and SHA-256 are parameters. The
--   status of a process is a number from 0 on, and in Revision a line of git's status has three
--   characters at least.
--
-- Bounds: u32 byte offsets and other counters that the code only compares are plain numbers; u64
-- sequence numbers wrap, and token counts saturate. The loop of run_loop runs on the iterations
-- that are left, describe and ask_judge on their two rounds, and the loop of normalize_label on
-- one turn more than the text has characters, which is shown to be enough. sync_managed runs on
-- its three attempts. all_elements runs on fuel, one for each page, since a server may name new
-- cursors for ever; Paging.Complete shows how much is enough. The traversals of
-- containment_cycles run on one turn for each vertex and each edge, which is shown to be enough.
-- The sums of parse_test_summary wrap at 2^64. The search for reachable states runs on one round
-- for the initial state and one for each transition, which is shown to be enough.
--
-- Not modelled: the process executor of the runner, which spawns and kills processes; rendering,
-- HTTP, the model servers, the MCP surface and other I/O; SCXML export and the JSON forms; see
-- the manifest of components.
pub mod Common
pub mod Behavior
pub mod Audit
pub mod Ingest
pub mod Paging
pub mod Gateway
pub mod Sync
pub mod Change
pub mod Evidence
pub mod Runner
