-- ===== src/Lib.antt =====
-- Duet keeps two directory trees, one of them usually on a remote host, in step in both directions.
-- Each side keeps a manifest of what it looked like after the last run. A run scans both sides,
-- compares each scan with the manifest (src/scan/change.rs, src/state.rs), merges the two lists of
-- changes into a plan of actions (src/actions.rs, `build_actions` in src/orchestrator.rs), lets the
-- user settle conflicts (src/resolution.rs), cuts the plan into waves that fit the free space
-- (`plan_staging_waves` in src/sync.rs) and applies it. This library models what these parts compute.
--
--   * Prelude, Ord, Sorted: numbers' tests, lists, results, orders, stable sorting (`sort_by` is
--     `slice::sort`) and lookup by key: `find` takes the first item, and Sorted.Search halves the list, in
--     as many rounds as it has items at most.
--   * FilePath: `std::path::Path` as its list of components, in the order that `Path` has.
--   * MatchSorted: src/utils.rs, the merge of two sorted iterators. `next` is one call; `matched` is
--     what a caller takes from it until it ends, with a round for each item and one more.
--   * Scan.Entry, Scan.Scope: `DirEntryWithMeta` and `ScanScope` of src/scan/mod.rs.
--   * Scan.Change, Scan.Location: src/scan/change.rs and src/scan/location.rs. `asserted_path` is
--     `Change::path` with its assertion, and `change_path` the key that it gives where it holds.
--   * Scan.Walk: the window of rules that the walk of src/scan/mod.rs carries.
--   * Manifest: `replace_scope`, the snapshot format and the limits of the hash workers of src/state.rs.
--     The encoding is the `bincode` crate's, a parameter of the model.
--   * Actions: src/actions.rs.
--   * Orchestrator.Plan, Orchestrator.Dependencies, Orchestrator.Migration: `build_actions`,
--     `filter_unresolved_conflict_dependencies` and `build_migration_actions` of
--     src/orchestrator.rs.
--   * Orchestrator.Interrupt: `InterruptState` of src/orchestrator.rs, shared by the program and the
--     handler of signals. Each atomic load or compare-and-exchange is one step, and a schedule is any
--     list of them; that the program's own calls follow one another is not assumed.
--   * Resolution: src/resolution.rs. The terminal is the list of keys it delivers; a read past the
--     end fails. `Resolution.Interactive.round` is one turn of the loop of `resolve_interactive`, a
--     panic of the source is an error value, and the screen is not modelled.
--   * Sync.Staging, Sync.Detail: `plan_staging_waves` of src/sync.rs with the types around it. The two
--     sides' fields of a group or wave are two records.
--   * Sync.Window: `SignatureWindowConfig` and `integer_sqrt` of src/sync.rs.
--   * Sync.Validate: the checks of src/sync.rs on what the other side sends, from `validate_relative_path`
--     to `validate_canonical_entry_path`. These read the bytes of a path: FilePath.Spelling is what
--     `Path::components` and `Path::join` make of them on Unix. The actions of the model hold paths by
--     their components, so the bytes of a path are a parameter there, by the entry that holds it.
--   * Sync.Tuning: `SyncTuning` of src/sync.rs. The environment is a function from the variables to the
--     numbers they parse to.
--   * Sync.Blockers: `RemovalBlockerPolicy` of src/sync.rs. The glob and regex crates are parameters.
--   * Sync.Commit: what `CommitPlan::new` of src/sync.rs lists before anything is changed.
--   * Sync.Staging.Monitor: `StagingSpaceMonitor` of src/sync.rs. `checks` is a sequence of its checks
--     (in the source, the writes of the staged preparation); the answer of statvfs is a parameter.
--   * Sync.Transfer: the frames of details in src/sync.rs and the bytes that they and a plan move.
--   * Orchestrator.Strategy: the choice of the way to apply a plan in src/orchestrator.rs, and the check
--     of the free space before a wave.
--   * Scan.Scheduler: `run_scan_scheduler` of src/scan/mod.rs. The worker is a parameter, and so is the
--     order in which its futures complete: a list of places among the active jobs.
--   * Text, Profile, Cli.Reserve: the parser and the names of src/profile.rs, and the texts of reserves of
--     src/cli.rs. A text is its code points, a file the lines that its reader yields; the crate that
--     reads sizes with units is a parameter.
--   * Tests: runs on small inputs.
--
-- Numbers are natural numbers. Where the source checks an addition of `u64` or `usize` for overflow,
-- the model tests the sum against 2 ^ 64; counts of list elements are below that bound in any run.
-- Loops over a list are recursion on it. `Resolution.Interactive.move` has the number of actions as
-- fuel, which reaches every action once, and `collect_groups` has the number of actions left, of
-- which each round takes at least one. The scheduler runs for as many
-- completions as are listed; the size of the tree is enough.
--
-- Not modelled: the system calls of the walk and of the commit, hashing of file contents, the remote
-- protocol (src/rpc.rs, src/remote.rs), the phases and recovery of an apply attempt on disk, signatures
-- and deltas (src/rustsync.rs, a copy of a library), progress display and the parsing of arguments.
pub mod Prelude
pub mod Ord
pub mod FilePath
pub mod Text
pub mod Cli
pub mod Profile
pub mod Sorted
pub mod MatchSorted
pub mod Scan
pub mod Manifest
pub mod Actions
pub mod Sync
pub mod Orchestrator
pub mod Resolution
pub mod Tests
