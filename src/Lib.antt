-- ===== src/Lib.antt =====
-- Proton VPN for Omarchy, core runtime: a model of the agent's coordination of operations, of its
-- snapshot and of its preferences store, and of the daemon that enforces split tunnelling.
--
-- The agent (agent/src) runs for the user and publishes one snapshot of its state to its clients
-- (protocol/src/lib.rs). A request of a client is an operation: the coordinator
-- (agent/src/operations.rs) admits it, keeps it while it runs, and files it with its outcome. The
-- backend reports what happens as events, which the reducer (agent/src/state_reducer.rs) takes over
-- into the same snapshot; its "operation.stage" events go to the coordinator. The preferences store
-- (agent/src/store.rs) keeps the profiles, recent connections, excluded locations and default
-- connection of each account in a file. Its methods are operations too: they are admitted by the
-- coordinator, and a change that has been written is published in the snapshot. The daemon
-- (splitd/src) runs as root: the agent sends it a user's split-tunnelling rules, and it marks, in
-- the kernel, the sockets of the processes whose traffic leaves outside the tunnel.
--
-- Files:
--   Base: shared names; Base.Tests, Lists, Text and Maps: Boolean tests, lists, the calls on `str`,
--     and maps with numbers for keys (`BTreeMap`, `HashMap`) as association lists. Base.Format has
--     the calls that cut and join texts, Base.Tables the maps with texts for keys; Letters, Trimmed,
--     Pigeonhole and Passing hold proofs.
--   Json: `serde_json::Value`, `json!`, and the accessors that the code chains (`get`, `as_str`, ...).
--   Protocol and its children: the structs of protocol/src/lib.rs with their defaults.
--   Backend: BackendError of agent/src/backend.rs.
--   Io: a monad of a state with `io::Result`, for the code that calls the system, with the rules
--     for what holds after an action.
--   Operations: agent/src/operations.rs. Spec is `operation_spec` and the tables of stages; Ids the
--     identifiers; Registry the registry, `publish` and the types of leases; Begin is `begin`,
--     Finish is `finish`, `update_stage` and `update_domain_stage`, Calls a sequence of these on
--     one coordinator. Interrupted is `connection_sequence_interrupted`. Invariant, Identity, Runs,
--     Leases, Listed, Cancel and Refusal hold proofs.
--   StateReducer: agent/src/state_reducer.rs. Account, Features and Connection are the arms of
--     `apply_event`, Events the whole and a sequence of events; Invariant, Runs and Frame hold proofs.
--   Splitd: splitd/src. Config is model.rs. Tracking is `build_tracking` of engine.rs; Engine is
--     `Inner` and `reconcile`; Requests are the methods of `Engine` that clients call; Events is
--     `handle_event`, the start, and a sequence of all that reaches an engine. Normalize, Validate,
--     Rounds, Propagation, Descent, Keeps, Bypass, Outcome (with a child for each request), Quiet,
--     Guarded, Marks, Remark, InStep and Follow hold proofs. Connector is proc_events.rs, from the
--     bytes of the kernel's process connector to what the engine's channel takes, and Procfs is
--     procfs.rs; Frames describes the kernel's messages (linux/cn_proc.h), and Reading, Parsing,
--     Lossless and Parents hold proofs.
--   Store: agent/src/store.rs. File is the data and the view of it that is published; Checks and
--     Edit are the two monads the code is written in, a function with `?` and one that also changes
--     its argument; Values and Locale read parameters; Excluded, Profiles, Recents and Defaults are
--     what is stored of an account, Ids the new identifiers and names, Resolve is
--     `resolve_connection`. Requests and Changes are the handlers, Seed the profiles given to an
--     account and the import, Disk the files, Handle `mutate` and `request`, Accounts
--     `activate_account` and `open`. Keeps, Kept, Persist, Commit, Atomic, Reload, Isolation,
--     Locations, Sorting, Counting, Trimming, Tidy, Distinct, OwnIds, Seeding, Latest, Clean,
--     Connectable, Choices, Fresh, Copies, Pages and Activation hold proofs; TestDisk is a file system
--     in memory.
--   Agent: the coordinator, the reducer and the store on the snapshot that they share, with the end of
--     `apply_event`, and a sequence of what reaches them; Whole and Runs hold proofs.
--
-- Numbers: identifiers and revisions wrap at 2^64, as the code's u64 in a release build does; uids,
-- pids and times are natural numbers, of which the code only compares, stores and passes on. `len`
-- of a text is its length in UTF-8.
--
-- Bounds: `build_tracking` makes a round for each process, as the code does; that as many rounds
-- reach the end is a theorem (Splitd.Rounds), not an assumption. The loop of `unique_id`, which the
-- code writes without a bound, makes as many tries as there are entries and one more: by then one
-- is free (Store.Fresh). The loop of `parse_messages` is given one round more than there are
-- bytes; without rounds left it would give nothing, and it never is without (Splitd.Parsing). That of `copy_name` has the code's own
-- bound of 129 tries. The sorts of the store are stable, written as insertion sorts. Other loops
-- are recursions over lists.
--
-- Parameters: the clock is an argument: `now`, and `id_time` where a new identifier reads it. The
-- store takes the file system and the encodings of serde_json as the record `Disk` of Store.Disk,
-- each call a function of a world outside that may fail, with the laws of the calls in Store.Atomic
-- and Store.Reload; the parser of `IpAddr` is `ip_text`, `str::to_lowercase` is `to_lowercase`.
-- What the `ipnet` crate makes of addresses is `Networks` of Splitd.Config, with its documented
-- laws in Splitd.Validate. For the engine, bpf.rs, routing.rs, procfs.rs and store.rs are the
-- record `Host` of Splitd.Engine, each call a function of a world outside that may fail; the laws
-- of the kernel's map of marks are in Splitd.Marks. Procfs takes the files under /proc as the
-- record `Proc` and `String::from_utf8_lossy` as `lossy`; Connector takes the machine's order of
-- bytes as `little`.
--
-- The mutexes of the coordinator, of the engine and of the store make each call one step, so that
-- an interleaving of tasks is a list of calls. A HashMap is iterated in the order of its list; the
-- order decides nothing but which calls precede one that fails.
--
-- Not modelled: sockets, tasks and channels, and a poisoned lock, which the steps above stand for;
-- the daemon's kernel programs, routing commands, state file and D-Bus service, which the engine only
-- calls, and the socket of the process connector and the thread that reads it, which are system
-- calls; the agent's session, its auto-connect task and its native backend, which are written around
-- HTTP, NetworkManager, the keyring and timers, and reach the parts above through events and calls of
-- the coordinator, of which Agent takes any; vendor/local-agent-rs, a copy of another project.
pub mod Base
pub mod Json
pub mod Protocol
pub mod Backend
pub mod Io
pub mod Operations
pub mod StateReducer
pub mod Splitd
pub mod Store
pub mod Agent
