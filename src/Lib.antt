-- ===== src/Lib.antt =====
-- first_fork: a model of the craton daemon's control loop, with the theorems that make it correct.
--
-- The daemon keeps a home server's services alive. A single loop (`src/runtime.rs`) turns what
-- happens (ticks, probe results, disk samples, ends of effects, HTTP commands, signals) into events.
-- The reducer (`src/reduce.rs`) takes one event, the state (`src/state.rs`), the configuration
-- (`src/config.rs`) and the dependency graph (`src/graph.rs`), changes the state and returns
-- commands, which the runtime carries out. Decisions are taken by pure policies
-- (`src/policy/recovery.rs`, `src/policy/backup.rs`, `src/policy/disk.rs`), with a circuit breaker
-- per service (`src/breaker.rs`) and a lease arbiter (`src/lease.rs`) to keep a backup and the
-- recovery of services apart.
--
-- Files:
--   Common.antt      integers of 32 and 64 bits, `BTreeMap` as a list in the order of its keys,
--                    `BTreeSet`, texts, results, and lemmas on them
--   Model.antt       `src/model.rs`: services, backup phases, events and commands
--   History.antt     `src/history.rs`: `RingBuf`
--   Breaker.antt     `src/breaker.rs`
--   Lease.antt       `src/lease.rs`: `LeaseArbiter`
--   Schedule.antt    `src/schedule.rs`: `is_due`
--   Config.antt      `src/config.rs`: `CratonConfig::validate`, `find_service`
--   State.antt       `src/state.rs`: `State`, `SvcState`
--   Graph.antt       `src/graph.rs`: `DepGraph::build`, `classify_failures`
--   Policy.antt      `src/policy`: Policy/Recovery, Policy/Backup, Policy/Disk
--   Reduce.antt      `src/reduce.rs`: `reduce`; its handlers are in Reduce/Tick, Reduce/Probes,
--                    Reduce/Backup, Reduce/Remediation, Reduce/Disk, Reduce/Startup;
--                    Reduce/Phases and Reduce/Runs follow it over events
--   Notify.antt      `src/notify.rs`: the outbox (Notify/Outbox), one delivery (Notify/Send) and
--                    `NotifyConsumer::run` (Notify/Consumer)
--   Runtime.antt     `src/runtime.rs`: the executors (Runtime/Machine), `execute_commands`
--                    (Runtime/Commands), what comes before the loop (Runtime/Startup), its turns
--                    (Runtime/Loop), and the snapshot (Runtime/Snapshot)
--   Http.antt        `src/http.rs`: the token (Http/Bearer), what is read (Http/Responses), the handlers
--                    that send commands and `serve` (Http/Server), and what is read of a body (Http/Body)
--   Persist.antt     `src/persist.rs`: the chain of calls of an atomic write
--   Cratonctl.antt   `src/cratonctl/`: errors, the token and the URL (Cratonctl/Auth), the commands
--                    (Cratonctl/Cli), the client (Cratonctl/Client), and the requests that change
--                    something (Cratonctl/Commands)
-- A function of the source keeps its name. The files below a component hold what is proved of it.
--
-- State: a function that takes `&mut State` returns the new state, and with it the commands (`Step`).
-- A match arm or a loop of a long function is a definition of its own. `u32` and `u64` are native
-- numbers; sums that may overflow wrap (`add32`, `add64`), `saturating_sub` stops at 0. Texts made by
-- code outside the model, the derived `Debug` of a backup phase and `human_bytes`, are the fields of
-- the parameter `Texts`.
--
-- Loops: the walk of `find_root_cause` runs on fuel for every unhealthy service and two more, and is
-- shown to end. `topological_sort` runs on one round for each service and one to see the queue empty;
-- a service is queued when its number of open dependencies falls to 0, which happens once for each
-- (this reason is not proved here; when the fuel runs out the model returns no graph at all).
-- `execute_commands` calls itself for the commands of a probe cycle; the depth 1 is shown to be enough.
-- All other loops are recursions on their list.
--
-- The world outside: what the code asks of the clocks, processes, files, the network and its libraries
-- is answered by the fields of a parameter `Outside` (one each in Notify/Consumer, Runtime/Machine and
-- Http/Server). A counter in the state numbers the questions, so that each may be answered differently.
-- The file system below an atomic write is a parameter with the promises of a journaling file system
-- (Persist/Crash).
--
-- Not modelled: the threads and channels themselves (a turn of the loop takes what came in), the
-- effects (processes, sockets, files), JSON texts, parsing of TOML, the disk prediction in
-- floating point, and of `cratonctl` the arguments that clap parses, the bytes of a response, `init`,
-- and all that it prints. The response channel of an HTTP command stays with the
-- runtime. Lines of the log are left out.
pub mod Common
pub mod Model
pub mod History
pub mod Breaker
pub mod Lease
pub mod Schedule
pub mod Config
pub mod State
pub mod Graph
pub mod Policy
pub mod Reduce
pub mod Notify
pub mod Runtime
pub mod Http
pub mod Persist
pub mod Cratonctl
