-- ===== src/Lib.antt =====
-- heyi-eval: the orchestrator that evaluates one model after another.
--
-- A model id is queued (orchestrator/main.py: enqueue), popped, and becomes a run
-- (orchestrator/state_machine.py: Run) that goes through eleven stages, DISCOVER to CLEANUP
-- (orchestrator/main.py: run_pipeline). After every mark of a stage the run is saved: a state file
-- with an index row beside it (orchestrator/store.py). Events go to an outbox (orchestrator/notify.py).
-- Agents work in a pool of containers (agent_driver/pool_manager.py) under a budget of tokens and time
-- (agent_driver/budget_guard.py), models are cached on disk and evicted by a quota
-- (orchestrator/cache_evictor.py), and the data is backed up (backup/).
--
-- Files:
--   Prelude        Booleans, options, lists, texts and integers that the other files share
--   Stage, Run     orchestrator/state_machine.py: StageName, StageInfo and its marks, Run
--     Json         orchestrator/state_machine.py: Run.to_json, Run.from_json
--       Roundtrip
--   Pipeline       orchestrator/main.py: _execute_stage_real, execute_stage_stub, run_pipeline
--     Executed, Visited, Begun, Ended   the lemmas on one stage, one round of the loop, head and end
--     Order        the order of the stages that are executed
--     Outcome      what a whole run comes to
--     Own          whose state file it writes
--     Success, Sincere   a run that nothing stops; a stage that never succeeds
--   Store          orchestrator/store.py, and the state files of orchestrator/state_machine.py
--     Agreement    the index and the state files
--   Queue          orchestrator/main.py: enqueue, pop_one, the guards, _sweep_orphan_in_progress
--     Guards, Fifo, Sweep
--   Pool           agent_driver/pool_manager.py: PoolManager, safe_run_workspace
--     Picks        what _pick_idle and _find_by_run_id find
--     Recycling, Acquired, Invariant, Leases
--     Ledger, Served   the pool as its clients see it: the ids that hold a container, the free containers
--   Cache          orchestrator/cache_evictor.py: find_evictable, enforce_quota
--     Order, Quota
--   Backup         backup/snapshot.py: take_snapshot and its helpers
--     Names, Taken   the order of the names; the ends of take_snapshot
--     State        backup/snapshot.py: read_backup_state, _health_from_age
--     Retention    backup/retention.py: prune_old_snapshots
--   Budget         agent_driver/budget_guard.py: BudgetGuard; exec_runner.py: _stream_and_track
--     Verdict, Tracking
--   Repair         orchestrator/deploy_repair.py: the strategies, propose_attempts
--     Failure      orchestrator/deploy_repair.py: DeployFailure.classify
--     Loop         orchestrator/stages_py.py: execute_deploy from its first attempt on
--       Rounds, Deploys   the rounds of the repair loop; what a deployment ends with
--   Report         agent_driver/report_extractor.py and the data types of agent_driver/schema.py
--     Fences, Sound
--   Validator      orchestrator/validator.py: the checks of a stage's artifacts
--     Checks, Sound   the single checks; which artifacts pass
--     Production   orchestrator/validator.py: assert_invariants
--   Loop           orchestrator/main.py: cmd_loop with its gate and heartbeats, over Queue and Pipeline
--     Written, Started   what a run's writes and the sweep leave in the store
--     Rested       the runs that are left under way
--     Intake       what a round takes and counts
--     Paced        the incidents of the gate
--   Tracker        discover/tracker.py: what a scan keeps of a model and why
--     Rounds       discover/tracker.py: the three scans; discover/main.py: cmd_once
--       Emitted, Complete   the models that are written, and those that a scan reaches
--   Cleanup        orchestrator/stages_py.py: execute_cleanup
--     Safe         which containers it touches
--   Stager         orchestrator/model_stager.py: the detection of weights, _cleanup_partial
--     Scan, Complete   the walk over the tree; which directories count as staged
--     Patterns     orchestrator/model_stager.py: the patterns and the estimate of the size
--     Staging      orchestrator/model_stager.py: ensure_model_staged, over Cache
--       Settled
--   Engine         orchestrator/stages.py: _is_runnable_model_repo, _pick_engine, _vllm_args_hint
--     Runnable, Entry
--     Select       orchestrator/stages.py: ENGINE_SELECT and STAGE_MODEL, over Stager
--       Gate       a model that ENGINE_SELECT turns away, over Pipeline
--   Agent          agent_driver/exec_runner.py: run_agent, over Pool, Budget and Report
--     Released
--   Samples        in each part: tests, and the theorems at concrete inputs
--
-- State. The mutable objects are passed on: a run with the states saved and the events written
-- (Pipeline.State), the index rows and state files (Store), the lines of the queue file (Queue), the
-- handles and the run directories (Pool.Pool), the backups and their pointers (Backup.Root),
-- the tokens spent (Budget.BudgetGuard). What comes from outside is an argument: the readings of
-- the clock, what a stage's executor returns or raises at an attempt (Pipeline.Env), the answers of
-- docker and of rmtree (Pool.World), the listings of directories, an attempt to deploy and an agent's
-- proposal (Repair.Loop.Env), json.loads and jsonschema (Report.Decoder), what a queue line of
-- an id that wants escaping reads back as (Queue.written), the downloader and the disk
-- (Stager.Staging.World), what a round of the main loop meets (Loop.Round), the lists of the model hub
-- (Tracker.Rounds.Hub), the docker daemon (Cleanup.Daemon). Nothing is supposed of them unless a theorem says so in its hypotheses.
--
-- Bounds. Times are natural numbers, in hundredths of a second in the pipeline and in the main loop; a duration is an
-- integer, since the clock may go back. The loops are over lists and end with them. The one loop with a
-- bound of its own is that of 30 probes after a restart (Pool.probes), as in the source; the eight rounds
-- of the repair loop are more than it can use. A listing
-- of runs takes at most 500, or 200 where the source asks for 200.
--
-- Not modelled: the executors of the stages other than ENGINE_SELECT, STAGE_MODEL, DEPLOY and CLEANUP,
-- capability tests and benchmarks, the project and skill lanes, the prompts and the HTTP clients, which shell out or
-- call a server; the web panel; log lines; the JSON text of the state files, whose documents are modelled
-- (Run.Json) while the store keeps the runs themselves; a write that fails, but for those of the backups.
mod Prelude
pub mod Stage
pub mod Run
pub mod Pipeline
pub mod Store
pub mod Queue
pub mod Pool
pub mod Cache
pub mod Backup
pub mod Budget
pub mod Repair
pub mod Report
pub mod Agent
pub mod Validator
pub mod Stager
pub mod Engine
pub mod Loop
pub mod Tracker
pub mod Cleanup
