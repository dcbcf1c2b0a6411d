-- ===== src/Pipeline.antt =====
-- orchestrator/main.py: one run through the stages, with its bookkeeping. What the program reads from
-- outside comes in a record `Env`: the clock, and what the executor of a stage does at an attempt.
-- The executors of orchestrator/stages.py take the run and do not change it.
pub mod Executed
mod Visited
mod Ended
pub mod Order
pub mod Own
mod Begun
pub mod Outcome
pub mod Success
pub mod Sincere
mod Samples
use Prim.Native.String.{◌++◌ as concat}
use heyi_eval_v.Prelude.{
  ℕ, ◌+◌, Bool, false, not, ◌&&◌, ◌||◌, Option, none, some, List, [], ◌∷◌, String, str_eq,
  if◌then◌else◌,
}
use heyi_eval_v.Prelude.Int.{ℤ, sub_ℕ}
use heyi_eval_v.Stage.{
  StageName, StageInfo, StageStatus, RunStatus, stage_eq, stages_in_order, discover, curate,
  metadata, engine_select, capability, showcase, cleanup, mark_started, mark_ok, mark_failed,
  mark_skipped,
}
use heyi_eval_v.Run.{Run, get_stage, set_stage, is_ok, is_failed, is_skipped, needs_full_restart}

-- The fields of `StageResult` that the pipeline reads; `aborted` and `reason` stand in its `extra`.
pub record StageResult : Type 0 where
  pub ok : Bool
  pub artifacts : List String
  pub error : Option String
  pub aborted : Bool
  pub reason : Option String

-- What an executor raises: `ValidationError`, or any other exception with the name of its type.
pub data Crash : Type 0 where
  validation_error : String → Crash
  other_error : String → String → Crash

-- What leaves `_exec`; a `GracefulSkip` holds the stage and the reason, and is raised in main.py only.
pub data Exn : Type 0 where
  graceful_skip : StageName → String → Exn
  crash : Crash → Exn

pub data Execution : Type 0 where
  returned : StageResult → Execution
  raised : Crash → Execution

pub record Env : Type 0 where
  -- the n-th reading of the clock, in hundredths of a second
  pub clock : ℕ → ℕ
  -- `execute_stage` of a stage, at that attempt
  pub execute : StageName → ℕ → Execution
  -- pass_rate of capability.json in millionths, and model_first_impression of showcase.json
  pub pass_rate : Option ℕ
  pub impression : Option String
  pub stub_only : Bool

pub data Event : Type 0 where
  run_started : Event
  run_failed : StageName → String → Event
  run_aborted : StageName → String → Event
  run_completed : Option ℕ → Option String → ℤ → Event

-- The run, how often the clock was read, the states that `save_run` wrote and the events of the
-- outbox, both newest first.
pub record State : Type 0 where
  pub run : Run
  pub reads : ℕ
  pub saves : List Run
  pub events : List Event

abbrev pub save : State → State
save s = record s { saves = s.run ∷ s.saves }

abbrev pub emit : Event → State → State
emit e s = record s { events = e ∷ s.events }

-- Python's `a or b` at an optional text: an empty text counts as none.
abbrev pub or_text : Option String → String → String
or_text none d = d
or_text (some t) d = if str_eq t "" then d else t

abbrev text_or_none : Option String → Option String → Option String
text_or_none none d = d
text_or_none (some t) d = if str_eq t "" then d else some t

-- f"{type(e).__name__}: {e}"
abbrev pub typed_text : Crash → String
typed_text (validation_error m) = concat "ValidationError: " m
typed_text (other_error kind m) = concat kind (concat ": " m)

-- A mark of a stage's record, at a reading of the clock, written to disk.
pub marked : StageName → StageInfo → State → State
unfolding set_stage
marked stage i s = record s {
  run = set_stage stage i s.run;
  reads = s.reads + 1;
  saves = set_stage stage i s.run ∷ s.saves;
}

now : Env → State → ℕ
now env s = env.clock s.reads

start : Env → StageName → State → State
unfolding marked now mark_started
start env stage s = marked stage (mark_started (now env s) (get_stage s.run stage)) s

-- What follows `execute_stage` in `_execute_stage_real`: the exception that leaves the function.
pub conclude : Env → StageName → Execution → State → Option Exn × State
unfolding marked now mark_ok mark_failed mark_skipped
conclude env stage (raised e) s = (
  some (crash e),
  marked stage
      (mark_failed (now env s) (concat "executor crashed: " (typed_text e)) false
        (get_stage s.run stage))
      s,
)
conclude env stage (returned r) s =
    if r.ok
    then (none, marked stage (mark_ok (now env s) r.artifacts (get_stage s.run stage)) s)
    else if r.aborted
    then (
      some (graceful_skip stage (or_text (text_or_none r.reason r.error) "aborted")),
      marked stage
          (mark_skipped (now env s) (or_text (text_or_none r.reason r.error) "aborted")
            (get_stage s.run stage))
          s,
    )
    else (
      some (crash (validation_error (or_text r.error "stage failed"))),
      marked stage
          (mark_failed (now env s) (or_text r.error "executor returned ok=False") false
            (get_stage s.run stage))
          s,
    )

pub execute_stage_real : Env → StageName → State → Option Exn × State
unfolding start conclude
execute_stage_real env stage s =
    let t = start env stage s in
    conclude env stage (env.execute stage (get_stage t.run stage).attempt) t

pub execute_stage_stub : Env → StageName → State → Option Exn × State
unfolding start marked now mark_ok
execute_stage_stub env stage s =
    let t = start env stage s in
    (none, marked stage (mark_ok (now env t) [] (get_stage t.run stage)) t)

-- `_exec`
pub exec : Env → StageName → State → Option Exn × State
unfolding execute_stage_real execute_stage_stub
exec env stage s =
    if env.stub_only then execute_stage_stub env stage s else execute_stage_real env stage s

-- Back to PENDING, but for the count of attempts and the artifacts.
abbrev pub reset : StageInfo → StageInfo
reset i = if is_ok i.status then i else record i {
  status = StageStatus.pending;
  started_at = none;
  ended_at = none;
  duration_s = none;
  error = none;
}

pub reset_stages : List StageName → Run → Run
unfolding set_stage
reset_stages [] r = r
reset_stages (s ∷ rest) r = reset_stages rest (set_stage s (reset (get_stage r s)) r)

-- The head of `run_pipeline`: the run is under way, and its run-level stages are made ready.
pub begin : State → State
begin s =
    let r = record s.run { status = RunStatus.in_progress } in
    let t = emit run_started (save (record s { run = r })) in
    if needs_full_restart r
    then save
        (record t { run = reset_stages (discover ∷ curate ∷ metadata ∷ engine_select ∷ []) r })
    else t

-- Why the loop over the stages was left before its end.
pub data Stop : Type 0 where
  -- `return`: the run is closed
  returns : Stop
  -- `break`, with failed_stage and fail_reason
  breaks : StageName → String → Stop

-- The run's end: its status, reason and time, written to disk.
pub close : Env → RunStatus → Option String → State → State
unfolding now
close env status reason s =
    let r = record s.run {
      status = status;
      failure_reason = reason;
      ended_at = some (now env s);
    } in
    record s { run = r; reads = s.reads + 1; saves = r ∷ s.saves }

abbrev pub stage_text : StageName → String
stage_text StageName.discover = "DISCOVER"
stage_text StageName.curate = "CURATE"
stage_text StageName.metadata = "METADATA"
stage_text StageName.engine_select = "ENGINE_SELECT"
stage_text StageName.stage_model = "STAGE_MODEL"
stage_text StageName.deploy = "DEPLOY"
stage_text StageName.ready_wait = "READY_WAIT"
stage_text StageName.capability = "CAPABILITY"
stage_text StageName.perf_bench = "PERF_BENCH"
stage_text StageName.showcase = "SHOWCASE"
stage_text StageName.cleanup = "CLEANUP"

-- `_exec(StageName.CLEANUP)` under `try`, if the test before it lets it run.
pub best_effort_cleanup : Env → Bool → State → State
best_effort_cleanup env test s = if test then (exec env cleanup s).1 else s

-- A status other than FAILED is turned into it: `if info.status != StageStatus.FAILED: ...`.
pub ensure_failed : Env → StageName → String → State → State
unfolding marked now mark_failed
ensure_failed env stage error s =
    if is_failed (get_stage s.run stage).status
    then s
    else marked stage (mark_failed (now env s) error false (get_stage s.run stage)) s

-- `cinfo.status not in (OK, SKIPPED) and gs.stage != CLEANUP`
abbrev pub cleanup_after_skip : StageName → State → Bool
cleanup_after_skip at s =
    let status = (get_stage s.run cleanup).status in
    not (is_ok status || is_skipped status) && not (stage_eq at cleanup)

-- `except GracefulSkip`: the run is closed before its cleanup is tried.
pub abandon : Env → StageName → String → State → State
unfolding close
abandon env at reason s =
    let t =
      close env RunStatus.aborted
        (some (concat "aborted at " (concat (stage_text at) (concat ": " reason)))) s in
    emit (run_aborted at reason) (best_effort_cleanup env (cleanup_after_skip at t) t)

-- The three `except` clauses round `_exec(stage)`.
pub handle : Env → StageName → Option Exn → State → Option Stop × State
unfolding abandon ensure_failed
handle env stage none s = (none, s)
handle env stage (some (graceful_skip at reason)) s = (some returns, abandon env at reason s)
handle env stage (some (crash (validation_error m))) s =
    (some (breaks stage m), ensure_failed env stage (concat "validation: " m) s)
handle env stage (some (crash (other_error kind m))) s = (
  some (breaks stage (typed_text (other_error kind m))),
  ensure_failed env stage (typed_text (other_error kind m)) s,
)

-- One round of the loop.
pub visit : Env → StageName → State → Option Stop × State
visit env stage s =
    if s.run.abort_flag
    then (some returns, close env RunStatus.aborted (some "abort_flag") s)
    else if is_ok (get_stage s.run stage).status
    then (none, s)
    else let (e, t) = exec env stage s in handle env stage e t

pub run_stages : Env → List StageName → State → Option Stop × State
run_stages env [] s = (none, s)
run_stages env (stage ∷ rest) s =
    let (stop, t) = visit env stage s in
    elim stop [ none ↦ run_stages env rest t | some x ↦ (some x, t) ]

-- The event of a completed run, with what its artifacts say.
abbrev pub completion : Env → State → Event
completion env s =
    run_completed (if is_ok (get_stage s.run capability).status then env.pass_rate else none)
      (if is_ok (get_stage s.run showcase).status then env.impression else none)
      (sub_ℕ (env.clock s.reads) s.run.created_at)

-- What follows the loop.
pub finish : Env → Option Stop → State → State
unfolding best_effort_cleanup close
finish env (some returns) s = s
finish env (some (breaks stage reason)) s =
    let t =
      best_effort_cleanup env
        (not (stage_eq stage cleanup) && not (is_ok (get_stage s.run cleanup).status)) s in
    emit (run_failed stage (or_text (some reason) "unknown"))
      (close env RunStatus.failed (some reason) t)
finish env none s =
    let t = close env RunStatus.ok s.run.failure_reason s in emit (completion env s) t

pub run_pipeline : Env → State → State
run_pipeline env s = let (stop, t) = run_stages env stages_in_order (begin s) in finish env stop t
