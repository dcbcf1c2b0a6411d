-- ===== src/Loop.antt =====
-- orchestrator/main.py: the main loop, with the gate before a job is taken and the heartbeats, and the
-- events of orchestrator/notify.py that it writes. A round of the loop is a function of what it meets
-- outside, a record `Round`: the date, the times, the answer of the engine, whether the outbox can be
-- written, and how the pipeline ends. A write of the store succeeds.
mod Written
mod Started
pub mod Intake
pub mod Paced
pub mod Rested
mod Samples
use heyi_eval_v.Prelude.{
  ℕ, ◌+◌, Bool, true, false, not, Option, none, some, List, [], ◌∷◌, ◌++◌, map, length, String, ltb,
  ◌==◌, if◌then◌else◌,
}
use Prim.Native.String.{◌++◌ as concat}
use heyi_eval_v.Prelude.Int.{ℤ, sub_ℕ}
use heyi_eval_v.Stage.{RunStatus}
use heyi_eval_v.Run.{Run, new_run}
use heyi_eval_v.Store.{Store, save_run, list_runs, with_status, is_in_progress}
use heyi_eval_v.Pipeline.{Env, State, Event, run_pipeline}
use heyi_eval_v.Queue.{is_ok_run, failed_or_aborted, pop_one, sweep_orphans}

-- Times in hundredths of a second, the date as a number of days.
pub record LoopState : Type 0 where
  pub last_heartbeat : ℕ
  pub engine_unhealthy_since : Option ℕ
  pub engine_last_notify : ℕ
  pub completed_today : ℕ
  pub failed_today : ℕ
  pub today_date : ℕ

-- The incidents of the gate, with what their texts hold: for how long the engine was down, and the
-- detail of the probe.
pub data Incident : Type 0 where
  engine_down : String → Incident
  engine_recovered : ℤ → Incident
  still_paused : ℤ → String → Incident

-- A line of the outbox; an incident stands with its time, an event of a run with the run's id, and a
-- heartbeat with in_flight, completed_today, failed_today and free_disk_gb (`none` for -1.0).
pub data Notice : Type 0 where
  incident : ℕ → Incident → Notice
  heartbeat : ℕ → ℕ → ℕ → Option ℕ → Notice
  run_event : String → Event → Notice
  orchestrator_crash : String → String → Notice

-- The outbox has its newest line first.
pub record World : Type 0 where
  pub state : LoopState
  pub store : Store
  pub outbox : List Notice

-- `EngineHealth` of a probe, and whether the incident that follows from it can be written.
pub record Probe : Type 0 where
  pub at : ℕ
  pub ok : Bool
  pub detail : String
  pub accepted : Bool

-- How the call of `run_pipeline` ends: it returns, or an exception leaves it, `KeyboardInterrupt` or
-- another one with its text; the function is what had been done by then.
pub data Ending : Type 0 where
  returns : Ending
  interrupted : (State → State) → Ending
  raised : String → (State → State) → Ending

pub record Round : Type 0 where
  pub today : ℕ
  pub beat_at : ℕ
  pub free_disk_gb : Option ℕ
  pub beat_accepted : Bool
  pub probe : Probe
  pub taken_at : ℕ
  pub env : Env
  pub fate : Ending
  pub crashed_at : ℕ
  pub crash_accepted : Bool

-- The arguments and the environment of the process; `cloud` is `provider in ("zhipu", "yunwu")`.
pub record Setting : Type 0 where
  pub stub_only : Bool
  pub cloud : Bool
  pub heartbeat_interval : ℕ
  pub engine_remind_interval : ℕ

abbrev pub healthy : LoopState → LoopState
healthy s = record s { engine_unhealthy_since = none; engine_last_notify = 0 }

-- `notify.incident` under `try`: what is done to the state if the outbox took the line.
pub notify : Bool → ℕ → Incident → LoopState → World → World
notify true at i s w = record w { state = s; outbox = incident at i ∷ w.outbox }
notify false at i s w = w

-- The engine answers.
pub recovered : Probe → Option ℕ → World → World
unfolding notify
recovered p none w = w
recovered p (some since) w =
    let t = notify p.accepted p.at (engine_recovered (sub_ℕ p.at since)) w.state w in
    record t { state = healthy t.state }

-- The engine does not answer.
pub unhealthy : ℕ → Probe → Option ℕ → World → World
unfolding notify
unhealthy remind p none w =
    let s = record w.state { engine_unhealthy_since = some p.at } in
    notify p.accepted p.at (engine_down p.detail) (record s { engine_last_notify = p.at })
      (record w { state = s })
unhealthy remind p (some since) w =
    if ltb (w.state.engine_last_notify + remind) p.at
    then notify p.accepted p.at (still_paused (sub_ℕ p.at since) p.detail)
        (record w.state { engine_last_notify = p.at }) w
    else w

pub forget : Option ℕ → World → World
forget none w = w
forget (some since) w = record w { state = healthy w.state }

pub engine_preflight_gate : Setting → Probe → World → (Bool × String) × World
unfolding recovered unhealthy forget
engine_preflight_gate c p w =
    let since = w.state.engine_unhealthy_since in
    if c.cloud
    then ((true, "cloud-provider"), forget since w)
    else if p.ok
    then ((true, "healthy"), recovered p since w)
    else ((false, p.detail), unhealthy c.engine_remind_interval p since w)

pub maybe_emit_heartbeat : Setting → Round → World → Bool × World
maybe_emit_heartbeat c r w =
    if ltb r.beat_at (c.heartbeat_interval + w.state.last_heartbeat)
    then (false, w)
    else if r.beat_accepted
    then (
      true,
      record w {
        state = record w.state { last_heartbeat = r.beat_at };
        outbox =
            heartbeat (length (with_status is_in_progress (list_runs 200 w.store)))
              w.state.completed_today w.state.failed_today r.free_disk_gb
            ∷ w.outbox;
      },
    )
    else (false, w)

-- "Daily counter rollover"
pub roll_over : ℕ → LoopState → LoopState
roll_over today s =
    if today == s.today_date
    then s
    else record s { completed_today = 0; failed_today = 0; today_date = today }

-- What the pipeline wrote to disk, the oldest first.
pub write_saves : List Run → Store → Store
write_saves [] s = s
write_saves (r ∷ rest) s = save_run r (write_saves rest s)

-- The pipeline's writes and events reach the store and the outbox.
pub publish : State → World → World
unfolding write_saves
publish p w = record w {
  store = write_saves p.saves w.store;
  outbox = map (run_event p.run.run_id) p.events ++ w.outbox;
}

abbrev pub one_more_ok : LoopState → LoopState
one_more_ok s = record s { completed_today = s.completed_today + 1 }

abbrev pub one_more_failed : LoopState → LoopState
one_more_failed s = record s { failed_today = s.failed_today + 1 }

pub count : RunStatus → LoopState → LoopState
count status s =
    if is_ok_run status
    then one_more_ok s
    else if failed_or_aborted status
    then one_more_failed s
    else s

-- `except Exception`: the run is closed and told of.
pub record_crash : Round → String → Run → World → World
record_crash r error run w =
    let closed = record run {
      status = RunStatus.failed;
      failure_reason = some (concat "orchestrator crash: " error);
      ended_at = some r.crashed_at;
    } in
    record w {
      state = one_more_failed w.state;
      store = save_run closed w.store;
      outbox =
          if r.crash_accepted then orchestrator_crash run.run_id error ∷ w.outbox else w.outbox;
    }

-- The run as `run_pipeline` is called with it.
abbrev pub started : Run → State
started run = record { run = run; reads = 0; saves = []; events = [] }

-- The call of `run_pipeline` under `try`; the exit code, if the loop ends.
pub carry_out : Setting → Round → Ending → Run → World → Option ℕ × World
unfolding publish count record_crash
carry_out c r returns run w =
    let p = run_pipeline (record r.env { stub_only = c.stub_only }) (started run) in
    let t = publish p w in (none, record t { state = count p.run.status t.state })
carry_out c r (interrupted f) run w = (some 130, publish (f (started run)) w)
carry_out c r (raised error f) run w =
    let p = f (started run) in (none, record_crash r error p.run (publish p w))

pub take_job : Setting → Round → Option (String × String) → World → Option ℕ × World
unfolding carry_out
take_job c r none w = (none, w)
take_job c r (some (run_id, hf_id)) w =
    let run = new_run run_id hf_id r.taken_at in
    carry_out c r r.fate run (record w { store = save_run run w.store })

-- What a round does before it takes a job: whether it takes one.
pub prepare : Setting → Round → World → Bool × World
unfolding engine_preflight_gate maybe_emit_heartbeat roll_over
prepare c r w =
    let t = record w { state = roll_over r.today w.state } in
    if c.stub_only
    then (true, t)
    else let (allowed, u) = engine_preflight_gate c r.probe (maybe_emit_heartbeat c r t).1 in
      (allowed.0, u)

pub loop_round : Setting → Round → World → Option ℕ × World
unfolding prepare take_job
loop_round c r w =
    let (allowed, t) = prepare c r w in
    let (item, s) = pop_one t.store in
    if allowed then take_job c r item (record t { store = s }) else (none, t)

-- The rounds of the loop, up to the one that ends it.
pub loop_rounds : Setting → List Round → World → Option ℕ × World
unfolding loop_round
loop_rounds c [] w = (none, w)
loop_rounds c (r ∷ rest) w =
    let (code, t) = loop_round c r w in
    elim code [ none ↦ loop_rounds c rest t | some n ↦ (some n, t) ]

-- LoopState()
abbrev pub new_loop_state : ℕ → LoopState
new_loop_state today = record {
  last_heartbeat = 0;
  engine_unhealthy_since = none;
  engine_last_notify = 0;
  completed_today = 0;
  failed_today = 0;
  today_date = today;
}

-- The loop before its first round, with the lines that it adds to the outbox.
abbrev pub new_world : ℕ → Store → World
new_world today s = record { state = new_loop_state today; store = s; outbox = [] }

-- `cmd_loop`, called at the time `now` on that day; `none` is the exception of the sweep.
pub cmd_loop : Setting → ℕ → ℕ → ℕ → List Round → Store → Option (Option ℕ × World)
unfolding loop_rounds
cmd_loop c today now stale_after rounds s = elim (sweep_orphans now stale_after true s) [
  | none ↦ none
  | some (n, t) ↦ some (loop_rounds c rounds (new_world today t))
]
