-- ===== src/Loop/Samples.antt =====
-- A loop of three rounds: the engine is down at the first, still down at the second, and up at the
-- third, which takes a job.
use heyi_eval_v.Prelude.{
  ℕ, ◌+◌, ◌≡◌, refl, true, false, Bool, Option, none, some, List, [], ◌∷◌, arith, str_eq,
  if◌then◌else◌,
}
use heyi_eval_v.Stage.{RunStatus}
use heyi_eval_v.Run.{Run, new_run}
use heyi_eval_v.Store.{Store, entry, get_run, load_state, with_status}
use heyi_eval_v.Store.Agreement.{index_entry, file_entry, run_summary}
use heyi_eval_v.Pipeline.{Env, StageResult, returned}
use heyi_eval_v.Loop.{World, Round, Setting, returns, loop_round, loop_rounds, cmd_loop, new_world}
use heyi_eval_v.Loop.Started.{Startable, status_in}
use heyi_eval_v.Loop.Rested.{Left, cmd_loop-Left}
use heyi_eval_v.Loop.Intake.{Turn, loop_round-Turn}
use heyi_eval_v.Loop.Paced.{Paced, pause_of, loop_rounds-Paced}

abbrev good : StageResult
good = record { ok = true; artifacts = []; error = none; aborted = false; reason = none }

abbrev env : Env
env = record {
  clock = λ n. 900000 + n;
  execute = λ x n. returned good;
  pass_rate = none;
  impression = none;
  stub_only = false;
}

abbrev setting : Setting
setting = record {
  stub_only = false;
  cloud = false;
  heartbeat_interval = 1440000;
  engine_remind_interval = 360000;
}

abbrev round : ℕ → Bool → Round
round at ok = record {
  today = 3;
  beat_at = at;
  free_disk_gb = some 40;
  beat_accepted = true;
  probe = record { at = at; ok = ok; detail = "timeout"; accepted = true };
  taken_at = at + 1;
  env = env;
  fate = returns;
  crashed_at = 0;
  crash_accepted = true;
}

abbrev rounds : List Round
rounds = round 500000 false ∷ round 900000 false ∷ round 950000 true ∷ []

-- A run that an earlier process left in progress, and one job.
abbrev orphan : Run
orphan = record (new_run "r-0" "org/old" 5) { status = RunStatus.in_progress }

abbrev left_behind : Store
left_behind = record {
  rows =
      record {
        run_id = "r-0";
        hf_id = "org/old";
        status = RunStatus.in_progress;
        created_at = 5;
        ended_at = none;
        failure_reason = none;
      }
      ∷ [];
  files = orphan ∷ [];
  queue = entry "r-1" "org/new" ∷ [];
}

same_entry :
    (b : Bool)
    → status_in (if b then some (run_summary orphan) else none)
      ≡ status_in (file_entry (if b then some orphan else none))
same_entry true = refl
same_entry false = refl

left_behind-Startable : Startable left_behind
unfolding get_run load_state with_status new_run
left_behind-Startable = record {
  created = (omega arith, tt);
  agrees = λ k. unfold index_entry in same_entry (str_eq "r-0" k);
  few = omega arith;
  no_pending = λ k r h. ground arith;
}

cmd_loop-Left_example :
    (code : Option ℕ) × (w : World) × (cmd_loop setting 3 400000 180000 rounds left_behind
      ≡ some (code, w))
    × Left code w.store
cmd_loop-Left_example =
    cmd_loop-Left setting 3 400000 180000 rounds left_behind left_behind-Startable
      (tt, (tt, (tt, tt)))

loop_round-Turn_example :
    Turn setting
      (round 950000 true)
      (new_world 3 left_behind)
      (loop_round setting (round 950000 true) (new_world 3 left_behind)).0
      (loop_round setting (round 950000 true) (new_world 3 left_behind)).1
loop_round-Turn_example = loop_round-Turn setting (round 950000 true) (new_world 3 left_behind)

loop_rounds-Paced_example :
    Paced 360000 []
      (pause_of (loop_rounds setting rounds (new_world 3 left_behind)).1.state)
      (loop_rounds setting rounds (new_world 3 left_behind)).1.outbox
loop_rounds-Paced_example =
    loop_rounds-Paced setting 3 rounds left_behind refl (refl, (refl, (refl, tt)))
