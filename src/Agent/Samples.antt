-- ===== src/Agent/Samples.antt =====
-- A pool of one container, a task in it, and an instance of the theorem about tasks.
use heyi_eval_v.Prelude.{
  ℕ, zero, suc, ◌≤◌, get_elem?, ◌≡◌, refl, true, Option, none, some, [], ◌∷◌, String, arith,
}
use heyi_eval_v.Prelude.Codes.{Text, codes, contains}
use heyi_eval_v.Budget.{BudgetGuard, chunk, watchdog}
use heyi_eval_v.Pool.{
  World, Pool, Handle, acquire, pick_idle, maybe_recycle, lease, exists, safe_run_workspace,
  bad_name,
}
use heyi_eval_v.Pool.Invariant.{Inv}
use heyi_eval_v.Pool.Recycling.{lease_at}
use heyi_eval_v.Report.{Decoder, Outcome, sandbox_dead}
use heyi_eval_v.Report.{pass}
use heyi_eval_v.Agent.{Host, Ran, returned, busy, bad_file_name, run_agent}
use heyi_eval_v.Agent.Released.{SameLeases, run_agent-SameLeases}

abbrev decoder : Decoder
decoder = record {
  Json = Text;
  loads = λ s. some s;
  is_signed = λ o. true;
  is_valid = λ o. true;
  read = λ o. record {
    schema_version = codes "1.0";
    lane = codes "skill";
    target_id = codes "t";
    outcome = pass;
    steps = [];
    deploys = true;
    quickstart_works = true;
    core_features_demonstrated = none;
    blockers = none;
    follow_ups = none;
  };
}

abbrev world : World
world = record {
  clock = λ n. 5;
  restarts = λ n name. true;
  running = λ n name. true;
  inside = λ s. true;
  removes = λ n s. true;
}

abbrev pool : Pool
pool = record {
  max_runs = 50;
  max_age = 86400;
  handles = record { name = "m2b-0"; run_count = 3; booted_at = 0; run_id = none } ∷ [];
  workspaces = [];
  asked = 0;
}

pool-Inv : Inv pool
pool-Inv = record { distinct = distinct; backed = backed; bounded = bounded }
  where
    distinct : (i j : ℕ) (r : String) → lease_at pool i ≡ some r → lease_at pool j ≡ some r → i ≡ j
    distinct zero j r e f = cc
    distinct (suc i) j r e f = cc

    backed : (i : ℕ) (r : String) → lease_at pool i ≡ some r → exists r pool.workspaces ≡ true
    backed zero r e = cc
    backed (suc i) r e = cc

    bounded : (i : ℕ) (h : Handle) → get_elem? pool.handles i ≡ some h → h.run_count ≤ pool.max_runs
    bounded zero h e = ground arith
    bounded (suc i) h e = cc

abbrev guard : BudgetGuard
guard = record {
  token_budget = 1000;
  wall_clock_s = 900;
  t0 = 5;
  input_tokens = 0;
  output_tokens = 0;
}

abbrev host : Host
host = record {
  steps = some (chunk 60 6 ∷ watchdog 20 ∷ []);
  decode = λ n. codes "<<<HEYI_RUN_REPORT_JSON>>>{}<<<END>>>";
  started = 5;
  writes_files = true;
}

abbrev ran : Host → String → Ran × Pool
ran h run_id =
    run_agent decoder world h (codes "skill") (codes "t") run_id (codes "SKILL.md" ∷ []) guard pool

abbrev outcome_of : Ran → Option Outcome
outcome_of (returned r) = some r.report.outcome
outcome_of busy = none
outcome_of bad_file_name = none

-- A bad run id does not raise: it is taken for a dead sandbox.
bad_run_id : outcome_of (ran host "a/b").0 ≡ some sandbox_dead
unfolding run_agent acquire pick_idle maybe_recycle lease safe_run_workspace bad_name contains
bad_run_id = refl

run_agent-SameLeases_example : SameLeases pool (ran host "s-1").1
run_agent-SameLeases_example =
    run_agent-SameLeases decoder world host (codes "skill") (codes "t") "s-1"
      (codes "SKILL.md" ∷ []) guard pool (omega arith) pool-Inv (λ n. refl)
