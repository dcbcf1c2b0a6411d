-- ===== src/Agent.antt =====
-- agent_driver/exec_runner.py: run_agent, one agent task from the lease of a container to its report.
-- The parts are those of the pool, the budget and the report. What the stream brings and whether the
-- files can be written are arguments.
pub mod Released
mod Samples
use heyi_eval_v.Prelude.{
  ℕ, ◌-◌, Bool, true, false, not, ◌&&◌, ◌||◌, Option, none, some, List, [], ◌∷◌, String, any, ◌==◌,
  if◌then◌else◌, length,
}
use heyi_eval_v.Prelude.Codes.{Text, codes, contains}
use heyi_eval_v.Budget.{
  BudgetGuard, BudgetCheck, BudgetDecision, ok, exceeded_tokens, exceeded_wall_clock, Step, Stream,
  stream_and_track,
}
use heyi_eval_v.Pool.{
  World, Pool, Handle, Answer, done, raises, acquire, release, safe_run_workspace, exists,
}
use heyi_eval_v.Pool
use heyi_eval_v.Report.{
  Decoder, RunReport, ExtractError, Extracted, report, error, extract_report, Outcome,
  budget_exceeded, timeout, sandbox_dead, system_report, synthetic_parse_error_report,
}

-- What happens outside: the stream's steps, if it does not raise, with the text of its first bytes; the
-- clock at the stream's start; and whether the files of the task can be written.
pub record Host : Type 0 where
  pub steps : Option (List Step)
  pub decode : ℕ → Text
  pub started : ℕ
  pub writes_files : Bool

pub record AgentRunResult : Type 0 where
  pub report : RunReport
  pub raw_stdout : Text
  pub raw_bad_report : Option Text
  pub extract_error : Option ExtractError
  pub budget_final : Option BudgetCheck
  pub container_name : String

-- The exceptions that leave `run_agent`: PoolBusy, and ValueError for a nested file name.
pub data Ran : Type 0 where
  returned : AgentRunResult → Ran
  busy bad_file_name : Ran

abbrev pub is_nested : Text → Bool
is_nested name = contains (codes "/") name || contains (codes "..") name

abbrev drop : ℕ → Text → Text
drop n [] = []
drop n (c ∷ s) = if n == 0 then c ∷ s else drop (n - 1) s

abbrev last_4096 : Text → Text
last_4096 s = drop (length s - 4096) s

module _ (d : Decoder) (w : World) (host : Host) (lane target_id : Text) where
  -- The `except Exception` clause.
  pub dead : Text → Option BudgetCheck → String → AgentRunResult
  dead raw final name = record {
    report = system_report lane target_id sandbox_dead;
    raw_stdout = raw;
    raw_bad_report = none;
    extract_error = none;
    budget_final = final;
    container_name = name;
  }

  over_budget : Outcome → Text → BudgetCheck → String → AgentRunResult
  over_budget outcome raw final name = record {
    report = system_report lane target_id outcome;
    raw_stdout = raw;
    raw_bad_report = none;
    extract_error = none;
    budget_final = some final;
    container_name = name;
  }

  pub reported : Extracted → Text → BudgetCheck → String → AgentRunResult
  reported (error e) raw final name = record {
    report = synthetic_parse_error_report lane target_id;
    raw_stdout = raw;
    raw_bad_report = some (last_4096 raw);
    extract_error = some e;
    budget_final = some final;
    container_name = name;
  }
  reported (report r) raw final name = record {
    report = r;
    raw_stdout = raw;
    raw_bad_report = none;
    extract_error = none;
    budget_final = some final;
    container_name = name;
  }

  -- What follows `_stream_and_track`.
  pub judged : BudgetDecision → Text → BudgetCheck → String → AgentRunResult
  unfolding over_budget reported
  judged exceeded_tokens raw final name = over_budget budget_exceeded raw final name
  judged exceeded_wall_clock raw final name = over_budget timeout raw final name
  judged ok raw final name = reported (extract_report d lane target_id raw) raw final name

  -- `_write_task_files`, without the writes themselves: whether it returns.
  pub writes : String → Pool → Bool
  writes run_id p = elim (safe_run_workspace w run_id) [
    | some e ↦ false
    | none ↦ exists run_id p.workspaces && host.writes_files
  ]

  -- The body of the `try` once a container is leased.
  pub work : String → BudgetGuard → Handle → Pool → AgentRunResult
  unfolding dead judged writes
  work run_id guard h p = if not (writes run_id p) then dead [] none h.name else elim host.steps [
    | none ↦ dead [] none h.name
    | some steps ↦
        let s = stream_and_track steps host.started guard in
        judged s.final.decision (host.decode s.received) s.final h.name
  ]

  -- `PoolBusy` goes on; any other exception of `acquire` is reported, and no container was leased.
  pub run_leased : String → BudgetGuard → Answer Handle × Pool → Ran × Pool
  unfolding work
  run_leased run_id guard (raises Pool.pool_busy, p) = (busy, p)
  run_leased run_id guard (raises e, p) = (returned (dead [] none ""), p)
  run_leased run_id guard (done h, p) = (returned (work run_id guard h p), (release w run_id p).1)

  pub run_agent : String → List Text → BudgetGuard → Pool → Ran × Pool
  unfolding run_leased
  run_agent run_id extra_files guard p =
      if any is_nested extra_files
      then (bad_file_name, p)
      else run_leased run_id guard (acquire w run_id p)
