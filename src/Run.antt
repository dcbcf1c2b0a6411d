-- ===== src/Run.antt =====
-- orchestrator/state_machine.py: the record of one run, its stages and the questions that a resume
-- asks of it.
pub mod Json
use heyi_eval_v.Prelude.{
  ℕ, Bool, true, false, Option, none, some, List, [], ◌∷◌, String, any, if◌then◌else◌,
}
use heyi_eval_v.Stage.{
  StageName, StageInfo, StageStatus, RunStatus, stage_eq, stages_in_order, run_level_stages, deploy,
  new_stage,
}

pub record Run : Type 0 where
  pub run_id : String
  pub hf_id : String
  pub status : RunStatus
  pub created_at : ℕ
  pub ended_at : Option ℕ
  -- The dictionary has an entry for each stage from `__post_init__` on.
  pub stages : StageName → StageInfo
  pub failure_reason : Option String
  pub abort_flag : Bool

-- Run(run_id=..., hf_id=...) at the time `now`.
unfoldable pub new_run : String → String → ℕ → Run
new_run run_id hf_id now = record {
  run_id = run_id;
  hf_id = hf_id;
  status = RunStatus.pending;
  created_at = now;
  ended_at = none;
  stages = new_stage;
  failure_reason = none;
  abort_flag = false;
}

abbrev pub get_stage : Run → StageName → StageInfo
get_stage r s = r.stages s

-- The code changes the entry of a stage in place.
unfoldable pub set_stage : StageName → StageInfo → Run → Run
set_stage s i r = record r { stages = λ t. if stage_eq s t then i else r.stages t }

abbrev pub is_ok : StageStatus → Bool
is_ok StageStatus.ok = true
is_ok _ = false

abbrev pub is_failed : StageStatus → Bool
is_failed StageStatus.failed = true
is_failed _ = false

abbrev pub is_skipped : StageStatus → Bool
is_skipped StageStatus.skipped = true
is_skipped _ = false

-- `status in (StageStatus.FAILED, StageStatus.TIMED_OUT)`
abbrev pub failed_or_late : StageStatus → Bool
failed_or_late StageStatus.failed = true
failed_or_late StageStatus.timed_out = true
failed_or_late _ = false

first_not_ok : Run → List StageName → Option StageName
first_not_ok r [] = none
first_not_ok r (s ∷ rest) = if is_ok (get_stage r s).status then first_not_ok r rest else some s

unfoldable pub first_pending_stage : Run → Option StageName
unfolding first_not_ok
first_pending_stage r = first_not_ok r stages_in_order

unfoldable pub needs_full_restart : Run → Bool
needs_full_restart r =
    if is_ok (get_stage r deploy).status
    then false
    else any (λ s. failed_or_late (get_stage r s).status) run_level_stages
