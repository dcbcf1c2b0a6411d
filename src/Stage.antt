-- ===== src/Stage.antt =====
-- orchestrator/state_machine.py: the stages of a model run, their statuses and the marks that a
-- stage's record goes through.
use heyi_eval_v.Prelude.{
  ℕ, ◌+◌, ◌≡◌, ◌↔◌, Bool, true, Option, none, some, List, [], ◌∷◌, String, arith, ◌==◌,
  if◌then◌else◌, take_text,
}
use heyi_eval_v.Prelude.Int.{ℤ, sub_ℕ}

pub data StageName : Type 0 where
  discover curate metadata engine_select stage_model deploy ready_wait capability perf_bench :
      StageName
  showcase cleanup : StageName

abbrev pub stages_in_order : List StageName
stages_in_order =
    discover ∷ curate ∷ metadata ∷ engine_select ∷ stage_model ∷ deploy ∷ ready_wait ∷ capability
    ∷ perf_bench ∷ showcase ∷ cleanup ∷ []

-- The run-level stages. `RUN_LEVEL_STAGES` is a set, which the code only walks to ask whether some
-- stage of it failed, so the order does not matter.
abbrev pub run_level_stages : List StageName
run_level_stages = discover ∷ curate ∷ metadata ∷ engine_select ∷ stage_model ∷ []

abbrev pub stage_level_stages : List StageName
stage_level_stages = deploy ∷ ready_wait ∷ capability ∷ perf_bench ∷ showcase ∷ cleanup ∷ []

-- The place of a stage in `stages_in_order`; two stages are one when their places are.
abbrev pub place : StageName → ℕ
place discover = 0
place curate = 1
place metadata = 2
place engine_select = 3
place stage_model = 4
place deploy = 5
place ready_wait = 6
place capability = 7
place perf_bench = 8
place showcase = 9
place cleanup = 10

abbrev pub stage_eq : StageName → StageName → Bool
stage_eq a b = place a == place b

pub stage_eq_iff : (a b : StageName) → (stage_eq a b ≡ true) ↔ (a ≡ b)
stage_eq_iff a b = ground arith

pub data StageStatus : Type 0 where
  pending in_progress ok failed skipped timed_out : StageStatus

pub data RunStatus : Type 0 where
  pending in_progress ok failed aborted : RunStatus

-- Times are whole hundredths of a second, so that round(ended - started, 2) is the difference.
pub record StageInfo : Type 0 where
  pub name : StageName
  pub status : StageStatus
  pub started_at : Option ℕ
  pub ended_at : Option ℕ
  pub duration_s : Option ℤ
  pub attempt : ℕ
  pub error : Option String
  pub artifacts : List String

abbrev pub new_stage : StageName → StageInfo
new_stage s = record {
  name = s;
  status = StageStatus.pending;
  started_at = none;
  ended_at = none;
  duration_s = none;
  attempt = 0;
  error = none;
  artifacts = [];
}

unfoldable pub mark_started : ℕ → StageInfo → StageInfo
mark_started now i = record i {
  status = StageStatus.in_progress;
  started_at = some now;
  attempt = i.attempt + 1;
}

-- `if self.started_at is not None: self.duration_s = round(self.ended_at - self.started_at, 2)`
abbrev duration_from : Option ℕ → ℕ → Option ℤ → Option ℤ
duration_from none now old = old
duration_from (some t) now old = some (sub_ℕ now t)

-- `if artifacts: self.artifacts = list(artifacts)`
abbrev given_artifacts : List String → List String → List String
given_artifacts [] old = old
given_artifacts (a ∷ rest) old = a ∷ rest

unfoldable pub mark_ok : ℕ → List String → StageInfo → StageInfo
mark_ok now artifacts i = record i {
  status = StageStatus.ok;
  ended_at = some now;
  duration_s = duration_from i.started_at now i.duration_s;
  artifacts = given_artifacts artifacts i.artifacts;
}

unfoldable pub mark_failed : ℕ → String → Bool → StageInfo → StageInfo
mark_failed now error late i = record i {
  status = if late then StageStatus.timed_out else StageStatus.failed;
  ended_at = some now;
  duration_s = duration_from i.started_at now i.duration_s;
  error = some (take_text 500 error);
}

unfoldable pub mark_skipped : ℕ → String → StageInfo → StageInfo
mark_skipped now reason i = record i {
  status = StageStatus.skipped;
  ended_at = some now;
  duration_s = duration_from i.started_at now i.duration_s;
  error = some (take_text 500 reason);
}
