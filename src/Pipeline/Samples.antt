-- ===== src/Pipeline/Samples.antt =====
-- Runs of the model pipeline at concrete inputs.
use heyi_eval_v.Prelude.{
  ◌*◌, ◌<◌, ◌≡◌, ◌≢◌, refl, true, false, none, some, [], ◌∷◌, arith, ◌⊎◌, if◌then◌else◌,
}
use heyi_eval_v.Stage.{StageName, RunStatus, place, stage_eq, deploy, capability, discover, cleanup}
use heyi_eval_v.Run.{get_stage, is_ok, new_run, needs_full_restart}
use heyi_eval_v.Pipeline.{
  State, Env, Event, StageResult, returned, raised, other_error, run_started, run_pipeline, begin,
  run_stages, visit, exec, handle, finish, close, best_effort_cleanup, reset_stages,
}
use heyi_eval_v.Pipeline.Ended.{CleanedUp}
use heyi_eval_v.Pipeline.Outcome.{
  announces, run_pipeline-keeps_ok, run_pipeline-in_order, run_pipeline-announces,
  run_pipeline-cleans_up, run_pipeline_complete, run_pipeline-flagged, last_save-run_pipeline,
}
use heyi_eval_v.Pipeline.Executed.{last_save}
use heyi_eval_v.Pipeline.Sincere.{run_pipeline_sincere}
use heyi_eval_v.Pipeline.Success.{run_pipeline-succeeds}

abbrev good_result : StageResult
good_result = record {
  ok = true;
  artifacts = "a.json" ∷ [];
  error = none;
  aborted = false;
  reason = none;
}

abbrev good_env : Env
good_env = record {
  clock = λ n. 100 * n;
  execute = λ x n. returned good_result;
  pass_rate = some 500000;
  impression = none;
  stub_only = false;
}

-- DEPLOY crashes at its first attempt.
abbrev bad_env : Env
bad_env = record good_env {
  execute = λ x n.
      if stage_eq x deploy
      then raised (other_error "RuntimeError" "boom")
      else returned good_result;
}

abbrev fresh : State
fresh = record { run = new_run "r-1" "org/model" 7; reads = 0; saves = []; events = [] }

abbrev flagged : State
flagged = record fresh { run = record fresh.run { abort_flag = true } }

fresh_deploy : is_ok (get_stage fresh.run deploy).status ≡ false
unfolding new_run
fresh_deploy = refl

fresh_flag : fresh.run.abort_flag ≡ false
unfolding new_run
fresh_flag = refl

-- The failed run, to be taken up again by an environment that has been mended.
abbrev resumed : State
resumed = run_pipeline bad_env fresh

-- The first run fails at DEPLOY, and keeps what came before it.
deploy_fails :
    (is_ok (get_stage resumed.run deploy).status ≡ false)
    × (is_ok (get_stage resumed.run discover).status ≡ true)
    × (resumed.run.status ≡ RunStatus.failed)
unfolding run_pipeline begin run_stages visit exec handle finish close best_effort_cleanup
    reset_stages needs_full_restart new_run
deploy_fails = (refl, refl, refl)

last_save-run_pipeline_example :
    last_save (run_pipeline bad_env fresh).saves ≡ some (run_pipeline bad_env fresh).run
last_save-run_pipeline_example = last_save-run_pipeline bad_env fresh

run_pipeline-keeps_ok_example :
    get_stage (run_pipeline good_env resumed).run discover ≡ get_stage resumed.run discover
run_pipeline-keeps_ok_example = run_pipeline-keeps_ok good_env resumed discover deploy_fails.1

run_pipeline-in_order_example :
    (get_stage (run_pipeline bad_env fresh).run capability).attempt
    ≡ (get_stage fresh.run capability).attempt
run_pipeline-in_order_example =
    run_pipeline-in_order bad_env fresh deploy capability (omega arith) deploy_fails.0 (λ e. cc)

run_pipeline-announces_example :
    (e : Event) × ((run_pipeline bad_env fresh).events ≡ e ∷ run_started ∷ fresh.events)
    × (announces e (run_pipeline bad_env fresh).run.status ≡ true)
run_pipeline-announces_example = run_pipeline-announces bad_env fresh fresh_flag

run_pipeline-cleans_up_example :
    ((run_pipeline bad_env fresh).run.status ≡ RunStatus.ok)
    ⊎ CleanedUp fresh (run_pipeline bad_env fresh)
run_pipeline-cleans_up_example = run_pipeline-cleans_up bad_env fresh fresh_flag

run_pipeline-succeeds_example : (run_pipeline good_env fresh).run.status ≡ RunStatus.ok
run_pipeline-succeeds_example = run_pipeline-succeeds good_env fresh fresh_flag (λ x n. refl)

run_pipeline_complete_example :
    is_ok (get_stage (run_pipeline good_env fresh).run cleanup).status ≡ true
run_pipeline_complete_example =
    run_pipeline_complete good_env fresh cleanup
      (run_pipeline-succeeds good_env fresh fresh_flag (λ x n. refl))

run_pipeline-flagged_example :
    ((run_pipeline good_env flagged).run.status ≡ RunStatus.aborted)
    × ((x : StageName)
        → (get_stage (run_pipeline good_env flagged).run x).attempt
          ≡ (get_stage flagged.run x).attempt)
    × ((run_pipeline good_env flagged).events ≡ run_started ∷ flagged.events)
run_pipeline-flagged_example = run_pipeline-flagged good_env flagged refl

-- DEPLOY never succeeds.
run_pipeline_sincere_example :
    (is_ok (get_stage (run_pipeline bad_env fresh).run deploy).status ≡ false)
    × ((run_pipeline bad_env fresh).run.status ≢ RunStatus.ok)
    × ((y : StageName)
        → place deploy < place y
        → y ≢ cleanup
        → (get_stage (run_pipeline bad_env fresh).run y).attempt ≡ (get_stage fresh.run y).attempt)
run_pipeline_sincere_example =
    run_pipeline_sincere bad_env fresh deploy refl (λ n. refl) (λ e. cc e) fresh_deploy
