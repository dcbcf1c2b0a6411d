-- ===== src/Pipeline/Sincere.antt =====
-- A stage is OK only by its executor.
use heyi_eval_v.Prelude.{
  ℕ, ◌+◌, ◌<◌, ◌≡◌, ◌≢◌, ap, sym, subst, ◌∙◌, false, Option, none, some, List, [], ◌∷◌, arith,
  Bool-cases, inl, inr, String,
}
use heyi_eval_v.Stage.{
  StageName, RunStatus, stage_eq, stage_eq_iff, stages_in_order, cleanup, place,
}
use heyi_eval_v.Run.{get_stage, is_ok}
use heyi_eval_v.Pipeline.{
  State, Env, Exn, Stop, returns, breaks, graceful_skip, crash, validation_error, other_error,
  begin, visit, run_stages, finish, exec, handle, close, ensure_failed, run_pipeline,
}
use heyi_eval_v.Pipeline.Executed.{no_exn, exec-Executed}
use heyi_eval_v.Pipeline.Visited.{
  NotOk, visit_cases, visit-Visited, abandon-Abandoned, best_effort_cleanup-Cleaned,
}
use heyi_eval_v.Pipeline.Order.{run_stages_cases}
use heyi_eval_v.Pipeline.Begun.{begin-Begun}
use heyi_eval_v.Pipeline.Outcome.{run_pipeline_complete, run_pipeline-in_order}
use heyi_eval_v.Pipeline.Success.{succeeds}

ensure_failed-NotOk :
    (env : Env) (at x : StageName) (m : String) (s : State)
    → NotOk x s
    → NotOk x (ensure_failed env at m s)
unfolding ensure_failed
ensure_failed-NotOk env at x m s h = ground (arith, stage_eq_iff at x)

module _ (env : Env) (x : StageName) (real : env.stub_only ≡ false)
    (never : (n : ℕ) → succeeds (env.execute x n) ≡ false)
    (other : stage_eq cleanup x ≡ false) where
  exec-raises : (s : State) → no_exn (exec env x s).0 ≡ false
  unfolding exec
  exec-raises s = ground (arith, real, never ((get_stage s.run x).attempt + 1))

  exec-NotOk : (s : State) → NotOk x (exec env x s).1
  exec-NotOk s = (exec-Executed env x s).outcome ∙ exec-raises s

  handle-NotOk : (e : Option Exn) (t : State) → NotOk x t → NotOk x (handle env x e t).1
  unfolding handle
  handle-NotOk none t h = h
  handle-NotOk (some (graceful_skip at reason)) t h =
      ap (λ i. is_ok i.status) ((abandon-Abandoned env at reason t).others x other) ∙ h
  handle-NotOk (some (crash (validation_error m))) t h = ensure_failed-NotOk env x x _ t h
  handle-NotOk (some (crash (other_error k m))) t h = ensure_failed-NotOk env x x _ t h

  visit_self : (s : State) → NotOk x s → NotOk x (visit env x s).1
  visit_self s h =
      visit_cases (λ r. NotOk x r.1) env x s (λ _. unfold close in h) (λ _ _. h)
        (λ _ _. handle-NotOk (exec env x s).0 (exec env x s).1 (exec-NotOk s))

  visit-NotOk : (y : StageName) (s : State) → NotOk x s → NotOk x (visit env y s).1
  visit-NotOk y s h = elim (Bool-cases (stage_eq y x)) [
    | inl e ↦
        let same : x ≡ y = sym ((stage_eq_iff y x).0 e) in
        subst (λ z. NotOk x (visit env z s).1) same (visit_self s h)
    | inr n ↦ ap (λ i. is_ok i.status) ((visit-Visited env y s).others x n other) ∙ h
  ]

  run_stages-NotOk :
      (stages : List StageName) (s : State) → NotOk x s → NotOk x (run_stages env stages s).1
  run_stages-NotOk [] s h = unfold run_stages in h
  run_stages-NotOk (y ∷ rest) s h =
      run_stages_cases (λ r. NotOk x r.1) env y rest s (λ _ _. visit-NotOk y s h)
        (λ _. run_stages-NotOk rest (visit env y s).1 (visit-NotOk y s h))

  finish-NotOk : (o : Option Stop) (t : State) → NotOk x t → NotOk x (finish env o t)
  unfolding finish close
  finish-NotOk none t h = h
  finish-NotOk (some returns) t h = h
  finish-NotOk (some (breaks at m)) t h =
      ap (λ i. is_ok i.status) ((best_effort_cleanup-Cleaned env _ t).others x other) ∙ h

  pipeline-NotOk : (s : State) → NotOk x s → NotOk x (run_pipeline env s)
  unfolding run_pipeline
  pipeline-NotOk s h =
      finish-NotOk _ _ (run_stages-NotOk stages_in_order (begin s) ((begin-Begun s).same_ok x ∙ h))

-- A stage other than CLEANUP whose executor never succeeds, and that is not OK from an earlier run, is
-- not OK at the end; so the run does not end OK, and no later stage but CLEANUP is executed.
pub run_pipeline_sincere :
    (env : Env) (s : State) (x : StageName)
    → env.stub_only ≡ false
    → ((n : ℕ) → succeeds (env.execute x n) ≡ false)
    → x ≢ cleanup
    → is_ok (get_stage s.run x).status ≡ false
    → (is_ok (get_stage (run_pipeline env s).run x).status ≡ false)
      × ((run_pipeline env s).run.status ≢ RunStatus.ok)
      × ((y : StageName)
          → place x < place y
          → y ≢ cleanup
          → (get_stage (run_pipeline env s).run y).attempt ≡ (get_stage s.run y).attempt)
run_pipeline_sincere env s x real never n h =
    let other : stage_eq cleanup x ≡ false = ground (arith, stage_eq_iff cleanup x, n) in
    let out = pipeline-NotOk env x real never other s h in
    (
      out,
      λ e. cc (out, run_pipeline_complete env s x e),
      λ y lt m. run_pipeline-in_order env s x y lt out m,
    )
