-- ===== src/Pipeline/Success.antt =====
-- When the executors succeed, the run does.
use heyi_eval_v.Prelude.{
  ℕ, ◌+◌, ◌≡◌, refl, ◌∙◌, Bool, true, false, Option, none, List, [], ◌∷◌, arith,
}
use heyi_eval_v.Stage.{StageName, RunStatus, stages_in_order}
use heyi_eval_v.Run.{get_stage}
use heyi_eval_v.Pipeline.{
  State, Env, Stop, Execution, returned, raised, begin, visit, run_stages, finish, exec, handle,
  close, run_pipeline,
}
use heyi_eval_v.Pipeline.Visited.{visit_cases, visit-Visited}
use heyi_eval_v.Pipeline.Order.{run_stages_cases}
use heyi_eval_v.Pipeline.Begun.{begin-Begun}

abbrev pub succeeds : Execution → Bool
succeeds (returned r) = r.ok
succeeds (raised e) = false

module _ (env : Env) (good : (x : StageName) (n : ℕ) → succeeds (env.execute x n) ≡ true) where
  exec-none : (x : StageName) (s : State) → (exec env x s).0 ≡ none
  unfolding exec
  exec-none x s = ground (arith, good x ((get_stage s.run x).attempt + 1))

  visit-none : (x : StageName) (s : State) → s.run.abort_flag ≡ false → (visit env x s).0 ≡ none
  visit-none x s f =
      visit_cases (λ r. r.0 ≡ none) env x s (λ a. absurd (cc (a, f))) (λ _ _. refl)
        (λ _ _. rw (exec-none x s) (unfold handle in refl))

  run_stages-none :
      (stages : List StageName) (s : State)
      → s.run.abort_flag ≡ false
      → (run_stages env stages s).0 ≡ none
  run_stages-none [] s f = unfold run_stages in refl
  run_stages-none (x ∷ rest) s f =
      run_stages_cases (λ r. r.0 ≡ none) env x rest s (λ y e. cc (e, visit-none x s f))
        (λ e. run_stages-none rest (visit env x s).1 ((visit-Visited env x s).abort_flag ∙ f))

finish-ok :
    (env : Env) (o : Option Stop) (t : State)
    → o ≡ none
    → (finish env o t).run.status ≡ RunStatus.ok
unfolding finish close
finish-ok env o t e = rw e refl

-- If the abort flag is not set and every executor succeeds at every attempt, the run ends OK.
pub run_pipeline-succeeds :
    (env : Env) (s : State)
    → s.run.abort_flag ≡ false
    → ((x : StageName) (n : ℕ) → succeeds (env.execute x n) ≡ true)
    → (run_pipeline env s).run.status ≡ RunStatus.ok
unfolding run_pipeline
run_pipeline-succeeds env s f good =
    finish-ok env _ _
      (run_stages-none env good stages_in_order (begin s) ((begin-Begun s).abort_flag ∙ f))
