-- ===== src/Engine/Select/Gate.antt =====
-- A model that ENGINE_SELECT turns away: what becomes of its run.
use heyi_eval_v.Prelude.{
  ℕ, ◌≤◌, ◌⊎◌, ◌||◌, Bool, leb, none, if◌then◌else◌, Option, [], ◌≡◌, ◌≢◌, ◌↔◌, refl, true, false,
  not, some, String, arith, if_cases, length, eq_iff,
}
use heyi_eval_v.Stage.{RunStatus, engine_select, stage_model, deploy}
use heyi_eval_v.Run.{get_stage, is_ok}
use heyi_eval_v.Pipeline.{StageResult, State, Env, returned, run_pipeline}
use heyi_eval_v.Pipeline.Success.{succeeds}
use heyi_eval_v.Pipeline.Sincere.{run_pipeline_sincere}
use heyi_eval_v.Stager.Staging.{World, Disk, skipped_by_plan, graceful, oversize_inherited}
use heyi_eval_v.Stager.Staging.Settled.{ensure_model_staged_idle}
use heyi_eval_v.Engine.{is_runnable_model_repo, size_of, vllm_args_hint, tiers, is_given}
use heyi_eval_v.Engine.Entry.{
  Entry, Devices, unknown, small, medium, large, is_runnable_model_repo_iff,
}
use heyi_eval_v.Engine.Select.{
  Known, Config, Wording, EnginePlan, tp_size, is_oversize, execute_engine_select, request_of,
  reported, execute_stage_model, codes_of, one_or,
}

-- The largest size that the parameter count names, or else the model's id.
abbrev known_size : Config → Known → Option ℕ
known_size c k = size_of c.sizes (codes_of k.param_count) (codes_of k.hf_id)

tiers-Devices : (b : ℕ) → Devices (some b) (tiers b)
tiers-Devices b =
    if_cases (Devices (some b)) (leb 65000000 b) _ _ (λ h. large (ground arith))
      (λ h.
        if_cases (Devices (some b)) (leb 28000000 b) _ _ (λ g. medium (ground arith) (ground arith))
          (λ g. small (ground arith)))

one_or-tiers : (b : ℕ) → one_or (some (tiers b)) ≡ tiers b
one_or-tiers b = ground arith

Devices-of :
    (o : Option ℕ) (x : Bool)
    → Devices o (one_or (elim o [ some b ↦ some (tiers b) | none ↦ if x then some 1 else none ]))
Devices-of none true = unknown
Devices-of none false = unknown
Devices-of (some b) x = rw (one_or-tiers b) (tiers-Devices b)

needed : (c : Config) (k : Known) → Devices (known_size c k) (tp_size c k)
unfolding tp_size vllm_args_hint
needed c k =
    Devices-of (known_size c k) (is_given (codes_of k.param_count) || is_given (codes_of k.hf_id))

only : {o : Option ℕ} {n m : ℕ} → Devices o n → Devices o m → n ≡ m
only unknown unknown = refl
only (small h) (small g) = refl
only (small h) (medium g i) = absurd (omega arith)
only (small h) (large g) = absurd (omega arith)
only (medium h i) (small g) = absurd (omega arith)
only (medium h i) (medium g j) = refl
only (medium h i) (large g) = absurd (omega arith)
only (large h) (small g) = absurd (omega arith)
only (large h) (medium g i) = absurd (omega arith)
only (large h) (large g) = refl

-- What the stage answers and the plan that it writes.
pub record Selected (c : Config) (k : Known) (r : StageResult) (p : EnginePlan) : Type 0 where
  pub passes : (r.ok ≡ true) ↔ (
      ((k.siblings ≡ []) ⊎ Entry k.siblings)
      × ((n : ℕ) × Devices (known_size c k) n × (n ≤ length c.eval_gpus)))
  pub turned_away : r.ok ≡ false → (r.aborted ≡ true) × (p.engine ≡ "metadata_only")

abbrev pub SelectedBy : Config → Known → StageResult × EnginePlan → Type 0
SelectedBy c k (r, p) = Selected c k r p

-- ENGINE_SELECT passes a model just when an inference engine can start from its files, or no files are
-- listed, and the devices that a model of its size takes (4 from 65 billion parameters on, 2 from 28 on,
-- or else 1, also where the size is not known) are no more than the pool has. Any other is skipped, with a plan for its
-- metadata only.
pub execute_engine_select-Selected :
    (c : Config) (w : Wording) (k : Known) → SelectedBy c k (execute_engine_select c w k)
unfolding execute_engine_select
execute_engine_select-Selected c w k =
    let runs = is_runnable_model_repo_iff k.siblings in
    if_cases (SelectedBy c k) (not (is_runnable_model_repo k.siblings).0) _ _
      (λ n. record {
        passes = ((λ h. absurd (cc h)), λ h. absurd (let e = runs.1 h.0 in ground arith));
        turned_away = λ _. (refl, refl);
      })
      (λ y.
        if_cases (SelectedBy c k) (is_oversize c k) _ _
          (λ o. record {
            passes = (
              (λ h. absurd (cc h)),
              λ h. absurd (let e = only (needed c k) h.1.1 in let i = h.1.2 in ground arith),
            );
            turned_away = λ _. (refl, rw o refl);
          })
          (λ o. record {
            passes = (
              (λ _. (runs.0 (ground arith), (tp_size c k, needed c k, ground arith))),
              λ _. refl,
            );
            turned_away = λ h. absurd (cc h);
          }))

no_ok : (r : StageResult) → r.ok ≡ false → (n : ℕ) → succeeds (returned r) ≡ false
no_ok r h n = h

metadata_only-skipped :
    (c : Config) (k : Known) (hf_id : String) (p : EnginePlan)
    → p.engine ≡ "metadata_only"
    → skipped_by_plan (request_of c hf_id (some p) k) ≡ true
metadata_only-skipped c k hf_id p e = ground (arith, eq_iff p.engine "metadata_only")

staging_skipped :
    (c : Config) (w : Wording) (k : Known) (hf_id : String) (world : World) (p : EnginePlan)
    (d : Disk)
    → p.engine ≡ "metadata_only"
    → execute_stage_model c w world hf_id (some p) k d
      ≡ (reported w (graceful oversize_inherited), d)
unfolding execute_stage_model
staging_skipped c w k hf_id world p d e =
    let s = metadata_only-skipped c k hf_id p e in
    let idle = ensure_model_staged_idle world (request_of c hf_id (some p) k) d (rw s refl) in
    rw (idle, s) refl

-- A model that ENGINE_SELECT does not pass: whatever the other stages would do, its run does not end OK,
-- and STAGE_MODEL and DEPLOY are not executed; and if STAGE_MODEL were executed with the plan that was
-- written, it would be skipped, with nothing downloaded, evicted or removed.
pub turned_away_lem :
    (c : Config) (w : Wording) (k : Known) (env : Env) (s : State) (world : World) (d : Disk)
    → env.stub_only ≡ false
    → ((n : ℕ) → env.execute engine_select n ≡ returned (execute_engine_select c w k).0)
    → (execute_engine_select c w k).0.ok ≡ false
    → is_ok (get_stage s.run engine_select).status ≡ false
    → ((run_pipeline env s).run.status ≢ RunStatus.ok)
      × ((get_stage (run_pipeline env s).run stage_model).attempt
          ≡ (get_stage s.run stage_model).attempt)
      × ((get_stage (run_pipeline env s).run deploy).attempt ≡ (get_stage s.run deploy).attempt)
      × (execute_stage_model c w world s.run.hf_id (some (execute_engine_select c w k).1) k d
          ≡ (reported w (graceful oversize_inherited), d))
turned_away_lem c w k env s world d real answers h before =
    let never : ((n : ℕ) → succeeds (env.execute engine_select n) ≡ false) =
      λ n. rw (answers n) h in
    let (out, status, later) =
      run_pipeline_sincere env s engine_select real never (λ e. cc e) before in
    (
      status,
      later stage_model (omega arith) (λ e. cc e),
      later deploy (omega arith) (λ e. cc e),
      staging_skipped c w k s.run.hf_id world _ d
          ((execute_engine_select-Selected c w k).turned_away h).1,
    )
