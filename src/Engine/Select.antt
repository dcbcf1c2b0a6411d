-- ===== src/Engine/Select.antt =====
-- orchestrator/stages.py: _execute_engine_select_stage and _execute_stage_model_stage, with the files
-- that they hand on: metadata.json, engine.json and stage_model.json in the run's directory.
-- The wording of reasons is an argument.
pub mod Gate
mod Samples
use Prim.Native.String.{◌++◌ as concat}
use heyi_eval_v.Prelude.{
  ℕ, ◌≡◌, Bool, true, false, not, ◌||◌, Option, none, some, List, [], ◌∷◌, map, String, ltb, ◌==◌,
  length, if◌then◌else◌,
}
use heyi_eval_v.Prelude.Codes.{Text, codes, lower}
use heyi_eval_v.Pipeline.{StageResult, or_text}
use heyi_eval_v.Engine.{Sizes, Hint, Choice, is_runnable_model_repo, pick_engine, vllm_args_hint}
use heyi_eval_v.Stager.Patterns.{Metadata, HfInfo}
use heyi_eval_v.Stager.Staging.{
  ErrorKind, World, Request, Disk, StageModelResult, ensure_model_staged,
}

-- What metadata.json says, as METADATA writes it; a file that is missing or broken says nothing.
pub record Known : Type 0 where
  pub modality : Option Text
  pub pipeline_tag : Option Text
  pub library_name : Option String
  -- the names of the files
  pub siblings : List String
  pub context_length : Option ℕ
  pub param_count : Option String
  pub hf_id : Option String

pub record Config : Type 0 where
  pub eval_gpus : List ℕ
  -- cfg.cache_quota_bytes
  pub cache_quota_bytes : Option ℕ
  -- stage_model_download_timeout_s > 0
  pub limited : Bool
  -- the directory of a model in the cache, and its path
  pub hf_local_dir : String → String
  pub target_path : String → String
  pub sizes : Sizes

-- The texts of the reasons and errors.
pub record Wording : Type 0 where
  pub not_a_model : String → List String → String
  pub oversize : ℕ → List ℕ → String
  pub staging : ErrorKind → String

-- engine.json
pub record EnginePlan : Type 0 where
  pub engine : String
  pub image : Option String
  pub fallback : Option String
  pub vllm_args : Hint
  pub eval_pool_gpus : List ℕ
  pub not_a_model : Bool
  pub oversize : Bool

abbrev text_or : Option Text → Text → Text
text_or none d = d
text_or (some []) d = d
text_or (some t) d = t

abbrev pub codes_of : Option String → Option Text
codes_of none = none
codes_of (some s) = some (codes s)

abbrev empty_hint : Hint
empty_hint = record { max_model_len = none; tensor_parallel_size = none }

abbrev skip : String → String → StageResult
skip kind reason = record {
  ok = false;
  artifacts = "_meta/engine.json" ∷ [];
  error = some (concat kind (concat ": " reason));
  aborted = true;
  reason = some reason;
}

abbrev pub hint_of : Config → Known → Hint
hint_of c k = vllm_args_hint c.sizes k.context_length (codes_of k.param_count) (codes_of k.hf_id)

-- `int((vllm_args or {}).get("tensor_parallel_size", 1) or 1)`
abbrev pub one_or : Option ℕ → ℕ
one_or none = 1
one_or (some n) = if n == 0 then 1 else n

unfoldable pub tp_size : Config → Known → ℕ
tp_size c k = one_or (hint_of c k).tensor_parallel_size

abbrev pub is_oversize : Config → Known → Bool
is_oversize c k = ltb (length c.eval_gpus) (tp_size c k)

abbrev choice_of : Known → Choice
choice_of k =
    pick_engine (lower (text_or k.modality (codes "unknown"))) (lower (text_or k.pipeline_tag []))
      (codes_of k.library_name)

-- A repository that is no model.
abbrev turned_away : Config → Wording → Known → StageResult × EnginePlan
turned_away c w k = (
  skip "not_a_model_skip" (w.not_a_model (is_runnable_model_repo k.siblings).1 k.siblings),
  record {
    engine = "metadata_only";
    image = none;
    fallback = none;
    vllm_args = empty_hint;
    eval_pool_gpus = c.eval_gpus;
    not_a_model = true;
    oversize = false;
  },
)

abbrev engine_plan : Config → Known → EnginePlan
engine_plan c k = record {
  engine = if is_oversize c k then "metadata_only" else (choice_of k).engine;
  image = some (choice_of k).image;
  fallback = (choice_of k).fallback;
  vllm_args = hint_of c k;
  eval_pool_gpus = c.eval_gpus;
  not_a_model = false;
  oversize = is_oversize c k;
}

pub execute_engine_select : Config → Wording → Known → StageResult × EnginePlan
execute_engine_select c w k =
    if not (is_runnable_model_repo k.siblings).0
    then turned_away c w k
    else if is_oversize c k
    then (skip "oversize_skip" (w.oversize (tp_size c k) c.eval_gpus), engine_plan c k)
    else (
      record {
        ok = true;
        artifacts = "_meta/engine.json" ∷ [];
        error = none;
        aborted = false;
        reason = none;
      },
      engine_plan c k,
    )

-- What the stager reads of metadata.json: no sizes stand there, and the siblings are names, where it looks
-- for dictionaries.
abbrev pub stager_metadata : Known → Metadata
stager_metadata k = record {
  hf_info = record {
    used_storage = none;
    old_used_storage = none;
    safetensors = none;
    library_name = k.library_name;
    siblings = map (λ s. none) k.siblings;
  };
  param_count = k.param_count;
  hf_id = k.hf_id;
}

-- 200 GB, unless the configuration has a quota other than 0
abbrev pub quota_of : Option ℕ → ℕ
quota_of none = 214748364800
quota_of (some n) = if n == 0 then 214748364800 else n

abbrev plan_oversize : Option EnginePlan → Bool
plan_oversize none = false
plan_oversize (some p) = p.oversize

abbrev engine_of : Option EnginePlan → Option String
engine_of none = none
engine_of (some p) = some p.engine

abbrev pub request_of : Config → String → Option EnginePlan → Known → Request
request_of c hf_id plan k = record {
  hf_id = hf_id;
  target_name = c.hf_local_dir hf_id;
  target_path = c.target_path hf_id;
  metadata = stager_metadata k;
  oversize = plan_oversize plan;
  engine = engine_of plan;
  allow_patterns = none;
  headroom_floor_bytes = 5368709120;
  limited = c.limited;
  cache_quota_bytes = some (quota_of c.cache_quota_bytes);
}

abbrev kind_text : Wording → Option ErrorKind → Option String
kind_text w none = none
kind_text w (some k) = some (w.staging k)

-- What the stage reports of a staging.
abbrev pub reported : Wording → StageModelResult → StageResult
reported w r =
    if r.ok
    then record {
      ok = true;
      artifacts = "_meta/stage_model.json" ∷ [];
      error = none;
      aborted = false;
      reason = none;
    }
    else if r.skipped
    then record {
      ok = false;
      artifacts = "_meta/stage_model.json" ∷ [];
      error = some (or_text (kind_text w r.error_kind) "stage_model skipped");
      aborted = true;
      reason = some (or_text (kind_text w r.error_kind) "stage_model skipped");
    }
    else record {
      ok = false;
      artifacts = "_meta/stage_model.json" ∷ [];
      error = some (or_text (kind_text w r.error_kind) "stage_model failed");
      aborted = false;
      reason = none;
    }

pub execute_stage_model :
    Config → Wording → World → String → Option EnginePlan → Known → Disk → StageResult × Disk
execute_stage_model c w world hf_id plan k s =
    let (r, t) = ensure_model_staged world (request_of c hf_id plan k) s in (reported w r, t)
