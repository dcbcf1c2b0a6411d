-- ===== src/Engine/Select/Samples.antt =====
-- Models that are chosen an engine for, or turned away, and instances of the theorems about that.
use heyi_eval_v.Prelude.{◌≡◌, ◌≢◌, refl, true, false, none, some, [], ◌∷◌}
use heyi_eval_v.Prelude.Codes.{codes, ends_with, contains}
use heyi_eval_v.Stage.{RunStatus, engine_select, stage_model, deploy}
use heyi_eval_v.Run.{get_stage, is_ok, new_run}
use heyi_eval_v.Pipeline.{State, Env, returned, run_pipeline}
use heyi_eval_v.Stager.{removed}
use heyi_eval_v.Stager.Staging.{World, Disk, path, graceful, oversize_inherited}
use heyi_eval_v.Engine.{
  is_runnable_model_repo, path_name, pick_engine, pipeline_to_modalities, license_from_tags,
  vllm_args_hint, transformers, largest,
}
use heyi_eval_v.Engine.Select.{
  Known, Config, Wording, execute_engine_select, execute_stage_model, reported, tp_size,
}
use heyi_eval_v.Engine.Select.Gate.{SelectedBy, execute_engine_select-Selected, turned_away_lem}

abbrev config : Config
config = record {
  eval_gpus = 5 ∷ 6 ∷ 7 ∷ [];
  cache_quota_bytes = none;
  limited = true;
  hf_local_dir = λ s. s;
  target_path = λ s. s;
  sizes = λ t. (405000000, false) ∷ (1000000, true) ∷ [];
}

abbrev wording : Wording
wording = record {
  not_a_model = λ why l. "not_a_model";
  oversize = λ n l. "oversize";
  staging = λ k. "staging";
}

abbrev known : Known
known = record {
  modality = some (codes "Text");
  pipeline_tag = some (codes "text-generation");
  library_name = none;
  siblings = "config.json" ∷ "model.safetensors" ∷ [];
  context_length = some 131072;
  param_count = some "405B";
  hf_id = some "meta/Llama-405B";
}

execute_engine_select-Selected_example :
    SelectedBy config known (execute_engine_select config wording known)
execute_engine_select-Selected_example = execute_engine_select-Selected config wording known

four_devices : tp_size config known ≡ 4
unfolding tp_size vllm_args_hint largest
four_devices = refl

-- Four devices are needed where there are three.
too_large : (execute_engine_select config wording known).0.ok ≡ false
unfolding execute_engine_select tp_size vllm_args_hint largest is_runnable_model_repo path_name
too_large = refl

abbrev env : Env
env = record {
  clock = λ n. n;
  execute = λ x n. returned (execute_engine_select config wording known).0;
  pass_rate = none;
  impression = none;
  stub_only = false;
}

abbrev fresh : State
fresh = record { run = new_run "r-1" "meta/Llama-405B" 7; reads = 0; saves = []; events = [] }

fresh_stage : is_ok (get_stage fresh.run engine_select).status ≡ false
unfolding new_run
fresh_stage = refl

abbrev world : World
world = record {
  fetch = λ ps. path none;
  late = false;
  fetched = λ ps. none;
  rmtree = λ d. removed;
  at = λ p. none;
  rmdir = true;
  symlink = true;
  free = λ n. 500;
  fnmatch = λ name p. true;
  fp16_bytes = λ t. none;
  scale = λ n. n;
  now = 9000;
  state_files = [];
  cache_dirs = none;
  removes = λ name. true;
}

abbrev disk : Disk
disk = record { target = none; downloads = 0; evicted = [] }

turned_away_lem_example :
    ((run_pipeline env fresh).run.status ≢ RunStatus.ok)
    × ((get_stage (run_pipeline env fresh).run stage_model).attempt
        ≡ (get_stage fresh.run stage_model).attempt)
    × ((get_stage (run_pipeline env fresh).run deploy).attempt
        ≡ (get_stage fresh.run deploy).attempt)
    × (execute_stage_model config wording world fresh.run.hf_id
          (some (execute_engine_select config wording known).1)
          known
          disk
        ≡ (reported wording (graceful oversize_inherited), disk))
turned_away_lem_example =
    turned_away_lem config wording known env fresh world disk refl (λ n. refl) too_large fresh_stage

voices : (is_runnable_model_repo ("voices/a.pt" ∷ "README.md" ∷ [])).0 ≡ false
unfolding is_runnable_model_repo path_name contains ends_with
voices = refl

starflow : (is_runnable_model_repo ("tokenizer.model" ∷ "ckpt/w.pth" ∷ [])).0 ≡ true
unfolding is_runnable_model_repo path_name contains ends_with
starflow = refl

-- The tag goes before the modality.
speech :
    pick_engine (codes "text") (codes " Text-To-Speech ") none
    ≡ transformers (codes "audio pipeline_tag=text-to-speech")
unfolding pick_engine
speech = refl

untagged : (pick_engine (codes "audio") [] none).engine ≡ "transformers"
unfolding pick_engine
untagged = refl

licensed :
    license_from_tags (none ∷ some (codes "en") ∷ some (codes "license:mit:x") ∷ [])
    ≡ some (codes "mit:x")
unfolding license_from_tags
licensed = refl

video : pipeline_to_modalities (codes "Video-To-Text") ≡ "text" ∷ "video" ∷ []
unfolding pipeline_to_modalities
video = refl
