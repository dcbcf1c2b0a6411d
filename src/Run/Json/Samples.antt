-- ===== src/Run/Json/Samples.antt =====
-- A run that is written and read, and an instance of the theorem about that.
use heyi_eval_v.Prelude.{◌≡◌, refl, ◌++◌, none, some, List, [], ◌∷◌, String}
use heyi_eval_v.Stage.{StageName, discover, new_stage, stages_in_order, mark_started}
use heyi_eval_v.Run.{Run, new_run, set_stage}
use heyi_eval_v.Run.Json.{
  StageDoc, RunDoc, stage_docs, to_json, from_json, member_of, read_stage, read_stages,
}
use heyi_eval_v.Run.Json.Roundtrip.{from_json-to_json}

abbrev run : Run
run = set_stage discover (mark_started 7 (new_stage discover)) (new_run "r-1" "org/model" 5)

abbrev empty_doc : StageDoc
empty_doc = record {
  name = none;
  status = none;
  started_at = none;
  ended_at = none;
  duration_s = none;
  attempt = none;
  error = none;
  artifacts = none;
}

-- A stage that the code no longer has.
abbrev old_entries : List (String × StageDoc)
old_entries = ("DOWNLOAD", empty_doc) ∷ []

run-named : (s : StageName) → (run.stages s).name ≡ s
unfolding set_stage mark_started new_run
run-named discover = refl
run-named StageName.curate = refl
run-named StageName.metadata = refl
run-named StageName.engine_select = refl
run-named StageName.stage_model = refl
run-named StageName.deploy = refl
run-named StageName.ready_wait = refl
run-named StageName.capability = refl
run-named StageName.perf_bench = refl
run-named StageName.showcase = refl
run-named StageName.cleanup = refl

from_json-to_json_example :
    from_json 99
      (record (to_json run) { stages = some (old_entries ++ stage_docs run stages_in_order) })
    ≡ some run
unfolding member_of
from_json-to_json_example = from_json-to_json 99 run old_entries run-named refl

-- The keys that must be there, and those that have a default.
abbrev bare : RunDoc
bare = record {
  run_id = some "r-1";
  hf_id = some "org/model";
  status = none;
  created_at = none;
  ended_at = none;
  stages = none;
  failure_reason = none;
  abort_flag = none;
}

bare_read : from_json 5 bare ≡ some (new_run "r-1" "org/model" 5)
unfolding from_json member_of read_stages new_run
bare_read = refl

no_hf_id : from_json 5 (record bare { hf_id = none }) ≡ none
unfolding from_json
no_hf_id = refl

bad_status : from_json 5 (record bare { status = some "done" }) ≡ none
unfolding from_json member_of
bad_status = refl

bad_stage_status :
    from_json 5
      (record bare { stages = some (("DEPLOY", record empty_doc { status = some "done" }) ∷ []) })
    ≡ none
unfolding from_json member_of read_stages read_stage
bad_stage_status = refl
