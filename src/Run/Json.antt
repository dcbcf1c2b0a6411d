-- ===== src/Run/Json.antt =====
-- orchestrator/state_machine.py: Run.to_json and Run.from_json, which write and read state.json.
-- A document has the keys that the code reads, each there or missing, with values of the fields' types;
-- a null is an inner `none`. `none` as the answer is the KeyError or ValueError of `from_json`.
pub mod Roundtrip
mod Samples
use heyi_eval_v.Prelude.{
  ℕ, Bool, false, Option, none, some, List, [], ◌∷◌, map, String, str_eq, ◌>>=◌, if◌then◌else◌,
}
use heyi_eval_v.Prelude.Int.{ℤ}
use heyi_eval_v.Stage.{
  StageName, discover, curate, metadata, engine_select, stage_model, deploy, ready_wait, capability,
  perf_bench, showcase, cleanup, StageStatus, RunStatus, StageInfo, stages_in_order,
}
use heyi_eval_v.Run.{Run, new_run, set_stage}

-- The values of the Enum classes.
abbrev pub stage_value : StageName → String
stage_value discover = "DISCOVER"
stage_value curate = "CURATE"
stage_value metadata = "METADATA"
stage_value engine_select = "ENGINE_SELECT"
stage_value stage_model = "STAGE_MODEL"
stage_value deploy = "DEPLOY"
stage_value ready_wait = "READY_WAIT"
stage_value capability = "CAPABILITY"
stage_value perf_bench = "PERF_BENCH"
stage_value showcase = "SHOWCASE"
stage_value cleanup = "CLEANUP"

abbrev pub status_value : StageStatus → String
status_value StageStatus.pending = "pending"
status_value StageStatus.in_progress = "in_progress"
status_value StageStatus.ok = "ok"
status_value StageStatus.failed = "failed"
status_value StageStatus.skipped = "skipped"
status_value StageStatus.timed_out = "timed_out"

abbrev pub run_status_value : RunStatus → String
run_status_value RunStatus.pending = "pending"
run_status_value RunStatus.in_progress = "in_progress"
run_status_value RunStatus.ok = "ok"
run_status_value RunStatus.failed = "failed"
run_status_value RunStatus.aborted = "aborted"

-- The member of an Enum class with this value; `none` is the ValueError.
pub member_of {ℓ} : {A : Type ℓ} → (A → String) → List A → String → Option A
member_of value [] s = none
member_of value (x ∷ rest) s =
    let found = member_of value rest s in if str_eq (value x) s then some x else found

abbrev pub stage_of : String → Option StageName
stage_of = member_of stage_value stages_in_order

abbrev pub status_of : String → Option StageStatus
status_of = member_of status_value (
    StageStatus.pending ∷ StageStatus.in_progress ∷ StageStatus.ok ∷ StageStatus.failed
    ∷ StageStatus.skipped ∷ StageStatus.timed_out ∷ [])

abbrev pub run_status_of : String → Option RunStatus
run_status_of = member_of run_status_value (
    RunStatus.pending ∷ RunStatus.in_progress ∷ RunStatus.ok ∷ RunStatus.failed ∷ RunStatus.aborted
    ∷ [])

pub record StageDoc : Type 0 where
  pub name : Option String
  pub status : Option String
  pub started_at : Option (Option ℕ)
  pub ended_at : Option (Option ℕ)
  pub duration_s : Option (Option ℤ)
  pub attempt : Option ℕ
  pub error : Option (Option String)
  pub artifacts : Option (List String)

pub record RunDoc : Type 0 where
  pub run_id : Option String
  pub hf_id : Option String
  pub status : Option String
  pub created_at : Option ℕ
  pub ended_at : Option (Option ℕ)
  pub stages : Option (List (String × StageDoc))
  pub failure_reason : Option (Option String)
  pub abort_flag : Option Bool

-- `{k: (v.value if isinstance(v, Enum) else v) for k, v in asdict(info).items()}`
abbrev pub stage_doc : StageInfo → StageDoc
stage_doc i = record {
  name = some (stage_value i.name);
  status = some (status_value i.status);
  started_at = some i.started_at;
  ended_at = some i.ended_at;
  duration_s = some i.duration_s;
  attempt = some i.attempt;
  error = some i.error;
  artifacts = some i.artifacts;
}

-- The entries in the order of `__post_init__`.
abbrev pub stage_docs : Run → List StageName → List (String × StageDoc)
stage_docs r = map (λ s. (stage_value s, stage_doc (r.stages s)))

abbrev pub to_json : Run → RunDoc
to_json r = record {
  run_id = some r.run_id;
  hf_id = some r.hf_id;
  status = some (run_status_value r.status);
  created_at = some r.created_at;
  ended_at = some r.ended_at;
  stages = some (stage_docs r stages_in_order);
  failure_reason = some r.failure_reason;
  abort_flag = some r.abort_flag;
}

-- `d.get(key, default)`
abbrev pub get_or {ℓ} : {A : Type ℓ} → Option A → A → A
get_or none default = default
get_or (some x) default = x

-- The entry of the stage that a document gives, whatever name the document has.
unfoldable pub read_stage : StageName → StageDoc → Option StageInfo
read_stage s d = do
  status ← status_of (get_or d.status "pending")
  some (record {
    name = s;
    status = status;
    started_at = get_or d.started_at none;
    ended_at = get_or d.ended_at none;
    duration_s = get_or d.duration_s none;
    attempt = get_or d.attempt 0;
    error = get_or d.error none;
    artifacts = get_or d.artifacts [];
  })

-- `for name, info_d in stages_raw.items()`: a name that is no stage is passed over.
pub read_stages : List (String × StageDoc) → Run → Option Run
read_stages [] r = some r
read_stages ((name, d) ∷ rest) r = elim (stage_of name) [
  | none ↦ read_stages rest r
  | some s ↦ do i ← read_stage s d; read_stages rest (set_stage s i r)
]

pub from_json : ℕ → RunDoc → Option Run
from_json now d = do
  run_id ← d.run_id
  hf_id ← d.hf_id
  status ← run_status_of (get_or d.status "pending")
  read_stages (get_or d.stages []) (record (new_run run_id hf_id (get_or d.created_at now)) {
    status = status;
    ended_at = get_or d.ended_at none;
    failure_reason = get_or d.failure_reason none;
    abort_flag = get_or d.abort_flag false;
  })
