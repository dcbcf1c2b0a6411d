-- ===== src/Store.antt =====
-- orchestrator/store.py, and load_state and scan_recoverable_runs of orchestrator/state_machine.py.
-- A state.json file holds the run that was written to it; the files stand in a list, one for a run.
use heyi_eval_v.Prelude.{
  ℕ, ◌+◌, Bool, true, false, Option, none, some, List, [], ◌∷◌, String, str_eq, leb, take,
  if◌then◌else◌,
}
use heyi_eval_v.Stage.{RunStatus}
use heyi_eval_v.Run.{Run}
pub mod Agreement
mod Samples

-- A row of the table `runs`; `last_state_path` is a function of `run_id` and is left out.
pub record Row : Type 0 where
  pub run_id : String
  pub hf_id : String
  pub status : RunStatus
  pub created_at : ℕ
  pub ended_at : Option ℕ
  pub failure_reason : Option String

-- A line of queue.jsonl: an entry, an empty line, or one that json.loads refuses.
pub data Line : Type 0 where
  entry : String → String → Line
  blank broken : Line

pub record Store : Type 0 where
  pub rows : List Row
  pub files : List Run
  pub queue : List Line

-- `INSERT ... ON CONFLICT(run_id) DO UPDATE SET status, ended_at, failure_reason`
pub upsert : Run → List Row → List Row
upsert r [] =
    record {
      run_id = r.run_id;
      hf_id = r.hf_id;
      status = r.status;
      created_at = r.created_at;
      ended_at = r.ended_at;
      failure_reason = r.failure_reason;
    }
    ∷ []
upsert r (x ∷ rest) =
    if str_eq x.run_id r.run_id
    then record x { status = r.status; ended_at = r.ended_at; failure_reason = r.failure_reason }
      ∷ rest
    else x ∷ upsert r rest

-- `save_state`: the file of the run is replaced.
pub write_file : Run → List Run → List Run
write_file r [] = r ∷ []
write_file r (x ∷ rest) = if str_eq x.run_id r.run_id then r ∷ rest else x ∷ write_file r rest

unfoldable pub save_run : Run → Store → Store
unfolding upsert write_file
save_run r s = record s { rows = upsert r s.rows; files = write_file r s.files }

-- `load_state`
unfoldable pub load_state : String → List Run → Option Run
load_state k [] = none
load_state k (x ∷ rest) = if str_eq x.run_id k then some x else load_state k rest

unfoldable pub get_run : String → Store → Option Run
unfolding load_state
get_run k s = load_state k s.files

abbrev pub is_in_progress : RunStatus → Bool
is_in_progress RunStatus.in_progress = true
is_in_progress _ = false

pub scan_recoverable : List Run → List Run
scan_recoverable [] = []
scan_recoverable (x ∷ rest) =
    let found = scan_recoverable rest in if is_in_progress x.status then x ∷ found else found

unfoldable pub recover_in_progress : Store → List Run
unfolding scan_recoverable
recover_in_progress s = scan_recoverable s.files

-- `ORDER BY created_at DESC`; rows of the same time stay in the table's order.
unfoldable pub insert_row : Row → List Row → List Row
insert_row r [] = r ∷ []
insert_row r (x ∷ rest) =
    if leb x.created_at r.created_at then r ∷ x ∷ rest else x ∷ insert_row r rest

unfoldable pub by_created : List Row → List Row
unfolding insert_row
by_created [] = []
by_created (x ∷ rest) = insert_row x (by_created rest)

unfoldable pub with_status : (RunStatus → Bool) → List Row → List Row
with_status p [] = []
with_status p (x ∷ rest) = let found = with_status p rest in if p x.status then x ∷ found else found

unfoldable pub list_runs : ℕ → Store → List Row
unfolding by_created
list_runs limit s = take limit (by_created s.rows)

-- list_runs(status=..., limit=...)
unfoldable pub list_runs_with : (RunStatus → Bool) → ℕ → Store → List Row
unfolding by_created with_status
list_runs_with p limit s = take limit (by_created (with_status p s.rows))
