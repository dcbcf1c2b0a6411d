-- ===== src/Cleanup.antt =====
-- orchestrator/stages_py.py: execute_cleanup, the stage that removes the containers of a run. What the
-- docker daemon answers is an argument; an exception that is no DockerException is not modelled.
pub mod Safe
mod Samples
use heyi_eval_v.Prelude.{
  Bool, true, false, not, ◌&&◌, Option, none, some, List, [], ◌∷◌, ◌++◌, String, str_eq,
  if◌then◌else◌,
}
use heyi_eval_v.Prelude.Codes.{Text, codes, starts_with}
use heyi_eval_v.Pipeline.{StageResult}

-- A container of a listing: its name, and its label heyi_eval_run.
pub record Container : Type 0 where
  pub name : Text
  pub run : Option String

pub data Listing : Type 0 where
  listed : List Container → Listing
  refused : String → Listing

-- The answers to `c.remove(force=True)`, and to the second attempt.
pub data Reply : Type 0 where
  done not_found api_error : Reply

pub data Retry : Type 0 where
  done_at_last : Retry
  docker_error : String → Retry

pub record Daemon : Type 0 where
  -- the text of the StagePyError of `_docker_client`, if it raises
  pub unreachable : Option String
  -- the containers with the run's label, and all of them
  pub candidates : Listing
  pub everything : Listing
  pub remove : Text → Reply
  pub remove_again : Text → Retry

pub data Note : Type 0 where
  dry_run stopped vanished_before_remove removed_after_retry : Note

-- The lists of cleanup.json, and, newest first, the names that the daemon was asked to remove.
pub record Cleaning : Type 0 where
  pub removed : List (Text × Note)
  pub skipped : List Text
  pub failed : List (Text × String)
  pub asked : List Text

pub record Payload : Type 0 where
  pub cleaning : Cleaning
  pub orphans : List Text

abbrev pub e9_prefix : Text
e9_prefix = codes "e9-"

pub is_e9 : Text → Bool
is_e9 n = starts_with e9_prefix n

abbrev pub note : Text → Note → Cleaning → Cleaning
note n k s = record s { removed = s.removed ++ (n, k) ∷ [] }

pub again : Text → Retry → Cleaning → Cleaning
again n done_at_last s = note n removed_after_retry (record s { asked = n ∷ s.asked })
again n (docker_error e) s = record s { failed = s.failed ++ (n, e) ∷ []; asked = n ∷ s.asked }

pub answered : Daemon → Text → Reply → Cleaning → Cleaning
unfolding again
answered d n done s = note n stopped s
answered d n not_found s = note n vanished_before_remove s
answered d n api_error s = again n (d.remove_again n) s

pub clean_one : Daemon → Bool → Text → Cleaning → Cleaning
unfolding answered
clean_one d dry n s =
    if not (is_e9 n)
    then record s { skipped = s.skipped ++ n ∷ [] }
    else if dry
    then note n dry_run s
    else answered d n (d.remove n) (record s { asked = n ∷ s.asked })

pub clean_all : Daemon → Bool → List Container → Cleaning → Cleaning
unfolding clean_one
clean_all d dry [] s = s
clean_all d dry (c ∷ rest) s = clean_all d dry rest (clean_one d dry c.name s)

abbrev unlabelled : Option String → Bool
unlabelled none = true
unlabelled (some r) = false

-- Containers of the prefix without a label are told of and left alone.
pub orphans_of : List Container → List Text
orphans_of [] = []
orphans_of (c ∷ rest) =
    let found = orphans_of rest in
    if is_e9 c.name && unlabelled c.run then c.name ∷ found else found

abbrev orphans_in : Listing → List Text
orphans_in (listed l) = orphans_of l
orphans_in (refused e) = []

abbrev is_nil : List (Text × String) → Bool
is_nil [] = true
is_nil (x ∷ rest) = false

abbrev failure : String → StageResult
failure error = record {
  ok = false;
  artifacts = [];
  error = some error;
  aborted = false;
  reason = none;
}

-- The error text stands without the number of the containers.
abbrev pub verdict_of : Cleaning → StageResult
verdict_of s = record {
  ok = is_nil s.failed;
  artifacts = "cleanup.json" ∷ "_meta/cleanup.json" ∷ [];
  error = if is_nil s.failed then none else some "container(s) failed to remove";
  aborted = false;
  reason = none;
}

abbrev pub no_cleaning : Cleaning
no_cleaning = record { removed = []; skipped = []; failed = []; asked = [] }

pub clean_listing : Daemon → Bool → Listing → StageResult × Option Payload
unfolding clean_all orphans_of
clean_listing d dry (refused e) = (failure e, none)
clean_listing d dry (listed l) =
    let s = clean_all d dry l no_cleaning in
    (verdict_of s, some (record { cleaning = s; orphans = orphans_in d.everything }))

-- The result, and what stands in cleanup.json if it is written.
pub execute_cleanup : Bool → Daemon → StageResult × Option Payload
unfolding clean_listing
execute_cleanup dry d = elim d.unreachable [
  | none ↦ clean_listing d dry d.candidates
  | some e ↦ (failure e, none)
]
