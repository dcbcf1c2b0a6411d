-- ===== src/Run/Json/Roundtrip.antt =====
-- What is read back from state.json is what was written.
use heyi_eval_v.Prelude.{
  ℕ, ◌≡◌, refl, sym, false, ◌||◌, Option, none, some, List, [], ◌∷◌, ◌++◌, String, any, ◌>>=◌,
}
use heyi_eval_v.Prelude.Codes.{is_some}
use heyi_eval_v.Stage.{
  StageName, discover, curate, metadata, engine_select, stage_model, deploy, ready_wait, capability,
  perf_bench, showcase, cleanup, StageStatus, RunStatus, StageInfo, stages_in_order,
}
use heyi_eval_v.Run.{Run, new_run, set_stage}
use heyi_eval_v.Run.Json.{
  stage_value, status_value, run_status_value, member_of, stage_of, status_of, run_status_of,
  StageDoc, stage_doc, stage_docs, to_json, read_stage, read_stages, from_json,
}

stage_of-value : (s : StageName) → stage_of (stage_value s) ≡ some s
unfolding member_of
stage_of-value discover = refl
stage_of-value curate = refl
stage_of-value metadata = refl
stage_of-value engine_select = refl
stage_of-value stage_model = refl
stage_of-value deploy = refl
stage_of-value ready_wait = refl
stage_of-value capability = refl
stage_of-value perf_bench = refl
stage_of-value showcase = refl
stage_of-value cleanup = refl

status_of-value : (s : StageStatus) → status_of (status_value s) ≡ some s
unfolding member_of
status_of-value StageStatus.pending = refl
status_of-value StageStatus.in_progress = refl
status_of-value StageStatus.ok = refl
status_of-value StageStatus.failed = refl
status_of-value StageStatus.skipped = refl
status_of-value StageStatus.timed_out = refl

run_status_of-value : (s : RunStatus) → run_status_of (run_status_value s) ≡ some s
unfolding member_of
run_status_of-value RunStatus.pending = refl
run_status_of-value RunStatus.in_progress = refl
run_status_of-value RunStatus.ok = refl
run_status_of-value RunStatus.failed = refl
run_status_of-value RunStatus.aborted = refl

read_stage-doc :
    (s : StageName) (i : StageInfo) → read_stage s (stage_doc i) ≡ some (record i { name = s })
unfolding read_stage
read_stage-doc s i = rw (status_of-value i.status) refl

-- The entries of `l` are set to those of `r`.
restore : List StageName → Run → Run → Run
restore [] r q = q
restore (s ∷ l) r q = restore l r (set_stage s (record (r.stages s) { name = s }) q)

read_stages-docs :
    (l : List StageName) (r q : Run) → read_stages (stage_docs r l) q ≡ some (restore l r q)
unfolding read_stages restore
read_stages-docs [] r q = refl
read_stages-docs (s ∷ l) r q =
    rw (read_stages, stage_of-value s, read_stage-doc s (r.stages s)) (read_stages-docs l r _)

read_stages-unknown :
    (extra docs : List (String × StageDoc)) (q : Run)
    → any (λ e. is_some (stage_of e.0)) extra ≡ false
    → read_stages (extra ++ docs) q ≡ read_stages docs q
unfolding read_stages
read_stages-unknown [] docs q n = refl
read_stages-unknown ((name, d) ∷ rest) docs q n =
    passed (stage_of name) n (read_stages-unknown rest docs q)
  where
    passed :
        (o : Option StageName)
        → (is_some o || any (λ e. is_some (stage_of e.0)) rest) ≡ false
        → (any (λ e. is_some (stage_of e.0)) rest ≡ false
            → read_stages (rest ++ docs) q ≡ read_stages docs q)
        → (elim o [
          | none ↦ read_stages (rest ++ docs) q
          | some s ↦ read_stage s d >>= λ i. read_stages (rest ++ docs) (set_stage s i q)
        ])
          ≡ read_stages docs q
    passed none m h = h m
    passed (some s) m h = absurd (cc m)

renamed : (i : StageInfo) (s : StageName) → i.name ≡ s → record i { name = s } ≡ i
renamed i s e k = record i { name = (sym e) k }

restored :
    (r q : Run)
    → ((s : StageName) → (r.stages s).name ≡ s)
    → (t : StageName) → (restore stages_in_order r q).stages t ≡ r.stages t
unfolding restore set_stage
restored r q n discover = renamed _ _ (n discover)
restored r q n curate = renamed _ _ (n curate)
restored r q n metadata = renamed _ _ (n metadata)
restored r q n engine_select = renamed _ _ (n engine_select)
restored r q n stage_model = renamed _ _ (n stage_model)
restored r q n deploy = renamed _ _ (n deploy)
restored r q n ready_wait = renamed _ _ (n ready_wait)
restored r q n capability = renamed _ _ (n capability)
restored r q n perf_bench = renamed _ _ (n perf_bench)
restored r q n showcase = renamed _ _ (n showcase)
restored r q n cleanup = renamed _ _ (n cleanup)

restore_rest :
    (r q : Run)
    → ((s : StageName) → (r.stages s).name ≡ s)
    → restore stages_in_order r q ≡ record q { stages = r.stages }
unfolding restore set_stage
restore_rest r q n i = record q { stages = λ t. restored r q n t i }

-- `from_json` reads back what `to_json` wrote, whatever the time and whatever further entries of names
-- that are no stages stand in the file: the run, if each of its entries has the name of its stage.
pub from_json-to_json :
    (now : ℕ) (r : Run) (extra : List (String × StageDoc))
    → ((s : StageName) → (r.stages s).name ≡ s)
    → any (λ e. is_some (stage_of e.0)) extra ≡ false
    → from_json now (record (to_json r) { stages = some (extra ++ stage_docs r stages_in_order) })
      ≡ some r
unfolding from_json new_run
from_json-to_json now r extra n u =
    rw
      (
        run_status_of-value r.status,
        read_stages-unknown extra (stage_docs r stages_in_order) _ u,
        read_stages-docs stages_in_order r _,
        restore_rest r _ n,
      )
      refl
