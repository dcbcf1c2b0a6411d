-- ===== src/Store/Samples.antt =====
-- A store with two runs, and instances of the theorems about stores.
use heyi_eval_v.Prelude.{◌≡◌, refl, some, [], str_eq, if◌then◌else◌}
use heyi_eval_v.Stage.{RunStatus}
use heyi_eval_v.Run.{Run, new_run}
use heyi_eval_v.Store.{Store, save_run, get_run}
use heyi_eval_v.Store.Agreement.{Agrees, save_run-Agrees, get_run-save_run, index_entry}

abbrev empty : Store
empty = record { rows = []; files = []; queue = [] }

abbrev older : Run
older = record (new_run "r-1" "org/a" 10) { status = RunStatus.in_progress }

abbrev newer : Run
newer = new_run "r-2" "org/b" 20

empty-Agrees : Agrees empty
unfolding index_entry get_run
empty-Agrees k = refl

save_run-Agrees_example : Agrees (save_run older empty)
save_run-Agrees_example = save_run-Agrees older empty empty-Agrees

get_run-save_run_example :
    get_run "r-1" (save_run newer (save_run older empty))
    ≡ (if str_eq newer.run_id "r-1" then some newer else get_run "r-1" (save_run older empty))
get_run-save_run_example = get_run-save_run newer "r-1" (save_run older empty)
