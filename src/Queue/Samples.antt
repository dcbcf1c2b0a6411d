-- ===== src/Queue/Samples.antt =====
-- A queue with one model, an orphaned run, and instances of the theorems about the queue.
use heyi_eval_v.Prelude.{◌≡◌, ◌≢◌, refl, true, false, none, some, List, [], ◌∷◌, String, eq_iff}
use heyi_eval_v.Store.{Store, Line, entry, broken, list_runs, by_created}
use heyi_eval_v.Queue.{
  enqueue, is_plain, written, in_queue, in_progress, has_recent_successful_run,
  has_recent_failed_run, last_failed,
}
use heyi_eval_v.Queue.Guards.{enqueue_twice}

abbrev empty : Store
empty = record { rows = []; files = []; queue = [] }

abbrev waiting : Store
waiting = record empty { queue = entry "r-1" "org/a" ∷ entry "r-2" "org/b" ∷ [] }

not_empty : ◌≢◌ {A = String} "org/z" ""
not_empty e = cc ((eq_iff "org/z" "").1 e)

-- A quote in an id breaks its line, and the model can be queued again.
abbrev reads : String → String → List Line
reads r h = broken ∷ []

quoted :
    (enqueue reads 6 "r-4" "a\"b" true (enqueue reads 5 "r-3" "a\"b" false waiting).1).0
    ≡ some "r-4"
unfolding enqueue is_plain written in_queue in_progress has_recent_successful_run
    has_recent_failed_run last_failed list_runs by_created
quoted = refl

enqueued : (enqueue reads 5 "r-3" "org/z" false waiting).0 ≡ some "r-3"
unfolding enqueue is_plain written in_queue in_progress list_runs by_created
enqueued = refl

enqueue_twice_example :
    enqueue reads 6 "r-4" "org/z" true (enqueue reads 5 "r-3" "org/z" false waiting).1
    ≡ (none, (enqueue reads 5 "r-3" "org/z" false waiting).1)
unfolding is_plain
enqueue_twice_example =
    enqueue_twice reads 5 6 "r-3" "r-4" "org/z" false true waiting not_empty refl refl enqueued
