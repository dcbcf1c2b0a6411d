-- ===== src/Queue.antt =====
-- orchestrator/main.py: the file queue of the model lane, its guards against duplicate work, and the
-- sweep of orphaned runs at start-up.
pub mod Guards
pub mod Fifo
pub mod Sweep
mod Samples
use heyi_eval_v.Prelude.{
  ℕ, ◌+◌, ◌-◌, ◌*◌, Bool, true, false, ◌&&◌, ◌||◌, not, Option, none, some, List, [], ◌∷◌, ◌++◌,
  String, str_eq, ltb, leb, ◌==◌, any, all, if◌then◌else◌,
}
use heyi_eval_v.Prelude.Codes.{codes}
use heyi_eval_v.Stage.{RunStatus}
use heyi_eval_v.Run.{Run}
use heyi_eval_v.Store.{
  Store, Row, Line, entry, blank, broken, list_runs, list_runs_with, is_in_progress, get_run,
  save_run,
}

-- In hundredths of a second, as all times.
abbrev pub hour : ℕ
hour = 360000

abbrev pub recent_success_days : ℕ
recent_success_days = 30

abbrev pub recent_failure_hours : ℕ
recent_failure_hours = 12

abbrev pub is_ok_run : RunStatus → Bool
is_ok_run RunStatus.ok = true
is_ok_run _ = false

abbrev pub failed_or_aborted : RunStatus → Bool
failed_or_aborted RunStatus.failed = true
failed_or_aborted RunStatus.aborted = true
failed_or_aborted _ = false

-- Times are not negative, so that a cutoff below 0 and the cutoff 0 let the same rows pass.
unfoldable pub has_recent_successful_run : ℕ → String → Store → Bool
has_recent_successful_run now hf_id s =
    any
      (λ r.
        str_eq r.hf_id hf_id
        && is_ok_run r.status
        && leb (now - recent_success_days * 24 * hour) r.created_at)
      (list_runs 500 s)

-- The first row of the model within the window decides.
pub last_failed : ℕ → String → List Row → Bool
last_failed cutoff hf_id [] = false
last_failed cutoff hf_id (r ∷ rest) =
    if not (str_eq r.hf_id hf_id) || ltb r.created_at cutoff
    then last_failed cutoff hf_id rest
    else failed_or_aborted r.status

unfoldable pub has_recent_failed_run : ℕ → String → Store → Bool
unfolding last_failed
has_recent_failed_run now hf_id s =
    last_failed (now - recent_failure_hours * hour) hf_id (list_runs 500 s)

-- Whether the set of `_hf_ids_in_queue` holds the id: the empty id is taken out of it.
pub in_queue : String → List Line → Bool
in_queue hf_id [] = false
in_queue hf_id (entry r h ∷ rest) = (str_eq h hf_id && not (str_eq h "")) || in_queue hf_id rest
in_queue hf_id (blank ∷ rest) = in_queue hf_id rest
in_queue hf_id (broken ∷ rest) = in_queue hf_id rest

abbrev pending_or_in_progress : RunStatus → Bool
pending_or_in_progress RunStatus.in_progress = true
pending_or_in_progress RunStatus.pending = true
pending_or_in_progress _ = false

-- Whether the set of `_hf_ids_in_progress` holds the id.
unfoldable pub in_progress : String → Store → Bool
in_progress hf_id s =
    any (λ r. str_eq r.hf_id hf_id && pending_or_in_progress r.status) (list_runs 500 s)

-- The characters that JSON wants escaped (those below 32, the quote, the backslash), and the further ones
-- at which `splitlines` breaks a line.
abbrev special : ℕ → Bool
special c = ltb c 32 || c == 34 || c == 92 || c == 133 || c == 8232 || c == 8233

unfoldable pub is_plain : String → Bool
is_plain s = all (λ c. not (special c)) (codes s)

-- The f-string of `enqueue` escapes nothing. The line of plain ids reads back as it is; what another
-- text reads back as, by `splitlines` and `json.loads`, is the argument `reads`.
unfoldable pub written : (String → String → List Line) → String → String → List Line
written reads run_id hf_id =
    if is_plain run_id && is_plain hf_id then entry run_id hf_id ∷ [] else reads run_id hf_id

-- `run_id` is what `_new_run_id` made.
unfoldable pub enqueue :
    (String → String → List Line) → ℕ → String → String → Bool → Store → Option String × Store
enqueue reads now run_id hf_id skip_if_recent s =
    if in_queue hf_id s.queue || in_progress hf_id s
    then (none, s)
    else if skip_if_recent && has_recent_successful_run now hf_id s
    then (none, s)
    else if skip_if_recent && has_recent_failed_run now hf_id s
    then (none, s)
    else (some run_id, record s { queue = s.queue ++ written reads run_id hf_id })

-- The first line is taken off whether or not it can be read.
abbrev pub read_line : Line → Option (String × String)
read_line (entry r h) = some (r, h)
read_line blank = none
read_line broken = none

pub pop_line : List Line → Option (String × String) × List Line
pop_line [] = (none, [])
pop_line (l ∷ rest) = (read_line l, rest)

unfoldable pub pop_one : Store → Option (String × String) × Store
unfolding pop_line
pop_one s = let (item, rest) = pop_line s.queue in (item, record s { queue = rest })

-- `max(float(x) for x in candidates if x)`: the rows have `created_at` alone of the three columns, and
-- `max` raises on nothing.
abbrev pub last_touch : ℕ → Option ℕ
last_touch t = if ltb 0 t then some t else none

abbrev pub orphaned : ℕ → Run → Run
orphaned now r = record r {
  status = RunStatus.aborted;
  failure_reason = some "orchestrator_restart_orphan";
  ended_at = some now;
}

pub sweep_run : ℕ → Option Run → Store → ℕ × Store
sweep_run now none s = (0, s)
sweep_run now (some r) s = (1, save_run (orphaned now r) s)

pub sweep_row : ℕ → ℕ → Bool → Row → Store → Option (ℕ × Store)
unfolding sweep_run
sweep_row now stale_after force_all row s = elim (last_touch row.created_at) [
  | none ↦ none
  | some t ↦ some (
      if not force_all && ltb now (t + stale_after)
      then (0, s)
      else sweep_run now (get_run row.run_id s) s)
]

-- `none` is the exception of `max`.
pub sweep_rows : ℕ → ℕ → Bool → List Row → Store → Option (ℕ × Store)
sweep_rows now stale_after force_all [] s = some (0, s)
sweep_rows now stale_after force_all (row ∷ rest) s =
    elim (sweep_row now stale_after force_all row s) [
      | none ↦ none
      | some (n, t) ↦ elim (sweep_rows now stale_after force_all rest t) [
        | none ↦ none
        | some (m, u) ↦ some (n + m, u)
      ]
    ]

unfoldable pub sweep_orphans : ℕ → ℕ → Bool → Store → Option (ℕ × Store)
unfolding sweep_rows
sweep_orphans now stale_after force_all s =
    sweep_rows now stale_after force_all (list_runs_with is_in_progress 200 s) s
