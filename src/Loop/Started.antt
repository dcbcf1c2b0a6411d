-- ===== src/Loop/Started.antt =====
-- Which runs the sweep at start-up reaches, and what it leaves.
use heyi_eval_v.Prelude.{
  ℕ, zero, suc, ◌≤◌, ◌<◌, ◌≡◌, ◌≢◌, refl, ◌∙◌, ap, Bool, true, Option, none, some, List, [], ◌∷◌,
  ◌||◌, All, String, str_eq, eq_iff, arith, length, take, if◌then◌else◌,
}
use heyi_eval_v.Stage.{RunStatus}
use heyi_eval_v.Run.{Run}
use heyi_eval_v.Store.{
  Store, Row, get_run, list_runs_with, is_in_progress, by_created, with_status, insert_row,
}
use heyi_eval_v.Store.Agreement.{Summary, index_entry, file_entry}
use heyi_eval_v.Queue.{sweep_orphans}
use heyi_eval_v.Queue.Sweep.{listed, orphaned?, sweep_orphans-aborts}
use heyi_eval_v.Loop.Written.{at_rest, Rested}

abbrev pub status_in : Option Summary → Option RunStatus
status_in none = none
status_in (some x) = some x.status

listed-with_status :
    (k : String) (p : RunStatus → Bool) (rows : List Row) (st : RunStatus)
    → status_in (index_entry k rows) ≡ some st
    → p st ≡ true
    → listed k (with_status p rows) ≡ true
unfolding index_entry with_status
listed-with_status k p [] st e h = cc
listed-with_status k p (x ∷ rest) st e h =
    ground (arith, listed-with_status k p rest st, eq_iff x.run_id k)

listed-insert_row :
    (k : String) (r : Row) (rows : List Row)
    → listed k (insert_row r rows) ≡ (str_eq r.run_id k || listed k rows)
unfolding insert_row
listed-insert_row k r [] = refl
listed-insert_row k r (x ∷ rest) = ground (arith, listed-insert_row k r rest)

length-insert_row : (r : Row) (rows : List Row) → length (insert_row r rows) ≡ suc (length rows)
unfolding insert_row
length-insert_row r [] = refl
length-insert_row r (x ∷ rest) = ground (arith, length-insert_row r rest)

listed-by_created : (k : String) (rows : List Row) → listed k (by_created rows) ≡ listed k rows
unfolding by_created
listed-by_created k [] = refl
listed-by_created k (x ∷ rest) =
    rw (listed-insert_row k x (by_created rest), listed-by_created k rest) refl

length-by_created : (rows : List Row) → length (by_created rows) ≡ length rows
unfolding by_created
length-by_created [] = refl
length-by_created (x ∷ rest) =
    rw (length-insert_row x (by_created rest), length-by_created rest) refl

take-length : (n : ℕ) (rows : List Row) → length rows ≤ n → take n rows ≡ rows
take-length zero [] h = refl
take-length zero (x ∷ rest) h = absurd (omega arith)
take-length (suc n) [] h = refl
take-length (suc n) (x ∷ rest) h = ap (λ l. x ∷ l) (take-length n rest (omega arith))

-- What is asked of a store before the start.
pub record Startable (s : Store) : Type 0 where
  pub created : All (λ r. 0 < r.created_at) s.rows
  -- the index has the status of each run's state file
  pub agrees :
      (k : String) → status_in (index_entry k s.rows) ≡ status_in (file_entry (get_run k s))
  pub few : length (with_status is_in_progress s.rows) ≤ 200
  pub no_pending : (k : String) (r : Run) → get_run k s ≡ some r → r.status ≢ RunStatus.pending

listed_in_progress :
    (s : Store) (k : String) (r : Run)
    → Startable s
    → get_run k s ≡ some r
    → is_in_progress r.status ≡ true
    → listed k (list_runs_with is_in_progress 200 s) ≡ true
unfolding list_runs_with
listed_in_progress s k r c e h =
    let found = with_status is_in_progress s.rows in
    ap (listed k) (take-length 200 (by_created found) (rw (length-by_created found) c.few))
    ∙ listed-by_created k found
    ∙ listed-with_status k is_in_progress s.rows r.status
        (c.agrees k ∙ ap (λ o. status_in (file_entry o)) e) h

swept_at_rest :
    (now : ℕ) (o : Option Run) (b : Bool)
    → ((r : Run) → o ≡ some r → r.status ≢ RunStatus.pending)
    → ((r : Run) → o ≡ some r → is_in_progress r.status ≡ true → b ≡ true)
    → at_rest (if b then orphaned? now o else o) ≡ true
swept_at_rest now none b p q = ground arith
swept_at_rest now (some r) b p q = ground (arith, p r refl, q r refl)

-- The sweep answers, and leaves no run pending or in progress; the queue stays.
pub sweep_orphans-Rested :
    (now stale : ℕ) (s : Store)
    → Startable s
    → (n : ℕ) × (t : Store) × (sweep_orphans now stale true s ≡ some (n, t))
      × Rested t
      × (t.queue ≡ s.queue)
sweep_orphans-Rested now stale s c =
    let (n, t, e, runs, q, a) = sweep_orphans-aborts now stale s c.created in
    (
      n,
      t,
      e,
      (λ k. rw (runs k) (
          swept_at_rest now (get_run k s) _ (c.no_pending k)
            (λ r g h. listed_in_progress s k r c g h))),
      q,
    )
