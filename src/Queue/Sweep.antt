-- ===== src/Queue/Sweep.antt =====
-- The sweep at start-up aborts every listed run that has a state file, and no other.
use heyi_eval_v.Prelude.{
  ℕ, ◌+◌, ◌<◌, ◌≡◌, refl, ◌∙◌, Bool, true, Option, none, some, List, [], ◌∷◌, String, str_eq,
  eq_iff, arith, if◌then◌else◌, any, All, if_cases,
}
use heyi_eval_v.Stage.{RunStatus}
use heyi_eval_v.Run.{Run}
use heyi_eval_v.Store.{
  Store, Row, get_run, save_run, list_runs_with, is_in_progress, by_created, with_status,
}
use heyi_eval_v.Store.Agreement.{
  Agrees, save_run-Agrees, get_run-save_run, run_id-get_run, All-insert_row, All-take,
}
use heyi_eval_v.Queue.{sweep_run, sweep_row, sweep_rows, sweep_orphans, orphaned, last_touch}

abbrev pub listed : String → List Row → Bool
listed k rows = any (λ r. str_eq r.run_id k) rows

abbrev pub orphaned? : ℕ → Option Run → Option Run
orphaned? now none = none
orphaned? now (some r) = some (orphaned now r)

record Swept (now : ℕ) (rows : List Row) (s t : Store) : Type 0 where
  runs :
      (k : String)
      → get_run k t ≡ (if listed k rows then orphaned? now (get_run k s) else get_run k s)
  agrees : Agrees s → Agrees t
  queue : t.queue ≡ s.queue

sweep_run-Swept :
    (now : ℕ) (row : Row) (s : Store) (o : Option Run)
    → get_run row.run_id s ≡ o
    → Swept now (row ∷ []) s (sweep_run now o s).1
unfolding sweep_run
sweep_run-Swept now row s none e = record {
  runs = λ k. ground (arith, eq_iff row.run_id k);
  agrees = λ a. a;
  queue = refl;
}
sweep_run-Swept now row s (some r) e = record {
  runs = λ k. ground (
    arith,
    eq_iff row.run_id k,
    eq_iff r.run_id k,
    run_id-get_run row.run_id s r e,
    get_run-save_run (orphaned now r) k s,
  );
  agrees = save_run-Agrees (orphaned now r) s;
  queue = unfold save_run in refl;
}

orphaned?_idem : (now : ℕ) (o : Option Run) → orphaned? now (orphaned? now o) ≡ orphaned? now o
orphaned?_idem now none = refl
orphaned?_idem now (some r) = refl

Swept-trans :
    (now : ℕ) (row : Row) (rest : List Row) (s t u : Store)
    → Swept now (row ∷ []) s t
    → Swept now rest t u
    → Swept now (row ∷ rest) s u
Swept-trans now row rest s t u a b = record {
  runs = λ k. ground (arith, a.runs k, b.runs k, orphaned?_idem now (get_run k s));
  agrees = λ h. b.agrees (a.agrees h);
  queue = b.queue ∙ a.queue;
}

touched : (t : ℕ) → 0 < t → last_touch t ≡ some t
touched t h = ground arith

sweep_rows-Swept :
    (now stale : ℕ) (rows : List Row) (s : Store)
    → All (λ r. 0 < r.created_at) rows
    → (n : ℕ) × (t : Store) × (sweep_rows now stale true rows s ≡ some (n, t)) × Swept now rows s t
unfolding sweep_rows
sweep_rows-Swept now stale [] s h =
    (0, s, refl, record { runs = λ k. refl; agrees = λ a. a; queue = refl })
sweep_rows-Swept now stale (row ∷ rest) s h =
    let o = get_run row.run_id s in
    let p = sweep_run now o s in
    let (m, u, e, w) = sweep_rows-Swept now stale rest p.1 h.1 in
    let one : sweep_row now stale true row s ≡ some p =
      unfold sweep_row in ground (arith, touched row.created_at h.0) in
    (
      p.0 + m,
      u,
      rw (one, e, sweep_rows),
      Swept-trans now row rest s p.1 u (sweep_run-Swept now row s o refl) w,
    )

with_status-All :
    (P : Row → Type 0) (p : RunStatus → Bool) (rows : List Row)
    → All P rows
    → All P (with_status p rows)
unfolding with_status
with_status-All P p [] h = tt
with_status-All P p (x ∷ rest) h =
    if_cases (All P) (p x.status) _ _ (λ _. (h.0, with_status-All P p rest h.1))
      (λ _. with_status-All P p rest h.1)

by_created-All : (P : Row → Type 0) (rows : List Row) → All P rows → All P (by_created rows)
unfolding by_created
by_created-All P [] h = tt
by_created-All P (x ∷ rest) h = All-insert_row P x _ h.0 (by_created-All P rest h.1)

listed-All :
    (s : Store)
    → All (λ r. 0 < r.created_at) s.rows
    → All (λ r. 0 < r.created_at) (list_runs_with is_in_progress 200 s)
unfolding list_runs_with
listed-All s h = All-take _ 200 _ (by_created-All _ _ (with_status-All _ is_in_progress s.rows h))

-- If no run was created at time 0, the forced sweep at start-up succeeds. It aborts every run of the
-- (at most 200) listed rows that has a state file, leaves every other run, and the queue, as they
-- are, and keeps an index that agrees with the state files in agreement with them.
pub sweep_orphans-aborts :
    (now stale : ℕ) (s : Store)
    → All (λ r. 0 < r.created_at) s.rows
    → (n : ℕ) × (t : Store) × (sweep_orphans now stale true s ≡ some (n, t))
      × ((k : String)
          → get_run k t ≡ (
              if listed k (list_runs_with is_in_progress 200 s)
              then orphaned? now (get_run k s)
              else get_run k s))
      × (t.queue ≡ s.queue)
      × (Agrees s → Agrees t)
unfolding sweep_orphans
sweep_orphans-aborts now stale s h =
    let (n, t, e, w) =
      sweep_rows-Swept now stale (list_runs_with is_in_progress 200 s) s (listed-All s h) in
    (n, t, e, w.runs, w.queue, w.agrees)
