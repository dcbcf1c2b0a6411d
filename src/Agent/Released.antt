-- ===== src/Agent/Released.antt =====
-- A task gives its container back and has a report, whatever happens in between.
use heyi_eval_v.Prelude.{
  ℕ, ◌<◌, ◌≡◌, ◌≢◌, refl, false, sym, ap, subst, true, any, List, String, if_cases,
}
use heyi_eval_v.Prelude.Codes.{Text}
use heyi_eval_v.Budget.{BudgetGuard}
use heyi_eval_v.Pool.{World, Pool, Handle, Answer, done, raises, Error, acquire}
use heyi_eval_v.Pool.Invariant.{Inv}
use heyi_eval_v.Pool.Ledger.{idle_count}
use heyi_eval_v.Pool.Recycling.{lease_at}
use heyi_eval_v.Pool.Leases.{acquire-Acquired, release-acquire}
use heyi_eval_v.Pool.Acquired.{Acquired}
use heyi_eval_v.Report.{Decoder, report}
use heyi_eval_v.Report.Sound.{Promised, Sound}
use heyi_eval_v.Agent.{
  Host, AgentRunResult, Ran, returned, busy, bad_file_name, run_leased, run_agent, is_nested,
}

-- The two pools have the same leases and workspaces.
abbrev pub SameLeases : Pool → Pool → Type 0
SameLeases p q = ((j : ℕ) → lease_at q j ≡ lease_at p j) × (q.workspaces ≡ p.workspaces)

-- What a task answers, from a pool: a report that keeps its promises, if no file name is nested and a
-- container is free; `PoolBusy` if none is; `ValueError` if a file name is nested.
abbrev pub Reported : Text → Text → List Text → Pool → Ran → Type 0
Reported lane target_id files p (returned r) =
    (any is_nested files ≡ false) × (idle_count p.handles ≢ 0) × Promised lane target_id r.report
Reported lane target_id files p busy = (any is_nested files ≡ false) × (idle_count p.handles ≡ 0)
Reported lane target_id files p bad_file_name = any is_nested files ≡ true

module _ (d : Decoder) (w : World) (host : Host) (lane target_id : Text) where
  abbrev Fine : AgentRunResult → Type 0
  Fine r = Promised lane target_id r.report

  leased-SameLeases :
      (run_id : String) (guard : BudgetGuard) (p : Pool)
      → 0 < p.max_runs
      → Inv p
      → ((n : ℕ) → w.removes n run_id ≡ true)
      → (x : Answer Handle × Pool) → acquire w run_id p ≡ x
      → Acquired w run_id p x
      → SameLeases p (run_leased d w host lane target_id run_id guard x).1
  unfolding run_leased
  leased-SameLeases run_id guard p pos v rm (done h, q) e a =
      let (u, released, leases, files) = release-acquire w run_id p q h pos v e rm in
      subst (SameLeases p) (ap (λ y. y.1) (sym released)) (leases, files)
  leased-SameLeases run_id guard p pos v rm (raises Error.pool_busy, q) e a =
      (a.leases, a.workspaces)
  leased-SameLeases run_id guard p pos v rm (raises _, q) e a = (a.leases, a.workspaces)

-- From a well-formed pool whose containers may have at least one run, and with rmtree returning for its
-- workspace, a task leaves all leases and workspaces as they were before, whatever the stream, the clock, the
-- budget and docker do, and whether it returns or raises.
pub run_agent-SameLeases :
    (d : Decoder) (w : World) (host : Host) (lane target_id : Text) (run_id : String)
    (extra_files : List Text) (guard : BudgetGuard) (p : Pool)
    → 0 < p.max_runs
    → Inv p
    → ((n : ℕ) → w.removes n run_id ≡ true)
    → SameLeases p (run_agent d w host lane target_id run_id extra_files guard p).1
unfolding run_agent
run_agent-SameLeases d w host lane target_id run_id extra_files guard p pos v rm =
    if_cases {A = Ran × Pool} (λ x. SameLeases p x.1) (any is_nested extra_files) _ _
      (λ _. ((λ j. refl), refl))
      (λ _.
        leased-SameLeases d w host lane target_id run_id guard p pos v rm (acquire w run_id p) refl
          (acquire-Acquired w run_id p))
