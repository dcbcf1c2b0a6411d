-- ===== src/Pool/Samples.antt =====
-- A pool of two containers, one of them leased, and instances of the theorems about pools.
use heyi_eval_v.Prelude.{
  ℕ, zero, suc, ◌≤◌, ◌≡◌, refl, true, false, none, some, List, [], ◌∷◌, String, eq_iff, arith,
  get_elem?,
}
use heyi_eval_v.Pool.{
  Handle, Pool, World, done, raises, acquire, release, maybe_recycle, lease, pick_idle, exists,
  find_by_run_id, restarted, poll, not_held, pool_busy, container_unhealthy, safe_run_workspace,
  bad_name, give_back,
}
use heyi_eval_v.Pool.Invariant.{Inv}
use heyi_eval_v.Pool.Recycling.{lease_at}
use heyi_eval_v.Pool.Ledger.{Call, acquires, releases, returned, raised, Steps, ledger, serve}
use heyi_eval_v.Pool.Served.{serve-Steps}
use heyi_eval_v.Pool.Leases.{release-acquire}
use heyi_eval_v.Pool.Acquired.{Acquired}

abbrev world : World
world = record {
  clock = λ n. 5;
  restarts = λ n name. true;
  running = λ n name. true;
  inside = λ s. true;
  removes = λ n s. true;
}

abbrev pool : Pool
pool = record {
  max_runs = 50;
  max_age = 86400;
  handles =
      record { name = "m2b-0"; run_count = 3; booted_at = 0; run_id = some "p-1" }
      ∷ record { name = "m2b-1"; run_count = 50; booted_at = 0; run_id = none }
      ∷ [];
  workspaces = "p-1" ∷ [];
  asked = 0;
}

pool-Inv : Inv pool
unfolding exists
pool-Inv = record { distinct = distinct; backed = backed; bounded = bounded }
  where
    distinct : (i j : ℕ) (r : String) → lease_at pool i ≡ some r → lease_at pool j ≡ some r → i ≡ j
    distinct zero zero r e f = refl
    distinct zero (suc zero) r e f = cc
    distinct zero (suc (suc j)) r e f = cc
    distinct (suc zero) j r e f = cc
    distinct (suc (suc i)) j r e f = cc

    backed : (i : ℕ) (r : String) → lease_at pool i ≡ some r → exists r pool.workspaces ≡ true
    backed zero r e = ground (arith, eq_iff "p-1" r)
    backed (suc zero) r e = cc
    backed (suc (suc i)) r e = cc

    bounded : (i : ℕ) (h : Handle) → get_elem? pool.handles i ≡ some h → h.run_count ≤ pool.max_runs
    bounded zero h e = ground arith
    bounded (suc zero) h e = ground arith
    bounded (suc (suc i)) h e = cc

-- The second container is restarted before its lease.
abbrev leased : Handle
leased = record { name = "m2b-1"; run_count = 1; booted_at = 5; run_id = some "p-2" }

abbrev taken : Pool
taken = (acquire world "p-2" pool).1

acquired : (acquire world "p-2" pool).0 ≡ done leased
unfolding acquire pick_idle maybe_recycle restarted poll lease safe_run_workspace bad_name
acquired = refl

acquire_taken : acquire world "p-2" pool ≡ (done leased, taken)
acquire_taken = λ i. (acquired i, taken)

release-acquire_example :
    (u : Pool) × (release world "p-2" taken ≡ (done tt, u))
    × ((j : ℕ) → lease_at u j ≡ lease_at pool j)
    × (u.workspaces ≡ pool.workspaces)
release-acquire_example =
    release-acquire world "p-2" pool taken leased (omega arith) pool-Inv acquire_taken (λ n. refl)

abbrev freed : Pool
freed = (release world "p-1" pool).1

released : (release world "p-1" pool).0 ≡ done tt
unfolding release find_by_run_id safe_run_workspace bad_name give_back
released = refl

abbrev calls : List Call
calls = acquires "p-2" ∷ acquires "p-3" ∷ releases "p-1" ∷ releases "p-1" ∷ []

served :
    (serve world calls pool).0
    ≡ returned (acquires "p-2")
      ∷ raised (acquires "p-3") pool_busy
      ∷ returned (releases "p-1")
      ∷ raised (releases "p-1") not_held
      ∷ []
unfolding serve acquire pick_idle maybe_recycle restarted poll lease safe_run_workspace bad_name
    release find_by_run_id give_back
served = refl

serve-Steps_example :
    Steps (ledger pool) (serve world calls pool).0 (ledger (serve world calls pool).1)
    × Inv (serve world calls pool).1
serve-Steps_example = serve-Steps world calls pool (omega arith) pool-Inv

-- A container that does not come back from its restart: the first `acquire` raises, and the next one
-- leases the container with no question to docker.
abbrev dead : World
dead = record world { running = λ n name. false }

dead_container_is_leased :
    ((acquire dead "p-2" pool).0 ≡ raises container_unhealthy)
    × ((acquire dead "p-3" (acquire dead "p-2" pool).1).0
        ≡ done (record leased { run_id = some "p-3" }))
unfolding acquire pick_idle maybe_recycle restarted poll lease safe_run_workspace bad_name
dead_container_is_leased = (refl, refl)
