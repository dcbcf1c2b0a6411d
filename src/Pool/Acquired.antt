-- ===== src/Pool/Acquired.antt =====
-- agent_driver/pool_manager.py: the pool before and after `acquire`.
use heyi_eval_v.Prelude.{
  ℕ, ◌+◌, ◌≤◌, ◌<◌, ◌≡◌, ◌≢◌, ◌↔◌, refl, ◌⊎◌, inl, inr, ◌∙◌, ap, false, Option, none, some, ◌∷◌,
  String, arith, get_elem?, get_elem?-set_self, get_elem?-set_ne, if_cases, ◌==◌, if◌then◌else◌,
}
use heyi_eval_v.Pool.{
  Handle, Pool, World, Answer, done, raises, Error, put, exists, lease, safe_run_workspace,
  not_held, pool_busy,
}
use heyi_eval_v.Pool.Ledger.{idle_count, idle_count-set, idle_count-idle}
use heyi_eval_v.Pool.Recycling.{lease_at, Recycled, Spent, Unspent}

-- What the answer of `acquire` says of the pool before and after.
pub record Leased (w : World) (run_id : String) (p : Pool) (h : Handle) (q : Pool) : Type 0 where
  pub at : ℕ
  pub before : Handle
  pub was : get_elem? p.handles at ≡ some before
  pub idle : before.run_id ≡ none
  pub free : idle_count p.handles ≡ idle_count q.handles + 1
  pub here : get_elem? q.handles at ≡ some h
  pub held : h.run_id ≡ some run_id
  pub others : (j : ℕ) → (at == j) ≡ false → get_elem? q.handles j ≡ get_elem? p.handles j
  pub safe : safe_run_workspace w run_id ≡ none
  pub fresh : exists run_id p.workspaces ≡ false
  pub max_runs : q.max_runs ≡ p.max_runs
  pub workspaces : q.workspaces ≡ run_id ∷ p.workspaces
  -- counted once more, or from 0 again if it was due for a restart
  pub counted :
      ((h.run_count ≡ before.run_count + 1) × Unspent (w.clock p.asked) p before)
      ⊎ ((h.run_count ≡ 1) × Spent (w.clock p.asked) p before)
  pub limited : 0 < p.max_runs → h.run_count ≤ p.max_runs

pub record NotLeased (p q : Pool) (e : Error) : Type 0 where
  pub free : idle_count q.handles ≡ idle_count p.handles
  pub busy : (e ≡ pool_busy) ↔ (idle_count p.handles ≡ 0)
  pub leases : (j : ℕ) → lease_at q j ≡ lease_at p j
  pub max_runs : q.max_runs ≡ p.max_runs
  pub workspaces : q.workspaces ≡ p.workspaces

abbrev pub Acquired : World → String → Pool → Answer Handle × Pool → Type 0
Acquired w run_id p (done h, q) = Leased w run_id p h q
Acquired w run_id p (raises e, q) = NotLeased p q e

pub not_busy :
    (x : Error)
    → x ≢ pool_busy
    → (p : Pool) (i : ℕ) (b : Handle) → get_elem? p.handles i ≡ some b
    → b.run_id ≡ none
    → (x ≡ pool_busy) ↔ (idle_count p.handles ≡ 0)
not_busy x n p i b e free =
    ((λ g. absurd (n g)), λ z. absurd (ground (arith, idle_count-idle p.handles i b e)))

-- The errors of `safe_run_workspace` are its own.
pub safe_run_workspace-error :
    (w : World) (run_id : String) (x : Error)
    → safe_run_workspace w run_id ≡ some x
    → (x ≢ pool_busy) × (x ≢ not_held)
unfolding safe_run_workspace
safe_run_workspace-error w run_id x e = ((λ g. ground arith), λ g. ground arith)

pub lease-Acquired :
    (w : World) (run_id : String) (i : ℕ) (b h : Handle) (p q : Pool)
    → get_elem? p.handles i ≡ some b
    → b.run_id ≡ none
    → Recycled (w.clock p.asked) i b p (done h) q
    → Acquired w run_id p (lease w run_id i h q)
unfolding lease
lease-Acquired w run_id i b h p q e free c = safe (safe_run_workspace w run_id) refl
  where
    kept : (x : Error) → x ≢ pool_busy → NotLeased p q x
    kept x n = record {
      free = c.free;
      busy = not_busy x n p i b e free;
      leases = c.leases;
      max_runs = c.max_runs;
      workspaces = c.workspaces;
    }

    safe :
        (o : Option Error)
        → safe_run_workspace w run_id ≡ o
        → Acquired w run_id p (elim o [
          | some e ↦ (raises e, q)
          | none ↦
              if exists run_id q.workspaces
              then (raises Error.workspace_exists, q)
              else let h' = record h { run_id = some run_id; run_count = h.run_count + 1 } in
                (done h', put i h' (record q { workspaces = run_id ∷ q.workspaces }))
        ])
    safe (some x) s = kept x (safe_run_workspace-error w run_id x s).0
    safe none s =
        if_cases (Acquired w run_id p) (exists run_id q.workspaces) _ _
          (λ _. kept Error.workspace_exists (λ g. cc g))
          (λ n.
            let r = c.ready h refl in
            record {
              at = i;
              before = b;
              was = e;
              idle = free;
              free = ground (
                arith,
                idle_count-set q.handles i h
                    (record h { run_id = some run_id; run_count = h.run_count + 1 }) r.0,
                c.free,
                r.1,
                free,
              );
              here = get_elem?-set_self q.handles i _ h r.0;
              held = refl;
              others = λ j ne. get_elem?-set_ne q.handles i j _ ne ∙ c.others j ne;
              safe = s;
              fresh = rw (← c.workspaces) n;
              max_runs = c.max_runs;
              workspaces = ap (λ x. run_id ∷ x) c.workspaces;
              counted = elim (c.counted h refl) [
                | inl (n, u) ↦ inl (omega (arith, n), u)
                | inr (n, u) ↦ inr (omega (arith, n), u)
              ];
              limited = λ lt. omega (arith, r.3 lt);
            })
