-- ===== src/Pool/Leases.antt =====
-- What a lease is: who gets a container, and how it comes back.
use heyi_eval_v.Prelude.{
  ℕ, ◌<◌, ◌≡◌, ◌≢◌, refl, true, false, Option, none, some, List, [], ◌∷◌, String, eq_iff, arith,
  get_elem?, set, if_cases, subst,
}
use heyi_eval_v.Pool.{
  Handle, Pool, World, Answer, done, raises, Error, put, ask, maybe_recycle, exists, then_lease,
  acquire, without, give_back, release, pick_idle, find_by_run_id, safe_run_workspace, is_idle,
  not_held,
}
use heyi_eval_v.Pool.Ledger.{idle_count-busy}
use heyi_eval_v.Pool.Picks.{Picked, pick_idle-Picked, Found, find_by_run_id-Found}
use heyi_eval_v.Pool.Invariant.{acquire-Inv, Inv}
use heyi_eval_v.Pool.Recycling.{
  lease_at, lease_of, Recycled, maybe_recycle-Recycled, get_elem?-set_if,
}
use heyi_eval_v.Pool.Acquired.{Leased, Acquired, not_busy, lease-Acquired}

idle_run_id : (h : Handle) → is_idle h ≡ true → h.run_id ≡ none
idle_run_id h e = ground arith

pub acquire-Acquired :
    (w : World) (run_id : String) (p : Pool) → Acquired w run_id p (acquire w run_id p)
unfolding acquire
acquire-Acquired w run_id p = picked (pick_idle p.handles) (pick_idle-Picked p.handles)
  where
    leased :
        (i : ℕ) (b : Handle) (a : Answer Handle) (q : Pool)
        → get_elem? p.handles i ≡ some b
        → b.run_id ≡ none
        → Recycled (w.clock p.asked) i b p a q
        → Acquired w run_id p (then_lease w run_id i (a, q))
    leased i b (raises x) q e free c = record {
      free = c.free;
      busy = not_busy x (λ g. cc (g, c.error x refl)) p i b e free;
      leases = c.leases;
      max_runs = c.max_runs;
      workspaces = c.workspaces;
    }
    leased i b (done h) q e free c = lease-Acquired w run_id i b h p q e free c

    picked :
        (o : Option (ℕ × Handle))
        → Picked p.handles o
        → Acquired w run_id p (elim o [
          | none ↦ (raises Error.pool_busy, p)
          | some (i, h) ↦ then_lease w run_id i (maybe_recycle w i h p)
        ])
    picked none f = record {
      free = refl;
      busy = ((λ _. idle_count-busy p.handles f), λ _. refl);
      leases = λ _. refl;
      max_runs = refl;
      workspaces = refl;
    }
    picked (some (i, h)) f =
        leased i h _ _ f.0 (idle_run_id h f.1) (maybe_recycle-Recycled w i h p f.0)

without-new : (r : String) (ws : List String) → exists r ws ≡ false → without r ws ≡ ws
unfolding exists without
without-new r [] n = refl
without-new r (x ∷ rest) n = ground (arith, without-new r rest)

give_back_at :
    (w : World) (run_id : String) (i : ℕ) (h : Handle) (p q : Pool) (c : Leased w run_id p h q)
    (k : Handle)
    → ((n : ℕ) → w.removes n run_id ≡ true)
    → i ≡ c.at
    → get_elem? q.handles i ≡ some k
    → (u : Pool) × (give_back w run_id i k q ≡ (done tt, u))
      × ((j : ℕ) → lease_at u j ≡ lease_at p j)
      × (u.workspaces ≡ p.workspaces)
give_back_at w run_id i h p q c k rm same e =
    let k' : Handle = record k { run_id = none } in
    (
      put i k' (ask (record q { workspaces = without run_id q.workspaces })),
      unfold give_back in ground (arith, there, rm q.asked),
      leases,
      workspaces,
    )
  where
    there : exists run_id q.workspaces ≡ true
    there = rw c.workspaces (unfold exists in ground (arith, eq_iff run_id run_id))

    leases :
        (j : ℕ)
        → lease_of (get_elem? (set q.handles i (record k { run_id = none })) j) ≡ lease_at p j
    leases j =
        ground (
          arith,
          get_elem?-set_if q.handles i j k (record k { run_id = none }) e,
          c.idle,
          c.others j,
        )

    workspaces : without run_id q.workspaces ≡ p.workspaces
    workspaces = rw c.workspaces (
        unfold without in
        ground (arith, eq_iff run_id run_id, without-new run_id p.workspaces c.fresh))

-- A run that has got a container can give it back: if the workspace can be removed, `release` returns,
-- and every lease and the workspaces are as they were before the `acquire`.
pub release-acquire :
    (w : World) (run_id : String) (p q : Pool) (h : Handle)
    → 0 < p.max_runs
    → Inv p
    → acquire w run_id p ≡ (done h, q)
    → ((n : ℕ) → w.removes n run_id ≡ true)
    → (u : Pool) × (release w run_id q ≡ (done tt, u))
      × ((j : ℕ) → lease_at u j ≡ lease_at p j)
      × (u.workspaces ≡ p.workspaces)
unfolding release
release-acquire w run_id p q h pos v e rm =
    found (find_by_run_id run_id q.handles) (find_by_run_id-Found run_id q.handles)
  where
    c : Leased w run_id p h q
    c = subst (Acquired w run_id p) e (acquire-Acquired w run_id p)

    inv : Inv q
    inv = subst (λ (r : Answer Handle × Pool). Inv r.1) e (acquire-Inv w run_id p pos v)

    found :
        (o : Option (ℕ × Handle))
        → Found run_id q.handles o
        → (u : Pool) × ((let r : Answer (Unit {0}) × Pool = elim o [
          | none ↦ (raises not_held, q)
          | some (i, k) ↦ elim (safe_run_workspace w run_id) [
            | some x ↦ (raises x, q)
            | none ↦ give_back w run_id i k q
          ]
        ] in
              r)
            ≡ (done tt, u))
          × ((j : ℕ) → lease_at u j ≡ lease_at p j)
          × (u.workspaces ≡ p.workspaces)
    found none f = absurd (ground (arith, f c.at h c.here, c.held, eq_iff run_id run_id))
    found (some (i, k)) f = rw c.safe (
        give_back_at w run_id i h p q c k rm
          (inv.distinct i c.at run_id (ground (arith, f.0, f.1)) (ground (arith, c.here, c.held)))
          f.0)

abbrev Released : String → Answer (Unit {0}) × Pool → Type 0
Released run_id (done u, q) = (j : ℕ) → lease_at q j ≢ some run_id
Released run_id (raises e, q) = Unit {0}

pub gone :
    (run_id : String) (i : ℕ) (h : Handle) (p : Pool) (ws : List String)
    → get_elem? p.handles i ≡ some h
    → h.run_id ≡ some run_id
    → Inv p
    → (j : ℕ) → lease_of (get_elem? (set p.handles i (record h { run_id = none })) j) ≢ some run_id
gone run_id i h p ws e own v j l =
    ground (
      arith,
      get_elem?-set_if p.handles i j h (record h { run_id = none }) e,
      v.distinct i j run_id,
    )

give_back-Released :
    (w : World) (run_id : String) (i : ℕ) (h : Handle) (p : Pool)
    → get_elem? p.handles i ≡ some h
    → h.run_id ≡ some run_id
    → Inv p
    → Released run_id (give_back w run_id i h p)
unfolding give_back
give_back-Released w run_id i h p e own v =
    if_cases (Released run_id) (exists run_id p.workspaces) _ _
      (λ _.
        if_cases (Released run_id) (w.removes p.asked run_id) _ _
          (λ _. gone run_id i h p [] e own v) (λ _. tt))
      (λ _. gone run_id i h p [] e own v)

release-Released :
    (w : World) (run_id : String) (p : Pool) → Inv p → Released run_id (release w run_id p)
unfolding release
release-Released w run_id p v =
    found (find_by_run_id run_id p.handles) (find_by_run_id-Found run_id p.handles)
  where
    safe :
        (i : ℕ) (h : Handle)
        → get_elem? p.handles i ≡ some h
        → h.run_id ≡ some run_id
        → (o : Option Error)
        → Released run_id (elim o [ some e ↦ (raises e, p) | none ↦ give_back w run_id i h p ])
    safe i h e own (some x) = tt
    safe i h e own none = give_back-Released w run_id i h p e own v

    found :
        (o : Option (ℕ × Handle))
        → Found run_id p.handles o
        → Released run_id (elim o [
          | none ↦ (raises not_held, p)
          | some (i, h) ↦ elim (safe_run_workspace w run_id) [
            | some e ↦ (raises e, p)
            | none ↦ give_back w run_id i h p
          ]
        ])
    found none f = tt
    found (some (i, h)) f = safe i h f.0 f.1 (safe_run_workspace w run_id)

find-none :
    (run_id : String) (p : Pool)
    → ((j : ℕ) → lease_at p j ≢ some run_id)
    → find_by_run_id run_id p.handles ≡ none
find-none run_id p h =
    missing (find_by_run_id run_id p.handles) (find_by_run_id-Found run_id p.handles)
  where
    missing : (o : Option (ℕ × Handle)) → Found run_id p.handles o → o ≡ none
    missing none f = refl
    missing (some (i, k)) f = absurd (h i (ground (arith, f.0, f.1)))

-- After a `release` that returns, no handle holds the id, and a second `release` raises.
pub release_twice :
    (w : World) (run_id : String) (p q : Pool)
    → Inv p
    → release w run_id p ≡ (done tt, q)
    → ((j : ℕ) → lease_at q j ≢ some run_id) × ((release w run_id q).0 ≡ raises not_held)
unfolding release
release_twice w run_id p q v e =
    let free : ((j : ℕ) → lease_at q j ≢ some run_id) =
      subst (Released run_id) e (release-Released w run_id p v) in
    (free, rw (release, find-none run_id q free))
