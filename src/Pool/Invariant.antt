-- ===== src/Pool/Invariant.antt =====
-- No two handles hold one run id, every lease has its workspace, and the counts stay below the limit.
use heyi_eval_v.Prelude.{
  ℕ, ◌+◌, ◌≤◌, ◌<◌, ◌≡◌, refl, sym, ◌∙◌, true, false, Option, none, some, List, [], ◌∷◌, String,
  str_eq, eq_iff, arith, get_elem?, set, if_cases, if◌then◌else◌,
}
use heyi_eval_v.Pool.{
  Handle, Pool, World, Answer, done, raises, Error, put, ask, maybe_recycle, exists, lease,
  then_lease, acquire, without, give_back, release, pick_idle, find_by_run_id, safe_run_workspace,
}
use heyi_eval_v.Pool.Picks.{Picked, pick_idle-Picked, Found, find_by_run_id-Found}
use heyi_eval_v.Pool.Recycling.{
  Recycled, maybe_recycle-Recycled, get_elem?-set_if, lease_of, lease_at, Bounded-set,
}

pub record Inv (p : Pool) : Type 0 where
  pub distinct : (i j : ℕ) (r : String) → lease_at p i ≡ some r → lease_at p j ≡ some r → i ≡ j
  pub backed : (i : ℕ) (r : String) → lease_at p i ≡ some r → exists r p.workspaces ≡ true
  pub bounded : (i : ℕ) (h : Handle) → get_elem? p.handles i ≡ some h → h.run_count ≤ p.max_runs

Recycled-Inv :
    (now i : ℕ) (h : Handle) (p q : Pool) (a : Answer Handle)
    → Recycled now i h p a q
    → Inv p
    → Inv q
Recycled-Inv now i h p q a c v = record {
  distinct = λ x y r e f. v.distinct x y r (sym (c.leases x) ∙ e) (sym (c.leases y) ∙ f);
  backed = λ x r e. rw c.workspaces (v.backed x r (sym (c.leases x) ∙ e));
  bounded = rw c.max_runs (c.bounded p.max_runs v.bounded);
}

-- A lease is written at the place of an idle handle, under an id that has no workspace yet.
leased-Inv :
    (run_id : String) (i : ℕ) (x h : Handle) (p : Pool)
    → get_elem? p.handles i ≡ some x
    → h.run_id ≡ some run_id
    → h.run_count ≤ p.max_runs
    → exists run_id p.workspaces ≡ false
    → Inv p
    → Inv (put i h (record p { workspaces = run_id ∷ p.workspaces }))
leased-Inv run_id i x h p e named le new v = record {
  distinct = λ a b r f g. ground (
    arith,
    get_elem?-set_if p.handles i a x h e,
    get_elem?-set_if p.handles i b x h e,
    v.backed a r,
    v.backed b r,
    v.distinct a b r,
  );
  backed = λ j r l.
      unfold exists in
      ground (arith, eq_iff run_id r, v.backed j r, get_elem?-set_if p.handles i j x h e);
  bounded = Bounded-set p.max_runs p.handles i x h e le v.bounded;
}

lease-Inv :
    (w : World) (run_id : String) (i : ℕ) (h : Handle) (p : Pool)
    → get_elem? p.handles i ≡ some h
    → h.run_count < p.max_runs
    → Inv p
    → Inv (lease w run_id i h p).1
unfolding lease
lease-Inv w run_id i h p e lt v = safe (safe_run_workspace w run_id)
  where
    safe :
        (o : Option Error)
        → Inv (
            let r : Answer Handle × Pool = elim o [
              | some e ↦ (raises e, p)
              | none ↦
                  if exists run_id p.workspaces
                  then (raises Error.workspace_exists, p)
                  else let h' = record h { run_id = some run_id; run_count = h.run_count + 1 } in
                    (done h', put i h' (record p { workspaces = run_id ∷ p.workspaces }))
            ] in
            r.1)
    safe (some e) = v
    safe none =
        if_cases (λ (r : Answer Handle × Pool). Inv r.1) (exists run_id p.workspaces) _ _ (λ _. v)
          (λ n.
            leased-Inv run_id i h (record h { run_id = some run_id; run_count = h.run_count + 1 }) p
              e refl (omega arith) n v)

-- If a container may have at least one run before it is restarted, `acquire` keeps the invariant of the
-- pool, also when it raises, and whatever docker answers: no run id is held twice, each has its
-- workspace, and no container has had more runs than the limit.
pub acquire-Inv :
    (w : World) (run_id : String) (p : Pool) → 0 < p.max_runs → Inv p → Inv (acquire w run_id p).1
unfolding acquire
acquire-Inv w run_id p pos v = picked (pick_idle p.handles) (pick_idle-Picked p.handles)
  where
    leased :
        (i : ℕ) (h : Handle) (a : Answer Handle) (q : Pool)
        → Recycled (w.clock p.asked) i h p a q
        → Inv (then_lease w run_id i (a, q)).1
    leased i h (raises e) q c = Recycled-Inv (w.clock p.asked) i h p q _ c v
    leased i h (done x) q c =
        let (here, same, named, low) = c.ready x refl in
        lease-Inv w run_id i x q here (rw c.max_runs (low pos))
          (Recycled-Inv (w.clock p.asked) i h p q _ c v)

    picked :
        (o : Option (ℕ × Handle))
        → Picked p.handles o
        → Inv (
            let r : Answer Handle × Pool = elim o [
              | none ↦ (raises Error.pool_busy, p)
              | some (i, h) ↦ then_lease w run_id i (maybe_recycle w i h p)
            ] in
            r.1)
    picked none f = v
    picked (some (i, h)) f = leased i h _ _ (maybe_recycle-Recycled w i h p f.0)

exists-without :
    (r k : String) (ws : List String) → str_eq k r ≡ false → exists r (without k ws) ≡ exists r ws
unfolding exists without
exists-without r k [] n = refl
exists-without r k (x ∷ rest) n = ground (arith, exists-without r k rest n, eq_iff x k, eq_iff x r)

-- The lease at `i` is given up, with its workspace or without.
returned-Inv :
    (run_id : String) (i : ℕ) (x h : Handle) (p : Pool) (ws : List String)
    → get_elem? p.handles i ≡ some x
    → x.run_id ≡ some run_id
    → h.run_id ≡ none
    → h.run_count ≤ p.max_runs
    → ((r : String) → str_eq run_id r ≡ false → exists r ws ≡ exists r p.workspaces)
    → Inv p
    → Inv (put i h (record p { workspaces = ws }))
returned-Inv run_id i x h p ws e old free le rest v = record {
  distinct = λ a b r f g. ground (
    arith,
    get_elem?-set_if p.handles i a x h e,
    get_elem?-set_if p.handles i b x h e,
    v.distinct a b r,
  );
  backed = λ j r l. backed j r l;
  bounded = Bounded-set p.max_runs p.handles i x h e le v.bounded;
}
  where
    backed :
        (j : ℕ) (r : String)
        → lease_of (get_elem? (set p.handles i h) j) ≡ some r
        → exists r ws ≡ true
    backed j r l = ground (
      arith,
      get_elem?-set_if p.handles i j x h e,
      eq_iff run_id r,
      rest r,
      v.backed j r,
      v.distinct i j r,
    )

give_back-Inv :
    (w : World) (run_id : String) (i : ℕ) (h : Handle) (p : Pool)
    → get_elem? p.handles i ≡ some h
    → h.run_id ≡ some run_id
    → Inv p
    → Inv (give_back w run_id i h p).1
unfolding give_back
give_back-Inv w run_id i h p e own v =
    if_cases (λ (r : Answer (Unit {0}) × Pool). Inv r.1) (exists run_id p.workspaces) _ _
      (λ _.
        if_cases (λ (r : Answer (Unit {0}) × Pool). Inv r.1) (w.removes p.asked run_id) _ _
          (λ _. asked (
            returned-Inv run_id i h _ p _ e own refl (v.bounded i h e)
              (λ r n. exists-without r run_id p.workspaces n) v))
          (λ _. asked v))
      (λ _. returned-Inv run_id i h _ p _ e own refl (v.bounded i h e) (λ r n. refl) v)
  where
    asked : {q : Pool} → Inv q → Inv (ask q)
    asked u = record { distinct = u.distinct; backed = u.backed; bounded = u.bounded }

pub release-Inv : (w : World) (run_id : String) (p : Pool) → Inv p → Inv (release w run_id p).1
unfolding release
release-Inv w run_id p v =
    found (find_by_run_id run_id p.handles) (find_by_run_id-Found run_id p.handles)
  where
    safe :
        (i : ℕ) (h : Handle)
        → get_elem? p.handles i ≡ some h
        → h.run_id ≡ some run_id
        → (o : Option Error)
        → Inv (
            let r : Answer (Unit {0}) × Pool = elim o [
              | some e ↦ (raises e, p)
              | none ↦ give_back w run_id i h p
            ] in
            r.1)
    safe i h e own (some x) = v
    safe i h e own none = give_back-Inv w run_id i h p e own v

    found :
        (o : Option (ℕ × Handle))
        → Found run_id p.handles o
        → Inv (
            let r : Answer (Unit {0}) × Pool = elim o [
              | none ↦ (raises Error.not_held, p)
              | some (i, h) ↦ elim (safe_run_workspace w run_id) [
                | some e ↦ (raises e, p)
                | none ↦ give_back w run_id i h p
              ]
            ] in
            r.1)
    found none f = v
    found (some (i, h)) f = safe i h f.0 f.1 (safe_run_workspace w run_id)
