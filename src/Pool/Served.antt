-- ===== src/Pool/Served.antt =====
-- The pool against its ledger: what any calls of `acquire` and `release` answer.
use heyi_eval_v.Prelude.{
  ℕ, ◌<◌, ◌≡◌, ◌≢◌, ◌↔◌, refl, sym, ◌∙◌, true, false, Option, none, some, List, [], ◌∷◌, String,
  str_eq, eq_iff, arith, get_elem?, Bool-cases, inl, inr, if_cases,
}
use heyi_eval_v.Pool.{
  Handle, Pool, World, Answer, done, raises, Error, put, acquire, exists, give_back, release,
  find_by_run_id, safe_run_workspace, not_held,
}
use heyi_eval_v.Pool.Picks.{Found, find_by_run_id-Found}
use heyi_eval_v.Pool.Ledger.{
  idle_count, idle_count-set, found, is_held, ledger, Call, acquires, releases, returned, raised,
  with_id, Step, taken, refused, given, kept, Steps, stop, next, event_of, call, serve,
}
use heyi_eval_v.Pool.Invariant.{Inv, acquire-Inv, release-Inv}
use heyi_eval_v.Pool.Recycling.{lease_at, lease_of, get_elem?-set_if}
use heyi_eval_v.Pool.Leases.{acquire-Acquired, gone}
use heyi_eval_v.Pool.Acquired.{Leased, Acquired, safe_run_workspace-error}

held_at : (p : Pool) (j : ℕ) (r : String) → lease_at p j ≡ some r → is_held p r ≡ true
held_at p j r e = here (find_by_run_id r p.handles) (find_by_run_id-Found r p.handles)
  where
    here : (o : Option (ℕ × Handle)) → Found r p.handles o → found o ≡ true
    here (some x) f = refl
    here none f = at (get_elem? p.handles j) (f j) e
      where
        at :
            (o : Option Handle)
            → ((k : Handle)
                → o ≡ some k
                → elim k.run_id [ none ↦ false | some x ↦ str_eq x r ] ≡ false)
            → lease_of o ≡ some r
            → false ≡ true
        at none m g = absurd (cc g)
        at (some k) m g = absurd (ground (arith, m k refl, g, eq_iff r r))

held_place : (p : Pool) (r : String) → is_held p r ≡ true → (j : ℕ) × (lease_at p j ≡ some r)
held_place p r e = here (find_by_run_id r p.handles) (find_by_run_id-Found r p.handles) e
  where
    here :
        (o : Option (ℕ × Handle))
        → Found r p.handles o
        → found o ≡ true
        → (j : ℕ) × (lease_at p j ≡ some r)
    here none f g = absurd (cc g)
    here (some (i, k)) f g = (i, ground (arith, f.0, f.1))

held_nowhere : (p : Pool) (r : String) → ((j : ℕ) → lease_at p j ≢ some r) → is_held p r ≡ false
held_nowhere p r n = elim (Bool-cases (is_held p r)) [
  | inl e ↦ let (j, l) = held_place p r e in absurd (n j l)
  | inr e ↦ e
]

held_same :
    (p q : Pool) (r : String)
    → ((j : ℕ) → (lease_at p j ≡ some r) ↔ (lease_at q j ≡ some r))
    → is_held q r ≡ is_held p r
held_same p q r s = elim (Bool-cases (is_held p r)) [
  | inl e ↦ let (j, l) = held_place p r e in held_at q j r ((s j).0 l) ∙ sym e
  | inr e ↦ held_nowhere q r (λ j l. absurd (cc (held_at p j r ((s j).1 l), e))) ∙ sym e
]

ledger_same :
    (p q : Pool)
    → ((j : ℕ) → lease_at q j ≡ lease_at p j)
    → idle_count q.handles ≡ idle_count p.handles
    → ledger q ≡ ledger p
ledger_same p q l f =
    let h : (x : String) → is_held q x ≡ is_held p x =
      λ x. held_same p q x (λ j. ((λ e. l j ∙ e), λ e. sym (l j) ∙ e)) in
    λ i. record { held = λ x. h x i; free = f i }

taken_held :
    (w : World) (r : String) (h : Handle) (p q : Pool)
    → Leased w r p h q
    → (x : String) → is_held q x ≡ with_id r true (is_held p) x
taken_held w r h p q c x = elim (Bool-cases (str_eq r x)) [
  | inl e ↦ rw e (held_at q c.at x (ground (arith, c.here, c.held, eq_iff r x)))
  | inr e ↦ rw e (
      held_same p q x (λ j. (
        (λ l. ground (arith, c.idle, c.others j)),
        λ l. ground (arith, c.here, c.held, c.others j, eq_iff r x),
      )))
]

acquire-Step :
    (w : World) (r : String) (p : Pool)
    → Inv p
    → (a : Answer Handle) (q : Pool) → Acquired w r p (a, q)
    → Step (ledger p) (event_of (acquires r) a) (ledger q) × (q.max_runs ≡ p.max_runs)
acquire-Step w r p v (raises e) q c = (refused c.busy (ledger_same p q c.leases c.free), c.max_runs)
acquire-Step w r p v (done h) q c = (
  taken (held_nowhere p r (λ j l. cc (v.backed j r l, c.fresh))) c.free (taken_held w r h p q c),
  c.max_runs,
)

-- What `release` makes of the ledger.
abbrev Answered : String → Pool → Answer (Unit {0}) × Pool → Type 0
Answered r p (a, q) =
    Step (ledger p) (event_of (releases r) a) (ledger q) × (q.max_runs ≡ p.max_runs)

gave :
    (r : String) (i : ℕ) (h : Handle) (p : Pool)
    → get_elem? p.handles i ≡ some h
    → h.run_id ≡ some r
    → Inv p
    → Step (ledger p) (returned (releases r)) (ledger (put i (record h { run_id = none }) p))
gave r i h p e own v =
    given (held_at p i r (ground (arith, e, own)))
      (ground (arith, idle_count-set p.handles i h (record h { run_id = none }) e, own)) held
  where
    held :
        (x : String)
        → is_held (put i (record h { run_id = none }) p) x ≡ with_id r false (is_held p) x
    held x = elim (Bool-cases (str_eq r x)) [
      | inl k ↦ rw k (
          held_nowhere (put i (record h { run_id = none }) p) x
            (λ j l. gone r i h p [] e own v j (ground (arith, eq_iff r x))))
      | inr k ↦ rw k (
          held_same p (put i (record h { run_id = none }) p) x (λ j. (
            (λ l. ground (
              arith,
              get_elem?-set_if p.handles i j h (record h { run_id = none }) e,
              eq_iff r x,
            )),
            λ l. ground (
              arith,
              get_elem?-set_if p.handles i j h (record h { run_id = none }) e,
              eq_iff r x,
            ),
          )))
    ]

kept_by :
    (r : String) (i : ℕ) (h : Handle) (p : Pool) (x : Error)
    → get_elem? p.handles i ≡ some h
    → h.run_id ≡ some r
    → x ≢ not_held
    → Step (ledger p) (raised (releases r) x) (ledger p)
kept_by r i h p x e own n =
    kept ((λ g. absurd (n g)), λ g. absurd (cc (g, held_at p i r (ground (arith, e, own))))) refl

give_back-Answered :
    (w : World) (r : String) (i : ℕ) (h : Handle) (p : Pool)
    → get_elem? p.handles i ≡ some h
    → h.run_id ≡ some r
    → Inv p
    → Answered r p (give_back w r i h p)
unfolding give_back
give_back-Answered w r i h p e own v =
    if_cases (Answered r p) (exists r p.workspaces) _ _
      (λ _.
        if_cases (Answered r p) (w.removes p.asked r) _ _ (λ _. (gave r i h p e own v, refl))
          (λ _. (kept_by r i h p Error.rmtree_failed e own (λ g. cc g), refl)))
      (λ _. (gave r i h p e own v, refl))

release-Answered : (w : World) (r : String) (p : Pool) → Inv p → Answered r p (release w r p)
unfolding release
release-Answered w r p v =
    holder (find_by_run_id r p.handles) (find_by_run_id-Found r p.handles) refl
  where
    safe :
        (i : ℕ) (h : Handle)
        → get_elem? p.handles i ≡ some h
        → h.run_id ≡ some r
        → (o : Option Error) → safe_run_workspace w r ≡ o
        → Answered r p (elim o [ some e ↦ (raises e, p) | none ↦ give_back w r i h p ])
    safe i h e own (some x) s = (kept_by r i h p x e own (safe_run_workspace-error w r x s).1, refl)
    safe i h e own none s = give_back-Answered w r i h p e own v

    holder :
        (o : Option (ℕ × Handle))
        → Found r p.handles o
        → find_by_run_id r p.handles ≡ o
        → Answered r p (elim o [
          | none ↦ (raises not_held, p)
          | some (i, h) ↦ elim (safe_run_workspace w r) [
            | some e ↦ (raises e, p)
            | none ↦ give_back w r i h p
          ]
        ])
    holder none f k = (kept ((λ _. rw k refl), λ _. refl) refl, refl)
    holder (some (i, h)) f k = safe i h f.0 f.1 (safe_run_workspace w r) refl

call-Step :
    (w : World) (c : Call) (p : Pool)
    → 0 < p.max_runs
    → Inv p
    → Step (ledger p) (call w c p).0 (ledger (call w c p).1)
      × (0 < (call w c p).1.max_runs)
      × Inv (call w c p).1
call-Step w (acquires r) p lt v =
    let (s, m) =
      acquire-Step w r p v (acquire w r p).0 (acquire w r p).1 (acquire-Acquired w r p) in
    (s, rw m lt, acquire-Inv w r p lt v)
call-Step w (releases r) p lt v =
    let (s, m) = release-Answered w r p v in (s, rw m lt, release-Inv w r p v)

-- Whatever calls are made of a well-formed pool, one after the other, and whatever docker answers, the
-- ledger of the pool (the ids that hold a container, the number of free containers) goes step by step as
-- the answers say: an `acquire` that returns takes a free container for an id that held none; one that
-- raises changes nothing, with PoolBusy exactly when no container is free; a `release` that returns
-- frees the id and its container; one that raises changes nothing, with "not held" exactly when the id
-- holds none. The pool stays well-formed: no id is held twice, each has its workspace, and no container
-- has had more runs than the limit, which is asked to be above 0.
pub serve-Steps :
    (w : World) (cs : List Call) (p : Pool)
    → 0 < p.max_runs
    → Inv p
    → Steps (ledger p) (serve w cs p).0 (ledger (serve w cs p).1) × Inv (serve w cs p).1
unfolding serve
serve-Steps w [] p lt v = (stop, v)
serve-Steps w (c ∷ cs) p lt v =
    let (s, m, u) = call-Step w c p lt v in
    let (rest, inv) = serve-Steps w cs (call w c p).1 m u in (next s rest, inv)
