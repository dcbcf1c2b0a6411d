-- ===== src/Pool/Recycling.antt =====
-- The pool of agent_driver/pool_manager.py after `_maybe_recycle`: which handles change, and how.
use heyi_eval_v.Prelude.{
  ℕ, zero, suc, ◌+◌, ◌-◌, ◌⊎◌, ◌≤◌, ◌<◌, ◌≡◌, refl, Bool, true, false, Option, none, some, List,
  String, arith, get_elem?, set, get_elem?-set_self, get_elem?-set_ne, Bool-cases, inl, inr,
  if_cases, ◌==◌, if◌then◌else◌,
}
use heyi_eval_v.Pool.{
  Handle, Pool, World, Answer, done, raises, Error, put, ask, poll, restarted, maybe_recycle, due,
  container_unhealthy,
}
use heyi_eval_v.Pool.Ledger.{idle_count, idle_count-set}

abbrev pub lease_of : Option Handle → Option String
lease_of none = none
lease_of (some h) = h.run_id

abbrev pub lease_at : Pool → ℕ → Option String
lease_at p i = lease_of (get_elem? p.handles i)

pub record Kept (p q : Pool) : Type 0 where
  pub handles : q.handles ≡ p.handles
  pub workspaces : q.workspaces ≡ p.workspaces
  pub max_runs : q.max_runs ≡ p.max_runs

pub poll-Kept : (n : ℕ) (w : World) (name : String) (p : Pool) → Kept p (poll n w name p).1
unfolding poll
poll-Kept zero w name p = record { handles = refl; workspaces = refl; max_runs = refl }
poll-Kept (suc n) w name p =
    elim (w.running p.asked name)
      as (λ b. Kept p (
        let r : Bool × Pool = elim b [ true ↦ (true, ask p) | false ↦ poll n w name (ask p) ] in
        r.1)) [
          | true ↦ record { handles = refl; workspaces = refl; max_runs = refl }
          | false ↦
              let k = poll-Kept n w name (ask p) in
              record { handles = k.handles; workspaces = k.workspaces; max_runs = k.max_runs }
        ]

pub get_elem?-set_if {ℓ} :
    {A : Type ℓ} (hs : List A) (i j : ℕ) (x h : A)
    → get_elem? hs i ≡ some x
    → get_elem? (set hs i h) j ≡ (if i == j then some h else get_elem? hs j)
get_elem?-set_if hs i j x h e = elim (Bool-cases (i == j)) [
  | inl k ↦ rw k (let same : i ≡ j = ground arith in rw (← same) (get_elem?-set_self hs i h x e))
  | inr k ↦ rw k (get_elem?-set_ne hs i j h k)
]

abbrev pub Bounded : ℕ → List Handle → Type 0
Bounded n hs = (i : ℕ) (h : Handle) → get_elem? hs i ≡ some h → h.run_count ≤ n

pub Bounded-set :
    (n : ℕ) (hs : List Handle) (i : ℕ) (x h : Handle)
    → get_elem? hs i ≡ some x
    → h.run_count ≤ n
    → Bounded n hs
    → Bounded n (set hs i h)
Bounded-set n hs i x h e le b j k g = elim (Bool-cases (i == j)) [
  | inl same ↦ ground (arith, get_elem?-set_if hs i j x h e)
  | inr other ↦ b j k (ground (arith, get_elem?-set_if hs i j x h e))
]

-- The container has had its runs, or has reached its age.
abbrev pub Spent : ℕ → Pool → Handle → Type 0
Spent now p h = (p.max_runs ≤ h.run_count) ⊎ (p.max_age ≤ now - h.booted_at)

abbrev pub Unspent : ℕ → Pool → Handle → Type 0
Unspent now p h = (h.run_count < p.max_runs) × (now - h.booted_at < p.max_age)

-- The pool after `_maybe_recycle` at the place `i`, where `h` stood, at the time `now`.
pub record Recycled (now i : ℕ) (h : Handle) (p : Pool) (a : Answer Handle) (q : Pool)
    : Type 0 where
  pub workspaces : q.workspaces ≡ p.workspaces
  pub max_runs : q.max_runs ≡ p.max_runs
  pub leases : (j : ℕ) → lease_at q j ≡ lease_at p j
  pub others : (j : ℕ) → (i == j) ≡ false → get_elem? q.handles j ≡ get_elem? p.handles j
  pub bounded : (n : ℕ) → Bounded n p.handles → Bounded n q.handles
  pub free : idle_count q.handles ≡ idle_count p.handles
  pub error : (x : Error) → a ≡ raises x → x ≡ container_unhealthy
  pub ready :
      (h' : Handle)
      → a ≡ done h'
      → (get_elem? q.handles i ≡ some h')
        × (h'.run_id ≡ h.run_id)
        × (h'.name ≡ h.name)
        × (0 < p.max_runs → h'.run_count < p.max_runs)
  pub counted :
      (h' : Handle)
      → a ≡ done h'
      → ((h'.run_count ≡ h.run_count) × Unspent now p h) ⊎ ((h'.run_count ≡ 0) × Spent now p h)

spent : (now : ℕ) (h : Handle) (p : Pool) → due p now h ≡ true → Spent now p h
spent now h p e = ground arith

unspent : (now : ℕ) (h : Handle) (p : Pool) → due p now h ≡ false → Unspent now p h
unspent now h p e = (ground arith, ground arith)

restarted-Recycled :
    (w : World) (now i : ℕ) (h : Handle) (p : Pool)
    → get_elem? p.handles i ≡ some h
    → Spent now p h
    → Recycled now i h p (restarted w i h p).0 (restarted w i h p).1
unfolding restarted
restarted-Recycled w now i h p e s =
    let h' : Handle = record h { run_count = 0; booted_at = w.clock p.asked } in
    let k = poll-Kept 30 w h.name (ask (put i h' p)) in
    record {
      workspaces = k.workspaces;
      max_runs = k.max_runs;
      leases = λ j. rw k.handles (ground (arith, get_elem?-set_if p.handles i j h h' e));
      others = λ j n. rw k.handles (get_elem?-set_ne p.handles i j h' n);
      bounded = λ n b. rw k.handles (Bounded-set n p.handles i h h' e (omega arith) b);
      free = rw k.handles (ground (arith, idle_count-set p.handles i h h' e));
      error = λ x g. ground arith;
      ready = λ x g.
          let same : h' ≡ x = ground arith in
          rw (← same) (rw k.handles (get_elem?-set_self p.handles i h' h e), refl, refl, λ lt. lt);
      counted = λ x g. inr (ground arith, s);
    }

Recycled-asked :
    {now i : ℕ} {h : Handle} {p q : Pool} {a : Answer Handle}
    → Recycled now i h (ask (ask p)) a q
    → Recycled now i h p a q
Recycled-asked c = record {
  workspaces = c.workspaces;
  max_runs = c.max_runs;
  leases = c.leases;
  others = c.others;
  bounded = c.bounded;
  free = c.free;
  error = c.error;
  ready = c.ready;
  counted = c.counted;
}

pub maybe_recycle-Recycled :
    (w : World) (i : ℕ) (h : Handle) (p : Pool)
    → get_elem? p.handles i ≡ some h
    → Recycled (w.clock p.asked) i h p (maybe_recycle w i h p).0 (maybe_recycle w i h p).1
unfolding maybe_recycle
maybe_recycle-Recycled w i h p e =
    if_cases (λ (r : Answer Handle × Pool). Recycled (w.clock p.asked) i h p r.0 r.1)
      (due p (w.clock p.asked) h) _ _
      (λ y.
        if_cases (λ (r : Answer Handle × Pool). Recycled (w.clock p.asked) i h p r.0 r.1)
          (w.restarts (p.asked + 1) h.name) _ _
          (λ _. Recycled-asked (
            restarted-Recycled w (w.clock p.asked) i h (ask (ask p)) e
              (spent (w.clock p.asked) h p y)))
          (λ _. record {
            workspaces = refl;
            max_runs = refl;
            leases = λ _. refl;
            others = λ _ _. refl;
            bounded = λ _ b. b;
            free = refl;
            error = λ x g. ground arith;
            ready = λ x g. absurd (cc g);
            counted = λ x g. absurd (cc g);
          }))
      (λ n. record {
        workspaces = refl;
        max_runs = refl;
        leases = λ _. refl;
        others = λ _ _. refl;
        bounded = λ _ b. b;
        free = refl;
        error = λ x g. absurd (cc g);
        ready = λ x g. ground arith;
        counted = λ x g. inl (ground arith, unspent (w.clock p.asked) h p n);
      })
