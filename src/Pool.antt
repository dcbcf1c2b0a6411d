-- ===== src/Pool.antt =====
-- agent_driver/pool_manager.py: the pool of agent containers, with a workspace for each lease.
-- A handle is known by its place in the pool's dictionary. What docker, the clock and the file system
-- answer comes in a record `World`, asked at the number of questions so far.
pub mod Picks
pub mod Ledger
pub mod Recycling
pub mod Invariant
pub mod Acquired
pub mod Leases
pub mod Served
mod Samples
use Prim.Native.Char.{code}
use heyi_eval_v.Prelude.{
  ℕ, zero, suc, ◌+◌, ◌-◌, Bool, true, false, not, ◌&&◌, ◌||◌, Option, none, some, List, [], ◌∷◌,
  String, str_eq, ltb, leb, ◌==◌, if◌then◌else◌, get_elem?, set,
}

pub record Handle : Type 0 where
  pub name : String
  pub run_count : ℕ
  pub booted_at : ℕ
  -- `none` is idle
  pub run_id : Option String

pub record Pool : Type 0 where
  pub max_runs : ℕ
  -- max_hours_before_recycle, in the clock's unit
  pub max_age : ℕ
  pub handles : List Handle
  -- the run directories under host_workspace_root
  pub workspaces : List String
  pub asked : ℕ

pub record World : Type 0 where
  -- time.monotonic()
  pub clock : ℕ → ℕ
  -- whether `containers.get(name).restart(...)` returns
  pub restarts : ℕ → String → Bool
  -- whether docker says "running"
  pub running : ℕ → String → Bool
  -- whether the resolved path of a run directory begins with the root's
  pub inside : String → Bool
  -- whether `shutil.rmtree` returns
  pub removes : ℕ → String → Bool

pub data Error : Type 0 where
  pool_busy container_unhealthy bad_run_id path_escape workspace_exists not_held rmtree_failed :
      Error

pub data Answer {ℓ} (A : Type ℓ) : Type ℓ where
  done : A → Answer A
  raises : Error → Answer A

abbrev codes : String → List ℕ
codes String.[] = []
codes (String.◌∷◌ c s) = code c ∷ codes s

abbrev has : ℕ → List ℕ → Bool
has c [] = false
has c (x ∷ rest) = x == c || has c rest

-- `".." in run_id`
abbrev two_dots : List ℕ → Bool
two_dots [] = false
two_dots (x ∷ []) = false
two_dots (x ∷ y ∷ rest) = (x == b'.' && y == b'.') || two_dots (y ∷ rest)

abbrev starts_with_dot : List ℕ → Bool
starts_with_dot [] = false
starts_with_dot (x ∷ rest) = x == b'.'

unfoldable pub bad_name : String → Bool
bad_name s = let cs = codes s in has b'/' cs || has b'\\' cs || two_dots cs || starts_with_dot cs

-- The exception of `safe_run_workspace`, if it raises one.
unfoldable pub safe_run_workspace : World → String → Option Error
safe_run_workspace w run_id =
    if bad_name run_id then some bad_run_id else if w.inside run_id then none else some path_escape

abbrev pub is_idle : Handle → Bool
is_idle h = elim h.run_id [ none ↦ true | some r ↦ false ]

-- The key of `min`: (run_count, booted_at), in the order of tuples.
abbrev pub no_worse : Handle → Handle → Bool
no_worse a b =
    ltb a.run_count b.run_count || (a.run_count == b.run_count && leb a.booted_at b.booted_at)

pub better : Handle → Option (ℕ × Handle) → ℕ × Handle
better h none = (0, h)
better h (some (i, k)) = if no_worse h k then (0, h) else (suc i, k)

abbrev shifted : Option (ℕ × Handle) → Option (ℕ × Handle)
shifted none = none
shifted (some (i, k)) = some (suc i, k)

-- The place of the idle handle with the least key, the first of several.
unfoldable pub pick_idle : List Handle → Option (ℕ × Handle)
unfolding better
pick_idle [] = none
pick_idle (h ∷ rest) =
    let found = pick_idle rest in if is_idle h then some (better h found) else shifted found

abbrev pub holds : String → Handle → Bool
holds run_id h = elim h.run_id [ none ↦ false | some r ↦ str_eq r run_id ]

pub find_by_run_id : String → List Handle → Option (ℕ × Handle)
find_by_run_id run_id [] = none
find_by_run_id run_id (h ∷ rest) =
    let found = find_by_run_id run_id rest in if holds run_id h then some (0, h) else shifted found

abbrev pub put : ℕ → Handle → Pool → Pool
put i h p = record p { handles = set p.handles i h }

abbrev pub ask : Pool → Pool
ask p = record p { asked = p.asked + 1 }

unfoldable pub is_healthy : World → String → Pool → Bool × Pool
is_healthy w name p = (w.running p.asked name, ask p)

-- The probes that follow a restart, at most so many.
pub poll : ℕ → World → String → Pool → Bool × Pool
unfolding is_healthy
poll zero w name p = (false, p)
poll (suc n) w name p =
    let (ok, q) = is_healthy w name p in elim ok [ true ↦ (true, q) | false ↦ poll n w name q ]

abbrev pub probes : ℕ
probes = 30

abbrev pub due : Pool → ℕ → Handle → Bool
due p now h = leb p.max_runs h.run_count || leb p.max_age (now - h.booted_at)

-- The handle after its restart, and the rest of `_maybe_recycle`.
pub restarted : World → ℕ → Handle → Pool → Answer Handle × Pool
restarted w i h p =
    let h' = record h { run_count = 0; booted_at = w.clock p.asked } in
    let (ok, q) = poll probes w h.name (ask (put i h' p)) in
    (if ok then done h' else raises container_unhealthy, q)

unfoldable pub maybe_recycle : World → ℕ → Handle → Pool → Answer Handle × Pool
unfolding restarted
maybe_recycle w i h p =
    let q = ask p in
    if due p (w.clock p.asked) h
    then (if w.restarts q.asked h.name
        then restarted w i h (ask q)
        else (raises container_unhealthy, ask q))
    else (done h, q)

-- Whether the run directory is there; the empty id names the root itself.
pub exists : String → List String → Bool
exists r [] = str_eq r ""
exists r (x ∷ rest) = str_eq x r || exists r rest

-- What `acquire` does when the container is ready.
unfoldable pub lease : World → String → ℕ → Handle → Pool → Answer Handle × Pool
unfolding exists
lease w run_id i h p = elim (safe_run_workspace w run_id) [
  | some e ↦ (raises e, p)
  | none ↦
      if exists run_id p.workspaces
      then (raises workspace_exists, p)
      else let h' = record h { run_id = some run_id; run_count = h.run_count + 1 } in
        (done h', put i h' (record p { workspaces = run_id ∷ p.workspaces }))
]

abbrev then_lease : World → String → ℕ → Answer Handle × Pool → Answer Handle × Pool
then_lease w run_id i (raises e, p) = (raises e, p)
then_lease w run_id i (done h, p) = lease w run_id i h p

unfoldable pub acquire : World → String → Pool → Answer Handle × Pool
acquire w run_id p = elim (pick_idle p.handles) [
  | none ↦ (raises pool_busy, p)
  | some (i, h) ↦ then_lease w run_id i (maybe_recycle w i h p)
]

-- `shutil.rmtree(ws)`
pub without : String → List String → List String
without r [] = []
without r (x ∷ rest) = let left = without r rest in if str_eq x r then left else x ∷ left

pub give_back : World → String → ℕ → Handle → Pool → Answer (Unit {0}) × Pool
unfolding exists without
give_back w run_id i h p =
    let h' = record h { run_id = none } in
    if exists run_id p.workspaces
    then (if w.removes p.asked run_id
        then (done tt, put i h' (ask (record p { workspaces = without run_id p.workspaces })))
        else (raises rmtree_failed, ask p))
    else (done tt, put i h' p)

pub release : World → String → Pool → Answer (Unit {0}) × Pool
release w run_id p = elim (find_by_run_id run_id p.handles) [
  | none ↦ (raises not_held, p)
  | some (i, h) ↦ elim (safe_run_workspace w run_id) [
    | some e ↦ (raises e, p)
    | none ↦ give_back w run_id i h p
  ]
]
