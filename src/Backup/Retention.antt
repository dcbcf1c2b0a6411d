-- ===== src/Backup/Retention.antt =====
-- backup/retention.py: the removal of old snapshots. The three lists hold the entries, of which the
-- source keeps the names. Times are in seconds.
pub mod Pruned
use heyi_eval_v.Prelude.{
  ℕ, suc, ◌+◌, ◌*◌, ◌≤◌, ◌<◌, ◌≡◌, refl, sym, subst, ◌⊎◌, inl, inr, Bool, true, false, Option, none,
  some, List, [], ◌∷◌, String, str_eq, eq_iff, leb, arith, All, if_cases, if◌then◌else◌, length,
}
use heyi_eval_v.Backup.{Child, is_snapshot, name_leb, list_snapshot_dirs}
use heyi_eval_v.Backup.Names.{
  ByName, All-list_snapshot_dirs, list_snapshot_dirs-ByName, name_leb_refl,
}

pub record PruneResult : Type 0 where
  pub removed : List Child
  pub failed : List Child
  pub kept : List Child

abbrev pub nothing : PruneResult
nothing = record { removed = []; failed = []; kept = [] }

abbrev pub keep_days : ℕ
keep_days = 7

pub data Fate : Type 0 where
  removes fails keeps : Fate

-- mtime >= now - keep_days
abbrev pub recent : ℕ → ℕ → ℕ → Bool
recent now days t = leb now (t + days * 86400)

-- One round of the loop; `rmtree` says whether the removal returns.
pub fate : (String → Bool) → ℕ → ℕ → String → Child → Fate
fate rmtree now days forced c = if str_eq c.name forced then keeps else elim c.mtime [
  | none ↦ fails
  | some t ↦ if recent now days t then keeps else if rmtree c.name then removes else fails
]

abbrev pub put : Fate → Child → PruneResult → PruneResult
put removes c r = record r { removed = c ∷ r.removed }
put fails c r = record r { failed = c ∷ r.failed }
put keeps c r = record r { kept = c ∷ r.kept }

pub prune_all : (String → Bool) → ℕ → ℕ → String → List Child → PruneResult
unfolding fate
prune_all rmtree now days forced [] = nothing
prune_all rmtree now days forced (c ∷ rest) =
    put (fate rmtree now days forced c) c (prune_all rmtree now days forced rest)

-- `snaps[-1]`, of a list that is not empty.
pub last_of : Child → List Child → Child
last_of c [] = c
last_of c (x ∷ rest) = last_of x rest

abbrev pub prune_snaps : (String → Bool) → ℕ → ℕ → List Child → PruneResult
prune_snaps rmtree now days [] = nothing
prune_snaps rmtree now days (c ∷ rest) = prune_all rmtree now days (last_of c rest).name (c ∷ rest)

-- `none` is a backups_root that does not exist.
unfoldable pub prune_old_snapshots : (String → Bool) → ℕ → ℕ → Option (List Child) → PruneResult
unfolding prune_all last_of
prune_old_snapshots rmtree now days none = nothing
prune_old_snapshots rmtree now days (some children) =
    prune_snaps rmtree now days (list_snapshot_dirs children)
