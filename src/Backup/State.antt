-- ===== src/Backup/State.antt =====
-- backup/snapshot.py: read_backup_state, what the panel shows of the backups, and its health. Times are
-- whole seconds.
use heyi_eval_v.Prelude.{
  ℕ, ◌+◌, ◌≤◌, ◌≡◌, refl, subst, Bool, true, false, Option, none, some, List, [], ◌∷◌, String, leb,
  if◌then◌else◌, length, if_cases, arith,
}
use heyi_eval_v.Prelude.Int.{ℤ, pos, negsuc, sub_ℕ}
use heyi_eval_v.Backup.{
  Child, Root, Host, Answer, SnapshotResult, result, file_exists, take_snapshot, list_snapshot_dirs,
  insert_by_name, name_leb, is_snapshot_name, new_child, without,
}
use heyi_eval_v.Backup.Taken.{take_snapshot_cases}

pub data Health : Type 0 where
  ok warn down : Health

pub record BackupState : Type 0 where
  pub last_backup_ts : Option ℕ
  pub last_backup_age_s : Option ℤ
  pub snapshot_count : ℕ
  pub total_size_bytes : ℕ
  pub health : Health

abbrev no_more_than : ℤ → ℕ → Bool
no_more_than (pos a) n = leb a n
no_more_than (negsuc a) n = true

health_from_age : Option ℤ → Bool → Health
health_from_age none has_snapshots = down
health_from_age (some age) false = down
health_from_age (some age) true =
    if no_more_than age 3600 then ok else if no_more_than age 86400 then warn else down

total_size : List Child → ℕ
total_size [] = 0
total_size (c ∷ rest) = elim c.meta_size [ none ↦ 0 | some n ↦ n ] + total_size rest

abbrev age_at : ℕ → Option ℕ → Option ℤ
age_at now none = none
age_at now (some t) = some (sub_ℕ now t)

abbrev has_some : List Child → Bool
has_some [] = false
has_some (c ∷ rest) = true

-- `none` is a backups_root that does not exist.
unfoldable pub read_backup_state : ℕ → Option Root → BackupState
unfolding health_from_age total_size
read_backup_state now none = record {
  last_backup_ts = none;
  last_backup_age_s = none;
  snapshot_count = 0;
  total_size_bytes = 0;
  health = down;
}
read_backup_state now (some root) =
    let snapshots = list_snapshot_dirs root.children in
    record {
      last_backup_ts = root.last_backup;
      last_backup_age_s = age_at now root.last_backup;
      snapshot_count = length snapshots;
      total_size_bytes = total_size snapshots;
      health = health_from_age (age_at now root.last_backup) (has_some snapshots);
    }

some_inserted : (c : Child) (l : List Child) → has_some (insert_by_name c l) ≡ true
unfolding insert_by_name
some_inserted c [] = refl
some_inserted c (x ∷ rest) =
    if_cases (λ l. has_some l ≡ true) (name_leb c.name x.name) _ _ (λ _. refl) (λ _. refl)

listed :
    (ts : String) (now : ℕ) (size : Option ℕ) (l : List Child)
    → is_snapshot_name ts ≡ true
    → has_some (list_snapshot_dirs (new_child ts now size ∷ l)) ≡ true
unfolding list_snapshot_dirs
listed ts now size l h = rw (h) (some_inserted (new_child ts now size) (list_snapshot_dirs l))

young : (now later : ℕ) → later ≤ now + 3600 → health_from_age (some (sub_ℕ later now)) true ≡ ok
unfolding health_from_age
young now later h = ground arith

-- Once a snapshot has been taken under a name of the pattern, the panel shows the backups healthy for
-- the hour that follows.
pub read_backup_state-take_snapshot :
    (host : Host) (ts : String) (now later : ℕ) (p q : Root) (r : SnapshotResult)
    → is_snapshot_name ts ≡ true
    → later ≤ now + 3600
    → take_snapshot host ts now p ≡ (result r, q)
    → r.error_kind ≡ none
    → (read_backup_state later (some q)).health ≡ ok
unfolding read_backup_state
read_backup_state-take_snapshot host ts now later p q r h l e = subst Shown e (
    take_snapshot_cases host ts now p Shown (record {
      refused = λ kind f. cc;
      clash = tt;
      wiped = λ kind f. cc;
      left = λ kind f. cc;
      unlinked = λ size f. cc;
      linked = λ size f. cc;
      taken =
          λ size f. rw (listed ts now (some size) (without ts p.children) h) (young now later l);
    }))
  where
    Shown : Answer × Root → Type 0
    Shown (file_exists, q) = Unit
    Shown (result r, q) = r.error_kind ≡ none → (read_backup_state later (some q)).health ≡ ok
