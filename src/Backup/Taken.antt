-- ===== src/Backup/Taken.antt =====
-- What `take_snapshot` leaves behind on each of its branches.
use heyi_eval_v.Prelude.{
  ℕ, ◌≡◌, refl, ◌∙◌, ◌⊎◌, inl, inr, true, false, not, ◌&&◌, Option, none, some, List, [], ◌∷◌,
  String, str_eq, eq_iff, arith, if_cases, ◌==◌, if◌then◌else◌,
}
use heyi_eval_v.Backup.{
  Child, Root, Host, Rsync, ran, file_not_found, crashed, Answer, result, file_exists, ErrorKind,
  pointer_update_failed, rsync_missing, rsync_crash, rsync_nonzero, meta_write_failed, overlap,
  src_missing, overlaps, has_child, latest_snapshot, without, fail, new_child, wipe_and_fail,
  update_pointers, after_rsync, take_snapshot,
}

-- A property of each of the ends that `take_snapshot` may come to.
pub record Ends (ts : String) (now : ℕ) (p : Root) (P : Answer × Root → Type 0) : Type 0 where
  pub refused : (kind : ErrorKind) → P (fail kind none p)
  pub clash : P (file_exists, p)
  pub wiped :
      (kind : ErrorKind) → P (fail kind none (record p { children = without ts p.children }))
  pub left :
      (kind : ErrorKind)
      → P (fail kind none (record p { children = new_child ts now none ∷ without ts p.children }))
  pub unlinked :
      (size : ℕ)
      → P (
          fail pointer_update_failed
            (some ts)
            (record p { children = new_child ts now (some size) ∷ without ts p.children }))
  pub linked :
      (size : ℕ)
      → P (
          fail pointer_update_failed (some ts) (record p {
            children = new_child ts now (some size) ∷ without ts p.children;
            latest = some ts;
          }))
  pub taken :
      (size : ℕ)
      → P (
        result (record { ok = true; snapshot_ts = some ts; size_bytes = size; error_kind = none }),
        record p {
          children = new_child ts now (some size) ∷ without ts p.children;
          latest = some ts;
          last_backup = some now;
        },
      )

module _ (host : Host) (ts : String) (now : ℕ) (p : Root) (P : Answer × Root → Type 0)
    (h : Ends ts now p P) where
  begun : Root
  begun = record p { children = new_child ts now none ∷ without ts p.children }

  wipe_end : (kind : ErrorKind) → P (wipe_and_fail host kind (without ts p.children) begun)
  unfolding wipe_and_fail begun
  wipe_end kind =
      if_cases (λ r. P (fail kind none r)) host.wipes_after _ _ (λ _. h.wiped kind)
        (λ _. h.left kind)

  pointers_end :
      (size : ℕ)
      → P (
          update_pointers host ts now size
            (record p { children = new_child ts now (some size) ∷ without ts p.children }))
  unfolding update_pointers
  pointers_end size =
      if_cases P host.links_latest _ _
        (λ _. if_cases P host.writes_last _ _ (λ _. h.taken size) (λ _. h.linked size))
        (λ _. h.unlinked size)

  rsync_end : (r : Rsync) → P (after_rsync host ts now r (without ts p.children) begun)
  unfolding after_rsync begun
  rsync_end file_not_found = wipe_end rsync_missing
  rsync_end crashed = wipe_end rsync_crash
  rsync_end (ran out) =
      if_cases P (out.returncode == 0) _ _
        (λ _.
          if_cases P host.writes_meta _ _ (λ _. pointers_end out.size_bytes)
            (λ _. wipe_end meta_write_failed))
        (λ _. wipe_end rsync_nonzero)

  pub take_snapshot_cases : P (take_snapshot host ts now p)
  unfolding take_snapshot begun
  take_snapshot_cases =
      if_cases P (overlaps host.data_root host.backups_root) _ _ (λ _. h.refused overlap)
        (λ _.
          if_cases P (not host.src_exists) _ _ (λ _. h.refused src_missing)
            (λ _.
              if_cases P (has_child ts p.children && not host.wipes_before) _ _ (λ _. h.clash)
                (λ _. rsync_end (host.run_rsync (latest_snapshot ts p.children)))))

without_self :
    (ts : String) (c : Child) (l : List Child) → c.name ≡ ts → without ts (c ∷ l) ≡ without ts l
unfolding without
without_self ts c l e = rw ((eq_iff c.name ts).1 e)

without_twice : (ts : String) (l : List Child) → without ts (without ts l) ≡ without ts l
unfolding without
without_twice ts [] = refl
without_twice ts (c ∷ rest) = ground (arith, without_twice ts rest)

-- No child of backups_root but the new snapshot's directory is changed, whatever happens.
pub take_snapshot-others :
    (host : Host) (ts : String) (now : ℕ) (p : Root)
    → without ts (take_snapshot host ts now p).1.children ≡ without ts p.children
take_snapshot-others host ts now p =
    take_snapshot_cases host ts now p (λ r. without ts r.1.children ≡ without ts p.children)
      (record {
        refused = λ kind. refl;
        clash = refl;
        wiped = λ kind. without_twice ts p.children;
        left = λ kind. added none;
        unlinked = λ size. added (some size);
        linked = λ size. added (some size);
        taken = λ size. added (some size);
      })
  where
    added :
        (size : Option ℕ)
        → without ts (new_child ts now size ∷ without ts p.children) ≡ without ts p.children
    added size =
        without_self ts (new_child ts now size) (without ts p.children) refl
        ∙ without_twice ts p.children

-- The size that the metadata of a snapshot tells, if there are any.
abbrev pub meta_at : String → List Child → Option ℕ
meta_at ts [] = none
meta_at ts (c ∷ rest) = if str_eq c.name ts then c.meta_size else meta_at ts rest

-- The pointer `latest` stays where it is, or goes to the new snapshot, whose metadata are written then.
pub take_snapshot-latest :
    (host : Host) (ts : String) (now : ℕ) (p : Root)
    → let q = (take_snapshot host ts now p).1 in
      (q.latest ≡ p.latest)
      ⊎ ((q.latest ≡ some ts) × ((size : ℕ) × (meta_at ts q.children ≡ some size)))
take_snapshot-latest host ts now p =
    take_snapshot_cases host ts now p
      (λ r.
        (r.1.latest ≡ p.latest)
        ⊎ ((r.1.latest ≡ some ts) × ((size : ℕ) × (meta_at ts r.1.children ≡ some size))))
      (record {
        refused = λ kind. inl refl;
        clash = inl refl;
        wiped = λ kind. inl refl;
        left = λ kind. inl refl;
        unlinked = λ size. inl refl;
        linked = λ size. inr (refl, (size, written size));
        taken = λ size. inr (refl, (size, written size));
      })
  where
    written :
        (size : ℕ) → meta_at ts (new_child ts now (some size) ∷ without ts p.children) ≡ some size
    written size = rw ((eq_iff ts ts).1 refl)

-- What an answer says of the backups.
abbrev pub Told : String → ℕ → Root → Answer × Root → Type 0
Told ts now p (file_exists, q) = q ≡ p
Told ts now p (result r, q) = elim r.error_kind [
  | none ↦
      (r.ok ≡ true)
      × (q.latest ≡ some ts)
      × (q.last_backup ≡ some now)
      × (meta_at ts q.children ≡ some r.size_bytes)
      × (q.failures ≡ p.failures)
  | some kind ↦ (r.ok ≡ false) × (q.last_backup ≡ p.last_backup) × (q.failures ≡ kind ∷ p.failures)
]

-- A result without an error tells of a snapshot with its metadata, to which both pointers go, and no
-- event is written; a result with an error leaves last_backup.txt as it was, and its kind is told in one
-- event; and the exception of mkdir leaves all as it was.
pub take_snapshot-Told :
    (host : Host) (ts : String) (now : ℕ) (p : Root) → Told ts now p (take_snapshot host ts now p)
take_snapshot-Told host ts now p = take_snapshot_cases host ts now p (Told ts now p) (record {
  refused = λ kind. (refl, refl, refl);
  clash = refl;
  wiped = λ kind. (refl, refl, refl);
  left = λ kind. (refl, refl, refl);
  unlinked = λ size. (refl, refl, refl);
  linked = λ size. (refl, refl, refl);
  taken = λ size. (refl, refl, refl, rw ((eq_iff ts ts).1 refl), refl);
})
