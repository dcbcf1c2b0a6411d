-- ===== src/Backup/Retention/Pruned.antt =====
-- What the pruning of old snapshots removes, and what it keeps.
use heyi_eval_v.Prelude.{
  ℕ, ◌+◌, ◌*◌, ◌<◌, ◌≡◌, ◌≢◌, refl, sym, subst, ◌⊎◌, inl, inr, Bool, true, false, Option, none,
  some, List, [], ◌∷◌, String, str_eq, eq_iff, arith, All, if_cases, if◌then◌else◌, length,
}
use heyi_eval_v.Backup.{Child, is_snapshot, name_leb, list_snapshot_dirs}
use heyi_eval_v.Backup.Names.{
  ByName, All-list_snapshot_dirs, list_snapshot_dirs-ByName, name_leb_refl,
}
use heyi_eval_v.Backup.Retention.{
  PruneResult, Fate, removes, fails, keeps, fate, put, prune_all, last_of, prune_snaps,
  prune_old_snapshots, recent,
}

-- Whether an entry of the list is such.
abbrev pub Any : (Child → Type 0) → List Child → Type 0
Any P [] = ⊥
Any P (c ∷ rest) = P c ⊎ Any P rest

-- What a removal needs: a snapshot whose time is known and past, and an `rmtree` that returns.
abbrev pub Expired : (String → Bool) → ℕ → ℕ → Child → Type 0
Expired rmtree now days c =
    (is_snapshot c ≡ true)
    × ((t : ℕ) × (c.mtime ≡ some t) × (t + days * 86400 < now))
    × (rmtree c.name ≡ true)

-- A failure: the time cannot be read, or `rmtree` raises.
abbrev pub Stuck : (String → Bool) → Child → Type 0
Stuck rmtree c = (c.mtime ≡ none) ⊎ (rmtree c.name ≡ false)

abbrev Fated : (String → Bool) → ℕ → ℕ → Fate → Child → Type 0
Fated rmtree now days removes c = is_snapshot c ≡ true → Expired rmtree now days c
Fated rmtree now days fails c = Stuck rmtree c
Fated rmtree now days keeps c = Unit

module _ (rmtree : String → Bool) (now days : ℕ) (forced : String) where
  timed :
      (c : Child) (o : Option ℕ)
      → c.mtime ≡ o
      → Fated rmtree now days
          (elim o [
            | none ↦ fails
            | some t ↦ if recent now days t then keeps else if rmtree c.name then removes else fails
          ])
          c
  timed c none e = inl e
  timed c (some t) e =
      if_cases (λ f. Fated rmtree now days f c) (recent now days t) _ _ (λ _. tt)
        (λ n.
          if_cases (λ f. Fated rmtree now days f c) (rmtree c.name) _ _
            (λ y s. (s, (t, e, ground arith), y)) (λ m. inr m))

  fate-Fated : (c : Child) → Fated rmtree now days (fate rmtree now days forced c) c
  unfolding fate
  fate-Fated c =
      if_cases (λ f. Fated rmtree now days f c) (str_eq c.name forced) _ _ (λ _. tt)
        (λ _. timed c c.mtime refl)

  -- What the lists say of their entries.
  abbrev Sorted : PruneResult → Type 0
  Sorted r = All (Expired rmtree now days) r.removed × All (Stuck rmtree) r.failed

  put-Sorted :
      (f : Fate) (c : Child) (r : PruneResult)
      → is_snapshot c ≡ true
      → Fated rmtree now days f c
      → Sorted r
      → Sorted (put f c r)
  put-Sorted removes c r s h k = ((h s, k.0), k.1)
  put-Sorted fails c r s h k = (k.0, (h, k.1))
  put-Sorted keeps c r s h k = k

  prune_all-Sorted :
      (l : List Child)
      → All (λ c. is_snapshot c ≡ true) l
      → Sorted (prune_all rmtree now days forced l)
  unfolding prune_all
  prune_all-Sorted [] h = (tt, tt)
  prune_all-Sorted (c ∷ rest) h =
      put-Sorted (fate rmtree now days forced c) c _ h.0 (fate-Fated c) (prune_all-Sorted rest h.1)

  abbrev count : PruneResult → ℕ
  count r = length r.removed + length r.failed + length r.kept

  count-put : (f : Fate) (c : Child) (r : PruneResult) → count (put f c r) ≡ count r + 1
  count-put removes c r = omega arith
  count-put fails c r = omega arith
  count-put keeps c r = omega arith

  count-prune_all : (l : List Child) → count (prune_all rmtree now days forced l) ≡ length l
  unfolding prune_all
  count-prune_all [] = omega arith
  count-prune_all (c ∷ rest) = omega (
    arith,
    count-put (fate rmtree now days forced c) c (prune_all rmtree now days forced rest),
    count-prune_all rest,
  )

  -- What is removed was in the list, and has another name than the one that is kept by force.
  prune_all-removed :
      (P : Child → Type 0) (l : List Child)
      → All P l
      → All (λ c. P c × (c.name ≢ forced)) (prune_all rmtree now days forced l).removed
  unfolding prune_all fate
  prune_all-removed P [] h = tt
  prune_all-removed P (c ∷ rest) h =
      let later = prune_all-removed P rest h.1 in
      if_cases
        (λ f.
          All (λ x. P x × (x.name ≢ forced))
            (put f c (prune_all rmtree now days forced rest)).removed)
        (str_eq c.name forced) _ _ (λ _. later)
        (λ n. timed_removed P c rest c.mtime (h.0, λ e. cc (n, (eq_iff c.name forced).1 e)) later)
    where
      timed_removed :
          (P : Child → Type 0) (c : Child) (rest : List Child) (o : Option ℕ)
          → P c × (c.name ≢ forced)
          → All (λ x. P x × (x.name ≢ forced)) (prune_all rmtree now days forced rest).removed
          → All
              (λ x. P x × (x.name ≢ forced))
              (put
                (elim o [
                  | none ↦ fails
                  | some t ↦
                      if recent now days t then keeps else if rmtree c.name then removes else fails
                ])
                c
                (prune_all rmtree now days forced rest)).removed
      timed_removed P c rest none h later = later
      timed_removed P c rest (some t) h later =
          if_cases
            (λ f.
              All (λ x. P x × (x.name ≢ forced))
                (put f c (prune_all rmtree now days forced rest)).removed)
            (recent now days t) _ _ (λ _. later)
            (λ _.
              if_cases
                (λ f.
                  All (λ x. P x × (x.name ≢ forced))
                    (put f c (prune_all rmtree now days forced rest)).removed)
                (rmtree c.name) _ _ (λ _. (h, later)) (λ _. later))

  put-kept :
      (f : Fate) (c : Child) (r : PruneResult) (P : Child → Type 0)
      → Any P r.kept
      → Any P (put f c r).kept
  put-kept removes c r P h = h
  put-kept fails c r P h = h
  put-kept keeps c r P h = inr h

  prune_all-kept :
      (l : List Child)
      → Any (λ k. k.name ≡ forced) l
      → Any (λ k. k.name ≡ forced) (prune_all rmtree now days forced l).kept
  unfolding prune_all fate
  prune_all-kept [] h = h
  prune_all-kept (c ∷ rest) (inr h) =
      put-kept (fate rmtree now days forced c) c _ (λ k. k.name ≡ forced) (prune_all-kept rest h)
  prune_all-kept (c ∷ rest) (inl e) = rw ((eq_iff c.name forced).1 e) (inl e)

All-last_of : (P : Child → Type 0) (c : Child) (l : List Child) → P c → All P l → P (last_of c l)
unfolding last_of
All-last_of P c [] h k = h
All-last_of P c (x ∷ rest) h k = All-last_of P x rest k.0 k.1

last_of-Any : (c : Child) (l : List Child) → Any (λ k. k.name ≡ (last_of c l).name) (c ∷ l)
unfolding last_of
last_of-Any c [] = inl refl
last_of-Any c (x ∷ rest) = inr (last_of-Any x rest)

last_of-newest :
    (c : Child) (l : List Child)
    → ByName (c ∷ l)
    → All (λ x. name_leb x.name (last_of c l).name ≡ true) (c ∷ l)
unfolding last_of
last_of-newest c [] h = (name_leb_refl c.name, tt)
last_of-newest c (x ∷ rest) h =
    (All-last_of (λ z. name_leb c.name z.name ≡ true) x rest h.0.0 h.0.1, last_of-newest x rest h.1)

Any-map : (P Q : Child → Type 0) (l : List Child) → ((c : Child) → P c → Q c) → Any P l → Any Q l
Any-map P Q [] f h = h
Any-map P Q (c ∷ rest) f (inl h) = inl (f c h)
Any-map P Q (c ∷ rest) f (inr h) = inr (Any-map P Q rest f h)

All-map : (P Q : Child → Type 0) (l : List Child) → ((c : Child) → P c → Q c) → All P l → All Q l
All-map P Q [] f h = tt
All-map P Q (c ∷ rest) f h = (f c h.0, All-map P Q rest f h.1)

-- Every entry that is removed is a snapshot older than the days to keep, and its removal returned; every failed
-- one has no readable time or could not be removed; and each snapshot is in one of the three lists.
pub prune_old_snapshots-Sorted :
    (rmtree : String → Bool) (now days : ℕ) (children : List Child)
    → let r = prune_old_snapshots rmtree now days (some children) in
      All (Expired rmtree now days) r.removed
      × All (Stuck rmtree) r.failed
      × (length r.removed + length r.failed + length r.kept ≡ length (list_snapshot_dirs children))
unfolding prune_old_snapshots
prune_old_snapshots-Sorted rmtree now days children =
    sorted (list_snapshot_dirs children)
      (All-list_snapshot_dirs (λ c. is_snapshot c ≡ true) children (trivial children))
  where
    trivial : (l : List Child) → All (λ c. is_snapshot c ≡ true → is_snapshot c ≡ true) l
    trivial [] = tt
    trivial (c ∷ rest) = ((λ h. h), trivial rest)

    sorted :
        (l : List Child)
        → All (λ c. is_snapshot c ≡ true) l
        → let r = prune_snaps rmtree now days l in
          All (Expired rmtree now days) r.removed
          × All (Stuck rmtree) r.failed
          × (length r.removed + length r.failed + length r.kept ≡ length l)
    sorted [] h = (tt, tt, omega arith)
    sorted (c ∷ rest) h =
        let forced = (last_of c rest).name in
        let s = prune_all-Sorted rmtree now days forced (c ∷ rest) h in
        (s.0, s.1, count-prune_all rmtree now days forced (c ∷ rest))

-- A later entry than `x` that is kept.
abbrev pub Outlived : PruneResult → Child → Type 0
Outlived r x = Any (λ k. (name_leb x.name k.name ≡ true) × (x.name ≢ k.name)) r.kept

-- Every entry that is removed is a snapshot older than the days to keep, and another snapshot is kept that
-- is later by its name: the newest one is never removed, whatever its age. Of every snapshot that is
-- listed there is one kept that is no earlier by its name; every failed one has no readable time or could
-- not be removed; and the three lists have as many entries as there are snapshots.
pub prune_old_snapshots-newest :
    (rmtree : String → Bool) (now days : ℕ) (children : List Child)
    → let r = prune_old_snapshots rmtree now days (some children) in
      All (Outlived r) r.removed
      × All (λ c. Any (λ k. name_leb c.name k.name ≡ true) r.kept) (list_snapshot_dirs children)
      × All (Expired rmtree now days) r.removed
      × All (Stuck rmtree) r.failed
      × (length r.removed + length r.failed + length r.kept ≡ length (list_snapshot_dirs children))
prune_old_snapshots-newest rmtree now days children =
    let s = prune_old_snapshots-Sorted rmtree now days children in
    (
      unfold prune_old_snapshots in
          outlived (list_snapshot_dirs children) (list_snapshot_dirs-ByName children),
      unfold prune_old_snapshots in
          kept (list_snapshot_dirs children) (list_snapshot_dirs-ByName children),
      s.0,
      s.1,
      s.2,
    )
  where
    outlived :
        (l : List Child)
        → ByName l
        → All (Outlived (prune_snaps rmtree now days l)) (prune_snaps rmtree now days l).removed
    outlived [] h = tt
    outlived (c ∷ rest) h =
        let forced = (last_of c rest).name in
        All-map (λ x. (name_leb x.name forced ≡ true) × (x.name ≢ forced))
          (Outlived (prune_all rmtree now days forced (c ∷ rest)))
          (prune_all rmtree now days forced (c ∷ rest)).removed
          (λ x below.
            Any-map (λ k. k.name ≡ forced)
              (λ k. (name_leb x.name k.name ≡ true) × (x.name ≢ k.name)) _
              (λ k e. subst (λ n. (name_leb x.name n ≡ true) × (x.name ≢ n)) (sym e) below)
              (prune_all-kept rmtree now days forced (c ∷ rest) (last_of-Any c rest)))
          (prune_all-removed rmtree now days forced (λ x. name_leb x.name forced ≡ true) (c ∷ rest)
            (last_of-newest c rest h))

    kept :
        (l : List Child)
        → ByName l
        → All (λ c. Any (λ k. name_leb c.name k.name ≡ true) (prune_snaps rmtree now days l).kept) l
    kept [] h = tt
    kept (c ∷ rest) h =
        let forced = (last_of c rest).name in
        All-map (λ x. name_leb x.name forced ≡ true)
          (λ x.
            Any (λ k. name_leb x.name k.name ≡ true)
              (prune_all rmtree now days forced (c ∷ rest)).kept)
          (c ∷ rest)
          (λ x below.
            Any-map (λ k. k.name ≡ forced) (λ k. name_leb x.name k.name ≡ true) _
              (λ k e. subst (λ n. name_leb x.name n ≡ true) (sym e) below)
              (prune_all-kept rmtree now days forced (c ∷ rest) (last_of-Any c rest)))
          (last_of-newest c rest h)
