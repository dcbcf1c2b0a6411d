-- ===== src/Cache/Order.antt =====
-- The candidates for eviction: which they are, and in what order.
use heyi_eval_v.Prelude.{
  ℕ, ◌+◌, ◌≡◌, refl, true, false, Option, some, List, [], ◌∷◌, arith, All, if_cases,
}
use heyi_eval_v.Cache.{
  CacheEntry, Dir, StateFile, is_in_progress, before, insert_entry, sort_entries, not_in_progress,
  find_evictable, scan, entry_of, in_use, runs_of, sizes, visible,
}

abbrev pub InOrder : List CacheEntry → Type 0
InOrder [] = Unit
InOrder (e ∷ rest) = All (λ x. before e x ≡ true) rest × InOrder rest

module _ (P : CacheEntry → Type 0) where
  All-insert_entry :
      (e : CacheEntry) (l : List CacheEntry) → P e → All P l → All P (insert_entry e l)
  unfolding insert_entry
  All-insert_entry e [] h t = (h, tt)
  All-insert_entry e (x ∷ rest) h t =
      if_cases (All P) (before e x) _ _ (λ _. (h, t)) (λ _. (t.0, All-insert_entry e rest h t.1))

  All-sort_entries : (l : List CacheEntry) → All P l → All P (sort_entries l)
  unfolding sort_entries
  All-sort_entries [] h = tt
  All-sort_entries (e ∷ rest) h = All-insert_entry e _ h.0 (All-sort_entries rest h.1)

  All-not_in_progress : (l : List CacheEntry) → All P l → All P (not_in_progress l)
  unfolding not_in_progress
  All-not_in_progress [] h = tt
  All-not_in_progress (e ∷ rest) h =
      if_cases (All P) (is_in_progress e.status) _ _ (λ _. All-not_in_progress rest h.1)
        (λ _. (h.0, All-not_in_progress rest h.1))

before_trans : (a b c : CacheEntry) → before a b ≡ true → before b c ≡ true → before a c ≡ true
before_trans a b c e f = ground arith

before_total : (a b : CacheEntry) → before a b ≡ false → before b a ≡ true
before_total a b e = ground arith

All-before :
    (a b : CacheEntry) (l : List CacheEntry)
    → before a b ≡ true
    → All (λ x. before b x ≡ true) l
    → All (λ x. before a x ≡ true) l
All-before a b [] e h = tt
All-before a b (x ∷ rest) e h = (before_trans a b x e h.0, All-before a b rest e h.1)

insert_entry-InOrder :
    (e : CacheEntry) (l : List CacheEntry) → InOrder l → InOrder (insert_entry e l)
unfolding insert_entry
insert_entry-InOrder e [] h = (tt, tt)
insert_entry-InOrder e (x ∷ rest) h =
    if_cases InOrder (before e x) _ _ (λ y. ((y, All-before e x rest y h.0), h))
      (λ n. (
        All-insert_entry (λ z. before x z ≡ true) e rest (before_total e x n) h.0,
        insert_entry-InOrder e rest h.1,
      ))

sort_entries-InOrder : (l : List CacheEntry) → InOrder (sort_entries l)
unfolding sort_entries
sort_entries-InOrder [] = tt
sort_entries-InOrder (e ∷ rest) = insert_entry-InOrder e _ (sort_entries-InOrder rest)

sizes-insert_entry :
    (e : CacheEntry) (l : List CacheEntry) → sizes (insert_entry e l) ≡ e.size_bytes + sizes l
unfolding insert_entry
sizes-insert_entry e [] = refl
sizes-insert_entry e (x ∷ rest) = ground (arith, sizes-insert_entry e rest)

pub sizes-sort_entries : (l : List CacheEntry) → sizes (sort_entries l) ≡ sizes l
unfolding sort_entries
sizes-sort_entries [] = refl
sizes-sort_entries (e ∷ rest) =
    omega (arith, sizes-insert_entry e (sort_entries rest), sizes-sort_entries rest)

-- What an entry says of its directory: it is not in use.
abbrev pub Idle : ℕ → ℕ → List (Option StateFile) → CacheEntry → Type 0
Idle now grace files e = in_use now grace e.mtime (runs_of e.name files) ≡ false

abbrev Honest : ℕ → ℕ → List (Option StateFile) → CacheEntry → Type 0
Honest now grace files e = is_in_progress e.status ≡ false → Idle now grace files e

scan-Honest :
    (now grace : ℕ) (files : List (Option StateFile)) (dirs : List Dir)
    → All (Honest now grace files) (scan now grace files dirs)
unfolding scan entry_of
scan-Honest now grace files [] = tt
scan-Honest now grace files (d ∷ rest) =
    if_cases (All (Honest now grace files)) (visible d)
      (entry_of now grace files d ∷ scan now grace files rest) _
      (λ _. ((λ h. ground arith), scan-Honest now grace files rest))
      (λ _. scan-Honest now grace files rest)

filtered-Idle :
    (now grace : ℕ) (files : List (Option StateFile)) (l : List CacheEntry)
    → All (Honest now grace files) l
    → All (Idle now grace files) (not_in_progress l)
unfolding not_in_progress
filtered-Idle now grace files [] h = tt
filtered-Idle now grace files (e ∷ rest) h =
    if_cases (All (Idle now grace files)) (is_in_progress e.status) _ _
      (λ _. filtered-Idle now grace files rest h.1)
      (λ n. (h.0 n, filtered-Idle now grace files rest h.1))

-- The candidates are in the order of status (orphan, failed_only, safe) and age, and no candidate is a
-- directory that was touched within the grace or that a run in progress names.
pub find_evictable-InOrder :
    (now grace quota : ℕ) (files : List (Option StateFile)) (dirs : List Dir)
    → InOrder (find_evictable now grace quota files (some dirs)).evictable
      × All (Idle now grace files) (find_evictable now grace quota files (some dirs)).evictable
unfolding find_evictable
find_evictable-InOrder now grace quota files dirs = (
  sort_entries-InOrder (not_in_progress (scan now grace files dirs)),
  All-sort_entries (Idle now grace files) _
      (filtered-Idle now grace files _ (scan-Honest now grace files dirs)),
)
