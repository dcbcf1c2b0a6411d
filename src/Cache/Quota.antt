-- ===== src/Cache/Quota.antt =====
-- What `enforce_quota` evicts, how much, and what it never touches.
use heyi_eval_v.Prelude.{
  ℕ, ◌+◌, ◌-◌, ◌≤◌, ◌<◌, ◌≡◌, refl, ap, sym, ◌∙◌, subst, ◌⊎◌, inl, inr, Bool, true, false, Option,
  none, some, List, [], ◌∷◌, arith, if_cases, String, leb, length,
}
use heyi_eval_v.Cache.{
  CacheEntry, Dir, StateFile, Evicted, EvictionPlan, evict_all, enforce_quota, find_evictable,
  sizes,
}

-- Whether each of the entries went while less than `need` was freed.
abbrev pub Needed : ℕ → ℕ → List CacheEntry → Type 0
Needed need freed [] = Unit
Needed need freed (e ∷ rest) = (freed < need) × Needed need (freed + e.size_bytes) rest

module _ (removes : String → Bool) (dry : Bool) (need : ℕ) where
  abbrev out : ℕ → List CacheEntry → Evicted
  out freed l = evict_all removes dry need freed l

  freed-eq :
      (freed : ℕ) (l : List CacheEntry) → (out freed l).freed ≡ freed + sizes (out freed l).gone
  unfolding evict_all
  freed-eq freed [] = omega arith
  freed-eq freed (e ∷ rest) =
      ground (arith, freed-eq (freed + e.size_bytes) rest, freed-eq freed rest)

  enough :
      (freed : ℕ) (l : List CacheEntry)
      → (need ≤ (out freed l).freed)
        ⊎ (length (out freed l).gone + length (out freed l).kept ≡ length l)
  unfolding evict_all
  enough freed [] = inr refl
  enough freed (e ∷ rest) = ground (arith, enough (freed + e.size_bytes) rest, enough freed rest)

  all-Needed : (freed : ℕ) (l : List CacheEntry) → Needed need freed (out freed l).gone
  unfolding evict_all
  all-Needed freed [] = tt
  all-Needed freed (e ∷ rest) =
      ground (arith, all-Needed (freed + e.size_bytes) rest, all-Needed freed rest)

-- The entries that `evict_all` is given are the plan's.
evict_plan :
    (removes : String → Bool) (dry : Bool) (now grace quota : ℕ) (files : List (Option StateFile))
    (dirs : Option (List Dir)) (P : EvictionPlan → Type 0)
    → let plan = find_evictable now grace quota files dirs in
      let out = evict_all removes dry (plan.total_bytes - quota) 0 plan.evictable in
      (plan.total_bytes ≤ quota → P plan)
      → (quota < plan.total_bytes
          → P record plan { evicted = out.gone; skipped = out.kept; bytes_freed = out.freed })
      → P (enforce_quota removes dry now grace quota files dirs)
unfolding enforce_quota
evict_plan removes dry now grace quota files dirs P f g =
    if_cases P (leb (find_evictable now grace quota files dirs).total_bytes quota) _ _
      (λ y. f (ground arith)) (λ n. g (ground arith))

nothing_evicted :
    (now grace quota : ℕ) (files : List (Option StateFile)) (dirs : Option (List Dir))
    → let plan = find_evictable now grace quota files dirs in
      (plan.evicted ≡ []) × (plan.skipped ≡ []) × (plan.bytes_freed ≡ 0)
unfolding find_evictable
nothing_evicted now grace quota files none = (refl, refl, refl)
nothing_evicted now grace quota files (some dirs) = (refl, refl, refl)

-- The bytes freed are the sizes of the evicted entries; each of these went while what had been freed did
-- not bring the cache under its quota; and either the cache is brought to its quota, or every
-- candidate has been evicted or skipped.
pub enforce_quota_frees :
    (removes : String → Bool) (dry : Bool) (now grace quota : ℕ) (files : List (Option StateFile))
    (dirs : Option (List Dir))
    → let plan = enforce_quota removes dry now grace quota files dirs in
      (plan.bytes_freed ≡ sizes plan.evicted)
      × Needed (plan.total_bytes - quota) 0 plan.evicted
      × (plan.total_bytes ≤ quota + plan.bytes_freed
          ⊎ (length plan.evicted + length plan.skipped ≡ length plan.evictable))
enforce_quota_frees removes dry now grace quota files dirs =
    evict_plan removes dry now grace quota files dirs
      (λ p.
        (p.bytes_freed ≡ sizes p.evicted)
        × Needed (p.total_bytes - quota) 0 p.evicted
        × (p.total_bytes ≤ quota + p.bytes_freed
            ⊎ (length p.evicted + length p.skipped ≡ length p.evictable)))
      (λ h.
        let none_gone = nothing_evicted now grace quota files dirs in
        (
          none_gone.2 ∙ ap sizes (sym none_gone.0),
          subst (Needed _ 0) (sym none_gone.0) tt,
          inl (omega (arith, h)),
        ))
      (λ h.
        let plan = find_evictable now grace quota files dirs in
        let need = plan.total_bytes - quota in
        (
          omega (arith, freed-eq removes dry need 0 plan.evictable),
          all-Needed removes dry need 0 plan.evictable,
          elim (enough removes dry need 0 plan.evictable) [
            | inl y ↦ inl (omega (arith, h, y))
            | inr y ↦ inr y
          ],
        ))

previewed :
    (removes other : String → Bool) (need freed : ℕ) (l : List CacheEntry)
    → ((name : String) → removes name ≡ true)
    → evict_all removes false need freed l ≡ evict_all other true need freed l
unfolding evict_all
previewed removes other need freed [] h = refl
previewed removes other need freed (e ∷ rest) h =
    ground (arith, h e.name, previewed removes other need (freed + e.size_bytes) rest h)

-- A dry run reports the plan that the eviction itself has when every removal succeeds.
pub enforce_quota-dry :
    (removes other : String → Bool) (now grace quota : ℕ) (files : List (Option StateFile))
    (dirs : Option (List Dir))
    → ((name : String) → removes name ≡ true)
    → enforce_quota removes false now grace quota files dirs
      ≡ enforce_quota other true now grace quota files dirs
unfolding enforce_quota
enforce_quota-dry removes other now grace quota files dirs h = rw (previewed removes other _ 0 _ h)
