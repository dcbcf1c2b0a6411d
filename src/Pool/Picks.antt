-- ===== src/Pool/Picks.antt =====
-- What `_pick_idle` and `_find_by_run_id` find.
use heyi_eval_v.Prelude.{
  ℕ, zero, suc, ◌≡◌, refl, true, false, Option, none, some, some, List, [], ◌∷◌, String, str_eq,
  eq_iff, arith, get_elem?, Bool-cases, inl, inr, if_cases,
}
use heyi_eval_v.Pool.{Handle, is_idle, no_worse, better, shifted, pick_idle, holds, find_by_run_id}

-- Of the idle handles none has a lesser key.
abbrev pub Picked : List Handle → Option (ℕ × Handle) → Type 0
Picked hs none = (j : ℕ) (k : Handle) → get_elem? hs j ≡ some k → is_idle k ≡ false
Picked hs (some (i, h)) =
    (get_elem? hs i ≡ some h)
    × (is_idle h ≡ true)
    × ((j : ℕ) (k : Handle) → get_elem? hs j ≡ some k → is_idle k ≡ true → no_worse h k ≡ true)

no_worse_refl : (h : Handle) → no_worse h h ≡ true
no_worse_refl h = ground arith

no_worse_total : (h k : Handle) → no_worse h k ≡ false → no_worse k h ≡ true
no_worse_total h k e = ground arith

no_worse_trans : (a b c : Handle) → no_worse a b ≡ true → no_worse b c ≡ true → no_worse a c ≡ true
no_worse_trans a b c e f = ground arith

Picked-idle :
    (h : Handle) (rest : List Handle) (o : Option (ℕ × Handle))
    → is_idle h ≡ true
    → Picked rest o
    → Picked (h ∷ rest) (some (better h o))
unfolding better
Picked-idle h rest none idle p = (refl, idle, least)
  where
    least :
        (j : ℕ) (k : Handle)
        → get_elem? (h ∷ rest) j ≡ some k
        → is_idle k ≡ true
        → no_worse h k ≡ true
    least zero k e f = ground (arith, no_worse_refl h)
    least (suc j) k e f = cc (f, p j k e)
Picked-idle h rest (some (i, b)) idle p = elim (Bool-cases (no_worse h b)) [
  | inl e ↦ rw e (refl, idle, first e)
  | inr e ↦ rw e (p.0, p.1, second e)
]
  where
    first :
        no_worse h b ≡ true
        → (j : ℕ) (k : Handle) → get_elem? (h ∷ rest) j ≡ some k
        → is_idle k ≡ true
        → no_worse h k ≡ true
    first e zero k g f = ground (arith, no_worse_refl h)
    first e (suc j) k g f = no_worse_trans h b k e (p.2 j k g f)

    second :
        no_worse h b ≡ false
        → (j : ℕ) (k : Handle) → get_elem? (h ∷ rest) j ≡ some k
        → is_idle k ≡ true
        → no_worse b k ≡ true
    second e zero k g f = ground (arith, no_worse_total h b)
    second e (suc j) k g f = p.2 j k g f

Picked-busy :
    (h : Handle) (rest : List Handle) (o : Option (ℕ × Handle))
    → is_idle h ≡ false
    → Picked rest o
    → Picked (h ∷ rest) (shifted o)
Picked-busy h rest none busy p = all_busy
  where
    all_busy : (j : ℕ) (k : Handle) → get_elem? (h ∷ rest) j ≡ some k → is_idle k ≡ false
    all_busy zero k e = ground arith
    all_busy (suc j) k e = p j k e
Picked-busy h rest (some (i, b)) busy p = (p.0, p.1, least)
  where
    least :
        (j : ℕ) (k : Handle)
        → get_elem? (h ∷ rest) j ≡ some k
        → is_idle k ≡ true
        → no_worse b k ≡ true
    least zero k g f = ground arith
    least (suc j) k g f = p.2 j k g f

-- `_pick_idle` finds an idle handle with the least (run_count, booted_at) of all idle ones, and
-- nothing only if every handle is leased.
pub pick_idle-Picked : (hs : List Handle) → Picked hs (pick_idle hs)
unfolding pick_idle
pick_idle-Picked [] = λ j k e. cc
pick_idle-Picked (h ∷ rest) =
    if_cases (Picked (h ∷ rest)) (is_idle h) _ _
      (λ e. Picked-idle h rest _ e (pick_idle-Picked rest))
      (λ e. Picked-busy h rest _ e (pick_idle-Picked rest))

abbrev pub Found : String → List Handle → Option (ℕ × Handle) → Type 0
Found r hs none = (j : ℕ) (k : Handle) → get_elem? hs j ≡ some k → holds r k ≡ false
Found r hs (some (i, h)) = (get_elem? hs i ≡ some h) × (h.run_id ≡ some r)

Found-shifted :
    (r : String) (h : Handle) (rest : List Handle) (o : Option (ℕ × Handle))
    → holds r h ≡ false
    → Found r rest o
    → Found r (h ∷ rest) (shifted o)
Found-shifted r h rest none e f = missing
  where
    missing : (j : ℕ) (k : Handle) → get_elem? (h ∷ rest) j ≡ some k → holds r k ≡ false
    missing zero k g = ground arith
    missing (suc j) k g = f j k g
Found-shifted r h rest (some (i, b)) e f = f

held : (r : String) (h : Handle) → holds r h ≡ true → h.run_id ≡ some r
held r h e = held_by h.run_id e
  where
    held_by :
        (o : Option String) → elim o [ none ↦ false | some x ↦ str_eq x r ] ≡ true → o ≡ some r
    held_by none e = cc
    held_by (some x) e = cc ((eq_iff x r).0 e)

-- `_find_by_run_id` finds a handle that holds the id, and nothing only if none does.
pub find_by_run_id-Found : (r : String) (hs : List Handle) → Found r hs (find_by_run_id r hs)
unfolding find_by_run_id
find_by_run_id-Found r [] = λ j k e. cc
find_by_run_id-Found r (h ∷ rest) =
    if_cases (Found r (h ∷ rest)) (holds r h) _ _ (λ e. (refl, held r h e))
      (λ e. Found-shifted r h rest _ e (find_by_run_id-Found r rest))
