-- ===== src/Backup/Names.antt =====
-- The order of the snapshots' names, and the list that is sorted by it.
use heyi_eval_v.Prelude.{◌≡◌, refl, true, false, List, [], ◌∷◌, String, arith, All, if_cases}
use heyi_eval_v.Backup.{Child, name_leb, insert_by_name, list_snapshot_dirs, is_snapshot}

pub name_leb_refl : (s : String) → name_leb s s ≡ true
unfolding name_leb
name_leb_refl String.[] = refl
name_leb_refl (String.◌∷◌ c s) = ground (arith, name_leb_refl s)

name_leb_trans : (s t u : String) → name_leb s t ≡ true → name_leb t u ≡ true → name_leb s u ≡ true
unfolding name_leb
name_leb_trans String.[] t u h k = refl
name_leb_trans (String.◌∷◌ c s) String.[] u h k = cc
name_leb_trans (String.◌∷◌ c s) (String.◌∷◌ d t) String.[] h k = cc
name_leb_trans (String.◌∷◌ c s) (String.◌∷◌ d t) (String.◌∷◌ e u) h k =
    ground (arith, name_leb_trans s t u)

name_leb_total : (s t : String) → name_leb s t ≡ false → name_leb t s ≡ true
unfolding name_leb
name_leb_total String.[] t h = cc
name_leb_total (String.◌∷◌ c s) String.[] h = refl
name_leb_total (String.◌∷◌ c s) (String.◌∷◌ d t) h = ground (arith, name_leb_total s t)

-- Each name is at most those after it.
abbrev pub ByName : List Child → Type 0
ByName [] = Unit
ByName (c ∷ rest) = All (λ x. name_leb c.name x.name ≡ true) rest × ByName rest

module _ (P : Child → Type 0) where
  pub All-insert_by_name : (c : Child) (l : List Child) → P c → All P l → All P (insert_by_name c l)
  unfolding insert_by_name
  All-insert_by_name c [] h t = (h, tt)
  All-insert_by_name c (x ∷ rest) h t =
      if_cases (All P) (name_leb c.name x.name) _ _ (λ _. (h, t))
        (λ _. (t.0, All-insert_by_name c rest h t.1))

  -- A listing keeps what is true of the snapshots among the children.
  pub All-list_snapshot_dirs :
      (l : List Child) → All (λ c. is_snapshot c ≡ true → P c) l → All P (list_snapshot_dirs l)
  unfolding list_snapshot_dirs
  All-list_snapshot_dirs [] h = tt
  All-list_snapshot_dirs (c ∷ rest) h =
      if_cases (All P) (is_snapshot c) _ _
        (λ y. All-insert_by_name c _ (h.0 y) (All-list_snapshot_dirs rest h.1))
        (λ _. All-list_snapshot_dirs rest h.1)

All-name_leb :
    (s t : String) (l : List Child)
    → name_leb s t ≡ true
    → All (λ x. name_leb t x.name ≡ true) l
    → All (λ x. name_leb s x.name ≡ true) l
All-name_leb s t [] h k = tt
All-name_leb s t (x ∷ rest) h k = (name_leb_trans s t x.name h k.0, All-name_leb s t rest h k.1)

insert_by_name-ByName : (c : Child) (l : List Child) → ByName l → ByName (insert_by_name c l)
unfolding insert_by_name
insert_by_name-ByName c [] h = (tt, tt)
insert_by_name-ByName c (x ∷ rest) h =
    if_cases ByName (name_leb c.name x.name) _ _
      (λ y. ((y, All-name_leb c.name x.name rest y h.0), h))
      (λ n. (
        All-insert_by_name (λ z. name_leb x.name z.name ≡ true) c rest
            (name_leb_total c.name x.name n) h.0,
        insert_by_name-ByName c rest h.1,
      ))

pub list_snapshot_dirs-ByName : (l : List Child) → ByName (list_snapshot_dirs l)
unfolding list_snapshot_dirs
list_snapshot_dirs-ByName [] = tt
list_snapshot_dirs-ByName (c ∷ rest) =
    if_cases ByName (is_snapshot c) _ _
      (λ _. insert_by_name-ByName c _ (list_snapshot_dirs-ByName rest))
      (λ _. list_snapshot_dirs-ByName rest)
