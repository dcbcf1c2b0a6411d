-- ===== src/Stager/Scan.antt =====
-- The walk of `_scan_for_weights` against a description of what it looks for.
use heyi_eval_v.Prelude.{
  ℕ, zero, suc, ◌+◌, ◌-◌, ◌≤◌, ◌<◌, ◌≡◌, ◌↔◌, refl, ap, ◌∙◌, ◌⊎◌, if_cases, Bool, true, false, not,
  ◌&&◌, ◌||◌, Option, none, some, [], ◌∷◌, String, arith, ltb, Bool-cases, inl, inr, if◌then◌else◌,
}
use heyi_eval_v.Stager.{
  Node, file, folder, sealed, Entries, end, entry, is_hidden, is_weight, Stack, pushed,
  scan_entries, scan_stack, nodes, nodes_in, scan_for_weights,
}

-- A weight among the visible entries, or among those of a visible directory, so many levels down.
pub data HasWeight : ℕ → Entries → Type 0 where
  here :
      {n : ℕ} {name : String} {x : Node} {rest : Entries}
      → is_hidden name ≡ false
      → is_weight name x ≡ true
      → HasWeight n (entry name x rest)
  inside :
      {n : ℕ} {name : String} {es rest : Entries}
      → is_hidden name ≡ false
      → HasWeight n es
      → HasWeight (suc n) (entry name (folder es) rest)
  later :
      {n : ℕ} {name : String} {x : Node} {rest : Entries}
      → HasWeight n rest
      → HasWeight n (entry name x rest)

mutual
  below : ℕ → Node → Bool
  below n (folder es) = below_in n es
  below n (file b) = false
  below n sealed = false

  below_in : ℕ → Entries → Bool
  below_in n end = false
  below_in zero (entry name x rest) =
      (not (is_hidden name) && is_weight name x) || below_in zero rest
  below_in (suc n) (entry name x rest) =
      (not (is_hidden name) && (is_weight name x || below n x)) || below_in (suc n) rest

-- The levels left below a depth.
abbrev levels : ℕ → ℕ → ℕ
levels max_depth depth = max_depth - 1 - depth

any_below : ℕ → Stack → Bool
unfolding below
any_below max_depth [] = false
any_below max_depth ((x, depth) ∷ rest) =
    below (levels max_depth depth) x || any_below max_depth rest

abbrev stack_nodes : Stack → ℕ
stack_nodes [] = 0
stack_nodes ((x, depth) ∷ rest) = nodes x + stack_nodes rest

-- What `scan_entries` has found or left to be looked at.
abbrev outcome : ℕ → Option Stack → Bool
outcome max_depth none = true
outcome max_depth (some stack) = any_below max_depth stack

abbrev under : ℕ → Node → Bool
under zero x = false
under (suc n) x = below n x

below_in-entry :
    (n : ℕ) (name : String) (x : Node) (rest : Entries)
    → below_in n (entry name x rest)
      ≡ ((not (is_hidden name) && (is_weight name x || under n x)) || below_in n rest)
unfolding below
below_in-entry zero name x rest = ground arith
below_in-entry (suc n) name x rest = refl

under-levels :
    (max_depth depth : ℕ) (x : Node)
    → under (levels max_depth depth) x
      ≡ (if ltb (depth + 1) max_depth then below (levels max_depth (depth + 1)) x else false)
under-levels max_depth depth x = elim (Bool-cases (ltb (depth + 1) max_depth)) [
  | inl e ↦
      let l : levels max_depth depth ≡ suc (levels max_depth (depth + 1)) = ground arith in
      rw (e, l) refl
  | inr e ↦ let l : levels max_depth depth ≡ 0 = ground arith in rw (e, l) refl
]

under-sealed : (n : ℕ) → under n sealed ≡ false
unfolding below
under-sealed zero = refl
under-sealed (suc n) = refl

under-file : (n b : ℕ) → under n (file b) ≡ false
unfolding below
under-file zero b = refl
under-file (suc n) b = refl

pushed-below :
    (max_depth depth : ℕ) (x : Node) (stack : Stack)
    → any_below max_depth (pushed max_depth depth x stack)
      ≡ (under (levels max_depth depth) x || any_below max_depth stack)
unfolding any_below
pushed-below max_depth depth (file b) stack = rw (under-file (levels max_depth depth) b) refl
pushed-below max_depth depth (folder es) stack =
    ground (arith, under-levels max_depth depth (folder es))
pushed-below max_depth depth sealed stack = ground (arith, under-levels max_depth depth sealed)

pushed-nodes :
    (max_depth depth : ℕ) (x : Node) (stack : Stack)
    → stack_nodes (pushed max_depth depth x stack) ≤ nodes x + stack_nodes stack
pushed-nodes max_depth depth (file b) stack = omega arith
pushed-nodes max_depth depth (folder es) stack = ground arith
pushed-nodes max_depth depth sealed stack = ground arith

-- The loop over the entries of a directory finds a weight, or leaves what is to be looked at.
scan_entries-outcome :
    (max_depth depth : ℕ) (es : Entries) (stack : Stack)
    → outcome max_depth (scan_entries max_depth depth es stack)
      ≡ (below_in (levels max_depth depth) es || any_below max_depth stack)
unfolding scan_entries
scan_entries-outcome max_depth depth end stack = unfold below in refl
scan_entries-outcome max_depth depth (entry name x rest) stack =
    elim (Bool-cases (is_hidden name)) [
      | inl h ↦ ground (
        arith,
        scan_entries-outcome max_depth depth rest stack,
        below_in-entry (levels max_depth depth) name x rest,
      )
      | inr h ↦ elim (Bool-cases (is_weight name x)) [
        | inl w ↦ ground (arith, below_in-entry (levels max_depth depth) name x rest)
        | inr w ↦ ground (
          arith,
          scan_entries-outcome max_depth depth rest (pushed max_depth depth x stack),
          pushed-below max_depth depth x stack,
          below_in-entry (levels max_depth depth) name x rest,
        )
      ]
    ]

abbrev Fits : ℕ → Option Stack → Type 0
Fits n none = Unit {0}
Fits n (some stack) = stack_nodes stack ≤ n

Fits-le : (m n : ℕ) (o : Option Stack) → Fits m o → m ≤ n → Fits n o
Fits-le m n none h le = tt
Fits-le m n (some stack) h le = omega arith

scan_entries-Fits :
    (max_depth depth : ℕ) (es : Entries) (stack : Stack)
    → Fits (nodes_in es + stack_nodes stack) (scan_entries max_depth depth es stack)
unfolding scan_entries nodes
scan_entries-Fits max_depth depth end stack = omega arith
scan_entries-Fits max_depth depth (entry name x rest) stack =
    let skipped = scan_entries-Fits max_depth depth rest stack in
    let further = scan_entries-Fits max_depth depth rest (pushed max_depth depth x stack) in
    let all = nodes x + nodes_in rest + stack_nodes stack in
    if_cases (Fits all) (is_hidden name) _ _ (λ _. Fits-le _ all _ skipped (omega arith))
      (λ _.
        if_cases (Fits all) (is_weight name x) _ _ (λ _. tt)
          (λ _. Fits-le _ all _ further (omega (arith, pushed-nodes max_depth depth x stack))))

-- With fuel for the nodes on the stack, the walk ends, and it says whether one of them has a weight.
scan_stack-below :
    (fuel max_depth : ℕ) (stack : Stack)
    → stack_nodes stack < fuel
    → scan_stack fuel max_depth stack ≡ some (any_below max_depth stack)
unfolding scan_stack any_below below nodes
scan_stack-below zero max_depth stack lt = absurd (omega arith)
scan_stack-below (suc fuel) max_depth [] lt = refl
scan_stack-below (suc fuel) max_depth ((file b, depth) ∷ stack) lt =
    scan_stack-below fuel max_depth stack (omega arith)
scan_stack-below (suc fuel) max_depth ((sealed, depth) ∷ stack) lt =
    scan_stack-below fuel max_depth stack (omega arith)
scan_stack-below (suc fuel) max_depth ((folder es, depth) ∷ stack) lt =
    looked (scan_entries max_depth depth es stack) (scan_entries-outcome max_depth depth es stack)
      (scan_entries-Fits max_depth depth es stack) (scan_stack-below fuel max_depth)
  where
    looked :
        (o : Option Stack)
        → outcome max_depth o ≡ (below_in (levels max_depth depth) es || any_below max_depth stack)
        → Fits (nodes_in es + stack_nodes stack) o
        → ((s : Stack)
            → stack_nodes s < fuel
            → scan_stack fuel max_depth s ≡ some (any_below max_depth s))
        → (elim o [ none ↦ some true | some s ↦ scan_stack fuel max_depth s ])
          ≡ some (below_in (levels max_depth depth) es || any_below max_depth stack)
    looked none e f ih = ap some e
    looked (some s) e f ih = ih s (omega (arith, f)) ∙ ap some e

-- Where the entries of a tree have a weight by `below_in`, it is here, inside or later.
module _ (name : String) (x : Node) (rest : Entries) where
  entry_cases :
      (n : ℕ)
      → below_in n (entry name x rest) ≡ true
      → ((is_hidden name ≡ false) × (is_weight name x ≡ true))
        ⊎ ((is_hidden name ≡ false) × (under n x ≡ true))
        ⊎ (below_in n rest ≡ true)
  entry_cases n e = ground (arith, below_in-entry n name x rest)

below_in-HasWeight : (n : ℕ) (es : Entries) → below_in n es ≡ true → HasWeight n es
unfolding below
below_in-HasWeight n end e = absurd (cc e)
below_in-HasWeight n (entry name (folder es) rest) e =
    elim (entry_cases name (folder es) rest n e) [
      | inl (h, w) ↦ here h w
      | inr (inl (h, u)) ↦ in_folder n h u (λ m. below_in-HasWeight m es)
      | inr (inr l) ↦ later (below_in-HasWeight n rest l)
    ]
  where
    in_folder :
        (n : ℕ)
        → is_hidden name ≡ false
        → under n (folder es) ≡ true
        → ((m : ℕ) → below_in m es ≡ true → HasWeight m es)
        → HasWeight n (entry name (folder es) rest)
    in_folder zero h u ih = absurd (cc u)
    in_folder (suc m) h u ih = inside h (ih m u)
below_in-HasWeight n (entry name (file b) rest) e = elim (entry_cases name (file b) rest n e) [
  | inl (h, w) ↦ here h w
  | inr (inl (h, u)) ↦ absurd (cc (u, under-file n b))
  | inr (inr l) ↦ later (below_in-HasWeight n rest l)
]
below_in-HasWeight n (entry name sealed rest) e = elim (entry_cases name sealed rest n e) [
  | inl (h, w) ↦ here h w
  | inr (inl (h, u)) ↦ absurd (cc (u, under-sealed n))
  | inr (inr l) ↦ later (below_in-HasWeight n rest l)
]

HasWeight-below_in : {n : ℕ} {es : Entries} → HasWeight n es → below_in n es ≡ true
unfolding below
HasWeight-below_in {n} (here {name} {x} {rest} h w) = ground (arith, below_in-entry n name x rest)
HasWeight-below_in (inside {n} {name} {es} {rest} h d) =
    ground (arith, below_in-entry (suc n) name (folder es) rest, HasWeight-below_in d)
HasWeight-below_in {n} (later {name} {x} {rest} d) =
    ground (arith, below_in-entry n name x rest, HasWeight-below_in d)

-- The walk ends, and finds a weight in a directory just when there is one among its visible entries or
-- those of its visible directories, above the depth.
pub scan_for_weights-HasWeight :
    (es : Entries) (max_depth : ℕ)
    → (scan_for_weights (folder es) max_depth ≡ true) ↔ HasWeight (max_depth - 1) es
unfolding scan_for_weights any_below below
scan_for_weights-HasWeight es max_depth =
    let e =
      scan_stack-below (nodes (folder es) + 1) max_depth ((folder es, 0) ∷ []) (omega arith) in
    (
      (λ t. below_in-HasWeight (max_depth - 1) es (ground (arith, e))),
      λ h. ground (arith, e, HasWeight-below_in h),
    )
