-- ===== src/Queue/Fifo.antt =====
-- The queue as a queue: its order, and that no model stands in it twice.
use heyi_eval_v.Prelude.{
  ℕ, ◌≡◌, refl, ap, Bool, true, false, not, ◌&&◌, ◌||◌, Option, List, [], ◌∷◌, ◌++◌, String, str_eq,
  eq_iff, arith, inl, inr, ◌⊎◌,
}
use heyi_eval_v.Store.{Store, Line, entry, blank, broken}
use heyi_eval_v.Queue.{enqueue, is_plain, in_queue, pop_line, pop_one, read_line}
use heyi_eval_v.Queue.Guards.{enqueue-cases, plain_written}

-- No model is queued again behind an entry of its own; entries of an empty id are not compared.
abbrev pub Distinct : List Line → Type 0
Distinct [] = Unit
Distinct (entry r h ∷ rest) = (in_queue h rest ≡ false) × Distinct rest
Distinct (blank ∷ rest) = Distinct rest
Distinct (broken ∷ rest) = Distinct rest

in_queue-snoc_ne :
    (k run_id hf_id : String) (q : List Line)
    → in_queue k q ≡ false
    → (str_eq hf_id k ≡ false) ⊎ (k ≡ "")
    → in_queue k (q ++ entry run_id hf_id ∷ []) ≡ false
unfolding in_queue
in_queue-snoc_ne k run_id hf_id [] h n = ground (arith, eq_iff hf_id "")
in_queue-snoc_ne k run_id hf_id (entry r x ∷ rest) h n =
    ground (arith, in_queue-snoc_ne k run_id hf_id rest, eq_iff x "")
in_queue-snoc_ne k run_id hf_id (blank ∷ rest) h n = in_queue-snoc_ne k run_id hf_id rest h n
in_queue-snoc_ne k run_id hf_id (broken ∷ rest) h n = in_queue-snoc_ne k run_id hf_id rest h n

differs :
    (hf_id h : String) (b : Bool)
    → ((str_eq h hf_id && not (str_eq h "")) || b) ≡ false
    → (str_eq hf_id h ≡ false) ⊎ (h ≡ "")
differs hf_id h b e = ground (arith, eq_iff h hf_id, eq_iff hf_id h, eq_iff h "")

Distinct-snoc :
    (run_id hf_id : String) (q : List Line)
    → in_queue hf_id q ≡ false
    → Distinct q
    → Distinct (q ++ entry run_id hf_id ∷ [])
unfolding in_queue
Distinct-snoc run_id hf_id [] h d = (refl, tt)
Distinct-snoc run_id hf_id (entry r x ∷ rest) h d = (
  in_queue-snoc_ne x run_id hf_id rest d.0 (differs hf_id x _ h),
  Distinct-snoc run_id hf_id rest (ground arith) d.1,
)
Distinct-snoc run_id hf_id (blank ∷ rest) h d = Distinct-snoc run_id hf_id rest h d
Distinct-snoc run_id hf_id (broken ∷ rest) h d = Distinct-snoc run_id hf_id rest h d

-- From a queue in which no model stands twice, `enqueue` leaves such a queue, whatever it answers, if
-- the ids are plain.
pub enqueue-Distinct :
    (reads : String → String → List Line) (now : ℕ) (run_id hf_id : String) (skip : Bool)
    (s : Store)
    → is_plain run_id ≡ true
    → is_plain hf_id ≡ true
    → Distinct s.queue
    → Distinct (enqueue reads now run_id hf_id skip s).1.queue
enqueue-Distinct reads now run_id hf_id skip s a b d =
    elim (enqueue-cases reads now run_id hf_id skip s) [
      | inl (r, e) ↦ rw e d
      | inr (r, e) ↦
          rw (e, plain_written reads run_id hf_id a b)
            (Distinct-snoc run_id hf_id s.queue (ground (arith, r)) d)
    ]

-- So does `pop_one`.
pub pop_one-Distinct : (s : Store) → Distinct s.queue → Distinct (pop_one s).1.queue
unfolding pop_one
pop_one-Distinct s d = popped s.queue d
  where
    popped : (q : List Line) → Distinct q → Distinct (pop_line q).1
    popped [] d = tt
    popped (entry r h ∷ rest) d = d.1
    popped (blank ∷ rest) d = d
    popped (broken ∷ rest) d = d

-- Popping until nothing is left: one answer of `pop_one` for each line.
pub drain : List Line → Store → List (Option (String × String))
drain [] s = []
drain (l ∷ rest) s = let (item, t) = pop_one s in item ∷ drain rest t

abbrev pub read_lines : List Line → List (Option (String × String))
read_lines [] = []
read_lines (l ∷ rest) = read_line l ∷ read_lines rest

drain-eq : (q : List Line) (s : Store) → drain q (record s { queue = q }) ≡ read_lines q
unfolding drain pop_one
drain-eq [] s = refl
drain-eq (l ∷ rest) s = ap (λ x. read_line l ∷ x) (drain-eq rest s)

-- Popping as often as there are lines gives the entries in the order of the queue, each once.
pub drain-in_order : (s : Store) → drain s.queue s ≡ read_lines s.queue
drain-in_order s = drain-eq s.queue s
