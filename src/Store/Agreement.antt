-- ===== src/Store/Agreement.antt =====
-- The index agrees with the state files, and a listing is newest first.
use heyi_eval_v.Prelude.{
  ℕ, zero, suc, ◌≤◌, ◌≡◌, refl, Option, none, some, List, [], ◌∷◌, String, str_eq, eq_iff, arith,
  All, take, leb, if◌then◌else◌,
}
use heyi_eval_v.Prelude.{if_cases, length}
use heyi_eval_v.Stage.{RunStatus}
use heyi_eval_v.Run.{Run}
use heyi_eval_v.Store.{
  Store, Row, upsert, write_file, save_run, load_state, get_run, insert_row, by_created, list_runs,
}

-- What a row repeats of its run's state file, but for the ids and the time of the creation.
pub record Summary : Type 0 where
  pub status : RunStatus
  pub ended_at : Option ℕ
  pub failure_reason : Option String

abbrev pub row_summary : Row → Summary
row_summary x = record {
  status = x.status;
  ended_at = x.ended_at;
  failure_reason = x.failure_reason;
}

abbrev pub run_summary : Run → Summary
run_summary r = record {
  status = r.status;
  ended_at = r.ended_at;
  failure_reason = r.failure_reason;
}

-- What the index has for a run.
unfoldable pub index_entry : String → List Row → Option Summary
index_entry k [] = none
index_entry k (x ∷ rest) = if str_eq x.run_id k then some (row_summary x) else index_entry k rest

abbrev pub file_entry : Option Run → Option Summary
file_entry none = none
file_entry (some r) = some (run_summary r)

-- For every run, the index has the status, the end and the reason of its state file, and no row without
-- a file.
abbrev pub Agrees : Store → Type 0
Agrees s = (k : String) → index_entry k s.rows ≡ file_entry (get_run k s)

pub index_entry-upsert :
    (r : Run) (k : String) (rows : List Row)
    → index_entry k (upsert r rows)
      ≡ (if str_eq r.run_id k then some (run_summary r) else index_entry k rows)
unfolding index_entry upsert
index_entry-upsert r k [] = refl
index_entry-upsert r k (x ∷ rest) = ground (
  arith,
  eq_iff x.run_id r.run_id,
  eq_iff x.run_id k,
  eq_iff r.run_id k,
  index_entry-upsert r k rest,
)

load_state-write_file :
    (r : Run) (k : String) (files : List Run)
    → load_state k (write_file r files) ≡ (if str_eq r.run_id k then some r else load_state k files)
unfolding load_state write_file
load_state-write_file r k [] = refl
load_state-write_file r k (x ∷ rest) = ground (
  arith,
  eq_iff x.run_id r.run_id,
  eq_iff x.run_id k,
  eq_iff r.run_id k,
  load_state-write_file r k rest,
)

run_id-load_state :
    (k : String) (files : List Run) (r : Run) → load_state k files ≡ some r → r.run_id ≡ k
unfolding load_state
run_id-load_state k [] r h = cc
run_id-load_state k (x ∷ rest) r h = ground (arith, eq_iff x.run_id k, run_id-load_state k rest r)

pub run_id-get_run : (k : String) (s : Store) (r : Run) → get_run k s ≡ some r → r.run_id ≡ k
unfolding get_run
run_id-get_run k s r h = run_id-load_state k s.files r h

-- What `save_run` wrote is what `get_run` reads, and the files of other runs stay.
pub get_run-save_run :
    (r : Run) (k : String) (s : Store)
    → get_run k (save_run r s) ≡ (if str_eq r.run_id k then some r else get_run k s)
unfolding get_run save_run
get_run-save_run r k s = load_state-write_file r k s.files

-- Saving a run keeps the index in agreement with the state files: for every run the same status, end and
-- failure reason, and no row without a file.
pub save_run-Agrees : (r : Run) (s : Store) → Agrees s → Agrees (save_run r s)
save_run-Agrees r s h k =
    rw (get_run-save_run r k s)
      (unfold save_run in rw (index_entry-upsert r k s.rows) (ground (arith, h k)))

-- Newest first.
abbrev pub Descending : List Row → Type 0
Descending [] = Unit
Descending (x ∷ rest) = All (λ y. y.created_at ≤ x.created_at) rest × Descending rest

pub All-insert_row :
    (P : Row → Type 0) (r : Row) (rows : List Row) → P r → All P rows → All P (insert_row r rows)
unfolding insert_row
All-insert_row P r [] h t = (h, tt)
All-insert_row P r (x ∷ rest) h t =
    if_cases (All P) (leb x.created_at r.created_at) _ _ (λ _. (h, t))
      (λ _. (t.0, All-insert_row P r rest h t.1))

All-weaken :
    (m n : ℕ) (rows : List Row)
    → m ≤ n
    → All (λ y. y.created_at ≤ m) rows
    → All (λ y. y.created_at ≤ n) rows
All-weaken m n [] h t = tt
All-weaken m n (x ∷ rest) h t = (omega arith, All-weaken m n rest h t.1)

insert_row-Descending :
    (r : Row) (rows : List Row) → Descending rows → Descending (insert_row r rows)
unfolding insert_row
insert_row-Descending r [] h = (tt, tt)
insert_row-Descending r (x ∷ rest) h =
    if_cases Descending (leb x.created_at r.created_at) _ _
      (λ e.
        let le : x.created_at ≤ r.created_at = ground arith in
        ((le, All-weaken x.created_at r.created_at rest le h.0), h))
      (λ e. (
        All-insert_row (λ y. y.created_at ≤ x.created_at) r rest (ground arith) h.0,
        insert_row-Descending r rest h.1,
      ))

by_created-Descending : (rows : List Row) → Descending (by_created rows)
unfolding by_created
by_created-Descending [] = tt
by_created-Descending (x ∷ rest) = insert_row-Descending x _ (by_created-Descending rest)

pub All-take : (P : Row → Type 0) (n : ℕ) (rows : List Row) → All P rows → All P (take n rows)
All-take P zero rows h = tt
All-take P (suc n) [] h = tt
All-take P (suc n) (x ∷ rest) h = (h.0, All-take P n rest h.1)

take-Descending : (n : ℕ) (rows : List Row) → Descending rows → Descending (take n rows)
take-Descending zero rows h = tt
take-Descending (suc n) [] h = tt
take-Descending (suc n) (x ∷ rest) h = (All-take _ n rest h.0, take-Descending n rest h.1)

length-take_le : (n : ℕ) (rows : List Row) → length (take n rows) ≤ n
length-take_le zero rows = omega arith
length-take_le (suc n) [] = omega arith
length-take_le (suc n) (x ∷ rest) = omega (arith, length-take_le n rest)

-- A listing is newest first, and no longer than its limit.
pub list_runs-Descending :
    (limit : ℕ) (s : Store) → Descending (list_runs limit s) × (length (list_runs limit s) ≤ limit)
unfolding list_runs
list_runs-Descending limit s = (
  take-Descending limit _ (by_created-Descending s.rows),
  length-take_le limit (by_created s.rows),
)
