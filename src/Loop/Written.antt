-- ===== src/Loop/Written.antt =====
-- What the writes of one run's pipeline leave in the store.
use heyi_eval_v.Prelude.{
  ◌≡◌, subst, refl, ◌∙◌, true, false, Bool, Option, none, some, List, [], ◌∷◌, not, All, String,
  str_eq, eq_iff, arith, Bool-cases, inl, inr,
}
use heyi_eval_v.Run.{Run}
use heyi_eval_v.Store.{Store, save_run, get_run}
use heyi_eval_v.Store.Agreement.{get_run-save_run}
use heyi_eval_v.Pipeline.{State}
use heyi_eval_v.Pipeline.Executed.{last_save}
use heyi_eval_v.Pipeline.Own.{Own, underway}
use heyi_eval_v.Loop.{write_saves}

-- No run, or one that is neither pending nor in progress.
abbrev pub at_rest : Option Run → Bool
at_rest none = true
at_rest (some r) = not (underway r.status)

abbrev pub Rested : Store → Type 0
Rested s = (k : String) → at_rest (get_run k s) ≡ true

pub queue-write_saves : (l : List Run) (s : Store) → (write_saves l s).queue ≡ s.queue
unfolding write_saves save_run
queue-write_saves [] s = refl
queue-write_saves (r ∷ rest) s = queue-write_saves rest s

pub get_run-write_saves_other :
    (i k : String) (l : List Run) (s : Store)
    → All (λ r. r.run_id ≡ i) l
    → str_eq i k ≡ false
    → get_run k (write_saves l s) ≡ get_run k s
unfolding write_saves
get_run-write_saves_other i k [] s h n = refl
get_run-write_saves_other i k (r ∷ rest) s h n = ground (
  arith,
  get_run-save_run r k (write_saves rest s),
  h.0,
  get_run-write_saves_other i k rest s h.1 n,
)

get_run-write_saves_own :
    (l : List Run) (r : Run) (s : Store)
    → last_save l ≡ some r
    → get_run r.run_id (write_saves l s) ≡ some r
unfolding write_saves
get_run-write_saves_own [] r s h = cc
get_run-write_saves_own (x ∷ rest) r s h =
    ground (arith, get_run-save_run x r.run_id (write_saves rest s), eq_iff x.run_id r.run_id)

-- A run that is saved, worked on and closed leaves a store at rest.
pub write_saves-Rested :
    (run : Run) (p : State) (s : Store)
    → Rested s
    → Own run.run_id p
    → last_save p.saves ≡ some p.run
    → underway p.run.status ≡ false
    → Rested (write_saves p.saves (save_run run s))
write_saves-Rested run p s h o e u k = elim (Bool-cases (str_eq run.run_id k)) [
  | inl y ↦
      let same : p.run.run_id ≡ k = o.run_id ∙ (eq_iff run.run_id k).0 y in
      subst (λ j. at_rest (get_run j (write_saves p.saves (save_run run s))) ≡ true) same
        (rw (get_run-write_saves_own p.saves p.run (save_run run s) e, u) refl)
  | inr n ↦
      rw
        (
          get_run-write_saves_other run.run_id k p.saves (save_run run s) o.saves n,
          get_run-save_run run k s,
          n,
        )
        (h k)
]
