-- ===== src/Queue/Guards.antt =====
-- What `enqueue` lets through.
use heyi_eval_v.Prelude.{
  ℕ, ◌≡◌, ◌≢◌, refl, ◌⊎◌, Bool, true, false, ◌&&◌, ◌||◌, none, some, List, [], ◌∷◌, ◌++◌, String,
  eq_iff, arith, inl, inr,
}
use heyi_eval_v.Store.{Store, Line, entry, blank, broken}
use heyi_eval_v.Queue.{
  enqueue, is_plain, written, in_queue, in_progress, has_recent_successful_run,
  has_recent_failed_run,
}

-- Why `enqueue` refuses: the id is queued or active; or the caller asked for it, and the model has a
-- recent success, or its last recent run failed.
abbrev pub refused : ℕ → String → Bool → Store → Bool
refused now hf_id skip s =
    in_queue hf_id s.queue
    || in_progress hf_id s
    || (skip && (has_recent_successful_run now hf_id s || has_recent_failed_run now hf_id s))

-- `enqueue` returns no id, and changes nothing, exactly when one of its reasons to refuse holds; else
-- it returns the new id, and adds at the queue's end the line that it wrote, as it reads back.
pub enqueue-cases :
    (reads : String → String → List Line) (now : ℕ) (run_id hf_id : String) (skip : Bool)
    (s : Store)
    → ((refused now hf_id skip s ≡ true) × (enqueue reads now run_id hf_id skip s ≡ (none, s)))
      ⊎ ((refused now hf_id skip s ≡ false)
          × (enqueue reads now run_id hf_id skip s
              ≡ (some run_id, record s { queue = s.queue ++ written reads run_id hf_id })))
unfolding enqueue
enqueue-cases reads now run_id hf_id skip s = ground arith

in_queue-append :
    (run_id hf_id : String) (q : List Line)
    → hf_id ≢ ""
    → in_queue hf_id (q ++ entry run_id hf_id ∷ []) ≡ true
unfolding in_queue
in_queue-append run_id hf_id [] ne = ground (arith, eq_iff hf_id hf_id, eq_iff hf_id "")
in_queue-append run_id hf_id (entry r h ∷ rest) ne =
    ground (arith, in_queue-append run_id hf_id rest ne)
in_queue-append run_id hf_id (blank ∷ rest) ne = in_queue-append run_id hf_id rest ne
in_queue-append run_id hf_id (broken ∷ rest) ne = in_queue-append run_id hf_id rest ne

pub plain_written :
    (reads : String → String → List Line) (run_id hf_id : String)
    → is_plain run_id ≡ true
    → is_plain hf_id ≡ true
    → written reads run_id hf_id ≡ entry run_id hf_id ∷ []
unfolding written
plain_written reads run_id hf_id a b = rw (a, b) refl

-- A model that was just queued is refused at any later time, under any id and either flag, and the
-- store stays as it is; its id and the run's are asked to hold no character that JSON wants escaped and
-- none that ends a line.
pub enqueue_twice :
    (reads : String → String → List Line) (now later : ℕ) (a b hf_id : String) (skip again : Bool)
    (s : Store)
    → hf_id ≢ ""
    → is_plain a ≡ true
    → is_plain hf_id ≡ true
    → (enqueue reads now a hf_id skip s).0 ≡ some a
    → enqueue reads later b hf_id again (enqueue reads now a hf_id skip s).1
      ≡ (none, (enqueue reads now a hf_id skip s).1)
enqueue_twice reads now later a b hf_id skip again s ne pa ph h =
    elim (enqueue-cases reads now a hf_id skip s) [
      | inl (r, e) ↦ absurd (cc (h, e))
      | inr (r, e) ↦
          rw (e, plain_written reads a hf_id pa ph)
            (unfold enqueue in ground (arith, in_queue-append a hf_id s.queue ne))
    ]
