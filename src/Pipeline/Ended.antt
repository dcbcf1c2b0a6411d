-- ===== src/Pipeline/Ended.antt =====
-- How the loop over the stages ends: the run's status, the events and the cleanup.
use heyi_eval_v.Prelude.{
  ℕ, suc, ◌+◌, ◌≡◌, refl, ◌∙◌, ap, subst, sym, true, false, Option, none, some, List, [], ◌∷◌,
  arith, String, ◌⊎◌, inl, inr, Bool-cases, ◌||◌,
}
use heyi_eval_v.Stage.{StageName, StageInfo, RunStatus, stage_eq, stage_eq_iff, cleanup}
use heyi_eval_v.Run.{get_stage, is_ok, is_skipped}
use heyi_eval_v.Pipeline.{
  State, Env, Exn, Stop, returns, breaks, visit, run_stages, handle, close, ensure_failed, abandon,
  run_aborted, graceful_skip, crash, validation_error, other_error, cleanup_after_skip,
}
use heyi_eval_v.Pipeline.Executed.{Executed, exec-Executed, exec-skip, stage_eq_refl}
use heyi_eval_v.Pipeline.Visited.{
  Untouched, NotOk, GoesOn, abandon-Abandoned, events-abandon, visit_cases, visit-GoesOn,
  visit-Visited,
}
use heyi_eval_v.Pipeline.Order.{From, place-lt_last, run_stages_cases}

-- The cleanup was executed once more, or stood at OK or SKIPPED before.
abbrev pub CleanedInfo : StageInfo → StageInfo → Type 0
CleanedInfo i j = (j.attempt ≡ i.attempt + 1) ⊎ ((is_ok i.status || is_skipped i.status) ≡ true)

abbrev pub CleanedUp : State → State → Type 0
CleanedUp s t = CleanedInfo (get_stage s.run cleanup) (get_stage t.run cleanup)

pub record Flagged (s t : State) : Type 0 where
  pub flag : s.run.abort_flag ≡ true
  pub stages : t.run.stages ≡ s.run.stages
  pub events : t.events ≡ s.events

pub record Skipped (s t : State) : Type 0 where
  pub flag : s.run.abort_flag ≡ false
  pub cleaned : CleanedUp s t
  pub at : StageName
  pub reason : String
  pub events : t.events ≡ run_aborted at reason ∷ s.events

pub record Broken (at : StageName) (s t : State) : Type 0 where
  pub flag : s.run.abort_flag ≡ false
  pub failed : NotOk at t
  pub events : t.events ≡ s.events
  pub tried :
      stage_eq at cleanup ≡ true
      → (get_stage t.run cleanup).attempt ≡ (get_stage s.run cleanup).attempt + 1
  pub untried : stage_eq at cleanup ≡ false → Untouched cleanup s t

abbrev pub Ended : State → Option Stop → State → Type 0
Ended s none t = (t.run.status ≡ s.run.status) × (t.events ≡ s.events)
Ended s (some returns) t = (t.run.status ≡ RunStatus.aborted) × (Flagged s t ⊎ Skipped s t)
Ended s (some (breaks at reason)) t = Broken at s t

ensure_failed-Broken :
    (env : Env) (stage : StageName) (m : String) (s : State) (e : Exn) (t : State)
    → Executed stage s (some e) t
    → s.run.abort_flag ≡ false
    → Broken stage s (ensure_failed env stage m t)
unfolding ensure_failed
ensure_failed-Broken env stage m s e t x a = record {
  flag = a;
  failed = ground (arith, stage_eq_refl stage);
  events = ground arith;
  tried = λ q. ground (arith, stage_eq_iff stage cleanup);
  untried = λ q. ground (arith, x.others cleanup);
}

skipped_cleanup :
    (env : Env) (stage : StageName) (reason : String) (s t : State)
    → Executed stage s (some (graceful_skip stage reason)) t
    → CleanedUp s (abandon env stage reason t)
skipped_cleanup env stage reason s t x =
    let a = abandon-Abandoned env stage reason t in
    elim (Bool-cases (stage_eq stage cleanup)) [
      | inl e ↦ inl (ground (arith, a.untried, stage_eq_iff stage cleanup))
      | inr n ↦ elim (Bool-cases (cleanup_after_skip stage t)) [
        | inl y ↦ inl (ground (arith, a.tried, x.others cleanup))
        | inr y ↦ inr (ground (arith, x.others cleanup))
      ]
    ]

handle-Ended :
    (env : Env) (stage : StageName) (s t : State) (e : Option Exn)
    → s.run.abort_flag ≡ false
    → ((at : StageName) (reason : String) → e ≡ some (graceful_skip at reason) → at ≡ stage)
    → Executed stage s e t
    → Ended s (handle env stage e t).0 (handle env stage e t).1
unfolding handle
handle-Ended env stage s t none a q x = (x.status, x.events)
handle-Ended env stage s t (some (graceful_skip at reason)) a q x =
    let e = q at reason refl in
    let b = abandon-Abandoned env at reason t in
    (
      b.status,
      inr (record {
        flag = a;
        cleaned =
            subst (λ z. CleanedUp s (abandon env z reason t)) (sym e)
              (skipped_cleanup env stage reason s t
                (subst (λ z. Executed stage s (some (graceful_skip z reason)) t) e x));
        at = at;
        reason = reason;
        events = events-abandon env at reason t ∙ ap (λ l. run_aborted at reason ∷ l) x.events;
      }),
    )
handle-Ended env stage s t (some (crash (validation_error m))) a q x =
    ensure_failed-Broken env stage _ s _ t x a
handle-Ended env stage s t (some (crash (other_error k m))) a q x =
    ensure_failed-Broken env stage _ s _ t x a

visit-Ended :
    (env : Env) (stage : StageName) (s : State)
    → Ended s (visit env stage s).0 (visit env stage s).1
visit-Ended env stage s =
    visit_cases (λ r. Ended s r.0 r.1) env stage s
      (λ a. unfold close in (refl, inl (record { flag = a; stages = refl; events = refl })))
      (λ _ _. (refl, refl))
      (λ a _.
        handle-Ended env stage s _ _ a (λ at reason. exec-skip env stage at reason s)
          (exec-Executed env stage s))

-- A round that goes on, in front of a loop that ends.
Ended-GoesOn :
    (stage : StageName) (s t u : State) (stop : Option Stop)
    → GoesOn stage s t
    → stage_eq stage cleanup ≡ false
    → t.run.abort_flag ≡ s.run.abort_flag
    → Ended t stop u
    → Ended s stop u
Ended-GoesOn stage s t u none g n f e = (e.0 ∙ g.status, e.1 ∙ g.events)
Ended-GoesOn stage s t u (some returns) g n f (st, inl a) = absurd (cc (a.flag, f, g.unflagged))
Ended-GoesOn stage s t u (some returns) g n f (st, inr a) = (
  st,
  inr (record {
    flag = g.unflagged;
    cleaned = subst (λ i. CleanedInfo i (get_stage u.run cleanup)) (g.others cleanup n) a.cleaned;
    at = a.at;
    reason = a.reason;
    events = a.events ∙ ap (λ l. run_aborted a.at a.reason ∷ l) g.events;
  }),
)
Ended-GoesOn stage s t u (some (breaks at m)) g n f e = record {
  flag = g.unflagged;
  failed = e.failed;
  events = e.events ∙ g.events;
  tried = λ q. ground (arith, e.tried, g.others cleanup);
  untried = λ q. e.untried q ∙ g.others cleanup n;
}

pub run_stages-Ended :
    (env : Env) (stages : List StageName) (k : ℕ) (s : State)
    → From k stages
    → Ended s (run_stages env stages s).0 (run_stages env stages s).1
run_stages-Ended env [] k s at = unfold run_stages in (refl, refl)
run_stages-Ended env (stage ∷ []) k s at =
    run_stages_cases (λ r. Ended s r.0 r.1) env stage [] s
      (λ x e. subst (λ o. Ended s o (visit env stage s).1) e (visit-Ended env stage s))
      (λ e.
        unfold run_stages in
        subst (λ o. Ended s o (visit env stage s).1) e (visit-Ended env stage s))
run_stages-Ended env (stage ∷ other ∷ rest) k s at =
    run_stages_cases (λ r. Ended s r.0 r.1) env stage (other ∷ rest) s
      (λ x e. subst (λ o. Ended s o (visit env stage s).1) e (visit-Ended env stage s))
      (λ e.
        Ended-GoesOn stage s _ _ _ (visit-GoesOn env stage s e)
          (ground (arith, place-lt_last other)) (visit-Visited env stage s).abort_flag
          (run_stages-Ended env (other ∷ rest) (suc k) (visit env stage s).1 at.1))
