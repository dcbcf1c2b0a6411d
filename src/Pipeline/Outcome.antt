-- ===== src/Pipeline/Outcome.antt =====
-- What `run_pipeline` promises: how a run ends, what it leaves on disk and in the outbox, which stages
-- it executes, and when it succeeds.
use heyi_eval_v.Prelude.{
  ◌<◌, ◌≡◌, ◌≢◌, refl, sym, ◌∙◌, ap, subst, ◌⊎◌, inl, inr, Bool, true, false, not, ◌&&◌, Option,
  none, some, List, ◌∷◌, arith, Bool-cases, String,
}
use heyi_eval_v.Stage.{
  StageName, RunStatus, stage_eq, stage_eq_iff, stages_in_order, cleanup, place,
}
use heyi_eval_v.Run.{get_stage, is_ok}
use heyi_eval_v.Pipeline.{
  State, Env, Stop, Event, returns, breaks, completion, or_text, run_started, run_failed,
  run_aborted, run_completed, begin, run_stages, finish, best_effort_cleanup, close, run_pipeline,
}
use heyi_eval_v.Pipeline.Executed.{last_save}
use heyi_eval_v.Pipeline.Visited.{
  visit-GoesOn, Untouched, Ok, NotOk, best_effort_cleanup-Cleaned, Cleaned,
}
use heyi_eval_v.Pipeline.Order.{From, Looped, place-lt_last, run_stages_cases, run_stages-Looped}
use heyi_eval_v.Pipeline.Ended.{CleanedInfo, CleanedUp, Flagged, Broken, Ended, run_stages-Ended}
use heyi_eval_v.Pipeline.Begun.{begin-Begun}

-- The event that tells of a status.
abbrev pub announces : Event → RunStatus → Bool
announces (run_completed p i d) RunStatus.ok = true
announces (run_failed at m) RunStatus.failed = true
announces (run_aborted at m) RunStatus.aborted = true
announces _ _ = false

-- A run that was not aborted by its flag.
record Closed (s u : State) : Type 0 where
  flag : s.run.abort_flag ≡ false
  cleaned : (u.run.status ≡ RunStatus.ok) ⊎ CleanedUp s u
  event : Event
  events : u.events ≡ event ∷ s.events
  announced : announces event u.run.status ≡ true

-- The loop over the stages and what follows it, from a state `s` to a state `u`.
record Finished (s u : State) : Type 0 where
  later :
      (x y : StageName)
      → place x < place y
      → NotOk x u
      → stage_eq cleanup y ≡ false
      → Untouched y s u
  keeps : (x : StageName) → Ok x s → Untouched x s u
  saved : last_save s.saves ≡ some s.run → last_save u.saves ≡ some u.run
  complete : u.run.status ≡ RunStatus.ok → (x : StageName) → Ok x u
  ended : ((u.run.status ≡ RunStatus.aborted) × Flagged s u) ⊎ Closed s u

module _ (env : Env) (s t : State) where
  finish-none :
      Looped s none t → s.run.abort_flag ≡ false → Ended s none t → Finished s (finish env none t)
  unfolding finish close
  finish-none l f e = record {
    later = l.later;
    keeps = l.keeps;
    saved = λ _. refl;
    complete = λ _. l.complete refl;
    ended = inr (record {
      flag = f;
      cleaned = inl refl;
      event = completion env t;
      events = ap (λ l. completion env t ∷ l) e.1;
      announced = refl;
    });
  }

  finish_returns : Looped s (some returns) t → Ended s (some returns) t → Finished s t
  finish_returns l (st, a) = record {
    later = l.later;
    keeps = l.keeps;
    saved = l.saved;
    complete = λ h. absurd (cc (h, st));
    ended = elim a [
      | inl b ↦ inl (st, b)
      | inr b ↦ inr (record {
        flag = b.flag;
        cleaned = inr b.cleaned;
        event = run_aborted b.at b.reason;
        events = b.events;
        announced = rw st refl;
      })
    ];
  }

-- What follows a `break`.
module _ (env : Env) (at : StageName) (m : String) (s t : State) where
  abbrev after_break : State
  after_break = finish env (some (breaks at m)) t

  abbrev test : Bool
  test = not (stage_eq at cleanup) && not (is_ok (get_stage t.run cleanup).status)

  break-Cleaned :
      Broken at s t → Cleaned test t (best_effort_cleanup env test t) → CleanedUp s after_break
  unfolding finish close
  break-Cleaned b c = elim (Bool-cases (stage_eq at cleanup)) [
    | inl e ↦ inl (ground (arith, c.untried, b.tried e))
    | inr n ↦ elim (Bool-cases (is_ok (get_stage t.run cleanup).status)) [
      | inl y ↦ inr (ground (arith, b.untried n))
      | inr y ↦ inl (ground (arith, b.untried n, c.tried))
    ]
  ]

  break_keeps :
      Cleaned test t (best_effort_cleanup env test t)
      → (y : StageName) → Ok y t
      → Untouched y t after_break
  unfolding finish close
  break_keeps c y h = elim (Bool-cases (stage_eq cleanup y)) [
    | inl e ↦ ground (arith, stage_eq_iff cleanup y, c.untried)
    | inr n ↦ c.others y n
  ]

  break-NotOk :
      Cleaned test t (best_effort_cleanup env test t)
      → (x : StageName) → stage_eq cleanup x ≡ false
      → NotOk x after_break
      → NotOk x t
  unfolding finish close
  break-NotOk c x n h = sym (ap (λ i. is_ok i.status) (c.others x n)) ∙ h

  finish_breaks : Looped s (some (breaks at m)) t → Broken at s t → Finished s after_break
  unfolding finish close
  finish_breaks l b =
      let c = best_effort_cleanup-Cleaned env test t in
      record {
        later = λ x y lt h n.
            c.others y n ∙ l.later x y lt (break-NotOk c x (ground (arith, place-lt_last y)) h) n;
        keeps = λ x h. let e = l.keeps x h in break_keeps c x (ap (λ i. is_ok i.status) e ∙ h) ∙ e;
        saved = λ _. refl;
        complete = λ h. absurd (cc (h));
        ended = inr (record {
          flag = b.flag;
          cleaned = inr (break-Cleaned b c);
          event = run_failed at (or_text (some m) "unknown");
          events = ap (λ l. run_failed at (or_text (some m) "unknown") ∷ l) (c.events ∙ b.events);
          announced = refl;
        });
      }

unflagged_of_none :
    (env : Env) (stage : StageName) (rest : List StageName) (s : State)
    → (run_stages env (stage ∷ rest) s).0 ≡ none
    → s.run.abort_flag ≡ false
unflagged_of_none env stage rest s =
    run_stages_cases (λ r. r.0 ≡ none → s.run.abort_flag ≡ false) env stage rest s (λ x e h. cc)
      (λ e h. (visit-GoesOn env stage s e).unflagged)

From-stages : From 0 stages_in_order
From-stages = omega arith

finish-Finished :
    (env : Env) (s : State) (o : Option Stop) (t : State)
    → (o ≡ none → s.run.abort_flag ≡ false)
    → Looped s o t
    → Ended s o t
    → Finished s (finish env o t)
finish-Finished env s none t f l e = finish-none env s t l (f refl) e
finish-Finished env s (some returns) t f l e = unfold finish in finish_returns env s t l e
finish-Finished env s (some (breaks at m)) t f l e = finish_breaks env at m s t l e

rest-Finished :
    (env : Env) (s : State)
    → Finished s
        (finish env (run_stages env stages_in_order s).0 (run_stages env stages_in_order s).1)
rest-Finished env s =
    finish-Finished env s _ _ (unflagged_of_none env _ _ s)
      (run_stages-Looped env stages_in_order 0 s From-stages (λ x h. elim h [ ]))
      (run_stages-Ended env stages_in_order 0 s From-stages)

run_pipeline-Finished : (env : Env) (s : State) → Finished (begin s) (run_pipeline env s)
unfolding run_pipeline
run_pipeline-Finished env s = rest-Finished env (begin s)

-- The last state that `run_pipeline` writes to state.json is the run that it leaves in memory.
pub last_save-run_pipeline :
    (env : Env) (s : State) → last_save (run_pipeline env s).saves ≡ some (run_pipeline env s).run
last_save-run_pipeline env s = (run_pipeline-Finished env s).saved (begin-Begun s).saved

-- A stage that is OK when the run starts or resumes keeps its record, artifacts and times included, also
-- where the run-level stages are reset for a full restart: what is OK is not replayed.
pub run_pipeline-keeps_ok :
    (env : Env) (s : State) (x : StageName)
    → is_ok (get_stage s.run x).status ≡ true
    → get_stage (run_pipeline env s).run x ≡ get_stage s.run x
run_pipeline-keeps_ok env s x h =
    let e = (begin-Begun s).keeps x h in
    (run_pipeline-Finished env s).keeps x (ap (λ i. is_ok i.status) e ∙ h) ∙ e

-- If a stage is not OK at the end, then no later stage but CLEANUP was executed: its count of attempts
-- is as it was.
pub run_pipeline-in_order :
    (env : Env) (s : State) (x y : StageName)
    → place x < place y
    → is_ok (get_stage (run_pipeline env s).run x).status ≡ false
    → y ≢ cleanup
    → (get_stage (run_pipeline env s).run y).attempt ≡ (get_stage s.run y).attempt
run_pipeline-in_order env s x y lt h n =
    ap (λ i. i.attempt)
      ((run_pipeline-Finished env s).later x y lt h (ground (arith, stage_eq_iff cleanup y)))
    ∙ (begin-Begun s).attempts y

-- A run whose abort flag is not set ends with one terminal event behind its `run_started`, of the
-- kind of its final status, which is OK, FAILED or ABORTED.
pub run_pipeline-announces :
    (env : Env) (s : State)
    → s.run.abort_flag ≡ false
    → (e : Event) × ((run_pipeline env s).events ≡ e ∷ run_started ∷ s.events)
      × (announces e (run_pipeline env s).run.status ≡ true)
run_pipeline-announces env s f = elim (run_pipeline-Finished env s).ended [
  | inl a ↦ absurd (cc (a.1.flag, (begin-Begun s).abort_flag, f))
  | inr c ↦ (c.event, c.events ∙ ap (λ l. c.event ∷ l) (begin-Begun s).events, c.announced)
]

-- A run whose abort flag is not set ends OK, or CLEANUP was executed once more, or CLEANUP stood at OK
-- or SKIPPED when the run started.
pub run_pipeline-cleans_up :
    (env : Env) (s : State)
    → s.run.abort_flag ≡ false
    → ((run_pipeline env s).run.status ≡ RunStatus.ok) ⊎ CleanedUp s (run_pipeline env s)
run_pipeline-cleans_up env s f = elim (run_pipeline-Finished env s).ended [
  | inl a ↦ absurd (cc (a.1.flag, (begin-Begun s).abort_flag, f))
  | inr c ↦
      subst
        (λ i.
          ((run_pipeline env s).run.status ≡ RunStatus.ok)
          ⊎ CleanedInfo i (get_stage (run_pipeline env s).run cleanup))
        (begin-Begun s).cleanup_kept c.cleaned
]

-- A run that ends OK has every stage at OK.
pub run_pipeline_complete :
    (env : Env) (s : State) (x : StageName)
    → (run_pipeline env s).run.status ≡ RunStatus.ok
    → is_ok (get_stage (run_pipeline env s).run x).status ≡ true
run_pipeline_complete env s x h = (run_pipeline-Finished env s).complete h x

-- A run whose abort flag is set ends ABORTED with no stage executed, CLEANUP included, and with no
-- event behind its `run_started`.
pub run_pipeline-flagged :
    (env : Env) (s : State)
    → s.run.abort_flag ≡ true
    → ((run_pipeline env s).run.status ≡ RunStatus.aborted)
      × ((x : StageName)
          → (get_stage (run_pipeline env s).run x).attempt ≡ (get_stage s.run x).attempt)
      × ((run_pipeline env s).events ≡ run_started ∷ s.events)
run_pipeline-flagged env s f = elim (run_pipeline-Finished env s).ended [
  | inl a ↦ (
    a.0,
    (λ x. ap (λ g. (g x).attempt) a.1.stages ∙ (begin-Begun s).attempts x),
    a.1.events ∙ (begin-Begun s).events,
  )
  | inr c ↦ absurd (cc (c.flag, (begin-Begun s).abort_flag, f))
]
