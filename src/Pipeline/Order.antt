-- ===== src/Pipeline/Order.antt =====
-- The order of the stages: what the loop touches, and when.
use heyi_eval_v.Prelude.{
  ℕ, suc, ◌≤◌, ◌<◌, ◌≡◌, refl, ◌∙◌, ap, false, Option, none, some, List, [], ◌∷◌, arith, Bool-cases,
  inl, inr,
}
use heyi_eval_v.Stage.{StageName, stage_eq, stage_eq_iff, cleanup, place}
use heyi_eval_v.Run.{get_stage, is_ok}
use heyi_eval_v.Pipeline.{State, Env, Stop, visit, run_stages}
use heyi_eval_v.Pipeline.Executed.{last_save}
use heyi_eval_v.Pipeline.Visited.{
  Untouched, Ok, NotOk, Visited, GoesOn, visit-Visited, visit-GoesOn,
}

-- The stages of a list stand at the places from `k` on, to the last.
abbrev pub From : ℕ → List StageName → Type 0
From k [] = k ≡ 11
From k (x ∷ rest) = (place x ≡ k) × From (suc k) rest

abbrev pub OkBelow : ℕ → State → Type 0
OkBelow k s = (x : StageName) → place x < k → Ok x s

pub record Looped (s : State) (stop : Option Stop) (t : State) : Type 0 where
  -- behind a stage that is not OK, all but the cleanup is as it was
  pub later :
      (x y : StageName)
      → place x < place y
      → NotOk x t
      → stage_eq cleanup y ≡ false
      → Untouched y s t
  pub keeps : (x : StageName) → Ok x s → Untouched x s t
  pub saved : last_save s.saves ≡ some s.run → last_save t.saves ≡ some t.run
  pub abort_flag : t.run.abort_flag ≡ s.run.abort_flag
  pub complete : stop ≡ none → (x : StageName) → Ok x t

-- A stage that is not OK afterwards was not OK before.
NotOk-before :
    (s t : State) (x : StageName)
    → ((y : StageName) → Ok y s → Untouched y s t)
    → NotOk x t
    → NotOk x s
NotOk-before s t x keeps h = elim (Bool-cases (is_ok (get_stage s.run x).status)) [
  | inl a ↦ cc (h, ap (λ i. is_ok i.status) (keeps x a))
  | inr a ↦ a
]

pub place-lt_last : (x : StageName) → place x < 11
place-lt_last x = ground arith

below_of_NotOk : (k : ℕ) (s : State) (x : StageName) → OkBelow k s → NotOk x s → k ≤ place x
below_of_NotOk k s x below h = ground (arith, below x)

-- The two ways of the loop over a list that begins with `stage`.
pub run_stages_cases :
    (P : Option Stop × State → Type 0) (env : Env) (stage : StageName) (rest : List StageName)
    (s : State)
    → ((x : Stop) → (visit env stage s).0 ≡ some x → P (some x, (visit env stage s).1))
    → ((visit env stage s).0 ≡ none → P (run_stages env rest (visit env stage s).1))
    → P (run_stages env (stage ∷ rest) s)
unfolding run_stages
run_stages_cases P env stage rest s stops goes = go (visit env stage s).0 refl
  where
    go :
        (o : Option Stop)
        → (visit env stage s).0 ≡ o
        → P (elim o [
          | none ↦ run_stages env rest (visit env stage s).1
          | some x ↦ (some x, (visit env stage s).1)
        ])
    go none e = goes e
    go (some x) e = stops x e

Looped-stop :
    (stage : StageName) (k : ℕ) (s t : State) (o : Option Stop) (stop : Stop)
    → place stage ≡ k
    → OkBelow k s
    → Visited stage s o t
    → Looped s (some stop) t
Looped-stop stage k s t o stop at below v = record {
  later = λ x y lt h c.
      v.others y (ground (arith, below_of_NotOk k s x below (NotOk-before s t x v.keeps h))) c;
  keeps = v.keeps;
  saved = v.saved;
  abort_flag = v.abort_flag;
  complete = λ e. cc;
}

Looped-next :
    (stage : StageName) (k : ℕ) (s t u : State) (o stop : Option Stop)
    → place stage ≡ k
    → OkBelow k s
    → Visited stage s o t
    → GoesOn stage s t
    → Looped t stop u
    → Looped s stop u
Looped-next stage k s t u o stop at below v g l = record {
  later = λ x y lt h c.
      let h' = NotOk-before t u x l.keeps h in
      l.later x y lt h c
      ∙ v.others y (ground (arith, below_of_NotOk k s x below (NotOk-before s t x v.keeps h'))) c;
  keeps = λ x h. let e = v.keeps x h in l.keeps x (ap (λ i. is_ok i.status) e ∙ h) ∙ e;
  saved = λ h. l.saved (v.saved h);
  abort_flag = l.abort_flag ∙ v.abort_flag;
  complete = l.complete;
}

OkBelow-next :
    (stage : StageName) (k : ℕ) (s t : State) (o : Option Stop)
    → place stage ≡ k
    → OkBelow k s
    → Visited stage s o t
    → GoesOn stage s t
    → OkBelow (suc k) t
OkBelow-next stage k s t o at below v g x lt = elim (Bool-cases (stage_eq stage x)) [
  | inl e ↦ ground (arith, stage_eq_iff stage x, g.done)
  | inr n ↦ let h : Ok x s = below x (ground arith) in ap (λ i. is_ok i.status) (v.keeps x h) ∙ h
]

pub run_stages-Looped :
    (env : Env) (stages : List StageName) (k : ℕ) (s : State)
    → From k stages
    → OkBelow k s
    → Looped s (run_stages env stages s).0 (run_stages env stages s).1
run_stages-Looped env [] k s at below =
    unfold run_stages in
    record {
      later = λ x y lt h c. refl;
      keeps = λ _ _. refl;
      saved = λ h. h;
      abort_flag = refl;
      complete = λ _ x. below x (omega (arith, place-lt_last x));
    }
run_stages-Looped env (stage ∷ rest) k s at below =
    run_stages_cases (λ r. Looped s r.0 r.1) env stage rest s
      (λ x e. Looped-stop stage k s _ _ x at.0 below v)
      (λ e.
        let g = visit-GoesOn env stage s e in
        Looped-next stage k s _ _ _ _ at.0 below v g (
          run_stages-Looped env rest (suc k) (visit env stage s).1 at.1
            (OkBelow-next stage k s _ _ at.0 below v g)))
  where
    v : Visited stage s (visit env stage s).0 (visit env stage s).1
    v = visit-Visited env stage s
