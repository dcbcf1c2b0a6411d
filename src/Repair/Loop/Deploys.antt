-- ===== src/Repair/Loop/Deploys.antt =====
-- What `execute_deploy` ends with, and after how many attempts.
use heyi_eval_v.Prelude.{
  ℕ, ◌+◌, ◌≤◌, ◌≡◌, ◌≢◌, ◌⊎◌, refl, true, false, Option, none, some, List, [], ◌∷◌, All, length,
}
use heyi_eval_v.Prelude.Codes.{Text}
use heyi_eval_v.Repair.{Plan}
use heyi_eval_v.Repair.Failure.{ErrorKind}
use heyi_eval_v.Repair.Loop.{
  Env, Session, Try, deployed, failed, Attempt, End, succeeded, works, Outcome, serves, raises,
}

abbrev pub Fails : Attempt → Type 0
Fails a = (kind : ErrorKind) × ((logs : Text) × (a.result ≡ failed kind logs))

-- The last attempt is on the session's engine and image; it works, or it failed like those before.
abbrev Log : Text → Text → List Attempt → Type 0
Log engine image [] = ⊥
Log engine image (a ∷ rest) = (a.engine ≡ engine) × (a.image ≡ image) × All Fails rest

abbrev Logged : Session → Type 0
Logged s = Log s.engine s.image s.attempts × (length s.attempts ≡ s.tries)

deployed_result : (r : Try) → works r ≡ true → r ≡ deployed
deployed_result deployed e = refl
deployed_result (failed kind logs) e = cc

module _ (env : Env) where
  -- A step makes at most so many attempts, and leaves the log in order.
  abbrev Logs : ℕ → Session → Session → Type 0
  Logs n s t = Logged t × (t.tries ≤ s.tries + n)

  -- A round leaves the log in order too.
  abbrev Kept : End × Session → Type 0
  Kept r = Logged r.1

module _ (env : Env) (plan : Plan) (engine image : Text) where
  -- What an outcome says of the attempts, newest first, on which it rests.
  abbrev pub Deployed : Outcome × Option Session → Type 0
  Deployed (serves e i, none) =
      (env.try_once 0 plan image engine ≡ deployed) × (e ≡ engine) × (i ≡ image)
  Deployed (raises kind, none) =
      ((logs : Text) × (env.try_once 0 plan image engine ≡ failed kind logs))
      × ((env.enable_repair ≡ false) ⊎ (kind ≡ ErrorKind.port_in_use))
  Deployed (serves e i, some t) =
      (env.enable_repair ≡ true)
      × ((kind : ErrorKind) × (logs : Text) × (env.try_once 0 plan image engine ≡ failed kind logs)
          × (kind ≢ ErrorKind.port_in_use))
      × (succeeded t ≡ true)
      × Log e i t.attempts
      × (length t.attempts ≡ t.tries)
      × (t.tries ≤ 7 + env.agent_attempts)
  Deployed (raises kind, some t) =
      (env.enable_repair ≡ true)
      × (kind ≢ ErrorKind.port_in_use)
      × ((logs : Text) × (env.try_once 0 plan image engine ≡ failed kind logs))
      × All Fails t.attempts
      × (length t.attempts ≡ t.tries)
      × (t.tries ≤ 7 + env.agent_attempts)
