-- ===== src/Cleanup/Safe.antt =====
-- Which containers CLEANUP touches, and what a success of it means.
use heyi_eval_v.Prelude.{
  ◌≡◌, refl, Bool, true, false, not, ◌&&◌, ◌||◌, if◌then◌else◌, none, some, List, [], ◌∷◌, ◌++◌,
  All, any, arith, if_cases, String,
}
use heyi_eval_v.Prelude.Codes.{Text, text_eq, text_eq_iff}
use heyi_eval_v.Pipeline.{StageResult}
use heyi_eval_v.Cleanup.{
  Container, listed, Reply, done, not_found, api_error, Retry, done_at_last, docker_error, Daemon,
  Note, Cleaning, Payload, is_e9, note, again, answered, clean_one, clean_all, verdict_of,
  no_cleaning, clean_listing, execute_cleanup,
}

abbrev pub told {ℓ} : {A : Type ℓ} → Text → List (Text × A) → Bool
told n l = any (λ x. text_eq x.0 n) l

told-snoc {ℓ} :
    {A : Type ℓ} (n : Text) (x : Text × A) (l : List (Text × A))
    → told n (l ++ x ∷ []) ≡ (told n l || text_eq x.0 n)
told-snoc n x [] = ground arith
told-snoc n x (y ∷ rest) = ground (arith, told-snoc n x rest)

All-snoc : (P : Text → Type 0) (x : Text) (l : List Text) → All P l → P x → All P (l ++ x ∷ [])
All-snoc P x [] h p = (p, tt)
All-snoc P x (y ∷ rest) h p = (h.0, All-snoc P x rest h.1 p)

-- The container is told of as removed or as failed.
abbrev settled : Text → Cleaning → Bool
settled n s = told n s.removed || told n s.failed

record Good (dry : Bool) (s : Cleaning) : Type 0 where
  asked : All (λ n. is_e9 n ≡ true) s.asked
  skipped : All (λ n. is_e9 n ≡ false) s.skipped
  idle : dry ≡ true → s.asked ≡ []

answered-Good :
    (d : Daemon) (n : Text) (r : Reply) (s : Cleaning)
    → is_e9 n ≡ true
    → Good false s
    → Good false (answered d n r s)
unfolding answered again
answered-Good d n done s e g = record { asked = g.asked; skipped = g.skipped; idle = λ h. cc }
answered-Good d n not_found s e g = record { asked = g.asked; skipped = g.skipped; idle = λ h. cc }
answered-Good d n api_error s e g = go (d.remove_again n)
  where
    go : (r : Retry) → Good false (again n r s)
    go done_at_last = record { asked = (e, g.asked); skipped = g.skipped; idle = λ h. cc }
    go (docker_error m) = record { asked = (e, g.asked); skipped = g.skipped; idle = λ h. cc }

clean_one-Good :
    (d : Daemon) (dry : Bool) (n : Text) (s : Cleaning)
    → Good dry s
    → Good dry (clean_one d dry n s)
unfolding clean_one
clean_one-Good d dry n s g =
    if_cases (Good dry) (not (is_e9 n)) _ _
      (λ e. record {
        asked = g.asked;
        skipped = All-snoc _ n s.skipped g.skipped (ground arith);
        idle = g.idle;
      })
      (λ e. go dry (ground arith) g)
  where
    go :
        (b : Bool)
        → is_e9 n ≡ true
        → Good b s
        → Good b (
            if b
            then note n Note.dry_run s
            else answered d n (d.remove n) (record s { asked = n ∷ s.asked }))
    go true e g = record { asked = g.asked; skipped = g.skipped; idle = g.idle }
    go false e g =
        answered-Good d n (d.remove n) (record s { asked = n ∷ s.asked }) e
          (record { asked = (e, g.asked); skipped = g.skipped; idle = λ h. cc })

answered_settles :
    (d : Daemon) (n k : Text) (r : Reply) (s : Cleaning)
    → settled k (answered d n r s) ≡ (settled k s || text_eq n k)
unfolding answered again
answered_settles d n k done s = ground (arith, told-snoc k (n, Note.stopped) s.removed)
answered_settles d n k not_found s =
    ground (arith, told-snoc k (n, Note.vanished_before_remove) s.removed)
answered_settles d n k api_error s = go (d.remove_again n)
  where
    go : (r : Retry) → settled k (again n r s) ≡ (settled k s || text_eq n k)
    go done_at_last = ground (arith, told-snoc k (n, Note.removed_after_retry) s.removed)
    go (docker_error m) = ground (arith, told-snoc k (n, m) s.failed)

clean_one_settles :
    (d : Daemon) (dry : Bool) (n k : Text) (s : Cleaning)
    → settled k (clean_one d dry n s) ≡ (settled k s || (is_e9 n && text_eq n k))
unfolding clean_one
clean_one_settles d dry n k s = ground (
  arith,
  told-snoc k (n, Note.dry_run) s.removed,
  answered_settles d n k (d.remove n) (record s { asked = n ∷ s.asked }),
)

clean_all-Good :
    (d : Daemon) (dry : Bool) (l : List Container) (s : Cleaning)
    → Good dry s
    → Good dry (clean_all d dry l s)
unfolding clean_all
clean_all-Good d dry [] s g = g
clean_all-Good d dry (c ∷ rest) s g =
    clean_all-Good d dry rest (clean_one d dry c.name s) (clean_one-Good d dry c.name s g)

clean_all_settles :
    (d : Daemon) (dry : Bool) (k : Text) (l : List Container) (s : Cleaning)
    → is_e9 k ≡ true
    → (settled k s || any (λ c. text_eq c.name k) l) ≡ true
    → settled k (clean_all d dry l s) ≡ true
unfolding clean_all
clean_all_settles d dry k [] s e h = ground arith
clean_all_settles d dry k (c ∷ rest) s e h =
    clean_all_settles d dry k rest (clean_one d dry c.name s) e
      (rw (clean_one_settles d dry c.name k s) (ground (arith, text_eq_iff c.name k)))

-- What a cleanup of the listed containers has done.
pub record Cleaned (dry : Bool) (l : List Container) (r : StageResult) (p : Payload) : Type 0 where
  pub asked : All (λ n. is_e9 n ≡ true) p.cleaning.asked
  pub skipped : All (λ n. is_e9 n ≡ false) p.cleaning.skipped
  pub idle : dry ≡ true → p.cleaning.asked ≡ []
  pub complete :
      r.ok ≡ true
      → (k : Text) → is_e9 k ≡ true
      → any (λ c. text_eq c.name k) l ≡ true
      → told k p.cleaning.removed ≡ true

none_failed :
    (s : Cleaning) (k : Text)
    → (verdict_of s).ok ≡ true
    → settled k s ≡ true
    → told k s.removed ≡ true
none_failed s k o h = go s.failed o h
  where
    go :
        (l : List (Text × String))
        → (verdict_of (record s { failed = l })).ok ≡ true
        → (told k s.removed || told k l) ≡ true
        → told k s.removed ≡ true
    go [] o h = ground arith
    go (x ∷ rest) o h = cc

-- If docker answers and lists the containers of the run, then: the daemon is asked to remove containers
-- with the prefix e9- only, and none in a dry run; what is skipped lacks the prefix; and if the stage
-- succeeds, every listed container with the prefix is reported as removed.
pub execute_cleanup-Cleaned :
    (dry : Bool) (d : Daemon) (l : List Container)
    → d.unreachable ≡ none
    → d.candidates ≡ listed l
    → (p : Payload) × ((execute_cleanup dry d).1 ≡ some p)
      × Cleaned dry l (execute_cleanup dry d).0 p
unfolding execute_cleanup clean_listing
execute_cleanup-Cleaned dry d l u c =
    let s = clean_all d dry l no_cleaning in
    let g =
      clean_all-Good d dry l no_cleaning (record { asked = tt; skipped = tt; idle = λ _. refl }) in
    rw (u, c)
      (
        _,
        refl,
        record {
          asked = g.asked;
          skipped = g.skipped;
          idle = g.idle;
          complete = λ o k e h.
              none_failed s k o (clean_all_settles d dry k l no_cleaning e (ground arith));
        },
      )
