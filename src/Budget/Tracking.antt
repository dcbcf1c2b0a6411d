-- ===== src/Budget/Tracking.antt =====
-- What the loop over the output has read when it ends well.
use heyi_eval_v.Prelude.{
  ℕ, ◌+◌, ◌≡◌, refl, subst, if◌then◌else◌, Bool, Option, none, some, List, [], ◌∷◌, true, false,
  arith, if_cases, ◌==◌,
}
use heyi_eval_v.Budget.{
  BudgetGuard, BudgetCheck, Step, chunk, watchdog, Stream, poll, receive, track, verdict,
  stream_and_track, check, is_ok,
}

abbrev pub bytes : List Step → ℕ
bytes [] = 0
bytes (chunk n t ∷ rest) = n + bytes rest
bytes (watchdog t ∷ rest) = bytes rest

-- A breach that the watchdog found is not OK.
abbrev Bad : Option BudgetCheck → Type 0
Bad none = Unit
Bad (some c) = is_ok c.decision ≡ false

poll_cases :
    (P : Stream → Type 0) (t : ℕ) (s : Stream)
    → P s
    → (is_ok (check t s.guard).decision ≡ false
        → P (record s { breached = some (check t s.guard) }))
    → P (poll t s)
unfolding poll
poll_cases P t s h k = go s.breached
  where
    go :
        (o : Option BudgetCheck)
        → P (elim o [
          | some c ↦ s
          | none ↦
              if is_ok (check t s.guard).decision
              then s
              else record s { breached = some (check t s.guard) }
        ])
    go (some c) = h
    go none = if_cases P (is_ok (check t s.guard).decision) _ _ (λ _. h) k

-- With a breach in the box or a bad last check, the verdict is bad.
verdict-Bad :
    (s : Stream)
    → Bad s.breached
    → is_ok s.final.decision ≡ false
    → is_ok (verdict s).decision ≡ false
verdict-Bad s b f = go s.breached b
  where
    go :
        (o : Option BudgetCheck)
        → Bad o
        → let last : BudgetCheck = elim o [
          | none ↦ s.final
          | some c ↦ if is_ok s.final.decision then c else s.final
        ] in
          is_ok last.decision ≡ false
    go none h = f
    go (some c) h =
        if_cases (λ x. is_ok x.decision ≡ false) (is_ok s.final.decision) c s.final (λ _. h)
          (λ _. f)

not_both {ℓ} : {A : Type ℓ} (b : Bool) → b ≡ false → b ≡ true → A
not_both b f t = cc

-- Reading on to the end, whenever the verdict is OK.
abbrev Whole : List Step → Stream → Stream → Type 0
Whole steps s r = is_ok (verdict r).decision ≡ true → (r.received ≡ s.received + bytes steps)

track-Whole : (steps : List Step) (s : Stream) → Bad s.breached → Whole steps s (track steps s)
unfolding track receive
track-Whole [] s b e = omega arith
track-Whole (watchdog t ∷ rest) s b e = omega (arith, track-Whole rest (poll t s) polled e, same)
  where
    polled : Bad (poll t s).breached
    polled = poll_cases (λ r. Bad r.breached) t s b (λ n. n)

    same : (poll t s).received ≡ s.received
    same = poll_cases (λ r. r.received ≡ s.received) t s refl (λ n. refl)
track-Whole (chunk n t ∷ rest) s b h =
    go (track-Whole rest s b) (track-Whole rest (receive n t s) b) s.breached refl h
  where
    go :
        Whole rest s (track rest s)
        → Whole rest (receive n t s) (track rest (receive n t s))
        → (o : Option BudgetCheck) → s.breached ≡ o
        → Whole (chunk n t ∷ rest) s (elim o [
          | some c ↦ record s { final = c }
          | none ↦
              if n == 0
              then track rest s
              else if is_ok (receive n t s).final.decision
              then track rest (receive n t s)
              else receive n t s
        ])
    go same later (some c) e =
        λ h. not_both _ (verdict-Bad (record s { final = c }) b (subst Bad e b)) h
    go same later none e =
        if_cases (Whole (chunk n t ∷ rest) s) (n == 0) _ _ (λ z h. ground (arith, same h))
          (λ _.
            if_cases (Whole (chunk n t ∷ rest) s) (is_ok (receive n t s).final.decision) _ _
              (λ _ h. omega (arith, later h))
              (λ f h. not_both _ (verdict-Bad (receive n t s) b f) h))

-- When the check that is returned is OK, no part of the output was cut off.
pub stream_and_track-ok :
    (steps : List Step) (now : ℕ) (g : BudgetGuard)
    → is_ok (stream_and_track steps now g).final.decision ≡ true
    → (stream_and_track steps now g).received ≡ bytes steps
unfolding stream_and_track
stream_and_track-ok steps now g h = omega (
  arith,
  track-Whole steps (record { guard = g; received = 0; final = check now g; breached = none }) tt h,
)
