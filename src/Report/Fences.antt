-- ===== src/Report/Fences.antt =====
-- The fenced block: what stands round the last one does not matter.
use heyi_eval_v.Prelude.{
  ℕ, ◌≡◌, refl, Bool, true, false, ◌||◌, Option, none, some, [], ◌∷◌, ◌++◌, arith,
}
use heyi_eval_v.Prelude.Codes.{
  Text, codes, after, is_some, starts_with, contains, after_last, before_first,
}
use heyi_eval_v.Report.{
  fence_open, fence_close, last_fence_payload, Decoder, payload, extract_report, parse,
}

none_of : {A : Type 0} (o : Option A) → is_some o ≡ false → o ≡ none
none_of none h = refl
none_of (some a) h = cc

or_false : (a b : Bool) → a || b ≡ false → (a ≡ false) × (b ≡ false)
or_false true b h = cc
or_false false b h = (refl, h)

after_last-none : (p s : Text) → contains p s ≡ false → after_last p s ≡ none
unfolding contains after_last
after_last-none p [] h = none_of (after p []) h
after_last-none p (c ∷ s) h =
    let parts = or_false (starts_with p (c ∷ s)) _ h in
    rw (after_last-none p s parts.1, after_last) (none_of _ parts.0)

-- An occurrence that is followed by none stays the last one, whatever stands before it.
after_last-append :
    (p q s : Text) {r : Text} → after_last p s ≡ some r → after_last p (q ++ s) ≡ some r
unfolding after_last
after_last-append p [] s h = h
after_last-append p (c ∷ q) s h = rw (after_last-append p q s h, after_last)

-- The pattern begins at no place of `q`.
abbrev Skips : Text → Text → Text → Type 0
Skips p [] s = Unit
Skips p (c ∷ q) s = (after p (c ∷ q ++ s) ≡ none) × Skips p q s

after_last-Skips :
    (p q s : Text) → Skips p q s → after_last p s ≡ none → after_last p (q ++ s) ≡ none
unfolding after_last
after_last-Skips p [] s k h = h
after_last-Skips p (c ∷ q) s k h = rw (after_last-Skips p q s k.1 h, after_last) k.0

after_last_here :
    (p : Text) (c : ℕ) (s : Text) {r : Text}
    → after_last p s ≡ none
    → after p (c ∷ s) ≡ some r
    → after_last p (c ∷ s) ≡ some r
unfolding after_last
after_last_here p c s n e = rw (n, after_last) e

before_first_here : (p s : Text) {t : Text} → after p s ≡ some t → before_first p s ≡ some []
unfolding before_first
before_first_here p [] e = rw (e, before_first)
before_first_here p (c ∷ s) e = rw (e, before_first)

before_first_next :
    (p : Text) (c : ℕ) (s : Text) {t : Text}
    → after p (c ∷ s) ≡ none
    → before_first p s ≡ some t
    → before_first p (c ∷ s) ≡ some (c ∷ t)
unfolding before_first
before_first_next p c s n e = rw (n, e, before_first)

-- No end of the pattern is a beginning of it.
module _ (r : Text) where
  abbrev Borderless : Text → Type 0
  Borderless [] = Unit
  Borderless (c ∷ q) = (after (c ∷ q) r ≡ none) × Borderless q

  after-append : (q s : Text) → Borderless q → after q s ≡ none → after q (s ++ r) ≡ none
  after-append [] s b h = cc
  after-append (c ∷ q) [] b h = b.0
  after-append (c ∷ q) (d ∷ s) b h = ground (arith, after-append q s b.1)

  before_first-append :
      (c : ℕ) (q : Text) {t : Text} (body : Text)
      → Borderless q
      → after (c ∷ q) r ≡ some t
      → contains (c ∷ q) body ≡ false
      → before_first (c ∷ q) (body ++ r) ≡ some body
  unfolding contains before_first
  before_first-append c q [] b e h = before_first_here (c ∷ q) r e
  before_first-append c q (d ∷ s) b e h =
      let parts = or_false (starts_with (c ∷ q) (d ∷ s)) _ h in
      let missed : after (c ∷ q) (d ∷ s) ≡ none = none_of _ parts.0 in
      before_first_next (c ∷ q) d (s ++ r) (ground (arith, missed, after-append q s b))
        (before_first-append c q s b e parts.1)

fence_open-Skips : (r : Text) → Skips fence_open (codes "<<HEYI_RUN_REPORT_JSON>>>") r
fence_open-Skips r = (
  refl,
  (
    refl,
    (
      refl,
      (
        refl,
        (
          refl,
          (
            refl,
            (
              refl,
              (
                refl,
                (
                  refl,
                  (
                    refl,
                    (
                      refl,
                      (
                        refl,
                        (
                          refl,
                          (
                            refl,
                            (
                              refl,
                              (
                                refl,
                                (
                                  refl,
                                  (
                                    refl,
                                    (refl, (refl, (refl, (refl, (refl, (refl, (refl, tt))))))),
                                  ),
                                ),
                              ),
                            ),
                          ),
                        ),
                      ),
                    ),
                  ),
                ),
              ),
            ),
          ),
        ),
      ),
    ),
  ),
)

fence_close-Borderless : (r : Text) → Borderless (fence_close ++ r) (codes "<<END>>>")
fence_close-Borderless r = (refl, (refl, (refl, (refl, (refl, (refl, (refl, (refl, tt))))))))

-- Of an output that ends with a fenced block, with anything before it and no other opening fence after
-- it, the payload is what stands between the fences.
pub last_fence_payload-fenced :
    (prose body tail : Text)
    → contains fence_open (body ++ (fence_close ++ tail)) ≡ false
    → contains fence_close body ≡ false
    → last_fence_payload (prose ++ (fence_open ++ (body ++ (fence_close ++ tail)))) ≡ some body
unfolding last_fence_payload
last_fence_payload-fenced prose body tail o c =
    let rest = body ++ (fence_close ++ tail) in
    rw
      (
        after_last-append fence_open prose (fence_open ++ rest)
            (opened rest (after_last-none fence_open rest o)),
        last_fence_payload,
      )
      (before_first-append (fence_close ++ tail) b'<' (codes "<<END>>>") body
        (fence_close-Borderless tail) refl c)
  where
    opened :
        (rest : Text)
        → after_last fence_open rest ≡ none
        → after_last fence_open (fence_open ++ rest) ≡ some rest
    opened rest h =
        after_last_here fence_open b'<' (codes "<<HEYI_RUN_REPORT_JSON>>>" ++ rest)
          (after_last-Skips fence_open (codes "<<HEYI_RUN_REPORT_JSON>>>") rest
            (fence_open-Skips rest) h)
          refl

-- So it is the text between the last fences alone that the report is read from.
pub extract_report-fenced :
    (d : Decoder) (lane target_id prose body tail : Text)
    → contains fence_open (body ++ (fence_close ++ tail)) ≡ false
    → contains fence_close body ≡ false
    → extract_report d lane target_id (prose ++ (fence_open ++ (body ++ (fence_close ++ tail))))
      ≡ parse d lane target_id body
unfolding extract_report payload
extract_report-fenced d lane target_id prose body tail o c =
    rw (last_fence_payload-fenced prose body tail o c, extract_report, payload) refl
