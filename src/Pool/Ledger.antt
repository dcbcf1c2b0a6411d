-- ===== src/Pool/Ledger.antt =====
-- What a client of the pool in agent_driver/pool_manager.py relies on: which run ids hold a container, and
-- how many containers are free.
use heyi_eval_v.Prelude.{
  ℕ, zero, suc, ◌+◌, ◌<◌, ◌≡◌, ◌↔◌, refl, Bool, true, false, Option, none, some, List, [], ◌∷◌,
  String, str_eq, arith, get_elem?, set, if◌then◌else◌,
}
use heyi_eval_v.Pool.{
  Handle, Pool, World, Answer, done, raises, Error, pool_busy, not_held, acquire, release, is_idle,
  find_by_run_id,
}

pub idle_count : List Handle → ℕ
idle_count [] = 0
idle_count (h ∷ rest) = (if is_idle h then 1 else 0) + idle_count rest

abbrev pub found : Option (ℕ × Handle) → Bool
found none = false
found (some x) = true

abbrev pub is_held : Pool → String → Bool
is_held p r = found (find_by_run_id r p.handles)

pub record Ledger : Type 0 where
  pub held : String → Bool
  pub free : ℕ

abbrev pub ledger : Pool → Ledger
ledger p = record { held = is_held p; free = idle_count p.handles }

pub data Call : Type 0 where
  acquires releases : String → Call

-- A call that returned, or that raised.
pub data CallEvent : Type 0 where
  returned : Call → CallEvent
  raised : Call → Error → CallEvent

abbrev pub with_id : String → Bool → (String → Bool) → String → Bool
with_id r b held s = if str_eq r s then b else held s

-- One call, as the ledger sees it: an id that is not held takes a free container, an id that is held
-- gives one back, and a call that raises changes nothing and says `pool_busy` or `not_held` just when
-- that is the reason.
pub data Step : Ledger → CallEvent → Ledger → Type 0 where
  taken :
      {s t : Ledger} {r : String}
      → s.held r ≡ false
      → s.free ≡ t.free + 1
      → ((x : String) → t.held x ≡ with_id r true s.held x)
      → Step s (returned (acquires r)) t
  refused :
      {s t : Ledger} {r : String} {e : Error}
      → (e ≡ pool_busy) ↔ (s.free ≡ 0)
      → t ≡ s
      → Step s (raised (acquires r) e) t
  given :
      {s t : Ledger} {r : String}
      → s.held r ≡ true
      → t.free ≡ s.free + 1
      → ((x : String) → t.held x ≡ with_id r false s.held x)
      → Step s (returned (releases r)) t
  kept :
      {s t : Ledger} {r : String} {e : Error}
      → (e ≡ not_held) ↔ (s.held r ≡ false)
      → t ≡ s
      → Step s (raised (releases r) e) t

pub data Steps : Ledger → List CallEvent → Ledger → Type 0 where
  stop : {s : Ledger} → Steps s [] s
  next :
      {s t u : Ledger} {e : CallEvent} {es : List CallEvent}
      → Step s e t
      → Steps t es u
      → Steps s (e ∷ es) u

abbrev pub event_of {ℓ} : {A : Type ℓ} → Call → Answer A → CallEvent
event_of c (done a) = returned c
event_of c (raises e) = raised c e

abbrev pub call : World → Call → Pool → CallEvent × Pool
call w (acquires r) p = let (a, q) = acquire w r p in (event_of (acquires r) a, q)
call w (releases r) p = let (a, q) = release w r p in (event_of (releases r) a, q)

-- The calls one after the other, each with what became of it.
unfoldable pub serve : World → List Call → Pool → List CallEvent × Pool
serve w [] p = ([], p)
serve w (c ∷ cs) p = let (e, q) = call w c p in let (es, u) = serve w cs q in (e ∷ es, u)

pub idle_count-set :
    (hs : List Handle) (i : ℕ) (x h : Handle)
    → get_elem? hs i ≡ some x
    → idle_count (set hs i h) + (if is_idle x then 1 else 0)
      ≡ idle_count hs + (if is_idle h then 1 else 0)
unfolding idle_count
idle_count-set [] i x h e = cc
idle_count-set (y ∷ rest) zero x h e = ground arith
idle_count-set (y ∷ rest) (suc i) x h e = ground (arith, idle_count-set rest i x h e)

pub idle_count-idle :
    (hs : List Handle) (i : ℕ) (h : Handle)
    → get_elem? hs i ≡ some h
    → is_idle h ≡ true
    → 0 < idle_count hs
unfolding idle_count
idle_count-idle [] i h e k = cc
idle_count-idle (y ∷ rest) zero h e k = ground arith
idle_count-idle (y ∷ rest) (suc i) h e k = ground (arith, idle_count-idle rest i h e k)

pub idle_count-busy :
    (hs : List Handle)
    → ((j : ℕ) (k : Handle) → get_elem? hs j ≡ some k → is_idle k ≡ false)
    → idle_count hs ≡ 0
unfolding idle_count
idle_count-busy [] b = refl
idle_count-busy (y ∷ rest) b =
    ground (arith, b 0 y refl, idle_count-busy rest (λ j k e. b (suc j) k e))
