-- ===== src/Time/Ticker/Living.antt =====
-- How long the object of a ticker is kept.
use php_flame.Prelude.{
  ℕ, zero, suc, ◌≡◌, subst, Bool, true, false, some, Outcome, returns, throws, if◌then◌else◌,
}
use php_flame.Time.Ticker.{
  Timer, stopped, started, Ticker, construct, repeats, start, stop, fired, tick_cb, after_cb, tick,
  Step, starts_it, stops_it, fires, ends, Reach, at_once, more,
}

-- A ticker that repeats: its timer is stopped, or it repeats with the interval and its object is
-- kept.
pub data Kept : Bool → ℕ → Timer → Bool → Type 0 where
  is_stopped : {n : ℕ} (ref : Bool) → Kept true n stopped ref
  is_kept : {n : ℕ} (timeout : ℕ) → Kept true n (started timeout n) true

abbrev pub IsKept : Ticker → Type 0
IsKept t = Kept t.repeat t.interval t.timer t.ref

fired-Kept : {b : Bool} {n : ℕ} {t : Timer} {r : Bool} → Kept b n t r → Kept b n (fired t) r
unfolding fired
fired-Kept (is_stopped r) = is_stopped r
fired-Kept (is_kept {n = zero} timeout) = is_stopped true
fired-Kept (is_kept {n = suc n} timeout) = is_kept (suc n)

started-Kept :
    {b : Bool} {n : ℕ} {t : Timer} {r : Bool} (timeout : ℕ)
    → Kept b n t r
    → Kept b n (started timeout (if b then n else 0)) true
started-Kept timeout (is_stopped r) = is_kept timeout
started-Kept timeout (is_kept before) = is_kept timeout

stopped-Kept : {b : Bool} {n : ℕ} {t : Timer} {r : Bool} → Kept b n t r → Kept b n stopped false
stopped-Kept (is_stopped r) = is_stopped false
stopped-Kept (is_kept timeout) = is_stopped false

ended-Kept :
    {b : Bool} {n : ℕ} {t : Timer} {r : Bool} → Kept b n t r → Kept b n t (if b then r else false)
ended-Kept (is_stopped r) = is_stopped r
ended-Kept (is_kept timeout) = is_kept timeout

Step-IsKept : {t u : Ticker} → Step t u → IsKept t → IsKept u
unfolding start stop tick_cb after_cb
Step-IsKept {t} (starts_it cb) k = started-Kept t.interval k
Step-IsKept stops_it k = stopped-Kept k
Step-IsKept (fires timeout repeat e) k = fired-Kept k
Step-IsKept ends k = ended-Kept k

Reach-IsKept : {t u : Ticker} → Reach t u → IsKept t → IsKept u
Reach-IsKept at_once k = k
Reach-IsKept (more r s) k = Step-IsKept s (Reach-IsKept r k)

-- A call that gives a ticker.
abbrev GivesKept : Outcome Ticker → Type 0
GivesKept (returns t) = IsKept t
GivesKept (throws e) = Unit

-- A ticker of tick(): whatever is called on it, and whenever its timer fires and its coroutines end,
-- its timer is stopped, or started with the interval as its repeat, and then its object is kept. A
-- repeat of 0 is none: such a timer fires once.
pub tick-IsKept :
    {t u : Ticker} (interval cb : ℕ) → tick (some interval) cb ≡ returns t → Reach t u → IsKept u
unfolding tick construct repeats start
tick-IsKept {t} interval cb e r =
    let kept : GivesKept (tick (some interval) cb) = is_kept interval in
    Reach-IsKept r (subst GivesKept e kept)
