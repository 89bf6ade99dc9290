-- ===== src/Time/Ticker.antt =====
-- src/flame/time/ticker.cpp: a timer that starts a coroutine on a callable with each tick. The
-- timer of libuv is stopped, or started with a repeat; intervals are not negative.
pub mod Living
use Prim.Native.String.{String}
use php_flame.Prelude.{
  ℕ, zero, suc, ◌≡◌, refl, sym, ap, subst, ◌∙◌, Bool, true, false, Option, none, some, List, [],
  ◌∷◌, ◌++◌, Outcome, returns, throws, if◌then◌else◌,
}

-- uv_timer_t: started with a timeout, and a repeat or 0.
pub data Timer : Type 0 where
  stopped : Timer
  started : ℕ → ℕ → Timer

-- `interval`, `repeat`, `cb_`, `tm_`, whether `ref_` holds the object, and the callables on which
-- coroutines were started.
pub record Ticker : Type 0 where
  pub interval : ℕ
  pub repeat : Bool
  pub cb : Option ℕ
  pub timer : Timer
  pub ref : Bool
  pub starts : List ℕ

-- Where the second parameter is missing, the ticker repeats.
unfoldable pub repeats : Option Bool → Bool
repeats none = true
repeats (some b) = b

-- `__construct`: the first parameter is an integer or not.
unfoldable pub construct : Option ℕ → Option Bool → Outcome Ticker
construct none repeat = throws "tick interval of type integer is required"
construct (some interval) repeat = returns (record {
  interval = interval;
  repeat = repeats repeat;
  cb = none;
  timer = stopped;
  ref = false;
  starts = [];
})

unfoldable pub start : ℕ → Ticker → Ticker
start cb t = record t {
  cb = some cb;
  timer = started t.interval (if t.repeat then t.interval else 0);
  ref = true;
}

unfoldable pub stop : Ticker → Ticker
stop t = record t { timer = stopped; ref = false }

-- libuv stops a timer without a repeat before its callback.
unfoldable pub fired : Timer → Timer
fired stopped = stopped
fired (started timeout zero) = stopped
fired (started timeout (suc n)) = started (suc n) (suc n)

unfoldable pub called : Option ℕ → List ℕ
called none = []
called (some cb) = cb ∷ []

unfoldable pub tick_cb : Ticker → Ticker
tick_cb t = record t { timer = fired t.timer; starts = t.starts ++ called t.cb }

-- `after_cb`, when the coroutine has ended.
unfoldable pub after_cb : Ticker → Ticker
after_cb t = record t { ref = if t.repeat then t.ref else false }

-- `after` and `tick` of the namespace.
unfoldable pub after : Option ℕ → ℕ → Outcome Ticker
after interval cb = elim (construct interval (some false)) [
  | throws e ↦ throws e
  | returns t ↦ returns (start cb t)
]

unfoldable pub tick : Option ℕ → ℕ → Outcome Ticker
tick interval cb = elim (construct interval (some true)) [
  | throws e ↦ throws e
  | returns t ↦ returns (start cb t)
]

pub data Step : Ticker → Ticker → Type 0 where
  starts_it : {t : Ticker} (cb : ℕ) → Step t (start cb t)
  stops_it : {t : Ticker} → Step t (stop t)
  fires : {t : Ticker} (timeout repeat : ℕ) → t.timer ≡ started timeout repeat → Step t (tick_cb t)
  ends : {t : Ticker} → Step t (after_cb t)

pub data Reach (t : Ticker) : Ticker → Type 0 where
  at_once : Reach t t
  more : {u v : Ticker} → Reach t u → Step u v → Reach t v
