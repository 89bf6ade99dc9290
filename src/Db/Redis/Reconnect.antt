-- ===== src/Db/Redis/Reconnect.antt =====
-- The connection of a client over its runs.
use php_flame.Prelude.{ℕ, ◌≡◌, not, Bool, true, false, Option, none, some, List}
use php_flame.Db.Redis.{Checked, does, aborts, undefined}
use php_flame.Db.Redis.Link.{
  Timer, freed, stopped, connecting, reconnecting, LinkEffect, Link, restart, with_timer, Event,
  connects, fires, quits,
}

-- The timer, `context_` and `connect_` of a client: without a timer there is no context, and without a
-- context no coroutine that waits for the timer.
pub data Sound : Timer → Option ℕ → Option ℕ → Type 0 where
  is_closed : (co : Option ℕ) → Sound freed none co
  no_context : (t : Timer) → Sound t none none
  has_context :
      (handle : ℕ) (co : Option ℕ) (t : Timer) → (t ≡ freed → ⊥) → Sound t (some handle) co

abbrev SoundLink : Link → Type 0
SoundLink l = Sound l.timer l.context l.connect_

-- Sound, where it is defined.
abbrev Settles : Checked Link → Type 0
Settles (does l) = SoundLink l
Settles aborts = Unit
Settles undefined = Unit

-- Defined, and sound.
abbrev Runs : Checked Link → Type 0
Runs (does l) = SoundLink l
Runs aborts = ⊥
Runs undefined = ⊥

-- Undefined, where a test says so.
abbrev Behaves : Bool → Checked Link → Type 0
Behaves true r = r ≡ undefined
Behaves false r = Runs r

abbrev link : Timer → Option ℕ → Option ℕ → List LinkEffect → Link
link t c co effects = record { context = c; connect_ = co; timer = t; effects = effects }

-- The timer starts on a client that has a context.
restart-Settles :
    (t next : Timer) (handle : ℕ) (co : Option ℕ) (effects : List LinkEffect)
    → (next ≡ freed → ⊥)
    → Settles (with_timer (restart t next) (link t (some handle) co effects))
unfolding restart with_timer
restart-Settles freed next handle co effects n = tt
restart-Settles stopped next handle co effects n = has_context handle co next n
restart-Settles connecting next handle co effects n = has_context handle co next n
restart-Settles reconnecting next handle co effects n = has_context handle co next n

-- The timer's callback connects again, and redisAsyncConnect gives no error.
unfoldable pub reconnects : Timer → Option ℕ → Bool → Bool
reconnects reconnecting (some handle) err = not err
reconnects _ _ err = false

unfoldable pub goes_wrong : Event → Link → Bool
goes_wrong (fires handle err) l = reconnects l.timer l.context err
goes_wrong _ l = false

-- The events that PHP does not ask for, and close().
abbrev pub IsCallback : Event → Type 0
IsCallback (connects handle err co) = ⊥
IsCallback (quits co reply) = ⊥
IsCallback _ = Unit

-- Undefined or defined, as a test says.
abbrev pub Ends : Bool → Checked Link → Type 0
Ends true r = r ≡ undefined
Ends false r = (m : Link) × (r ≡ does m)
