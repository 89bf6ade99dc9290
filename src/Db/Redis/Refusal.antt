-- ===== src/Db/Redis/Refusal.antt =====
-- A connect() that redisAsyncConnect refuses at once.
use php_flame.Prelude.{ℕ, ◌≡◌, ◌≢◌, refl, Bool, true, Option, none, List, [], ◌∷◌, ◌++◌}
use php_flame.Db.Redis.{does}
use php_flame.Db.Redis.Link.{
  Timer, freed, stopped, connecting, reconnecting, LinkEffect, logs, Link, restart, with_timer,
  connect, connect_start, timed_out, cb_connect_timeout, fires, fire, handle_event,
}

-- connect() of a client that has a timer and where no coroutine waits: where redisAsyncConnect
-- gives a handle with an error, the coroutine that calls connect() does not wait in `connect_`, and
-- when the timer then fires nothing resumes it and no timer is left that connects again.
pub connect_refused :
    (t : Timer) (c : Option ℕ) (handle co : ℕ) (effects : List LinkEffect) (next : ℕ) (err : Bool)
    → t ≢ freed
    → let l : Link = record { context = c; connect_ = none; timer = t; effects = effects } in
      (m : Link) × (connect_start handle true co l ≡ does m)
      × (handle_event (fires next err) m ≡ does (record m { timer = stopped }))
      × (m.connect_ ≡ none)
      × (m.effects ≡ effects ++ logs ∷ [])
unfolding connect_start connect restart with_timer handle_event fire cb_connect_timeout timed_out
connect_refused freed c handle co effects next err n = absurd (n refl)
connect_refused stopped c handle co effects next err n = (_, refl, refl, refl, refl)
connect_refused connecting c handle co effects next err n = (_, refl, refl, refl, refl)
connect_refused reconnecting c handle co effects next err n = (_, refl, refl, refl, refl)
