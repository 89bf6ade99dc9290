-- ===== src/Core/Coroutine/Chaining.antt =====
-- src/flame/coroutine.h and coroutine.cpp: the callbacks that modules put on a coroutine, and what
-- follows its end. A callback is a number.
use php_flame.Prelude.{ℕ, Option, none, some, [], ◌∷◌, ◌++◌}
use php_flame.Core.Coroutine.{Coroutine}

-- `async(cb, data)` and `empty()`.
unfoldable pub push_callback : {G V : Type 0} → ℕ → Coroutine G V → Coroutine G V
push_callback k c = record c { stack = c.stack ++ k ∷ [] }

unfoldable pub empty : {G V : Type 0} → Coroutine G V → Coroutine G V
empty c = record c { stack = [] }

-- What close_cb does: it stops the loop, calls the callback of `after()`, or neither; then the
-- coroutine is deleted.
pub data Ending : Type 0 where
  stops_loop : Ending
  calls_after : ℕ → Ending
  deleted : Ending

unfoldable pub ending : {V : Type 0} → Option V → Option ℕ → Ending
ending (some e) after = stops_loop
ending none (some k) = calls_after k
ending none none = deleted

-- `close_cb`, with the callback of `after()` where one was given.
unfoldable pub close_cb : {G V : Type 0} → Option ℕ → Coroutine G V → Ending
close_cb after c = ending c.pending after
