-- ===== src/Tests/Coroutines.antt =====
-- src/flame/coroutine.cpp: a generator that makes a number of asynchronous calls, one after another.
use php_flame.Prelude.{ℕ, zero, suc, ◌≡◌, refl, ltb, [], ◌∷◌, false, arith, none}
use php_flame.Core.Coroutine.{
  Coroutine, Script, Stretch, gen, call_async, pause, raised, async_mark, resuming, started, run,
  resume_cb, runs, next, nothing,
}
use php_flame.Core.Coroutine.Run.{Settled}
use php_flame.Core.Coroutine.Settled.{Falls, Waits, Below}
use php_flame.Core.Coroutine.Events.{
  wake, by_next, by_return, wake_settles, resume_cb_settles, run-started_settles,
}

abbrev step : ℕ → Stretch ℕ ℕ
step zero = raised 0 1
step (suc g) = call_async false λ threw. pause g

-- A generator is the number of asynchronous calls it still makes.
abbrev script : Script
script = record {
  G = ℕ;
  V = ℕ;
  valid = ltb 0;
  current = λ g. async_mark;
  get_return = λ g. 9;
  resume = λ i. step;
  is_throwable = λ v. false;
  is_null = λ v. false;
  null = 0;
  yield_missing = 1;
}

step-Below : (g : ℕ) → Below (λ n. n) g (step g)
step-Below zero = tt
step-Below (suc g) = λ b. omega arith

falls : Falls script (λ g. g)
falls = record { stretch_falls = λ i. step-Below; inner_falls = λ g h e. cc }

abbrev waiting : Coroutine ℕ ℕ
waiting = started 0 false none (gen 2)

waiting-Waits : Waits script (λ g. g) falls waiting 2
unfolding started
waiting-Waits = (
  record { open_status = tt; top_gen = refl; no_exception = refl; unscheduled = refl; gens = tt },
  refl,
  refl,
  refl,
)

wake_settles_example :
    (c' : Coroutine ℕ ℕ) × (wake script (by_next 4) 3 waiting ≡ runs c') × Settled script c'
wake_settles_example =
    wake_settles script (λ g. g) falls (by_next 4) 3 2 waiting waiting-Waits (omega arith)

abbrev ended : Coroutine ℕ ℕ
ended = record waiting { top = gen 0; below = gen 2 ∷ []; scheduled = resuming }

resume_cb_settles_example :
    (c' : Coroutine ℕ ℕ) × (resume_cb script 3 ended ≡ runs c')
    × Settled script c'
    × (next script 3 9
          (record ended { top = gen 2; below = []; pending = none; scheduled = nothing })
        ≡ runs c')
unfolding started
resume_cb_settles_example =
    resume_cb_settles script (λ g. g) falls 3 0 2 [] 9 ended by_return refl refl tt refl
      (omega arith)

run-started_settles_example :
    (c' : Coroutine ℕ ℕ) × (run script 4 (started 1 false none (gen 2)) ≡ runs c')
    × Settled script c'
run-started_settles_example =
    run-started_settles script (λ g. g) falls 4 1 false none (gen 2) (omega arith)
