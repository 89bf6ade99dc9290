-- ===== src/Core/Coroutine.antt =====
-- src/flame/coroutine.h and coroutine.cpp: a coroutine runs a PHP generator up to its next
-- asynchronous call. The generators are PHP code, the parameter `Script`; a callback of a module
-- (`stack_`), the loop's timer and the log are named in the list of effects.
pub mod Run
pub mod Settled
pub mod Events
pub mod Chaining
use Prim.Native.String.{String}
use php_flame.Prelude.{
  ℕ, zero, suc, ◌+◌, ◌≡◌, Bool, true, false, not, ◌&&◌, Option, none, some, List, [], ◌∷◌, ◌++◌,
  ltb, ◌==◌, if◌then◌else◌,
}

-- `status_`: -1, or the number of asynchronous calls that no `yield` has taken.
pub data Status : Type 0 where
  closed : Status
  calls : ℕ → Status

-- A stretch of PHP code up to the next `yield`: each call of an asynchronous function, a method
-- of an object (`true`) or not, goes on by whether `async()` threw. `raised` leaves with an exception that nothing caught.
pub data Stretch (G : Type 0) (V : Type 0) : Type 0 where
  call_async : Bool → (Bool → Stretch G V) → Stretch G V
  pause : G → Stretch G V
  raised : G → V → Stretch G V

-- What `current()` gives: the mark of this coroutine's asynchronous calls, a generator, or a value.
pub data Yielded (G : Type 0) (V : Type 0) : Type 0 where
  async_mark : Yielded G V
  generator : G → Yielded G V
  value : V → Yielded G V

-- How a generator is resumed: `next()`, `send(v)` or `throw_exception(e)`.
pub data Input (V : Type 0) : Type 0 where
  go : Input V
  send : V → Input V
  throw : V → Input V

pub record Script : Type 1 where
  pub G : Type 0
  pub V : Type 0
  pub valid : G → Bool
  pub current : G → Yielded G V
  pub get_return : G → V
  pub resume : Input V → G → Stretch G V
  pub is_throwable : V → Bool
  pub is_null : V → Bool
  pub null : V
  pub yield_missing : V

-- An element of `gen_`.
pub data Entry (G : Type 0) (V : Type 0) : Type 0 where
  gen : G → Entry G V
  plain : V → Entry G V

-- `resuming` and `closing` are what close() has asked the loop for: resume_cb and close_cb.
pub data Scheduled : Type 0 where
  nothing resuming closing : Scheduled

-- A callback of `stack_` that was called, or the error that close() reports.
pub data Effect (V : Type 0) : Type 0 where
  callback : ℕ → V → Effect V
  yield_missing_reported : Effect V

-- `gen_` has its top apart, and under it the entries `below`. `pending` is the exception of
-- php::exception::has(), `has_ref` tells whether `ref_` holds an object.
pub record Coroutine (G : Type 0) (V : Type 0) : Type 0 where
  pub status : Status
  pub top : Entry G V
  pub below : List (Entry G V)
  pub stack : List ℕ
  pub has_ref : Bool
  pub pending : Option V
  pub scheduled : Scheduled
  pub effects : List (Effect V)

-- `aborts` is an assertion that fails; the loop of run() is on fuel.
pub data Result (A : Type 0) : Type 0 where
  runs : A → Result A
  aborts : Result A
  no_fuel : Result A

-- One turn of the loop of run(): it ends, or it goes on.
pub data Turn (A : Type 0) : Type 0 where
  stop : A → Turn A
  again : A → Turn A

module _ {G : Type 0} {V : Type 0} where
  unfoldable pub async_in : Status → Bool → Coroutine G V → Bool × Coroutine G V
  async_in closed with_object c = (true, c)
  async_in (calls n) with_object c =
      if n == 0
      then (false, record c { status = calls 1; has_ref = if with_object then true else c.has_ref })
      else (true, c)

  -- `async()`: whether it throws, and the object kept in `ref_`.
  unfoldable pub async : Bool → Coroutine G V → Bool × Coroutine G V
  unfolding async_in
  async with_object c = async_in c.status with_object c

  unfoldable pub run_stretch : Stretch G V → Coroutine G V → Coroutine G V
  run_stretch (call_async o k) c = let (threw, c') = async o c in run_stretch (k threw) c'
  run_stretch (pause g) c = record c { top = gen g }
  run_stretch (raised g e) c = record c { top = gen g; pending = some e }

  -- `close`, where `status_` is not -1.
  unfoldable pub close : ℕ → Coroutine G V → Coroutine G V
  close n c =
      let reported = if n == 0 then c.effects else c.effects ++ yield_missing_reported ∷ [] in
      elim c.below [
        | [] ↦ record c { status = closed; scheduled = closing; effects = reported }
        | _ ∷ _ ↦ record c { status = calls 0; scheduled = resuming; effects = reported }
      ]

-- `create` and `start_cb`: the entry that the callable returned, at the bottom of `gen_`. Run as the
-- coroutine, the callable has left `n` asynchronous calls that no `yield` took, with the object of
-- such a call, and an exception or none.
unfoldable pub started : {G V : Type 0} → ℕ → Bool → Option V → Entry G V → Coroutine G V
started n has_ref pending e = record {
  status = calls n;
  top = e;
  below = [];
  stack = [];
  has_ref = has_ref;
  pending = pending;
  scheduled = nothing;
  effects = [];
}

module _ (s : Script) where
  open s use {G, V}

  abbrev Co : Type 0
  Co = Coroutine G V

  unfoldable pub resume_gen : Input V → G → Co → Co
  resume_gen i g c = run_stretch (s.resume i g) c

  -- The turn for a generator that is not over, by what it has yielded.
  unfoldable pub take_yielded : ℕ → G → Yielded G V → Co → Turn Co
  take_yielded n g async_mark c =
      if n == 1
      then stop (record c { status = calls 0 })
      else again (resume_gen (throw s.yield_missing) g (record c { status = calls 0 }))
  take_yielded n g (generator h) c = again (record c { top = gen h; below = gen g ∷ c.below })
  take_yielded n g (value v) c = again (resume_gen (send v) g c)

  unfoldable pub take_entry : ℕ → Entry G V → Co → Turn Co
  take_entry n (plain v) c = stop (close n c)
  take_entry n (gen g) c =
      if not (s.valid g) then stop (close n c) else take_yielded n g (s.current g) c

  unfoldable pub turn : Co → Turn Co
  turn c = elim c.status [
    | closed ↦ stop c
    | calls n ↦ elim c.pending [
      | some e ↦ stop (close 0 (record c { status = calls 0 }))
      | none ↦ take_entry n c.top c
    ]
  ]

  -- `run`. The call that it makes of itself behind `throw_exception` is its next turn.
  unfoldable pub run : ℕ → Co → Result Co
  run zero c = no_fuel
  run (suc fuel) c = elim (turn c) [ stop c' ↦ runs c' | again c' ↦ run fuel c' ]

  -- The part of `next` and `fail` behind the assertion that the top is a generator.
  unfoldable pub with_gen : Input V → Entry G V → ℕ → Co → Result Co
  with_gen i (plain v) fuel c = aborts
  with_gen i (gen g) fuel c = run fuel (resume_gen i g c)

  unfoldable pub call_back : Entry G V → ℕ → List ℕ → V → Co → Result Co
  call_back (plain v) k rest rv c = aborts
  call_back (gen g) k rest rv c =
      runs (record c { stack = rest; effects = c.effects ++ callback k rv ∷ [] })

  -- The end of `next(rv)`, by the callbacks of `stack_`.
  unfoldable pub next_on : List ℕ → ℕ → V → Co → Result Co
  next_on [] fuel rv c =
      with_gen (if s.is_null rv then go else send rv) c.top fuel (record c { has_ref = false })
  next_on (k ∷ rest) fuel rv c = call_back c.top k rest rv c

  unfoldable pub next_in : Status → ℕ → V → Co → Result Co
  next_in closed fuel rv c = runs c
  next_in (calls n) fuel rv c =
      if s.is_throwable rv
      then with_gen (throw rv) c.top fuel (record c { stack = []; has_ref = false })
      else next_on c.stack fuel rv c

  -- `next(rv)`
  unfoldable pub next : ℕ → V → Co → Result Co
  next fuel rv c = next_in c.status fuel rv c

  unfoldable pub next_void_on : List ℕ → ℕ → Co → Result Co
  next_void_on [] fuel c = with_gen go c.top fuel (record c { has_ref = false })
  next_void_on (k ∷ rest) fuel c = call_back c.top k rest s.null c

  unfoldable pub next_void_in : Status → ℕ → Co → Result Co
  next_void_in closed fuel c = runs c
  next_void_in (calls n) fuel c = next_void_on c.stack fuel c

  -- `next()`
  unfoldable pub next_void : ℕ → Co → Result Co
  next_void fuel c = next_void_in c.status fuel c

  unfoldable pub fail_in : Status → ℕ → V → Co → Result Co
  fail_in closed fuel e c = runs c
  fail_in (calls n) fuel e c = with_gen (throw e) c.top fuel (record c { stack = [] })

  -- `fail(e, code)`, with the exception that the two make.
  unfoldable pub fail : ℕ → V → Co → Result Co
  fail fuel e c = fail_in c.status fuel e c

  -- The value that the entry which has ended hands to the one below.
  unfoldable pub ended_with : Option V → Entry G V → V
  ended_with (some e) t = e
  ended_with none (gen g) = s.get_return g
  ended_with none (plain v) = v

  unfoldable pub resume_on : List (Entry G V) → ℕ → Co → Result Co
  resume_on [] fuel c = aborts
  resume_on (t ∷ rest) fuel c =
      next fuel (ended_with c.pending c.top)
        (record c { top = t; below = rest; pending = none; scheduled = nothing })

  -- `resume_cb`. close() asks for it only where an entry is left below.
  unfoldable pub resume_cb : ℕ → Co → Result Co
  resume_cb fuel c = resume_on c.below fuel c
