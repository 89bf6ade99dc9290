-- ===== src/Core/Coroutine/Settled.antt =====
-- The loop of `run` ends, and every event leaves the coroutine in one of its three states. A
-- script can run for ever by itself, so that the theorems suppose a `weight` of its generators
-- which falls with each stretch; the fuel is any number above the weight.
use php_flame.Prelude.{
  ℕ, zero, suc, ◌≤◌, ◌<◌, ◌≡◌, refl, ◌∙◌, ◌⊎◌, inl, inr, Bool, true, false, Option, none, some,
  List, [], ◌∷◌, arith, ◌==◌, Bool-cases, Option-cases, All,
}
use php_flame.Core.Coroutine.{
  Status, closed, calls, Stretch, call_async, pause, raised, Yielded, async_mark, generator, value,
  Script, Entry, gen, plain, nothing, Coroutine, Turn, stop, again, Result, runs, async, async_in,
  run_stretch, resume_gen, take_yielded, take_entry, turn, run, with_gen, call_back, next_on, throw,
  send, Input,
}
use php_flame.Core.Coroutine.Run.{
  IsOpen, IsGen, Running, Settled, is_waiting, run_stretch-Running, TurnSettles, turn-TurnSettles,
  Status-cases,
}

-- Each generator that a stretch can leave behind weighs less than `w`.
abbrev pub Below : {G V : Type 0} → (G → ℕ) → ℕ → Stretch G V → Type 0
Below weight w (call_async o k) = (b : Bool) → Below weight w (k b)
Below weight w (pause g) = weight g < w
Below weight w (raised g e) = Unit

pub record Falls (s : Script) (weight : s.G → ℕ) : Type 0 where
  pub stretch_falls : (i : Input s.V) (g : s.G) → Below weight (weight g) (s.resume i g)
  pub inner_falls : (g h : s.G) → s.current g ≡ generator h → weight h < weight g

module _ (s : Script) (weight : s.G → ℕ) (falls : Falls s weight) where
  open s use {G, V}

  -- How many more turns there can be.
  abbrev pub load : Option V → Entry G V → ℕ
  load (some e) t = 0
  load none (plain v) = 0
  load none (gen g) = suc (weight g)

  async-pending : (o : Bool) (c : Coroutine G V) → (async o c).1.pending ≡ c.pending
  unfolding async
  async-pending o c = in_status c.status
    where
      in_status : (st : Status) → (async_in st o c).1.pending ≡ c.pending
      in_status closed = refl
      in_status (calls n) = ground arith

  run_stretch-load :
      (t : Stretch G V) (w : ℕ) (c : Coroutine G V)
      → c.pending ≡ none
      → Below weight w t
      → let c' = run_stretch t c in load c'.pending c'.top ≤ w
  unfolding run_stretch
  run_stretch-load (call_async o k) w c p h =
      run_stretch-load (k (async o c).0) w (async o c).1 (async-pending o c ∙ p) (h (async o c).0)
  run_stretch-load (pause g) w c p h = rw p h
  run_stretch-load (raised g e) w c p h = omega arith

  abbrev TurnFalls : ℕ → Turn (Coroutine G V) → Type 0
  TurnFalls n (stop c) = Unit
  TurnFalls n (again c) = load c.pending c.top < n

  take_yielded-TurnFalls :
      (n : ℕ) (g : G) (y : Yielded G V) (c : Coroutine G V)
      → s.current g ≡ y
      → c.pending ≡ none
      → TurnFalls (suc (weight g)) (take_yielded s n g y c)
  unfolding take_yielded resume_gen
  take_yielded-TurnFalls n g async_mark c y p = elim (Bool-cases (n == 1)) [
    | inl one ↦ rw one tt
    | inr other ↦
        let e =
          run_stretch-load (s.resume (throw s.yield_missing) g) (weight g)
            (record c { status = calls 0 }) p (falls.stretch_falls (throw s.yield_missing) g) in
        rw other (omega (arith, e))
  ]
  take_yielded-TurnFalls n g (generator h) c y p = rw p (omega (arith, falls.inner_falls g h y))
  take_yielded-TurnFalls n g (value v) c y p = omega (
    arith,
    run_stretch-load (s.resume (send v) g) (weight g) c p (falls.stretch_falls (send v) g),
  )

  take_entry-TurnFalls :
      (n : ℕ) (t : Entry G V) (c : Coroutine G V)
      → c.pending ≡ none
      → TurnFalls (load none t) (take_entry s n t c)
  unfolding take_entry
  take_entry-TurnFalls n (plain v) c p = tt
  take_entry-TurnFalls n (gen g) c p = elim (Bool-cases (s.valid g)) [
    | inl v ↦ rw v (take_yielded-TurnFalls n g (s.current g) c refl p)
    | inr v ↦ rw v tt
  ]

  turn-TurnFalls : (c : Coroutine G V) → TurnFalls (load c.pending c.top) (turn s c)
  unfolding turn
  turn-TurnFalls c = elim (Status-cases c.status) [
    | inl z ↦ rw (z, turn) tt
    | inr (n, z) ↦ elim (Option-cases c.pending) [
      | inl p ↦ rw (z, turn) (rw (p, turn) (take_entry-TurnFalls n c.top c p))
      | inr (e, p) ↦ rw (z, turn) (rw (p, turn) tt)
    ]
  ]

  abbrev pub Settles : Result (Coroutine G V) → Type 0
  Settles r = (c' : Coroutine G V) × (r ≡ runs c') × Settled s c'

  run-stop : (fuel : ℕ) (c c' : Coroutine G V) → turn s c ≡ stop c' → run s (suc fuel) c ≡ runs c'
  unfolding run
  run-stop fuel c c' e = rw (e, run)

  run_again :
      (fuel : ℕ) (c c' : Coroutine G V) → turn s c ≡ again c' → run s (suc fuel) c ≡ run s fuel c'
  unfolding run
  run_again fuel c c' e = rw (e, run)

  -- From between two turns, `run` ends in one of the three states.
  pub run-Settles :
      (fuel : ℕ) (c : Coroutine G V)
      → Running c
      → load c.pending c.top < fuel
      → Settles (run s fuel c)
  run-Settles zero c r h = absurd (omega arith)
  run-Settles (suc fuel) c r h =
      on_turn (turn s c) refl (turn-TurnSettles s c r) (turn-TurnFalls c) (run-Settles fuel)
    where
      on_turn :
          (t : Turn (Coroutine G V))
          → turn s c ≡ t
          → TurnSettles s t
          → TurnFalls (load c.pending c.top) t
          → ((d : Coroutine G V) → Running d → load d.pending d.top < fuel → Settles (run s fuel d))
          → Settles (run s (suc fuel) c)
      on_turn (stop c') e st f rest = (c', run-stop fuel c c' e, st)
      on_turn (again c') e st f rest = rw (run_again fuel c c' e) (rest c' st (omega (arith, f)))

  pub resumed-Settles :
      (fuel : ℕ) (i : Input V) (g : G) (c : Coroutine G V)
      → Running c
      → c.pending ≡ none
      → weight g < fuel
      → Settles (run s fuel (resume_gen s i g c))
  unfolding resume_gen
  resumed-Settles fuel i g c r p h =
      run-Settles fuel (run_stretch (s.resume i g) c) (run_stretch-Running (s.resume i g) c r)
        (omega (arith, run_stretch-load (s.resume i g) (weight g) c p (falls.stretch_falls i g)))

  -- A resumption of a generator on top, with nothing asked of the loop.
  pub record Ready (c : Coroutine G V) (g : G) : Type 0 where
    pub open_status : IsOpen c.status
    pub top_gen : c.top ≡ gen g
    pub no_exception : c.pending ≡ none
    pub unscheduled : c.scheduled ≡ nothing
    pub gens : All IsGen c.below

  pub with_gen-Settles :
      (fuel : ℕ) (i : Input V) (t : Entry G V) (g : G) (c : Coroutine G V)
      → t ≡ gen g
      → Ready c g
      → weight g < fuel
      → Settles (with_gen s i t fuel c)
  unfolding with_gen
  with_gen-Settles fuel i t g c e r h = rw e (
      resumed-Settles fuel i g c
        (record { unscheduled = r.unscheduled; open_status = r.open_status; gens = r.gens })
        r.no_exception h)

  -- A wait in an asynchronous call, as `run` leaves it.
  abbrev pub Waits : Coroutine G V → G → Type 0
  Waits c g = Ready c g × (c.status ≡ calls 0) × (s.valid g ≡ true) × (s.current g ≡ async_mark)

  pub call_back-Settles :
      (k : ℕ) (rest : List ℕ) (rv : V) (t : Entry G V) (g : G) (c : Coroutine G V)
      → t ≡ gen g
      → Waits c g
      → Settles (call_back s t k rest rv c)
  unfolding call_back
  call_back-Settles k rest rv t g c e (r, st, v, y) =
      rw e (_, refl, is_waiting g st r.unscheduled r.no_exception r.top_gen v y r.gens)

  pub next_on-Settles :
      (stack : List ℕ) (fuel : ℕ) (rv : V) (g : G) (c : Coroutine G V)
      → (stack ≡ []) ⊎ Waits c g
      → Ready c g
      → weight g < fuel
      → Settles (next_on s stack fuel rv c)
  unfolding next_on
  next_on-Settles [] fuel rv g c w r h =
      with_gen-Settles fuel _ c.top g (record c { has_ref = false }) r.top_gen
        (record {
          open_status = r.open_status;
          top_gen = r.top_gen;
          no_exception = r.no_exception;
          unscheduled = r.unscheduled;
          gens = r.gens;
        })
        h
  next_on-Settles (k ∷ rest) fuel rv g c (inl e) r h = cc
  next_on-Settles (k ∷ rest) fuel rv g c (inr w) r h =
      call_back-Settles k rest rv c.top g c r.top_gen w
