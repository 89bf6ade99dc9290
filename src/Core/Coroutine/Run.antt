-- ===== src/Core/Coroutine/Run.antt =====
-- What a stretch of PHP code and one turn of the loop leave alone.
use php_flame.Prelude.{
  ℕ, ◌≡◌, refl, ◌⊎◌, inl, inr, Bool, true, none, List, [], ◌∷◌, ◌==◌, Bool-cases, Option-cases, All,
}
use php_flame.Core.Coroutine.{
  Status, closed, calls, Stretch, call_async, async_in, pause, raised, Yielded, async_mark,
  generator, value, Script, Entry, gen, plain, nothing, resuming, closing, Coroutine, Turn, stop,
  again, async, run_stretch, close, resume_gen, take_yielded, take_entry, turn,
}

abbrev pub IsOpen : Status → Type 0
IsOpen closed = ⊥
IsOpen (calls n) = Unit

abbrev pub IsGen : {G V : Type 0} → Entry G V → Type 0
IsGen (gen g) = Unit
IsGen (plain v) = ⊥

-- Between two turns: nothing is asked of the loop, and all entries under the top are generators.
pub record Running {G V : Type 0} (c : Coroutine G V) : Type 0 where
  pub unscheduled : c.scheduled ≡ nothing
  pub open_status : IsOpen c.status
  pub gens : All IsGen c.below

-- Where `run` leaves a coroutine, one of three ways: it is closing, with nothing under its top; its
-- top has ended, and the loop will resume the entry below; or it waits in one asynchronous call, for
-- which its top has yielded the mark.
pub data Settled (s : Script) (c : Coroutine s.G s.V) : Type 0 where
  is_closing : c.status ≡ closed → c.scheduled ≡ closing → c.below ≡ [] → Settled s c
  is_resuming :
      (t : Entry s.G s.V) (rest : List (Entry s.G s.V))
      → c.status ≡ calls 0
      → c.scheduled ≡ resuming
      → c.below ≡ t ∷ rest
      → All IsGen (t ∷ rest)
      → Settled s c
  is_waiting :
      (g : s.G)
      → c.status ≡ calls 0
      → c.scheduled ≡ nothing
      → c.pending ≡ none
      → c.top ≡ gen g
      → s.valid g ≡ true
      → s.current g ≡ async_mark
      → All IsGen c.below
      → Settled s c

pub Status-cases : (st : Status) → (st ≡ closed) ⊎ ((n : ℕ) × (st ≡ calls n))
Status-cases closed = inl refl
Status-cases (calls n) = inr (n, refl)

module _ {G V : Type 0} where
  async_in-Running :
      (st : Status) (o : Bool) (c : Coroutine G V)
      → c.status ≡ st
      → Running c
      → Running (async_in st o c).1
  unfolding async_in
  async_in-Running closed o c e r = r
  async_in-Running (calls n) o c e r = elim (Bool-cases (n == 0)) [
    | inl z ↦ rw z (record { unscheduled = r.unscheduled; open_status = tt; gens = r.gens })
    | inr z ↦ rw z r
  ]

  async-Running : (o : Bool) (c : Coroutine G V) → Running c → Running (async o c).1
  unfolding async
  async-Running o c r = async_in-Running c.status o c refl r

  pub run_stretch-Running :
      (t : Stretch G V) (c : Coroutine G V) → Running c → Running (run_stretch t c)
  unfolding run_stretch
  run_stretch-Running (call_async o k) c r =
      run_stretch-Running (k (async o c).0) (async o c).1 (async-Running o c r)
  run_stretch-Running (pause g) c r = record {
    unscheduled = r.unscheduled;
    open_status = r.open_status;
    gens = r.gens;
  }
  run_stretch-Running (raised g e) c r = record {
    unscheduled = r.unscheduled;
    open_status = r.open_status;
    gens = r.gens;
  }

module _ (s : Script) where
  open s use {G, V}

  close_on :
      (below : List (Entry G V)) (n : ℕ) (c : Coroutine G V)
      → c.below ≡ below
      → All IsGen below
      → Settled s (close n c)
  unfolding close
  close_on [] n c e r = rw (e, close) (is_closing refl refl e)
  close_on (t ∷ rest) n c e r = rw (e, close) (is_resuming t rest refl refl e r)

  abbrev pub TurnSettles : Turn (Coroutine G V) → Type 0
  TurnSettles (stop c) = Settled s c
  TurnSettles (again c) = Running c

  take_yielded-TurnSettles :
      (n : ℕ) (g : G) (y : Yielded G V) (c : Coroutine G V)
      → s.current g ≡ y
      → s.valid g ≡ true
      → c.top ≡ gen g
      → c.pending ≡ none
      → Running c
      → TurnSettles (take_yielded s n g y c)
  unfolding take_yielded resume_gen
  take_yielded-TurnSettles n g async_mark c y v t p r = elim (Bool-cases (n == 1)) [
    | inl one ↦ rw one (is_waiting g refl r.unscheduled p t v y r.gens)
    | inr other ↦ rw other (
        run_stretch-Running _ (record c { status = calls 0 })
          (record { unscheduled = r.unscheduled; open_status = tt; gens = r.gens }))
  ]
  take_yielded-TurnSettles n g (generator h) c y v t p r = record {
    unscheduled = r.unscheduled;
    open_status = r.open_status;
    gens = (tt, r.gens);
  }
  take_yielded-TurnSettles n g (value x) c y v t p r = run_stretch-Running _ c r

  take_entry-TurnSettles :
      (n : ℕ) (t : Entry G V) (c : Coroutine G V)
      → c.top ≡ t
      → c.pending ≡ none
      → Running c
      → TurnSettles (take_entry s n t c)
  unfolding take_entry
  take_entry-TurnSettles n (plain v) c t p r = close_on c.below n c refl r.gens
  take_entry-TurnSettles n (gen g) c t p r = elim (Bool-cases (s.valid g)) [
    | inl v ↦ rw v (take_yielded-TurnSettles n g (s.current g) c refl v t p r)
    | inr v ↦ rw v (close_on c.below n c refl r.gens)
  ]

  pub turn-TurnSettles : (c : Coroutine G V) → Running c → TurnSettles (turn s c)
  unfolding turn
  turn-TurnSettles c r = elim (Status-cases c.status) [
    | inl z ↦ absurd (rw z at r.open_status)
    | inr (n, z) ↦ elim (Option-cases c.pending) [
      | inl p ↦ rw (z, turn) (rw (p, turn) (take_entry-TurnSettles n c.top c refl p r))
      | inr (e, p) ↦
          rw (z, turn)
            (rw (p, turn) (close_on c.below 0 (record c { status = calls 0 }) refl r.gens))
    ]
  ]
