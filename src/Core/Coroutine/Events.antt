-- ===== src/Core/Coroutine/Events.antt =====
-- Each event of a coroutine's life, from the state in which it comes.
use php_flame.Prelude.{
  ℕ, ◌<◌, ◌≡◌, refl, ◌⊎◌, inl, inr, Bool, true, false, Option, none, some, List, [], ◌∷◌,
  Bool-cases, All, ap, sym, ◌∙◌,
}
use php_flame.Core.Coroutine.{
  Status, closed, calls, Script, Entry, gen, plain, nothing, Coroutine, Result, runs, run, with_gen,
  next_in, next_void_on, next_void_in, fail_in, resume_on, next, next_void, fail, ended_with,
  resume_cb, throw, go, started,
}
use php_flame.Core.Coroutine.Run.{IsOpen, IsGen, Settled}
use php_flame.Core.Coroutine.Settled.{
  Falls, Ready, Settles, Waits, load, with_gen-Settles, call_back-Settles, next_on-Settles,
  run-Settles,
}

-- The value that an entry ends with: the exception, or else what its generator returned, or itself.
pub data EndedWith (s : Script) : Option s.V → Entry s.G s.V → s.V → Type 0 where
  by_exception : {e : s.V} {t : Entry s.G s.V} → EndedWith s (some e) t e
  by_return : {g : s.G} → EndedWith s none (gen g) (s.get_return g)
  by_value : {v : s.V} → EndedWith s none (plain v) v

ended_with_lem :
    (s : Script) {p : Option s.V} {t : Entry s.G s.V} {v : s.V}
    → EndedWith s p t v
    → ended_with s p t ≡ v
unfolding ended_with
ended_with_lem s by_exception = refl
ended_with_lem s by_return = refl
ended_with_lem s by_value = refl

-- What resumes a coroutine: next(rv), next() or fail(e).
pub data Wake (V : Type 0) : Type 0 where
  by_next by_fail : V → Wake V
  by_next_void : Wake V

abbrev pub wake : (s : Script) → Wake s.V → ℕ → Coroutine s.G s.V → Result (Coroutine s.G s.V)
wake s (by_next rv) fuel c = next s fuel rv c
wake s (by_fail e) fuel c = fail s fuel e c
wake s by_next_void fuel c = next_void s fuel c

module _ (s : Script) (weight : s.G → ℕ) (falls : Falls s weight) where
  open s use {G, V}

  next_void_on-Settles :
      (stack : List ℕ) (fuel : ℕ) (g : G) (c : Coroutine G V)
      → Waits s weight falls c g
      → weight g < fuel
      → Settles s weight falls (next_void_on s stack fuel c)
  unfolding next_void_on
  next_void_on-Settles [] fuel g c w h =
      let r = w.0 in
      with_gen-Settles s weight falls fuel go c.top g (record c { has_ref = false }) r.top_gen
        (record {
          open_status = r.open_status;
          top_gen = r.top_gen;
          no_exception = r.no_exception;
          unscheduled = r.unscheduled;
          gens = r.gens;
        })
        h
  next_void_on-Settles (k ∷ rest) fuel g c w h =
      call_back-Settles s weight falls k rest s.null c.top g c w.0.top_gen w

  -- An exception resumes the generator with the callbacks gone.
  thrown-Settles :
      (fuel : ℕ) (e : V) (g : G) (c : Coroutine G V) (ref : Bool)
      → Ready s weight falls c g
      → weight g < fuel
      → Settles s weight falls
          (with_gen s (throw e) c.top fuel (record c { stack = []; has_ref = ref }))
  thrown-Settles fuel e g c ref r h =
      with_gen-Settles s weight falls fuel (throw e) c.top g
        (record c { stack = []; has_ref = ref }) r.top_gen
        (record {
          open_status = r.open_status;
          top_gen = r.top_gen;
          no_exception = r.no_exception;
          unscheduled = r.unscheduled;
          gens = r.gens;
        })
        h

  next_in-Settles :
      (st : Status) (fuel : ℕ) (rv : V) (g : G) (c : Coroutine G V)
      → IsOpen st
      → (c.stack ≡ []) ⊎ Waits s weight falls c g ⊎ (s.is_throwable rv ≡ true)
      → Ready s weight falls c g
      → weight g < fuel
      → Settles s weight falls (next_in s st fuel rv c)
  unfolding next_in
  next_in-Settles closed fuel rv g c o d r h = absurd o
  next_in-Settles (calls n) fuel rv g c o d r h = elim (Bool-cases (s.is_throwable rv)) [
    | inl t ↦ rw t (thrown-Settles fuel rv g c false r h)
    | inr t ↦ rw t (next_on-Settles s weight falls c.stack fuel rv g c (no_throw t d) r h)
  ]
    where
      no_throw :
          s.is_throwable rv ≡ false
          → (c.stack ≡ []) ⊎ Waits s weight falls c g ⊎ (s.is_throwable rv ≡ true)
          → (c.stack ≡ []) ⊎ Waits s weight falls c g
      no_throw t (inl e) = inl e
      no_throw t (inr (inl w)) = inr w
      no_throw t (inr (inr x)) = cc (t, x)

  fail_in-Settles :
      (st : Status) (fuel : ℕ) (e : V) (g : G) (c : Coroutine G V)
      → IsOpen st
      → Ready s weight falls c g
      → weight g < fuel
      → Settles s weight falls (fail_in s st fuel e c)
  unfolding fail_in
  fail_in-Settles closed fuel e g c o r h = absurd o
  fail_in-Settles (calls n) fuel e g c o r h = thrown-Settles fuel e g c c.has_ref r h

  next_void_in-Settles :
      (st : Status) (fuel : ℕ) (g : G) (c : Coroutine G V)
      → IsOpen st
      → Waits s weight falls c g
      → weight g < fuel
      → Settles s weight falls (next_void_in s st fuel c)
  unfolding next_void_in
  next_void_in-Settles closed fuel g c o w h = absurd o
  next_void_in-Settles (calls n) fuel g c o w h = next_void_on-Settles c.stack fuel g c w h

  -- In a script whose weight falls with each stretch of a generator, and from a generator to one
  -- that it yields, a coroutine that waits in an asynchronous call is resumed by `next` with a
  -- value, `next` with none or `fail`. With fuel above the weight of the generator that waits, the
  -- call returns, with no failed assertion, and leaves the coroutine in one of the three states of
  -- `Settled`.
  pub wake_settles :
      (w : Wake V) (fuel : ℕ) (g : G) (c : Coroutine G V)
      → Waits s weight falls c g
      → weight g < fuel
      → (c' : Coroutine G V) × (wake s w fuel c ≡ runs c') × Settled s c'
  unfolding next fail next_void
  wake_settles (by_next rv) fuel g c w h =
      next_in-Settles c.status fuel rv g c w.0.open_status (inr (inl w)) w.0 h
  wake_settles (by_fail e) fuel g c w h = fail_in-Settles c.status fuel e g c w.0.open_status w.0 h
  wake_settles by_next_void fuel g c w h =
      next_void_in-Settles c.status fuel g c w.0.open_status w h

  -- In a script whose weight falls with each stretch of a generator, and from a generator to one
  -- that it yields, an entry has ended over a generator `t`, with only generators below that, and
  -- with no callback left. The exception that ended it, or else what it returned, resumes `t`, as
  -- `next` of this value does on `t`, and with fuel above the weight of `t` the coroutine comes to
  -- one of the three states of `Settled`, with no failed assertion.
  pub resume_cb_settles :
      (fuel n : ℕ) (t : G) (rest : List (Entry G V)) (v : V) (c : Coroutine G V)
      → EndedWith s c.pending c.top v
      → c.status ≡ calls n
      → c.below ≡ gen t ∷ rest
      → All IsGen rest
      → c.stack ≡ []
      → weight t < fuel
      → (c' : Coroutine G V) × (resume_cb s fuel c ≡ runs c')
        × Settled s c'
        × (next s fuel v
              (record c { top = gen t; below = rest; pending = none; scheduled = nothing })
            ≡ runs c')
  unfolding resume_cb resume_on next
  resume_cb_settles fuel n t rest v c with_v st b gens k h =
      let (c', e, settled) = on_below c.below b in
      let same : resume_on s (gen t ∷ rest) fuel c
          ≡ next_in s c.status fuel v
              (record c { top = gen t; below = rest; pending = none; scheduled = nothing }) =
        ap
          (λ x.
            next_in s c.status fuel x
              (record c { top = gen t; below = rest; pending = none; scheduled = nothing }))
          (ended_with_lem s with_v) in
      (c', e, settled, sym same ∙ ap (λ l. resume_on s l fuel c) (sym b) ∙ e)
    where
      opened : IsOpen c.status
      opened = rw st tt

      on_below :
          (l : List (Entry G V))
          → l ≡ gen t ∷ rest
          → (c' : Coroutine G V) × (resume_on s l fuel c ≡ runs c') × Settled s c'
      on_below l e = rw e (
          next_in-Settles c.status fuel (ended_with s c.pending c.top) t
            (record c { top = gen t; below = rest; pending = none; scheduled = nothing }) opened
            (inl k)
            (record {
              open_status = opened;
              top_gen = refl;
              no_exception = refl;
              unscheduled = refl;
              gens = gens;
            })
            h)

  -- In a script whose weight falls with each stretch of a generator, and from a generator to one
  -- that it yields, a coroutine that starts, with whatever the callable has returned, whatever
  -- asynchronous calls it left without a `yield`, and with or without an exception, comes to one of
  -- the three states of `Settled`, with fuel above 0, and above the weight of a generator that was
  -- returned without an exception.
  pub run-started_settles :
      (fuel n : ℕ) (has_ref : Bool) (pending : Option V) (e : Entry G V)
      → load s weight falls pending e < fuel
      → (c' : Coroutine G V) × (run s fuel (started n has_ref pending e) ≡ runs c') × Settled s c'
  unfolding started
  run-started_settles fuel n has_ref pending e h =
      run-Settles s weight falls fuel (started n has_ref pending e)
        (record { unscheduled = refl; open_status = tt; gens = tt }) h

-- Once closed, a coroutine is left alone by whatever still resumes it.
pub wake_closed :
    (s : Script) (w : Wake s.V) (fuel : ℕ) (c : Coroutine s.G s.V)
    → c.status ≡ closed
    → wake s w fuel c ≡ runs c
unfolding next next_void fail
wake_closed s (by_next rv) fuel c e = rw e (unfold next_in in refl)
wake_closed s (by_fail x) fuel c e = rw e (unfold fail_in in refl)
wake_closed s by_next_void fuel c e = rw e (unfold next_void_in in refl)
