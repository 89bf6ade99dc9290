-- ===== src/Log/Logger/Writing.antt =====
-- That a logger has somewhere to write.
use php_flame.Prelude.{
  ℕ, ◌≡◌, inl, inr, refl, subst, Bool, true, false, ◌||◌, Option, none, some, List, [], ◌∷◌,
  Bool-cases, Bytes, codes, same,
}
use php_flame.Log.Logger.{
  File, unopened, to_stderr, to_stdout, opened, failed, Logger, logger, close, descriptor,
  open_file, rotate_in, rotate, rotate_to, through_pipe, write_in, write, written, write_cb,
  panic_in, panic, Reach, opens, redirects, rotates, writes, answers, panics,
}

-- It writes to one of the two, or has a pipe.
pub data Ready : File → Bool → Type 0 where
  on_stderr : (b : Bool) → Ready to_stderr b
  on_stdout : (b : Bool) → Ready to_stdout b
  on_pipe : (f : File) → Ready f true

abbrev pub IsReady : Logger → Type 0
IsReady l = Ready l.file l.pipe

rotate_in-IsReady :
    (path : Bytes) (fd : ℕ) (l : Logger) → IsReady (rotate_in path (descriptor fd) l).1
unfolding rotate_in open_file
rotate_in-IsReady path fd l =
    elim (Bool-cases (same path [] || same path (codes "stderr") || same path (codes "stdlog"))) [
      | inl e ↦ rw e (on_stderr l.pipe)
      | inr e ↦ elim (Bool-cases (same path (codes "stdout"))) [
        | inl f ↦ rw e (rw f (on_stdout l.pipe))
        | inr f ↦ rw e (rw f (on_pipe (opened fd)))
      ]
    ]

-- What a write leaves, where it is defined.
abbrev LeavesReady : Option (Bool × Logger) → Type 0
LeavesReady none = Unit
LeavesReady (some (b, l)) = IsReady l

through_pipe-LeavesReady :
    (b : Bool) (co : Option ℕ) (out : Bytes) (l : Logger)
    → IsReady l
    → LeavesReady (through_pipe b co out l)
unfolding through_pipe
through_pipe-LeavesReady false co out l r = tt
through_pipe-LeavesReady true co out l r = r

write_in-LeavesReady :
    (f : File) (co : Option ℕ) (out : Bytes) (l : Logger)
    → IsReady l
    → LeavesReady (write_in f co out l)
unfolding write_in
write_in-LeavesReady to_stderr co out l r = r
write_in-LeavesReady to_stdout co out l r = r
write_in-LeavesReady unopened co out l r = through_pipe-LeavesReady l.pipe co out l r
write_in-LeavesReady (opened fd) co out l r = through_pipe-LeavesReady l.pipe co out l r
write_in-LeavesReady (failed e) co out l r = through_pipe-LeavesReady l.pipe co out l r

written-IsReady :
    (requests : List (Option ℕ)) (l : Logger) → IsReady l → IsReady (written requests l)
unfolding written
written-IsReady [] l r = r
written-IsReady (co ∷ rest) l r = r

piped : {fd : ℕ} {b : Bool} → Ready (opened fd) b → Ready unopened b
piped (on_pipe f) = on_pipe unopened

panic_in-IsReady :
    (f : File) (text : Option Bytes) (l : Logger)
    → l.file ≡ f
    → IsReady l
    → IsReady (panic_in f text l)
unfolding panic_in
panic_in-IsReady unopened text l e r = r
panic_in-IsReady to_stderr text l e r = r
panic_in-IsReady to_stdout text l e r = r
panic_in-IsReady (failed n) text l e r = r
panic_in-IsReady (opened fd) none l e r = r
panic_in-IsReady (opened fd) (some text) l e r = piped (subst (λ f. Ready f l.pipe) e r)

Reach-IsReady : {l : Logger} → Reach l → IsReady l
Reach-IsReady (opens path fd e) =
    subst IsReady e
      (unfold rotate_to rotate in rotate_in-IsReady path fd (close (record logger { path = path })))
Reach-IsReady (redirects {l} path fd r) =
    unfold rotate_to rotate in rotate_in-IsReady path fd (close (record l { path = path }))
Reach-IsReady (rotates {l} fd r) = unfold rotate in rotate_in-IsReady l.path fd (close l)
Reach-IsReady (writes {l} {m} co out r e) = kept (Reach-IsReady r)
  where
    kept : IsReady l → IsReady m
    kept p = subst LeavesReady e (unfold write in write_in-LeavesReady l.file co out l p)
Reach-IsReady (answers {l} r) = kept (Reach-IsReady r)
  where
    kept : IsReady l → IsReady (write_cb l)
    kept p = unfold write_cb in written-IsReady l.requests l p
Reach-IsReady (panics {l} text r) = kept (Reach-IsReady r)
  where
    kept : IsReady l → IsReady (panic text l)
    kept p = unfold panic in panic_in-IsReady l.file text l refl p

goes_through :
    (b : Bool) (co : Option ℕ) (out : Bytes) (l : Logger)
    → b ≡ true
    → (x : Bool × Logger) × (through_pipe b co out l ≡ some x)
unfolding through_pipe
goes_through false co out l e = cc e
goes_through true co out l e = (_, refl)

defined :
    {f : File} {b : Bool} (co : Option ℕ) (out : Bytes) (l : Logger)
    → Ready f b
    → l.pipe ≡ b
    → (x : Bool × Logger) × (write_in f co out l ≡ some x)
unfolding write_in
defined co out l (on_stderr b) e = (_, refl)
defined co out l (on_stdout b) e = (_, refl)
defined co out l (on_pipe to_stderr) e = (_, refl)
defined co out l (on_pipe to_stdout) e = (_, refl)
defined co out l (on_pipe unopened) e = goes_through l.pipe co out l e
defined co out l (on_pipe (opened fd)) e = goes_through l.pipe co out l e
defined co out l (on_pipe (failed n)) e = goes_through l.pipe co out l e

-- In every run of a logger that was given an output, where every file could be opened: whatever
-- rotates it meanwhile and also behind panic(), a write is defined; it never uses a null pipe.
pub write_defined :
    {l : Logger} (co : Option ℕ) (out : Bytes)
    → Reach l
    → (x : Bool × Logger) × (write co out l ≡ some x)
unfolding write
write_defined {l} co out r = defined co out l (Reach-IsReady r) refl
