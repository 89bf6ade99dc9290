-- ===== src/Net/Acceptor.antt =====
-- src/flame/net/server_acceptor.h: a server that accepts connections while a coroutine runs it. Coroutines, callables and errors stand by
-- numbers; errors of libuv are negative, and stand by their magnitudes, 0 for none.
use Prim.Native.String.{String}
use php_flame.Prelude.{
  or_else, ℕ, zero, suc, ◌≡◌, refl, ap, ◌∙◌, Bool, true, false, Option, none, some, List, [], ◌∷◌,
  ◌++◌, Outcome, returns, throws,
}

-- `cb_type` 0, 1 and 2.
pub data CbType : Type 0 where
  no_handler : CbType
  plain_handler : CbType
  connection_handler : CbType

-- How the coroutine of `run` goes on: by `next`, or by `fail` with an error.
pub data Resume : Type 0 where
  next : Resume
  fail : ℕ → Resume

-- `cb_type`, `cb_`, `co_`, how coroutines went on, and the callables that coroutines were started on.
pub record Acceptor : Type 0 where
  pub cb_type : CbType
  pub cb : ℕ
  pub co : Option ℕ
  pub resumed : List (ℕ × Resume)
  pub started : List ℕ

-- A callable by its number, with its property `__CONNECTION_HANDLER__`, or another value.
unfoldable pub handle : Option (ℕ × Bool) → Acceptor → Acceptor × Outcome (Unit {0})
handle none a = (record a { cb_type = no_handler }, throws "handler must be callable")
handle (some (cb, false)) a = (record a { cb_type = plain_handler; cb = cb }, returns tt)
handle (some (cb, true)) a = (record a { cb_type = connection_handler; cb = cb }, returns tt)

unfoldable pub resume_of : ℕ → Resume
resume_of zero = next
resume_of (suc e) = fail (suc e)

unfoldable pub close_on : Option ℕ → ℕ → Acceptor → Acceptor
close_on none err a = a
close_on (some co) err a = record a { co = none; resumed = a.resumed ++ (co, resume_of err) ∷ [] }

unfoldable pub close : ℕ → Acceptor → Acceptor
close err a = close_on a.co err a

-- `run`, by the current coroutine, with the result of uv_listen and its text.
unfoldable pub run : Option ℕ → ℕ → String → Acceptor → Acceptor × Outcome (Unit {0})
run none error why a = (a, throws "cannot run server (not in a coroutine?)")
run (some co) zero why a = (record a { co = some co }, returns tt)
run (some co) (suc e) why a = (close (suc e) a, throws why)

-- Behind the handler, or behind uv_accept, which gave `err`.
unfoldable pub handled : CbType → ℕ → Acceptor → Acceptor
handled connection_handler zero a = a
handled connection_handler (suc e) a = close (suc e) a
handled _ zero a = record a { started = a.started ++ a.cb ∷ [] }
handled _ (suc e) a = close (suc e) a

-- `connection_cb`, with its error, and that of the handler or of uv_accept.
unfoldable pub connection_cb : ℕ → ℕ → Acceptor → Acceptor
connection_cb (suc e) err a = close (suc e) a
connection_cb zero err a = handled a.cb_type err a

pub data Event : Type 0 where
  handles : Option (ℕ × Bool) → Event
  connects : ℕ → ℕ → Event
  closes : Event

unfoldable pub event : Event → Acceptor → Acceptor
event (handles cb) a = (handle cb a).0
event (connects e err) a = connection_cb e err a
event closes a = close 0 a

unfoldable pub events : List Event → Acceptor → Acceptor
events [] a = a
events (e ∷ more) a = events more (event e a)

-- What ends a run of the server.
unfoldable pub ends : Event → Option Resume
ends (handles cb) = none
ends (connects (suc e) err) = some (fail (suc e))
ends (connects zero (suc e)) = some (fail (suc e))
ends (connects zero zero) = none
ends closes = some next

unfoldable pub first_end : List Event → Option Resume
first_end [] = none
first_end (e ∷ more) = or_else (ends e) (first_end more)

-- How a coroutine, if there is one, has gone on behind these, and which one is left.
unfoldable pub after : Option ℕ → List (ℕ × Resume) → Option Resume → List (ℕ × Resume) × Option ℕ
after co before none = (before, co)
after none before (some r) = (before, none)
after (some co) before (some r) = (before ++ (co, r) ∷ [], none)

abbrev pub left : Acceptor → List (ℕ × Resume) × Option ℕ
left a = (a.resumed, a.co)

close-after :
    (err : ℕ) (a : Acceptor) → left (close err a) ≡ after a.co a.resumed (some (resume_of err))
unfolding close
close-after err a = by a.co refl
  where
    by :
        (co : Option ℕ)
        → a.co ≡ co
        → left (close_on co err a) ≡ after co a.resumed (some (resume_of err))
    by none h = unfold close_on after in ap (λ co. (a.resumed, co)) h
    by (some co) h = unfold close_on after in refl

handled-after :
    (t : CbType) (err : ℕ) (a : Acceptor)
    → left (handled t err a) ≡ after a.co a.resumed (ends (connects 0 err))
unfolding handled ends
handled-after connection_handler zero a = unfold after in refl
handled-after connection_handler (suc e) a = close-after (suc e) a ∙ unfold resume_of in refl
handled-after plain_handler zero a = unfold after in refl
handled-after plain_handler (suc e) a = close-after (suc e) a ∙ unfold resume_of in refl
handled-after no_handler zero a = unfold after in refl
handled-after no_handler (suc e) a = close-after (suc e) a ∙ unfold resume_of in refl

event-after : (e : Event) (a : Acceptor) → left (event e a) ≡ after a.co a.resumed (ends e)
unfolding event handle connection_cb resume_of
event-after (handles none) a = unfold ends after in refl
event-after (handles (some (cb, true))) a = unfold ends after in refl
event-after (handles (some (cb, false))) a = unfold ends after in refl
event-after (connects (suc e) err) a = unfold ends in close-after (suc e) a
event-after (connects zero err) a = handled-after a.cb_type err a
event-after closes a = unfold ends in close-after 0 a

after-after :
    (co : Option ℕ) (before : List (ℕ × Resume)) (x y : Option Resume)
    → after (after co before x).1 (after co before x).0 y ≡ after co before (or_else x y)
unfolding after or_else
after-after co before none y = refl
after-after none before (some r) none = refl
after-after none before (some r) (some s) = refl
after-after (some co) before (some r) none = refl
after-after (some co) before (some r) (some s) = refl

events-after :
    (es : List Event) (a : Acceptor) → left (events es a) ≡ after a.co a.resumed (first_end es)
unfolding events first_end
events-after [] a = unfold after in refl
events-after (e ∷ es) a =
    events-after es (event e a)
    ∙ ap (λ x. after x.1 x.0 (first_end es)) (event-after e a)
    ∙ after-after a.co a.resumed (ends e) (first_end es)

-- The coroutine that runs a server goes on exactly once: by `next` where the server is closed, or by
-- `fail` with the error of the first connection that fails, of its handler or of uv_accept, whichever comes
-- first; until then it waits, and no later event resumes it again. The server could listen.
pub run-answers :
    (co : ℕ) (why : String) (es : List Event) (a : Acceptor)
    → left (events es (run (some co) 0 why a).0) ≡ after (some co) a.resumed (first_end es)
unfolding run
run-answers co why es a = events-after es (run (some co) 0 why a).0
