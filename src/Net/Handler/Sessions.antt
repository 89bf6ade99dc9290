-- ===== src/Net/Handler/Sessions.antt =====
-- In which order the callables of a session run.
use php_flame.Prelude.{
  ℕ, ◌≡◌, refl, suc, sym, ap, subst, append-nil, append_assoc, ◌∙◌, Bool, true, false, not, Option,
  none, some, List, [], ◌∷◌, ◌++◌, ◌==◌, Bytes,
}
use php_flame.Net.Request.{at}
use php_flame.Net.Handler.{
  Handler, Start, with_flag, plain, to_middle, to_after, over, Session, on_session_finish, after_in,
  on_session_after, on_session_middle, before_in, on_session_before, or_default, on_session, ended,
  ends,
}

-- A callable that is there, with its flag.
unfoldable pub called : Option ℕ → Bool → List Start
called none flag = []
called (some cb) flag = with_flag cb flag ∷ []

-- The handler at the time when the callable of the request has ended: at the end of the first
-- coroutine of the session, or of the second where handle_before runs.
unfoldable pub at_end : Option ℕ → Handler → Handler → Handler
at_end none h k = h
at_end (some cb) h k = k

-- What starts of a plan where these coroutines end with an exception, the first one first.
unfoldable pub cut : List Start → List Bool → List Start
cut [] failed = []
cut (x ∷ plan) [] = x ∷ plan
cut (x ∷ plan) (true ∷ failed) = x ∷ []
cut (x ∷ plan) (false ∷ failed) = x ∷ cut plan failed

-- How often the context is deleted: once, where no coroutine of the plan ends with an exception.
unfoldable pub deleted : List Start → List Bool → ℕ
deleted [] failed = 1
deleted (x ∷ plan) [] = 1
deleted (x ∷ plan) (true ∷ failed) = 0
deleted (x ∷ plan) (false ∷ failed) = deleted plan failed

abbrev Complete : List Start → List Start → List Bool → Session → Type 0
Complete before plan failed s =
    (s.next ≡ over) × (s.deletes ≡ deleted plan failed) × (s.starts ≡ before ++ cut plan failed)

ended_once :
    (a : Option ℕ) (h k : Handler) (f : Bool) (failed : List Bool) (s : Session)
    → s.deletes ≡ 0
    → Complete s.starts
        (called a (not (s.cb == h.handle_default)))
        (f ∷ failed)
        (ends f k (after_in a h s))
unfolding ends ended after_in on_session_finish called cut deleted
ended_once none h k true failed s e = (refl, ap suc e, sym (append-nil s.starts))
ended_once none h k false failed s e = (refl, ap suc e, sym (append-nil s.starts))
ended_once (some cb) h k true failed s e = (refl, e, refl)
ended_once (some cb) h k false failed s e = (refl, ap suc e, refl)

stays_over : (f : Bool) (k : Handler) (s : Session) → s.next ≡ over → ends f k s ≡ s
unfolding ends ended
stays_over true k s e = rw (sym e) refl
stays_over false k s e = rw e refl

-- The callable of the request and what follows it.
middle_ends :
    (i j : Handler) (f g : Bool) (failed : List Bool) (s : Session)
    → s.deletes ≡ 0
    → Complete s.starts
        (plain s.cb ∷ called i.handle_after (not (s.cb == i.handle_default)))
        (f ∷ g ∷ failed)
        (ends g j (ends f i (on_session_middle s)))
unfolding on_session_middle on_session_after ends ended cut deleted
middle_ends i j true true failed s e = (refl, e, refl)
middle_ends i j true false failed s e = (refl, e, refl)
middle_ends i j false g failed s e =
    let (is_over, once, starts) =
      ended_once i.handle_after i j g failed
        (record s { next = to_after; starts = s.starts ++ plain s.cb ∷ [] }) e in
    (is_over, once, starts ∙ append_assoc s.starts (plain s.cb ∷ []) _)

-- A session that has its callable, over the ends of three coroutines.
finishes :
    (b : Option ℕ) (h i j k : Handler) (e f g : Bool) (cb : ℕ)
    → Complete []
        (called b (not (cb == h.handle_default))
          ++ plain cb
            ∷ called (at_end b i j).handle_after (not (cb == (at_end b i j).handle_default)))
        (e ∷ f ∷ g ∷ [])
        (ends g k (
          ends f j
            (ends e i (before_in b h (record { cb = cb; next = over; starts = []; deletes = 0 })))))
unfolding before_in called at_end cut deleted
finishes none h i j k e f g cb =
    let made =
      middle_ends i j e f (g ∷ []) (record { cb = cb; next = over; starts = []; deletes = 0 })
        refl in
    subst
      (Complete [] (plain cb ∷ called i.handle_after (not (cb == i.handle_default)))
        (e ∷ f ∷ g ∷ []))
      (sym (stays_over g k _ made.0)) made
finishes (some y) h i j k true f g cb =
    let s : Session = record {
      cb = cb;
      next = over;
      starts = with_flag y (not (cb == h.handle_default)) ∷ [];
      deletes = 0;
    } in
    let still : ends g k (ends f j s) ≡ s =
      ap (ends g k) (stays_over f j s refl) ∙ stays_over g k s refl in
    unfold ends in (ap (λ t. t.next) still, ap (λ t. t.deletes) still, ap (λ t. t.starts) still)
finishes (some y) h i j k false f g cb =
    unfold ends in
    unfold ended in
    middle_ends j k f g []
      (record {
        cb = cb;
        next = to_middle;
        starts = with_flag y (not (cb == h.handle_default)) ∷ [];
        deletes = 0;
      })
      refl

-- A session of a request, `h` the handler when it begins and `i`, `j`, `k` when its first, second
-- and third coroutine have ended, with an exception where `e`, `f` and `g` say so (an end that is
-- left over has no effect). Its coroutines are, in order, handle_before where there is one at the
-- beginning, the callable of the request, and handle_after where there is one when that has ended;
-- one that ends with an exception is the last, and then the context is never deleted, but else once.
-- The two have as a third argument whether the callable is another than the default of their time.
pub on_session-order :
    (method path : Bytes) (h i j k : Handler) (e f g : Bool)
    → let cb = or_default (at (method ++ path) h.handle_) h.handle_default in
      let last = at_end h.handle_before i j in
      let plan =
        called h.handle_before (not (cb == h.handle_default))
        ++ plain cb ∷ called last.handle_after (not (cb == last.handle_default)) in
      let s = ends g k (ends f j (ends e i (on_session method path h))) in
      (s.next ≡ over)
      × (s.deletes ≡ deleted plan (e ∷ f ∷ g ∷ []))
      × (s.starts ≡ cut plan (e ∷ f ∷ g ∷ []))
unfolding on_session on_session_before
on_session-order method path h i j k e f g =
    finishes h.handle_before h i j k e f g
      (or_default (at (method ++ path) h.handle_) h.handle_default)
