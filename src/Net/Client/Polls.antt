-- ===== src/Net/Client/Polls.antt =====
-- The callbacks of libcurl in src/flame/net/http/client.cpp: the polls of sockets, and the timer.
-- libcurl hands a socket's callback the poll that `curl_multi_assign` gave the socket.
use php_flame.Prelude.{
  ℕ, suc, ◌+◌, ◌≡◌, refl, Bool, true, false, ◌||◌, sym, Option, none, some, List, [], ◌∷◌, ◌==◌,
  if◌then◌else◌, Bool-cases, inl, inr, length, arith,
}

pub data Action : Type 0 where
  poll_in : Action
  poll_out : Action
  poll_inout : Action
  poll_remove : Action

-- UV_READABLE and UV_WRITABLE.
pub record Events : Type 0 where
  pub readable : Bool
  pub writable : Bool

unfoldable pub events_of : Action → Option Events
events_of poll_in = some (record { readable = true; writable = false })
events_of poll_out = some (record { readable = false; writable = true })
events_of poll_inout = some (record { readable = true; writable = true })
events_of poll_remove = none

-- The sockets with a poll, with the events that it waits for, and how many polls were
-- initialised and closed.
pub record Polls : Type 0 where
  pub assigned : List (ℕ × Events)
  pub inits : ℕ
  pub closes : ℕ

unfoldable pub poll_of : ℕ → List (ℕ × Events) → Option Events
poll_of s [] = none
poll_of s ((t, e) ∷ more) = let later = poll_of s more in if s == t then some e else later

-- `uv_poll_start` on the poll of a socket that has one.
unfoldable pub restart : ℕ → Events → List (ℕ × Events) → List (ℕ × Events)
restart s e [] = []
restart s e ((t, f) ∷ more) =
    let later = restart s e more in if s == t then (t, e) ∷ more else (t, f) ∷ later

unfoldable pub unassign : ℕ → List (ℕ × Events) → List (ℕ × Events)
unassign s [] = []
unassign s ((t, f) ∷ more) = let later = unassign s more in if s == t then more else (t, f) ∷ later

unfoldable pub started : ℕ → Events → Option Events → Polls → Polls
started s e none p = record p { assigned = (s, e) ∷ p.assigned; inits = suc p.inits }
started s e (some f) p = record p { assigned = restart s e p.assigned }

unfoldable pub removed : ℕ → Option Events → Polls → Polls
removed s none p = p
removed s (some f) p = record p { assigned = unassign s p.assigned; closes = suc p.closes }

unfoldable pub handle_on : ℕ → Option Events → Polls → Polls
handle_on s (some e) p = started s e (poll_of s p.assigned) p
handle_on s none p = removed s (poll_of s p.assigned) p

-- `curl_multi_socket_handle`
unfoldable pub curl_multi_socket_handle : ℕ → Action → Polls → Polls
curl_multi_socket_handle s action p = handle_on s (events_of action) p

-- The calls of libcurl, the last one first.
unfoldable pub handled : List (ℕ × Action) → Polls
handled [] = record { assigned = []; inits = 0; closes = 0 }
handled ((s, action) ∷ earlier) = curl_multi_socket_handle s action (handled earlier)

-- What libcurl documents of an action: to wait until the socket can be read, or written, or either.
unfoldable pub reads : Action → Bool
reads poll_in = true
reads poll_out = false
reads poll_inout = true
reads poll_remove = false

unfoldable pub writes : Action → Bool
writes poll_in = false
writes poll_out = true
writes poll_inout = true
writes poll_remove = false

-- The events of a call, or none where it neither reads nor writes.
unfoldable pub asked_for : Action → Option Events
asked_for a =
    if reads a || writes a then some (record { readable = reads a; writable = writes a }) else none

events_of-asked_for : (a : Action) → events_of a ≡ asked_for a
unfolding events_of asked_for reads writes
events_of-asked_for poll_in = refl
events_of-asked_for poll_out = refl
events_of-asked_for poll_inout = refl
events_of-asked_for poll_remove = refl

-- What the last call on a socket asked for.
unfoldable pub last_asked : ℕ → List (ℕ × Action) → Option Events
last_asked s [] = none
last_asked s ((t, action) ∷ earlier) =
    let before = last_asked s earlier in if s == t then asked_for action else before

-- No socket stands in the list twice.
abbrev pub Distinct : List (ℕ × Events) → Type 0
Distinct [] = Unit {0}
Distinct ((t, e) ∷ more) = (poll_of t more ≡ none) × Distinct more

poll_of-restart :
    (s u : ℕ) (e : Events) (l : List (ℕ × Events)) (f : Events)
    → poll_of s l ≡ some f
    → poll_of u (restart s e l) ≡ (if u == s then some e else poll_of u l)
unfolding restart poll_of
poll_of-restart s u e [] f h = cc h
poll_of-restart s u e ((t, g) ∷ more) f h = ground (arith, poll_of-restart s u e more f)

poll_of-unassign :
    (s u : ℕ) (l : List (ℕ × Events))
    → Distinct l
    → poll_of u (unassign s l) ≡ (if u == s then none else poll_of u l)
unfolding unassign poll_of
poll_of-unassign s u [] d = ground arith
poll_of-unassign s u ((t, g) ∷ more) d = ground (arith, poll_of-unassign s u more d.1)

restart-none :
    (s u : ℕ) (e : Events) (l : List (ℕ × Events))
    → poll_of u l ≡ none
    → poll_of u (restart s e l) ≡ none
unfolding restart poll_of
restart-none s u e [] h = refl
restart-none s u e ((t, g) ∷ more) h = ground (arith, restart-none s u e more)

unassign-none :
    (s u : ℕ) (l : List (ℕ × Events)) → poll_of u l ≡ none → poll_of u (unassign s l) ≡ none
unfolding unassign poll_of
unassign-none s u [] h = refl
unassign-none s u ((t, g) ∷ more) h = ground (arith, unassign-none s u more)

Distinct-restart :
    (s : ℕ) (e : Events) (l : List (ℕ × Events)) → Distinct l → Distinct (restart s e l)
unfolding restart
Distinct-restart s e [] d = tt
Distinct-restart s e ((t, g) ∷ more) d = elim (Bool-cases (s == t)) [
  | inl f ↦ rw f d
  | inr f ↦ rw f (restart-none s t e more d.0, Distinct-restart s e more d.1)
]

Distinct-unassign : (s : ℕ) (l : List (ℕ × Events)) → Distinct l → Distinct (unassign s l)
unfolding unassign
Distinct-unassign s [] d = tt
Distinct-unassign s ((t, g) ∷ more) d = elim (Bool-cases (s == t)) [
  | inl f ↦ rw f d.1
  | inr f ↦ rw f (unassign-none s t more d.0, Distinct-unassign s more d.1)
]

length-restart : (s : ℕ) (e : Events) (l : List (ℕ × Events)) → length (restart s e l) ≡ length l
unfolding restart
length-restart s e [] = refl
length-restart s e ((t, g) ∷ more) = ground (arith, length-restart s e more)

length-unassign :
    (s : ℕ) (l : List (ℕ × Events)) (f : Events)
    → poll_of s l ≡ some f
    → suc (length (unassign s l)) ≡ length l
unfolding unassign poll_of
length-unassign s [] f h = cc h
length-unassign s ((t, g) ∷ more) f h = ground (arith, length-unassign s more f)

-- What holds of the polls behind the calls of libcurl.
pub record Polling (calls : List (ℕ × Action)) (p : Polls) : Type 0 where
  pub distinct : Distinct p.assigned
  pub asked : (s : ℕ) → poll_of s p.assigned ≡ last_asked s calls
  pub balance : p.inits ≡ p.closes + length p.assigned

handle-Polling :
    (s : ℕ) (action : Action) (calls : List (ℕ × Action)) (p : Polls)
    → Polling calls p
    → (wanted now : Option Events) → asked_for action ≡ wanted
    → poll_of s p.assigned ≡ now
    → Polling ((s, action) ∷ calls) (handle_on s wanted p)
unfolding handle_on started removed last_asked
handle-Polling s action calls p k (some e) none w h = rw h (record {
  distinct = (h, k.distinct);
  asked = λ u. rw (w, ← k.asked u) (unfold poll_of in refl);
  balance = omega (arith, k.balance);
})
handle-Polling s action calls p k (some e) (some f) w h = rw h (record {
  distinct = Distinct-restart s e p.assigned k.distinct;
  asked = λ u. rw (w, ← k.asked u) (poll_of-restart s u e p.assigned f h);
  balance = rw length-restart k.balance;
})
handle-Polling s action calls p k none none w h = rw h (record {
  distinct = k.distinct;
  asked = λ u. rw (w, ← k.asked u) (ground (arith, h));
  balance = k.balance;
})
handle-Polling s action calls p k none (some f) w h = rw h (record {
  distinct = Distinct-unassign s p.assigned k.distinct;
  asked = λ u. rw (w, ← k.asked u) (poll_of-unassign s u p.assigned k.distinct);
  balance = omega (arith, k.balance, length-unassign s p.assigned f h);
})

-- Whatever libcurl asks for, in any order and on any sockets: a socket has a poll exactly where the last call on it
-- asked to wait, which waits to read, to write or for either as that call asked, one of each socket; and every poll that was
-- initialised is closed, or that of a socket.
pub handled-Polling : (calls : List (ℕ × Action)) → Polling calls (handled calls)
unfolding handled curl_multi_socket_handle last_asked poll_of
handled-Polling [] = record { distinct = tt; asked = λ s. refl; balance = refl }
handled-Polling ((s, action) ∷ calls) =
    handle-Polling s action calls (handled calls) (handled-Polling calls) (events_of action)
      (poll_of s (handled calls).assigned) (sym (events_of-asked_for action)) refl

-- uv_timer_start or uv_timer_stop: `curl_multi_timer_handle`, with a negative time for none.
unfoldable pub curl_multi_timer_handle : Option ℕ → Option ℕ
curl_multi_timer_handle none = none
curl_multi_timer_handle (some ms) = some (if ms == 0 then 1 else ms)
