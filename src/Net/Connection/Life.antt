-- ===== src/Net/Connection/Life.antt =====
-- How often the socket of a connection is closed, and when it never is.
use php_flame.Prelude.{
  ◌-◌, ◌<◌, ◌≡◌, inl, inr, refl, Bool, true, false, not, ◌&&◌, arith, ◌==◌, Bytes, length,
  Bool-cases,
}
use php_flame.Net.Connection.{
  Connection, connection, add_refer, close, close_ex, write, write_in, start, Arrival, ended, bytes,
  read_cb, Step, responds, drops, reads, writes, Reach, started, more, Later, at_once, then_,
}

-- Open: it reads, and the socket is not closed. Stopped: it reads no more, but the socket is not
-- closed. Closed: no response is left, and uv_close has been called once.
pub data Phase (c : Connection) : Type 0 where
  is_open : c.is_closing ≡ false → c.reading ≡ true → c.closes ≡ 0 → Phase c
  is_stopped : c.is_closing ≡ true → c.reading ≡ false → c.closes ≡ 0 → Phase c
  is_closed : c.is_closing ≡ true → c.reading ≡ false → c.closes ≡ 1 → c.refer ≡ 0 → Phase c

close_ex-Phase : (c : Connection) → c.closes ≡ 0 → Phase (close_ex c)
unfolding close_ex
close_ex-Phase c e = elim (Bool-cases (c.refer == 0)) [
  | inl z ↦ rw z (is_closed refl refl (ground arith) (ground arith))
  | inr z ↦ rw z (is_stopped refl refl e)
]

close-Phase : (keeps : Bool) (c : Connection) → 0 < c.refer → Phase c → Phase (close keeps c)
unfolding close
close-Phase keeps c p (is_open a b e) = elim (Bool-cases ((c.refer == 1) && not keeps)) [
  | inl z ↦ rw z (close_ex-Phase (record c { refer = c.refer - 1 }) e)
  | inr z ↦ rw z (is_open a b e)
]
close-Phase keeps c p (is_stopped a b e) = elim (Bool-cases ((c.refer == 1) && not keeps)) [
  | inl z ↦ rw z (close_ex-Phase (record c { refer = c.refer - 1 }) e)
  | inr z ↦ rw z (is_stopped a b e)
]
close-Phase keeps c p (is_closed a b e z) = absurd (omega (arith, z))

reads-Phase : (a : Arrival) (c : Connection) → c.reading ≡ true → Phase c → Phase (read_cb a c)
unfolding read_cb
reads-Phase ended c r (is_open a b e) = close_ex-Phase c e
reads-Phase (bytes str parsed) c r (is_open a b e) = elim (Bool-cases (parsed == length str)) [
  | inl z ↦ rw z (is_open a b e)
  | inr z ↦ rw z (close_ex-Phase c e)
]
reads-Phase x c r (is_stopped a b e) = cc (r, b)
reads-Phase x c r (is_closed a b e p) = cc (r, b)

responds-Phase : (c : Connection) → c.reading ≡ true → Phase c → Phase (add_refer c)
unfolding add_refer
responds-Phase c r (is_open a b e) = is_open a b e
responds-Phase c r (is_stopped a b e) = cc (r, b)
responds-Phase c r (is_closed a b e p) = cc (r, b)

writes-Phase :
    (closing : Bool) (str : Bytes) (c : Connection) → Phase c → Phase (write_in closing str c).1
unfolding write_in
writes-Phase true str c p = p
writes-Phase false str c (is_open a b e) = is_open a b e
writes-Phase false str c (is_stopped a b e) = is_stopped a b e
writes-Phase false str c (is_closed a b e p) = is_closed a b e p

start-Phase : (ok : Bool) → Phase (start ok connection)
unfolding start connection close_ex
start-Phase true = is_open refl refl refl
start-Phase false = is_closed refl refl refl refl

Step-Phase : {c d : Connection} → Step c d → Phase c → Phase d
Step-Phase {c} (responds a) p = responds-Phase c a p
Step-Phase {c} (drops keeps q) p = close-Phase keeps c q p
Step-Phase {c} (reads a q) p = reads-Phase a c q p
Step-Phase {c} (writes str) p = unfold write in writes-Phase c.is_closing str c p

pub Reach-Phase : {c : Connection} → Reach c → Phase c
Reach-Phase (started ok) = start-Phase ok
Reach-Phase (more r s) = Step-Phase s (Reach-Phase r)

write_in-false : (b : Bool) (str : Bytes) (c : Connection) → (write_in b str c).0 ≡ true → b ≡ false
unfolding write_in
write_in-false true str c e = cc
write_in-false false str c e = refl

-- A write that is accepted goes to a socket that is not closed and still reads.
pub write_accepted :
    {c : Connection} (str : Bytes)
    → Reach c
    → (write str c).0 ≡ true
    → (c.closes ≡ 0) × (c.reading ≡ true)
unfolding write
write_accepted {c} str r w = by_phase (Reach-Phase r) (write_in-false c.is_closing str c w)
  where
    by_phase : Phase c → c.is_closing ≡ false → (c.closes ≡ 0) × (c.reading ≡ true)
    by_phase (is_open a b e) f = (e, b)
    by_phase (is_stopped a b e) f = cc (a, f)
    by_phase (is_closed a b e p) f = cc (a, f)

-- Stopped with no response left.
record Leaked (c : Connection) : Type 0 where
  closing : c.is_closing ≡ true
  quiet : c.reading ≡ false
  unclosed : c.closes ≡ 0
  unused : c.refer ≡ 0

Step-Leaked : {c d : Connection} → Step c d → Leaked c → Leaked d
Step-Leaked (responds a) l = cc (a, l.quiet)
Step-Leaked (drops keeps p) l = absurd (omega (arith, l.unused))
Step-Leaked (reads a q) l = cc (q, l.quiet)
Step-Leaked {c} (writes str) l = unfold write in kept c.is_closing l.closing
  where
    kept : (b : Bool) → b ≡ true → Leaked (write_in b str c).1
    kept true e = unfold write_in in l
    kept false e = cc

Later-Leaked : {c d : Connection} → Later c d → Leaked c → Leaked d
Later-Leaked at_once l = l
Later-Leaked (then_ m s) l = Step-Leaked s (Later-Leaked m l)

-- A connection that is kept alive, whose peer goes away while one response refers to it, and which
-- that response then leaves, is never closed: whatever happens later, its socket stays open, with
-- no response and no reading left.
pub kept_leaks :
    (c : Connection) {d : Connection}
    → c.refer ≡ 1
    → c.closes ≡ 0
    → Later (close true (read_cb ended c)) d
    → (d.closes ≡ 0) × (d.refer ≡ 0) × (d.reading ≡ false)
kept_leaks c n e m = let l = Later-Leaked m leaked in (l.unclosed, l.unused, l.quiet)
  where
    leaked : Leaked (close true (read_cb ended c))
    leaked =
        unfold close read_cb close_ex in
        rw n (record { closing = refl; quiet = refl; unclosed = e; unused = refl })
