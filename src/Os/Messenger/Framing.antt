-- ===== src/Os/Messenger/Framing.antt =====
-- `parse` against a machine that takes one byte at a time and has no block, index or mark.
use php_flame.Prelude.{
  joined, ℕ, zero, suc, ◌+◌, ◌-◌, ◌≤◌, ◌<◌, ◌≡◌, refl, ap, inl, inr, false, List, [], ◌∷◌, ◌++◌,
  some, append-nil, append_assoc, arith, ◌==◌, if◌then◌else◌, Bytes, length, length-append, take,
  drop, Bool-cases,
}
use php_flame.Os.Messenger.{
  Stat, size_0, size_1, in_data, Messenger, Event, Pipe, Turn, size_of_char, or_shifted, pred16,
  on_socket, on_string, copy_from, turn_in, parse_loop, parse, read_cb, read_all,
}

module _ (pipe : Pipe) where
  unfoldable pub feed_in : Stat → ℕ → Messenger → Messenger × List Event
  feed_in size_0 c m = (record m { size = size_of_char c; stat = size_1 }, [])
  feed_in size_1 c m =
      let s = or_shifted m.size c in
      if s == 0
      then on_socket pipe (record m { size = s; stat = size_0 })
      else (record m { size = s; stat = in_data }, [])
  feed_in in_data c m =
      let m' = record m { size = pred16 m.size; data_ = m.data_ ++ c ∷ [] } in
      if pred16 m.size == 0 then on_string (record m' { stat = size_0 }) else (m', [])

  -- The bytes in order, however they are cut into blocks.
  unfoldable pub feed : Bytes → Messenger → Messenger × List Event
  feed [] m = (m, [])
  feed (c ∷ cs) m =
      let (m', es) = feed_in m.stat c m in let (m'', es') = feed cs m' in (m'', es ++ es')

  pub feed-append :
      (xs ys : Bytes) (m : Messenger)
      → feed (xs ++ ys) m ≡ ((feed ys (feed xs m).0).0, (feed xs m).1 ++ (feed ys (feed xs m).0).1)
  unfolding feed
  feed-append [] ys m = refl
  feed-append (x ∷ xs) ys m =
      let (m', es) = feed_in m.stat x m in
      rw (feed-append xs ys m', append_assoc es (feed xs m').1 (feed ys (feed xs m').0).1)

-- A block splits as `pre ++ c ∷ rest`, and the byte `c` of index `length pre` is looked at. The
-- bytes from `mark` are not copied yet.
abbrev pending : Stat → Bytes → ℕ → Messenger → Messenger
pending size_0 pre mark m = m
pending size_1 pre mark m = m
pending in_data pre mark m = record m { data_ = m.data_ ++ drop mark pre }

take-drop_upto :
    (mark : ℕ) (pre : Bytes) (c : ℕ) (rest : Bytes)
    → mark ≤ length pre
    → take (length pre - mark + 1) (drop mark (pre ++ c ∷ rest)) ≡ drop mark pre ++ c ∷ []
take-drop_upto zero [] c rest h = refl
take-drop_upto (suc mark) [] c rest h = absurd (omega arith)
take-drop_upto zero (x ∷ pre) c rest h =
    let e : length (x ∷ pre) - 0 + 1 ≡ suc (length pre - 0 + 1) = omega arith in
    rw e (ap (◌∷◌ x) (take-drop_upto zero pre c rest (omega arith)))
take-drop_upto (suc mark) (x ∷ pre) c rest h =
    let e : length (x ∷ pre) - suc mark + 1 ≡ length pre - mark + 1 = omega arith in
    rw e (take-drop_upto mark pre c rest (omega arith))

drop-append_le :
    (mark : ℕ) (pre : Bytes) (c : ℕ)
    → mark ≤ length pre
    → drop mark (pre ++ c ∷ []) ≡ drop mark pre ++ c ∷ []
drop-append_le zero pre c h = refl
drop-append_le (suc mark) [] c h = absurd (omega arith)
drop-append_le (suc mark) (x ∷ pre) c h = drop-append_le mark pre c (omega arith)

drop_concat : (pre : Bytes) (c : ℕ) → drop (length pre + 1) (pre ++ c ∷ []) ≡ []
drop_concat [] c = refl
drop_concat (x ∷ pre) c =
    let e : length (x ∷ pre) + 1 ≡ suc (length pre + 1) = omega arith in rw e (drop_concat pre c)

on_socket-stat : (pipe : Pipe) (m : Messenger) → (on_socket pipe m).0.stat ≡ m.stat
unfolding on_socket
on_socket-stat pipe m = ground arith

on_string-stat : (m : Messenger) → (on_string m).0.stat ≡ m.stat
unfolding on_string
on_string-stat m = ground arith

module _ (pipe : Pipe) (pre : Bytes) (c : ℕ) (rest : Bytes) where
  abbrev block : Bytes
  block = pre ++ c ∷ rest

  -- What the copy of the bytes from `mark` to this one gives.
  copy_from_lem :
      (mark : ℕ) (data_ : Bytes)
      → mark ≤ length pre
      → copy_from block mark (length pre) data_ ≡ (data_ ++ drop mark pre) ++ c ∷ []
  unfolding copy_from
  copy_from_lem mark data_ h =
      rw (take-drop_upto mark pre c rest h, append_assoc data_ (drop mark pre) (c ∷ []))

  pending_idle :
      (mark : ℕ) (m : Messenger) → m.stat ≡ size_0 → pending m.stat (pre ++ c ∷ []) mark m ≡ m
  pending_idle mark m h = ground arith

  abbrev turn : Stat → ℕ → Messenger → Turn
  turn st mark m = turn_in pipe block st (length pre) mark c m

  abbrev fed : Stat → ℕ → Messenger → Messenger × List Event
  fed st mark m = feed_in pipe st c (pending st pre mark m)

  turn_events :
      (st : Stat) (mark : ℕ) (m : Messenger)
      → mark ≤ length pre
      → (turn st mark m).events ≡ (fed st mark m).1
  unfolding turn_in feed_in
  turn_events size_0 mark m h = refl
  turn_events size_1 mark m h = ground arith
  turn_events in_data mark m h = rw (copy_from_lem mark m.data_ h) (ground arith)

  turn_last :
      (st : Stat) (mark : ℕ) (m : Messenger)
      → mark ≤ length pre
      → length pre + 1 ≡ length block
      → (turn st mark m).state ≡ (fed st mark m).0
  unfolding turn_in feed_in
  turn_last size_0 mark m h e = refl
  turn_last size_1 mark m h e = ground arith
  turn_last in_data mark m h e = rw (copy_from_lem mark m.data_ h) (ground arith)

  turn_more :
      (st : Stat) (mark : ℕ) (m : Messenger)
      → m.stat ≡ st
      → mark ≤ length pre
      → length pre + 1 < length block
      → let t = turn st mark m in
        (pending t.state.stat (pre ++ c ∷ []) t.mark t.state ≡ (fed st mark m).0)
        × (t.mark ≤ length pre + 1)
  unfolding turn_in feed_in
  turn_more size_0 mark m is h e = (refl, omega arith)
  turn_more size_1 mark m is h e = elim (Bool-cases (or_shifted m.size c == 0)) [
    | inl z ↦ rw z (pending_idle mark _ (on_socket-stat pipe _), omega arith)
    | inr n ↦ rw n (rw (drop_concat pre c, append-nil) (refl, omega arith))
  ]
  turn_more in_data mark m is h e = elim (Bool-cases (pred16 m.size == 0)) [
    | inl z ↦
        rw (copy_from_lem mark m.data_ h)
          (rw z (pending_idle mark _ (on_string-stat _), omega arith))
    | inr n ↦
        let inside : (length pre + 1 == length block) ≡ false = ground arith in
        rw n (
          rw inside (
            rw (is, drop-append_le mark pre c h, append_assoc m.data_ (drop mark pre) (c ∷ []))
              (refl, omega arith)))
  ]

pending-stat :
    (st : Stat) (pre : Bytes) (mark : ℕ) (m : Messenger) → (pending st pre mark m).stat ≡ m.stat
pending-stat in_data pre mark m = refl
pending-stat _ pre mark m = refl

parse_loop-cons :
    (pipe : Pipe) (whole : Bytes) (i mark c : ℕ) (rest : Bytes) (m : Messenger)
    → let t = turn_in pipe whole m.stat i mark c m in
      let r = parse_loop pipe whole (i + 1) t.mark rest t.state in
      parse_loop pipe whole i mark (c ∷ rest) m ≡ (r.0, r.1, t.events ++ r.2)
unfolding parse_loop
parse_loop-cons pipe whole i mark c rest m = refl

pub feed-cons :
    (pipe : Pipe) (c : ℕ) (cs : Bytes) (m : Messenger)
    → let f = feed_in pipe m.stat c m in
      feed pipe (c ∷ cs) m ≡ ((feed pipe cs f.0).0, f.1 ++ (feed pipe cs f.0).1)
unfolding feed
feed-cons pipe c cs m = refl

-- The loop from any byte of a block to its end.
parse_loop-feed :
    (pipe : Pipe) (rest pre : Bytes) (c mark : ℕ) (m : Messenger)
    → mark ≤ length pre
    → let fed = feed pipe (c ∷ rest) (pending m.stat pre mark m) in
      parse_loop pipe (pre ++ c ∷ rest) (length pre) mark (c ∷ rest) m
      ≡ (length (pre ++ c ∷ rest), fed.0, fed.1)
parse_loop-feed pipe [] pre c mark m h =
    let e : length pre + 1 ≡ length (pre ++ c ∷ []) = omega (arith, length-append pre (c ∷ [])) in
    rw (feed-cons, pending-stat m.stat pre mark m)
      (rw (← turn_events pipe pre c [] m.stat mark m h, ← turn_last pipe pre c [] m.stat mark m h e)
        (unfold parse_loop feed in rw e))
parse_loop-feed pipe (d ∷ rest) pre c mark m h =
    let e : length (pre ++ c ∷ []) ≡ length pre + 1 = omega (arith, length-append pre (c ∷ [])) in
    let more =
      turn_more pipe pre c (d ∷ rest) m.stat mark m refl h
        (omega (arith, length-append pre (c ∷ d ∷ rest))) in
    let t = turn_in pipe (pre ++ c ∷ d ∷ rest) m.stat (length pre) mark c m in
    let ih = parse_loop-feed pipe rest (pre ++ c ∷ []) d t.mark t.state (omega (arith, more.1)) in
    rw (parse_loop-cons, feed-cons, pending-stat m.stat pre mark m)
      (rw (← turn_events pipe pre c (d ∷ rest) m.stat mark m h, ← more.0)
        (rw (rw (e, append_assoc pre (c ∷ []) (d ∷ rest)) at ih)))

pending_start : (st : Stat) (m : Messenger) → pending st [] 0 m ≡ m
pending_start in_data m = rw append-nil
pending_start _ m = refl

-- `parse` consumes its whole block, and does to the object and to the callbacks what the machine
-- that takes the bytes one at a time does.
pub parse-feed :
    (pipe : Pipe) (block : Bytes) (m : Messenger)
    → parse pipe block m ≡ (length block, (feed pipe block m).0, (feed pipe block m).1)
parse-feed pipe [] m = unfold parse parse_loop feed in refl
parse-feed pipe (c ∷ rest) m =
    unfold parse in
    (rw (pending_start m.stat m) at (parse_loop-feed pipe rest [] c 0 m (omega arith)))

read_cb-feed :
    (pipe : Pipe) (block : Bytes) (m : Messenger) → read_cb pipe (some block) m ≡ feed pipe block m
read_cb-feed pipe [] m = unfold read_cb feed in refl
read_cb-feed pipe (c ∷ rest) m = unfold read_cb in rw (parse-feed pipe (c ∷ rest) m) (ground arith)

-- However a stream of bytes is cut into reads, the object ends in the same state, the callbacks
-- are called with the same values in the same order, and nothing is logged as a wrong format:
-- all is as the machine has it on the whole stream.
pub read_all-feed :
    (pipe : Pipe) (blocks : List Bytes) (m : Messenger)
    → read_all pipe blocks m ≡ feed pipe (joined blocks) m
unfolding read_all
read_all-feed pipe [] m = unfold feed in refl
read_all-feed pipe (b ∷ blocks) m =
    rw (feed-append pipe b (joined blocks) m, read_cb-feed pipe b m)
      (rw (read_all-feed pipe blocks (feed pipe b m).0))
