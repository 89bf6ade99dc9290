-- ===== src/Io/StreamReader/Reads.antt =====
-- The reads that a script can make, seen as cuts of the stream.
use php_flame.Prelude.{
  joined, ℕ, ◌+◌, ◌≤◌, ◌<◌, ◌≡◌, ◌≢◌, refl, sym, ap, ◌∙◌, true, false, none, some, List, [], ◌∷◌,
  ◌++◌, append_assoc, arith, Bytes, length, length-append, take, drop, length-take, drop-append,
  take-append,
}
use php_flame.Io.StreamReader.{
  Reader, by_size, by_endl, next_with, returns, search_for, request, read_size, read_endl,
}
use php_flame.Io.StreamReader.Buffer.{
  cut, cut_by, search_for-first, search_for_split, read_from_buf_uncut,
}
use php_flame.Io.StreamReader.Delivery.{run_blocks, Delivers, run_blocks-Delivers}

-- After the blocks, `c` has been resumed with `got`, and `left` is all that nobody has taken.
abbrev pub Gets : ℕ → List Bytes → Reader → Bytes → Bytes → Type 0
Gets c blocks r got left =
    (q : Reader) × (rest : List Bytes) × (run_blocks blocks r
      ≡ returns (q, next_with c got ∷ [], rest))
    × (q.buf ++ joined rest ≡ left)
    × (q.co ≡ none)
    × (q.reading ≡ false)

Delivers-Gets :
    (c : ℕ) (blocks : List Bytes) (r : Reader) (got left : Bytes)
    → r.buf ++ joined blocks ≡ got ++ left
    → Delivers c blocks r (length got)
    → Gets c blocks r got left
Delivers-Gets c blocks r got left e d =
    let e1 = rw (e, take-append got left) at d.2 in
    let e2 = rw (e, drop-append got left) at d.3 in (d.0, d.1, e1, e2, d.4, d.5)

-- What a read stores first.
abbrev sized : ℕ → ℕ → Reader → Reader
sized n c r = record r { d_type = by_size; d_size = n; d_endl = []; co = some c }

abbrev marked : Bytes → ℕ → Reader → Reader
marked endl c r = record r { d_type = by_endl; d_size = 0; d_endl = endl; co = some c }

request-read_size :
    (n c : ℕ) (r : Reader)
    → r.is_open ≡ true
    → cut (sized n c r) r.buf ≡ none
    → request (read_size n) c r ≡ returns (record (sized n c r) { reading = true })
unfolding request
request-read_size n c r o e = rw (read_from_buf_uncut (sized n c r) e, o)

request-read_endl :
    (endl : Bytes) (c : ℕ) (r : Reader)
    → r.is_open ≡ true
    → cut (marked endl c r) r.buf ≡ none
    → request (read_endl endl) c r ≡ returns (record (marked endl c r) { reading = true })
unfolding request
request-read_endl endl c r o e = rw (read_from_buf_uncut (marked endl c r) e, o)

-- `read(size)` on an open reader whose buffer is shorter than `size`: once the stream has brought
-- enough, however cut into blocks, the coroutine is resumed once, with exactly the first
-- `size` bytes of the buffer and the stream, and what follows them is kept in order.
pub read_size-Gets :
    (r r' : Reader) (c : ℕ) (blocks : List Bytes) (got left : Bytes)
    → r.is_open ≡ true
    → length r.buf < length got
    → r.buf ++ joined blocks ≡ got ++ left
    → request (read_size (length got)) c r ≡ returns r'
    → Gets c blocks r' got left
read_size-Gets r r' c blocks got left o lt e q =
    let n = length got in
    let short : cut (sized n c r) r.buf ≡ none = unfold cut_by in ground arith in
    let enough : cut (sized n c r) (got ++ left) ≡ some n =
      unfold cut_by in ground (arith, length-append got left) in
    let started : record (sized n c r) { reading = true } ≡ r' =
      cc (q, request-read_size n c r o short) in
    rw (← started) (
      Delivers-Gets c blocks _ got left e (
        run_blocks-Delivers c blocks (record (sized n c r) { reading = true }) n refl (λ z. cc)
          short (rw e enough)))

-- The mark's first place: `p` ends where it begins, and it begins nowhere earlier.
pub record IsFirst (endl whole p left : Bytes) : Type 0 where
  pub splits : whole ≡ p ++ (endl ++ left)
  pub first : (p' q' : Bytes) → whole ≡ p' ++ (endl ++ q') → length p ≤ length p'

search_for-IsFirst :
    (endl whole p left : Bytes)
    → 0 < length endl
    → IsFirst endl whole p left
    → search_for endl whole ≡ length p
search_for-IsFirst endl whole p left pos f =
    let k = search_for endl whole in
    let le : k ≤ length p = rw f.splits (search_for-first endl p left) in
    let len = ap length f.splits in
    let total = length-append p (endl ++ left) in
    let rest = length-append endl left in
    let found : k ≢ length whole = λ z. omega (arith, le, len, total, rest, z) in
    let ge =
      f.first (take k whole) (drop (k + length endl) whole) (search_for_split endl whole found) in
    omega (arith, le, ge, length-take k whole)

-- `read(endl)` on an open reader whose buffer has no end mark yet: once the stream has brought
-- one, however cut into blocks (the mark itself included), the coroutine is resumed once, with all
-- bytes up to the first mark and the mark, and what follows is kept in order.
pub read_endl-Gets :
    (r r' : Reader) (c : ℕ) (blocks : List Bytes) (endl p left : Bytes)
    → r.is_open ≡ true
    → 0 < length endl
    → search_for endl r.buf ≡ length r.buf
    → IsFirst endl (r.buf ++ joined blocks) p left
    → request (read_endl endl) c r ≡ returns r'
    → Gets c blocks r' (p ++ endl) left
read_endl-Gets r r' c blocks endl p left o pos miss f q =
    let n = length (p ++ endl) in
    let whole = r.buf ++ joined blocks in
    let k = search_for-IsFirst endl whole p left pos f in
    let short : cut (marked endl c r) r.buf ≡ none = unfold cut_by in ground arith in
    let enough : cut (marked endl c r) whole ≡ some n =
      unfold cut_by in
      ground (
        arith,
        k,
        length-append p endl,
        ap length f.splits,
        length-append p (endl ++ left),
        length-append endl left,
      ) in
    let started : record (marked endl c r) { reading = true } ≡ r' =
      cc (q, request-read_endl endl c r o short) in
    rw (← started) (
      Delivers-Gets c blocks _ (p ++ endl) left (f.splits ∙ sym (append_assoc p endl left)) (
        run_blocks-Delivers c blocks (record (marked endl c r) { reading = true }) n refl (λ z. cc)
          short enough))
