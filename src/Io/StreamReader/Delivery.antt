-- ===== src/Io/StreamReader/Delivery.antt =====
-- What a waiting read hands over, however the stream cuts its bytes into blocks.
use php_flame.Prelude.{
  joined, ℕ, ◌≡◌, ◌≢◌, refl, sym, ◌∙◌, inl, inr, false, none, some, List, [], ◌∷◌, ◌++◌, append-nil,
  append_assoc, Option-cases, Bytes, take, drop, take-append_le,
}
use php_flame.Io.StreamReader.{
  Reader, some_bytes, Event, next_with, Result, returns, throws, crashes, bytes, return_cb, resume,
  read_cb,
}
use php_flame.Io.StreamReader.Buffer.{
  cut, cut_by-append, cut_by-le, read_from_buf-cut, read_from_buf_uncut,
}

-- The blocks of a stream, in order, up to the one that resumes the coroutine; with the blocks
-- that are left.
unfoldable pub run_blocks : List Bytes → Reader → Result (Reader × List Event × List Bytes)
run_blocks [] r = returns (r, [], [])
run_blocks (b ∷ blocks) r = elim (read_cb (bytes b) none none r) [
  | returns (r', []) ↦ run_blocks blocks r'
  | returns (r', e ∷ es) ↦ returns (r', e ∷ es, blocks)
  | throws m ↦ throws m
  | crashes ↦ crashes
]

-- One block for a coroutine that waits.
read_cb-bytes_cut :
    (r : Reader) (c k : ℕ) (b : Bytes)
    → r.co ≡ some c
    → cut r (r.buf ++ b) ≡ some k
    → (d : ℕ) × (read_cb (bytes b) none none r
        ≡ returns (
          record r { co = none; rv = []; buf = drop k (r.buf ++ b); d_size = d; reading = false },
          next_with c (take k (r.buf ++ b)) ∷ [],
        ))
unfolding read_cb return_cb resume
read_cb-bytes_cut r c k b w e =
    let (d, done) = read_from_buf-cut (record r { buf = r.buf ++ b }) k e in (d, rw (done, w))

read_cb-bytes_uncut :
    (r : Reader) (b : Bytes)
    → cut r (r.buf ++ b) ≡ none
    → read_cb (bytes b) none none r ≡ returns (record r { buf = r.buf ++ b }, [])
unfolding read_cb
read_cb-bytes_uncut r b e = rw (read_from_buf_uncut (record r { buf = r.buf ++ b }) e)

run_blocks_quiet :
    (b : Bytes) (blocks : List Bytes) (r r' : Reader)
    → read_cb (bytes b) none none r ≡ returns (r', [])
    → run_blocks (b ∷ blocks) r ≡ run_blocks blocks r'
unfolding run_blocks
run_blocks_quiet b blocks r r' h = rw (h, run_blocks)

run_blocks_event :
    (b : Bytes) (blocks : List Bytes) (r r' : Reader) (e : Event)
    → read_cb (bytes b) none none r ≡ returns (r', e ∷ [])
    → run_blocks (b ∷ blocks) r ≡ returns (r', e ∷ [], blocks)
unfolding run_blocks
run_blocks_event b blocks r r' e h = rw (h, run_blocks)

module _ (c : ℕ) where
  -- No cut in the whole stream: everything is kept, and nobody is resumed.
  pub run_blocks_uncut :
      (blocks : List Bytes) (r : Reader)
      → r.d_type ≢ some_bytes
      → cut r (r.buf ++ joined blocks) ≡ none
      → run_blocks blocks r ≡ returns (record r { buf = r.buf ++ joined blocks }, [], [])
  run_blocks_uncut [] r h e = unfold run_blocks in rw append-nil
  run_blocks_uncut (b ∷ blocks) r h e = elim (Option-cases (cut r (r.buf ++ b))) [
    | inl later ↦ rw (run_blocks_quiet b blocks r _ (read_cb-bytes_uncut r b later)) (
        rw (← append_assoc r.buf b (joined blocks)) (
          run_blocks_uncut blocks (record r { buf = r.buf ++ b }) h
            (rw (append_assoc r.buf b (joined blocks)) e)))
    | inr (k, now) ↦
        let kept = cut_by-append r.d_type r.d_size r.d_endl (r.buf ++ b) (joined blocks) k h now in
        let e' = rw (← append_assoc r.buf b (joined blocks)) at e in cc (kept, e')
  ]

  abbrev pub Delivers : List Bytes → Reader → ℕ → Type 0
  Delivers blocks r k =
      let total = r.buf ++ joined blocks in
      (q : Reader) × (rest : List Bytes) × (run_blocks blocks r
        ≡ returns (q, next_with c (take k total) ∷ [], rest))
      × (q.buf ++ joined rest ≡ drop k total)
      × (q.co ≡ none)
      × (q.reading ≡ false)

  deliver_now :
      (b : Bytes) (blocks : List Bytes) (r : Reader) (k : ℕ)
      → r.co ≡ some c
      → cut r (r.buf ++ b) ≡ some k
      → Delivers (b ∷ blocks) r k
  deliver_now b blocks r k w now =
      let cb = read_cb-bytes_cut r c k b w now in
      let cutting =
        take-append_le k (r.buf ++ b) (joined blocks)
          (cut_by-le r.d_type r.d_size r.d_endl (r.buf ++ b) k now) in
      let q = record r {
        co = none;
        rv = [];
        buf = drop k (r.buf ++ b);
        d_size = cb.0;
        reading = false;
      } in
      let e = next_with c (take k (r.buf ++ b)) in
      rw (← append_assoc r.buf b (joined blocks)) (
        q,
        blocks,
        rw (cutting.0) (run_blocks_event b blocks r q e cb.1),
        sym cutting.1,
        refl,
        refl,
      )

  -- A coroutine `c` waits in a read of a given size, or up to an end mark, and the buffer does not
  -- satisfy it yet. If the buffer and all the blocks that come have their first cut at `k`, it is
  -- resumed once, with the first `k` bytes, however they are cut into blocks; reading stops,
  -- nobody waits then, and the buffer and the blocks that are left hold the rest of the stream.
  pub run_blocks-Delivers :
      (blocks : List Bytes) (r : Reader) (k : ℕ)
      → r.co ≡ some c
      → r.d_type ≢ some_bytes
      → cut r r.buf ≡ none
      → cut r (r.buf ++ joined blocks) ≡ some k
      → Delivers blocks r k
  run_blocks-Delivers [] r k w h n e = cc (rw append-nil at e)
  run_blocks-Delivers (b ∷ blocks) r k w h n e =
      let e' = rw (← append_assoc r.buf b (joined blocks)) at e in
      elim (Option-cases (cut r (r.buf ++ b))) [
        | inl later ↦ rw (← append_assoc r.buf b (joined blocks)) (
            rw (run_blocks_quiet b blocks r _ (read_cb-bytes_uncut r b later))
              (run_blocks-Delivers blocks (record r { buf = r.buf ++ b }) k w h later e'))
        | inr (k', now) ↦
            let kept =
              cut_by-append r.d_type r.d_size r.d_endl (r.buf ++ b) (joined blocks) k' h now in
            deliver_now b blocks r k w (now ∙ sym kept ∙ e')
      ]
