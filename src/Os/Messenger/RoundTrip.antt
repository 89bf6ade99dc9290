-- ===== src/Os/Messenger/RoundTrip.antt =====
-- What `send` writes, `parse` reads, where the low byte of the length keeps its sign.
use php_flame.Prelude.{
  joined, ℕ, suc, ◌+◌, ◌-◌, ◌*◌, ◌/◌, ◌%◌, ◌≤◌, ◌<◌, ◌≡◌, ◌≢◌, refl, ap, Bool, true, false, List,
  [], ◌∷◌, ◌++◌, map, append-nil, append_assoc, arith, ◌==◌, ==_iff, has_bit, Bytes, length,
  returns, passes_under, passes_under_each,
}
use php_flame.Os.Messenger.{
  Messenger, Pipe, size_0, in_data, text, on_string_called, size_of_char, or_shifted, pred16,
  on_string, send, read_all,
}
use php_flame.Os.Messenger.Framing.{feed_in, feed, feed-cons, feed-append, read_all-feed}

-- The two bytes of a length, put together again, when the first is below 128.
joins : ℕ → ℕ → Bool
joins lo hi = or_shifted lo hi == lo + hi * 256

-- The first byte with its sign fills the upper byte, and the second changes nothing.
swallows : ℕ → ℕ → Bool
swallows lo hi = or_shifted (lo + 65408) hi == lo + 65408

joins_table : passes_under (λ lo. passes_under (joins lo) 256) 128 ≡ true
unfolding passes_under or_shifted joins
joins_table = refl

swallows_table : passes_under (λ lo. passes_under (swallows lo) 256) 128 ≡ true
unfolding passes_under or_shifted swallows
swallows_table = refl

or_shifted-low : (lo hi : ℕ) → lo < 128 → hi < 256 → or_shifted lo hi ≡ lo + hi * 256
or_shifted-low lo hi p q =
    unfold joins in
    (==_iff _ _).0 (
      passes_under_each (joins lo) hi 256 q
        (passes_under_each (λ x. passes_under (joins x) 256) lo 128 p joins_table))

or_shifted-signed : (lo hi : ℕ) → lo < 128 → hi < 256 → or_shifted (lo + 65408) hi ≡ lo + 65408
or_shifted-signed lo hi p q =
    unfold swallows in
    (==_iff _ _).0 (
      passes_under_each (swallows lo) hi 256 q
        (passes_under_each (λ x. passes_under (swallows x) 256) lo 128 p swallows_table))

-- Between two messages, with a handler for strings in place.
pub record IsReady (m : Messenger) : Type 0 where
  pub idle : m.stat ≡ size_0
  pub no_data : m.data_ ≡ []
  pub has_handler : has_bit m.cb_type 0 ≡ true

module _ (pipe : Pipe) where
  last_byte :
      (c : ℕ) (m : Messenger)
      → m.stat ≡ in_data
      → has_bit m.cb_type 0 ≡ true
      → m.size ≡ 1
      → feed_in pipe m.stat c m ≡ (
        record m { stat = size_0; size = 0; data_ = [] },
        on_string_called (m.data_ ++ c ∷ []) ∷ [],
      )
  unfolding feed_in pred16 on_string
  last_byte c m is b e = rw is (ground arith)

  pub inner_byte :
      (c : ℕ) (m : Messenger)
      → m.stat ≡ in_data
      → 1 < m.size
      → m.size < 65536
      → feed_in pipe m.stat c m ≡ (record m { size = m.size - 1; data_ = m.data_ ++ c ∷ [] }, [])
  unfolding feed_in pred16
  inner_byte c m is p q = rw is (ground arith)

  -- A payload that is as long as the size says.
  pub feed_payload :
      (c : ℕ) (s : Bytes) (m : Messenger)
      → m.stat ≡ in_data
      → has_bit m.cb_type 0 ≡ true
      → m.size ≡ length (c ∷ s)
      → length (c ∷ s) < 65536
      → feed pipe (c ∷ s) m ≡ (
        record m { stat = size_0; size = 0; data_ = [] },
        on_string_called (m.data_ ++ c ∷ s) ∷ [],
      )
  feed_payload c [] m is b e q = rw (feed-cons, last_byte c m is b e) (unfold feed in refl)
  feed_payload c (d ∷ s) m is b e q =
      let m' = record m { size = m.size - 1; data_ = m.data_ ++ c ∷ [] } in
      rw (feed-cons, inner_byte c m is (omega arith) (omega arith))
        (rw (
          feed_payload d s m' is b (omega arith) (omega arith),
          append_assoc m.data_ (c ∷ []) (d ∷ s),
        ))

  -- A payload that is shorter.
  feed_short :
      (s : Bytes) (m : Messenger)
      → m.stat ≡ in_data
      → length s < m.size
      → m.size < 65536
      → feed pipe s m ≡ (record m { size = m.size - length s; data_ = m.data_ ++ s }, [])
  feed_short [] m is p q = unfold feed in rw append-nil (ground arith)
  feed_short (c ∷ s) m is p q =
      let m' = record m { size = m.size - 1; data_ = m.data_ ++ c ∷ [] } in
      let e : m.size - 1 - length s ≡ m.size - suc (length s) = omega arith in
      rw (feed-cons, inner_byte c m is (omega arith) (omega arith))
        (rw (feed_short s m' is (omega arith) (omega arith), append_assoc m.data_ (c ∷ []) s, e))

  pub feed_header :
      (lo hi : ℕ) (rest : Bytes) (m : Messenger)
      → m.stat ≡ size_0
      → or_shifted (size_of_char lo) hi ≢ 0
      → feed pipe (lo ∷ hi ∷ rest) m
        ≡ feed pipe rest (record m { stat = in_data; size = or_shifted (size_of_char lo) hi })
  unfolding feed_in
  feed_header lo hi rest m is h = rw (feed-cons, is, feed-cons) (ground arith)

-- A `send` that returns: its two length bytes and the text, of at least one byte.
pub sent_frame :
    (s frame : Bytes) (with_socket : Bool)
    → send (text s) ≡ returns (frame, with_socket)
    → (frame ≡ length s % 256 ∷ length s / 256 ∷ s) × (0 < length s) × (length s < 65536)
unfolding send
sent_frame s frame w e = ground arith

-- The size that the two bytes give.
pub size_sent :
    (n : ℕ) → n % 256 < 128 → n < 65536 → or_shifted (size_of_char (n % 256)) (n / 256) ≡ n
unfolding size_of_char
size_sent n low h = ground (arith, or_shifted-low (n % 256) (n / 256) low (omega arith))

size_sent_signed :
    (n : ℕ)
    → 128 ≤ n % 256
    → n < 65536
    → or_shifted (size_of_char (n % 256)) (n / 256) ≡ n % 256 + 65280
unfolding size_of_char
size_sent_signed n high h =
    let lo = n % 256 - 128 in
    let e : lo + 65408 ≡ n % 256 + 65280 = omega arith in
    ground (arith, rw e at (or_shifted-signed lo (n / 256) (omega arith) (omega arith)))

module _ (pipe : Pipe) where
  -- A text that `send` accepts and whose length has a low byte below 128 is read back whole, by
  -- one call of the handler for strings, and the reader is as it was before, its `size_` at 0.
  pub feed-send :
      (s frame : Bytes) (with_socket : Bool) (m : Messenger)
      → IsReady m
      → send (text s) ≡ returns (frame, with_socket)
      → length s % 256 < 128
      → feed pipe frame m ≡ (record m { size = 0 }, on_string_called s ∷ [])
  feed-send [] frame w m r e low = absurd (omega (arith, sent_frame [] frame w e))
  feed-send (c ∷ s) frame w m r e low =
      let n = length (c ∷ s) in
      let f = sent_frame (c ∷ s) frame w e in
      let m' = record m { stat = in_data; size = n } in
      rw (f.0) (
        rw
          (feed_header pipe (n % 256) (n / 256) (c ∷ s) m r.idle
            (λ z. absurd (omega (arith, size_sent n low f.2, z))))
          (rw (size_sent n low f.2) (
            rw (feed_payload pipe c s m' refl r.has_handler refl f.2, r.no_data)
              (ground (arith, r.idle, r.no_data)))))

  -- The frames of texts that were sent one after another.
  abbrev pub AllSent : List Bytes → List Bytes → Type 0
  AllSent [] [] = Unit
  AllSent (s ∷ texts) (f ∷ frames) =
      (send (text s) ≡ returns (f, false)) × (length s % 256 < 128) × AllSent texts frames
  AllSent _ _ = ⊥

  feed-AllSent :
      (texts frames : List Bytes) (m : Messenger)
      → IsReady m
      → AllSent texts frames
      → ((feed pipe (joined frames) m).1 ≡ map on_string_called texts)
        × IsReady (feed pipe (joined frames) m).0
  feed-AllSent [] [] m r h = unfold feed in (refl, r)
  feed-AllSent (s ∷ texts) (f ∷ frames) m r h =
      let now = feed-send s f false m r h.0 h.1 in
      let ready : IsReady (record m { size = 0 }) = record {
        idle = r.idle;
        no_data = r.no_data;
        has_handler = r.has_handler;
      } in
      let (later, still) = feed-AllSent texts frames (record m { size = 0 }) ready h.2 in
      rw (feed-append pipe f (joined frames) m, now) (ap (◌∷◌ (on_string_called s)) later, still)
  feed-AllSent [] (f ∷ frames) m r h = elim h [ ]
  feed-AllSent (s ∷ texts) [] m r h = elim h [ ]

  -- Texts that `send` accepted, each with a length whose low byte is below 128, reach a reader that
  -- is between two messages and has a handler for strings: however the pipe cuts the stream of
  -- their frames, the handler is called with each text, whole and in order, and with nothing
  -- else, nothing is logged, and the reader is between two messages again.
  pub read_all-AllSent :
      (texts frames blocks : List Bytes) (m : Messenger)
      → IsReady m
      → AllSent texts frames
      → joined blocks ≡ joined frames
      → ((read_all pipe blocks m).1 ≡ map on_string_called texts)
        × IsReady (read_all pipe blocks m).0
  read_all-AllSent texts frames blocks m r h e =
      rw (read_all-feed, e) (feed-AllSent texts frames m r h)

  -- A text that `send` accepted whose length has a low byte of 128 or more, and is below
  -- 65280, never reaches the handler. The `char` carries its sign into `size_`, so that the
  -- reader, with the frame read to its end, waits for bytes of a longer text, those of the
  -- messages behind it.
  pub read_all_signed_size :
      (s frame : Bytes) (blocks : List Bytes) (m : Messenger)
      → IsReady m
      → send (text s) ≡ returns (frame, false)
      → 128 ≤ length s % 256
      → length s < 65280
      → joined blocks ≡ frame
      → read_all pipe blocks m
        ≡ (record m { stat = in_data; size = length s % 256 + 65280 - length s; data_ = s }, [])
  read_all_signed_size s frame blocks m r sent high short e =
      let n = length s in
      let f = sent_frame s frame false sent in
      let d = size_sent_signed n high f.2 in
      let m' = record m { stat = in_data; size = n % 256 + 65280 } in
      rw (read_all-feed, e, f.0)
        (rw (feed_header pipe (n % 256) (n / 256) s m r.idle (λ z. absurd (omega (arith, d, z))))
          (rw d (rw (feed_short pipe s m' refl (omega arith) (omega arith), r.no_data))))
