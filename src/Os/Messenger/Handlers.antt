-- ===== src/Os/Messenger/Handlers.antt =====
-- What the flags of `cb_type` do to the messages that arrive.
use php_flame.Prelude.{
  joined, ℕ, ◌-◌, ◌/◌, ◌%◌, ◌<◌, ◌≡◌, refl, true, false, List, [], ◌∷◌, ◌++◌, append_assoc, arith,
  has_bit, Bytes, length, returns,
}
use php_flame.Os.Messenger.{
  Messenger, Pipe, size_0, in_data, text, callable, connection_handler, on_string_called,
  on_server_called, pred16, on_string, on_socket, send, handle, ondata, read_all,
}
use php_flame.Os.Messenger.Framing.{feed_in, feed, feed-cons, read_all-feed}
use php_flame.Os.Messenger.RoundTrip.{sent_frame, size_sent, feed_header, feed_payload, inner_byte}

-- Once a connection handler was set, a plain callable set later is never called with a socket: each
-- socket that arrives still goes to it as a raw server pointer, with the type of the pending handle.
pub handle_sticks :
    (pipe : Pipe) (m m' m'' : Messenger)
    → handle connection_handler m ≡ returns m'
    → handle callable m' ≡ returns m''
    → (on_socket pipe m'').1 ≡ on_server_called (pipe.pending_type m.sockets) ∷ []
unfolding handle on_socket
handle_sticks pipe m m' m'' e f = ground arith

module _ (pipe : Pipe) where
  last_byte_unhandled :
      (c : ℕ) (m : Messenger)
      → m.stat ≡ in_data
      → has_bit m.cb_type 0 ≡ false
      → m.size ≡ 1
      → feed_in pipe m.stat c m
        ≡ (record m { stat = size_0; size = 0; data_ = m.data_ ++ c ∷ [] }, [])
  unfolding feed_in pred16 on_string
  last_byte_unhandled c m is b e = rw is (ground arith)

  feed_payload_unhandled :
      (c : ℕ) (s : Bytes) (m : Messenger)
      → m.stat ≡ in_data
      → has_bit m.cb_type 0 ≡ false
      → m.size ≡ length (c ∷ s)
      → length (c ∷ s) < 65536
      → feed pipe (c ∷ s) m ≡ (record m { stat = size_0; size = 0; data_ = m.data_ ++ c ∷ s }, [])
  feed_payload_unhandled c [] m is b e q =
      rw (feed-cons, last_byte_unhandled c m is b e) (unfold feed in refl)
  feed_payload_unhandled c (d ∷ s) m is b e q =
      let m' = record m { size = m.size - 1; data_ = m.data_ ++ c ∷ [] } in
      rw (feed-cons, inner_byte pipe c m is (omega arith) (omega arith))
        (rw (
          feed_payload_unhandled d s m' is b (omega arith) (omega arith),
          append_assoc m.data_ (c ∷ []) (d ∷ s),
        ))

  -- A frame up to its payload.
  feed_frame :
      (s frame : Bytes) (m : Messenger)
      → m.stat ≡ size_0
      → send (text s) ≡ returns (frame, false)
      → length s % 256 < 128
      → feed pipe frame m ≡ feed pipe s (record m { stat = in_data; size = length s })
  feed_frame s frame m is e low =
      let n = length s in
      let f = sent_frame s frame false e in
      let d = size_sent n low f.2 in
      rw (f.0) (
        rw (feed_header pipe (n % 256) (n / 256) s m is (λ z. absurd (omega (arith, d, z)))) (rw d))

  feed_frame_unhandled :
      (s frame : Bytes) (m : Messenger)
      → m.stat ≡ size_0
      → has_bit m.cb_type 0 ≡ false
      → send (text s) ≡ returns (frame, false)
      → length s % 256 < 128
      → feed pipe frame m ≡ (record m { stat = size_0; size = 0; data_ = m.data_ ++ s }, [])
  feed_frame_unhandled [] frame m is b e low = absurd (omega (arith, sent_frame [] frame false e))
  feed_frame_unhandled (c ∷ s) frame m is b e low = rw (feed_frame (c ∷ s) frame m is e low) (
      feed_payload_unhandled c s (record m { stat = in_data; size = length (c ∷ s) }) refl b refl
        (sent_frame (c ∷ s) frame false e).2)

  feed_frame_handled :
      (s frame : Bytes) (m : Messenger)
      → m.stat ≡ size_0
      → has_bit m.cb_type 0 ≡ true
      → send (text s) ≡ returns (frame, false)
      → length s % 256 < 128
      → (feed pipe frame m).1 ≡ on_string_called (m.data_ ++ s) ∷ []
  feed_frame_handled [] frame m is b e low = absurd (omega (arith, sent_frame [] frame false e))
  feed_frame_handled (c ∷ s) frame m is b e low = rw (feed_frame (c ∷ s) frame m is e low) (
      rw (
        feed_payload pipe c s (record m { stat = in_data; size = length (c ∷ s) }) refl b refl
          (sent_frame (c ∷ s) frame false e).2))

  ondata_facts :
      (m m' : Messenger)
      → ondata true m ≡ returns m'
      → (m'.stat ≡ m.stat) × (m'.data_ ≡ m.data_) × (has_bit m'.cb_type 0 ≡ true)
  unfolding ondata
  ondata_facts m m' o = ground arith

  -- A text that arrives while no handler for strings is set stays in the buffer, and the
  -- handler that `ondata` sets later gets it in front of the first text that arrives then.
  pub unhandled_text_stays :
      (s frame s' frame' : Bytes) (blocks blocks' : List Bytes) (m m' : Messenger)
      → m.stat ≡ size_0
      → m.data_ ≡ []
      → has_bit m.cb_type 0 ≡ false
      → send (text s) ≡ returns (frame, false)
      → length s % 256 < 128
      → send (text s') ≡ returns (frame', false)
      → length s' % 256 < 128
      → joined blocks ≡ frame
      → joined blocks' ≡ frame'
      → ondata true (read_all pipe blocks m).0 ≡ returns m'
      → ((read_all pipe blocks m).1 ≡ [])
        × ((read_all pipe blocks' m').1 ≡ on_string_called (s ++ s') ∷ [])
  unhandled_text_stays s frame s' frame' blocks blocks' m m' is nd b e low e' low' j j' o =
      let kept = feed_frame_unhandled s frame m is b e low in
      let now = rw (read_all-feed, j, kept, nd) at o in
      let known = ondata_facts (record m { stat = size_0; size = 0; data_ = s }) m' now in
      rw (read_all-feed, j, kept)
        (
          refl,
          rw (read_all-feed, j')
              (rw (feed_frame_handled s' frame' m' known.0 known.2 e' low', known.1)),
        )
