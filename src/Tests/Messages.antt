-- ===== src/Tests/Messages.antt =====
-- src/flame/os/cluster: messages of two and one bytes, cut in the middle, and one of 128 bytes.
use php_flame.Prelude.{◌≡◌, refl, none, List, [], ◌∷◌, map, Bytes, replicate, false, returns, arith}
use php_flame.Os.Messenger.{
  Messenger, messenger, Pipe, tcp, text, on_string_called, in_data, send, read_all,
}
use php_flame.Os.Messenger.Framing.{feed, read_all-feed}
use php_flame.Os.Messenger.RoundTrip.{IsReady, AllSent, read_all-AllSent, read_all_signed_size}

abbrev pipe : Pipe
pipe = record { pending_type = λ n. tcp; accept = λ n. none }

abbrev ready : Messenger
ready = record messenger { cb_type = 1 }

ready-IsReady : IsReady ready
unfolding messenger
ready-IsReady = record { idle = refl; no_data = refl; has_handler = refl }

abbrev texts : List Bytes
texts = (65 ∷ 66 ∷ []) ∷ (67 ∷ []) ∷ []

abbrev frames : List Bytes
frames = (2 ∷ 0 ∷ 65 ∷ 66 ∷ []) ∷ (1 ∷ 0 ∷ 67 ∷ []) ∷ []

abbrev blocks : List Bytes
blocks = (2 ∷ []) ∷ (0 ∷ 65 ∷ []) ∷ [] ∷ (66 ∷ 1 ∷ 0 ∷ 67 ∷ []) ∷ []

frames-AllSent : AllSent pipe texts frames
unfolding send
frames-AllSent = (refl, omega arith, (refl, omega arith, tt))

read_all-AllSent_example :
    ((read_all pipe blocks ready).1 ≡ map on_string_called texts)
    × IsReady (read_all pipe blocks ready).0
read_all-AllSent_example =
    read_all-AllSent pipe texts frames blocks ready ready-IsReady frames-AllSent refl

read_all-feed_example :
    read_all pipe blocks ready ≡ feed pipe (2 ∷ 0 ∷ 65 ∷ 66 ∷ 1 ∷ 0 ∷ 67 ∷ []) ready
read_all-feed_example = read_all-feed pipe blocks ready

abbrev long : Bytes
long = replicate 128 65

sent_long : send (text long) ≡ returns (128 ∷ 0 ∷ long, false)
unfolding send
sent_long = refl

read_all_signed_size_example :
    read_all pipe ((128 ∷ 0 ∷ long) ∷ []) ready
    ≡ (record ready { stat = in_data; size = 65280; data_ = long }, [])
read_all_signed_size_example =
    read_all_signed_size pipe long (128 ∷ 0 ∷ long) ((128 ∷ 0 ∷ long) ∷ []) ready ready-IsReady
      sent_long (omega arith) (omega arith) refl

sent_short : send (text (65 ∷ [])) ≡ returns (1 ∷ 0 ∷ 65 ∷ [], false)
unfolding send
sent_short = refl
