-- ===== src/Tests/Reads.antt =====
-- src/flame/io/stream_reader.cpp: reads of a stream that brings a line in pieces.
use php_flame.Prelude.{
  joined, ◌≡◌, refl, ◌≤◌, List, [], ◌∷◌, ◌++◌, Bytes, length, true, none, some, arith,
}
use php_flame.Io.StreamReader.{
  Reader, stream_reader, by_size, by_endl, to_end, returns, eof, request, start_read, read_from_buf,
  read_by, search_for, read_cb, next_with,
}
use php_flame.Io.StreamReader.Delivery.{run_blocks}
use php_flame.Io.StreamReader.Reads.{Gets, IsFirst, read_size-Gets, read_endl-Gets}
use php_flame.Io.StreamReader.Closing.{read_all_gets}

abbrev blocks : List Bytes
blocks = (65 ∷ 13 ∷ []) ∷ (10 ∷ 66 ∷ []) ∷ (67 ∷ []) ∷ []

abbrev waiting : Reader
waiting = record stream_reader { co = some 7; reading = true; d_type = by_size; d_size = 3 }

read_size-Gets_example : Gets 7 blocks waiting (65 ∷ 13 ∷ 10 ∷ []) (66 ∷ 67 ∷ [])
unfolding stream_reader request start_read read_from_buf read_by
read_size-Gets_example =
    read_size-Gets stream_reader waiting 7 blocks (65 ∷ 13 ∷ 10 ∷ []) (66 ∷ 67 ∷ []) refl
      (omega arith) refl refl

abbrev rest_of_line : Bytes
rest_of_line = 66 ∷ 67 ∷ []

-- The mark "\r\n", of which the first block brings one half.
mark-IsFirst : IsFirst (13 ∷ 10 ∷ []) (joined blocks) (65 ∷ []) rest_of_line
mark-IsFirst = record { splits = refl; first = earliest }
  where
    earliest : (p' q' : Bytes) → joined blocks ≡ p' ++ (13 ∷ 10 ∷ q') → 1 ≤ length p'
    earliest [] q' e = cc
    earliest (x ∷ p') q' e = omega arith

abbrev waiting_line : Reader
waiting_line = record stream_reader {
  co = some 7;
  reading = true;
  d_type = by_endl;
  d_endl = 13 ∷ 10 ∷ [];
}

read_endl-Gets_example : Gets 7 blocks waiting_line (65 ∷ 13 ∷ 10 ∷ []) rest_of_line
unfolding stream_reader request start_read read_from_buf read_by search_for
read_endl-Gets_example =
    read_endl-Gets stream_reader waiting_line 7 blocks (13 ∷ 10 ∷ []) (65 ∷ []) rest_of_line refl
      (omega arith) refl mark-IsFirst refl

abbrev waiting_end : Reader
waiting_end = record stream_reader { co = some 7; reading = true; d_type = to_end }

read_all_gets_example :
    (q : Reader) × (q' : Reader) × (run_blocks blocks waiting_end ≡ returns (q, [], []))
    × (read_cb eof none none q ≡ returns (q', next_with 7 (65 ∷ 13 ∷ 10 ∷ rest_of_line) ∷ []))
    × (q'.buf ≡ [])
    × (q'.co ≡ none)
unfolding stream_reader request
read_all_gets_example = read_all_gets stream_reader waiting_end 7 blocks refl refl
