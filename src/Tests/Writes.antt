-- ===== src/Tests/Writes.antt =====
-- src/flame/io/stream_writer.cpp: two writes, of which the first is answered.
use php_flame.Prelude.{◌≡◌, refl, [], ◌∷◌, ◌++◌, false}
use php_flame.Io.StreamWriter.{
  Writer, stream_writer, write, given, taken_by, close, write_cb, error, Reach, start, writes,
  answers,
}
use php_flame.Io.StreamWriter.Answers.{Reach-requests}

abbrev left : Writer
left = record {
  is_open = false;
  requests = 8 ∷ [];
  written = (65 ∷ []) ∷ (66 ∷ []) ∷ [];
  lost = [];
}

left-Reach : Reach (7 ∷ 8 ∷ []) (7 ∷ []) left
unfolding stream_writer write given taken_by write_cb close
left-Reach =
    answers {rest = 8 ∷ []} (writes (writes start 0 7 (65 ∷ []) refl) 0 8 (66 ∷ []) refl) refl
      (error 3)

Reach-requests_example : (7 ∷ []) ++ left.requests ≡ 7 ∷ 8 ∷ []
Reach-requests_example = Reach-requests left-Reach
