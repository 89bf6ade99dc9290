-- ===== src/Net/Request/Headers.antt =====
-- The headers of a request, however http_parser cuts them into pieces.
use php_flame.Prelude.{
  ◌≡◌, ◌≢◌, refl, sym, ap, ◌∙◌, List, [], ◌∷◌, ◌++◌, map, append-nil, append_assoc, Bytes, joined,
  All,
}
use php_flame.Net.Request.{put, normal}
use php_flame.Net.Request.Http.{
  Input, HeaderEvent, field_piece, value_piece, header_add, flush_in, flush, header_event,
  header_events,
}

-- A header in pieces: the first of its name, the others, and those of its value.
pub record Pieces : Type 0 where
  pub first : Bytes
  pub more : List Bytes
  pub values : List Bytes

abbrev pub name_of : Pieces → Bytes
name_of h = h.first ++ joined h.more

abbrev pub value_of : Pieces → Bytes
value_of h = joined h.values

-- The array of headers: each assignment under the normal name.
unfoldable pub assigned : List (Bytes × Bytes) → List (Bytes × Bytes) → List (Bytes × Bytes)
assigned [] array = array
assigned ((name, value) ∷ headers) array = assigned headers (put (map normal name) value array)

-- The headers that were sent, in one piece.
unfoldable pub whole : List Pieces → List (Bytes × Bytes)
whole [] = []
whole (h ∷ headers) = (name_of h, value_of h) ∷ whole headers

unfoldable pub http_pieces : List Pieces → List HeaderEvent
http_pieces [] = []
http_pieces (h ∷ headers) =
    (field_piece h.first ∷ map field_piece h.more)
    ++ (map value_piece h.values ++ http_pieces headers)

header_events-append :
    (xs ys : List HeaderEvent) (s : Input)
    → header_events (xs ++ ys) s ≡ header_events ys (header_events xs s)
unfolding header_events
header_events-append [] ys s = refl
header_events-append (x ∷ xs) ys s = header_events-append xs ys (header_event x s)

abbrev pub input : Bytes → Bytes → List (Bytes × Bytes) → Input
input key val header = record { key = key; val = val; header = header }

header_events-fields :
    (pieces : List Bytes) (key : Bytes) (header : List (Bytes × Bytes))
    → header_events (map field_piece pieces) (input key [] header)
      ≡ input (key ++ joined pieces) [] header
unfolding header_events header_event flush flush_in
header_events-fields [] key header = ap (λ k. input k [] header) (sym (append-nil key))
header_events-fields (x ∷ pieces) key header =
    header_events-fields pieces (key ++ x) header
    ∙ ap (λ k. input k [] header) (append_assoc key x (joined pieces))

header_events-values :
    (pieces : List Bytes) (key val : Bytes) (header : List (Bytes × Bytes))
    → header_events (map value_piece pieces) (input key val header)
      ≡ input key (val ++ joined pieces) header
unfolding header_events header_event
header_events-values [] key val header = ap (λ v. input key v header) (sym (append-nil val))
header_events-values (x ∷ pieces) key val header =
    header_events-values pieces key (val ++ x) header
    ∙ ap (λ v. input key v header) (append_assoc val x (joined pieces))

-- The pieces of one header, where the one before it goes into the array.
header_events-pieces :
    (h : Pieces) (s : Input) (header : List (Bytes × Bytes))
    → flush s ≡ input [] [] header
    → header_events
        (map value_piece h.values)
        (header_events (field_piece h.first ∷ map field_piece h.more) s)
      ≡ input (name_of h) (value_of h) header
unfolding header_events header_event
header_events-pieces h s header e =
    ap
      (λ t.
        header_events (map value_piece h.values)
          (header_events (map field_piece h.more) (record t { key = t.key ++ h.first })))
      e
    ∙ ap (header_events (map value_piece h.values)) (header_events-fields h.more h.first header)
    ∙ header_events-values h.values (name_of h) [] header

flush-value :
    (name val : Bytes) (header : List (Bytes × Bytes))
    → val ≢ []
    → flush (input name val header) ≡ input [] [] (put (map normal name) val header)
unfolding flush flush_in header_add
flush-value name [] header n = absurd (n refl)
flush-value name (c ∷ val) header n = refl

-- A header has a value that is not empty.
abbrev pub HasValue : Pieces → Type 0
HasValue h = value_of h ≢ []

pub flush-http_pieces :
    (headers : List Pieces) (s : Input) (header : List (Bytes × Bytes))
    → All HasValue headers
    → flush s ≡ input [] [] header
    → flush (header_events (http_pieces headers) s) ≡ input [] [] (assigned (whole headers) header)
unfolding http_pieces whole assigned
flush-http_pieces [] s header n e = unfold header_events in e
flush-http_pieces (h ∷ headers) s header (n, rest) e =
    ap flush (
      header_events-append (field_piece h.first ∷ map field_piece h.more)
        (map value_piece h.values ++ http_pieces headers) s
      ∙ header_events-append (map value_piece h.values) (http_pieces headers)
          (header_events (field_piece h.first ∷ map field_piece h.more) s)
      ∙ ap (header_events (http_pieces headers)) (header_events-pieces h s header e))
    ∙ flush-http_pieces headers (input (name_of h) (value_of h) header)
        (put (map normal (name_of h)) (value_of h) header) rest
        (flush-value (name_of h) (value_of h) header n)

-- Over HTTP a header whose value is empty does not go into the array, where the one before it has
-- gone: its name stands before the name of the next header, whose value goes under both names.
pub empty_value_joins :
    (h k : Pieces) (s : Input) (header : List (Bytes × Bytes))
    → flush s ≡ input [] [] header
    → value_of h ≡ []
    → HasValue k
    → flush (header_events (http_pieces (h ∷ k ∷ [])) s)
      ≡ input [] [] (put (map normal (name_of h ++ name_of k)) (value_of k) header)
unfolding http_pieces
empty_value_joins h k s header e z n =
    ap flush (
      header_events-append (field_piece h.first ∷ map field_piece h.more)
        (map value_piece h.values ++ http_pieces (k ∷ [])) s
      ∙ header_events-append (map value_piece h.values) (http_pieces (k ∷ []))
          (header_events (field_piece h.first ∷ map field_piece h.more) s)
      ∙ ap (header_events (http_pieces (k ∷ [])))
          (header_events-pieces h s header e ∙ ap (λ v. input (name_of h) v header) z)
      ∙ header_events-append (field_piece k.first ∷ map field_piece k.more)
          (map value_piece k.values ++ []) (input (name_of h) [] header)
      ∙ header_events-append (map value_piece k.values) [] (
          header_events (field_piece k.first ∷ map field_piece k.more)
            (input (name_of h) [] header))
      ∙ ap (λ t. header_events [] (header_events (map value_piece k.values) t))
          (header_events-fields (k.first ∷ k.more) (name_of h) header)
      ∙ ap (header_events []) (header_events-values k.values (name_of h ++ name_of k) [] header))
    ∙ (unfold header_events in flush-value (name_of h ++ name_of k) (value_of k) header n)
