-- ===== src/Net/Request/Protocols.antt =====
-- The headers of a request over FastCGI, and that both protocols agree on them.
use php_flame.Prelude.{
  ℕ, ◌+◌, ◌-◌, ◌≡◌, refl, sym, ap, ◌∙◌, false, ◌&&◌, some, List, [], ◌∷◌, ◌++◌, map, append-nil,
  append_assoc, arith, leb, ltb, ◌==◌, if◌then◌else◌, Bytes, codes, length, joined, All, has_prefix,
}
use php_flame.Net.Request.{Parsers, put, normal}
use php_flame.Net.Request.Http.{flush_in, flush, header_events, hp_header_complete_cb}
use php_flame.Net.Request.Fastcgi.{
  Params, begin_request, ParamEvent, key_piece, val_piece, end_param, http_param, fp_end_param_cb,
  param_event, param_events,
}
use php_flame.Net.Request.Headers.{
  Pieces, name_of, value_of, assigned, whole, http_pieces, HasValue, input, flush-http_pieces,
}

-- The name of a header as a variable: capitals, and `_` for `-`.
unfoldable pub cgi : ℕ → ℕ
cgi c = if c == 45 then 95 else if leb 97 c && leb c 122 then c - 32 else c

-- A byte of a name as the array has it: a small letter for a capital, `-` for `_`.
unfoldable pub small : ℕ → ℕ
small c = if leb 65 c && leb c 90 then c + 32 else c

unfoldable pub dashed : ℕ → ℕ
dashed c = let s = small c in if s == 95 then 45 else s

-- The array of headers: the value of each in order, under its name in this form.
unfoldable pub array_of : List (Bytes × Bytes) → List (Bytes × Bytes) → List (Bytes × Bytes)
array_of [] array = array
array_of ((name, value) ∷ headers) array = array_of headers (put (map dashed name) value array)

normal-dashed : (c : ℕ) → normal c ≡ dashed c
unfolding normal dashed small
normal-dashed c = ground arith

map-normal-dashed : (name : Bytes) → map normal name ≡ map dashed name
map-normal-dashed [] = refl
map-normal-dashed (c ∷ name) = rw (normal-dashed c, map-normal-dashed name)

normal-cgi : (c : ℕ) → normal (cgi c) ≡ normal c
unfolding normal cgi
normal-cgi c = ground arith

map-normal-cgi : (name : Bytes) → map normal (map cgi name) ≡ map normal name
map-normal-cgi [] = refl
map-normal-cgi (c ∷ name) = rw (normal-cgi c, map-normal-cgi name)

-- Parameters in pieces, each with what stands in memory behind its name.
unfoldable pub fastcgi_pieces : List (Pieces × Bytes) → List ParamEvent
fastcgi_pieces [] = []
fastcgi_pieces ((h, memory) ∷ params) =
    (key_piece h.first ∷ map key_piece h.more)
    ++ (map val_piece h.values ++ end_param memory ∷ fastcgi_pieces params)

unfoldable pub sent_params : List (Pieces × Bytes) → List (Bytes × Bytes)
sent_params [] = []
sent_params ((h, memory) ∷ params) = (name_of h, value_of h) ∷ sent_params params

-- Headers as parameters of FastCGI.
unfoldable pub as_params : List (Bytes × Bytes) → List (Bytes × Bytes)
as_params [] = []
as_params ((name, value) ∷ headers) = (codes "HTTP_" ++ map cgi name, value) ∷ as_params headers

module _ (p : Parsers) where
  param_events-keys :
      (pieces : List Bytes) (rest : List ParamEvent) (s : Params)
      → param_events p (map key_piece pieces ++ rest) s
        ≡ param_events p rest (record s { key = s.key ++ joined pieces })
  unfolding param_events param_event
  param_events-keys [] rest s =
      ap (λ k. param_events p rest (record s { key = k })) (sym (append-nil s.key))
  param_events-keys (x ∷ pieces) rest s =
      param_events-keys pieces rest (record s { key = s.key ++ x })
      ∙ ap (λ k. param_events p rest (record s { key = k })) (append_assoc s.key x (joined pieces))

  param_events-vals :
      (pieces : List Bytes) (rest : List ParamEvent) (s : Params)
      → param_events p (map val_piece pieces ++ rest) s
        ≡ param_events p rest (record s { val = s.val ++ joined pieces })
  unfolding param_events param_event
  param_events-vals [] rest s =
      ap (λ k. param_events p rest (record s { val = k })) (sym (append-nil s.val))
  param_events-vals (x ∷ pieces) rest s =
      param_events-vals pieces rest (record s { val = s.val ++ x })
      ∙ ap (λ k. param_events p rest (record s { val = k })) (append_assoc s.val x (joined pieces))

  header_param :
      (name memory : Bytes) (s : Params)
      → fp_end_param_cb p memory (record s { key = codes "HTTP_" ++ map cgi name })
        ≡ some (record s { key = []; val = []; header = put (map normal name) s.val s.header })
  unfolding fp_end_param_cb has_prefix normal http_param
  header_param name memory s =
      let long : ltb (length (codes "HTTP_" ++ map cgi name)) 5 ≡ false = ground arith in
      rw long (rw (map-normal-cgi name))

  param_events-end :
      (memory : Bytes) (rest : List ParamEvent) (t u : Params)
      → fp_end_param_cb p memory t ≡ some u
      → param_events p (end_param memory ∷ rest) t ≡ param_events p rest u
  unfolding param_events param_event
  param_events-end memory rest t u e = rw (e, param_events)

  -- The pieces of one parameter that is a header.
  param_events-pieces :
      (h : Pieces) (name memory : Bytes) (rest : List ParamEvent) (s : Params)
      → name_of h ≡ codes "HTTP_" ++ map cgi name
      → param_events p
          ((key_piece h.first ∷ map key_piece h.more)
            ++ (map val_piece h.values ++ end_param memory ∷ rest))
          (record s { key = []; val = [] })
        ≡ param_events p rest
            (record s { key = []; val = []; header = put (map normal name) (value_of h) s.header })
  param_events-pieces h name memory rest s e =
      param_events-keys (h.first ∷ h.more) (map val_piece h.values ++ end_param memory ∷ rest)
        (record s { key = []; val = [] })
      ∙ param_events-vals h.values (end_param memory ∷ rest)
          (record s { key = name_of h; val = [] })
      ∙ ap (λ k. param_events p (end_param memory ∷ rest) (record s { key = k; val = value_of h }))
          e
      ∙ param_events-end memory rest
          (record s { key = codes "HTTP_" ++ map cgi name; val = value_of h })
          (record s { key = []; val = []; header = put (map normal name) (value_of h) s.header })
          (header_param name memory (record s { val = value_of h }))

  assigned-array_of :
      (headers : List (Bytes × Bytes)) (array : List (Bytes × Bytes))
      → assigned headers array ≡ array_of headers array
  unfolding assigned array_of
  assigned-array_of [] array = refl
  assigned-array_of ((name, value) ∷ headers) array =
      rw (map-normal-dashed name) (assigned-array_of headers (put (map dashed name) value array))

  heads :
      {n v m w : Bytes} {xs ys : List (Bytes × Bytes)}
      → (n, v) ∷ xs ≡ (m, w) ∷ ys
      → (n ≡ m) × (v ≡ w) × (xs ≡ ys)
  heads e = (cc e, cc e, cc e)

  -- Whatever the pieces, parameters that are headers give the array of these headers.
  param_events-assigned :
      (params : List (Pieces × Bytes)) (headers : List (Bytes × Bytes)) (s : Params)
      → sent_params params ≡ as_params headers
      → (t : Params) × (param_events p (fastcgi_pieces params) (record s { key = []; val = [] })
          ≡ some t)
        × (t.header ≡ assigned headers s.header)
  unfolding fastcgi_pieces sent_params as_params assigned
  param_events-assigned [] [] s e =
      (record s { key = []; val = [] }, unfold param_events in refl, refl)
  param_events-assigned [] (x ∷ headers) s e = cc e
  param_events-assigned (x ∷ params) [] s e = cc e
  param_events-assigned ((h, memory) ∷ params) ((name, value) ∷ headers) s e =
      let (n, v, more) = heads e in
      let (t, rest, made) =
        param_events-assigned params headers
          (record s { header = put (map normal name) (value_of h) s.header }) more in
      (
        t,
        param_events-pieces h name memory (fastcgi_pieces params) s n ∙ rest,
        made ∙ ap (λ w. assigned headers (put (map normal name) w s.header)) v,
      )

  -- The same headers over both protocols, each header and parameter in pieces of any size, each
  -- header with a value that is not empty and each parameter named HTTP_ with capitals and `_`: both
  -- connections make the same array of them, by an assignment for each in order, under its name in
  -- small letters and with `-` for `_`.
  pub protocols-agree :
      (headers : List Pieces) (params : List (Pieces × Bytes))
      → All HasValue headers
      → sent_params params ≡ as_params (whole headers)
      → (t : Params) × (param_events p (fastcgi_pieces params) begin_request ≡ some t)
        × (t.header
            ≡ (hp_header_complete_cb p (
                header_events
                  (http_pieces headers)
                  (record { key = []; val = []; header = [] }))).0.header)
        × (t.header ≡ array_of (whole headers) [])
  unfolding begin_request hp_header_complete_cb
  protocols-agree headers params n e =
      let (t, goes, made) = param_events-assigned params (whole headers) begin_request e in
      let http = flush-http_pieces headers (input [] [] []) [] n (unfold flush flush_in in refl) in
      (t, goes, made ∙ sym (ap (λ s. s.header) http), made ∙ assigned-array_of (whole headers) [])
