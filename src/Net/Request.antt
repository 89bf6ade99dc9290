-- ===== src/Net/Request.antt =====
-- src/flame/net/http/server_connection.cpp and src/flame/net/fastcgi/server_connection.cpp: what the
-- callbacks of the parsers make of a request. The code that both files have is here: the names of
-- headers, the callbacks of kv_parser and multipart_parser, the choice by the content type.
-- Request/Http and Request/Fastcgi have the callbacks of each protocol. The parsers are submodules:
-- `Parsers` has what they hand to the callbacks, in order.
pub mod Http
pub mod Fastcgi
pub mod Headers
pub mod Protocols
use Prim.Native.String.{String}
use php_flame.Prelude.{
  ℕ, zero, suc, ◌+◌, Bool, true, false, ◌&&◌, ◌||◌, not, Option, none, some, List, [], ◌∷◌, ◌++◌,
  map, ltb, leb, ◌==◌, if◌then◌else◌, Bytes, codes, length, take, drop, same, has_prefix,
}

-- The calls of `on_key` and `on_val`.
pub data KvEvent : Type 0 where
  kv_key : Bytes → KvEvent
  kv_val : Bytes → KvEvent

-- The calls of `on_header_field`, `on_header_value`, with what stands in memory behind the value,
-- `on_part_data` and `on_part_data_end`.
pub data MpEvent : Type 0 where
  mp_key : Bytes → MpEvent
  mp_val : Bytes → Bytes → MpEvent
  mp_dat : Bytes → MpEvent
  mp_dat_end : MpEvent

-- kv_parser by its separators s1, s2 and w1, w2, multipart_parser by its boundary, PHP's url_decode
-- and json_decode; `moved` is what std::move leaves in an array.
pub record Parsers : Type 1 where
  pub Json : Type 0
  pub kv : ℕ → ℕ → ℕ → ℕ → Bytes → List KvEvent
  pub multipart : Bytes → Bytes → List MpEvent
  pub url_decode : Bytes → Bytes
  pub json_decode : Bytes → Json
  pub moved : List (Bytes × Bytes) → List (Bytes × Bytes)

-- `array.at(key) = value`
unfoldable pub put : {A : Type 0} → Bytes → A → List (Bytes × A) → List (Bytes × A)
put key val [] = (key, val) ∷ []
put key val ((k, v) ∷ rest) =
    let later = put key val rest in if same key k then (k, val) ∷ rest else (k, v) ∷ later

unfoldable pub at : {A : Type 0} → Bytes → List (Bytes × A) → Option A
at key [] = none
at key ((k, v) ∷ rest) = let later = at key rest in if same key k then some v else later

-- A byte of the name of a header.
unfoldable pub normal : ℕ → ℕ
normal c = if c == 95 then 45 else if leb 65 c && leb c 90 then c + 32 else c

-- The events of a kv_parser, whose key is kept in `key_data`.
unfoldable pub fill :
    (Bytes → Bytes) → List KvEvent → Bytes → List (Bytes × Bytes) → List (Bytes × Bytes)
fill decode [] key array = array
fill decode (kv_key k ∷ events) key array = fill decode events k array
fill decode (kv_val v ∷ events) key array = fill decode events key (put key (decode v) array)

-- `body_`: null, a string, an array, or what json_decode gives.
pub data Body (J : Type 0) : Type 0 where
  absent : Body J
  raw_body : Bytes → Body J
  fields : List (Bytes × Bytes) → Body J
  decoded : J → Body J

-- `strstr(text, word) + length`
unfoldable pub behind : Bytes → Bytes → Option Bytes
behind word [] = none
behind word (c ∷ text) =
    let later = behind word text in
    if has_prefix word (c ∷ text) then some (drop (length word) (c ∷ text)) else later

-- What multipart_parser is working on: `key_data`, `key_`, `val_` and `body_`.
pub record Part : Type 0 where
  pub key_data : Bytes
  pub key : Bytes
  pub val : Bytes
  pub body : List (Bytes × Bytes)

unfoldable pub named : Option Bytes → Bytes → Bytes
named none key = key
named (some name) key = key ++ name

module _ (p : Parsers) where
  -- `kv_parser_execute(at + 10, length)`: ten bytes more than the value has.
  unfoldable pub disposition : Bytes → Bytes → List (Bytes × Bytes)
  disposition value memory =
      fill (λ v. v) (p.kv 61 59 34 34 (take (length value) (drop 10 (value ++ memory)))) [] []

  unfoldable pub mp_event : MpEvent → Part → Part
  mp_event (mp_key k) s = record s { key_data = k }
  mp_event (mp_val value memory) s =
      if same (codes "Content-Disposition") s.key_data && has_prefix (codes "form-data;") value
      then record s { key = named (at (codes "name") (disposition value memory)) s.key }
      else s
  mp_event (mp_dat str) s = record s { val = s.val ++ str }
  mp_event mp_dat_end s = record s { key = []; val = []; body = put s.key s.val s.body }

  unfoldable pub mp_events : List MpEvent → Part → Part
  mp_events [] s = s
  mp_events (e ∷ events) s = mp_events events (mp_event e s)

  -- The parsers of a body; `none` is a null pointer, where no boundary is named.
  unfoldable pub multipart_body : Option Bytes → Bytes → Bytes → Option (Body p.Json)
  multipart_body none key raw = none
  multipart_body (some boundary) key raw = some (
      fields
        (mp_events (p.multipart boundary raw)
          (record { key_data = []; key = key; val = []; body = [] })).body)

  -- The body by the content type; `key` is what is left in `key_`.
  unfoldable pub typed_body : Option Bytes → Bytes → Bytes → Option (Body p.Json)
  typed_body none key raw = some (raw_body raw)
  typed_body (some ctype) key raw =
      if has_prefix (codes "application/x-www-form-urlencoded") ctype
      then some (fields (fill p.url_decode (p.kv 61 38 0 0 raw) [] []))
      else if ltb 32 (length ctype) && has_prefix (codes "multipart/form-data") ctype
      then multipart_body (behind (codes "boundary=") (drop 20 ctype)) key raw
      else if has_prefix (codes "application/json") ctype
      then some (decoded (p.json_decode raw))
      else some (raw_body raw)

  unfoldable pub cookies : Option Bytes → Option (List (Bytes × Bytes))
  cookies none = none
  cookies (some cookie) = some (fill p.url_decode (p.kv 61 59 10 13 cookie) [] [])

  unfoldable pub query : Option Bytes → Option (List (Bytes × Bytes))
  query none = none
  query (some text) = some (fill p.url_decode (p.kv 61 38 0 0 text) [] [])
