-- ===== src/Net/Response/Chunks.antt =====
-- A reader of chunks, and the chunks that an HTTP response writes.
use php_flame.Prelude.{
  Bool-cases, inl, inr, ℕ, zero, suc, ◌+◌, ◌-◌, ◌*◌, ◌/◌, ◌%◌, ◌^◌, ◌<◌, ◌≡◌, refl, ap, ◌∙◌, Bool,
  true, false, ◌&&◌, Option, none, some, [], ◌∷◌, ◌++◌, append_assoc, arith, ltb, leb, ◌==◌,
  if◌then◌else◌, Bytes, length, take, drop, take-append, drop-append, take_all, hex, digits_in,
  digit_char,
}
use php_flame.Net.Response.{Response}
use php_flame.Net.Response.Http.{body_in, body_size, crlf}

-- The value of a digit of a chunk's size.
unfoldable pub hex_value : ℕ → Option ℕ
hex_value b =
    if leb 48 b && leb b 57
    then some (b - 48)
    else if leb 97 b && leb b 102
    then some (b - 87)
    else none

unfoldable pub skip_crlf : Bytes → Option Bytes
skip_crlf (x ∷ y ∷ rest) = if (x == 13) && (y == 10) then some rest else none
skip_crlf _ = none

-- A size and the end of its line.
unfoldable pub read_hex : ℕ → Bytes → Option (ℕ × Bytes)
read_hex acc [] = none
read_hex acc (b ∷ rest) = elim (hex_value b) [
  | some d ↦ read_hex (acc * 16 + d) rest
  | none ↦ elim (skip_crlf (b ∷ rest)) [ none ↦ none | some after ↦ some (acc, after) ]
]

unfoldable pub prepend : Bytes → Option (Bytes × Bytes) → Option (Bytes × Bytes)
prepend str none = none
prepend str (some (more, rest)) = some (str ++ more, rest)

-- The data of the chunks up to the empty one, and what is left behind it.
unfoldable pub dechunk : ℕ → Bytes → Option (Bytes × Bytes)
dechunk zero s = none
dechunk (suc k) s = elim (read_hex 0 s) [
  | none ↦ none
  | some (n, rest) ↦ elim (skip_crlf (drop n rest)) [
    | none ↦ none
    | some after ↦ if n == 0 then some ([], after) else prepend (take n rest) (dechunk k after)
  ]
]

hex_value-digit_char : (d : ℕ) → d < 16 → hex_value (digit_char d) ≡ some d
unfolding hex_value digit_char
hex_value-digit_char d h = ground arith

read_hex-digit :
    (acc d : ℕ) (rest : Bytes)
    → d < 16
    → read_hex acc (digit_char d ∷ rest) ≡ read_hex (acc * 16 + d) rest
unfolding read_hex
read_hex-digit acc d rest h = rw (hex_value-digit_char d h, read_hex)

read_hex-digits_in :
    (k n : ℕ) (rest : Bytes)
    → n < 16 ^ suc k
    → read_hex 0 (digits_in 16 (suc k) n ++ rest) ≡ read_hex n rest
unfolding digits_in
read_hex-digits_in zero n rest h =
    let small : 0 * 16 + n % 16 ≡ n = omega arith in
    let one : ltb n 16 ≡ true = ground arith in
    rw one (read_hex-digit 0 (n % 16) rest (omega arith) ∙ ap (λ x. read_hex x rest) small)
read_hex-digits_in (suc k) n rest h = elim (Bool-cases (ltb n 16)) [
  | inl one ↦
      let small : 0 * 16 + n % 16 ≡ n = ground arith in
      rw one (read_hex-digit 0 (n % 16) rest (omega arith) ∙ ap (λ x. read_hex x rest) small)
  | inr more ↦
      let last = digit_char (n % 16) ∷ [] in
      let whole : n / 16 * 16 + n % 16 ≡ n = omega arith in
      rw (more, append_assoc (digits_in 16 (suc k) (n / 16)) last rest)
        (read_hex-digits_in k (n / 16) (last ++ rest) (omega arith)
          ∙ read_hex-digit (n / 16) (n % 16) rest (omega arith)
          ∙ ap (λ x. read_hex x rest) whole)
]

read_hex-crlf : (acc : ℕ) (rest : Bytes) → read_hex acc (crlf ++ rest) ≡ some (acc, rest)
unfolding read_hex hex_value skip_crlf
read_hex-crlf acc rest = refl

-- A chunk with the data `str`.
abbrev pub chunk : Bytes → Bytes
chunk str = hex (length str) ++ (crlf ++ (str ++ crlf))

skip_crlf-crlf : (rest : Bytes) → skip_crlf (crlf ++ rest) ≡ some rest
unfolding skip_crlf
skip_crlf-crlf rest = refl

read_hex-chunk :
    (str rest : Bytes)
    → length str < 65536
    → read_hex 0 (chunk str ++ rest) ≡ some (length str, str ++ (crlf ++ rest))
read_hex-chunk str rest h =
    let n = length str in
    rw (append_assoc (hex n) (crlf ++ (str ++ crlf)) rest) (
      read_hex-digits_in 7 n ((crlf ++ (str ++ crlf)) ++ rest) (omega arith)
      ∙ read_hex-crlf n ((str ++ crlf) ++ rest)
      ∙ ap (λ x. some (n, x)) (append_assoc str crlf rest))

pub dechunk-chunk :
    (k : ℕ) (str rest : Bytes)
    → 0 < length str
    → length str < 65536
    → dechunk (suc k) (chunk str ++ rest) ≡ prepend str (dechunk k rest)
unfolding dechunk
dechunk-chunk k str rest p h =
    let more : (length str == 0) ≡ false = ground arith in
    rw (read_hex-chunk str rest h, dechunk)
      (rw (drop-append str (crlf ++ rest), skip_crlf-crlf rest, dechunk)
        (rw (take-append str (crlf ++ rest), more)))

pub dechunk-last : (k : ℕ) (rest : Bytes) → dechunk (suc k) (chunk [] ++ rest) ≡ some ([], rest)
unfolding dechunk
dechunk-last k rest =
    rw (read_hex-chunk [] rest (omega arith), dechunk) (rw (skip_crlf-crlf rest, dechunk))

pub body_in-chunk :
    (b : Bool) (str : Bytes) (r : Response)
    → b ≡ true
    → length str < 65536
    → body_in b (body_size str) str r ≡ record r { buffer = r.buffer ++ chunk str }
unfolding body_in body_size
body_in-chunk false str r e h = cc
body_in-chunk true str r e h =
    let size : length str % 65536 ≡ length str = omega arith in
    let whole = take_all str in rw (size, whole) (simp append_assoc)
