-- ===== src/Net/Response/Records.antt =====
-- A reader of records, and the records that a FastCGI response writes.
use php_flame.Prelude.{
  ℕ, zero, suc, ◌+◌, ◌*◌, ◌/◌, ◌%◌, ◌<◌, ◌≡◌, ◌≢◌, refl, true, false, not, Option, none, some, [],
  ◌∷◌, ◌++◌, append_assoc, arith, leb, ◌==◌, ==_iff, if◌then◌else◌, Bytes, length, length-append,
  length-replicate, replicate, take, drop, take-append, drop-append,
}
use php_flame.Net.Response.Chunks.{prepend}
use php_flame.Net.Response.Fastcgi.{Protocol, padding, swapped, header_bytes}

-- A record: its type, its request, its content, and what follows its padding.
unfoldable pub read_record : Bytes → Option (ℕ × ℕ × Bytes × Bytes)
read_record (v ∷ t ∷ i0 ∷ i1 ∷ c1 ∷ c0 ∷ pad ∷ z ∷ rest) =
    let n = c1 * 256 + c0 in
    if leb (n + pad) (length rest)
    then some (t, i0 + i1 * 256, take n rest, drop (n + pad) rest)
    else none
read_record _ = none

abbrev pub zeros : ℕ → Bytes
zeros n = replicate n 0

module _ (p : Protocol) (id : ℕ) where
  -- The output of the request `id` up to its end, and what is left behind it.
  unfoldable pub unpack : ℕ → Bytes → Option (Bytes × Bytes)
  unpack zero s = none
  unpack (suc k) s = elim (read_record s) [
    | none ↦ none
    | some (t, i, content, rest) ↦
        if not (i == id)
        then none
        else if t == p.type_end_request
        then some ([], rest)
        else if t == p.type_stdout
        then prepend content (unpack k rest)
        else none
  ]

  -- The record of type `t` with the content `str`.
  abbrev pub record_of : ℕ → Bytes → Bytes
  record_of t str =
      let n = length str in
      header_bytes p t id (swapped n) (padding n) ++ (str ++ zeros (padding n))

  joins_bytes : (n : ℕ) → n < 65536 → swapped n % 256 * 256 + swapped n / 256 ≡ n
  unfolding swapped
  joins_bytes n h = omega arith

  read_record-record_of :
      (t : ℕ) (str rest : Bytes)
      → id < 65536
      → length str < 65536
      → read_record (record_of t str ++ rest) ≡ some (t, id, str, rest)
  unfolding read_record header_bytes
  read_record-record_of t str rest small h =
      let n = length str in
      let pad = zeros (padding n) in
      let number : id % 256 + id / 256 * 256 ≡ id = omega arith in
      let len : n + padding n ≡ length (str ++ pad) =
        omega (arith, length-append str pad, length-replicate {A = ℕ} (padding n) 0) in
      let enough : leb (n + padding n) (length ((str ++ pad) ++ rest)) ≡ true =
        ground (arith, len, length-append (str ++ pad) rest) in
      let front : take n ((str ++ pad) ++ rest) ≡ str =
        rw (append_assoc str pad rest) (take-append str (pad ++ rest)) in
      let back : drop (n + padding n) ((str ++ pad) ++ rest) ≡ rest =
        rw len (drop-append (str ++ pad) rest) in
      rw (joins_bytes n h, enough, number, front, back)

  pub unpack-stdout :
      (k : ℕ) (str rest : Bytes)
      → p.type_stdout ≢ p.type_end_request
      → id < 65536
      → length str < 65536
      → unpack (suc k) (record_of p.type_stdout str ++ rest) ≡ prepend str (unpack k rest)
  unfolding unpack
  unpack-stdout k str rest d small h =
      let same_id : (id == id) ≡ true = (==_iff id id).1 refl in
      let same_type : (p.type_stdout == p.type_stdout) ≡ true = (==_iff _ _).1 refl in
      let other : (p.type_stdout == p.type_end_request) ≡ false = ground arith in
      rw (read_record-record_of p.type_stdout str rest small h, unpack)
        (rw (same_id, other, same_type))

  pub unpack-end :
      (k : ℕ) (str rest : Bytes)
      → id < 65536
      → length str < 65536
      → unpack (suc k) (record_of p.type_end_request str ++ rest) ≡ some ([], rest)
  unfolding unpack
  unpack-end k str rest small h =
      let same_id : (id == id) ≡ true = (==_iff id id).1 refl in
      let same_type : (p.type_end_request == p.type_end_request) ≡ true = (==_iff _ _).1 refl in
      rw (read_record-record_of p.type_end_request str rest small h, unpack)
        (rw (same_id, same_type))
