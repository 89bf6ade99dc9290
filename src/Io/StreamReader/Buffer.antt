-- ===== src/Io/StreamReader/Buffer.antt =====
-- What `read_from_buf` takes out of the buffer, and what it leaves.
use php_flame.Prelude.{
  ℕ, zero, suc, ◌+◌, ◌≤◌, ◌≡◌, ◌≢◌, refl, ap, inl, inr, true, false, Option, none, some, [], ◌∷◌,
  ◌++◌, arith, ltb, leb, ◌==◌, if◌then◌else◌, Bool-cases, Bytes, length, length-append, take, drop,
  length-take,
}
use php_flame.Io.StreamReader.{
  Reader, ReadType, some_bytes, by_size, by_endl, to_end, starts_with, search_for, take_sized,
  read_by, read_from_buf,
}

pub starts_with-append : (needle q : Bytes) → starts_with needle (needle ++ q) ≡ true
unfolding starts_with
starts_with-append [] q = refl
starts_with-append (x ∷ needle) q = ground (arith, starts_with-append needle q)

pub starts_with_split :
    (needle hay : Bytes) → starts_with needle hay ≡ true → hay ≡ needle ++ drop (length needle) hay
unfolding starts_with
starts_with_split [] hay h = refl
starts_with_split (x ∷ needle) [] h = cc
starts_with_split (x ∷ needle) (y ∷ hay) h = ground (arith, starts_with_split needle hay)

-- No occurrence begins earlier than the one that is found.
pub search_for-first : (needle p q : Bytes) → search_for needle (p ++ (needle ++ q)) ≤ length p
unfolding search_for
search_for-first [] [] [] = omega arith
search_for-first [] [] (y ∷ q) = unfold starts_with in omega arith
search_for-first (x ∷ needle) [] q = rw (starts_with-append (x ∷ needle) q) (omega arith)
search_for-first needle (y ∷ p) q = ground (arith, search_for-first needle p q)

-- One that is found is one.
pub search_for_split :
    (needle hay : Bytes)
    → search_for needle hay ≢ length hay
    → let k = search_for needle hay in hay ≡ take k hay ++ (needle ++ drop (k + length needle) hay)
unfolding search_for
search_for_split needle [] h = absurd (h refl)
search_for_split needle (y ∷ hay) h = elim (Bool-cases (starts_with needle (y ∷ hay))) [
  | inl found ↦
      let e : 0 + length needle ≡ length needle = omega arith in
      rw (found, e) (starts_with_split needle (y ∷ hay) found)
  | inr later ↦
      let k = search_for needle hay in
      let e : suc k + length needle ≡ suc (k + length needle) = omega arith in
      rw (later, e) (ap (◌∷◌ y) (search_for_split needle hay (λ z. h (rw later (ap suc z)))))
]

search_for-le : (needle hay : Bytes) → search_for needle hay ≤ length hay
unfolding search_for
search_for-le needle [] = omega arith
search_for-le needle (y ∷ hay) = ground (arith, search_for-le needle hay)

-- An occurrence lies inside.
pub search_for_inside :
    (needle hay : Bytes)
    → search_for needle hay ≢ length hay
    → search_for needle hay + length needle ≤ length hay
search_for_inside needle hay h =
    let k = search_for needle hay in
    omega (
      arith,
      search_for-le needle hay,
      ap length (search_for_split needle hay h),
      length-append (take k hay) (needle ++ drop (k + length needle) hay),
      length-append needle (drop (k + length needle) hay),
      length-take k hay,
    )

starts_with-append_le :
    (needle hay more : Bytes)
    → length needle ≤ length hay
    → starts_with needle (hay ++ more) ≡ starts_with needle hay
unfolding starts_with
starts_with-append_le [] hay more h = refl
starts_with-append_le (x ∷ needle) [] more h = absurd (omega arith)
starts_with-append_le (x ∷ needle) (y ∷ hay) more h =
    rw (starts_with-append_le needle hay more (omega arith))

-- An occurrence that is found stays the first one when more bytes come.
pub search_for-append :
    (needle hay more : Bytes)
    → search_for needle hay ≢ length hay
    → search_for needle (hay ++ more) ≡ search_for needle hay
unfolding search_for
search_for-append needle [] more h = absurd (h refl)
search_for-append needle (y ∷ hay) more h =
    let inside = search_for_inside needle (y ∷ hay) (unfold search_for in h) in
    let same = starts_with-append_le needle (y ∷ hay) more (omega (arith, inside)) in
    elim (Bool-cases (starts_with needle (y ∷ hay))) [
      | inl found ↦ rw (same, found)
      | inr later ↦
          rw (same, later)
            (ap suc (search_for-append needle hay more (λ z. h (rw later (ap suc z)))))
    ]

-- Where the next cut of the stream lies, if it can be told from its first bytes `s`.
unfoldable pub cut_by : ReadType → ℕ → Bytes → Bytes → Option ℕ
cut_by some_bytes size endl s = if ltb 0 (length s) then some (length s) else none
cut_by by_size size endl s = if leb size (length s) then some size else none
cut_by by_endl size endl s =
    let k = search_for endl s in if k == length s then none else some (k + length endl)
cut_by to_end size endl s = none

abbrev pub cut : Reader → Bytes → Option ℕ
cut r = cut_by r.d_type r.d_size r.d_endl

-- The bytes that end at a cut are whole, and more bytes do not move the cut.
pub cut_by-append :
    (type : ReadType) (size : ℕ) (endl s more : Bytes) (k : ℕ)
    → type ≢ some_bytes
    → cut_by type size endl s ≡ some k
    → cut_by type size endl (s ++ more) ≡ some k
unfolding cut_by
cut_by-append some_bytes size endl s more k h e = absurd (h refl)
cut_by-append by_size size endl s more k h e = ground (arith, length-append s more)
cut_by-append by_endl size endl s more k h e =
    ground (arith, length-append s more, search_for-append endl s more, search_for-le endl s)
cut_by-append to_end size endl s more k h e = cc

take_over : (n : ℕ) (xs : Bytes) → length xs ≤ n → (take n xs ≡ xs) × (drop n xs ≡ [])
take_over zero [] h = (refl, refl)
take_over (suc n) [] h = (refl, refl)
take_over zero (x ∷ xs) h = absurd (omega arith)
take_over (suc n) (x ∷ xs) h = let (t, d) = take_over n xs (omega arith) in (ap (◌∷◌ x) t, d)

take_sized_lem :
    (r : Reader) → take_sized r ≡ record r { rv = take r.d_size r.buf; buf = drop r.d_size r.buf }
unfolding take_sized
take_sized_lem r = elim (Bool-cases (ltb r.d_size (length r.buf))) [
  | inl longer ↦ rw longer
  | inr whole ↦ let all = take_over r.d_size r.buf (ground arith) in rw whole (rw (all.0, all.1))
]

module _ (r : Reader) where
  read_by-cut :
      (type : ReadType) (k : ℕ)
      → cut_by type r.d_size r.d_endl r.buf ≡ some k
      → (d : ℕ) × (read_by type r
          ≡ (true, record r { rv = take k r.buf; buf = drop k r.buf; d_size = d }))
  unfolding read_by cut_by
  read_by-cut some_bytes k e =
      let all = take_over (length r.buf) r.buf (omega arith) in
      (r.d_size, ground (arith, all.0, all.1))
  read_by-cut by_size k e = (r.d_size, ground (arith, take_sized_lem r))
  read_by-cut by_endl k e =
      let d = search_for r.d_endl r.buf + length r.d_endl in
      (d, ground (arith, take_sized_lem (record r { d_size = d })))
  read_by-cut to_end k e = cc

  read_by_uncut :
      (type : ReadType) → cut_by type r.d_size r.d_endl r.buf ≡ none → read_by type r ≡ (false, r)
  unfolding read_by cut_by
  read_by_uncut some_bytes e = ground arith
  read_by_uncut by_size e = ground arith
  read_by_uncut by_endl e = ground arith
  read_by_uncut to_end e = refl

  pub read_from_buf-cut :
      (k : ℕ)
      → cut r r.buf ≡ some k
      → (d : ℕ) × (read_from_buf r
          ≡ (true, record r { rv = take k r.buf; buf = drop k r.buf; d_size = d }))
  read_from_buf-cut k e = unfold read_from_buf in read_by-cut r.d_type k e

  pub read_from_buf_uncut : cut r r.buf ≡ none → read_from_buf r ≡ (false, r)
  read_from_buf_uncut e = unfold read_from_buf in read_by_uncut r.d_type e

pub cut_by-le :
    (type : ReadType) (size : ℕ) (endl s : Bytes) (k : ℕ)
    → cut_by type size endl s ≡ some k
    → k ≤ length s
unfolding cut_by
cut_by-le some_bytes size endl s k e = ground arith
cut_by-le by_size size endl s k e = ground arith
cut_by-le by_endl size endl s k e = ground (arith, search_for_inside endl s)
cut_by-le to_end size endl s k e = cc
