-- ===== src/Net/Client/Upload.antt =====
-- `body_read_cb` of client_request.cpp: how libcurl takes the body of a request.
use php_flame.Prelude.{
  ℕ, zero, suc, ◌+◌, ◌-◌, ◌≤◌, ◌≡◌, refl, sym, ap, ◌∙◌, true, List, [], ◌∷◌, ◌++◌, append-nil, ◌==◌,
  leb, if◌then◌else◌, Bool-cases, inl, inr, ==_iff, Bytes, length, take, drop, length-drop, arith,
}

-- `body_`, from its place on, and `size_`, on a buffer of `chunk` bytes.
unfoldable pub body_read_cb : ℕ → Bytes × ℕ → Bytes × (Bytes × ℕ)
body_read_cb chunk (body, size) =
    if size == 0
    then ([], (body, size))
    else if leb size chunk
    then (take size body, (body, 0))
    else (take chunk body, (drop chunk body, size - chunk))

-- Calls on buffers of these sizes.
unfoldable pub read_each : List ℕ → Bytes × ℕ → Bytes
read_each [] at = []
read_each (chunk ∷ chunks) at =
    let (part, later) = body_read_cb chunk at in part ++ read_each chunks later

unfoldable pub sum : List ℕ → ℕ
sum [] = 0
sum (n ∷ more) = n + sum more

read_each-end : (chunks : List ℕ) (body : Bytes) → read_each chunks (body, 0) ≡ []
unfolding read_each body_read_cb
read_each-end [] body = refl
read_each-end (chunk ∷ chunks) body = read_each-end chunks body

take_nil : (n : ℕ) → take {A = ℕ} n [] ≡ []
take_nil zero = refl
take_nil (suc n) = refl

take_enough : (n : ℕ) (xs : Bytes) → length xs ≤ n → take n xs ≡ xs
take_enough n [] h = take_nil n
take_enough zero (x ∷ xs) h = absurd (omega arith)
take_enough (suc n) (x ∷ xs) h = ap (◌∷◌ x) (take_enough n xs (omega arith))

take-add : (m n : ℕ) (xs : Bytes) → take m xs ++ take n (drop m xs) ≡ take (m + n) xs
take-add zero n xs = let e : n ≡ zero + n = omega arith in ap (λ k. take k xs) e
take-add (suc m) n [] = take_nil n ∙ sym (take_nil (suc m + n))
take-add (suc m) n (x ∷ xs) =
    let e : suc (m + n) ≡ suc m + n = omega arith in
    ap (◌∷◌ x) (take-add m n xs) ∙ ap (λ k. take k (x ∷ xs)) e

-- Whatever the sizes of libcurl's buffers are, it takes the bytes of the body in order, each once:
-- as many as the buffers hold, and where they hold them all, the body and nothing behind it.
pub read_each-take :
    (chunks : List ℕ) (body : Bytes) → read_each chunks (body, length body) ≡ take (sum chunks) body
unfolding read_each sum body_read_cb
read_each-take [] body = refl
read_each-take (chunk ∷ chunks) body = elim (Bool-cases (length body == 0)) [
  | inl e ↦ rw e (
      ap (λ n. read_each chunks (body, n)) ((==_iff (length body) 0).0 e)
      ∙ read_each-end chunks body
      ∙ sym (nothing body ((==_iff (length body) 0).0 e)))
  | inr e ↦ elim (Bool-cases (leb (length body) chunk)) [
    | inl f ↦
        rw
          (
            e,
            f,
            read_each-end chunks body,
            append-nil,
            take_enough (length body) body (omega arith),
          )
          (sym (take_enough (chunk + sum chunks) body (omega (arith, fits f))))
    | inr f ↦
        rw (e, f, ← length-drop chunk body, read_each-take chunks (drop chunk body))
          (take-add chunk (sum chunks) body)
  ]
]
  where
    nothing : (body : Bytes) → length body ≡ 0 → take (chunk + sum chunks) body ≡ []
    nothing [] h = take_nil (chunk + sum chunks)
    nothing (x ∷ rest) h = absurd (omega arith)

    fits : leb (length body) chunk ≡ true → length body ≤ chunk
    fits f = ground arith
