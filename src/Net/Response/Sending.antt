-- ===== src/Net/Response/Sending.antt =====
-- The order of the calls of a response, for every format.
use Prim.Native.String.{String}
use php_flame.Prelude.{
  ℕ, ◌≡◌, refl, ap, ◌∙◌, Bool, true, false, ◌||◌, Option, none, some, List, [], ◌∷◌, ◌++◌, arith,
  Bytes, Outcome, returns, throws, ◌>>=◌,
}
use php_flame.Net.Response.{
  Response, Format, IsFormat, flags, write_buffer, unless, head_in, head_once, write_header, write,
  last_body, end,
}

-- A call whose test lets it go on.
pub unless_open :
    (b : Bool) (m : String) (r : Response)
    → b ≡ false
    → unless b m r ≡ returns (record r { buffer = [] }, r.buffer)
unfolding unless write_buffer
unless_open true m r e = cc
unless_open false m r e = refl

pub head_in-sent : (format : Format) (b : Bool) (r : Response) → b ≡ true → head_in format b r ≡ r
unfolding head_in
head_in-sent format true r e = refl
head_in-sent format false r e = cc

module _ (format : Format) where
  -- Each of the strings by `write`, and then `end`; with all that goes to the connection.
  unfoldable pub sends : List Bytes → Response → Outcome (Response × Bytes)
  sends [] r = end format none r
  sends (str ∷ strs) r =
      write format str r >>= λ (r', b). sends strs r' >>= λ (q, rest). returns (q, b ++ rest)

  -- The header first.
  unfoldable pub responds : Option ℕ → List Bytes → Response → Outcome (Response × Bytes)
  responds status strs r = write_header format status r >>= λ (r', b).
      sends strs r' >>= λ (q, rest). returns (q, b ++ rest)

  last_body-flags :
      IsFormat format
      → (str : Option Bytes) (r : Response) → flags (last_body format str r) ≡ flags r
  unfolding last_body
  last_body-flags is none r = refl
  last_body-flags is (some str) r = is.body_flags str r

  head_in-flags :
      (sent : Bool) (r : Response)
      → IsFormat format
      → r.is_head_sent ≡ sent
      → flags (head_in format sent r) ≡ (true, r.is_body_sent, r.ended)
  unfolding head_in
  head_in-flags true r is e = ap (λ b. (b, r.is_body_sent, r.ended)) e
  head_in-flags false r is e = ap (λ x. (true, x.1, x.2)) (is.header_flags r)

  unless_returns :
      (b : Bool) (message : String) (r q : Response) (s : Bytes)
      → unless b message r ≡ returns (q, s)
      → (b ≡ false) × (flags q ≡ flags r) × (s ≡ r.buffer)
  unfolding unless write_buffer
  unless_returns true message r q s e = cc
  unless_returns false message r q s e = ground arith

  end-flags :
      (str : Option Bytes) (r q : Response) (b : Bytes)
      → IsFormat format
      → end format str r ≡ returns (q, b)
      → flags q ≡ (true, true, true)
  unfolding end head_once
  end-flags str r q b is e =
      let start = record r { is_body_sent = true } in
      let headed = record (head_once format start) { ended = true } in
      let body = format.buffer_body [] (last_body format str headed) in
      let sent =
        unless_returns r.is_body_sent "body already ended" (format.buffer_ending body) q b e in
      sent.1
      ∙ is.ending_flags body
      ∙ is.body_flags [] (last_body format str headed)
      ∙ last_body-flags is str headed
      ∙ ap (λ x. (x.0, x.1, true)) (head_in-flags r.is_head_sent start is refl)

  -- Once `end` has returned, `ended` is set, and each further call throws and sends nothing, in
  -- every format whose functions leave the flags alone.
  pub end_refuses :
      (str : Option Bytes) (r q : Response) (b : Bytes)
      → IsFormat format
      → end format str r ≡ returns (q, b)
      → (q.ended ≡ true)
        × ((status : Option ℕ) → write_header format status q ≡ throws "header already sent")
        × ((more : Bytes) → write format more q ≡ throws "body already ended")
        × ((more : Option Bytes) → end format more q ≡ throws "body already ended")
  unfolding write_header write end unless
  end_refuses str r q b is e =
      let f = end-flags str r q b is e in
      let head : q.is_head_sent ≡ true = ap (λ x. x.0) f in
      let body : q.is_body_sent ≡ true = ap (λ x. x.1) f in
      (
        ap (λ x. x.2) f,
        λ status.
            thrown "header already sent" (q.is_head_sent || q.is_body_sent)
              (or_true q.is_head_sent q.is_body_sent head) _,
        λ more. thrown "body already ended" q.is_body_sent body _,
        λ more. thrown "body already ended" q.is_body_sent body _,
      )
    where
      or_true : (x y : Bool) → x ≡ true → (x || y) ≡ true
      or_true true y e = refl
      or_true false y e = cc

      thrown : (m : String) (b : Bool) → b ≡ true → (x : Response) → unless b m x ≡ throws m
      thrown m true e x = refl
      thrown m false e x = cc
