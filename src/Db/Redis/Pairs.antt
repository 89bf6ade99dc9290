-- ===== src/Db/Redis/Pairs.antt =====
-- The values that the callbacks of Redis/Commands make of replies.
use php_flame.Prelude.{
  or_else, or_else-none, has_prefix, upper, ◌≡◌, refl, subst, ◌∙◌, inl, inr, Bool, true, false,
  Option, none, some, List, [], ◌∷◌, ◌++◌, if◌then◌else◌, Bytes, codes, map, Option-cases,
  Bool-cases,
}
use php_flame.Db.Mysql.{Key, Value, array, Entries, none_left}
use php_flame.Db.Redis.{
  Reply, reply_string, reply_array, Replies, no_element, element, Php, convert_redis_reply,
  same_key, put, get, get-put, Answer, resumed, Checked, does, aborts,
}
use php_flame.Db.Redis.Commands.{
  cb_assoc_even, chosen, next_array, even_loop, assoc_even, keys_loop, assoc_keys, text_of,
  reply_to, call, hmget,
}
use php_flame.Db.Redis.Values.{has_error, value_of, convert-Stands, Stands, Made}

-- Keys with the replies that are their values, as `key, value, key, value`, with what is left over.
unfoldable pub interleaved : List (Bytes × Reply) → Option Reply → Replies
interleaved [] none = no_element
interleaved [] (some r) = element r no_element
interleaved ((k, r) ∷ pairs) odd = element (reply_string k) (element r (interleaved pairs odd))

unfoldable pub replies_of : List (Bytes × Reply) → Replies
replies_of [] = no_element
replies_of ((k, r) ∷ pairs) = element r (replies_of pairs)

unfoldable pub keys_of : List (Bytes × Reply) → List Bytes
keys_of [] = []
keys_of ((k, r) ∷ pairs) = k ∷ keys_of pairs

-- No value is, or holds, an error.
unfoldable pub error_free : List (Bytes × Reply) → Bool
error_free [] = true
error_free ((k, r) ∷ pairs) = if has_error r then false else error_free pairs

module _ (php : Php) where
  -- The value for a key: that of the last pair with this key.
  unfoldable pub value_for : Key → List (Bytes × Reply) → Option Value
  value_for k [] = none
  value_for k ((j, r) ∷ pairs) =
      or_else (value_for k pairs)
        (if same_key k (php.key_of j) then convert_redis_reply r else none)

  -- The assignments of the pairs, in order.
  unfoldable assigned : List (Bytes × Reply) → Entries → Checked Entries
  assigned [] rv = does rv
  assigned ((k, r) ∷ pairs) rv = elim (convert_redis_reply r) [
    | none ↦ aborts
    | some v ↦ assigned pairs (put (php.key_of k) v rv)
  ]

  even_loop-interleaved :
      (pairs : List (Bytes × Reply)) (odd : Option Reply) (rv : Entries)
      → even_loop php (interleaved pairs odd) rv ≡ assigned pairs rv
  unfolding even_loop interleaved assigned text_of
  even_loop-interleaved [] none rv = refl
  even_loop-interleaved [] (some r) rv = refl
  even_loop-interleaved ((k, r) ∷ pairs) odd rv = elim (Option-cases (convert_redis_reply r)) [
    | inl e ↦ rw (e, even_loop, assigned)
    | inr (v, e) ↦
        rw (e, even_loop, assigned) (even_loop-interleaved pairs odd (put (php.key_of k) v rv))
  ]

  keys_loop-replies :
      (pairs : List (Bytes × Reply)) (more : List Bytes) (rv : Entries)
      → keys_loop php (keys_of pairs ++ more) (replies_of pairs) rv ≡ assigned pairs rv
  unfolding keys_loop keys_of replies_of assigned
  keys_loop-replies [] more rv = refl
  keys_loop-replies ((k, r) ∷ pairs) more rv = elim (Option-cases (convert_redis_reply r)) [
    | inl e ↦ rw (e, keys_loop, assigned)
    | inr (v, e) ↦
        rw (e, keys_loop, assigned) (keys_loop-replies pairs more (put (php.key_of k) v rv))
  ]

  -- A value put under a key is found before what the array had there.
  or_else-put :
      (o : Option Value) (k j : Key) (v : Value) (rv : Entries)
      → or_else o (get k (put j v rv))
        ≡ or_else (or_else o (if same_key k j then some v else none)) (get k rv)
  unfolding or_else
  or_else-put (some w) k j v rv = refl
  or_else-put none k j v rv = elim (Bool-cases (same_key k j)) [
    | inl e ↦ rw (get-put k j v rv) (rw e)
    | inr e ↦ rw (get-put k j v rv) (rw e)
  ]

  -- What the assignments leave in an array.
  assigned-get :
      (pairs : List (Bytes × Reply)) (rv : Entries)
      → error_free pairs ≡ true
      → (m : Entries) × (assigned pairs rv ≡ does m)
        × ((k : Key) → get k m ≡ or_else (value_for k pairs) (get k rv))
  unfolding error_free assigned value_for
  assigned-get [] rv free = (rv, refl, λ k. unfold or_else in refl)
  assigned-get ((j, r) ∷ pairs) rv free = elim (Bool-cases (has_error r)) [
    | inl e ↦ absurd (cc (e, free))
    | inr e ↦
        let (v, c) = value_of r e in
        let (m, made, gets) =
          assigned-get pairs (put (php.key_of j) v rv)
            (subst (λ b. (if b then false else error_free pairs) ≡ true) e free) in
        (
          m,
          rw (c, assigned) made,
          λ k. rw c (gets k ∙ or_else-put (value_for k pairs) k (php.key_of j) v rv),
        )
  ]

  -- The coroutine goes on with the array that has the value of each key.
  abbrev pub ResumesWith : List (Bytes × Reply) → Checked Answer → Type 0
  ResumesWith pairs answer =
      (m : Entries) × (answer ≡ does (resumed (array m)))
      × ((k : Key) → get k m ≡ value_for k pairs)

  assigned-ResumesWith :
      (pairs : List (Bytes × Reply))
      → error_free pairs ≡ true
      → ResumesWith pairs (next_array (assigned pairs none_left))
  assigned-ResumesWith pairs free =
      let (m, made, gets) = assigned-get pairs none_left free in
      (
        m,
        unfold next_array in rw made refl,
        λ k. gets k ∙ unfold get in or_else-none (value_for k pairs),
      )

  -- A command of `__call` whose callback is cb_assoc_even, and a reply of keys and values without an
  -- error, maybe with one element more: the coroutine goes on with an array in which each key has
  -- the value of its last pair, and nothing else; the value of a reply is the one that stands for
  -- it, in which a text ends at its first NUL byte.
  pub call-pairs :
      (word : Bytes) (params : List Value) (pairs : List (Bytes × Reply)) (odd : Option Reply)
      → (call php word params).callback ≡ cb_assoc_even
      → error_free pairs ≡ true
      → ResumesWith pairs
          (reply_to php (call php word params) (some (reply_array (interleaved pairs odd))))
        × ((r : Reply) → Made (Stands r) (convert_redis_reply r))
  unfolding reply_to assoc_even
  call-pairs word params pairs odd c free = (
    rw c (rw (even_loop-interleaved pairs odd none_left) (assigned-ResumesWith pairs free)),
    convert-Stands,
  )

  keys-ResumesWith :
      (keys : List Bytes) (pairs : List (Bytes × Reply)) (more : List Bytes)
      → keys ≡ keys_of pairs ++ more
      → error_free pairs ≡ true
      → ResumesWith pairs (assoc_keys php keys (some (reply_array (replies_of pairs))))
  unfolding assoc_keys
  keys-ResumesWith keys pairs more e free =
      rw e (rw (keys_loop-replies pairs more none_left) (assigned-ResumesWith pairs free))

  -- MGET in any case of its letters, and hmget(), for fields whose texts are the keys of the pairs
  -- and maybe more: where the server replies with the values of the pairs and no error is among
  -- them, the coroutine goes on with an array in which each key has the value of its last pair.
  pub mget-hmget_values :
      (word : Bytes) (hash : Value) (params : List Value) (pairs : List (Bytes × Reply))
      (more : List Bytes)
      → has_prefix (codes "MGET") (upper word) ≡ true
      → map php.to_string params ≡ keys_of pairs ++ more
      → error_free pairs ≡ true
      → ResumesWith pairs
          (reply_to php (call php word params) (some (reply_array (replies_of pairs))))
        × ResumesWith pairs
            (reply_to php (hmget php hash params) (some (reply_array (replies_of pairs))))
  unfolding reply_to call chosen hmget
  mget-hmget_values word hash params pairs more is_mget keys free =
      let values = keys-ResumesWith (map php.to_string params) pairs more keys free in
      (rw is_mget values, values)
