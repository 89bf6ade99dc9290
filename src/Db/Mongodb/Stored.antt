-- ===== src/Db/Mongodb/Stored.antt =====
-- Which values BSON gives back.
use php_flame.Prelude.{
  ℕ, suc, ◌≡◌, refl, sym, ap, subst, ◌∙◌, Bool, true, false, not, ◌&&◌, Bool-cases, inl, inr, Bytes,
}
use php_flame.Db.Mysql.{Key, index, name, key_text}
use php_flame.Db.Redis.{same_key, until_nul}
use php_flame.Db.Mongodb.{
  Value, null, boolean, long, str, object_id, date_time, array, Entries, none_left, entry, Php,
  has_zero, put, element, fill_with, from, list_from, fields_from,
}

module _ {D : Type 0} where
  unfoldable pub joined : Entries D → Entries D → Entries D
  joined none_left b = b
  joined (entry k v rest) b = entry k v (joined rest b)

  -- No element has the key.
  unfoldable pub lacks : Key → Entries D → Bool
  lacks k none_left = true
  lacks k (entry j w rest) = not (same_key k j) && lacks k rest

  pub joined-entry :
      (a b : Entries D) (k : Key) (v : Value D)
      → joined (joined a (entry k v none_left)) b ≡ joined a (entry k v b)
  unfolding joined
  joined-entry none_left b k v = refl
  joined-entry (entry j w a) b k v = ap (entry j w) (joined-entry a b k v)

  pub joined_none : (a : Entries D) → joined a none_left ≡ a
  unfolding joined
  joined_none none_left = refl
  joined_none (entry k v rest) = ap (entry k v) (joined_none rest)

  pub put-lacks :
      (k : Key) (v : Value D) (a : Entries D)
      → lacks k a ≡ true
      → put k v a ≡ joined a (entry k v none_left)
  unfolding put lacks joined
  put-lacks k v none_left e = refl
  put-lacks k v (entry j w rest) e = elim (Bool-cases (same_key k j)) [
    | inl f ↦ absurd (cc (e, f))
    | inr f ↦
        rw f (ap (entry j w) (put-lacks k v rest (subst (λ b. (not b && lacks k rest) ≡ true) f e)))
  ]

  module _ (php : Php D) where
    -- A value that BSON can hold: no double, no object but the two of the library, in arrays either
    -- the keys 0, 1, ... in order, or different names, without NUL bytes, that PHP takes as they are.
    mutual
      pub data Plain : Value D → Type 0 where
        is_null : Plain null
        is_boolean : (b : Bool) → Plain (boolean b)
        is_long : (negative : Bool) (n : ℕ) → Plain (long negative n)
        is_str : (s : Bytes) → Plain (str s)
        is_object_id : (s : Bytes) → Plain (object_id s)
        is_date_time : (negative : Bool) (n : ℕ) → Plain (date_time negative n)
        is_list : {row : Entries D} → ListFrom 0 row → Plain (array row)
        is_map : {row : Entries D} → Fields none_left row → Plain (array row)

      pub data ListFrom : ℕ → Entries D → Type 0 where
        list_end : {i : ℕ} → ListFrom i none_left
        list_next :
            {i : ℕ} {v : Value D} {rest : Entries D}
            → Plain v
            → ListFrom (suc i) rest
            → ListFrom i (entry (index i) v rest)

      -- Behind the elements that stand before.
      pub data Fields : Entries D → Entries D → Type 0 where
        fields_end : {a : Entries D} → Fields a none_left
        field :
            {a : Entries D} {s : Bytes} {v : Value D} {rest : Entries D}
            → until_nul s ≡ s
            → php.key_of s ≡ name s
            → lacks (name s) a ≡ true
            → Plain v
            → Fields (joined a (entry (name s) v none_left)) rest
            → Fields a (entry (name s) v rest)

    Fields-no_zero : {a row : Entries D} → Fields a row → has_zero row ≡ false
    unfolding has_zero
    Fields-no_zero fields_end = refl
    Fields-no_zero (field u o l p f) = Fields-no_zero f

    -- A document with names, by its array.
    from-document :
        (row : Entries D) (s : Bytes) (v : Value D)
        → has_zero (entry (name s) v row) ≡ false
        → from php (element php (array (entry (name s) v row)))
          ≡ array (fields_from php (fill_with php (entry (name s) v row)) none_left)
    unfolding from element fill_with has_zero
    from-document row s v e = rw e

    put-field :
        (a : Entries D) (s : Bytes) (v w : Value D)
        → until_nul s ≡ s
        → php.key_of s ≡ name s
        → lacks (name s) a ≡ true
        → w ≡ v
        → put (php.key_of (until_nul s)) w a ≡ joined a (entry (name s) v none_left)
    put-field a s v w u o l e =
        ap (λ t. put (php.key_of t) w a) u
        ∙ ap (λ k. put k w a) o
        ∙ ap (λ x. put (name s) x a) e
        ∙ put-lacks (name s) v a l

    mutual
      unfolding from element fill_with list_from fields_from has_zero key_text joined

      Plain-back : {v : Value D} → Plain v → from php (element php v) ≡ v
      Plain-back is_null = refl
      Plain-back (is_boolean b) = refl
      Plain-back (is_long negative n) = refl
      Plain-back (is_str s) = refl
      Plain-back (is_object_id s) = refl
      Plain-back (is_date_time negative n) = refl
      Plain-back (is_list list_end) = refl
      Plain-back (is_list (list_next p l)) = ap array (ListFrom-back (list_next p l))
      Plain-back (is_map fields_end) = refl
      Plain-back (is_map (field {s = s} {v = v} {rest = rest} u o l p f)) =
          from-document rest s v (Fields-no_zero (field u o l p f))
          ∙ ap array (Fields-back (field u o l p f))

      ListFrom-back :
          {i : ℕ} {row : Entries D} → ListFrom i row → list_from php i (fill_with php row) ≡ row
      ListFrom-back list_end = refl
      ListFrom-back (list_next {i = i} {v = v} {rest = rest} p l) =
          ap (λ w. entry (index i) w (list_from php (suc i) (fill_with php rest))) (Plain-back p)
          ∙ ap (entry (index i) v) (ListFrom-back l)

      Fields-back :
          {a row : Entries D} → Fields a row → fields_from php (fill_with php row) a ≡ joined a row
      Fields-back {a} fields_end = sym (joined_none a)
      Fields-back {a} (field {s = s} {v = v} {rest = rest} u o l p f) =
          ap (fields_from php (fill_with php rest))
            (put-field a s v (from php (element php v)) u o l (Plain-back p))
          ∙ Fields-back f
          ∙ joined-entry a rest (name s) v

    -- What `fill_with` writes for a value that BSON can hold, `from` gives back: the same value, its
    -- arrays with the same keys in the same order, however deep. Such a value has no double, no
    -- object but the two of the library, and in each array either the keys 0, 1, ... in order, or
    -- different names, without NUL bytes, that PHP takes as they are.
    pub from-element : {v : Value D} → Plain v → from php (element php v) ≡ v
    from-element p = Plain-back p
