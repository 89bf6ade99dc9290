-- ===== src/Db/Rabbitmq/Converted.antt =====
-- What a table gives back of the array that it was made of.
use php_flame.Prelude.{
  ℕ, ◌≡◌, refl, sym, ap, ◌∙◌, Bool, true, false, none, some, Bytes, if◌then◌else◌,
}
use php_flame.Db.Mysql.{name}
use php_flame.Db.Mongodb.{
  Value, undef, null, boolean, long, double, str, object_id, date_time, unknown_object, array,
  Entries, none_left, entry, put,
}
use php_flame.Db.Mongodb.Stored.{joined, lacks, joined-entry, put-lacks, joined_none}
use php_flame.Db.Rabbitmq.{Php, value_field, key_name, reset, convert, convert_table}

-- Whether `reset` has a kind for a value.
unfoldable pub has_kind : Value ℕ → Bool
has_kind (boolean b) = true
has_kind (long negative n) = true
has_kind (double bits) = true
has_kind (str s) = true
has_kind _ = false

module _ (php : Php) where
  -- The value that comes back: for a double, the one whose bits are those of the integer.
  unfoldable pub back : Value ℕ → Value ℕ
  back (double bits) = double (php.truncated bits)
  back v = v

  unfoldable pub back_all : Entries ℕ → Entries ℕ
  back_all none_left = none_left
  back_all (entry k v rest) = entry k (back v) (back_all rest)

  -- Each value comes back, or aborts.
  pub convert-value_field :
      (v : Value ℕ) → convert php (value_field php v) ≡ (if has_kind v then some (back v) else none)
  unfolding convert value_field has_kind back
  convert-value_field undef = refl
  convert-value_field null = refl
  convert-value_field (boolean b) = refl
  convert-value_field (long negative n) = refl
  convert-value_field (double bits) = refl
  convert-value_field (str s) = refl
  convert-value_field (object_id s) = refl
  convert-value_field (date_time negative n) = refl
  convert-value_field unknown_object = refl
  convert-value_field (array row) = refl

  -- The entries of an array, behind those that stand before: different names that PHP takes as
  -- they are, and values that `reset` has a kind for.
  pub data Fits : Entries ℕ → Entries ℕ → Type 0 where
    fits_end : {a : Entries ℕ} → Fits a none_left
    fits :
        {a : Entries ℕ} {s : Bytes} {v : Value ℕ} {rest : Entries ℕ}
        → php.key_of s ≡ name s
        → lacks (name s) a ≡ true
        → has_kind v ≡ true
        → Fits (joined a (entry (name s) (back v) none_left)) rest
        → Fits a (entry (name s) v rest)

  convert_table-behind :
      {a row : Entries ℕ}
      → Fits a row
      → convert_table php (reset php row) a ≡ some (joined a (back_all row))
  unfolding convert_table reset key_name back_all
  convert_table-behind {a} fits_end = ap some (sym (joined_none a))
  convert_table-behind {a} (fits {s = s} {v = v} {rest = rest} o l h f) =
      let e : convert php (value_field php v) ≡ some (back v) =
        convert-value_field v ∙ ap (λ b. if b then some (back v) else none) h in
      let p : put (php.key_of s) (back v) a ≡ joined a (entry (name s) (back v) none_left) =
        ap (λ k. put k (back v) a) o ∙ put-lacks (name s) (back v) a l in
      rw (e, p)
        (convert_table-behind f ∙ ap some (joined-entry a (back_all rest) (name s) (back v)))

  -- What a table is made of comes back from it: the names in their order, each with its value,
  -- but for a double the one whose 64 bits are those of the truncated number. The names are
  -- different, and such that PHP takes them as they are; no value is null, an array or an object.
  pub convert_table-reset :
      {row : Entries ℕ}
      → Fits none_left row
      → convert_table php (reset php row) none_left ≡ some (back_all row)
  unfolding joined
  convert_table-reset f = convert_table-behind f
