-- ===== src/Db/Mysql/Literals.antt =====
-- Strings of PHP as literals of SQL.
use php_flame.Prelude.{
  ℕ, zero, suc, ◌<◌, ◌≡◌, refl, ap, ◌∙◌, Bool, true, false, ◌&&◌, Option, none, some, List, [], ◌∷◌,
  ◌++◌, append_assoc, arith, ◌==◌, if◌then◌else◌, Bytes, All,
}
use php_flame.Db.Mysql.{
  str, array, index, Entries, none_left, entry, Outside, val_to_buffer, items_to_buffer,
}
use php_flame.Db.Mysql.Where.{count_of}

-- `unquote` is the database's reader of the inside of a literal, up to its closing quote. What
-- mysql_real_escape_string gives for a text of the connection's character set, between quotes, it
-- reads as the text itself; binary data is not supported.
pub record Escapes (outside : Outside) (unquote : Bytes → Option (Bytes × Bytes))
    (IsText : Bytes → Type 0) : Type 0 where
  pub reads_back :
      (s rest : Bytes) → IsText s → unquote (outside.escape s ++ 39 ∷ rest) ≡ some (s, rest)

-- The elements of a PHP list.
abbrev pub list_of : ℕ → List Bytes → Entries
list_of n [] = none_left
list_of n (s ∷ strs) = entry (index n) (str s) (list_of (suc n) strs)

module _ (unquote : Bytes → Option (Bytes × Bytes)) where
  unfoldable pub add_to : Bytes → Option (List Bytes × Bytes) → Option (List Bytes × Bytes)
  add_to s none = none
  add_to s (some (strs, rest)) = some (s ∷ strs, rest)

  -- A row of literals: each behind its parenthesis or comma, and the closing parenthesis.
  unfoldable pub read_row : ℕ → ℕ → Bytes → Option (List Bytes × Bytes)
  read_row zero mark s = none
  read_row (suc k) mark [] = none
  read_row (suc k) mark (c ∷ []) = if c == 41 then some ([], []) else none
  read_row (suc k) mark (c ∷ q ∷ rest) =
      if c == 41
      then some ([], q ∷ rest)
      else if (c == mark) && (q == 39)
      then elim (unquote rest) [ none ↦ none | some (s, after) ↦ add_to s (read_row k 44 after) ]
      else none

  -- What a row begins with, or goes on with.
  abbrev mark_of : Bool → ℕ
  mark_of first = if first then 40 else 44

  read_row-end : (k mark : ℕ) (rest : Bytes) → read_row (suc k) mark (41 ∷ rest) ≡ some ([], rest)
  unfolding read_row
  read_row-end k mark [] = refl
  read_row-end k mark (c ∷ rest) = refl

  module _ (outside : Outside) (IsText : Bytes → Type 0) (is : Escapes outside unquote IsText) where
    read_row-cons :
        (k : ℕ) (first : Bool) (s more : Bytes)
        → IsText s
        → read_row (suc k) (mark_of first) (mark_of first ∷ 39 ∷ outside.escape s ++ 39 ∷ more)
          ≡ add_to s (read_row k 44 more)
    unfolding read_row
    read_row-cons k true s more t = rw (is.reads_back s more t)
    read_row-cons k false s more t = rw (is.reads_back s more t)

    read_row-items :
        (k n : ℕ) (first : Bool) (strs : List Bytes) (rest : Bytes)
        → count_of strs < k
        → All IsText strs
        → read_row k (mark_of first) (items_to_buffer outside first (list_of n strs) ++ 41 ∷ rest)
          ≡ some (strs, rest)
    unfolding val_to_buffer items_to_buffer add_to
    read_row-items zero n first strs rest h t = absurd (omega arith)
    read_row-items (suc k) n first [] rest h t = read_row-end k (mark_of first) rest
    read_row-items (suc k) n first (s ∷ strs) rest h t =
        let later = items_to_buffer outside false (list_of (suc n) strs) in
        let flat : (mark_of first ∷ 39 ∷ (outside.escape s ++ 39 ∷ []) ++ later) ++ 41 ∷ rest
            ≡ mark_of first ∷ 39 ∷ outside.escape s ++ 39 ∷ (later ++ 41 ∷ rest) =
          simp append_assoc in
        ap (read_row (suc k) (mark_of first)) flat
        ∙ read_row-cons k first s (later ++ 41 ∷ rest) t.0
        ∙ ap (add_to s) (read_row-items k (suc n) false strs rest (omega arith) t.1)

    -- A list of strings, as a row of an INSERT or of an IN, is read by the database as these strings, in
    -- order, and nothing else: none ends its literal early or reaches beyond it. The list is not
    -- empty, its strings are texts, not binary data, and a text that the connection escapes, put
    -- between quotes, is read back by the database's reader.
    pub read_row-val_to_buffer :
        (s : Bytes) (strs : List Bytes) (rest : Bytes)
        → All IsText (s ∷ strs)
        → read_row
            (suc (count_of (s ∷ strs)))
            40
            (val_to_buffer outside (array (list_of 0 (s ∷ strs))) ++ rest)
          ≡ some (s ∷ strs, rest)
    unfolding val_to_buffer
    read_row-val_to_buffer s strs rest t =
        ap (read_row (suc (count_of (s ∷ strs))) 40)
          (append_assoc (items_to_buffer outside true (list_of 0 (s ∷ strs))) (41 ∷ []) rest)
        ∙ read_row-items (suc (count_of (s ∷ strs))) 0 true (s ∷ strs) rest (omega arith) t
