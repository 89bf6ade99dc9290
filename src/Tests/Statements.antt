-- ===== src/Tests/Statements.antt =====
-- src/flame/db/mysql: statements with a quote in a string.
use php_flame.Prelude.{
  ltb, All, has_prefix, ℕ, ◌≡◌, ◌<◌, ◌+◌, ◌⊎◌, refl, Bool, true, false, ◌||◌, Option, none, some,
  [], ◌∷◌, ◌++◌, ◌==◌, if◌then◌else◌, Bytes, codes, Bool-cases, inl, inr,
}
use php_flame.Db.Mysql.{
  str, null, array, none_left, entry, name, Outside, val_to_buffer, quoted, key_text,
}
use php_flame.Db.Mysql.Clauses.{
  sql, undefined, conditions, condition, operator_of, starts_dollar, has_zero, sql_where,
}
use php_flame.Db.Mysql.Statements.{format, remove, tail}
use php_flame.Db.Mysql.Where.{filled, pieces, format-filled}
use php_flame.Db.Mysql.Literals.{Escapes, list_of, read_row, read_row-val_to_buffer}

-- A backslash before each quote and each backslash.
escape : Bytes → Bytes
escape [] = []
escape (c ∷ s) = let rest = escape s in if (c == 39) || (c == 92) then 92 ∷ c ∷ rest else c ∷ rest

push : ℕ → Option (Bytes × Bytes) → Option (Bytes × Bytes)
push c none = none
push c (some (s, rest)) = some (c ∷ s, rest)

unquote_in : Bool → Bytes → Option (Bytes × Bytes)
unquote_in escaped [] = none
unquote_in true (c ∷ rest) = push c (unquote_in false rest)
unquote_in false (c ∷ rest) =
    let kept = push c (unquote_in false rest) in
    let after = unquote_in true rest in
    if c == 39 then some ([], rest) else if c == 92 then after else kept

abbrev outside : Outside
outside = record { escape = escape; to_long = λ v. (false, 0); to_string = λ v. [] }

escape-unquote : (s rest : Bytes) → unquote_in false (escape s ++ 39 ∷ rest) ≡ some (s, rest)
unfolding escape unquote_in push
escape-unquote [] rest = refl
escape-unquote (c ∷ s) rest = elim (Bool-cases (c == 39)) [
  | inl q ↦ rw q (rw (escape-unquote s rest))
  | inr q ↦ elim (Bool-cases (c == 92)) [
    | inl b ↦ rw (q, b) (rw (escape-unquote s rest))
    | inr b ↦ rw (q, b) (rw (q, b, escape-unquote s rest))
  ]
]

-- Texts of ASCII.
abbrev IsAscii : Bytes → Type 0
IsAscii s = All (λ c. ltb c 128 ≡ true) s

outside-Escapes : Escapes outside (unquote_in false) IsAscii
outside-Escapes = record { reads_back = λ s rest t. escape-unquote s rest }

read_row-val_to_buffer_example :
    read_row
      (unquote_in false)
      3
      40
      (val_to_buffer outside (array (list_of 0 (codes "it's" ∷ codes "x" ∷ []))) ++ codes ";")
    ≡ some (codes "it's" ∷ codes "x" ∷ [], codes ";")
read_row-val_to_buffer_example =
    read_row-val_to_buffer (unquote_in false) outside IsAscii outside-Escapes (codes "it's")
      (codes "x" ∷ []) (codes ";") ((refl, (refl, (refl, (refl, tt)))), ((refl, tt), tt))

format-filled_example :
    ((n : ℕ) × (1 + n ≡ 1)
      × (format outside (str (codes "id=?") ∷ str (codes "a") ∷ [])
          ≡ sql (filled (codes "id=?") (pieces outside (str (codes "a") ∷ [])))))
    ⊎ ((1 < 1) × (format outside (str (codes "id=?") ∷ str (codes "a") ∷ []) ≡ undefined))
format-filled_example = format-filled outside (codes "id=?") (str (codes "a") ∷ [])

removed :
    remove outside (
      str (codes "t")
      ∷ array (entry (name (codes "a")) (str (codes "b")) (entry (name (codes "c")) null none_left))
      ∷ [])
    ≡ sql (codes "DELETE FROM `t` WHERE `a`='b' AND `c`IS NULL")
unfolding remove tail sql_where conditions condition operator_of starts_dollar has_prefix has_zero
    quoted val_to_buffer key_text escape
removed = refl
