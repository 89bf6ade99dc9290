-- ===== src/Db/Mysql/Where.antt =====
-- What the conditions and the marks of a statement come to.
use php_flame.Prelude.{
  has_prefix, ℕ, suc, ◌+◌, ◌<◌, ◌≤◌, ◌-◌, ◌⊎◌, leb, ◌≡◌, refl, Bool-cases, inl, inr, List, [], ◌∷◌,
  ◌++◌, arith, ◌==◌, if◌then◌else◌, Bytes, codes, map,
}
use php_flame.Db.Mysql.{Value, str, Outside, val_to_buffer}
use php_flame.Db.Mysql.Clauses.{
  sql, undefined, condition_item, condition, operator_of, starts_dollar,
}
use php_flame.Db.Mysql.Statements.{format, format_from}

-- A list's length, over any type.
abbrev pub count_of {ℓ} : {A : Type ℓ} → List A → ℕ
count_of [] = 0
count_of (x ∷ xs) = suc (count_of xs)

-- The number of question marks.
abbrev pub marks : Bytes → ℕ
marks [] = 0
marks (c ∷ rest) = let n = marks rest in if c == 63 then suc n else n

-- The text with each mark replaced by the next of the pieces.
abbrev pub filled : Bytes → List Bytes → Bytes
filled [] pieces = []
filled (c ∷ rest) [] = c ∷ filled rest []
filled (c ∷ rest) (piece ∷ pieces) =
    let used = filled rest pieces in
    let kept = filled rest (piece ∷ pieces) in if c == 63 then piece ++ used else c ∷ kept

module _ (outside : Outside) where
  abbrev pub pieces : List Value → List Bytes
  pieces params = map (val_to_buffer outside) params

  pub format_from-filled :
      (text : Bytes) (params : List Value)
      → marks text ≤ count_of params
      → format_from outside text params ≡ sql (filled text (pieces params))
  unfolding format_from
  format_from-filled [] params h = refl
  format_from-filled (c ∷ rest) [] h = elim (Bool-cases (c == 63)) [
    | inl e ↦ absurd (ground arith)
    | inr e ↦ rw e (rw (format_from-filled rest [] (ground arith)))
  ]
  format_from-filled (c ∷ rest) (v ∷ params) h = elim (Bool-cases (c == 63)) [
    | inl e ↦ rw e (rw (format_from-filled rest params (ground arith)))
    | inr e ↦ rw e (rw (format_from-filled rest (v ∷ params) (ground arith)))
  ]

  format_from-undefined :
      (text : Bytes) (params : List Value)
      → count_of params < marks text
      → format_from outside text params ≡ undefined
  unfolding format_from
  format_from-undefined [] params h = absurd (omega arith)
  format_from-undefined (c ∷ rest) [] h = elim (Bool-cases (c == 63)) [
    | inl e ↦ rw e refl
    | inr e ↦ rw e (rw (format_from-undefined rest [] (ground arith)))
  ]
  format_from-undefined (c ∷ rest) (v ∷ params) h = elim (Bool-cases (c == 63)) [
    | inl e ↦ rw e (rw (format_from-undefined rest params (ground arith)))
    | inr e ↦ rw e (rw (format_from-undefined rest (v ∷ params) (ground arith)))
  ]

-- `format` with at least as many arguments as its text has question marks gives the text with each
-- mark, in order, replaced by the SQL of the next argument; with fewer, it uses arguments that are
-- not there.
pub format-filled :
    (outside : Outside) (text : Bytes) (params : List Value)
    → ((n : ℕ) × (marks text + n ≡ count_of params)
        × (format outside (str text ∷ params) ≡ sql (filled text (pieces outside params))))
      ⊎ ((count_of params < marks text) × (format outside (str text ∷ params) ≡ undefined))
unfolding format
format-filled outside text params = elim (Bool-cases (leb (marks text) (count_of params))) [
  | inl e ↦ inl (
    count_of params - marks text,
    ground arith,
    format_from-filled outside text params (ground arith),
  )
  | inr e ↦ inr (ground arith, format_from-undefined outside text params (ground arith))
]

-- `$gte` and `$lte` are never reached: a key that begins with one of them is compared with `>` or
-- `<`, as `$gt` and `$lt` are, whatever follows in the key and whatever the value is.
pub gte_is_gt :
    (outside : Outside) (rest : Bytes) (v : Value)
    → (condition_item outside (codes "$gte" ++ rest) v ≡ condition_item outside (codes "$gt") v)
      × (condition_item outside (codes "$lte" ++ rest) v ≡ condition_item outside (codes "$lt") v)
unfolding condition_item operator_of starts_dollar has_prefix condition
gte_is_gt outside rest v = (refl, refl)
