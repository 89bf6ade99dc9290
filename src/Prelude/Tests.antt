-- ===== src/Prelude/Tests.antt =====
-- Boolean tests on the native numbers, and the conditional.
use Prim.Native.Nat.{ℕ, zero, suc, ◌+◌, ◌-◌, ◌<◌, ◌%◌, ◌/◌, ◌^◌, compare, Ordering}
use mathlib.Core.Path.{◌≡◌, refl}
use mathlib.Core.Logic.{◌↔◌, ◌⊎◌, inl, inr}
use mathlib.Core.Bool.{Bool, true, false, ◌&&◌}
use mathlib.Core.List.{List, [], ◌∷◌, map}
use mathlib.Core.Option.{Option, none, some}
use native.Mathlib.Omega.{arith}

abbrev pub ltb : ℕ → ℕ → Bool
ltb a b = elim (compare a b) [ Ordering.lt ↦ true | _ ↦ false ]

abbrev pub leb : ℕ → ℕ → Bool
leb a b = elim (compare a b) [ Ordering.gt ↦ false | _ ↦ true ]

infix 50 ◌==◌
abbrev pub ◌==◌ : ℕ → ℕ → Bool
a == b = elim (compare a b) [ Ordering.eq ↦ true | _ ↦ false ]

infix 1 if◌then◌else◌
abbrev pub if◌then◌else◌ {ℓ} : {A : Type ℓ} → Bool → A → A → A
if true then x else y = x
if false then x else y = y

pub ==_iff : (a b : ℕ) → ((a == b) ≡ true) ↔ (a ≡ b)
==_iff a b = ground arith

pub Bool-cases : (b : Bool) → (b ≡ true) ⊎ (b ≡ false)
Bool-cases true = inl refl
Bool-cases false = inr refl

pub Option-cases {ℓ} : {A : Type ℓ} (o : Option A) → (o ≡ none) ⊎ ((a : A) × (o ≡ some a))
Option-cases none = inl refl
Option-cases (some a) = inr (a, refl)

-- Bit `k` of a flag word.
abbrev pub has_bit : ℕ → ℕ → Bool
has_bit x k = x / 2 ^ k % 2 == 1

-- `x |= 1 << k`.
abbrev pub set_bit : ℕ → ℕ → ℕ
set_bit x k = if has_bit x k then x else x + 2 ^ k

-- A test of all numbers under a bound, by running it on each.
unfoldable pub passes_under : (ℕ → Bool) → ℕ → Bool
passes_under test zero = true
passes_under test (suc top) = if test top then passes_under test top else false

pub passes_under_each :
    (test : ℕ → Bool) (i bound : ℕ) → i < bound → passes_under test bound ≡ true → test i ≡ true
unfolding passes_under
passes_under_each test i zero below passed = absurd (omega arith)
passes_under_each test i (suc top) below passed = ground (arith, passes_under_each test i top)

pub some_inj {ℓ} : {A : Type ℓ} {x y : A} → some x ≡ some y → x ≡ y
some_inj e = cc

-- Equality of two byte strings.
unfoldable pub same : List ℕ → List ℕ → Bool
same [] [] = true
same (x ∷ xs) (y ∷ ys) = (x == y) && same xs ys
same _ _ = false

pub same_refl : (xs : List ℕ) → same xs xs ≡ true
unfolding same
same_refl [] = refl
same_refl (x ∷ xs) = rw ((==_iff x x).1 refl, same_refl xs)

pub same_eq : (xs ys : List ℕ) → same xs ys ≡ true → xs ≡ ys
unfolding same
same_eq [] [] e = refl
same_eq [] (y ∷ ys) e = cc
same_eq (x ∷ xs) [] e = cc
same_eq (x ∷ xs) (y ∷ ys) e = elim (Bool-cases (x == y)) [
  | inl z ↦ elim (Bool-cases (same xs ys)) [
    | inl t ↦ rw ((==_iff x y).0 z, same_eq xs ys t)
    | inr t ↦ let f : ((x == y) && same xs ys) ≡ false = rw (z, t) in cc (e, f)
  ]
  | inr z ↦ cc (e, z)
]

-- `std::strncmp(text, word, n) == 0`, for a word of `n` bytes.
unfoldable pub has_prefix : List ℕ → List ℕ → Bool
has_prefix [] text = true
has_prefix (x ∷ word) [] = false
has_prefix (x ∷ word) (y ∷ text) = (x == y) && has_prefix word text

-- `php::strtoupper_inplace`
unfoldable pub to_upper : ℕ → ℕ
to_upper c = if leb 97 c && leb c 122 then c - 32 else c

abbrev pub upper : List ℕ → List ℕ
upper s = map to_upper s

-- The first of two that is there.
unfoldable pub or_else {ℓ} : {A : Type ℓ} → Option A → Option A → Option A
or_else (some a) o = some a
or_else none o = o

pub or_else-none {ℓ} : {A : Type ℓ} (o : Option A) → or_else o none ≡ o
unfolding or_else
or_else-none none = refl
or_else-none (some a) = refl
