-- ===== src/Db/Redis/Values.antt =====
-- The values that stand for replies, and the replies that have none.
use php_flame.Prelude.{ℕ, suc, ◌≡◌, ◌↔◌, refl, Bool, true, false, ◌||◌, Option, none, some, Bytes}
use php_flame.Db.Mysql.{Key, index, Value, array, long, str, null, Entries, none_left, entry}
use php_flame.Db.Redis.{
  Reply, reply_integer, reply_string, reply_status, reply_array, reply_nil, reply_error, Replies,
  no_element, element, until_nul, with_entry, as_array, convert_redis_reply, elements_from,
}

-- An error somewhere in a reply.
unfoldable mutual
  pub has_error : Reply → Bool
  has_error (reply_error s) = true
  has_error (reply_array rs) = any_error rs
  has_error _ = false

  pub any_error : Replies → Bool
  any_error no_element = false
  any_error (element r rs) = has_error r || any_error rs

-- Converted, or not, as there is no error or one.
abbrev Converts {ℓ} : {A : Type ℓ} → Bool → Option A → Type ℓ
Converts true o = o ≡ none
Converts {A} false o = (a : A) × (o ≡ some a)

with_entry-Converts :
    (b c : Bool) (k : Key) (o : Option Value) (p : Option Entries)
    → Converts b o
    → Converts c p
    → Converts (b || c) (with_entry k o p)
unfolding with_entry
with_entry-Converts true c k o p e f = rw e
with_entry-Converts false true k o p (v, e) f = rw (e, f)
with_entry-Converts false false k o p (v, e) (m, f) = (entry k v m, rw (e, f))

as_array-Converts : (c : Bool) (p : Option Entries) → Converts c p → Converts c (as_array p)
unfolding as_array
as_array-Converts true p e = rw e
as_array-Converts false p (m, e) = (array m, rw e)

mutual
  unfolding has_error convert_redis_reply any_error elements_from

  convert-Converts : (r : Reply) → Converts (has_error r) (convert_redis_reply r)
  convert-Converts (reply_integer negative n) = (_, refl)
  convert-Converts (reply_string s) = (_, refl)
  convert-Converts (reply_status s) = (_, refl)
  convert-Converts (reply_array rs) =
      as_array-Converts (any_error rs) (elements_from 0 rs) (elements-Converts 0 rs)
  convert-Converts reply_nil = (_, refl)
  convert-Converts (reply_error s) = refl

  elements-Converts : (i : ℕ) (rs : Replies) → Converts (any_error rs) (elements_from i rs)
  elements-Converts i no_element = (_, refl)
  elements-Converts i (element r rs) =
      with_entry-Converts (has_error r) (any_error rs) (index i) (convert_redis_reply r)
        (elements_from (suc i) rs) (convert-Converts r) (elements-Converts (suc i) rs)

aborts_by : (b : Bool) (o : Option Value) → Converts b o → (o ≡ none) ↔ (b ≡ true)
aborts_by true o e = (λ n. refl, λ t. e)
aborts_by false o (v, e) = (λ n. absurd (cc (n, e)), λ t. absurd (cc t))

-- A reply makes convert_redis_reply abort exactly when an error stands in it, however deep.
pub convert-aborts : (r : Reply) → (convert_redis_reply r ≡ none) ↔ (has_error r ≡ true)
convert-aborts r = aborts_by (has_error r) (convert_redis_reply r) (convert-Converts r)

value_by : (b : Bool) (o : Option Value) → Converts b o → b ≡ false → (v : Value) × (o ≡ some v)
value_by true o e f = absurd (cc f)
value_by false o c f = c

pub value_of : (r : Reply) → has_error r ≡ false → (v : Value) × (convert_redis_reply r ≡ some v)
value_of r f = value_by (has_error r) (convert_redis_reply r) (convert-Converts r) f

-- The value that stands for a reply: a text is cut at its first NUL byte.
mutual
  pub data Stands : Reply → Value → Type 0 where
    of_integer : {negative : Bool} {n : ℕ} → Stands (reply_integer negative n) (long negative n)
    of_string : {s : Bytes} → Stands (reply_string s) (str (until_nul s))
    of_status : {s : Bytes} → Stands (reply_status s) (str (until_nul s))
    of_nil : Stands reply_nil null
    of_array :
        {rs : Replies} {row : Entries} → StandFrom 0 rs row → Stands (reply_array rs) (array row)

  pub data StandFrom : ℕ → Replies → Entries → Type 0 where
    of_none : {i : ℕ} → StandFrom i no_element none_left
    of_element :
        {i : ℕ} {r : Reply} {rs : Replies} {v : Value} {rest : Entries}
        → Stands r v
        → StandFrom (suc i) rs rest
        → StandFrom i (element r rs) (entry (index i) v rest)

-- A value that is there has a property.
abbrev pub Made {ℓ} : {A : Type ℓ} → (A → Type 0) → Option A → Type 0
Made P none = Unit {0}
Made P (some v) = P v

as_array-Stands :
    (rs : Replies) (o : Option Entries)
    → Made (StandFrom 0 rs) o
    → Made (Stands (reply_array rs)) (as_array o)
unfolding as_array
as_array-Stands rs none m = tt
as_array-Stands rs (some row) m = of_array m

with_entry-Stands :
    (i : ℕ) (r : Reply) (rs : Replies) (o : Option Value) (p : Option Entries)
    → Made (Stands r) o
    → Made (StandFrom (suc i) rs) p
    → Made (StandFrom i (element r rs)) (with_entry (index i) o p)
unfolding with_entry
with_entry-Stands i r rs none p m n = tt
with_entry-Stands i r rs (some v) none m n = tt
with_entry-Stands i r rs (some v) (some rest) m n = of_element m n

mutual
  unfolding convert_redis_reply elements_from

  pub convert-Stands : (r : Reply) → Made (Stands r) (convert_redis_reply r)
  convert-Stands (reply_integer negative n) = of_integer
  convert-Stands (reply_string s) = of_string
  convert-Stands (reply_status s) = of_status
  convert-Stands (reply_array rs) = as_array-Stands rs (elements_from 0 rs) (elements-Stands 0 rs)
  convert-Stands reply_nil = of_nil
  convert-Stands (reply_error s) = tt

  elements-Stands : (i : ℕ) (rs : Replies) → Made (StandFrom i rs) (elements_from i rs)
  elements-Stands i no_element = of_none
  elements-Stands i (element r rs) =
      with_entry-Stands i r rs (convert_redis_reply r) (elements_from (suc i) rs) (convert-Stands r)
        (elements-Stands (suc i) rs)
