-- ===== src/Db/Redis.antt =====
-- src/flame/db/redis.cpp: the replies of a server as PHP values, here with the PHP arrays that the
-- callbacks fill; the commands and their callbacks in Redis/Commands, what these make of a reply in
-- Redis/Pairs; subscriptions in Redis/Subscription, Redis/Pushes,
-- Redis/Resumption and Redis/Patterns; the connection in Redis/Link,
-- Redis/Reconnect and Redis/Refusal. hiredis calls the callbacks; PHP's conversions are the parameter `Php`.
pub mod Commands
pub mod Values
pub mod Pairs
pub mod Subscription
pub mod Pushes
pub mod Resumption
pub mod Patterns
pub mod Link
pub mod Reconnect
pub mod Refusal
use php_flame.Prelude.{
  ℕ, suc, ◌≡◌, refl, sym, subst, Bool, true, false, ◌||◌, Option, none, some, List, [], ◌∷◌, ◌==◌,
  if◌then◌else◌, Bytes, same, same_refl, same_eq, ==_iff, Bool-cases, inl, inr,
}
use php_flame.Db.Mysql.{Key, index, name, Value, null, long, str, array, Entries, none_left, entry}

-- redisReply, by its type. The integer has its sign, `true` below 0, and its magnitude.
mutual
  pub data Reply : Type 0 where
    reply_integer : Bool → ℕ → Reply
    reply_string : Bytes → Reply
    reply_status : Bytes → Reply
    reply_array : Replies → Reply
    reply_nil : Reply
    reply_error : Bytes → Reply

  pub data Replies : Type 0 where
    no_element : Replies
    element : Reply → Replies → Replies

-- PHP's conversion to a string, and the key that an array has for a string.
pub record Php : Type 0 where
  pub to_string : Value → Bytes
  pub key_of : Bytes → Key

-- What php::string takes of a C string.
unfoldable pub until_nul : Bytes → Bytes
until_nul [] = []
until_nul (c ∷ s) = let rest = until_nul s in if c == 0 then [] else c ∷ rest

-- An element of the array, where both its value and the elements behind it are made.
unfoldable pub with_entry : Key → Option Value → Option Entries → Option Entries
with_entry k (some v) (some rest) = some (entry k v rest)
with_entry k _ _ = none

unfoldable pub as_array : Option Entries → Option Value
as_array none = none
as_array (some row) = some (array row)

-- `none` is the assertion that fails.
unfoldable mutual
  pub convert_redis_reply : Reply → Option Value
  convert_redis_reply (reply_integer negative n) = some (long negative n)
  convert_redis_reply (reply_string s) = some (str (until_nul s))
  convert_redis_reply (reply_status s) = some (str (until_nul s))
  convert_redis_reply (reply_array rs) = as_array (elements_from 0 rs)
  convert_redis_reply reply_nil = some null
  convert_redis_reply (reply_error s) = none

  pub elements_from : ℕ → Replies → Option Entries
  elements_from i no_element = some none_left
  elements_from i (element r rs) =
      with_entry (index i) (convert_redis_reply r) (elements_from (suc i) rs)

unfoldable pub same_key : Key → Key → Bool
same_key (index m) (index n) = m == n
same_key (name s) (name t) = same s t
same_key _ _ = false

-- `rv[k] = v` of a PHP array.
unfoldable pub put : Key → Value → Entries → Entries
put k v none_left = entry k v none_left
put k v (entry j w rest) =
    let later = put k v rest in if same_key k j then entry j v rest else entry j w later

-- `rv[k]`, where it is set.
unfoldable pub get : Key → Entries → Option Value
get k none_left = none
get k (entry j w rest) = let later = get k rest in if same_key k j then some w else later

-- How a callback resumes the coroutine of its request: `next(rv)`, `next()`, `fail(e, code)`, the
-- code with its sign.
pub data Answer : Type 0 where
  resumed : Value → Answer
  resumed_void : Answer
  failed : Bytes → Bool → ℕ → Answer

-- `aborts` is an assertion that fails, `undefined` the use of memory that is not the program's.
pub data Checked (A : Type 0) : Type 0 where
  does : A → Checked A
  aborts : Checked A
  undefined : Checked A

pub same_key_refl : (k : Key) → same_key k k ≡ true
unfolding same_key
same_key_refl (index n) = (==_iff n n).1 refl
same_key_refl (name s) = same_refl s

pub same_key_eq : (j k : Key) → same_key j k ≡ true → j ≡ k
unfolding same_key
same_key_eq (index m) (index n) e = rw ((==_iff m n).0 e)
same_key_eq (index m) (name t) e = cc
same_key_eq (name s) (index n) e = cc
same_key_eq (name s) (name t) e = rw (same_eq s t e)

get-put_same : (k : Key) (v : Value) (m : Entries) → get k (put k v m) ≡ some v
unfolding get put
get-put_same k v none_left = rw (same_key_refl k)
get-put_same k v (entry j w rest) = elim (Bool-cases (same_key k j)) [
  | inl e ↦ rw (e, e)
  | inr e ↦ rw (e, e, get-put_same k v rest)
]

get-put_other :
    (k j : Key) (v : Value) (m : Entries) → same_key k j ≡ false → get k (put j v m) ≡ get k m
unfolding get put
get-put_other k j v none_left other = rw other
get-put_other k j v (entry i w rest) other = elim (Bool-cases (same_key j i)) [
  | inl e ↦
      let not_here : same_key k i ≡ false =
        subst (λ x. same_key k x ≡ false) (same_key_eq j i e) other in
      rw (e, not_here)
  | inr e ↦ rw e (rw (get-put_other k j v rest other))
]

-- An array after an assignment.
pub get-put :
    (k j : Key) (v : Value) (m : Entries)
    → get k (put j v m) ≡ (if same_key k j then some v else get k m)
get-put k j v m = elim (Bool-cases (same_key k j)) [
  | inl e ↦
      rw e (subst (λ x. get x (put j v m) ≡ some v) (sym (same_key_eq k j e)) (get-put_same j v m))
  | inr e ↦ rw (e, get-put_other k j v m e)
]
