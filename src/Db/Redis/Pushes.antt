-- ===== src/Db/Redis/Pushes.antt =====
-- What a server pushes for subscribe(), and what one push does to a request.
use php_flame.Prelude.{
  ℕ, zero, suc, ◌+◌, ◌-◌, ◌%◌, ◌<◌, ◌≡◌, refl, subst, false, Option, none, some, List, [], ◌∷◌,
  ◌++◌, arith, Bytes, codes, length, ◌==◌,
}
use php_flame.Db.Mysql.{Value, str, index, Entries, entry, none_left}
use php_flame.Db.Redis.{
  Reply, reply_integer, reply_string, reply_array, no_element, element, Php, until_nul, get,
  same_key, resumed_void, does,
}
use php_flame.Db.Redis.Subscription.{
  Request, Effect, starts, answers, Client, fetch, set, finish, minus_one, with_request, count_down,
  unsubscribed, message, at, or_null,
}

-- PHP's string of a string is that string.
pub record IsPhp (php : Php) : Type 0 where
  pub to_string-str : (s : Bytes) → php.to_string (str s) ≡ s

-- What a server pushes for SUBSCRIBE: a channel is joined, a message has come, a channel is left.
pub data Push : Type 0 where
  joins : Bytes → ℕ → Push
  came : Bytes → Bytes → Push
  leaves : Bytes → ℕ → Push

-- Three elements.
abbrev pub triple : Bytes → Reply → Reply → Reply
triple word r s = reply_array (element (reply_string word) (element r (element s no_element)))

unfoldable pub reply_of : Push → Reply
reply_of (joins channel n) =
    triple (codes "subscribe") (reply_string channel) (reply_integer false n)
reply_of (came channel text) = triple (codes "message") (reply_string channel) (reply_string text)
reply_of (leaves channel n) =
    triple (codes "unsubscribe") (reply_string channel) (reply_integer false n)

unfoldable pub replies_of : List Push → List Reply
replies_of [] = []
replies_of (x ∷ pushes) = reply_of x ∷ replies_of pushes

-- How many channels were left.
unfoldable pub left : List Push → ℕ
left [] = 0
left (leaves channel n ∷ pushes) = suc (left pushes)
left (_ ∷ pushes) = left pushes

-- The coroutines of the messages, in order.
unfoldable pub started : ℕ → List Push → List Effect
started cb [] = []
started cb (came channel text ∷ pushes) =
    starts cb (str (until_nul channel)) (str (until_nul text)) ∷ started cb pushes
started cb (_ ∷ pushes) = started cb pushes

-- A request in progress, the count of the channels that are not left yet.
pub record InProgress (p : ℕ) (r : Request) (count : ℕ) (c : Client) : Type 0 where
  pub is_current : c.current ≡ some p
  pub stored : fetch p c.store ≡ some (record r { rv = count })

pub fetch-set :
    (p : ℕ) (r : Request) (o : Option Request) (store : List (Option Request))
    → fetch p store ≡ some r
    → fetch p (set p o store) ≡ o
unfolding fetch set
fetch-set p r o [] e = cc e
fetch-set zero r o (x ∷ store) e = refl
fetch-set (suc p) r o (x ∷ store) e = fetch-set p r o store e

pub fetch-new :
    (r : Request) (store : List (Option Request))
    → fetch (length store) (store ++ some r ∷ []) ≡ some r
unfolding fetch
fetch-new r [] = refl
fetch-new r (x ∷ store) = fetch-new r store

pub uncounted :
    {p : ℕ} {r : Request} {count : ℕ} {c : Client}
    → InProgress p r count c
    → InProgress p r (count - 0) c
uncounted {p} {r} {count} {c} i =
    let e : count ≡ count - 0 = omega arith in subst (λ n. InProgress p r n c) e i

abbrev pub row : Bytes → Value → Value → Entries
row word v w = entry (index 0) (str word) (entry (index 1) v (entry (index 2) w none_left))

pub message_lem :
    (p : ℕ) (r : Request) (count : ℕ) (channel text : Bytes) (c : Client)
    → fetch p c.store ≡ some (record r { rv = count })
    → message p (row (codes "message") (str (until_nul channel)) (str (until_nul text))) c
      ≡ does (record c {
        effects = c.effects ++ starts r.cb (str (until_nul channel)) (str (until_nul text)) ∷ [];
      })
unfolding message at or_null get same_key with_request
message_lem p r count channel text c e = rw e

pub unsubscribed_lem :
    (p : ℕ) (r : Request) (count : ℕ) (c : Client)
    → fetch p c.store ≡ some (record r { rv = count })
    → 1 < count
    → count < 4294967296
    → unsubscribed p c
      ≡ does (record c { store = set p (some (record r { rv = count - 1 })) c.store })
unfolding unsubscribed count_down minus_one
unsubscribed_lem p r count c e more small =
    let one_less : (count + 4294967295) % 4294967296 ≡ count - 1 = omega arith in
    let others : ((count - 1) == 0) ≡ false = ground arith in rw e (rw one_less (rw others))

pub unsubscribed_last :
    (p : ℕ) (r : Request) (c : Client)
    → fetch p c.store ≡ some (record r { rv = 1 })
    → unsubscribed p c
      ≡ does (record {
        current = none;
        store = set p none c.store;
        effects = c.effects ++ answers r.co resumed_void ∷ [];
      })
unfolding unsubscribed count_down minus_one finish with_request
unsubscribed_last p r c e = rw e (rw e)
