-- ===== src/Db/Redis/Patterns.antt =====
-- What psubscribe() leaves behind.
use php_flame.Prelude.{
  has_prefix, ℕ, ◌≡◌, refl, ◌∙◌, false, ◌&&◌, Option, none, some, List, [], ◌∷◌, ◌++◌, Bytes, codes,
  length, returns, if◌then◌else◌,
}
use php_flame.Db.Mysql.{Entries}
use php_flame.Db.Redis.{
  reply_string, reply_array, Replies, element, Php, until_nul, with_entry, convert_redis_reply,
  elements_from, get, same_key, does, undefined,
}
use php_flame.Db.Redis.Subscription.{
  Request, sends, Client, fetch, set, is_set, delete, with_request, send_key, unsubscribed,
  exec_request, psubscribe, stop_current, stop_all, pushed, cb_subscribe, at, or_null,
}
use php_flame.Db.Redis.Pushes.{IsPhp, fetch-set, fetch-new}

module _ (php : Php) (is_php : IsPhp php) where
  delete_lem :
      (p : ℕ) (r : Request) (c : Client)
      → fetch p c.store ≡ some r
      → delete p c ≡ does (record c { store = set p none c.store })
  unfolding delete with_request
  delete_lem p r c e = rw e

  delete_freed : (p : ℕ) (c : Client) → fetch p c.store ≡ none → delete p c ≡ undefined
  unfolding delete with_request
  delete_freed p c e = rw e

  freed_stop :
      (p : ℕ) (c : Client) → fetch p c.store ≡ none → stop_current 0 0 (some p) c ≡ undefined
  unfolding stop_current send_key
  freed_stop p c e = rw e

  -- A push of psubscribe(), whose type begins with a `p`, takes the last branch.
  p_type_lem :
      (p : ℕ) (word : Bytes) (rest : Replies) (m : Entries) (c : Client)
      → elements_from 1 rest ≡ some m
      → cb_subscribe php p (some (reply_array (element (reply_string (112 ∷ word)) rest))) c
        ≡ delete p c
  unfolding cb_subscribe pushed elements_from convert_redis_reply with_entry at get same_key or_null
      has_prefix until_nul is_set
  p_type_lem p word rest m c e =
      rw e (rw (is_php.to_string-str (112 ∷ until_nul word)) (split c.current))
    where
      split :
          (o : Option ℕ) → (if is_set o && false then unsubscribed p c else delete p c) ≡ delete p c
      split none = refl
      split (some q) = refl

  -- psubscribe(), with no subscription before it, and a push without an error whose type begins with
  -- a `p`, as all those for patterns do: the request is deleted, but still the current one. Then
  -- stop_all() and the next such push use memory that is freed, and the coroutine of psubscribe() has
  -- not been resumed.
  pub psubscribe-dangles :
      (unset co cb : ℕ) (patterns : List Bytes) (c : Client) (word : Bytes) (rest : Replies)
      (m : Entries)
      → c.current ≡ none
      → elements_from 1 rest ≡ some m
      → let p = length c.store in
        let push = reply_array (element (reply_string (112 ∷ word)) rest) in
        (d : Client) × (e : Client) × (psubscribe unset 0 co patterns (some cb) c ≡ returns d)
        × (cb_subscribe php p (some push) d ≡ does e)
        × (e.current ≡ some p)
        × (fetch p e.store ≡ none)
        × (e.effects ≡ c.effects ++ sends (codes "PSUBSCRIBE" ∷ patterns) ∷ [])
        × (stop_all 0 0 e ≡ undefined)
        × (cb_subscribe php p (some push) e ≡ undefined)
  unfolding psubscribe exec_request is_set stop_all
  psubscribe-dangles unset co cb patterns c word rest m idle converts =
      let p = length c.store in
      let r : Request = record { co = co; rv = unset; cb = cb; key = codes "UNPSUBSCRIBE" } in
      let new = fetch-new r c.store in
      let gone = fetch-set p r none (c.store ++ some r ∷ []) new in
      let d : Client = record {
        current = some p;
        store = c.store ++ some r ∷ [];
        effects = c.effects ++ sends (codes "PSUBSCRIBE" ∷ patterns) ∷ [];
      } in
      let e : Client = record d { store = set p none d.store } in
      (
        d,
        e,
        rw idle,
        p_type_lem p word rest m d converts ∙ delete_lem p r d new,
        refl,
        gone,
        refl,
        freed_stop p e gone,
        p_type_lem p word rest m e converts ∙ delete_freed p e gone,
      )
