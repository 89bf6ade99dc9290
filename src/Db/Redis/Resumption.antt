-- ===== src/Db/Redis/Resumption.antt =====
-- A subscription from subscribe() to the last unsubscribe.
use php_flame.Prelude.{
  has_prefix, ℕ, suc, ◌+◌, ◌-◌, ◌%◌, ◌<◌, ◌≡◌, refl, sym, ap, subst, ◌∙◌, none, some, List, [], ◌∷◌,
  ◌++◌, append-nil, append_assoc, arith, Bytes, codes, length, returns,
}
use php_flame.Db.Mysql.{str}
use php_flame.Db.Redis.{
  Php, until_nul, with_entry, convert_redis_reply, elements_from, get, same_key, resumed_void, does,
}
use php_flame.Db.Redis.Subscription.{
  Request, starts, answers, sends, Client, fetch, set, is_set, minus_one, unsubscribed, message,
  exec_request, subscribe, pushed, cb_subscribe, receive, at, or_null,
}
use php_flame.Db.Redis.Pushes.{
  Push, reply_of, replies_of, left, started, fetch-set, fetch-new, uncounted, row, message_lem,
  unsubscribed_lem, unsubscribed_last, IsPhp, InProgress, joins, came, leaves,
}

module _ (php : Php) (is_php : IsPhp php) where
  came_lem :
      (channel text : Bytes) (p : ℕ) (c : Client)
      → cb_subscribe php p (some (reply_of (came channel text))) c
        ≡ message p (row (codes "message") (str (until_nul channel)) (str (until_nul text))) c
  unfolding cb_subscribe pushed reply_of elements_from convert_redis_reply with_entry at get
      same_key or_null has_prefix until_nul
  came_lem channel text p c = rw (is_php.to_string-str (codes "message"))

  leaves_lem :
      (channel : Bytes) (n p : ℕ) (c : Client)
      → c.current ≡ some p
      → cb_subscribe php p (some (reply_of (leaves channel n))) c ≡ unsubscribed p c
  unfolding cb_subscribe pushed reply_of elements_from convert_redis_reply with_entry at get
      same_key or_null has_prefix until_nul is_set
  leaves_lem channel n p c e = rw (is_php.to_string-str (codes "unsubscribe")) (rw e)

  -- What a push other than the last leave does to a request in progress.
  abbrev Goes : ℕ → Request → ℕ → Client → Push → Type 0
  Goes p r count c x =
      (d : Client) × (cb_subscribe php p (some (reply_of x)) c ≡ does d)
      × InProgress p r (count - left (x ∷ [])) d
      × (d.effects ≡ c.effects ++ started r.cb (x ∷ []))

  push-Goes :
      (x : Push) (p : ℕ) (r : Request) (count : ℕ) (c : Client)
      → InProgress p r count c
      → left (x ∷ []) < count
      → count < 4294967296
      → Goes p r count c x
  unfolding cb_subscribe pushed reply_of elements_from convert_redis_reply with_entry until_nul at
      get same_key or_null left started has_prefix is_set unsubscribed minus_one message
  push-Goes (joins channel n) p r count c i more small =
      (c, rw (is_php.to_string-str (codes "subscribe")), uncounted i, sym (append-nil c.effects))
  push-Goes (came channel text) p r count c i more small = (
    record c {
      effects = c.effects ++ starts r.cb (str (until_nul channel)) (str (until_nul text)) ∷ [];
    },
    came_lem channel text p c ∙ message_lem p r count channel text c i.stored,
    uncounted (record { is_current = i.is_current; stored = i.stored }),
    refl,
  )
  push-Goes (leaves channel n) p r count c i more small = (
    record c { store = set p (some (record r { rv = count - 1 })) c.store },
    leaves_lem channel n p c i.is_current ∙ unsubscribed_lem p r count c i.stored more small,
    record {
      is_current = i.is_current;
      stored =
          fetch-set p (record r { rv = count }) (some (record r { rv = count - 1 })) c.store
            i.stored;
    },
    sym (append-nil c.effects),
  )

  left-cons : (x : Push) (pushes : List Push) → left (x ∷ pushes) ≡ left (x ∷ []) + left pushes
  unfolding left
  left-cons (joins channel n) pushes = omega arith
  left-cons (came channel text) pushes = omega arith
  left-cons (leaves channel n) pushes = omega arith

  started-cons :
      (cb : ℕ) (x : Push) (pushes : List Push)
      → started cb (x ∷ pushes) ≡ started cb (x ∷ []) ++ started cb pushes
  unfolding started
  started-cons cb (joins channel n) pushes = refl
  started-cons cb (came channel text) pushes = refl
  started-cons cb (leaves channel n) pushes = refl

  -- The pushes before the last channel is left: the subscription goes on, and each message has
  -- started a coroutine, in order.
  receive-InProgress :
      (pushes : List Push) (p : ℕ) (r : Request) (count : ℕ) (c : Client)
      → InProgress p r count c
      → left pushes < count
      → count < 4294967296
      → (d : Client) × (receive php p (replies_of pushes) c ≡ does d)
        × InProgress p r (count - left pushes) d
        × (d.effects ≡ c.effects ++ started r.cb pushes)
  unfolding receive replies_of
  receive-InProgress [] p r count c i more small =
      unfold left started in (c, refl, uncounted i, sym (append-nil c.effects))
  receive-InProgress (x ∷ pushes) p r count c i more small =
      let total = left-cons x pushes in
      let (d, goes, j, effects) = push-Goes x p r count c i (omega (arith, total)) small in
      let (e, rest, k, later) =
        receive-InProgress pushes p r (count - left (x ∷ [])) d j (omega (arith, total))
          (omega arith) in
      let counted : count - left (x ∷ []) - left pushes ≡ count - left (x ∷ pushes) =
        omega (arith, total) in
      (
        e,
        rw (goes, receive) rest,
        subst (λ n. InProgress p r n e) counted k,
        later
            ∙ ap (λ l. l ++ started r.cb pushes) effects
            ∙ append_assoc c.effects (started r.cb (x ∷ [])) (started r.cb pushes)
            ∙ ap (λ l. c.effects ++ l) (sym (started-cons r.cb x pushes)),
      )

  -- subscribe() to `n` channels (at least one, fewer than 2^32), with no subscription before it. For
  -- any pushes in which one channel fewer than these is left: the subscription goes on, and each
  -- message has started a coroutine on the callable, in order, with its channel and its text up to a
  -- NUL byte. The next channel that is left resumes the coroutine of subscribe(), once, deletes the
  -- request and ends the subscription.
  pub subscribe-resumes :
      (co cb : ℕ) (channels : List Bytes) (c : Client) (pushes : List Push) (last : Bytes) (n : ℕ)
      → c.current ≡ none
      → length channels ≡ suc (left pushes)
      → length channels < 4294967296
      → (d : Client) × (e : Client) × (f : Client) × (subscribe 0 co channels (some cb) c
          ≡ returns d)
        × (receive php (length c.store) (replies_of pushes) d ≡ does e)
        × (e.current ≡ some (length c.store))
        × (e.effects
            ≡ (c.effects ++ sends (codes "SUBSCRIBE" ∷ channels) ∷ []) ++ started cb pushes)
        × (cb_subscribe php (length c.store) (some (reply_of (leaves last n))) e ≡ does f)
        × (f.current ≡ none)
        × (fetch (length c.store) f.store ≡ none)
        × (f.effects ≡ e.effects ++ answers co resumed_void ∷ [])
  subscribe-resumes co cb channels c pushes last n idle size small =
      let p = length c.store in
      let r : Request = record {
        co = co;
        rv = length channels % 4294967296;
        cb = cb;
        key = codes "UNSUBSCRIBE";
      } in
      let kept : length channels % 4294967296 ≡ length channels = omega arith in
      let d : Client = record {
        current = some p;
        store = c.store ++ some r ∷ [];
        effects = c.effects ++ sends (codes "SUBSCRIBE" ∷ channels) ∷ [];
      } in
      let i : InProgress p r (length channels) d = record {
        is_current = refl;
        stored = fetch-new r c.store ∙ ap (λ m. some (record r { rv = m })) kept;
      } in
      let (e, goes, j, effects) =
        receive-InProgress pushes p r (length channels) d i (omega (arith, size)) small in
      let one : length channels - left pushes ≡ 1 = omega (arith, size) in
      let stored : fetch p e.store ≡ some (record r { rv = 1 }) =
        j.stored ∙ ap (λ m. some (record r { rv = m })) one in
      (
        d,
        e,
        _,
        unfold subscribe exec_request is_set in rw idle,
        goes,
        j.is_current,
        effects,
        leaves_lem last n p e j.is_current ∙ unsubscribed_last p r e stored,
        refl,
        fetch-set p (record r { rv = 1 }) none e.store stored,
        refl,
      )
