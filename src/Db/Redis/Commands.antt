-- ===== src/Db/Redis/Commands.antt =====
-- src/flame/db/redis.cpp: the commands of a client and the callbacks of their replies.
use php_flame.Prelude.{
  has_prefix, upper, ℕ, zero, suc, true, false, ◌&&◌, Option, none, some, List, [], ◌∷◌, map, ltb,
  if◌then◌else◌, Bytes, codes, length, Outcome, returns, throws,
}
use php_flame.Db.Mysql.{Value, null, array, Entries, none_left}
use php_flame.Db.Redis.{
  Reply, reply_string, reply_status, reply_array, reply_error, Replies, no_element, element, Php,
  until_nul, convert_redis_reply, put, Answer, resumed, resumed_void, failed, Checked, does, aborts,
  undefined,
}

-- The callbacks that `__call` and `hmget` choose from.
pub data Callback : Type 0 where
  cb_default cb_assoc_keys cb_assoc_even : Callback

-- What a request sends and keeps: `argv`, `ctx->key`, and the callback.
pub record Command : Type 0 where
  pub argv : List Bytes
  pub key : List Bytes
  pub callback : Callback

-- `next` with the converted reply.
unfoldable pub next_with : Option Value → Checked Answer
next_with none = aborts
next_with (some v) = does (resumed v)

unfoldable pub default_reply : Option Reply → Checked Answer
default_reply none = does resumed_void
default_reply (some (reply_error s)) = does (failed (until_nul s) false 0)
default_reply (some r) = next_with (convert_redis_reply r)

abbrev pub illegal_reply : Answer
illegal_reply = failed (codes "ILLEGAL illegal reply") true 2

-- `key->str` with `key->len`; a reply of another type has none.
unfoldable pub text_of : Reply → Bytes
text_of (reply_string s) = s
text_of (reply_status s) = s
text_of (reply_error s) = s
text_of _ = []

unfoldable pub next_array : Checked Entries → Checked Answer
next_array (does row) = does (resumed (array row))
next_array aborts = aborts
next_array undefined = undefined

module _ (php : Php) where
  -- The loop of `cb_assoc_even`: an element without a partner is left.
  unfoldable pub even_loop : Replies → Entries → Checked Entries
  even_loop no_element rv = does rv
  even_loop (element key no_element) rv = does rv
  even_loop (element key (element r rest)) rv = elim (convert_redis_reply r) [
    | none ↦ aborts
    | some v ↦ even_loop rest (put (php.key_of (text_of key)) v rv)
  ]

  unfoldable pub assoc_even : Option Reply → Checked Answer
  assoc_even none = does (resumed null)
  assoc_even (some (reply_error s)) = does (failed (until_nul s) false 0)
  assoc_even (some (reply_array rs)) = next_array (even_loop rs none_left)
  assoc_even (some r) = does illegal_reply

  -- The loop of `cb_assoc_keys`: `ctx->key[i]` is out of range behind the last key.
  unfoldable pub keys_loop : List Bytes → Replies → Entries → Checked Entries
  keys_loop keys no_element rv = does rv
  keys_loop [] (element r rest) rv = undefined
  keys_loop (k ∷ keys) (element r rest) rv = elim (convert_redis_reply r) [
    | none ↦ aborts
    | some v ↦ keys_loop keys rest (put (php.key_of k) v rv)
  ]

  unfoldable pub assoc_keys : List Bytes → Option Reply → Checked Answer
  assoc_keys keys none = does (resumed null)
  assoc_keys keys (some (reply_error s)) = does (failed (until_nul s) false 0)
  assoc_keys keys (some (reply_array rs)) = next_array (keys_loop keys rs none_left)
  assoc_keys keys (some r) = does illegal_reply

  -- The reply of a request, handed to its callback.
  unfoldable pub reply_to : Command → Option Reply → Checked Answer
  reply_to c reply = elim c.callback [
    | cb_default ↦ default_reply reply
    | cb_assoc_keys ↦ assoc_keys c.key reply
    | cb_assoc_even ↦ assoc_even reply
  ]

-- The last argument, where there is more than one.
unfoldable pub last_of : List Bytes → Bytes
last_of [] = []
last_of (a ∷ []) = []
last_of (a ∷ b ∷ []) = b
last_of (a ∷ b ∷ rest) = last_of (b ∷ rest)

-- The tests of `__call`, on the name in capitals.
unfoldable pub chosen : Bytes → List Bytes → Callback
chosen name args =
    if has_prefix (codes "MGET") name
    then cb_assoc_keys
    else if has_prefix (codes "HGETALL") name
    then cb_assoc_even
    else if has_prefix (codes "Z") name
        && ltb 1 (length args)
        && has_prefix (codes "WITHSCORES") (upper (last_of args))
    then cb_assoc_even
    else cb_default

module _ (php : Php) where
  -- `__call` of PHP, and the one of C++ behind it.
  unfoldable pub call : Bytes → List Value → Command
  call name params =
      let args = map php.to_string params in
      record { argv = upper name ∷ args; key = args; callback = chosen (upper name) args }

  -- Its parameters are the name of the hash and the fields.
  unfoldable pub hmget : Value → List Value → Command
  hmget hash fields =
      let keys = map php.to_string fields in
      record {
        argv = codes "HMGET" ∷ php.to_string hash ∷ keys;
        key = keys;
        callback = cb_assoc_keys;
      }

-- `exec`, by the error of redisAsyncCommandArgv.
unfoldable pub exec : ℕ → Command → Outcome Command
exec zero c = returns c
exec (suc error) c = throws "UNKONWN failed to send command (disconnected ? subscribed ?)"
