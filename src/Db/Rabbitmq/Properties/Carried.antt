-- ===== src/Db/Rabbitmq/Properties/Carried.antt =====
-- What the options of a message are to its consumer.
use php_flame.Prelude.{
  ℕ, ◌-◌, ◌%◌, ◌^◌, ◌≤◌, ◌<◌, ◌≡◌, refl, sym, ap, subst, ◌∙◌, Bool, true, false, some, List, [],
  ◌∷◌, map, Bytes, codes, ltb, arith,
}
use php_flame.Db.Mongodb.{long, array, Entries, none_left}
use php_flame.Db.Rabbitmq.{Php, convert_table, as_int64}
use php_flame.Db.Rabbitmq.Converted.{Fits, back_all, convert_table-reset}
use php_flame.Db.Rabbitmq.Properties.{
  at, if_string, wrapped, if_long, or_now, if_table, properties, Message, or_empty, or_zero,
  or_no_entries, with_headers, message_of, init_property,
}

-- The integers of 64 bits.
pub data InRange : Bool → ℕ → Type 0 where
  positive : {n : ℕ} → n < 2 ^ 63 → InRange false n
  negative : {n : ℕ} → 0 < n → n ≤ 2 ^ 63 → InRange true n

as_int64-wrapped :
    {sign : Bool} {n : ℕ} → InRange sign n → as_int64 (wrapped (2 ^ 64) sign n) ≡ long sign n
unfolding as_int64 wrapped
as_int64-wrapped {n = n} (positive small) =
    let e : n % 2 ^ 64 ≡ n = omega arith in
    subst (λ m. as_int64 m ≡ long false n) (sym e) (ground arith)
as_int64-wrapped {n = n} (negative above small) =
    let e : (2 ^ 64 - n % 2 ^ 64) % 2 ^ 64 ≡ 2 ^ 64 - n = omega arith in
    let f : 2 ^ 64 - (2 ^ 64 - n) ≡ n = omega arith in
    let g : ltb (2 ^ 64 - n) (2 ^ 63) ≡ false = ground arith in
    subst (λ m. as_int64 m ≡ long true n) (sym e) (rw g (ap (long true) f))

-- The strings of a message, and the names of the options that they come from. That of
-- `content_encoding` is cut off behind 12 bytes.
unfoldable pub strings : Message → List Bytes
strings m =
    m.content_type ∷ m.content_encoding ∷ m.correlation_id ∷ m.reply_to ∷ m.expiration
    ∷ m.message_id ∷ m.type ∷ m.user_id ∷ m.app_id ∷ m.cluster_id ∷ []

unfoldable pub names : List Bytes
names =
    codes "content_type"
    ∷ codes "content_enco"
    ∷ codes "correlation_id"
    ∷ codes "reply_to"
    ∷ codes "expiration"
    ∷ codes "message_id"
    ∷ codes "type"
    ∷ codes "user_id"
    ∷ codes "app_id"
    ∷ codes "cluster_id"
    ∷ []

-- What the options of `produce` say, the consumer's message has: under each name the string of the option, or none,
-- but for the content's encoding, which is that of the option "content_enco"; the headers, up to their
-- doubles; and the timestamp. The options have headers, under different names that PHP takes as they are,
-- with no null, array or object, and a timestamp of 64 bits.
pub init_property-properties :
    (php : Php) (now : ℕ) (options row : Entries ℕ) {sign : Bool} {n : ℕ}
    → at (codes "headers") options ≡ some (array row)
    → at (codes "timestamp") options ≡ some (long sign n)
    → Fits php none_left row
    → InRange sign n
    → (m : Message) × (init_property php (properties php now (some options)) ≡ some m)
      × (m.headers ≡ back_all php row)
      × (m.ts ≡ long sign n)
      × (strings m ≡ map (λ k. or_empty (if_string (at k options))) names)
unfolding init_property properties with_headers message_of or_no_entries or_zero or_now if_long
    if_table strings names
init_property-properties php now options row {sign} {n} e f good range =
    let p = properties php now (some options) in
    let converted : convert_table php (or_no_entries p.headers) none_left
        ≡ some (back_all php row) =
      ap (λ o. convert_table php (or_no_entries (if_table php o)) none_left) e
      ∙ convert_table-reset php good in
    let timed : as_int64 (or_zero p.timestamp) ≡ long sign n =
      ap (λ o. as_int64 (or_now now (if_long (2 ^ 64) o))) f ∙ as_int64-wrapped range in
    (message_of p (back_all php row), ap (with_headers p) converted, refl, timed, refl)
