-- ===== src/Cache.antt =====
-- cache/cache.go: a cache with expiry that is kept in a file and in a NATS bucket. The bucket and the
-- file system are outside: what they return is an argument, and `effects` records the calls, the last
-- one first. `Get` gives its read lock up before it takes the write lock: the function below is a call
-- with no other in between.
pub mod Expiry
pub mod Cleaning
mod Tests
use d_utils.Base.{
  String, string_key, ℕ, Bool, true, false, ◌&&◌, ◌||◌, not, List, [], ◌∷◌, Option, none, some,
  if◌then◌else◌, length, filter_by,
}
use d_utils.Base.Int.{ℤ, pos, ltb_ℤ, leb_ℤ, eqb_ℤ}
use d_utils.Base.Word.{sub64}
use d_utils.Base.GoTime.{Time, Duration, add, unix_nano}
use d_utils.Base.Dict.{Dict, lookup, insert, remove, keys}

pub record CacheItem {ℓ} (T : Type ℓ) : Type ℓ where
  pub value : T
  pub expiration : ℤ

-- `natsKV.Put`, `natsKV.Delete` and `flushToFileFunc`.
pub data Effect {ℓ} (T : Type ℓ) : Type ℓ where
  put : String → CacheItem T → Effect T
  delete_remote : String → Effect T
  flush : Effect T

pub record Cache {ℓ} (T : Type ℓ) : Type ℓ where
  pub items : Dict String (CacheItem T)
  pub default_ttl : Duration
  pub flush_immediately : Bool
  pub refresh_ttl_on_access : Bool
  pub has_nats : Bool
  pub effects : List (Effect T)

pub data Error {ℓ} (E : Type ℓ) : Type ℓ where
  not_found : Error E
  failed : E → Error E

-- The readings of the clock in `Get`: for the test, for the rest of the TTL, and for the new expiration.
pub record Readings : Type 0 where
  pub at_check : Time
  pub at_ttl : Time
  pub at_store : Time

-- `item.Expiration == 0 || time.Now().UnixNano() <= item.Expiration`
abbrev pub is_live {ℓ} : {T : Type ℓ} → CacheItem T → Time → Bool
is_live item now = eqb_ℤ item.expiration (pos 0) || leb_ℤ (unix_nano now) item.expiration

-- `expiration` of `Set`: the first of `ttl`, or the default; none if it is not positive.
unfoldable pub expiration_time : Duration → Option Duration → Time → ℤ
expiration_time default_ttl none now =
    if ltb_ℤ (pos 0) default_ttl then unix_nano (add now default_ttl) else pos 0
expiration_time default_ttl (some ttl) now =
    if ltb_ℤ (pos 0) ttl then unix_nano (add now ttl) else pos 0

-- The new expiration of a refresh.
unfoldable pub refreshed : Duration → ℤ → Readings → ℤ
refreshed default_ttl expiration r =
    let original_ttl = sub64 expiration (unix_nano r.at_ttl) in
    unix_nano (add r.at_store (if leb_ℤ original_ttl (pos 0) then default_ttl else original_ttl))

-- The error of a call that is made only under a condition.
abbrev pub fails {ℓ} : {E : Type ℓ} → Bool → Option E → Option E
fails happens result = if happens then result else none

abbrev pub failure_of {ℓ} : {E : Type ℓ} → Option E → Option (Error E)
failure_of none = none
failure_of (some e) = some (failed e)

module _ {ℓ} {T : Type ℓ} where
  abbrev pub log : Cache T → Bool → Effect T → Cache T
  log c happens e = if happens then record c { effects = e ∷ c.effects } else c

  abbrev pub put_in : Cache T → String → CacheItem T → Cache T
  put_in c key item = record c { items = insert key item c.items }

  -- The end of `Set` and `Edit`, with the results of the `Put` and of the flush: no flush follows a `Put`
  -- that fails.
  unfoldable pub store :
      {E : Type ℓ}
      → Cache T
      → String
      → CacheItem T
      → Option E
      → Option E
      → Cache T × Option (Error E)
  store c key item put_result flush_result =
      let c1 = log (put_in c key item) c.has_nats (put key item) in
      elim (fails c.has_nats put_result) [
        | some e ↦ (c1, some (failed e))
        | none ↦
            (log c1 c.flush_immediately flush, failure_of (fails c.flush_immediately flush_result))
      ]

  unfoldable pub set :
      {E : Type ℓ}
      → Cache T
      → String
      → T
      → Option Duration
      → Time
      → Option E
      → Option E
      → Cache T × Option (Error E)
  set c key v ttl now put_result flush_result =
      store c key (record { value = v; expiration = expiration_time c.default_ttl ttl now })
        put_result flush_result

  unfoldable pub edit :
      {E : Type ℓ} → Cache T → String → (T → T) → Option E → Option E → Cache T × Option (Error E)
  edit c key edit_func put_result flush_result = elim (lookup key c.items) [
    | none ↦ (c, some not_found)
    | some item ↦ store c key (record item { value = edit_func item.value }) put_result flush_result
  ]

  -- `Get` on a live item of the map; errors of the `Put` and of the flush are dropped.
  unfoldable pub get_local : Cache T → String → CacheItem T → Readings → Cache T
  get_local c key item r =
      let item' = record item { expiration = refreshed c.default_ttl item.expiration r } in
      if c.refresh_ttl_on_access && ltb_ℤ (pos 0) item.expiration
      then log (log (put_in c key item') c.has_nats (put key item')) c.flush_immediately flush
      else c

  -- `Get` on a live item of the bucket.
  unfoldable pub get_remote : Cache T → String → CacheItem T → Readings → Cache T
  get_remote c key item r =
      let item' = record item { expiration = refreshed c.default_ttl item.expiration r } in
      if c.refresh_ttl_on_access && ltb_ℤ (pos 0) item.expiration
      then put_in (log c true (put key item')) key item'
      else put_in c key item

  -- `Get` behind a miss: what the bucket has under the key and decodes, with the readings for it.
  unfoldable pub fetch : Cache T → String → Option (CacheItem T) → Readings → Cache T × Option T
  fetch c key none r = (c, none)
  fetch c key (some item) r =
      if c.has_nats && is_live item r.at_check
      then (get_remote c key item r, some item.value)
      else (c, none)

  unfoldable pub get :
      Cache T → String → Readings → Option (CacheItem T) → Readings → Cache T × Option T
  get c key r remote remote_r = elim (lookup key c.items) [
    | none ↦ fetch c key remote remote_r
    | some item ↦
        if is_live item r.at_check
        then (get_local c key item r, some item.value)
        else fetch c key remote remote_r
  ]

  unfoldable pub del : {E : Type ℓ} → Cache T → String → Option E → Cache T × Option E
  del c key result = (
    log (record c { items = remove key c.items }) c.has_nats (delete_remote key),
    fails c.has_nats result,
  )

  unfoldable pub len : Cache T → ℕ
  len c = length c.items

  unfoldable pub cache_keys : Cache T → List String
  cache_keys c = keys c.items

  -- `item.Expiration > 0 && time.Now().UnixNano() > item.Expiration`
  abbrev pub is_expired : CacheItem T → Time → Bool
  is_expired item now = ltb_ℤ (pos 0) item.expiration && ltb_ℤ item.expiration (unix_nano now)

  -- One round of `cleanup`; `now key` is the reading of the clock for the key.
  unfoldable pub cleanup : Cache T → (String → Time) → Cache T
  cleanup c now =
      log (record c { items = filter_by (λ e. not (is_expired e.1 (now e.0))) c.items })
        c.flush_immediately flush
