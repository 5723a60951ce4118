-- ===== src/ApiCache/Cache.antt =====
-- apicache/apicache.go: the cache. A method that holds a lock throughout is one function from the state.
-- `GetOrFetch` reads the clock several times: the readings are arguments, in the order of the code. The
-- fetch function belongs to the caller; its result is an argument. The calls to the metrics library and
-- to the hook `onGet` are recorded in `effects`, the last one first.
pub mod Eviction
pub mod Bounds
use d_utils.Base.{
  String, string_key, ℕ, ◌*◌, Bool, true, false, ◌&&◌, List, [], ◌∷◌, ◌++◌, Option, none, some,
  if◌then◌else◌, length, leb, ltb, ◌==◌, not,
}
use d_utils.Base.Int.{ℤ, pos, leb_ℤ, ◌+ℤ◌, pos_part}
use d_utils.Base.Word.{add64}
use d_utils.Base.GoTime.{Time, Duration, add, before}
use d_utils.Base.Dict.{Dict, lookup, insert, remove}
use d_utils.ApiCache.Circuit.{
  CircuitBreaker, CircuitBreakerConfig, new_circuit_breaker, allow, success, failure,
}

pub record Item {ℓ} (T : Type ℓ) : Type ℓ where
  pub value : T
  pub created_at : Time
  pub expires_at : Time
  pub last_access : Time
  pub access_count : ℤ

pub data Effect : Type 0 where
  hit miss stale_serve in_flight_up in_flight_down fetch_error : Effect
  on_get : String → Effect

-- `Item.Value` of an entry is read by the hooks; the functions themselves are the caller's.
pub record Cache {ℓ} (T : Type ℓ) : Type ℓ where
  pub items : Dict String (Item T)
  -- the keys with a fetch in progress, with the time at which it started
  pub inflight : Dict String Time
  pub default_ttl : Duration
  pub stale_timeout : Duration
  pub max_items : ℤ
  pub persist_path : String
  pub circuit_breaker : Option CircuitBreaker
  pub has_metrics : Bool
  pub has_on_get : Bool
  pub effects : List Effect

pub record Options : Type 0 where
  pub default_ttl : Duration
  pub stale_timeout : Duration
  pub max_items : ℤ
  pub persist_path : String
  pub circuit_breaker : Option CircuitBreakerConfig
  pub metrics_namespace : String
  pub has_on_get : Bool

pub data Error {ℓ} (E : Type ℓ) : Type ℓ where
  invalid_ttl circuit_open : Error E
  -- an error of the fetch function, or of the file system and the decoder
  other : E → Error E

pub data Result {ℓ} (E A : Type ℓ) : Type ℓ where
  ok : A → Result E A
  fail : Error E → Result E A

abbrev pub emit : Bool → Effect → List Effect → List Effect
emit enabled e log = if enabled then e ∷ log else log

abbrev pub key_of : Option (String × Time) → String
key_of none = ""
key_of (some (k, t)) = k

module _ {ℓ} {T : Type ℓ} where
  -- `New`, up to the load from disk. `opts.StaleTimeout = opts.DefaultTTL * 2` wraps.
  unfoldable pub blank : Options → Cache T
  blank opts = record {
    items = [];
    inflight = [];
    default_ttl = opts.default_ttl;
    stale_timeout =
        if leb_ℤ opts.stale_timeout (pos 0)
        then add64 opts.default_ttl opts.default_ttl
        else opts.stale_timeout;
    max_items = if leb_ℤ opts.max_items (pos 0) then pos 10000 else opts.max_items;
    persist_path = opts.persist_path;
    circuit_breaker = elim opts.circuit_breaker [
      | none ↦ none
      | some config ↦ some (new_circuit_breaker config)
    ];
    has_metrics = not (opts.metrics_namespace == "");
    has_on_get = opts.has_on_get;
    effects = [];
  }

  -- `loadFromDisk`: what the file at the path decodes to, or the error of opening or decoding it; a
  -- file that is not there is no error.
  unfoldable pub load_from_disk :
      {E : Type ℓ} → Cache T → Option (Result E (Dict String (Item T))) → Result E (Cache T)
  load_from_disk c file = if c.persist_path == "" then ok c else elim file [
    | none ↦ ok c
    | some (ok items) ↦ ok (record c { items = items })
    | some (fail e) ↦ fail e
  ]

  unfoldable pub new :
      {E : Type ℓ} → Options → Option (Result E (Dict String (Item T))) → Result E (Cache T)
  new opts file =
      if leb_ℤ opts.default_ttl (pos 0) then fail invalid_ttl else load_from_disk (blank opts) file

  -- The loop of `evict`: the key with the least access time so far, and that time; `none` is `first`.
  unfoldable pub oldest : Dict String (Item T) → Option (String × Time) → Option (String × Time)
  oldest [] best = best
  oldest ((k, v) ∷ m) none = oldest m (some (k, v.last_access))
  oldest ((k, v) ∷ m) (some (j, t)) =
      oldest m (if before v.last_access t then some (k, v.last_access) else some (j, t))

  unfoldable pub evict : Dict String (Item T) → Dict String (Item T)
  evict items =
      let oldest_key = key_of (oldest items none) in
      if oldest_key == "" then items else remove oldest_key items

  -- `len(c.items) >= c.maxItems`
  abbrev pub is_full : Cache T → Bool
  is_full c = leb_ℤ c.max_items (pos (length c.items))

  unfoldable pub set : Cache T → String → T → Time → Cache T
  set c key v now = record c {
    items =
        insert key
          (record {
            value = v;
            created_at = now;
            expires_at = add now c.default_ttl;
            last_access = now;
            access_count = pos 0;
          })
          (if is_full c then evict c.items else c.items);
  }

  -- `get` writes the access time and count through the pointer that the map holds.
  unfoldable pub get : Cache T → String → Time → Cache T × Option (Item T)
  get c key now = elim (lookup key c.items) [
    | none ↦ (record c { effects = emit c.has_metrics miss c.effects }, none)
    | some item ↦
        let touched = record item {
          last_access = now;
          access_count = add64 item.access_count (pos 1);
        } in
        (
          record c {
            items = insert key touched c.items;
            effects = emit c.has_on_get (on_get key) (emit c.has_metrics hit c.effects);
          },
          some touched,
        )
  ]

  unfoldable pub invalidate : Cache T → String → Cache T
  invalidate c key = record c { items = remove key c.items }

  unfoldable pub clear : Cache T → Cache T
  clear c = record c { items = [] }

  -- `GetMetrics`
  unfoldable pub get_metrics : Cache T → ℕ × ℕ
  get_metrics c = (length c.items, length c.inflight)
