-- ===== src/ApiCache/Fetch.antt =====
-- apicache/apicache.go: `GetOrFetch`, the coalescing of fetches, `refresh`, and the batch calls. Locks
-- are given up between the parts below, and the fetch runs outside them all: other calls may come
-- between, so each part is a function of its own.
pub mod Coalescing
pub mod Consult
pub mod Replies
pub mod Batch
pub mod Coherence
use d_utils.Base.{
  String, string_key, Bool, true, false, List, [], ◌∷◌, ◌++◌, Option, none, some, if◌then◌else◌,
}
use d_utils.Base.GoTime.{Time, add, before}
use d_utils.Base.Dict.{Dict, lookup, insert, remove}
use d_utils.ApiCache.Circuit.{CircuitBreaker, allow, success, failure}
use d_utils.ApiCache.Cache.{
  Cache, Item, Error, circuit_open, Result, ok, fail, stale_serve, in_flight_up, in_flight_down,
  fetch_error, emit, get, set,
}

-- The readings of the clock in the first part of `GetOrFetch`, in order.
pub record Readings : Type 0 where
  pub at_check : Time
  pub at_promote : Time
  pub at_get : Time
  pub at_fresh : Time
  pub at_stale : Time

-- What the first part of `GetOrFetch` decides.
pub data Decision {ℓ} (T : Type ℓ) : Type ℓ where
  rejected must_fetch : Decision T
  fresh : T → Decision T
  -- the value is returned, and a `refresh` starts in the background
  stale : T → Decision T

-- A caller leads a fetch, or joins one in progress and gets its result.
pub data Role : Type 0 where
  lead join : Role

abbrev pub admit_by : Option CircuitBreaker → Time → Time → Option CircuitBreaker × Bool
admit_by none now later = (none, true)
admit_by (some cb) now later = let (cb', allowed) = allow cb now later in (some cb', allowed)

abbrev pub report :
    (CircuitBreaker → Time → CircuitBreaker) → Option CircuitBreaker → Time → Option CircuitBreaker
report f none now = none
report f (some cb) now = some (f cb now)

-- One key of a batch, with the readings of its `get` and of its check.
pub record BatchKey : Type 0 where
  pub key : String
  pub at_get : Time
  pub at_check : Time

-- The state of the first loop of `BatchGetOrFetch`.
pub record Progress {ℓ} (T : Type ℓ) : Type ℓ where
  pub cache : Cache T
  pub result : Dict String T
  pub missing : List String

module _ {ℓ} {T : Type ℓ} where
  -- The age of an item that was found.
  unfoldable pub judge : Cache T → Item T → Readings → Cache T × Decision T
  judge c item r =
      if before r.at_fresh item.expires_at
      then (c, fresh item.value)
      else if before r.at_stale (add item.expires_at c.stale_timeout)
      then (record c { effects = emit c.has_metrics stale_serve c.effects }, stale item.value)
      else (c, must_fetch)

  -- `GetOrFetch` up to the call of `fetchWithCoalescing`.
  unfoldable pub consult : Cache T → String → Readings → Cache T × Decision T
  consult c key r =
      let (breaker, admitted) = admit_by c.circuit_breaker r.at_check r.at_promote in
      let c1 = record c { circuit_breaker = breaker } in
      let (c2, found) = get c1 key r.at_get in
      if admitted
      then (elim found [ none ↦ (c2, must_fetch) | some item ↦ judge c2 item r ])
      else (c1, rejected)

  -- `fetchWithCoalescing` under the lock of `inflight`, and the gauge behind it.
  unfoldable pub begin_fetch : Cache T → String → Time → Cache T × Role
  begin_fetch c key now = elim (lookup key c.inflight) [
    | some _ ↦ (c, join)
    | none ↦ (
      record c {
        inflight = insert key now c.inflight;
        effects = emit c.has_metrics in_flight_up c.effects;
      },
      lead,
    )
  ]

  -- The deferred calls: the request leaves `inflight`, and the gauge goes down.
  unfoldable pub clean_up : Cache T → String → Cache T
  clean_up c key = record c {
    inflight = remove key c.inflight;
    effects = emit c.has_metrics in_flight_down c.effects;
  }

  -- The rest of `fetchWithCoalescing`, from the return of the fetch function on. `reported` and
  -- `stored` are the readings of the breaker and of `set`.
  unfoldable pub finish_fetch : {E : Type ℓ} → Cache T → String → Result E T → Time → Time → Cache T
  finish_fetch c key (ok v) reported stored =
      clean_up
        (set (record c { circuit_breaker = report success c.circuit_breaker reported }) key v
          stored)
        key
  finish_fetch c key (fail e) reported stored =
      clean_up
        (record c {
          circuit_breaker = report failure c.circuit_breaker reported;
          effects = emit c.has_metrics fetch_error c.effects;
        })
        key

  -- `refresh`, behind its call of `fetchWithCoalescing`: a success is stored again.
  unfoldable pub refresh_store : {E : Type ℓ} → Cache T → String → Result E T → Time → Cache T
  refresh_store c key (ok v) now = set c key v now
  refresh_store c key (fail e) now = c

  -- A whole call of `GetOrFetch` with no other call between its parts: the reply is none where it
  -- waits for another caller's fetch.
  unfoldable pub get_or_fetch :
      {E : Type ℓ}
      → Cache T
      → String
      → Readings
      → Result E T
      → Time
      → Time
      → Time
      → Cache T × Option (Result E T)
  get_or_fetch c key r fetched started reported stored =
      let (c1, decision) = consult c key r in
      let (c2, role) = begin_fetch c1 key started in
      elim decision [
        | rejected ↦ (c1, some (fail circuit_open))
        | fresh v ↦ (c1, some (ok v))
        | stale v ↦ (c1, some (ok v))
        | must_fetch ↦ elim role [
          | join ↦ (c2, none)
          | lead ↦ (finish_fetch c2 key fetched reported stored, some fetched)
        ]
      ]

  abbrev pub is_fresh : Option (Item T) → Time → Bool
  is_fresh none now = false
  is_fresh (some item) now = before now item.expires_at

  unfoldable pub batch_step : Progress T → BatchKey → Progress T
  batch_step p k =
      let (c, found) = get p.cache k.key k.at_get in
      elim found [
        | none ↦ record p { cache = c; missing = p.missing ++ (k.key ∷ []) }
        | some item ↦
            if before k.at_check item.expires_at
            then record p { cache = c; result = insert k.key item.value p.result }
            else record p { cache = c; missing = p.missing ++ (k.key ∷ []) }
      ]

  unfoldable pub batch_gather : Progress T → List BatchKey → Progress T
  batch_gather p [] = p
  batch_gather p (k ∷ ks) = batch_gather (batch_step p k) ks

  -- The loop over what was fetched; `now k` is the reading of the clock in the `set` of `k`.
  unfoldable pub store_all : Cache T → Dict String T → (String → Time) → Cache T
  store_all c [] now = c
  store_all c ((k, v) ∷ m) now = store_all (set c k v (now k)) m now

  unfoldable pub add_all : Dict String T → Dict String T → Dict String T
  add_all result [] = result
  add_all result ((k, v) ∷ m) = add_all (insert k v result) m

  -- `BatchGetOrFetch`: the cache, the map returned beside the error, and the error.
  unfoldable pub batch_get_or_fetch :
      {E : Type ℓ}
      → Cache T
      → List BatchKey
      → (List String → Result E (Dict String T))
      → (String → Time)
      → Cache T × Dict String T × Option (Error E)
  batch_get_or_fetch c keys fetch now =
      let p = batch_gather (record { cache = c; result = []; missing = [] }) keys in
      elim p.missing [
        | [] ↦ (p.cache, p.result, none)
        | k ∷ ks ↦ elim (fetch p.missing) [
          | fail e ↦ (p.cache, p.result, some e)
          | ok fetched ↦ (store_all p.cache fetched now, add_all p.result fetched, none)
        ]
      ]

  unfoldable pub warm_up :
      {E : Type ℓ}
      → Cache T
      → Result E (Dict String T)
      → (String → Time)
      → Cache T × Option (Error E)
  warm_up c (fail e) now = (c, some e)
  warm_up c (ok items) now = (store_all c items now, none)
