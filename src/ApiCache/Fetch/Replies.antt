-- ===== src/ApiCache/Fetch/Replies.antt =====
-- apicache/apicache.go: what `GetOrFetch` replies, and what a later call finds.
use d_utils.Base.{
  String, string_key, ◌≡◌, refl, ◌∙◌, true, Option, none, some, Option-cases, inl, inr,
}
use mathlib.Core.Path.{ap}
use d_utils.Base.Int.{pos}
use d_utils.Base.GoTime.{Time, Duration, add, before}
use d_utils.Base.Dict.{lookup, insert, lookup-insert_self, lookup-remove_self}
use d_utils.ApiCache.Cache.{
  Cache, Item, Error, Result, ok, fail, circuit_open, set, emit, in_flight_up,
}
use d_utils.ApiCache.Cache.Bounds.{stored_item}
use d_utils.ApiCache.Fetch.{
  Readings, Decision, fresh, stale, rejected, must_fetch, lead, join, admit_by, consult,
  begin_fetch, finish_fetch, clean_up, get_or_fetch,
}
use d_utils.ApiCache.Fetch.Consult.{decision_for, consult-decision_for, consult-keeps}

module _ {ℓ} {T : Type ℓ} where
  pub begin_fetch-lead :
      (c : Cache T) (key : String) (now : Time)
      → lookup key c.inflight ≡ none
      → begin_fetch c key now ≡ (
        record c {
          inflight = insert key now c.inflight;
          effects = emit c.has_metrics in_flight_up c.effects;
        },
        lead,
      )
  unfolding begin_fetch
  begin_fetch-lead c key now idle = rw (idle, begin_fetch) refl

  pub begin_fetch-join :
      (c : Cache T) (key : String) (now t : Time)
      → lookup key c.inflight ≡ some t
      → begin_fetch c key now ≡ (c, join)
  unfolding begin_fetch
  begin_fetch-join c key now t busy = rw (busy, begin_fetch) refl

  -- What a call replies, from its decision and from the fetch that is in progress: none is a wait.
  abbrev pub reply_for : {E : Type ℓ} → Decision T → Option Time → Result E T → Option (Result E T)
  reply_for rejected running fetched = some (fail circuit_open)
  reply_for must_fetch none fetched = some fetched
  reply_for must_fetch (some t) fetched = none
  reply_for (fresh v) running fetched = some (ok v)
  reply_for (stale v) running fetched = some (ok v)

  reply_of :
      {E : Type ℓ}
      → (c : Cache T) (key : String) (r : Readings) (fetched : Result E T) (now u v : Time)
        (d : Decision T)
      → (consult c key r).1 ≡ d
      → (get_or_fetch c key r fetched now u v).1
        ≡ reply_for d (lookup key (consult c key r).0.inflight) fetched
  unfolding get_or_fetch
  reply_of c key r fetched now u v rejected e = rw (e, get_or_fetch) refl
  reply_of c key r fetched now u v (fresh x) e = rw (e, get_or_fetch) refl
  reply_of c key r fetched now u v (stale x) e = rw (e, get_or_fetch) refl
  reply_of c key r fetched now u v must_fetch e =
      elim (Option-cases (lookup key (consult c key r).0.inflight)) [
        | inl idle ↦
            rw (e, idle, begin_fetch-lead (consult c key r).0 key now idle, get_or_fetch) refl
        | inr (t, busy) ↦
            rw (e, busy, begin_fetch-join (consult c key r).0 key now t busy, get_or_fetch) refl
      ]

  -- A call of `GetOrFetch` replies `ErrCircuitOpen` where the breaker refuses it; the value of the item
  -- under the key while the item is fresh, or stale within the stale timeout; otherwise what the fetch
  -- function returns, or it waits where another caller fetches the same key.
  pub get_or_fetch-reply_for :
      {E : Type ℓ}
      → (c : Cache T) (key : String) (r : Readings) (fetched : Result E T) (now u v : Time)
      → (get_or_fetch c key r fetched now u v).1
        ≡ reply_for (decision_for c key r) (lookup key c.inflight) fetched
  get_or_fetch-reply_for c key r fetched now u v =
      reply_of c key r fetched now u v (decision_for c key r) (consult-decision_for c key r)
      ∙ ap (λ running. reply_for (decision_for c key r) (lookup key running) fetched)
          (consult-keeps c key r).0

  -- Whatever `finish_fetch` is given, the key's request is over; a value is stored, and a failure
  -- leaves the entries as they are.
  finish_fetch_lem :
      {E : Type ℓ}
      → (c : Cache T) (key : String) (v : T) (e : Error E) (u s : Time)
      → (lookup key (finish_fetch {E = E} c key (ok v) u s).inflight ≡ none)
        × (lookup key (finish_fetch {E = E} c key (ok v) u s).items ≡ some (stored_item c v s))
        × (lookup key (finish_fetch c key (fail e) u s).inflight ≡ none)
        × ((finish_fetch c key (fail e) u s).items ≡ c.items)
  unfolding finish_fetch clean_up set
  finish_fetch_lem c key v e u s = (
    lookup-remove_self key c.inflight,
    lookup-insert_self key (stored_item c v s) _,
    lookup-remove_self key c.inflight,
    refl,
  )

  -- The cache behind a call that leads a fetch.
  led :
      {E : Type ℓ}
      → (c : Cache T) (key : String) (r : Readings) (fetched : Result E T) (now u s : Time)
      → decision_for c key r ≡ must_fetch
      → lookup key c.inflight ≡ none
      → (get_or_fetch c key r fetched now u s).0
        ≡ finish_fetch (begin_fetch (consult c key r).0 key now).0 key fetched u s
  unfolding get_or_fetch
  led c key r fetched now u s must idle =
      let e = consult-decision_for c key r ∙ must in
      let busy = ap (λ running. lookup key running) (consult-keeps c key r).0 ∙ idle in
      rw
        (
          e,
          begin_fetch-lead (consult c key r).0 key now busy,
          begin_fetch-lead (consult c key r).0 key now busy,
          get_or_fetch,
        )
        refl

  abbrev ends : T → Time → Duration → Item T
  ends v now ttl = record {
    value = v;
    created_at = now;
    expires_at = add now ttl;
    last_access = now;
    access_count = pos 0;
  }

  served_fresh :
      (c : Cache T) (key : String) (r : Readings) (item : Item T)
      → lookup key c.items ≡ some item
      → (admit_by c.circuit_breaker r.at_check r.at_promote).1 ≡ true
      → before r.at_fresh item.expires_at ≡ true
      → decision_for c key r ≡ fresh item.value
  unfolding decision_for
  served_fresh c key r item present admitted young = rw (admitted, present, young) refl

  begun :
      (c : Cache T) (key : String) (r : Readings) (now : Time)
      → lookup key c.inflight ≡ none
      → ((begin_fetch (consult c key r).0 key now).0.items ≡ (consult c key r).0.items)
        × ((begin_fetch (consult c key r).0 key now).0.default_ttl ≡ c.default_ttl)
  begun c key r now idle =
      let at =
        begin_fetch-lead (consult c key r).0 key now
          (ap (λ running. lookup key running) (consult-keeps c key r).0 ∙ idle) in
      (ap (λ x. x.0.items) at, ap (λ x. x.0.default_ttl) at ∙ (consult-keeps c key r).1)

  -- What a call leaves that has to fetch and finds no fetch of the key in progress. The key's request
  -- is over. A value that was fetched is stored under the key, so a later call that the breaker
  -- admits, and that reads the clock before the default TTL has run out, decides to reply it without a
  -- fetch. A failed fetch leaves the entries as the first part of the call did.
  pub get_or_fetch-fetches :
      {E : Type ℓ}
      → (c : Cache T) (key : String) (r : Readings) (v : T) (e : Error E) (now u s : Time)
        (later : Readings)
      → decision_for c key r ≡ must_fetch
      → lookup key c.inflight ≡ none
      → let served = (get_or_fetch {E = E} c key r (ok v) now u s).0 in
        let failed = (get_or_fetch c key r (fail e) now u s).0 in
        (lookup key served.inflight ≡ none)
        × (lookup key served.items ≡ some (stored_item c v s))
        × ((admit_by served.circuit_breaker later.at_check later.at_promote).1 ≡ true
            → before later.at_fresh (add s c.default_ttl) ≡ true
            → decision_for served key later ≡ fresh v)
        × (lookup key failed.inflight ≡ none)
        × (failed.items ≡ (consult c key r).0.items)
  get_or_fetch-fetches {E = E} c key r v e now u s later must idle =
      let c2 = (begin_fetch (consult c key r).0 key now).0 in
      let ok_is = led {E = E} c key r (ok v) now u s must idle in
      let fail_is = led c key r (fail e) now u s must idle in
      let (done, stored, ended, same) = finish_fetch_lem c2 key v e u s in
      let (items, ttl) = begun c key r now idle in
      let here = ap (λ x. lookup key x.items) ok_is ∙ stored ∙ ap (λ d. some (ends v s d)) ttl in
      (
        ap (λ x. lookup key x.inflight) ok_is ∙ done,
        here,
        λ admitted young. served_fresh _ key later _ here admitted young,
        ap (λ x. lookup key x.inflight) fail_is ∙ ended,
        ap (λ x. x.items) fail_is ∙ same ∙ items,
      )
