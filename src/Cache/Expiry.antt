-- ===== src/Cache/Expiry.antt =====
-- cache/cache.go: expiry, the cleanup, and the refresh of the TTL.
use d_utils.Base.{
  String, string_key, ◌≡◌, ◌≢◌, refl, sym, ◌∙◌, arith, Bool, true, false, ◌&&◌, ◌||◌, not, [], ◌∷◌,
  Option, none, some, if◌then◌else◌, Bool-cases, Option-cases, inl, inr, ◌==◌, filter_by,
}
use mathlib.Core.Path.{ap, subst}
use d_utils.Base.Int.{pos, ltb_ℤ, eqb_ℤ, leb_ℤ}
use d_utils.Base.GoTime.{Time, Duration, unix_nano, add}
use d_utils.Base.Dict.{Dict, lookup, insert, Distinct, lookup-insert_self, lookup-insert_ne}
use d_utils.Cache.{
  Cache, CacheItem, Readings, is_live, expiration_time, log, store, fails, set, get, fetch,
}

-- The TTL that counts: the one given, be it zero or negative, or else the default.
abbrev pub chosen_ttl : Duration → Option Duration → Duration
chosen_ttl default_ttl none = default_ttl
chosen_ttl default_ttl (some ttl) = ttl

-- A value that is set at `now` is there at `at`: it has no positive TTL, or the clock has not passed
-- the end of the TTL, where an end at the Unix epoch stands for none.
abbrev pub outlasts : Duration → Time → Time → Bool
outlasts ttl now at =
    leb_ℤ ttl (pos 0)
    || (eqb_ℤ (unix_nano (add now ttl)) (pos 0) || leb_ℤ (unix_nano at) (unix_nano (add now ttl)))

module _ {ℓ} {T : Type ℓ} where
  pub log-items : (c : Cache T) (b : Bool) (e : _) → (log c b e).items ≡ c.items
  log-items c true e = refl
  log-items c false e = refl

  -- Whatever the calls outside return, `store` has put the item under its key.
  store-items :
      {E : Type ℓ} (c : Cache T) (key : String) (item : CacheItem T)
      (put_result flush_result : Option E)
      → (store c key item put_result flush_result).0.items ≡ insert key item c.items
  unfolding store
  store-items c key item put_result flush_result =
      elim (Option-cases (fails c.has_nats put_result)) [
        | inl works ↦
            rw (works, store) (log-items _ c.flush_immediately _ ∙ log-items _ c.has_nats _)
        | inr (e, broken) ↦ rw (broken, store) (log-items _ c.has_nats _)
      ]

  pub get_live :
      (c : Cache T) (key : String) (r : Readings) (remote : Option (CacheItem T)) (rr : Readings)
      (item : CacheItem T)
      → lookup key c.items ≡ some item
      → (get c key r remote rr).1
        ≡ (if is_live item r.at_check then some item.value else (fetch c key remote rr).1)
  unfolding get
  get_live c key r remote rr item at = elim (Bool-cases (is_live item r.at_check)) [
    | inl live ↦ rw (at, get, live) refl
    | inr old ↦ rw (at, get, old) refl
  ]

  pub get_missing :
      (c : Cache T) (key : String) (r : Readings) (remote : Option (CacheItem T)) (rr : Readings)
      → lookup key c.items ≡ none
      → (get c key r remote rr).1 ≡ (fetch c key remote rr).1
  unfolding get
  get_missing c key r remote rr absent = rw (absent, get) refl

  pub log-has_nats : (c : Cache T) (b : Bool) (e : _) → (log c b e).has_nats ≡ c.has_nats
  log-has_nats c true e = refl
  log-has_nats c false e = refl

  store-has_nats :
      {E : Type ℓ} (c : Cache T) (key : String) (item : CacheItem T)
      (put_result flush_result : Option E)
      → (store c key item put_result flush_result).0.has_nats ≡ c.has_nats
  unfolding store
  store-has_nats c key item put_result flush_result =
      elim (Option-cases (fails c.has_nats put_result)) [
        | inl works ↦
            rw (works, store) (log-has_nats _ c.flush_immediately _ ∙ log-has_nats _ c.has_nats _)
        | inr (e, broken) ↦ rw (broken, store) (log-has_nats _ c.has_nats _)
      ]

  pub fetch_same :
      (c d : Cache T) (key : String) (remote : Option (CacheItem T)) (rr : Readings)
      → d.has_nats ≡ c.has_nats
      → (fetch d key remote rr).1 ≡ (fetch c key remote rr).1
  unfolding fetch
  fetch_same c d key none rr e = refl
  fetch_same c d key (some item) rr e = elim (Bool-cases (c.has_nats && is_live item rr.at_check)) [
    | inl found ↦ rw (e, found) refl
    | inr none_there ↦ rw (e, none_there) refl
  ]

  -- Two caches that have the same under a key answer the same.
  get_same :
      (c d : Cache T) (key : String) (r : Readings) (remote : Option (CacheItem T)) (rr : Readings)
      → lookup key d.items ≡ lookup key c.items
      → d.has_nats ≡ c.has_nats
      → (get d key r remote rr).1 ≡ (get c key r remote rr).1
  get_same c d key r remote rr same nats =
      let fetched = fetch_same c d key remote rr nats in
      elim (Option-cases (lookup key c.items)) [
        | inl absent ↦
            get_missing d key r remote rr (same ∙ absent)
            ∙ fetched
            ∙ sym (get_missing c key r remote rr absent)
        | inr (item, present) ↦
            get_live d key r remote rr item (same ∙ present)
            ∙ ap (λ v. if is_live item r.at_check then some item.value else v) fetched
            ∙ sym (get_live c key r remote rr item present)
      ]

  -- What a bucket is asked for, if there is one: its value, unless it has expired.
  abbrev pub remote_value : Bool → Option (CacheItem T) → Time → Option T
  remote_value has_nats none now = none
  remote_value has_nats (some item) now =
      if has_nats && (eqb_ℤ item.expiration (pos 0) || leb_ℤ (unix_nano now) item.expiration)
      then some item.value
      else none

  fetch-remote_value :
      (c : Cache T) (key : String) (remote : Option (CacheItem T)) (rr : Readings)
      → (fetch c key remote rr).1 ≡ remote_value c.has_nats remote rr.at_check
  unfolding fetch
  fetch-remote_value c key none rr = refl
  fetch-remote_value c key (some item) rr =
      elim (Bool-cases (c.has_nats && is_live item rr.at_check)) [
        | inl found ↦ rw found refl
        | inr none_there ↦ rw none_there refl
      ]

  is_live-outlasts :
      (default_ttl : Duration) (ttl : Option Duration) (now at : Time) (v : T)
      → is_live (record { value = v; expiration = expiration_time default_ttl ttl now }) at
        ≡ outlasts (chosen_ttl default_ttl ttl) now at
  unfolding expiration_time
  is_live-outlasts default_ttl none now at v = elim (Bool-cases (ltb_ℤ (pos 0) default_ttl)) [
    | inl ends ↦ rw ends (ground (arith, ends))
    | inr stays ↦ rw stays (ground (arith, stays))
  ]
  is_live-outlasts default_ttl (some ttl) now at v = elim (Bool-cases (ltb_ℤ (pos 0) ttl)) [
    | inl ends ↦ rw ends (ground (arith, ends))
    | inr stays ↦ rw stays (ground (arith, stays))
  ]

  -- Whatever the bucket and the file system return, a `Get` of the key behind a `Set` returns the value
  -- as long as the TTL that was given, or else the default one, is not positive or not over; an end of
  -- the TTL at the Unix epoch counts as no end. When it is over, the `Get` returns the value that the
  -- bucket has under the key, if there is a bucket and that value has not expired, and nothing
  -- otherwise. A `Get` of another key returns what it would have returned without the `Set`.
  pub set-get :
      {E : Type ℓ} (c : Cache T) (key : String) (v : T) (ttl : Option Duration) (now : Time)
      (put_result flush_result : Option E) (r : Readings) (remote : Option (CacheItem T))
      (rr : Readings)
      → let d = (set c key v ttl now put_result flush_result).0 in
        ((get d key r remote rr).1 ≡ (
          if outlasts (chosen_ttl c.default_ttl ttl) now r.at_check
          then some v
          else remote_value c.has_nats remote rr.at_check))
        × ((j : String) → key ≢ j → (get d j r remote rr).1 ≡ (get c j r remote rr).1)
  unfolding set
  set-get c key v ttl now put_result flush_result r remote rr =
      let item : CacheItem T = record {
        value = v;
        expiration = expiration_time c.default_ttl ttl now;
      } in
      let d = (store c key item put_result flush_result).0 in
      let items = store-items c key item put_result flush_result in
      let nats = store-has_nats c key item put_result flush_result in
      let live = is_live-outlasts c.default_ttl ttl now r.at_check v in
      (
        get_live d key r remote rr item
              (ap (λ m. lookup key m) items ∙ lookup-insert_self key item c.items)
            ∙ ap (λ b. if b then some v else (fetch d key remote rr).1) live
            ∙ ap (λ w. if outlasts (chosen_ttl c.default_ttl ttl) now r.at_check then some v else w)
                (fetch-remote_value d key remote rr
                  ∙ ap (λ b. remote_value b remote rr.at_check) nats),
        (λ j other.
            get_same c d j r remote rr
              (ap (λ m. lookup j m) items ∙ lookup-insert_ne key j item c.items other) nats),
      )

  pub lookup-filter_by :
      (test : String → CacheItem T → Bool) (m : Dict String (CacheItem T)) (key : String)
      → Distinct m
      → lookup key (filter_by (λ e. not (test e.0 e.1)) m)
        ≡ (elim (lookup key m) [ none ↦ none | some v ↦ if test key v then none else some v ])
  unfolding lookup
  lookup-filter_by test [] key d = refl
  lookup-filter_by test ((k, v) ∷ m) key d = elim (Bool-cases (k == key)) [
    | inl same ↦
        let name = (string_key.same_key_iff k key).0 same in
        let gone = subst (λ z. lookup z m ≡ none) name d.0 in
        let rest = lookup-filter_by test m key d.1 ∙ rw gone refl in
        elim (Bool-cases (test k v)) [
          | inl out ↦ let out' = subst (λ z. test z v ≡ true) name out in rw (same, out, out') rest
          | inr stays ↦
              let stays' = subst (λ z. test z v ≡ false) name stays in
              rw (same, stays, stays', same) refl
        ]
    | inr other ↦ elim (Bool-cases (test k v)) [
      | inl out ↦ rw (other, out) (lookup-filter_by test m key d.1)
      | inr stays ↦ rw (other, stays, other) (lookup-filter_by test m key d.1)
    ]
  ]
