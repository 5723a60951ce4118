-- ===== src/ApiCache/Fetch/Consult.antt =====
-- apicache/apicache.go: what the first part of `GetOrFetch` decides.
use d_utils.Base.{
  String, string_key, ◌≡◌, refl, none, some, if◌then◌else◌, Bool-cases, Option-cases, inl, inr,
}
use d_utils.Base.Int.{pos}
use d_utils.Base.Word.{add64}
use d_utils.Base.GoTime.{Time, add, before}
use d_utils.Base.Dict.{lookup, insert}
use d_utils.ApiCache.Cache.{Cache, Item, get, emit, hit, miss, on_get}
use d_utils.ApiCache.Fetch.{
  Readings, Decision, fresh, stale, rejected, must_fetch, admit_by, consult, judge,
}

module _ {ℓ} {T : Type ℓ} where
  -- What the decision of a call rests on: the breaker, the item under the key, and the clock.
  unfoldable pub decision_for : Cache T → String → Readings → Decision T
  decision_for c key r =
      if (admit_by c.circuit_breaker r.at_check r.at_promote).1
      then (elim (lookup key c.items) [
        | none ↦ must_fetch
        | some item ↦
            if before r.at_fresh item.expires_at
            then fresh item.value
            else if before r.at_stale (add item.expires_at c.stale_timeout)
            then stale item.value
            else must_fetch
      ])
      else rejected

  -- The cache behind the breaker's answer.
  abbrev with_breaker : Cache T → Readings → Cache T
  with_breaker c r = record c {
    circuit_breaker = (admit_by c.circuit_breaker r.at_check r.at_promote).0;
  }

  judge-decision :
      (c : Cache T) (item : Item T) (r : Readings)
      → (judge c item r).1 ≡ (
          if before r.at_fresh item.expires_at
          then fresh item.value
          else if before r.at_stale (add item.expires_at c.stale_timeout)
          then stale item.value
          else must_fetch)
  unfolding judge
  judge-decision c item r = elim (Bool-cases (before r.at_fresh item.expires_at)) [
    | inl young ↦ rw young
    | inr old ↦ elim (Bool-cases (before r.at_stale (add item.expires_at c.stale_timeout))) [
      | inl usable ↦ rw (old, usable)
      | inr expired ↦ rw (old, expired)
    ]
  ]

  abbrev pub touched : Item T → Time → Item T
  touched item now = record item {
    last_access = now;
    access_count = add64 item.access_count (pos 1);
  }

  pub get_present :
      (c : Cache T) (key : String) (now : Time) (item : Item T)
      → lookup key c.items ≡ some item
      → get c key now ≡ (
        record c {
          items = insert key (touched item now) c.items;
          effects = emit c.has_on_get (on_get key) (emit c.has_metrics hit c.effects);
        },
        some (touched item now),
      )
  unfolding get
  get_present c key now item present = rw (present, get) refl

  pub get_absent :
      (c : Cache T) (key : String) (now : Time)
      → lookup key c.items ≡ none
      → get c key now ≡ (record c { effects = emit c.has_metrics miss c.effects }, none)
  unfolding get
  get_absent c key now absent = rw (absent, get) refl

  -- The first part of `GetOrFetch` decides as the breaker, the item's age and the clock say.
  pub consult-decision_for :
      (c : Cache T) (key : String) (r : Readings) → (consult c key r).1 ≡ decision_for c key r
  unfolding consult decision_for
  consult-decision_for c key r =
      elim (Bool-cases (admit_by c.circuit_breaker r.at_check r.at_promote).1) [
        | inl admitted ↦ elim (Option-cases (lookup key c.items)) [
          | inl absent ↦
              rw (admitted, absent, get_absent (with_breaker c r) key r.at_get absent) refl
          | inr (item, present) ↦
              rw
                (
                  admitted,
                  present,
                  get_present (with_breaker c r) key r.at_get item present,
                  get_present (with_breaker c r) key r.at_get item present,
                )
                (judge-decision _ (touched item r.at_get) r)
        ]
        | inr refused ↦ rw refused refl
      ]

  judge-keeps :
      (c : Cache T) (item : Item T) (r : Readings)
      → ((judge c item r).0.inflight ≡ c.inflight)
        × ((judge c item r).0.default_ttl ≡ c.default_ttl)
  unfolding judge
  judge-keeps c item r = elim (Bool-cases (before r.at_fresh item.expires_at)) [
    | inl young ↦ rw young (refl, refl)
    | inr old ↦ elim (Bool-cases (before r.at_stale (add item.expires_at c.stale_timeout))) [
      | inl usable ↦ rw (old, usable) (refl, refl)
      | inr expired ↦ rw (old, expired) (refl, refl)
    ]
  ]

  pub consult-keeps :
      (c : Cache T) (key : String) (r : Readings)
      → ((consult c key r).0.inflight ≡ c.inflight)
        × ((consult c key r).0.default_ttl ≡ c.default_ttl)
  unfolding consult
  consult-keeps c key r = elim (Bool-cases (admit_by c.circuit_breaker r.at_check r.at_promote).1) [
    | inl admitted ↦ elim (Option-cases (lookup key c.items)) [
      | inl absent ↦
          rw
            (
              admitted,
              get_absent (with_breaker c r) key r.at_get absent,
              get_absent (with_breaker c r) key r.at_get absent,
            )
            (refl, refl)
      | inr (item, present) ↦
          rw
            (
              admitted,
              get_present (with_breaker c r) key r.at_get item present,
              get_present (with_breaker c r) key r.at_get item present,
            )
            (judge-keeps _ (touched item r.at_get) r)
    ]
    | inr refused ↦ rw refused (refl, refl)
  ]
