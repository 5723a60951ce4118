-- ===== src/Cache/Cleaning.antt =====
-- cache/cache.go: the rounds of the cleanup, and the refresh of the TTL on access.
use d_utils.Base.{
  String, string_key, ◌≡◌, refl, sym, ◌∙◌, false, Option, none, some, if◌then◌else◌, arith,
  Bool-cases, Option-cases, inl, inr,
}
use mathlib.Core.Path.{ap}
use d_utils.Base.Int.{ℤ, pos, ◌<ℤ◌, ◌≤ℤ◌, ◌-ℤ◌, ◌+ℤ◌, -ℤ_parts, +ℤ_parts, eq_of_parts, leb_ℤ}
use d_utils.Base.Word.{InInt64, sub64, sub64_exact, wrap64, wrap64_of_InInt64}
use d_utils.Base.GoTime.{Time, Duration, add, unix_nano, unix_epoch}
use d_utils.Base.Dict.{lookup, Distinct}
use d_utils.Cache.{Cache, CacheItem, Readings, is_live, is_expired, refreshed, get, cleanup}
use d_utils.Cache.Expiry.{
  get_live, get_missing, lookup-filter_by, fetch_same, log-items, log-has_nats,
}

module _ {ℓ} {T : Type ℓ} where
  cleanup-lookup :
      (c : Cache T) (now : String → Time) (key : String)
      → Distinct c.items
      → lookup key (cleanup c now).items ≡ (elim (lookup key c.items) [
        | none ↦ none
        | some v ↦ if is_expired v (now key) then none else some v
      ])
  unfolding cleanup
  cleanup-lookup c now key d =
      ap (λ m. lookup key m) (log-items _ c.flush_immediately _)
      ∙ lookup-filter_by (λ k v. is_expired v (now k)) c.items key d

  -- A round of the cleanup, on a map with one entry for each key, changes no reply: a `Get` that reads
  -- the clock no earlier than the round did for its key returns what it would have returned without
  -- the round.
  pub cleanup-get :
      (c : Cache T) (now : String → Time) (key : String) (r : Readings)
      (remote : Option (CacheItem T)) (rr : Readings)
      → Distinct c.items
      → unix_nano (now key) ≤ℤ unix_nano r.at_check
      → (get (cleanup c now) key r remote rr).1 ≡ (get c key r remote rr).1
  cleanup-get c now key r remote rr d order =
      let kept = cleanup-lookup c now key d in
      let same =
        fetch_same c (cleanup c now) key remote rr
          (unfold cleanup in log-has_nats _ c.flush_immediately _) in
      elim (Option-cases (lookup key c.items)) [
        | inl absent ↦
            get_missing (cleanup c now) key r remote rr (kept ∙ rw absent refl)
            ∙ same
            ∙ sym (get_missing c key r remote rr absent)
        | inr (item, present) ↦ elim (Bool-cases (is_expired item (now key))) [
          | inl old ↦
              let dead : is_live item r.at_check ≡ false = ground (arith, old) in
              get_missing (cleanup c now) key r remote rr (kept ∙ rw (present, old) refl)
              ∙ same
              ∙ sym (get_live c key r remote rr item present ∙ rw dead refl)
          | inr young ↦
              get_live (cleanup c now) key r remote rr item (kept ∙ rw (present, young) refl)
              ∙ ap (λ v. if is_live item r.at_check then some item.value else v) same
              ∙ sym (get_live c key r remote rr item present)
        ]
      ]

telescoped : (t e d : ℤ) → (t +ℤ (e -ℤ (t -ℤ d))) -ℤ d ≡ e
telescoped t e d = eq_of_parts _ _ (
    omega (
      arith,
      -ℤ_parts t d,
      -ℤ_parts e (t -ℤ d),
      +ℤ_parts t (e -ℤ (t -ℤ d)),
      -ℤ_parts (t +ℤ (e -ℤ (t -ℤ d))) d,
    ))

-- The refresh of an item that has not expired computes the expiration that the item has, with one
-- reading of the clock for both of its parts and no overflow: nothing is extended.
pub refreshed_same :
    (default_ttl : Duration) (expiration : ℤ) (r : Readings)
    → r.at_store ≡ r.at_ttl
    → unix_nano r.at_ttl <ℤ expiration
    → InInt64 expiration
    → InInt64 (r.at_ttl -ℤ unix_epoch)
    → InInt64 (expiration -ℤ unix_nano r.at_ttl)
    → refreshed default_ttl expiration r ≡ expiration
unfolding refreshed
refreshed_same default_ttl expiration r once live fits fits_now fits_ttl =
    let now : unix_nano r.at_ttl ≡ r.at_ttl -ℤ unix_epoch =
      unfold unix_nano in wrap64_of_InInt64 _ fits_now in
    let rest : sub64 expiration (unix_nano r.at_ttl) ≡ expiration -ℤ unix_nano r.at_ttl =
      sub64_exact _ _ fits_ttl in
    let left : leb_ℤ (sub64 expiration (unix_nano r.at_ttl)) (pos 0) ≡ false =
      rw rest (ground (arith, -ℤ_parts expiration (unix_nano r.at_ttl))) in
    let sum : unix_nano (add r.at_ttl (expiration -ℤ (r.at_ttl -ℤ unix_epoch))) ≡ expiration =
      unfold unix_nano add in
      ap wrap64 (telescoped r.at_ttl expiration unix_epoch) ∙ wrap64_of_InInt64 expiration fits in
    rw (left, once, rest, now) sum
