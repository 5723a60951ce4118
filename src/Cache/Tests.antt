-- ===== src/Cache/Tests.antt =====
-- cache/cache.go: runs of a cache, and the theorems at it.
use d_utils.Base.{
  ℕ, ◌+◌, String, string_key, ◌≢◌, ◌≡◌, refl, true, false, [], ◌∷◌, none, some, arith,
}
use d_utils.Base.Int.{pos, ◌+ℤ◌, ◌-ℤ◌}
use d_utils.Base.Word.{wrap64}
use d_utils.Base.GoTime.{Time, add, unix_nano}
use d_utils.Base.Dict.{lookup}
use d_utils.Cache.{Cache, CacheItem, Readings, set, get, cleanup}
use d_utils.Cache.Expiry.{set-get}
use d_utils.Cache.Cleaning.{cleanup-get}

abbrev epoch : ℕ → Time
epoch n = pos (62_135_596_800_000_000_000 + n)

abbrev at : ℕ → Readings
at n = record { at_check = epoch n; at_ttl = epoch n; at_store = epoch n }

abbrev sample : Cache ℕ
sample = record {
  items =
      ("a", record { value = 1; expiration = pos 50 })
      ∷ ("b", record { value = 2; expiration = pos 0 })
      ∷ [];
  default_ttl = pos 100;
  flush_immediately = true;
  refresh_ttl_on_access = false;
  has_nats = true;
  effects = [];
}

abbrev stored : Cache ℕ
stored = (set {E = ℕ} sample "c" 3 (some (pos 40)) (epoch 10) (some 7) none).0

-- What another client has put into the bucket; the value of `stored` is over at 51.
abbrev bucket : CacheItem ℕ
bucket = record { value = 9; expiration = pos 60 }

set-get_example :
    ((get stored "c" (at 51) (some bucket) (at 51)).1 ≡ some 9)
    × ((j : String)
        → "c" ≢ j
        → (get stored j (at 51) (some bucket) (at 51)).1
          ≡ (get sample j (at 51) (some bucket) (at 51)).1)
unfolding unix_nano add ◌+ℤ◌ ◌-ℤ◌ wrap64
set-get_example =
    set-get {E = ℕ} sample "c" 3 (some (pos 40)) (epoch 10) (some 7) none (at 51) (some bucket)
      (at 51)

cleanup-get_example :
    (get
      (cleanup sample (λ k. epoch 60))
      "a"
      (at 60)
      (some (record { value = 9; expiration = pos 0 }))
      (at 60)).1
    ≡ (get sample "a" (at 60) (some (record { value = 9; expiration = pos 0 })) (at 60)).1
cleanup-get_example =
    cleanup-get sample (λ k. epoch 60) "a" (at 60) (some (record { value = 9; expiration = pos 0 }))
      (at 60) (unfold lookup in (refl, (refl, tt))) (omega arith)
