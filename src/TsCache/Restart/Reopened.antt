-- ===== src/TsCache/Restart/Reopened.antt =====
-- tscache/cache.go: `NewTimeSeries` behind `Close`.
use d_utils.Base.{◌≡◌, false, String, Option, none, some, ◌==◌, string_key, All}
use d_utils.Base.Int.{ℤ, int_key}
use d_utils.Base.Dict.{Dict}
use d_utils.Base.Text.{Text}
use d_utils.TsCache.Partition.{Partition}
use d_utils.TsCache.Config.{Config, StorageConfig, new_storage_config}
use d_utils.TsCache.Store.{Store}
use d_utils.TsCache.Storage.{Storage, Codec, Loaded, loaded, failed, load_partition}
use d_utils.TsCache.Storage.Opening.{with_defaults}
use d_utils.TsCache.Restart.Saved.{IsLawful}

module _ {ℓ} {T Bytes : Type ℓ} {E : Type 0} (date_of : String → ℤ → Text)
    (codec : Codec T Bytes E) where
  -- What a load adds to what is there.
  abbrev content : Loaded T E → Option (Partition T) → Option (Partition T)
  content (loaded none) before = before
  content (loaded (some p)) before = some p
  content (failed e) before = before

  abbrev found_at : Storage Bytes → Option Text → ℤ → Option (Partition T) → Option (Partition T)
  found_at s none t before = before
  found_at s (some name) t before = content (load_partition date_of codec s t none) before

  abbrev AllLoad : Storage Bytes → Dict ℤ Text → Type ℓ
  AllLoad s = All (λ (x : ℤ × Text).
      (o : Option (Partition T)) × (load_partition date_of codec s x.0 none ≡ loaded o))

  abbrev pub storage_cfg_of : Config → StorageConfig
  storage_cfg_of cfg = with_defaults codec (new_storage_config cfg)

  module _ (cfg : Config) (used : ((storage_cfg_of cfg).base_dir == "") ≡ false)
      (lawful : IsLawful date_of codec) where
    abbrev storage_cfg : StorageConfig
    storage_cfg = storage_cfg_of cfg
