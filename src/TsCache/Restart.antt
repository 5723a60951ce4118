-- ===== src/TsCache/Restart.antt =====
-- tscache/cache.go: `NewTimeSeries`, which loads the partitions from the files, and `Close`, which
-- saves them. The goroutine of `maintenance` that runs in between calls the functions of Store.
pub mod Saved
pub mod Reopened
pub mod Maintenance
pub mod Tests
use d_utils.Base.{not, ◌==◌, string_key, String, List, [], ◌∷◌, Option, none, some, if◌then◌else◌}
use d_utils.Base.Int.{ℤ, int_key}
use d_utils.Base.GoTime.{Time}
use d_utils.Base.Dict.{Dict, insert, values}
use d_utils.Base.Text.{Text}
use d_utils.TsCache.Partition.{Partition}
use d_utils.TsCache.Store.{Store}
use d_utils.TsCache.Config.{Config, ConfigError, default_config, validate, new_storage_config}
use d_utils.TsCache.Storage.{
  Storage, StorageError, Codec, Calls, Disk, loaded, failed, save_partition, load_partition,
}
use d_utils.TsCache.Storage.Opening.{new_storage}

-- The errors of `NewTimeSeries`, by what it wraps.
pub data StartError (E : Type 0) : Type 0 where
  config_error : ConfigError → StartError E
  opening : StorageError E → StartError E
  loading : ℤ → StorageError E → StartError E

pub data Started {ℓ} (T Bytes : Type ℓ) (E : Type 0) : Type ℓ where
  started : Store T → Storage Bytes → Started T Bytes E
  refused : StartError E → Started T Bytes E

-- What the calls of one `SavePartition` return.
pub record Saving {ℓ} (Bytes : Type ℓ) (E : Type 0) : Type ℓ where
  pub now : Time
  pub calls : Calls Bytes E
  pub metadata_calls : Calls Bytes E

-- `cfg == nil`
abbrev config_or_default : Option Config → Config
config_or_default none = default_config
config_or_default (some cfg) = cfg

module _ {ℓ} {T Bytes : Type ℓ} {E : Type 0} (date_of : String → ℤ → Text)
    (codec : Codec T Bytes E) where
  -- The loop of `loadPartitions`, over the entries of the metadata; `opened t` is an error of opening
  -- the file of a partition.
  unfoldable pub load_all :
      Dict ℤ Text
      → Storage Bytes
      → (ℤ → Option E)
      → Dict ℤ (Partition T)
      → Dict ℤ (Partition T) × Option (ℤ × StorageError E)
  load_all [] s opened parts = (parts, none)
  load_all ((t, name) ∷ m) s opened parts = elim (load_partition date_of codec s t (opened t)) [
    | failed e ↦ (parts, some (t, e))
    | loaded found ↦ elim found [
      | none ↦ load_all m s opened parts
      | some p ↦ load_all m s opened (insert t p parts)
    ]
  ]

  -- The cache without its partitions.
  abbrev pub with_partitions : Config → Dict ℤ (Partition T) → Store T
  with_partitions cfg parts = record {
    partitions = parts;
    partition_size = cfg.partition_duration;
    max_partitions = cfg.max_partitions;
    flush_immediately = cfg.flush_immediately;
    storage_dir = not (cfg.storage_dir == "");
    saves = [];
  }

  -- What `loadPartitions` has loaded, or its error.
  abbrev pub loaded_into :
      Config
      → Storage Bytes
      → Dict ℤ (Partition T) × Option (ℤ × StorageError E)
      → Started T Bytes E
  loaded_into cfg s (parts, none) = started (with_partitions cfg parts) s
  loaded_into cfg s (parts, some (t, err)) = refused (loading t err)

  -- What `NewStorage` has made, or its error.
  abbrev pub opened_as :
      Config → (ℤ → Option E) → Storage Bytes × Option (StorageError E) → Started T Bytes E
  opened_as cfg opened (s, none) = loaded_into cfg s (load_all s.metadata.partition_map s opened [])
  opened_as cfg opened (s, some err) = refused (opening err)

  abbrev pub validated :
      Disk Bytes
      → Option E
      → Option E
      → (ℤ → Option E)
      → Config × Option ConfigError
      → Started T Bytes E
  validated disk made opened_metadata opened (cfg, none) =
      opened_as cfg opened (new_storage codec (new_storage_config cfg) disk made opened_metadata)
  validated disk made opened_metadata opened (cfg, some err) = refused (config_error err)

  unfoldable pub new_time_series :
      Option Config → Disk Bytes → Option E → Option E → (ℤ → Option E) → Started T Bytes E
  new_time_series cfg disk made opened_metadata opened =
      validated disk made opened_metadata opened (validate (config_or_default cfg))

  -- The loop of `Close`; the last error is returned. `saving` is what the calls return for the
  -- partition of a start.
  unfoldable pub save_each :
      List (Partition T)
      → (ℤ → Saving Bytes E)
      → Storage Bytes
      → Option (StorageError E)
      → Storage Bytes × Option (StorageError E)
  save_each [] saving s last = (s, last)
  save_each (p ∷ ps) saving s last =
      let w = saving p.start_time in
      let (s', e) = save_partition date_of codec s p w.now w.calls w.metadata_calls in
      save_each ps saving s' (elim e [ none ↦ last | some err ↦ some err ])

  unfoldable pub close :
      Store T → Storage Bytes → (ℤ → Saving Bytes E) → Storage Bytes × Option (StorageError E)
  close c s saving = save_each (values c.partitions) saving s none
