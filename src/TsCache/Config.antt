-- ===== src/TsCache/Config.antt =====
-- tscache/config.go: the configuration of the cache, its validation, and that of the storage.
use d_utils.Base.{ℕ, Bool, false, String, Option, none, some, if◌then◌else◌, ◌*◌}
use d_utils.Base.Int.{ℤ, pos, ltb_ℤ, leb_ℤ, ◌*ℤ◌}
use d_utils.Base.Word.{wrap64}
use d_utils.Base.GoTime.{Duration, second}

pub record Config : Type 0 where
  pub storage_dir : String
  pub partition_duration : Duration
  pub max_partitions : ℤ
  pub cleanup_interval : Duration
  pub flush_interval : Duration
  pub flush_immediately : Bool
  pub initial_capacity : ℤ
  pub buffer_size : ℤ
  pub debug : Bool

pub record StorageConfig : Type 0 where
  pub base_dir : String
  pub partition_format : String
  pub buffer_size : ℤ
  pub compress_data : Bool
  pub retention_period : Duration
  pub debug : Bool

pub data ConfigError : Type 0 where
  partition_duration_negative max_partitions_negative : ConfigError

abbrev minutes : ℕ → Duration
minutes n = pos (n * 60 * second)

abbrev mebibyte : ℤ
mebibyte = pos 1_048_576

abbrev pub default_config : Config
default_config = record {
  storage_dir = "";
  partition_duration = minutes (24 * 60);
  max_partitions = pos 7;
  cleanup_interval = minutes 5;
  flush_interval = minutes 1;
  flush_immediately = false;
  initial_capacity = pos 1024;
  buffer_size = mebibyte;
  debug = false;
}

-- The later checks of `Validate`, which put a default in place of what they do not accept.
unfoldable pub repair_config : Config → Config
repair_config c = record c {
  cleanup_interval = if ltb_ℤ c.cleanup_interval (pos 0) then minutes 5 else c.cleanup_interval;
  flush_interval = if ltb_ℤ c.flush_interval (pos 0) then minutes 1 else c.flush_interval;
  initial_capacity = if leb_ℤ c.initial_capacity (pos 0) then pos 1024 else c.initial_capacity;
  buffer_size = if leb_ℤ c.buffer_size (pos 0) then mebibyte else c.buffer_size;
}

-- The configuration behind the call, and the error.
unfoldable pub validate : Config → Config × Option ConfigError
validate c =
    if ltb_ℤ c.partition_duration (pos 0)
    then (c, some partition_duration_negative)
    else if ltb_ℤ c.max_partitions (pos 0)
    then (c, some max_partitions_negative)
    else (repair_config c, none)

unfoldable pub new_storage_config : Config → StorageConfig
new_storage_config c = record {
  base_dir = c.storage_dir;
  partition_format = "2006-01-02";
  buffer_size = c.buffer_size;
  compress_data = false;
  retention_period = wrap64 (c.max_partitions *ℤ c.partition_duration);
  debug = c.debug;
}
