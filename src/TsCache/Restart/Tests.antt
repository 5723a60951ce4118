-- ===== src/TsCache/Restart/Tests.antt =====
-- tscache/cache.go: a cache of one partition that is closed and made anew.
use d_utils.Base.{ℕ, string_key, [], ◌∷◌}
use d_utils.Base.Int.{ℤ, int_key, pos}
use d_utils.TsCache.Partition.{Partition}
use d_utils.TsCache.Config.{Config, default_config}
use d_utils.TsCache.Store.{Store}
use d_utils.TsCache.Storage.{Storage}
use d_utils.TsCache.Storage.Tests.{Content, plain, date, fine, first}
use d_utils.TsCache.Restart.{Saving, with_partitions}
use d_utils.TsCache.Restart.Reopened.{storage_cfg_of}

abbrev in_data : Config
in_data = record default_config { storage_dir = "/data" }

abbrev fresh : Storage Content
fresh = record {
  cfg = storage_cfg_of date plain in_data;
  disk = record { files = []; past = [] };
  metadata = record { last_write = pos 0; partition_map = [] };
}

abbrev one_partition : Store ℕ
one_partition = with_partitions date plain in_data ((pos 7, first) ∷ [])

abbrev all_fine : ℤ → Saving Content ℕ
all_fine t = record { now = pos 0; calls = fine; metadata_calls = fine }
