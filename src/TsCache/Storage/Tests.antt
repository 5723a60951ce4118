-- ===== src/TsCache/Storage/Tests.antt =====
-- tscache/storage.go: runs in a small directory, and the theorems at it. The codec of the tests keeps
-- the values as they are.
use d_utils.Base.{
  ℕ, ◌≡◌, ◌≢◌, refl, Bool, false, String, List, [], ◌∷◌, none, some, if◌then◌else◌, arith,
}
use d_utils.Base.Int.{ℤ, int_key, pos, ltb_ℤ, ◌+ℤ◌, ◌-ℤ◌}
use d_utils.Base.GoTime.{Time, add, unix_nano}
use d_utils.Base.Word.{sub64, wrap64}
use d_utils.Base.Dict.{lookup, insert, remove}
use d_utils.Base.Text.{Text, codes, text_key, ext, split, trim_suffix}
use d_utils.TsCache.Partition.{Partition}
use d_utils.TsCache.Storage.{
  Storage, Metadata, Codec, Decoded, decoded, at_eof, Calls, file_name, metadata_name, temp_of,
  save_partition, load_partition, save_metadata, replace_file, rename,
}
use d_utils.Base.Decimal.{format_int, digits, parse_int, scan}
use d_utils.TsCache.Storage.Retention.{
  delete_before, delete_old_partitions, cutoff_of, is_listed, delete_old_partitions-lookup,
}
use d_utils.TsCache.Storage.Repair.{is_intact, repair, repair-lookup}
use d_utils.TsCache.Storage.Names.{time_of, recover, recover-file_name}

pub data Content : Type 0 where
  nothing : Content
  partition : Partition ℕ → Content
  metadata : Metadata → Content

abbrev no_partition : Partition ℕ
no_partition = record { items = []; items_map = none; start_time = pos 0; end_time = pos 0 }

abbrev no_metadata : Metadata
no_metadata = record { last_write = pos 0; partition_map = [] }

abbrev read_partition : Content → Decoded (Partition ℕ) ℕ
read_partition nothing = at_eof no_partition
read_partition (partition p) = decoded p
read_partition (metadata m) = at_eof no_partition

abbrev read_metadata : Content → Decoded Metadata ℕ
read_metadata nothing = at_eof no_metadata
read_metadata (partition p) = at_eof no_metadata
read_metadata (metadata m) = decoded m

abbrev pub plain : Codec ℕ Content ℕ
plain = record {
  encode = partition;
  decode = read_partition;
  encode_metadata = metadata;
  decode_metadata = read_metadata;
  no_bytes = nothing;
}

-- The date of every time of the tests, in a layout of the caller's choice.
abbrev pub date : String → ℤ → Text
date format t = codes format

abbrev empty : Storage Content
empty = record {
  cfg = record {
    base_dir = "/data";
    partition_format = "1970-01-01";
    buffer_size = pos 1024;
    compress_data = false;
    retention_period = pos 5000;
    debug = false;
  };
  disk = record { files = []; past = [] };
  metadata = no_metadata;
}

abbrev pub fine : Calls Content ℕ
fine = record {
  opened = none;
  encoded = none;
  flushed = none;
  synced = none;
  closed = none;
  renamed = none;
  written = nothing;
}

abbrev disk_full : Calls Content ℕ
disk_full = record fine { flushed = some 28 }

abbrev pub first : Partition ℕ
first = record no_partition { start_time = pos 7; end_time = pos 1007 }

recover-file_name_example :
    recover (file_name date "2024-12-11" (pos 1_733_932_524_705_594_573)) false
    ≡ some (pos 1_733_932_524_705_594_573)
recover-file_name_example =
    recover-file_name date "2024-12-11" (pos 1_733_932_524_705_594_573) (omega arith)

with_underscore : recover (file_name date "2024_12_11" (pos 5)) false ≡ none
with_underscore = recover-file_name date "2024_12_11" (pos 5) (omega arith)

abbrev two_files : Storage Content
two_files = record empty {
  disk = record {
    files = (codes "old.dat", partition first) ∷ ((codes "new.dat", partition first) ∷ []);
    past = [];
  };
  metadata = record {
    last_write = pos 0;
    partition_map = (pos 7, codes "old.dat") ∷ ((pos 900_000, codes "new.dat") ∷ []);
  };
}

-- A time whose cutoff is 5000 nanoseconds behind the epoch.
abbrev later : Time
later = pos 62_135_596_800_000_010_000

cutoff : cutoff_of two_files later ≡ pos 5000
unfolding add unix_nano sub64 wrap64 ◌+ℤ◌ ◌-ℤ◌
cutoff = refl

sweeps : (delete_old_partitions plain two_files later (λ t. none) fine).1 ≡ none
unfolding delete_old_partitions delete_before save_metadata replace_file add unix_nano sub64 wrap64
    ◌+ℤ◌ ◌-ℤ◌
sweeps = refl

delete_old_partitions-lookup_example :
    let s' = (delete_old_partitions plain two_files later (λ t. none) fine).0 in
    ((t : ℤ)
      → lookup t s'.metadata.partition_map ≡ (
          if ltb_ℤ t (cutoff_of two_files later)
          then none
          else lookup t two_files.metadata.partition_map))
    × ((k : Text)
        → metadata_name ≢ k
        → temp_of metadata_name ≢ k
        → lookup k s'.disk.files ≡ (
            if is_listed (cutoff_of two_files later) k two_files.metadata.partition_map
            then none
            else lookup k two_files.disk.files))
delete_old_partitions-lookup_example =
    delete_old_partitions-lookup plain two_files later (λ t. none) fine refl sweeps

-- The file of the time 7 under its proper name, and one of another name for the same time.
abbrev listing : List (Text × Bool)
listing =
    (file_name date "1970-01-01" (pos 7), false)
    ∷ ((codes "metadata.dat", false) ∷ ((codes "a_b_7.dat", false) ∷ []))

repair-lookup_example :
    lookup
      (pos 7)
      (repair date plain
        (save_partition date plain empty first (pos 0) fine fine).0
        none
        listing
        (λ t. none)
        fine).0.metadata.partition_map
    ≡ some (codes "a_b_7.dat")
unfolding recover is_intact load_partition lookup save_partition replace_file save_metadata rename
    insert file_name format_int digits remove ext time_of split parse_int trim_suffix scan
repair-lookup_example =
    repair-lookup date plain (save_partition date plain empty first (pos 0) fine fine).0 listing
      (λ t. none) fine (pos 7)
