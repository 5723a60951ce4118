-- ===== src/TsCache/Storage.antt =====
-- tscache/storage.go: the files of the cache, one for each partition and one with the metadata. A
-- storage directory is a map from file names to contents; `past` are the states that it has been in,
-- the latest first, any of which a crash may leave behind. The date in a file name, which
-- `time.Time.Format` makes, and the MessagePack codec are parameters. What a call of the operating
-- system returns is an argument: none, or an error; a removal in a deferred function works. The locks
-- are held throughout, so each method is one function. A path in an error is the file name alone.
pub mod Names
pub mod Saving
pub mod Lookups
pub mod Atomic
pub mod RoundTrip
pub mod Opening
pub mod Retention
pub mod Repair
pub mod Tests
use d_utils.Base.{
  ℕ, zero, Bool, true, false, not, ◌&&◌, ◌||◌, String, List, [], ◌∷◌, ◌++◌, Option, none, some,
  if◌then◌else◌, ◌==◌, string_key,
}
use Prim.Native.String.{◌++◌ as str_append}
use d_utils.Base.Int.{ℤ, int_key, pos, ltb_ℤ, eqb_ℤ}
use d_utils.Base.Word.{sub64}
use d_utils.Base.GoTime.{Time, Duration, add, unix_nano}
use d_utils.Base.Dict.{Dict, lookup, insert, remove}
use d_utils.Base.Text.{Text, codes, text_key, split, trim_suffix, ext}
use d_utils.Base.Decimal.{format_int, parse_int}
use d_utils.TsCache.Partition.{Partition}
use d_utils.TsCache.Config.{StorageConfig}

-- `StorageError`, by its fields; a cause is an error of the package or one from outside.
pub data Cause (E : Type 0) : Type 0 where
  invalid_config : Cause E
  cause : E → Cause E

pub record StorageError (E : Type 0) : Type 0 where
  pub op : String
  pub path : Text
  pub err : Cause E

abbrev pub wrap_storage_error : {E : Type 0} → String → Text → E → StorageError E
wrap_storage_error op path e = record { op = op; path = path; err = cause e }

pub record Metadata : Type 0 where
  pub last_write : Time
  pub partition_map : Dict ℤ Text

-- What a decoder makes of a file: a value, the part of one before the end of the file, or an error.
pub data Decoded {ℓ} (A : Type ℓ) (E : Type 0) : Type ℓ where
  decoded at_eof : A → Decoded A E
  broken : E → Decoded A E

pub record Codec {ℓ} (T Bytes : Type ℓ) (E : Type 0) : Type ℓ where
  pub encode : Partition T → Bytes
  pub decode : Bytes → Decoded (Partition T) E
  pub encode_metadata : Metadata → Bytes
  pub decode_metadata : Bytes → Decoded Metadata E
  pub no_bytes : Bytes

pub record Disk {ℓ} (Bytes : Type ℓ) : Type ℓ where
  pub files : Dict Text Bytes
  pub past : List (Dict Text Bytes)

pub record Storage {ℓ} (Bytes : Type ℓ) : Type ℓ where
  pub cfg : StorageConfig
  pub disk : Disk Bytes
  pub metadata : Metadata

-- What the calls that replace a file return, in their order; `written` is what a failed write leaves.
pub record Calls {ℓ} (Bytes : Type ℓ) (E : Type 0) : Type ℓ where
  pub opened : Option E
  pub encoded : Option E
  pub flushed : Option E
  pub synced : Option E
  pub closed : Option E
  pub renamed : Option E
  pub written : Bytes

pub data Loaded {ℓ} (T : Type ℓ) (E : Type 0) : Type ℓ where
  loaded : Option (Partition T) → Loaded T E
  failed : StorageError E → Loaded T E

abbrev pub metadata_name : Text
metadata_name = codes "metadata.dat"

abbrev pub temp_of : Text → Text
temp_of name = name ++ codes ".tmp"

-- The file name of `getPartitionPath`.
unfoldable pub file_name : (String → ℤ → Text) → String → ℤ → Text
file_name date_of format t =
    codes "partition_" ++ (date_of format t ++ (codes "_" ++ (format_int t ++ codes ".dat")))

module _ {ℓ} {Bytes : Type ℓ} where
  abbrev pub change : (Dict Text Bytes → Dict Text Bytes) → Disk Bytes → Disk Bytes
  change f d = record { files = f d.files; past = d.files ∷ d.past }

  -- `os.Rename`, which replaces a file of the new name.
  unfoldable pub rename : Text → Text → Dict Text Bytes → Dict Text Bytes
  rename from to files = elim (lookup from files) [
    | none ↦ files
    | some b ↦ insert to b (remove from files)
  ]

  -- The deferred removal of the temporary file, and the error.
  abbrev give_up :
      {E : Type 0} → Text → StorageError E → Disk Bytes → Disk Bytes × Option (StorageError E)
  give_up temp e d = (change (remove temp) d, some e)

  -- A new content for a file: into a temporary file, which is renamed at the end and removed on any
  -- error. `op` names the step in an error.
  unfoldable pub replace_file :
      {E : Type 0}
      → (String → String)
      → Text
      → Bytes
      → Bytes
      → Calls Bytes E
      → Disk Bytes
      → Disk Bytes × Option (StorageError E)
  replace_file op name no_bytes content calls d =
      let temp = temp_of name in
      let created = change (insert temp no_bytes) d in
      let partly = change (insert temp calls.written) created in
      let whole = change (insert temp content) created in
      elim calls.opened [
        | some e ↦ (d, some (wrap_storage_error (op "save") temp e))
        | none ↦ elim calls.encoded [
          | some e ↦ give_up temp (wrap_storage_error (op "encode") temp e) partly
          | none ↦ elim calls.flushed [
            | some e ↦ give_up temp (wrap_storage_error (op "flush") temp e) partly
            | none ↦ elim calls.synced [
              | some e ↦ give_up temp (wrap_storage_error (op "sync") temp e) whole
              | none ↦ elim calls.closed [
                | some e ↦ give_up temp (wrap_storage_error (op "close") temp e) whole
                | none ↦ elim calls.renamed [
                  | some e ↦ give_up temp (wrap_storage_error (op "rename") name e) whole
                  | none ↦ (change (rename temp name) whole, none)
                ]
              ]
            ]
          ]
        ]
      ]

module _ {ℓ} {T Bytes : Type ℓ} {E : Type 0} (codec : Codec T Bytes E) where
  -- The metadata is written without a buffer, so there is no flush.
  unfoldable pub save_metadata :
      Storage Bytes → Calls Bytes E → Storage Bytes × Option (StorageError E)
  save_metadata s calls =
      let (d, e) =
        replace_file (λ step. str_append step "-metadata") metadata_name codec.no_bytes
          (codec.encode_metadata s.metadata) (record calls { flushed = none }) s.disk in
      (record s { disk = d }, e)

module _ {ℓ} {T Bytes : Type ℓ} {E : Type 0} (date_of : String → ℤ → Text)
    (codec : Codec T Bytes E) where
  abbrev pub name_at : Storage Bytes → ℤ → Text
  name_at s t = file_name date_of s.cfg.partition_format t

  -- The metadata behind a save.
  abbrev pub enter : Storage Bytes → Disk Bytes → ℤ → Time → Storage Bytes
  enter s d start now = record s {
    disk = d;
    metadata = record {
      last_write = now;
      partition_map = insert start (name_at s start) s.metadata.partition_map;
    };
  }

  unfoldable pub save_partition :
      Storage Bytes
      → Partition T
      → Time
      → Calls Bytes E
      → Calls Bytes E
      → Storage Bytes × Option (StorageError E)
  save_partition s p now calls metadata_calls =
      let (d, e) =
        replace_file (λ step. step) (name_at s p.start_time) codec.no_bytes (codec.encode p) calls
          s.disk in
      if s.cfg.base_dir == "" then (s, none) else elim e [
        | some err ↦ (record s { disk = d }, some err)
        | none ↦ save_metadata codec (enter s d p.start_time now) metadata_calls
      ]

  -- `io.EOF` is no error. `opened` is an error of `os.Open`, but for that the file is not there.
  unfoldable pub load_partition : Storage Bytes → ℤ → Option E → Loaded T E
  load_partition s t opened = elim (lookup (name_at s t) s.disk.files) [
    | none ↦ loaded none
    | some b ↦ elim opened [
      | some e ↦ failed (wrap_storage_error "load" (name_at s t) e)
      | none ↦ elim (codec.decode b) [
        | decoded p ↦ loaded (some p)
        | at_eof p ↦ loaded (some p)
        | broken e ↦ failed (wrap_storage_error "decode" (name_at s t) e)
      ]
    ]
  ]
