-- ===== src/TsCache/Storage/Opening.antt =====
-- tscache/storage.go: `NewStorage` and the metadata that it loads.
use d_utils.Base.{◌≡◌, refl, false, [], Option, none, some, if◌then◌else◌, ◌==◌, string_key}
use d_utils.Base.Int.{pos, eqb_ℤ}
use d_utils.Base.Dict.{lookup}
use d_utils.Base.Text.{codes, text_key, text_eqb_iff}
use d_utils.TsCache.Config.{StorageConfig}
use d_utils.TsCache.Storage.{
  Storage, StorageError, Metadata, invalid_config, wrap_storage_error, Codec, decoded, at_eof,
  broken, Disk, metadata_name, temp_of, Calls, save_metadata,
}
use Prim.Native.String.{◌++◌ as str_append}
use d_utils.TsCache.Storage.Saving.{replace_file-IsAtomic}

module _ {ℓ} {T Bytes : Type ℓ} {E : Type 0} (codec : Codec T Bytes E) where
  unfoldable pub load_metadata : Storage Bytes → Option E → Storage Bytes × Option (StorageError E)
  load_metadata s opened = elim (lookup metadata_name s.disk.files) [
    | none ↦ (s, none)
    | some b ↦ elim opened [
      | some e ↦ (s, some (wrap_storage_error "load-metadata" metadata_name e))
      | none ↦ elim (codec.decode_metadata b) [
        | decoded m ↦ (record s { metadata = m }, none)
        | at_eof m ↦ (record s { metadata = m }, none)
        | broken e ↦ (s, some (wrap_storage_error "decode-metadata" metadata_name e))
      ]
    ]
  ]

  -- The defaults of `NewStorage`.
  abbrev pub with_defaults : StorageConfig → StorageConfig
  with_defaults cfg = record cfg {
    partition_format = if cfg.partition_format == "" then "2006-01-02" else cfg.partition_format;
    buffer_size = if eqb_ℤ cfg.buffer_size (pos 0) then pos 1_048_576 else cfg.buffer_size;
  }

  -- The storage, or the error; `made` is what `os.MkdirAll` returns. `time.Time{}` is the zero time.
  unfoldable pub new_storage :
      StorageConfig → Disk Bytes → Option E → Option E → Storage Bytes × Option (StorageError E)
  new_storage cfg disk made opened =
      let s : Storage Bytes = record {
        cfg = with_defaults cfg;
        disk = disk;
        metadata = record { last_write = pos 0; partition_map = [] };
      } in
      if cfg.base_dir == ""
      then (s, some (record { op = "new"; path = []; err = invalid_config }))
      else elim made [
        | some e ↦ (s, some (wrap_storage_error "new" (codes cfg.base_dir) e))
        | none ↦ load_metadata s opened
      ]

  pub load_metadata_decoded :
      (s : Storage Bytes) (b : Bytes) (m : Metadata)
      → lookup metadata_name s.disk.files ≡ some b
      → codec.decode_metadata b ≡ decoded m
      → load_metadata s none ≡ (record s { metadata = m }, none)
  unfolding load_metadata
  load_metadata_decoded s b m there law = rw (there, load_metadata, law) refl

  -- What the metadata file holds behind a write without an error.
  pub save_metadata-written :
      (s : Storage Bytes) (calls : Calls Bytes E)
      → (save_metadata codec s calls).1 ≡ none
      → lookup metadata_name (save_metadata codec s calls).0.disk.files
        ≡ some (codec.encode_metadata s.metadata)
  unfolding save_metadata
  save_metadata-written s calls fine =
      let (states, went, all, ends) =
        replace_file-IsAtomic (λ step. str_append step "-metadata") metadata_name codec.no_bytes
          (codec.encode_metadata s.metadata) (record calls { flushed = none }) s.disk in
      (rw fine at ends) metadata_name
        (λ e. cc ((text_eqb_iff (temp_of metadata_name) metadata_name).1 e))

  -- A storage that is opened behind a write of the metadata without an error, with a directory, has
  -- the metadata that was written, if the codec decodes what it encoded.
  pub save_metadata-new_storage :
      (s : Storage Bytes) (calls : Calls Bytes E) (cfg : StorageConfig)
      → (cfg.base_dir == "") ≡ false
      → codec.decode_metadata (codec.encode_metadata s.metadata) ≡ decoded s.metadata
      → (save_metadata codec s calls).1 ≡ none
      → let d = (save_metadata codec s calls).0.disk in
        new_storage cfg d none none
        ≡ (record { cfg = with_defaults cfg; disk = d; metadata = s.metadata }, none)
  unfolding new_storage
  save_metadata-new_storage s calls cfg used law fine = rw used (
      load_metadata_decoded
        (record {
          cfg = with_defaults cfg;
          disk = (save_metadata codec s calls).0.disk;
          metadata = record { last_write = pos 0; partition_map = [] };
        })
        (codec.encode_metadata s.metadata) s.metadata (save_metadata-written s calls fine) law)
