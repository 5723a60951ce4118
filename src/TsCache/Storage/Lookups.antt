-- ===== src/TsCache/Storage/Lookups.antt =====
-- tscache/storage.go: the names of different files differ, and the files of the partitions behind
-- `SavePartition`.
use d_utils.Base.{
  ◌≡◌, ◌≢◌, refl, sym, ◌∙◌, ap, false, String, Option, none, some, some_inj, if◌then◌else◌, ◌==◌,
  string_key,
}
use Prim.Native.String.{◌++◌ as str_append}
use d_utils.Base.Int.{ℤ}
use d_utils.Base.GoTime.{Time}
use d_utils.Base.Word.{InInt64}
use d_utils.Base.Dict.{lookup}
use d_utils.Base.Text.{Text, codes, text_key, text_eqb_iff, ext, ext-append, count}
use d_utils.TsCache.Partition.{Partition}
use d_utils.TsCache.Storage.{
  Storage, StorageError, Codec, Calls, Disk, file_name, metadata_name, temp_of, name_at, enter,
  replace_file, save_metadata, save_partition,
}
use d_utils.TsCache.Storage.Names.{name-ext, name_not_metadata, recover, recover-file_name}
use d_utils.TsCache.Storage.Saving.{EndsIn, EndsIn-lookup, replace_file-IsAtomic}

temp_ext : (s : Text) → ext (temp_of s) ≡ codes ".tmp"
temp_ext s = ext-append s b'.' (codes "tmp") (codes ".tmp") (unfold ext in refl)

module _ (date_of : String → ℤ → Text) (format : String) where
  abbrev name : ℤ → Text
  name t = file_name date_of format t

  pub temp-ne-name : (s : Text) (t : ℤ) → temp_of s ≢ name t
  temp-ne-name s t e = cc (
      (text_eqb_iff (codes ".tmp") (codes ".dat")).1
        (sym (temp_ext s) ∙ ap ext e ∙ name-ext date_of format t))

  pub metadata-ne-name : (t : ℤ) → metadata_name ≢ name t
  metadata-ne-name t e =
      cc (name_not_metadata date_of format t, (text_eqb_iff (name t) metadata_name).1 (sym e))

  abbrev pub IsPlain : ℤ → Type 0
  IsPlain t = InInt64 t × (count b'_' (date_of format t) ≡ 0)

  pub name_inj : (t u : ℤ) → IsPlain t → IsPlain u → name t ≡ name u → t ≡ u
  name_inj t u (ft, ct) (fu, cu) e = some_inj (
      sym (rw ct at (recover-file_name date_of format t ft))
      ∙ ap (λ n. recover n false) e
      ∙ rw cu at (recover-file_name date_of format u fu))

module _ {ℓ} {T Bytes : Type ℓ} {E : Type 0} (date_of : String → ℤ → Text)
    (codec : Codec T Bytes E) where
  -- The files of the partitions are not touched by a save of the metadata.
  save_metadata-lookup :
      (s : Storage Bytes) (calls : Calls Bytes E) (format : String) (u : ℤ)
      → lookup (file_name date_of format u) (save_metadata codec s calls).0.disk.files
        ≡ lookup (file_name date_of format u) s.disk.files
  unfolding save_metadata
  save_metadata-lookup s calls format u =
      let (states, went, all, ends) =
        replace_file-IsAtomic (λ step. str_append step "-metadata") metadata_name codec.no_bytes
          (codec.encode_metadata s.metadata) (record calls { flushed = none }) s.disk in
      EndsIn-lookup (temp_of metadata_name) metadata_name codec.no_bytes
        (codec.encode_metadata s.metadata) s.disk _ _ _ ends
        (temp-ne-name date_of format metadata_name u) (metadata-ne-name date_of format u)

  module _ (s : Storage Bytes) (p : Partition T) (now : Time)
      (calls metadata_calls : Calls Bytes E) where
    abbrev pub own : Text
    own = name_at date_of codec s p.start_time

    abbrev pub written : Disk Bytes × Option (StorageError E)
    written = replace_file (λ step. step) own codec.no_bytes (codec.encode p) calls s.disk

    abbrev pub saved : Storage Bytes × Option (StorageError E)
    saved = save_partition date_of codec s p now calls metadata_calls

    module _ (used : (s.cfg.base_dir == "") ≡ false) where
      pub saved_error :
          (e : StorageError E)
          → written.1 ≡ some e
          → saved ≡ (record s { disk = written.0 }, some e)
      unfolding save_partition
      saved_error e h = rw (used, h) refl

      pub saved_done :
          written.1 ≡ none
          → saved
            ≡ save_metadata codec (enter date_of codec s written.0 p.start_time now) metadata_calls
      unfolding save_partition
      saved_done h = rw (used, h) refl

      ends :
          EndsIn (temp_of own) own codec.no_bytes (codec.encode p) s.disk written.1 written.0.files
      ends =
          (replace_file-IsAtomic (λ step. step) own codec.no_bytes (codec.encode p) calls s.disk).3

      -- The files of the partitions behind a save, without an error in its first part and with one.
      pub saved_done-lookup :
          (u : ℤ)
          → written.1 ≡ none
          → lookup (name_at date_of codec s u) saved.0.disk.files ≡ (
              if own == name_at date_of codec s u
              then some (codec.encode p)
              else lookup (name_at date_of codec s u) s.disk.files)
      saved_done-lookup u h = rw (saved_done h) (
          save_metadata-lookup (enter date_of codec s written.0 p.start_time now) metadata_calls
            s.cfg.partition_format u
          ∙ (rw h at ends) (name_at date_of codec s u)
              (temp-ne-name date_of s.cfg.partition_format own u))

      pub saved_error-lookup :
          (u : ℤ) (e : StorageError E)
          → written.1 ≡ some e
          → lookup (name_at date_of codec s u) saved.0.disk.files
            ≡ lookup (name_at date_of codec s u) s.disk.files
      saved_error-lookup u e h = rw (saved_error e h) (
          (rw h at ends) (name_at date_of codec s u)
            (temp-ne-name date_of s.cfg.partition_format own u))
