-- ===== src/TsCache/Storage/Atomic.antt =====
-- tscache/storage.go: the states of the directory in the course of `SavePartition`.
use d_utils.Base.{
  ◌≡◌, false, String, List, ◌∷◌, ◌++◌, Option, none, some, ◌==◌, string_key, ◌⊎◌, All,
}
use Prim.Native.String.{◌++◌ as str_append}
use d_utils.Base.Int.{ℤ}
use d_utils.Base.GoTime.{Time}
use d_utils.Base.Dict.{Dict, lookup}
use d_utils.Base.Text.{Text, text_key}
use d_utils.TsCache.Partition.{Partition}
use d_utils.TsCache.Storage.{
  Storage, StorageError, Codec, Calls, Disk, metadata_name, temp_of, name_at, enter, replace_file,
}
use d_utils.TsCache.Storage.Saving.{IsAtomic, replace_file-IsAtomic}
use d_utils.TsCache.Storage.Lookups.{own, written}

module _ {ℓ} {T Bytes : Type ℓ} {E : Type 0} (date_of : String → ℤ → Text) (codec : Codec T Bytes E)
    (s : Storage Bytes) (p : Partition T) (now : Time) (calls metadata_calls : Calls Bytes E)
    (used : (s.cfg.base_dir == "") ≡ false) where
  abbrev mine : Text
  mine = own date_of codec s p now calls metadata_calls

  abbrev part : Disk Bytes × Option (StorageError E)
  part = written date_of codec s p now calls metadata_calls

  abbrev first : IsAtomic (temp_of mine) mine codec.no_bytes (codec.encode p) s.disk part
  first = replace_file-IsAtomic (λ step. step) mine codec.no_bytes (codec.encode p) calls s.disk

  -- Each partition's file is as it was, or it is the one that is saved, and holds all of it.
  abbrev pub IsWhole : Dict Text Bytes → Type ℓ
  IsWhole files =
      (u : ℤ)
      → (lookup (name_at date_of codec s u) files ≡ lookup (name_at date_of codec s u) s.disk.files)
        ⊎ ((mine ≡ name_at date_of codec s u)
            × (lookup (name_at date_of codec s u) files ≡ some (codec.encode p)))

  -- The states since the call began, with the last one.
  abbrev pub GoesThrough : Disk Bytes → Type ℓ
  GoesThrough d =
      (states : List (Dict Text Bytes)) × (d.past ≡ states ++ s.disk.past)
      × All IsWhole (d.files ∷ states)

  abbrev entered : Storage Bytes
  entered = enter date_of codec s part.0 p.start_time now

  abbrev second : Disk Bytes × Option (StorageError E)
  second =
      replace_file (λ step. str_append step "-metadata") metadata_name codec.no_bytes
        (codec.encode_metadata entered.metadata) (record metadata_calls { flushed = none }) part.0
