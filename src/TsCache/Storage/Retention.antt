-- ===== src/TsCache/Storage/Retention.antt =====
-- tscache/storage.go: `DeleteOldPartitions`.
use d_utils.Base.{
  ◌≡◌, ◌≢◌, refl, ◌∙◌, Bool, ◌&&◌, ◌||◌, ◌==◌, true, false, [], ◌∷◌, Option, none, some,
  if◌then◌else◌, Bool-cases, Option-cases, inl, inr, arith,
}
use d_utils.Base.Int.{ℤ, int_key, pos, ltb_ℤ, eqb_ℤ, eqb_ℤ_iff}
use d_utils.Base.Word.{sub64}
use d_utils.Base.GoTime.{Time, add, unix_nano}
use d_utils.Base.Dict.{Dict, lookup, remove, lookup-remove}
use d_utils.Base.Text.{Text, text_key}
use d_utils.TsCache.Storage.{
  Storage, StorageError, wrap_storage_error, Codec, Calls, change, save_metadata, metadata_name,
  temp_of,
}
use Prim.Native.String.{◌++◌ as str_append}
use d_utils.TsCache.Storage.Saving.{EndsIn-lookup, replace_file-IsAtomic}

abbrev pub cutoff_of {ℓ} : {Bytes : Type ℓ} → Storage Bytes → Time → ℤ
cutoff_of s now = unix_nano (add now (sub64 (pos 0) s.cfg.retention_period))

-- An entry that is older than the cutoff has the file name.
abbrev pub is_listed : ℤ → Text → Dict ℤ Text → Bool
is_listed cutoff k [] = false
is_listed cutoff k ((t, name) ∷ m) = (ltb_ℤ t cutoff && name == k) || is_listed cutoff k m

abbrev kept : Option Text → ℤ → ℤ → Option Text → Option Text
kept none t cutoff before = before
kept (some name) t cutoff before = if ltb_ℤ t cutoff then none else before

kept_own :
    (o : Option Text) (t cutoff : ℤ) → kept o t cutoff o ≡ (if ltb_ℤ t cutoff then none else o)
kept_own none t cutoff = ground arith
kept_own (some name) t cutoff = refl

module _ {ℓ} {T Bytes : Type ℓ} {E : Type 0} (codec : Codec T Bytes E) where
  abbrev delete_file : Storage Bytes → ℤ → Text → Storage Bytes
  delete_file s t name = record s {
    disk = change (remove name) s.disk;
    metadata = record s.metadata { partition_map = remove t s.metadata.partition_map };
  }

  -- The loop of `DeleteOldPartitions`; `removed` is what `os.Remove` returns for the file of a
  -- partition, where that is not that there is none.
  unfoldable pub delete_before :
      Dict ℤ Text → ℤ → (ℤ → Option E) → Storage Bytes → Storage Bytes × Option (StorageError E)
  delete_before [] cutoff removed s = (s, none)
  delete_before ((t, name) ∷ m) cutoff removed s = elim (ltb_ℤ t cutoff) [
    | false ↦ delete_before m cutoff removed s
    | true ↦ elim (removed t) [
      | some e ↦ (s, some (wrap_storage_error "delete" name e))
      | none ↦ delete_before m cutoff removed (delete_file s t name)
    ]
  ]

  unfoldable pub delete_old_partitions :
      Storage Bytes
      → Time
      → (ℤ → Option E)
      → Calls Bytes E
      → Storage Bytes × Option (StorageError E)
  delete_old_partitions s now removed calls =
      let (swept, e) = delete_before s.metadata.partition_map (cutoff_of s now) removed s in
      if eqb_ℤ s.cfg.retention_period (pos 0)
      then (s, none)
      else elim e [ some err ↦ (swept, some err) | none ↦ save_metadata codec swept calls ]

  delete_before-lookup :
      (m : Dict ℤ Text) (cutoff : ℤ) (removed : ℤ → Option E) (s : Storage Bytes)
      → (delete_before m cutoff removed s).1 ≡ none
      → let s' = (delete_before m cutoff removed s).0 in
        ((t : ℤ)
          → lookup t s'.metadata.partition_map
            ≡ kept (lookup t m) t cutoff (lookup t s.metadata.partition_map))
        × ((k : Text)
            → lookup k s'.disk.files
              ≡ (if is_listed cutoff k m then none else lookup k s.disk.files))
  unfolding delete_before lookup
  delete_before-lookup [] cutoff removed s h = (λ t. refl, λ k. refl)
  delete_before-lookup ((u, name) ∷ m) cutoff removed s h = elim (Bool-cases (ltb_ℤ u cutoff)) [
    | inr young ↦
        let (map', files') =
          delete_before-lookup m cutoff removed s (rw (young, delete_before) at h) in
        rw (young, delete_before)
          (λ t. ground (arith, map' t, eqb_ℤ_iff u t), λ k. ground (arith, files' k))
    | inl old ↦ elim (Option-cases (removed u)) [
      | inr (e, bad) ↦ cc (rw (old, bad, delete_before) at h)
      | inl fine ↦
          let (map', files') =
            delete_before-lookup m cutoff removed (delete_file s u name)
              (rw (old, fine, delete_before) at h) in
          rw (old, fine, delete_before)
            (
              λ t.
                  ground (arith, map' t, eqb_ℤ_iff u t, lookup-remove u t s.metadata.partition_map),
              λ k. ground (arith, files' k, lookup-remove name k s.disk.files),
            )
    ]
  ]

  -- `DeleteOldPartitions` with a retention period, if it ends without an error: the metadata keeps
  -- the entries that are not older than the cutoff and no others, and of all files but that of the
  -- metadata exactly those of the entries that it drops are gone, the others as they were.
  pub delete_old_partitions-lookup :
      (s : Storage Bytes) (now : Time) (removed : ℤ → Option E) (calls : Calls Bytes E)
      → eqb_ℤ s.cfg.retention_period (pos 0) ≡ false
      → (delete_old_partitions s now removed calls).1 ≡ none
      → let s' = (delete_old_partitions s now removed calls).0 in
        ((t : ℤ)
          → lookup t s'.metadata.partition_map
            ≡ (if ltb_ℤ t (cutoff_of s now) then none else lookup t s.metadata.partition_map))
        × ((k : Text)
            → metadata_name ≢ k
            → temp_of metadata_name ≢ k
            → lookup k s'.disk.files ≡ (
                if is_listed (cutoff_of s now) k s.metadata.partition_map
                then none
                else lookup k s.disk.files))
  unfolding delete_old_partitions save_metadata
  delete_old_partitions-lookup s now removed calls kept_for fine =
      elim (Option-cases (delete_before s.metadata.partition_map (cutoff_of s now) removed s).1) [
        | inr (e, bad) ↦ cc (rw (kept_for, bad) at fine)
        | inl done ↦
            let swept = (delete_before s.metadata.partition_map (cutoff_of s now) removed s).0 in
            let (map', files') =
              delete_before-lookup s.metadata.partition_map (cutoff_of s now) removed s done in
            let (states, went, all, ends) =
              replace_file-IsAtomic (λ step. str_append step "-metadata") metadata_name
                codec.no_bytes (codec.encode_metadata swept.metadata)
                (record calls { flushed = none }) swept.disk in
            rw (kept_for, done)
              (
                λ t. map' t ∙ kept_own (lookup t s.metadata.partition_map) t (cutoff_of s now),
                λ k own temp.
                    EndsIn-lookup (temp_of metadata_name) metadata_name codec.no_bytes
                      (codec.encode_metadata swept.metadata) swept.disk _ _ k ends temp own
                    ∙ files' k,
              )
      ]
