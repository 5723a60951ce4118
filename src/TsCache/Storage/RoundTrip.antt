-- ===== src/TsCache/Storage/RoundTrip.antt =====
-- tscache/storage.go: what `LoadPartition` finds behind `SavePartition`.
use d_utils.Base.{
  ◌≡◌, ◌≢◌, refl, sym, ◌∙◌, ap, false, String, Option, none, some, Option-cases, inl, inr, ◌==◌,
  string_key, same_key_refl,
}
use d_utils.Base.Int.{ℤ}
use d_utils.Base.GoTime.{Time}
use d_utils.Base.Dict.{lookup}
use d_utils.Base.Text.{Text, text_key}
use d_utils.TsCache.Partition.{Partition}
use d_utils.TsCache.Config.{StorageConfig}
use d_utils.TsCache.Storage.{
  Storage, StorageError, wrap_storage_error, Codec, decoded, at_eof, broken, Calls, Loaded, loaded,
  failed, name_at, file_name, save_metadata, save_partition, load_partition,
}
use d_utils.TsCache.Storage.Saving.{ne_false}
use d_utils.TsCache.Storage.Lookups.{
  IsPlain, name_inj, written, saved, saved_error, saved_done, saved_done-lookup,
}

module _ {ℓ} {T Bytes : Type ℓ} {E : Type 0} (date_of : String → ℤ → Text)
    (codec : Codec T Bytes E) where
  -- A load, by the name and the content of the file.
  abbrev load_from : Text → Option Bytes → Option E → Loaded T E
  load_from name none opened = loaded none
  load_from name (some b) (some e) = failed (wrap_storage_error "load" name e)
  load_from name (some b) none = elim (codec.decode b) [
    | decoded p ↦ loaded (some p)
    | at_eof p ↦ loaded (some p)
    | broken e ↦ failed (wrap_storage_error "decode" name e)
  ]

  load_partition-load_from :
      (s : Storage Bytes) (t : ℤ) (opened : Option E)
      → load_partition date_of codec s t opened
        ≡ load_from
            (name_at date_of codec s t)
            (lookup (name_at date_of codec s t) s.disk.files)
            opened
  unfolding load_partition
  load_partition-load_from s t opened =
      elim (Option-cases (lookup (name_at date_of codec s t) s.disk.files)) [
        | inl absent ↦ rw (absent, load_partition) refl
        | inr (b, there) ↦ elim (Option-cases opened) [
          | inl fine ↦ rw (there, fine, load_partition) refl
          | inr (e, bad) ↦ rw (there, bad, load_partition) refl
        ]
      ]

  -- With the same configuration a load depends on the content of the file alone.
  load_partition_by :
      (s s' : Storage Bytes) (t : ℤ) (opened : Option E) (content : Option Bytes)
      → s'.cfg ≡ s.cfg
      → lookup (name_at date_of codec s t) s'.disk.files ≡ content
      → load_partition date_of codec s' t opened
        ≡ load_from (name_at date_of codec s t) content opened
  load_partition_by s s' t opened content same there =
      load_partition-load_from s' t opened
      ∙ ap
          (λ (c : StorageConfig).
            load_from (file_name date_of c.partition_format t)
              (lookup (file_name date_of c.partition_format t) s'.disk.files) opened)
          same
      ∙ ap (λ o. load_from (name_at date_of codec s t) o opened) there

  module _ (s : Storage Bytes) (p : Partition T) (now : Time) (calls metadata_calls : Calls Bytes E)
      (used : (s.cfg.base_dir == "") ≡ false) where
    abbrev pub after : Storage Bytes × Option (StorageError E)
    after = saved date_of codec s p now calls metadata_calls

    pub first_part : after.1 ≡ none → (written date_of codec s p now calls metadata_calls).1 ≡ none
    first_part fine = elim (Option-cases (written date_of codec s p now calls metadata_calls).1) [
      | inl done ↦ done
      | inr (e, bad) ↦
          cc (
            ap (λ r. r.1) (saved_error date_of codec s p now calls metadata_calls used e bad),
            fine,
          )
    ]

    pub cfg_same : after.1 ≡ none → after.0.cfg ≡ s.cfg
    cfg_same fine =
        rw (saved_done date_of codec s p now calls metadata_calls used (first_part fine))
          (unfold save_metadata in refl)

    pub save-load :
        codec.decode (codec.encode p) ≡ decoded p
        → IsPlain date_of s.cfg.partition_format p.start_time
        → (save_partition date_of codec s p now calls metadata_calls).1 ≡ none
        → let s' = (save_partition date_of codec s p now calls metadata_calls).0 in
          (load_partition date_of codec s' p.start_time none ≡ loaded (some p))
          × ((u : ℤ) (opened : Option E)
              → IsPlain date_of s.cfg.partition_format u
              → p.start_time ≢ u
              → load_partition date_of codec s' u opened ≡ load_partition date_of codec s u opened)
    save-load law plain fine =
        let at = λ (u : ℤ).
          saved_done-lookup date_of codec s p now calls metadata_calls used u (first_part fine) in
        (
          load_partition_by s after.0 p.start_time none (some (codec.encode p)) (cfg_same fine)
                (at p.start_time ∙ (rw (same_key_refl (name_at date_of codec s p.start_time)) refl))
              ∙ (rw (law, load_from) refl),
          λ u opened plain' other.
              load_partition_by s after.0 u opened (lookup (name_at date_of codec s u) s.disk.files)
                (cfg_same fine)
                (at u
                  ∙ (rw
                      (ne_false (name_at date_of codec s p.start_time) (name_at date_of codec s u)
                        (λ e.
                          other (
                            name_inj date_of s.cfg.partition_format p.start_time u plain plain' e)))
                      refl))
              ∙ sym (load_partition-load_from s u opened),
        )
