-- ===== src/TsCache/Restart/Saved.antt =====
-- tscache/cache.go: the storage behind `Close`.
use d_utils.Base.{
  ◌≡◌, ◌≢◌, refl, sym, ◌∙◌, ap, false, String, List, [], ◌∷◌, Option, none, some, Option-cases,
  Bool-cases, inl, inr, if◌then◌else◌, ◌==◌, string_key, All, arith,
}
use mathlib.Core.Path.{subst}
use d_utils.Base.Int.{ℤ, int_key, pos, eqb_ℤ, eqb_ℤ_iff}
use d_utils.Base.GoTime.{Time}
use d_utils.Base.Dict.{Dict, Distinct, lookup, lookup-insert, insert-Distinct, values}
use d_utils.Base.Text.{Text, text_key}
use d_utils.TsCache.Partition.{Partition}
use d_utils.TsCache.Config.{StorageConfig}
use d_utils.TsCache.Storage.{
  Storage, StorageError, Metadata, Codec, decoded, Calls, loaded, enter, name_at, save_metadata,
  save_partition, load_partition,
}
use d_utils.TsCache.Storage.Opening.{load_metadata, load_metadata_decoded, save_metadata-written}
use d_utils.TsCache.Storage.Lookups.{IsPlain, written, saved_done}
use d_utils.TsCache.Storage.RoundTrip.{first_part, cfg_same, save-load}
use d_utils.TsCache.Restart.{Saving, save_each}

eqb_ne : (a b : ℤ) → a ≢ b → eqb_ℤ a b ≡ false
eqb_ne a b h = elim (Bool-cases (eqb_ℤ a b)) [
  | inl same ↦ absurd (h ((eqb_ℤ_iff a b).0 same))
  | inr other ↦ other
]

module _ {ℓ} {T Bytes : Type ℓ} {E : Type 0} (date_of : String → ℤ → Text)
    (codec : Codec T Bytes E) where
  -- The codec decodes what it encoded.
  pub record IsLawful : Type ℓ where
    pub decodes : (p : Partition T) → codec.decode (codec.encode p) ≡ decoded p
    pub decodes_metadata :
        (m : Metadata) → codec.decode_metadata (codec.encode_metadata m) ≡ decoded m

  abbrev pub blank : Storage Bytes → Storage Bytes
  blank s = record s { metadata = record { last_write = pos 0; partition_map = [] } }

  -- The metadata file holds the metadata.
  abbrev pub IsSynced : Storage Bytes → Type ℓ
  IsSynced s = load_metadata codec (blank s) none ≡ (s, none)

  -- A partition of the start is listed in the metadata and can be loaded.
  abbrev pub Holds : Storage Bytes → ℤ → Partition T → Type ℓ
  Holds s t p =
      ((name : Text) × (lookup t s.metadata.partition_map ≡ some name))
      × (load_partition date_of codec s t none ≡ loaded (some p))

  module _ (cfg : StorageConfig) (used : (cfg.base_dir == "") ≡ false) (lawful : IsLawful) where
    -- The metadata is on the disk, and what it lists can be loaded.
    pub record IsGood (s : Storage Bytes) : Type ℓ where
      pub same : s.cfg ≡ cfg
      pub synced : IsSynced s
      pub distinct : Distinct s.metadata.partition_map
      pub readable :
          (t : ℤ) (name : Text)
          → lookup t s.metadata.partition_map ≡ some name
          → IsPlain date_of cfg.partition_format t
            × ((found : Option (Partition T)) × (load_partition date_of codec s t none
                  ≡ loaded found))

    module _ (s : Storage Bytes) (p : Partition T) (now : Time)
        (calls metadata_calls : Calls Bytes E) (good : IsGood s)
        (plain : IsPlain date_of cfg.partition_format p.start_time)
        (fine : (save_partition date_of codec s p now calls metadata_calls).1 ≡ none) where
      abbrev s' : Storage Bytes
      s' = (save_partition date_of codec s p now calls metadata_calls).0

      used' : (s.cfg.base_dir == "") ≡ false
      used' = subst (λ (c : StorageConfig). (c.base_dir == "") ≡ false) (sym good.same) used

      IsPlain-cfg :
          (t : ℤ)
          → IsPlain date_of cfg.partition_format t
          → IsPlain date_of s.cfg.partition_format t
      IsPlain-cfg t =
          subst (λ (c : StorageConfig). IsPlain date_of c.partition_format t) (sym good.same)

      abbrev entered : Storage Bytes
      entered =
          enter date_of codec s (written date_of codec s p now calls metadata_calls).0 p.start_time
            now

      done :
          save_partition date_of codec s p now calls metadata_calls
          ≡ save_metadata codec entered metadata_calls
      done =
          saved_done date_of codec s p now calls metadata_calls used'
            (first_part date_of codec s p now calls metadata_calls used' fine)

      listed :
          (t : ℤ)
          → lookup t s'.metadata.partition_map ≡ (
              if eqb_ℤ p.start_time t
              then some (name_at date_of codec s p.start_time)
              else lookup t s.metadata.partition_map)
      listed t =
          subst
            (λ r. lookup t r.0.metadata.partition_map ≡ (
              if eqb_ℤ p.start_time t
              then some (name_at date_of codec s p.start_time)
              else lookup t s.metadata.partition_map))
            (sym done)
            (unfold save_metadata in
              lookup-insert p.start_time t (name_at date_of codec s p.start_time)
                s.metadata.partition_map)

      synced' : IsSynced s'
      synced' =
          subst (λ r. IsSynced r.0) (sym done)
            (load_metadata_decoded codec (blank (save_metadata codec entered metadata_calls).0) _ _
                (save_metadata-written codec entered metadata_calls
                  (ap (λ r. r.1) (sym done) ∙ fine))
                (lawful.decodes_metadata entered.metadata)
              ∙ (unfold save_metadata in refl))

      loads_own : load_partition date_of codec s' p.start_time none ≡ loaded (some p)
      loads_own =
          (save-load date_of codec s p now calls metadata_calls used' (lawful.decodes p)
            (IsPlain-cfg p.start_time plain) fine).0

      loads_other :
          (t : ℤ)
          → IsPlain date_of cfg.partition_format t
          → p.start_time ≢ t
          → load_partition date_of codec s' t none ≡ load_partition date_of codec s t none
      loads_other t plain' =
          (save-load date_of codec s p now calls metadata_calls used' (lawful.decodes p)
              (IsPlain-cfg p.start_time plain) fine).1
            t none (IsPlain-cfg t plain')

      unequal : (t : ℤ) → eqb_ℤ p.start_time t ≡ false → p.start_time ≢ t
      unequal t h e = cc (h, (eqb_ℤ_iff p.start_time t).1 e)

      readable' :
          (t : ℤ) (name : Text)
          → lookup t s'.metadata.partition_map ≡ some name
          → IsPlain date_of cfg.partition_format t
            × ((found : Option (Partition T)) × (load_partition date_of codec s' t none
                  ≡ loaded found))
      readable' t name e = elim (Bool-cases (eqb_ℤ p.start_time t)) [
        | inl own ↦
            subst
              (λ u.
                IsPlain date_of cfg.partition_format u
                × ((found : Option (Partition T)) × (load_partition date_of codec s' u none
                      ≡ loaded found)))
              ((eqb_ℤ_iff p.start_time t).0 own) (plain, (some p, loads_own))
        | inr other ↦
            let (plain', (found, there)) =
              good.readable t name (sym (listed t ∙ (rw other refl)) ∙ e) in
            (plain', (found, loads_other t plain' (unequal t other) ∙ there))
      ]

      distinct' : Distinct s'.metadata.partition_map
      distinct' =
          subst (λ r. Distinct r.0.metadata.partition_map) (sym done)
            (unfold save_metadata in
              insert-Distinct p.start_time (name_at date_of codec s p.start_time)
                s.metadata.partition_map good.distinct)

      -- A save without an error keeps the storage good.
      saved-IsGood : IsGood s'
      saved-IsGood = record {
        same = cfg_same date_of codec s p now calls metadata_calls used' fine ∙ good.same;
        synced = synced';
        distinct = distinct';
        readable = readable';
      }

      saved-Holds : Holds s' p.start_time p
      saved-Holds = (
        (
          name_at date_of codec s p.start_time,
          listed p.start_time ∙ (rw ((eqb_ℤ_iff p.start_time p.start_time).1 refl) refl),
        ),
        loads_own,
      )

      kept-Holds :
          (t : ℤ) (q : Partition T)
          → IsPlain date_of cfg.partition_format t
          → p.start_time ≢ t
          → Holds s t q
          → Holds s' t q
      kept-Holds t q plain' other ((name, e), there) = (
        (name, listed t ∙ (rw (eqb_ne p.start_time t other) e)),
        loads_other t plain' other ∙ there,
      )

    -- An error is not lost in the later rounds of `Close`.
    save_each_failed :
        (ps : List (Partition T)) (saving : ℤ → Saving Bytes E) (s : Storage Bytes)
        (e : StorageError E)
        → (save_each date_of codec ps saving s (some e)).1 ≢ none
    unfolding save_each
    save_each_failed [] saving s e h = cc h
    save_each_failed (p ∷ ps) saving s e h =
        let w = saving p.start_time in
        let s1 = (save_partition date_of codec s p w.now w.calls w.metadata_calls).0 in
        elim (Option-cases (save_partition date_of codec s p w.now w.calls w.metadata_calls).1) [
          | inl fine ↦ save_each_failed ps saving s1 e (rw (fine, save_each) at h)
          | inr (e', bad) ↦ save_each_failed ps saving s1 e' (rw (bad, save_each) at h)
        ]

    -- Each partition stands under its own start, in the range of `int64`, and the date in the name of
    -- its file has no underscore.
    abbrev pub IsKeyed : ℤ → Partition T → Type 0
    IsKeyed t p = (p.start_time ≡ t) × IsPlain date_of cfg.partition_format t

    abbrev pub AllKeyed : Dict ℤ (Partition T) → Type 0
    AllKeyed = All (λ (x : ℤ × Partition T). IsKeyed x.0 x.1)

    abbrev pub IsKept : Dict ℤ (Partition T) → Storage Bytes → Storage Bytes → Type ℓ
    IsKept m s s1 =
        IsGood s1
        × All (λ (x : ℤ × Partition T). Holds s1 x.0 x.1) m
        × ((t : ℤ) (q : Partition T)
            → IsPlain date_of cfg.partition_format t
            → lookup t m ≡ none
            → Holds s t q
            → Holds s1 t q)

    absent_tail :
        (start t : ℤ) (p : Partition T) (m : Dict ℤ (Partition T))
        → lookup t ((start, p) ∷ m) ≡ none
        → (eqb_ℤ start t ≡ false) × (lookup t m ≡ none)
    unfolding lookup
    absent_tail start t p m h = ground arith

    -- The rounds behind one that returned `o`.
    abbrev later :
        Dict ℤ (Partition T)
        → (ℤ → Saving Bytes E)
        → Storage Bytes
        → Option (StorageError E)
        → Storage Bytes
    later m saving s o =
        (save_each date_of codec (values m) saving s (elim o [ none ↦ none | some e ↦ some e ])).0

    pub save_each-Holds :
        (m : Dict ℤ (Partition T)) (saving : ℤ → Saving Bytes E) (s : Storage Bytes)
        → Distinct m
        → AllKeyed m
        → IsGood s
        → (save_each date_of codec (values m) saving s none).1 ≡ none
        → IsKept m s (save_each date_of codec (values m) saving s none).0
    unfolding save_each lookup
    save_each-Holds [] saving s d keyed good h = (good, tt, λ t q plain absent holds. holds)
    save_each-Holds ((start, p) ∷ m) saving s d keyed good h =
        let w = saving p.start_time in
        let s1 = (save_partition date_of codec s p w.now w.calls w.metadata_calls).0 in
        elim (Option-cases (save_partition date_of codec s p w.now w.calls w.metadata_calls).1) [
          | inr (e, bad) ↦
              absurd (save_each_failed (values m) saving s1 e (rw (bad, save_each) at h))
          | inl fine ↦
              let (own, plain) = keyed.0 in
              let plain' : IsPlain date_of cfg.partition_format p.start_time =
                subst (λ u. IsPlain date_of cfg.partition_format u) (sym own) plain in
              let good1 = saved-IsGood s p w.now w.calls w.metadata_calls good plain' fine in
              let (good2, all, keeps) =
                save_each-Holds m saving s1 d.1 keyed.1 good1 (rw (fine, save_each) at h) in
              let mine : Holds s1 start p =
                subst (λ u. Holds s1 u p) own
                  (saved-Holds s p w.now w.calls w.metadata_calls good plain' fine) in
              subst (IsKept ((start, p) ∷ m) s) (ap (λ o. later m saving s1 o) (sym fine)) (
                good2,
                (keeps start p plain d.0 mine, all),
                λ t q plain_t absent holds.
                    let (other, absent') = absent_tail start t p m absent in
                    keeps t q plain_t absent' (
                      kept-Holds s p w.now w.calls w.metadata_calls good plain' fine t q plain_t
                        (λ e. cc (other, (eqb_ℤ_iff start t).1 (sym own ∙ e))) holds),
              )
        ]
