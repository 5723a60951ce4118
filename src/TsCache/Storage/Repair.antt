-- ===== src/TsCache/Storage/Repair.antt =====
-- tscache/storage.go: `Repair`, which makes the metadata anew from the files.
use d_utils.Base.{
  ◌≡◌, refl, ◌∙◌, ap, Bool, true, false, String, List, [], ◌∷◌, Option, none, some, Option-cases,
  Bool-cases, inl, inr, if◌then◌else◌, arith,
}
use d_utils.Base.Int.{ℤ, int_key, pos, eqb_ℤ, eqb_ℤ_iff}
use d_utils.Base.Dict.{Dict, lookup, insert, lookup-insert}
use d_utils.Base.Text.{Text, text_key}
use d_utils.TsCache.Partition.{Partition}
use d_utils.TsCache.Storage.{
  Storage, StorageError, wrap_storage_error, Codec, Decoded, decoded, at_eof, broken, file_name,
  Calls, Loaded, loaded, failed, save_metadata, load_partition,
}
use d_utils.TsCache.Storage.Names.{recover}

module _ {ℓ} {T Bytes : Type ℓ} {E : Type 0} (date_of : String → ℤ → Text)
    (codec : Codec T Bytes E) where
  abbrev pub is_some : Loaded T E → Bool
  is_some (loaded none) = false
  is_some (loaded (some p)) = true
  is_some (failed e) = false

  -- The test of `Repair` on the partition of a time; `opened t` is an error of opening its file.
  unfoldable pub is_intact : Storage Bytes → (ℤ → Option E) → ℤ → Bool
  is_intact s opened t = is_some (load_partition date_of codec s t (opened t))

  -- The body of the loop: the name of an entry, and whether it is a directory.
  unfoldable pub repair_step :
      Storage Bytes → (ℤ → Option E) → Text → Bool → Dict ℤ Text → Dict ℤ Text
  repair_step s opened name is_dir m = elim (recover name is_dir) [
    | none ↦ m
    | some t ↦ if is_intact s opened t then insert t name m else m
  ]

  unfoldable pub repair_entries :
      Storage Bytes → (ℤ → Option E) → List (Text × Bool) → Dict ℤ Text → Dict ℤ Text
  repair_entries s opened [] m = m
  repair_entries s opened ((name, is_dir) ∷ es) m =
      repair_entries s opened es (repair_step s opened name is_dir m)

  -- `read` is an error of `os.ReadDir`, and the list what it returns otherwise.
  unfoldable pub repair :
      Storage Bytes
      → Option E
      → List (Text × Bool)
      → (ℤ → Option E)
      → Calls Bytes E
      → Storage Bytes × Option (StorageError E)
  repair s read entries opened calls = elim read [
    | some e ↦ (s, some (wrap_storage_error "repair-read" [] e))
    | none ↦
        save_metadata codec
          (record s {
            metadata = record {
              last_write = pos 0;
              partition_map = repair_entries s opened entries [];
            };
          })
          calls
  ]

  -- The last of the entries from whose name the time is read.
  abbrev pub last_named : ℤ → List (Text × Bool) → Option Text → Option Text
  last_named t [] found = found
  last_named t ((name, is_dir) ∷ es) found = last_named t es (elim (recover name is_dir) [
    | none ↦ found
    | some u ↦ if eqb_ℤ u t then some name else found
  ])

  repair_step-lookup :
      (s : Storage Bytes) (opened : ℤ → Option E) (name : Text) (is_dir : Bool) (m : Dict ℤ Text)
      (t : ℤ) (found : Option Text)
      → lookup t m ≡ (if is_intact s opened t then found else none)
      → lookup t (repair_step s opened name is_dir m) ≡ (
          if is_intact s opened t
          then elim (recover name is_dir) [
            | none ↦ found
            | some u ↦ if eqb_ℤ u t then some name else found
          ]
          else none)
  unfolding repair_step
  repair_step-lookup s opened name is_dir m t found h = elim (Option-cases (recover name is_dir)) [
    | inl skipped ↦ rw (skipped, repair_step) h
    | inr (u, read) ↦ elim (Bool-cases (eqb_ℤ u t)) [
      | inl same ↦
          let e : u ≡ t = (eqb_ℤ_iff u t).0 same in
          rw (read, repair_step, same)
            (ground (arith, h, lookup-insert u t name m, ap (is_intact s opened) e))
      | inr other ↦ rw (read, repair_step, other) (ground (arith, h, lookup-insert u t name m))
    ]
  ]

  repair_entries-lookup :
      (s : Storage Bytes) (opened : ℤ → Option E) (es : List (Text × Bool)) (m : Dict ℤ Text)
      (t : ℤ) (found : Option Text)
      → lookup t m ≡ (if is_intact s opened t then found else none)
      → lookup t (repair_entries s opened es m)
        ≡ (if is_intact s opened t then last_named t es found else none)
  unfolding repair_entries
  repair_entries-lookup s opened [] m t found h = h
  repair_entries-lookup s opened ((name, is_dir) ∷ es) m t found h =
      repair_entries-lookup s opened es _ t _ (repair_step-lookup s opened name is_dir m t found h)

  -- What the bytes of a file decode to is a partition: as a whole, or as far as they go where they end
  -- early.
  abbrev pub decodes : Decoded (Partition T) E → Bool
  decodes (decoded p) = true
  decodes (at_eof p) = true
  decodes (broken e) = false

  -- The directory has a file of the name, it can be opened, and its bytes decode.
  abbrev pub has_readable : Dict Text Bytes → Text → Option E → Bool
  has_readable files name opened = elim (lookup name files) [
    | none ↦ false
    | some b ↦ elim opened [ some e ↦ false | none ↦ decodes (codec.decode b) ]
  ]

  load-decodes :
      (d : Decoded (Partition T) E) (name : Text)
      → is_some (elim d [
        | decoded p ↦ loaded (some p)
        | at_eof p ↦ loaded (some p)
        | broken e ↦ failed (wrap_storage_error "decode" name e)
      ])
        ≡ decodes d
  load-decodes (decoded p) name = refl
  load-decodes (at_eof p) name = refl
  load-decodes (broken e) name = refl

  is_intact-has_readable :
      (s : Storage Bytes) (opened : ℤ → Option E) (t : ℤ)
      → is_intact s opened t
        ≡ has_readable s.disk.files (file_name date_of s.cfg.partition_format t) (opened t)
  unfolding is_intact load_partition
  is_intact-has_readable s opened t =
      elim (Option-cases (lookup (file_name date_of s.cfg.partition_format t) s.disk.files)) [
        | inl missing ↦ rw (missing, has_readable, is_intact, load_partition) refl
        | inr (b, present) ↦ elim (Option-cases (opened t)) [
          | inr (e, closed) ↦ rw (present, has_readable, is_intact, load_partition, closed) refl
          | inl opens ↦
              rw (present, has_readable, is_intact, load_partition, opens)
                (load-decodes (codec.decode b) _)
        ]
      ]

  -- The metadata that `Repair` makes, when the directory can be read: a partition time has an entry
  -- exactly if the directory has a file of the name that the configuration gives the time, which can be
  -- opened and decoded, be it only to the end of a file that ends early or is empty, and some entry of
  -- the directory has a name from which the time is read. The entry is the last such name.
  pub repair-lookup :
      (s : Storage Bytes) (entries : List (Text × Bool)) (opened : ℤ → Option E)
      (calls : Calls Bytes E) (t : ℤ)
      → lookup t (repair s none entries opened calls).0.metadata.partition_map ≡ (
          if has_readable s.disk.files (file_name date_of s.cfg.partition_format t) (opened t)
          then last_named t entries none
          else none)
  unfolding repair save_metadata
  repair-lookup s entries opened calls t =
      repair_entries-lookup s opened entries [] t none (unfold lookup in ground arith)
      ∙ ap (λ b. if b then last_named t entries none else none) (is_intact-has_readable s opened t)
