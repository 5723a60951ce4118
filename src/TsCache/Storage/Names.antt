-- ===== src/TsCache/Storage/Names.antt =====
-- tscache/storage.go: the names of the files, as `getPartitionPath` makes and `Repair` reads them.
use d_utils.Base.{
  ◌+◌, ◌≡◌, ◌≢◌, refl, ◌∙◌, ap, Bool, false, not, ◌||◌, String, List, [], ◌∷◌, ◌++◌, Option, none,
  some, if◌then◌else◌, length, All-append, ◌==◌, arith, append_assoc, nat_eqb, Bool-cases, inl, inr,
}
use d_utils.Base.Int.{ℤ}
use d_utils.Base.Word.{InInt64}
use d_utils.Base.Text.{
  Text, codes, text_key, split, trim_suffix, ext, Lacks, split-append, split_one, count,
  length-split, count-append, trim_suffix-append, ext-append,
}
use d_utils.Base.Decimal.{format_int, parse_int, parse_int-format_int, format_int-Lacks}
use d_utils.TsCache.Storage.{file_name, metadata_name}

-- The partition time in the parts of a file name.
unfoldable pub time_of : List Text → Option ℤ
time_of (a ∷ (b ∷ (c ∷ []))) = parse_int (trim_suffix (codes ".dat") c)
time_of ps = none

-- The partition time that `Repair` reads from the name of a directory entry, if it is not skipped.
unfoldable pub recover : Text → Bool → Option ℤ
recover name is_dir =
    if is_dir || not (ext name == codes ".dat")
    then none
    else if name == metadata_name
    then none
    else time_of (split b'_' name)

count_of_Lacks : (s : Text) → Lacks b'_' s → count b'_' s ≡ 0
count_of_Lacks [] h = refl
count_of_Lacks (c ∷ s) h = ground (arith, count_of_Lacks s h.1, h.0)

Lacks-of_count : (s : Text) → count b'_' s ≡ 0 → Lacks b'_' s
Lacks-of_count [] h = tt
Lacks-of_count (c ∷ s) h = ground (arith, Lacks-of_count s)

time_of-length : (ps : List Text) → length ps ≢ 3 → time_of ps ≡ none
unfolding time_of
time_of-length [] h = refl
time_of-length (a ∷ []) h = refl
time_of-length (a ∷ (b ∷ [])) h = refl
time_of-length (a ∷ (b ∷ (c ∷ []))) h = absurd (h refl)
time_of-length (a ∷ (b ∷ (c ∷ (d ∷ ps)))) h = refl

module _ (date_of : String → ℤ → Text) (format : String) (t : ℤ) where
  abbrev pub name : Text
  name = file_name date_of format t

  pub name-ext : ext name ≡ codes ".dat"
  unfolding file_name
  name-ext =
      let stem = codes "partition_" ++ (date_of format t ++ (codes "_" ++ format_int t)) in
      let whole : name ≡ stem ++ codes ".dat" = simp append_assoc in
      rw whole (ext-append stem b'.' (codes "dat") (codes ".dat") (unfold ext in refl))

  name_parts :
      Lacks b'_' (date_of format t)
      → split b'_' name
        ≡ codes "partition" ∷ (date_of format t ∷ ((format_int t ++ codes ".dat") ∷ []))
  unfolding file_name
  name_parts h =
      split-append b'_' (codes "partition") _
        (refl, (refl, (refl, (refl, (refl, (refl, (refl, (refl, (refl, tt)))))))))
      ∙ ap (λ ps. codes "partition" ∷ ps)
          (split-append b'_' (date_of format t) (format_int t ++ codes ".dat") h
            ∙ ap (λ ps. date_of format t ∷ ps)
                (split_one b'_' (format_int t ++ codes ".dat") (
                  All-append _ (format_int t) (codes ".dat") (format_int-Lacks b'_' t (omega arith))
                    (refl, (refl, (refl, (refl, tt)))))))

  pub name_not_metadata : (name == metadata_name) ≡ false
  unfolding file_name
  name_not_metadata = refl

  name_count : count b'_' name ≡ 2 + count b'_' (date_of format t)
  unfolding file_name
  name_count = omega (
    arith,
    count-append b'_' (date_of format t) (codes "_" ++ (format_int t ++ codes ".dat")),
    count-append b'_' (format_int t) (codes ".dat"),
    count_of_Lacks (format_int t) (format_int-Lacks b'_' t (omega arith)),
  )

  is_read : recover name false ≡ time_of (split b'_' name)
  unfolding recover
  is_read = rw (name-ext, name_not_metadata) refl

  -- `Repair` reads from the name of a partition's file the start of the partition, if the date in it
  -- has no underscore; with one it skips the file, whatever it holds.
  pub recover-file_name :
      InInt64 t
      → recover name false ≡ (if nat_eqb (count b'_' (date_of format t)) 0 then some t else none)
  recover-file_name fits = is_read ∙ elim (Bool-cases (nat_eqb (count b'_' (date_of format t)) 0)) [
    | inl none_there ↦ rw none_there (
        ap time_of (name_parts (Lacks-of_count (date_of format t) (ground arith)))
        ∙ (unfold time_of in
            rw (trim_suffix-append (format_int t) (codes ".dat")) (parse_int-format_int t fits)))
    | inr some_there ↦ rw some_there (
        time_of-length (split b'_' name)
          (λ e. absurd (ground (arith, length-split b'_' name, name_count))))
  ]
