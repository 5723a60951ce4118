-- ===== src/TsCache/Storage/Saving.antt =====
-- tscache/storage.go: what replacing a file leaves in the directory.
use d_utils.Base.{
  ◌≡◌, ◌≢◌, refl, sym, ◌∙◌, ap, false, String, List, [], ◌∷◌, Option, none, some, Option-cases, inl,
  inr, Bool-cases, ◌⊎◌, All, ◌++◌, if◌then◌else◌, ◌==◌,
}
use mathlib.Core.Path.{subst}
use d_utils.Base.Dict.{
  Dict, lookup, insert, remove, lookup-insert, lookup-insert_ne, lookup-insert_self,
  lookup-remove_ne,
}
use d_utils.Base.Text.{Text, text_key, text_eqb_iff}
use d_utils.TsCache.Storage.{
  StorageError, wrap_storage_error, Disk, Calls, temp_of, change, rename, replace_file,
}

pub ne_false : (a b : Text) → a ≢ b → (a == b) ≡ false
ne_false a b h = elim (Bool-cases (a == b)) [
  | inl same ↦ absurd (h ((text_eqb_iff a b).0 same))
  | inr other ↦ other
]

module _ {ℓ} {Bytes : Type ℓ} (temp name : Text) (no_bytes content : Bytes) (d : Disk Bytes) where
  -- The directory when a step behind the opening fails, with `c` written so far, and at the end.
  abbrev pub abandoned : Bytes → Disk Bytes
  abandoned c = change (remove temp) (change (insert temp c) (change (insert temp no_bytes) d))

  abbrev pub replaced : Disk Bytes
  replaced =
      change (rename temp name) (change (insert temp content) (change (insert temp no_bytes) d))

  -- The three ways in which it ends.
  pub data Ending {E : Type 0} (r : Disk Bytes × Option (StorageError E)) : Type ℓ where
    not_opened : (e : StorageError E) → r ≡ (d, some e) → Ending r
    gave_up : (c : Bytes) (e : StorageError E) → r ≡ (abandoned c, some e) → Ending r
    finished : r ≡ (replaced, none) → Ending r

  -- As before the call, and with the new content, where the temporary file is not looked at.
  abbrev pub Old : Dict Text Bytes → Type ℓ
  Old files = (k : Text) → temp ≢ k → lookup k files ≡ lookup k d.files

  abbrev pub New : Dict Text Bytes → Type ℓ
  New files =
      (k : Text)
      → temp ≢ k
      → lookup k files ≡ (if name == k then some content else lookup k d.files)

  Old-created : Old (insert temp no_bytes d.files)
  Old-created k h = lookup-insert_ne temp k no_bytes d.files h

  Old-written : (c : Bytes) → Old (insert temp c (insert temp no_bytes d.files))
  Old-written c k h = lookup-insert_ne temp k c _ h ∙ Old-created k h

  Old-abandoned : (c : Bytes) → Old (abandoned c).files
  Old-abandoned c k h = lookup-remove_ne temp k _ h ∙ Old-written c k h

  New-replaced : New replaced.files
  unfolding rename
  New-replaced k h =
      let there = lookup-insert_self temp content (insert temp no_bytes d.files) in
      let files = insert temp content (insert temp no_bytes d.files) in
      rw (there, rename)
        (lookup-insert name k content (remove temp files)
          ∙ ap (λ o. if name == k then some content else o)
              (lookup-remove_ne temp k files h ∙ Old-written content k h))

  -- Every directory on the way is wholly the old one or the new one; at the end it is the new one
  -- exactly without an error.
  abbrev pub EndsIn : {E : Type 0} → Option E → Dict Text Bytes → Type ℓ
  EndsIn none files = New files
  EndsIn (some e) files = Old files

  pub EndsIn-state :
      {E : Type 0} (o : Option E) (files : Dict Text Bytes) → EndsIn o files → Old files ⊎ New files
  EndsIn-state none files h = inr h
  EndsIn-state (some e) files h = inl h

  pub EndsIn-lookup :
      {E : Type 0} (o : Option E) (files : Dict Text Bytes) (k : Text)
      → EndsIn o files
      → temp ≢ k
      → name ≢ k
      → lookup k files ≡ lookup k d.files
  EndsIn-lookup none files k h t n = h k t ∙ (rw (ne_false name k n) refl)
  EndsIn-lookup (some e) files k h t n = h k t

  abbrev pub IsAtomic : {E : Type 0} → Disk Bytes × Option E → Type ℓ
  IsAtomic r =
      (states : List (Dict Text Bytes)) × (r.0.past ≡ states ++ d.past)
      × All (λ fs. Old fs ⊎ New fs) states
      × EndsIn r.1 r.0.files

  Ending-IsAtomic : {E : Type 0} (r : Disk Bytes × Option (StorageError E)) → Ending r → IsAtomic r
  Ending-IsAtomic r (not_opened e h) = subst IsAtomic (sym h) ([], refl, tt, λ k _. refl)
  Ending-IsAtomic r (gave_up c e h) = subst IsAtomic (sym h) (
    _ ∷ (_ ∷ (_ ∷ [])),
    refl,
    (inl (Old-written c), (inl Old-created, (inl (λ k _. refl), tt))),
    Old-abandoned c,
  )
  Ending-IsAtomic r (finished h) = subst IsAtomic (sym h) (
    _ ∷ (_ ∷ (_ ∷ [])),
    refl,
    (inl (Old-written content), (inl Old-created, (inl (λ k _. refl), tt))),
    New-replaced,
  )

module _ {ℓ} {Bytes : Type ℓ} {E : Type 0} (op : String → String) (name : Text)
    (no_bytes content : Bytes) (calls : Calls Bytes E) (d : Disk Bytes) where
  pub replace_file-Ending :
      Ending (temp_of name) name no_bytes content d (replace_file op name no_bytes content calls d)
  unfolding replace_file
  replace_file-Ending = elim (Option-cases calls.opened) [
    | inr (e, o) ↦
        not_opened (wrap_storage_error (op "save") (temp_of name) e) (rw (o, replace_file) refl)
    | inl o ↦ elim (Option-cases calls.encoded) [
      | inr (e, c) ↦
          gave_up calls.written (wrap_storage_error (op "encode") (temp_of name) e)
            (rw (o, c, replace_file) refl)
      | inl c ↦ elim (Option-cases calls.flushed) [
        | inr (e, f) ↦
            gave_up calls.written (wrap_storage_error (op "flush") (temp_of name) e)
              (rw (o, c, f, replace_file) refl)
        | inl f ↦ elim (Option-cases calls.synced) [
          | inr (e, y) ↦
              gave_up content (wrap_storage_error (op "sync") (temp_of name) e)
                (rw (o, c, f, y, replace_file) refl)
          | inl y ↦ elim (Option-cases calls.closed) [
            | inr (e, l) ↦
                gave_up content (wrap_storage_error (op "close") (temp_of name) e)
                  (rw (o, c, f, y, l, replace_file) refl)
            | inl l ↦ elim (Option-cases calls.renamed) [
              | inr (e, r) ↦
                  gave_up content (wrap_storage_error (op "rename") name e)
                    (rw (o, c, f, y, l, r, replace_file) refl)
              | inl r ↦ finished (rw (o, c, f, y, l, r, replace_file) refl)
            ]
          ]
        ]
      ]
    ]
  ]

  -- Whatever the calls return, a file is replaced atomically.
  pub replace_file-IsAtomic :
      IsAtomic
        (temp_of name)
        name
        no_bytes
        content
        d
        (replace_file op name no_bytes content calls d)
  replace_file-IsAtomic =
      Ending-IsAtomic (temp_of name) name no_bytes content d _ replace_file-Ending
