-- ===== src/ApiCache/Fetch/Batch.antt =====
-- apicache/apicache.go: the first loop of `BatchGetOrFetch`.
use d_utils.Base.{
  String, string_key, ◌≡◌, ◌≢◌, refl, sym, ◌∙◌, List, [], ◌∷◌, ◌++◌, none, some, if◌then◌else◌,
  Bool-cases, Option-cases, inl, inr, ◌==◌,
}
use mathlib.Core.Path.{ap, subst}
use mathlib.Core.List.{append_assoc, append-nil}
use d_utils.Base.GoTime.{Time, before}
use d_utils.Base.Dict.{Dict, lookup, lookup-insert}
use d_utils.ApiCache.Cache.{Cache, get, Result, Error, fail}
use d_utils.ApiCache.Fetch.{
  BatchKey, Progress, is_fresh, batch_step, batch_gather, batch_get_or_fetch,
}
use d_utils.ApiCache.Fetch.Consult.{touched, get_present, get_absent}

module _ {ℓ} {T : Type ℓ} where
  -- The keys of a batch that have no fresh item, in order.
  unfoldable pub without_fresh : Cache T → List BatchKey → List String
  without_fresh c [] = []
  without_fresh c (k ∷ ks) =
      let rest = without_fresh c ks in
      if is_fresh (lookup k.key c.items) k.at_check then rest else k.key ∷ rest

  get-is_fresh :
      (c : Cache T) (key : String) (now : Time) (j : String) (t : Time)
      → is_fresh (lookup j (get c key now).0.items) t ≡ is_fresh (lookup j c.items) t
  get-is_fresh c key now j t = elim (Option-cases (lookup key c.items)) [
    | inl absent ↦ ap (λ x. is_fresh (lookup j x.0.items) t) (get_absent c key now absent)
    | inr (item, present) ↦
        ap (λ x. is_fresh (lookup j x.0.items) t) (get_present c key now item present)
        ∙ ap (λ o. is_fresh o t) (lookup-insert key j (touched item now) c.items)
        ∙ (elim (Bool-cases (key == j)) [
          | inl same ↦ rw same (
              ap (λ o. is_fresh o t)
                (sym (
                  subst (λ z. lookup z c.items ≡ some item) ((string_key.same_key_iff key j).0 same)
                    present)))
          | inr other ↦ rw other refl
        ])
  ]

  without_fresh-get :
      (c : Cache T) (key : String) (now : Time) (ks : List BatchKey)
      → without_fresh (get c key now).0 ks ≡ without_fresh c ks
  unfolding without_fresh
  without_fresh-get c key now [] = refl
  without_fresh-get c key now (k ∷ ks) =
      rw (get-is_fresh c key now k.key k.at_check, without_fresh-get c key now ks) refl

  batch_step-missing :
      (p : Progress T) (k : BatchKey)
      → ((batch_step p k).cache ≡ (get p.cache k.key k.at_get).0)
        × ((batch_step p k).missing ≡ p.missing ++ without_fresh p.cache (k ∷ []))
  unfolding batch_step without_fresh
  batch_step-missing p k = elim (Option-cases (lookup k.key p.cache.items)) [
    | inl absent ↦
        let none_found = ap (λ x. x.1) (get_absent p.cache k.key k.at_get absent) in
        rw (absent, none_found, batch_step) (refl, refl)
    | inr (item, present) ↦
        let found = ap (λ x. x.1) (get_present p.cache k.key k.at_get item present) in
        elim (Bool-cases (before k.at_check item.expires_at)) [
          | inl young ↦ rw (present, found, batch_step, young) (refl, sym (append-nil p.missing))
          | inr old ↦ rw (present, found, batch_step, old) (refl, refl)
        ]
  ]

  gathered :
      (p : Progress T) (ks : List BatchKey)
      → (batch_gather p ks).missing ≡ p.missing ++ without_fresh p.cache ks
  unfolding batch_gather without_fresh
  gathered p [] = sym (append-nil p.missing)
  gathered p (k ∷ ks) =
      let (cache, missing) = batch_step-missing p k in
      gathered (batch_step p k) ks
      ∙ ap (λ ms. ms ++ without_fresh (batch_step p k).cache ks) missing
      ∙ ap (λ c. (p.missing ++ without_fresh p.cache (k ∷ [])) ++ without_fresh c ks) cache
      ∙ ap (λ ms. (p.missing ++ without_fresh p.cache (k ∷ [])) ++ ms)
          (without_fresh-get p.cache k.key k.at_get ks)
      ∙ append_assoc p.missing (without_fresh p.cache (k ∷ [])) (without_fresh p.cache ks)
      ∙ ap (λ ms. p.missing ++ ms) (one_first k ks)
    where
      one_first :
          (k : BatchKey) (ks : List BatchKey)
          → without_fresh p.cache (k ∷ []) ++ without_fresh p.cache ks
            ≡ without_fresh p.cache (k ∷ ks)
      one_first k ks = elim (Bool-cases (is_fresh (lookup k.key p.cache.items) k.at_check)) [
        | inl young ↦ unfold without_fresh in rw young refl
        | inr old ↦ unfold without_fresh in rw old refl
      ]

  on_error :
      {E : Type ℓ} (c : Cache T) (keys : List BatchKey)
      (fetch : List String → Result E (Dict String T)) (now : String → Time) (e : Error E)
      (missing : List String)
      → let p = batch_gather (record { cache = c; result = []; missing = [] }) keys in
        p.missing ≡ missing
        → fetch p.missing ≡ fail e
        → missing ≢ []
        → batch_get_or_fetch c keys fetch now ≡ (p.cache, p.result, some e)
  unfolding batch_get_or_fetch
  on_error c keys fetch now e [] at fails some_key = absurd (some_key refl)
  on_error c keys fetch now e (k ∷ ks) at fails some_key = rw (at, batch_get_or_fetch, fails) refl

  -- The keys that `BatchGetOrFetch` hands to the fetch function are those of the batch that have no fresh
  -- item before the call, in the order of the batch and as often as they stand in it; with none it calls
  -- no fetch function, and with an error of that it stores nothing.
  pub batch_get_or_fetch-without_fresh :
      {E : Type ℓ} (c : Cache T) (keys : List BatchKey)
      (fetch : List String → Result E (Dict String T)) (now : String → Time)
      → let p = batch_gather (record { cache = c; result = []; missing = [] }) keys in
        (p.missing ≡ without_fresh c keys)
        × (without_fresh c keys ≡ []
            → batch_get_or_fetch c keys fetch now ≡ (p.cache, p.result, none))
        × ((e : Error E)
            → fetch (without_fresh c keys) ≡ fail e
            → without_fresh c keys ≢ []
            → batch_get_or_fetch c keys fetch now ≡ (p.cache, p.result, some e))
  unfolding batch_get_or_fetch
  batch_get_or_fetch-without_fresh {E = E} c keys fetch now =
      let start : Progress T = record { cache = c; result = []; missing = [] } in
      let p = batch_gather start keys in
      let asked : p.missing ≡ without_fresh c keys = gathered start keys in
      (
        asked,
        (λ empty. let e : p.missing ≡ [] = asked ∙ empty in rw (e, batch_get_or_fetch) refl),
        (λ e fails some_key.
            on_error c keys fetch now e p.missing refl (ap fetch asked ∙ fails)
              (λ h. some_key (sym asked ∙ h))),
      )
