-- ===== src/ApiCache/Fetch/Coherence.antt =====
-- apicache/apicache.go: the values that `GetOrFetch` stores and replies, in terms of what the fetch
-- functions return.
use d_utils.Base.{
  String, string_key, ◌≡◌, refl, sym, ◌∙◌, ◌==◌, Bool-cases, Option, none, some, Option-cases, inl,
  inr, some_inj,
}
use mathlib.Core.Path.{subst}
use d_utils.Base.GoTime.{Time, add, before}
use d_utils.Base.Dict.{Dict, lookup, insert, remove, lookup-insert, lookup-remove}
use d_utils.ApiCache.Cache.{Cache, Item, Result, ok, fail, set, evict, oldest, is_full, key_of}
use d_utils.ApiCache.Fetch.{
  Readings, Decision, fresh, stale, rejected, must_fetch, admit_by, judge, consult, begin_fetch,
  finish_fetch, clean_up, get_or_fetch,
}
use d_utils.ApiCache.Fetch.Consult.{decision_for, touched, get_present, get_absent}
use d_utils.ApiCache.Fetch.Replies.{
  begin_fetch-lead, begin_fetch-join, reply_for, get_or_fetch-reply_for,
}

ok_inj {ℓ} : {E T : Type ℓ} (r : Result E T) (x y : T) → r ≡ ok x → r ≡ ok y → x ≡ y
ok_inj r x y e f = cc

module _ {ℓ} {T : Type ℓ} (Q : String → T → Type ℓ) where
  -- Every entry is right for its key.
  abbrev AllRight : Dict String (Item T) → Type ℓ
  AllRight items = (k : String) (item : Item T) → lookup k items ≡ some item → Q k item.value

  abbrev pub IsCoherent : Cache T → Type ℓ
  IsCoherent c = AllRight c.items

  insert-AllRight :
      (key : String) (new : Item T) (items : Dict String (Item T))
      → Q key new.value
      → AllRight items
      → AllRight (insert key new items)
  insert-AllRight key new items q all k item e = elim (Bool-cases (key == k)) [
    | inl same ↦
        let found : new ≡ item =
          some_inj (sym (lookup-insert key k new items ∙ (rw same refl)) ∙ e) in
        subst (λ (x : Item T). Q k x.value) found
          (subst (λ j. Q j new.value) ((string_key.same_key_iff key k).0 same) q)
    | inr other ↦ all k item (sym (lookup-insert key k new items ∙ (rw other refl)) ∙ e)
  ]

  remove-AllRight :
      (key : String) (items : Dict String (Item T)) → AllRight items → AllRight (remove key items)
  remove-AllRight key items all k item e = elim (Bool-cases (key == k)) [
    | inl same ↦
        let missing : none ≡ some item = sym (lookup-remove key k items ∙ (rw same refl)) ∙ e in
        absurd (cc missing)
    | inr other ↦ all k item (sym (lookup-remove key k items ∙ (rw other refl)) ∙ e)
  ]

  evict-AllRight : (items : Dict String (Item T)) → AllRight items → AllRight (evict items)
  unfolding evict
  evict-AllRight items all = elim (Bool-cases (key_of (oldest items none) == "")) [
    | inl empty ↦ rw empty all
    | inr named ↦ rw named (remove-AllRight (key_of (oldest items none)) items all)
  ]

  set-IsCoherent :
      (c : Cache T) (key : String) (v : T) (now : Time)
      → Q key v
      → IsCoherent c
      → IsCoherent (set c key v now)
  unfolding set
  set-IsCoherent c key v now q all = elim (Bool-cases (is_full c)) [
    | inl full ↦
        rw (set, full) (insert-AllRight key _ (evict c.items) q (evict-AllRight c.items all))
    | inr room ↦ rw (set, room) (insert-AllRight key _ c.items q all)
  ]

  judge-items : (c : Cache T) (item : Item T) (r : Readings) → (judge c item r).0.items ≡ c.items
  unfolding judge
  judge-items c item r = elim (Bool-cases (before r.at_fresh item.expires_at)) [
    | inl young ↦ rw young refl
    | inr old ↦ elim (Bool-cases (before r.at_stale (add item.expires_at c.stale_timeout))) [
      | inl usable ↦ rw (old, usable) refl
      | inr expired ↦ rw (old, expired) refl
    ]
  ]

  -- The cache behind the breaker's answer.
  abbrev with_breaker : Cache T → Readings → Cache T
  with_breaker c r = record c {
    circuit_breaker = (admit_by c.circuit_breaker r.at_check r.at_promote).0;
  }

  consult-IsCoherent :
      (c : Cache T) (key : String) (r : Readings) → IsCoherent c → IsCoherent (consult c key r).0
  unfolding consult
  consult-IsCoherent c key r all =
      elim (Bool-cases (admit_by c.circuit_breaker r.at_check r.at_promote).1) [
        | inr refused ↦ rw refused all
        | inl admitted ↦ elim (Option-cases (lookup key c.items)) [
          | inl absent ↦
              let e = get_absent (with_breaker c r) key r.at_get absent in rw (admitted, e, e) all
          | inr (item, present) ↦
              let e = get_present (with_breaker c r) key r.at_get item present in
              rw (admitted, e, e)
                (subst AllRight (sym (judge-items _ (touched item r.at_get) r))
                  (insert-AllRight key (touched item r.at_get) c.items (all key item present) all))
        ]
      ]

  finish_fetch-IsCoherent :
      {E : Type ℓ}
      → (c : Cache T) (key : String) (fetched : Result E T) (u v : Time)
      → ((x : T) → fetched ≡ ok x → Q key x)
      → IsCoherent c
      → IsCoherent (finish_fetch c key fetched u v)
  unfolding finish_fetch clean_up
  finish_fetch-IsCoherent c key (ok x) u v right all = set-IsCoherent _ key x v (right x refl) all
  finish_fetch-IsCoherent c key (fail e) u v right all = all

  -- The value of a decision that has one is right for the key.
  abbrev IsRight : String → Decision T → Type ℓ
  IsRight key rejected = Unit
  IsRight key must_fetch = Unit
  IsRight key (fresh v) = Q key v
  IsRight key (stale v) = Q key v

  decision_for-IsRight :
      (c : Cache T) (key : String) (r : Readings)
      → IsCoherent c
      → IsRight key (decision_for c key r)
  unfolding decision_for
  decision_for-IsRight c key r all =
      elim (Bool-cases (admit_by c.circuit_breaker r.at_check r.at_promote).1) [
        | inr refused ↦ rw refused tt
        | inl admitted ↦ elim (Option-cases (lookup key c.items)) [
          | inl absent ↦ rw (admitted, absent) tt
          | inr (item, present) ↦
              let own : Q key item.value = all key item present in
              elim (Bool-cases (before r.at_fresh item.expires_at)) [
                | inl young ↦ rw (admitted, present, young) own
                | inr old ↦
                    elim (Bool-cases (before r.at_stale (add item.expires_at c.stale_timeout))) [
                      | inl usable ↦ rw (admitted, present, old, usable) own
                      | inr expired ↦ rw (admitted, present, old, expired) tt
                    ]
              ]
        ]
      ]

  begin_fetch-IsCoherent :
      (c : Cache T) (key : String) (now : Time)
      → IsCoherent c
      → IsCoherent (begin_fetch c key now).0
  begin_fetch-IsCoherent c key now all = elim (Option-cases (lookup key c.inflight)) [
    | inl idle ↦ subst (λ b. IsCoherent b.0) (sym (begin_fetch-lead c key now idle)) all
    | inr (t, busy) ↦ subst (λ b. IsCoherent b.0) (sym (begin_fetch-join c key now t busy)) all
  ]

  run-IsCoherent :
      {E : Type ℓ}
      → (c : Cache T) (key : String) (r : Readings) (fetched : Result E T) (now u v : Time)
        (d : Decision T)
      → (consult c key r).1 ≡ d
      → ((x : T) → fetched ≡ ok x → Q key x)
      → IsCoherent c
      → IsCoherent (get_or_fetch c key r fetched now u v).0
  unfolding get_or_fetch
  run-IsCoherent c key r fetched now u v rejected e right all =
      rw (e, get_or_fetch) (consult-IsCoherent c key r all)
  run-IsCoherent c key r fetched now u v (fresh x) e right all =
      rw (e, get_or_fetch) (consult-IsCoherent c key r all)
  run-IsCoherent c key r fetched now u v (stale x) e right all =
      rw (e, get_or_fetch) (consult-IsCoherent c key r all)
  run-IsCoherent c key r fetched now u v must_fetch e right all =
      elim (Option-cases (lookup key (consult c key r).0.inflight)) [
        | inl idle ↦
            rw (e, begin_fetch-lead (consult c key r).0 key now idle, get_or_fetch)
              (finish_fetch-IsCoherent (begin_fetch (consult c key r).0 key now).0 key fetched u v
                right
                (begin_fetch-IsCoherent (consult c key r).0 key now
                  (consult-IsCoherent c key r all)))
        | inr (t, busy) ↦
            rw (e, begin_fetch-join (consult c key r).0 key now t busy, get_or_fetch)
              (begin_fetch-IsCoherent (consult c key r).0 key now (consult-IsCoherent c key r all))
      ]

  -- Where every entry of the cache is right for its key, and the fetch function returns, if it does
  -- not fail, a value that is right for the key, `GetOrFetch` replies no other value under the key, be
  -- it fresh, stale or fetched, and every entry is right for its key again.
  pub get_or_fetch-IsCoherent :
      {E : Type ℓ}
      → (c : Cache T) (key : String) (r : Readings) (fetched : Result E T) (now u v : Time)
      → ((x : T) → fetched ≡ ok x → Q key x)
      → IsCoherent c
      → ((x : T) → (get_or_fetch c key r fetched now u v).1 ≡ some (ok x) → Q key x)
        × IsCoherent (get_or_fetch c key r fetched now u v).0
  get_or_fetch-IsCoherent c key r fetched now u v right all = (
    λ x e.
        replied (decision_for c key r) (lookup key c.inflight) x (decision_for-IsRight c key r all)
          (sym (get_or_fetch-reply_for c key r fetched now u v) ∙ e),
    run-IsCoherent c key r fetched now u v (consult c key r).1 refl right all,
  )
    where
      replied :
          (d : Decision T) (running : Option Time) (x : T)
          → IsRight key d
          → reply_for d running fetched ≡ some (ok x)
          → Q key x
      replied rejected running x d e = absurd (cc e)
      replied (fresh y) running x d e = subst (Q key) (ok_inj _ y x refl (some_inj e)) d
      replied (stale y) running x d e = subst (Q key) (ok_inj _ y x refl (some_inj e)) d
      replied must_fetch none x d e = right x (some_inj e)
      replied must_fetch (some t) x d e = absurd (cc e)
