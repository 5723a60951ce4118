-- ===== src/ApiCache/Fetch/Coalescing.antt =====
-- apicache/apicache.go: many callers of `fetchWithCoalescing`. A caller that leads is between its
-- `begin_fetch` and its `finish_fetch`; calls of other methods change the rest of the cache in between.
use d_utils.Base.{
  String, string_key, ℕ, ◌+◌, ◌≤◌, ◌≡◌, refl, sym, ◌∙◌, List, [], ◌∷◌, ◌++◌, Option, none, some,
  if◌then◌else◌, arith, Bool-cases, Option-cases, inl, inr, ◌==◌,
}
use mathlib.Core.Path.{subst}
use d_utils.Base.GoTime.{Time}
use d_utils.Base.Dict.{lookup, remove, lookup-insert, lookup-remove}
use d_utils.ApiCache.Cache.{Cache, Result, ok, fail, set}
use d_utils.ApiCache.Fetch.{lead, begin_fetch, finish_fetch, clean_up}

-- How many callers fetch the key.
unfoldable pub fetches : String → List String → ℕ
fetches key [] = 0
fetches key (k ∷ ks) = (if k == key then 1 else 0) + fetches key ks

abbrev pub in_flight : Option Time → ℕ
in_flight none = 0
in_flight (some _) = 1

fetches-middle :
    (key k : String) (xs ys : List String)
    → fetches key (xs ++ (k ∷ ys)) ≡ (if k == key then 1 else 0) + fetches key (xs ++ ys)
unfolding fetches
fetches-middle key k [] ys = refl
fetches-middle key k (x ∷ xs) ys = omega (arith, fetches-middle key k xs ys)

in_flight-le : (o : Option Time) → in_flight o ≤ 1
in_flight-le none = omega arith
in_flight-le (some t) = omega arith

-- The cache, and the keys that callers are fetching, one entry for each caller.
pub record Shared {ℓ} (T : Type ℓ) : Type ℓ where
  pub cache : Cache T
  pub leaders : List String

-- The last constructor is any call that leaves `inflight` alone: a read, a store, an invalidation.
pub data Step {ℓ} {T : Type ℓ} (E : Type ℓ) : Shared T → Shared T → Type ℓ where
  begin_leading :
      (s : Shared T) (key : String) (now : Time)
      → (begin_fetch s.cache key now).1 ≡ lead
      → Step E s (record { cache = (begin_fetch s.cache key now).0; leaders = key ∷ s.leaders })
  finish_leading :
      (s : Shared T) (key : String) (before after : List String) (r : Result E T) (t u : Time)
      → s.leaders ≡ before ++ (key ∷ after)
      → Step E s (record { cache = finish_fetch s.cache key r t u; leaders = before ++ after })
  other_call :
      (s : Shared T) (c : Cache T)
      → c.inflight ≡ s.cache.inflight
      → Step E s (record s { cache = c })

pub data Reach {ℓ} {T : Type ℓ} (E : Type ℓ) (s : Shared T) : Shared T → Type ℓ where
  here : Reach E s s
  step : {t u : Shared T} → Reach E s t → Step E t u → Reach E s u

module _ {ℓ} {T : Type ℓ} where
  -- A key is in `inflight` exactly while one caller fetches it, and no two callers fetch one key.
  pub record IsCoalesced (s : Shared T) : Type 0 where
    pub counted : (key : String) → fetches key s.leaders ≡ in_flight (lookup key s.cache.inflight)

  begin_leading-lookup :
      (c : Cache T) (key k : String) (now : Time)
      → (begin_fetch c key now).1 ≡ lead
      → (lookup key c.inflight ≡ none)
        × (lookup k (begin_fetch c key now).0.inflight
            ≡ (if key == k then some now else lookup k c.inflight))
  unfolding begin_fetch
  begin_leading-lookup c key k now leads = elim (Option-cases (lookup key c.inflight)) [
    | inl free ↦ (free, rw (free, begin_fetch) (lookup-insert key k now c.inflight))
    | inr (t, busy) ↦ absurd (cc (rw (busy, begin_fetch) at leads))
  ]

  finish_fetch-inflight :
      {E : Type ℓ} (c : Cache T) (key : String) (r : Result E T) (t u : Time)
      → (finish_fetch c key r t u).inflight ≡ remove key c.inflight
  unfolding finish_fetch clean_up set
  finish_fetch-inflight c key (ok v) t u = refl
  finish_fetch-inflight c key (fail e) t u = refl

  begin_leading-IsCoalesced :
      (s : Shared T) (key : String) (now : Time)
      → (begin_fetch s.cache key now).1 ≡ lead
      → IsCoalesced s
      → (k : String)
      → fetches k (key ∷ s.leaders) ≡ in_flight (lookup k (begin_fetch s.cache key now).0.inflight)
  unfolding fetches
  begin_leading-IsCoalesced s key now leads i k =
      let (free, after) = begin_leading-lookup s.cache key k now leads in
      elim (Bool-cases (key == k)) [
        | inl same ↦
            let free' =
              subst (λ q. lookup q s.cache.inflight ≡ none) ((string_key.same_key_iff key k).0 same)
                free in
            let none_yet : fetches k s.leaders ≡ 0 = i.counted k ∙ rw free' in
            rw (after, same, none_yet)
        | inr other ↦ rw (after, other) (omega (arith, i.counted k))
      ]

  finish_leading-IsCoalesced :
      {E : Type ℓ} (s : Shared T) (key : String) (before after : List String) (r : Result E T)
      (t u : Time)
      → s.leaders ≡ before ++ (key ∷ after)
      → IsCoalesced s
      → (k : String)
      → fetches k (before ++ after) ≡ in_flight (lookup k (finish_fetch s.cache key r t u).inflight)
  finish_leading-IsCoalesced s key before after r t u e i k =
      let total : (if key == k then 1 else 0) + fetches k (before ++ after)
          ≡ in_flight (lookup k s.cache.inflight) =
        sym (fetches-middle k key before after)
        ∙ subst (λ l. fetches k l ≡ in_flight (lookup k s.cache.inflight)) e (i.counted k) in
      elim (Bool-cases (key == k)) [
        | inl same ↦
            rw (finish_fetch-inflight s.cache key r t u, lookup-remove key k s.cache.inflight, same)
              (omega (arith, rw same at total, in_flight-le (lookup k s.cache.inflight)))
        | inr other ↦
            rw
              (finish_fetch-inflight s.cache key r t u, lookup-remove key k s.cache.inflight, other)
              (omega (arith, rw other at total))
      ]

  Step-IsCoalesced : {E : Type ℓ} {s t : Shared T} → Step E s t → IsCoalesced s → IsCoalesced t
  Step-IsCoalesced (begin_leading s key now leads) i = record {
    counted = begin_leading-IsCoalesced s key now leads i;
  }
  Step-IsCoalesced (finish_leading s key before after r t u e) i = record {
    counted = finish_leading-IsCoalesced s key before after r t u e i;
  }
  Step-IsCoalesced (other_call s c e) i = record { counted = λ k. rw e (i.counted k) }

  -- Under every schedule of the callers, from a state in which it holds: no two callers fetch one key
  -- at a time, and a key is in `inflight` exactly while one does.
  pub Reach-IsCoalesced :
      {E : Type ℓ} {s t : Shared T} → IsCoalesced s → Reach E s t → IsCoalesced t
  Reach-IsCoalesced i here = i
  Reach-IsCoalesced i (step r st) = Step-IsCoalesced st (Reach-IsCoalesced i r)
