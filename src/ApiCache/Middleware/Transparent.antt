-- ===== src/ApiCache/Middleware/Transparent.antt =====
-- apicache/middleware.go: the middleware in front of a handler whose responses do not change.
use d_utils.Base.{
  String, string_key, ◌≡◌, refl, sym, ◌∙◌, ◌==◌, nat_eqb, Bool-cases, Option, none, some,
  Option-cases, inl, inr, arith,
}
use mathlib.Core.Path.{ap}
use d_utils.Base.GoTime.{Time}
use d_utils.ApiCache.Cache.{Cache, Result, ok, fail}
use d_utils.ApiCache.Fetch.{Readings, get_or_fetch}
use d_utils.ApiCache.Fetch.Coherence.{IsCoherent, get_or_fetch-IsCoherent}
use d_utils.ApiCache.Middleware.{
  Request, Response, FetchError, Json, Served, fetched_from, reply_with, cache_middleware,
  passed_on, awaited,
}

module _ {ℓ} {T Bytes H : Type ℓ} (json : Json T Bytes) (serve : H → Request → H × Response Bytes)
    (answer : Request → Response Bytes) (key_fn : Request → String) where
  -- The handler gives each request its one response; two `GET` requests with the same key have the
  -- same; and what JSON decodes of a response is encoded to the same body.
  pub record IsCacheable : Type ℓ where
    pub answers : (h : H) (r : Request) → (serve h r).1 ≡ answer r
    pub keyed : (r q : Request) → key_fn r ≡ key_fn q → answer r ≡ answer q
    pub canonical :
        (r : Request) (v : T)
        → json.decode (answer r).body ≡ some v
        → json.encode v ≡ (answer r).body

  -- The value under a key is that of the response to each request with the key.
  abbrev pub IsAnswer : String → T → Type ℓ
  IsAnswer key v =
      (r : Request)
      → key_fn r ≡ key
      → ((answer r).status ≡ 200) × (json.decode (answer r).body ≡ some v)

  module _ (cacheable : IsCacheable) where
    decoded-IsAnswer :
        (r : Request) (v : T) → fetched_from json serve (answer r) ≡ ok v → IsAnswer (key_fn r) v
    unfolding fetched_from
    decoded-IsAnswer r v e q same = elim (Bool-cases (nat_eqb (answer r).status 200)) [
      | inr bad ↦ absurd (cc (rw (fetched_from, bad) at e))
      | inl fine ↦ elim (Option-cases (json.decode (answer r).body)) [
        | inl none_decoded ↦ absurd (cc (rw (fetched_from, fine, none_decoded) at e))
        | inr (w, decoded) ↦
            let own : w ≡ v = cc (rw (fetched_from, fine, decoded) at e) in
            let fine_status : (answer r).status ≡ 200 = ground (arith, fine) in
            rw (cacheable.keyed q r same) (fine_status, decoded ∙ ap some own)
      ]
    ]

    abbrev Agrees : Request → Served T Bytes H → Type ℓ
    Agrees r s =
        (s.response.status ≡ (answer r).status)
        × (s.response.body ≡ (answer r).body)
        × IsCoherent IsAnswer s.cache

    passed_on-Agrees :
        (c : Cache T) (h : H) (r : Request)
        → IsCoherent IsAnswer c
        → Agrees r (passed_on json serve c (serve h r))
    passed_on-Agrees c h r all = (
      ap (λ (a : Response Bytes). a.status) (cacheable.answers h r),
      ap (λ (a : Response Bytes). a.body) (cacheable.answers h r),
      all,
    )

    reply_with-Agrees :
        (c : Cache T) (h : H) (r : Request) (result : Result (FetchError Bytes) T)
        → ((v : T) → result ≡ ok v → IsAnswer (key_fn r) v)
        → IsCoherent IsAnswer c
        → Agrees r (reply_with json serve c h r result)
    reply_with-Agrees c h r (ok v) right all =
        let (status, decoded) = right v refl r refl in
        (sym status, cacheable.canonical r v decoded, all)
    reply_with-Agrees c h r (fail e) right all = passed_on-Agrees c h r all

    -- A handler gives each request its one response, requests with the same key have the same, and
    -- what JSON decodes is encoded to the same body; every entry of the cache is right for the requests
    -- with its key, and so is what the fetch of another caller returns. Then a call through the
    -- middleware, be it served from the cache, fetched or passed on after an error, has the status and
    -- the body of the handler's response, and the entries of the cache are right again.
    pub cache_middleware-answer :
        (c : Cache T) (h : H) (r : Request) (readings : Readings) (started reported stored : Time)
        (joined : Result (FetchError Bytes) T)
        → IsCoherent IsAnswer c
        → ((v : T) → joined ≡ ok v → IsAnswer (key_fn r) v)
        → let s =
            cache_middleware json serve key_fn c h r readings started reported stored joined in
          (s.response.status ≡ (answer r).status)
          × (s.response.body ≡ (answer r).body)
          × IsCoherent IsAnswer s.cache
    unfolding cache_middleware
    cache_middleware-answer c h r readings started reported stored joined all shared =
        let fetched = fetched_from json serve (serve h r).1 in
        let (replies, coherent) =
          get_or_fetch-IsCoherent IsAnswer c (key_fn r) readings fetched started reported stored
            (λ v e.
              decoded-IsAnswer r v (ap (fetched_from json serve) (sym (cacheable.answers h r)) ∙ e))
            all in
        elim (Bool-cases (r.method == "GET")) [
          | inr other ↦ rw other (passed_on-Agrees c h r all)
          | inl get ↦ rw get (
              reply_with-Agrees _ _ r _
                (awaited-right
                  (get_or_fetch c (key_fn r) readings fetched started reported stored).1 replies)
                coherent)
        ]
      where
        awaited-right :
            (reply : Option (Result (FetchError Bytes) T))
            → ((v : T) → reply ≡ some (ok v) → IsAnswer (key_fn r) v)
            → (v : T) → awaited reply joined ≡ ok v
            → IsAnswer (key_fn r) v
        awaited-right none replies v e = shared v e
        awaited-right (some own) replies v e = replies v (ap some e)
