-- ===== src/ApiCache/Middleware.antt =====
-- apicache/middleware.go: the key functions and `CacheMiddleware`. The handler behind it is a function
-- of its own state and the request. The JSON codec of the cached type is a parameter.
pub mod Transparent
mod Tests
use Prim.Native.String.{compare, ◌++◌ as str_append}
use d_utils.Base.{
  String, string_key, ℕ, Bool, true, false, not, ◌==◌, nat_eqb, List, [], ◌∷◌, Option, none, some,
  if◌then◌else◌,
}
use text.Mathlib.Text.{is_lt}
use d_utils.Base.GoTime.{Time}
use d_utils.Base.Dict.{Dict, lookup, keys}
use d_utils.ApiCache.Cache.{Cache, Result, ok, fail, other}
use d_utils.ApiCache.Fetch.{
  Readings, rejected, must_fetch, fresh, stale, lead, join, consult, begin_fetch, get_or_fetch,
}

-- `url` is `r.URL.String()`, `query` is `r.URL.Query()`, and `header` is `r.Header.Get`.
pub record Request : Type 0 where
  pub method : String
  pub path : String
  pub url : String
  pub query : Dict String (List String)
  pub header : String → String

pub record Response {ℓ} (Bytes : Type ℓ) : Type ℓ where
  pub status : ℕ
  pub headers : Dict String String
  pub body : Bytes

infixr 5 ◌+s◌
abbrev pub ◌+s◌ : String → String → String
s +s t = str_append s t

-- `DefaultKeyFunc`
abbrev pub default_key_func : Request → String
default_key_func r = r.method +s ":" +s r.url

-- `sort.Strings`
unfoldable pub insert_sorted : String → List String → List String
insert_sorted k [] = k ∷ []
insert_sorted k (j ∷ js) = if is_lt (compare j k) then j ∷ insert_sorted k js else k ∷ (j ∷ js)

unfoldable pub sort_strings : List String → List String
sort_strings [] = []
sort_strings (k ∷ ks) = insert_sorted k (sort_strings ks)

-- `query.Get`
abbrev pub first_value : Option (List String) → String
first_value none = ""
first_value (some []) = ""
first_value (some (v ∷ vs)) = v

unfoldable pub query_parts : List String → Dict String (List String) → String
query_parts [] query = ""
query_parts (k ∷ []) query = k +s "=" +s first_value (lookup k query)
query_parts (k ∷ (j ∷ ks)) query =
    k +s "=" +s first_value (lookup k query) +s "&" +s query_parts (j ∷ ks) query

-- `QueryKeyFunc`
unfoldable pub query_key_func : Request → String
query_key_func r =
    r.method +s ":" +s r.path +s "?" +s query_parts (sort_strings (keys r.query)) r.query

-- The loop of `HeaderKeyFunc`.
unfoldable pub header_parts : List String → (String → String) → String
header_parts [] header = ""
header_parts (h ∷ hs) header =
    let rest = header_parts hs header in
    if header h == "" then rest else ":" +s h +s "=" +s header h +s rest

-- `HeaderKeyFunc`
abbrev pub header_key_func : List String → Request → String
header_key_func headers r = default_key_func r +s header_parts headers r.header

-- `if keyFn == nil`
abbrev pub key_fn_or_default : Option (Request → String) → Request → String
key_fn_or_default none = default_key_func
key_fn_or_default (some key_fn) = key_fn

-- The errors of the fetch function.
pub data FetchError {ℓ} (Bytes : Type ℓ) : Type ℓ where
  non_200 : ℕ → FetchError Bytes
  decode_response : Bytes → FetchError Bytes

-- `encoding/json` for the cached type; none is an error.
pub record Json {ℓ} (T Bytes : Type ℓ) : Type ℓ where
  pub decode : Bytes → Option T
  pub encode : T → Bytes

-- A caller that waits for the fetch of another gets what that returns.
abbrev pub awaited {ℓ} : {A : Type ℓ} → Option A → A → A
awaited none joined = joined
awaited (some own) joined = own

-- What a call leaves: the cache, the state of the handler, and the response.
pub record Served {ℓ} (T Bytes H : Type ℓ) : Type ℓ where
  pub cache : Cache T
  pub handler : H
  pub response : Response Bytes

module _ {ℓ} {T Bytes H : Type ℓ} (json : Json T Bytes)
    (serve : H → Request → H × Response Bytes) where
  -- The fetch function, from the recorded response on.
  unfoldable pub fetched_from : Response Bytes → Result (FetchError Bytes) T
  fetched_from rec =
      if not (nat_eqb rec.status 200)
      then fail (other (non_200 rec.status))
      else elim (json.decode rec.body) [
        | none ↦ fail (other (decode_response rec.body))
        | some v ↦ ok v
      ]

  -- Whether `GetOrFetch` calls its fetch function.
  unfoldable pub runs_fetch : Cache T → String → Readings → Time → Bool
  runs_fetch c key r now = elim (consult c key r).1 [
    | rejected ↦ false
    | fresh v ↦ false
    | stale v ↦ false
    | must_fetch ↦ elim (begin_fetch (consult c key r).0 key now).1 [ lead ↦ true | join ↦ false ]
  ]

  abbrev pub hit_with : T → Response Bytes
  hit_with v = record {
    status = 200;
    headers = ("Content-Type", "application/json") ∷ (("X-Cache", "HIT") ∷ []);
    body = json.encode v;
  }

  abbrev pub passed_on : Cache T → H × Response Bytes → Served T Bytes H
  passed_on c (h, response) = record { cache = c; handler = h; response = response }

  -- Behind `GetOrFetch`.
  abbrev pub reply_with : Cache T → H → Request → Result (FetchError Bytes) T → Served T Bytes H
  reply_with c h r (ok v) = record { cache = c; handler = h; response = hit_with v }
  reply_with c h r (fail e) = passed_on c (serve h r)

  -- A call of the handler that `CacheMiddleware` makes. `joined` is what the fetch of another caller
  -- returns, where this one waits for it. The refresh that a stale item starts is not part of it.
  unfoldable pub cache_middleware :
      (Request → String)
      → Cache T
      → H
      → Request
      → Readings
      → Time
      → Time
      → Time
      → Result (FetchError Bytes) T
      → Served T Bytes H
  cache_middleware key_fn c h r readings started reported stored joined =
      if not (r.method == "GET")
      then passed_on c (serve h r)
      else let key = key_fn r in
        let (h', rec) = serve h r in
        let (c', reply) = get_or_fetch c key readings (fetched_from rec) started reported stored in
        reply_with c' (if runs_fetch c key readings started then h' else h) r (awaited reply joined)
