-- ===== src/ApiCache/Middleware/Tests.antt =====
-- apicache/middleware.go: keys, a handler behind the middleware, and one that fails.
use d_utils.Base.{
  string_key, ◌==◌, ℕ, suc, sym, some_inj, ◌≡◌, refl, false, [], ◌∷◌, none, some, if◌then◌else◌,
}
use d_utils.Base.Int.{pos}
use d_utils.Base.Dict.{lookup}
use d_utils.ApiCache.Cache.{Cache, fail, circuit_open, get}
use d_utils.ApiCache.Fetch.{Readings, consult, begin_fetch, finish_fetch, clean_up, get_or_fetch}
use d_utils.ApiCache.Fetch.Coherence.{IsCoherent}
use d_utils.ApiCache.Middleware.{
  Request, Response, Json, default_key_func, key_fn_or_default, query_key_func, query_parts,
  sort_strings, insert_sorted, header_key_func, header_parts, fetched_from, runs_fetch,
  cache_middleware,
}
use d_utils.ApiCache.Middleware.Transparent.{IsCacheable, IsAnswer, cache_middleware-answer}

abbrev items : Request
items = record {
  method = "GET";
  path = "/items";
  url = "/items?b=2&a=1";
  query = ("b", "2" ∷ []) ∷ (("a", "1" ∷ []) ∷ []);
  header = λ h. if h == "Accept" then "text/html" else "";
}

sorted_key : query_key_func items ≡ "GET:/items?a=1&b=2"
unfolding query_key_func query_parts sort_strings insert_sorted lookup
sorted_key = refl

header_key :
    header_key_func ("Accept" ∷ ("Range" ∷ [])) items ≡ "GET:/items?b=2&a=1:Accept=text/html"
unfolding header_parts
header_key = refl

-- The values are not escaped: another request has the same key.
same_key : query_key_func (record items { query = ("a", "1&b=2" ∷ []) ∷ [] }) ≡ query_key_func items
unfolding query_key_func query_parts sort_strings insert_sorted lookup
same_key = refl

abbrev numbers : Json ℕ ℕ
numbers = record { decode = λ n. some n; encode = λ n. n }

abbrev seven : Request → Response ℕ
seven r = record { status = 200; headers = []; body = 7 }

-- The handler counts its runs.
abbrev serve_seven : ℕ → Request → ℕ × Response ℕ
serve_seven n r = (suc n, seven r)

abbrev broken : ℕ → Request → ℕ × Response ℕ
broken n r = (suc n, record { status = 500; headers = []; body = 0 })

abbrev empty : Cache ℕ
empty = record {
  items = [];
  inflight = [];
  default_ttl = pos 100;
  stale_timeout = pos 200;
  max_items = pos 10;
  persist_path = "";
  circuit_breaker = none;
  has_metrics = false;
  has_on_get = false;
  effects = [];
}

abbrev at_once : Readings
at_once = record {
  at_check = pos 1;
  at_promote = pos 1;
  at_get = pos 1;
  at_fresh = pos 1;
  at_stale = pos 1;
}

-- A response that is not 200 is thrown away, and the handler runs again.
runs_twice :
    (cache_middleware numbers broken
      (key_fn_or_default none)
      empty
      0
      items
      at_once
      (pos 1)
      (pos 1)
      (pos 1)
      (fail circuit_open)).handler
    ≡ 2
unfolding cache_middleware runs_fetch fetched_from get_or_fetch consult begin_fetch finish_fetch
    clean_up get lookup
runs_twice = refl

seven-IsCacheable : IsCacheable numbers serve_seven seven default_key_func
seven-IsCacheable = record {
  answers = λ h r. refl;
  keyed = λ r q e. refl;
  canonical = λ r v e. sym (some_inj e);
}

cache_middleware-answer_example :
    let s =
      cache_middleware numbers serve_seven default_key_func empty 0 items at_once
        (pos 1)
        (pos 1)
        (pos 1)
        (fail circuit_open) in
    (s.response.status ≡ 200)
    × (s.response.body ≡ 7)
    × IsCoherent (IsAnswer numbers serve_seven seven default_key_func) s.cache
cache_middleware-answer_example =
    cache_middleware-answer numbers serve_seven seven default_key_func seven-IsCacheable empty 0
      items at_once (pos 1) (pos 1) (pos 1) (fail circuit_open)
      (λ k item e. absurd (unfold lookup in cc e)) (λ v e. absurd (cc e))
