-- ===== src/ApiCache/Tests.antt =====
-- The package `apicache`: runs of the breaker and the cache, and the theorems at them.
use d_utils.Base.{
  ℕ, String, string_key, ◌≡◌, refl, [], ◌∷◌, none, some, true, false, arith, if◌then◌else◌, ◌==◌,
}
use d_utils.Base.Dict.{Dict}
use d_utils.Base.{◌≢◌, List}
use d_utils.Base.Int.{pos, ◌-ℤ◌}
use d_utils.Base.GoTime.{add, sub, before}
use d_utils.Base.Dict.{lookup}
use d_utils.ApiCache.Circuit.{
  CircuitBreaker, circuit_closed, circuit_open, circuit_half_open, check, half_open, allow, failure,
}
use d_utils.ApiCache.Circuit.Counting.{fail_at, fail_at-state}
use d_utils.ApiCache.Circuit.Schedule.{
  Reach-IsSound, IsSound, late_promotion, new_circuit_breaker-IsSound,
}
use d_utils.ApiCache.Circuit.Schedule
use d_utils.ApiCache.Cache.{Cache, Item, ok, fail, invalid_ttl, set, is_full}
use d_utils.ApiCache.Cache.Eviction.{NoneBefore}
use d_utils.ApiCache.Cache.Bounds.{IsValid, stored_item, set-IsValid, set-lookup}
use d_utils.ApiCache.Fetch.{
  Readings, fresh, must_fetch, lead, admit_by, consult, begin_fetch, get_or_fetch,
}
use d_utils.ApiCache.Fetch.Consult.{decision_for}
use d_utils.ApiCache.Fetch.Replies.{get_or_fetch-reply_for, get_or_fetch-fetches}
use d_utils.ApiCache.Fetch.{BatchKey, batch_gather, batch_get_or_fetch}
use d_utils.ApiCache.Fetch.Batch.{without_fresh, batch_get_or_fetch-without_fresh}
use d_utils.ApiCache.Cache.{Error, Result, other}
use d_utils.ApiCache.Fetch.Coalescing
use d_utils.ApiCache.Fetch.Coalescing.{IsCoalesced, Reach-IsCoalesced, fetches, in_flight}

abbrev closed_breaker : CircuitBreaker
closed_breaker = record {
  state = circuit_closed;
  failures = pos 0;
  last_failure = pos 0;
  last_success = pos 0;
  half_open_attempt = pos 0;
  max_failures = pos 2;
  reset_timeout = pos 10;
  half_open_timeout = pos 5;
}

abbrev open_breaker : CircuitBreaker
open_breaker = record closed_breaker {
  state = circuit_open;
  failures = pos 2;
  last_failure = pos 100;
}

abbrev trying : CircuitBreaker
trying = record closed_breaker { state = circuit_half_open; half_open_attempt = pos 200 }

fail_at-state_example : (fail_at closed_breaker (pos 7 ∷ pos 8 ∷ [])).state ≡ circuit_open
fail_at-state_example =
    fail_at-state (pos 7 ∷ pos 8 ∷ []) closed_breaker 0 2 refl refl refl (omega arith) (omega arith)

closed-IsSound : IsSound closed_breaker
closed-IsSound = ground arith

abbrev two_failures :
    Schedule.Reach
      (record { breaker = closed_breaker; pending = 0 })
      (record { breaker = failure (failure closed_breaker (pos 7)) (pos 8); pending = 0 })
two_failures =
    Schedule.step (Schedule.step Schedule.here (Schedule.report_failure _ (pos 7)))
      (Schedule.report_failure _ (pos 8))

Reach-IsSound_example : IsSound (failure (failure closed_breaker (pos 7)) (pos 8))
Reach-IsSound_example = Reach-IsSound closed-IsSound two_failures

opens_again : check open_breaker (pos 111) ≡ half_open
unfolding check sub ◌-ℤ◌
opens_again = refl

abbrev old : Item ℕ
old = record {
  value = 1;
  created_at = pos 0;
  expires_at = pos 60;
  last_access = pos 5;
  access_count = pos 1;
}

abbrev young : Item ℕ
young = record {
  value = 2;
  created_at = pos 3;
  expires_at = pos 63;
  last_access = pos 9;
  access_count = pos 0;
}

abbrev full : Cache ℕ
full = record {
  items = ("a", old) ∷ ("b", young) ∷ [];
  inflight = [];
  default_ttl = pos 60;
  stale_timeout = pos 120;
  max_items = pos 2;
  persist_path = "";
  circuit_breaker = some closed_breaker;
  has_metrics = false;
  has_on_get = false;
  effects = [];
}

full-IsValid : IsValid full
unfolding lookup
full-IsValid = record {
  distinct = (refl, (refl, tt));
  named = refl;
  positive = omega arith;
  bounded = omega arith;
}

set-IsValid_example : IsValid (set full "c" 3 (pos 20))
set-IsValid_example = set-IsValid full "c" 3 (pos 20) (λ e. absurd (cc e)) full-IsValid

set-lookup_example :
    (lookup "b" (set full "b" 3 (pos 20)).items ≡ some (stored_item full 3 (pos 20)))
    × (is_full full ≡ false
        → (j : String) → "b" ≢ j
        → lookup j (set full "b" 3 (pos 20)).items ≡ lookup j full.items)
    × (is_full full ≡ true
        → (k : String) × (w : Item ℕ) × (lookup k full.items ≡ some w)
          × NoneBefore w.last_access full.items
          × ((j : String)
              → "b" ≢ j
              → lookup j (set full "b" 3 (pos 20)).items
                ≡ (if k == j then none else lookup j full.items)))
set-lookup_example = set-lookup full "b" 3 (pos 20) full-IsValid

abbrev at : ℕ → Readings
at n = record {
  at_check = pos n;
  at_promote = pos n;
  at_get = pos n;
  at_fresh = pos n;
  at_stale = pos n;
}

get_or_fetch-reply_for_example :
    (get_or_fetch {E = String} full "c" (at 20) (ok 3) (pos 20) (pos 21) (pos 22)).1 ≡ some (ok 3)
unfolding decision_for lookup allow check
get_or_fetch-reply_for_example =
    get_or_fetch-reply_for full "c" (at 20) (ok 3) (pos 20) (pos 21) (pos 22)

misses : decision_for full "c" (at 20) ≡ must_fetch
unfolding decision_for lookup allow check
misses = refl

idle : lookup "c" full.inflight ≡ none
unfolding lookup
idle = refl

get_or_fetch-fetches_example :
    let served = (get_or_fetch {E = String} full "c" (at 20) (ok 3) (pos 20) (pos 21) (pos 22)).0 in
    let failed =
      (get_or_fetch {E = String} full "c"
        (at 20)
        (fail invalid_ttl)
        (pos 20)
        (pos 21)
        (pos 22)).0 in
    (lookup "c" served.inflight ≡ none)
    × (lookup "c" served.items ≡ some (stored_item full 3 (pos 22)))
    × ((admit_by served.circuit_breaker (pos 30) (pos 30)).1 ≡ true
        → before (pos 30) (add (pos 22) (pos 60)) ≡ true
        → decision_for served "c" (at 30) ≡ fresh 3)
    × (lookup "c" failed.inflight ≡ none)
    × (failed.items ≡ (consult full "c" (at 20)).0.items)
get_or_fetch-fetches_example =
    get_or_fetch-fetches full "c" (at 20) 3 invalid_ttl (pos 20) (pos 21) (pos 22) (at 30) misses
      idle

abbrev at_rest : Coalescing.Shared ℕ
at_rest = record { cache = full; leaders = [] }

at_rest-IsCoalesced : IsCoalesced at_rest
unfolding lookup fetches
at_rest-IsCoalesced = record { counted = λ key. refl }

leads : (begin_fetch full "c" (pos 20)).1 ≡ lead
unfolding begin_fetch lookup
leads = refl

Reach-IsCoalesced_example :
    IsCoalesced (record { cache = (begin_fetch full "c" (pos 20)).0; leaders = "c" ∷ [] })
Reach-IsCoalesced_example =
    Reach-IsCoalesced {E = String} at_rest-IsCoalesced
      (Coalescing.step Coalescing.here (Coalescing.begin_leading at_rest "c" (pos 20) leads))

abbrev asked : List BatchKey
asked =
    record { key = "b"; at_get = pos 62; at_check = pos 62 }
    ∷ record { key = "a"; at_get = pos 62; at_check = pos 62 }
    ∷ record { key = "c"; at_get = pos 62; at_check = pos 62 }
    ∷ []

old_and_absent : without_fresh full asked ≡ "a" ∷ "c" ∷ []
unfolding without_fresh lookup
old_and_absent = refl

abbrev down : Result String (Dict String ℕ)
down = fail (other "down")

batch_get_or_fetch-without_fresh_example :
    let p = batch_gather (record { cache = full; result = []; missing = [] }) asked in
    (p.missing ≡ without_fresh full asked)
    × (without_fresh full asked ≡ []
        → batch_get_or_fetch full asked (λ ks. down) (λ k. pos 70) ≡ (p.cache, p.result, none))
    × ((e : Error String)
        → down ≡ fail e
        → without_fresh full asked ≢ []
        → batch_get_or_fetch full asked (λ ks. down) (λ k. pos 70) ≡ (p.cache, p.result, some e))
batch_get_or_fetch-without_fresh_example =
    batch_get_or_fetch-without_fresh full asked (λ ks. down) (λ k. pos 70)
