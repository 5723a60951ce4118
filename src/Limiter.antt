-- ===== src/Limiter.antt =====
-- limiter/limiter.go: a rate limiter that counts requests per user and interval. The methods hold the
-- lock throughout, so each is one step; `time.Now()` is the argument `now`. A missing entry of a Go map
-- reads as the zero value of its type.
pub mod Windows
pub mod Several
pub mod SingleLimit
pub mod Valid
pub mod Transparent
mod Tests
use d_utils.Base.{
  String, Bool, true, false, not, List, [], ◌∷◌, Option, none, some, if◌then◌else◌, filter_by,
  string_key,
}
use d_utils.Base.Int.{ℤ, int_key, pos, ltb_ℤ, leb_ℤ}
use d_utils.Base.Word.{add64}
use d_utils.Base.GoTime.{Time, Duration, add, sub, before, is_zero}
use d_utils.Base.Dict.{Dict, lookup, insert}

pub record RateLimit : Type 0 where
  pub interval : Duration
  pub max_count : ℤ

pub record UserData : Type 0 where
  pub request_counts : Dict Duration ℤ
  pub last_requests : Dict Duration Time

pub record RateLimiter : Type 0 where
  pub users : Dict String UserData
  pub rate_limits : List RateLimit
  pub cleanup_interval : Duration

unfoldable pub new_rate_limiter : Duration → List RateLimit → RateLimiter
new_rate_limiter cleanup_interval limits = record {
  users = [];
  rate_limits = limits;
  cleanup_interval = cleanup_interval;
}

-- A read of a map of numbers or times: the zero value for a missing key.
abbrev pub or_zero : Option ℤ → ℤ
or_zero none = pos 0
or_zero (some v) = v

abbrev pub count_of : UserData → Duration → ℤ
count_of u i = or_zero (lookup i u.request_counts)

abbrev pub last_of : UserData → Duration → Time
last_of u i = or_zero (lookup i u.last_requests)

-- `if _, ok := lastRequests[i]; !ok { lastRequests[i] = now }`
unfoldable pub touch : UserData → Duration → Time → UserData
touch u i now = elim (lookup i u.last_requests) [
  | none ↦ record u { last_requests = insert i now u.last_requests }
  | some _ ↦ u
]

-- The window of an interval starts anew when the interval has passed.
unfoldable pub roll : UserData → Duration → Time → UserData
roll u i now =
    if leb_ℤ i (sub now (last_of u i))
    then record {
      request_counts = insert i (pos 0) u.request_counts;
      last_requests = insert i now u.last_requests;
    }
    else u

-- `requestCounts[i]++`
unfoldable pub count_up : UserData → Duration → UserData
count_up u i = record u {
  request_counts = insert i (add64 (count_of u i) (pos 1)) u.request_counts;
}

-- The loop of `AllowRequest` over the limits; a return leaves it.
unfoldable pub pass_limits : List RateLimit → UserData → Time → UserData × Bool
pass_limits [] u now = (u, true)
pass_limits (l ∷ ls) u now =
    let u' = roll (touch u l.interval now) l.interval now in
    let rest = pass_limits ls (count_up u' l.interval) now in
    if leb_ℤ l.max_count (count_of u' l.interval) then (u', false) else rest

abbrev pub no_data : UserData
no_data = record { request_counts = []; last_requests = [] }

abbrev pub user_data : Option UserData → UserData
user_data none = no_data
user_data (some u) = u

unfoldable pub allow_request : RateLimiter → String → Time → RateLimiter × Bool
allow_request rl id now =
    let (u, allowed) = pass_limits rl.rate_limits (user_data (lookup id rl.users)) now in
    (record rl { users = insert id u rl.users }, allowed)

-- The loop of `NextActionTime`, with the least end so far (the zero time for none).
unfoldable pub next_end : List RateLimit → UserData → Time → Time
next_end [] u next = next
next_end (l ∷ ls) u next =
    let limit_end = add (last_of u l.interval) l.interval in
    next_end ls u (
      if leb_ℤ l.max_count (count_of u l.interval)
      then (if is_zero next then limit_end else if before limit_end next then limit_end else next)
      else next)

unfoldable pub next_action_time : RateLimiter → String → Time → Time
next_action_time rl id now = elim (lookup id rl.users) [
  | none ↦ now
  | some u ↦ let t = next_end rl.rate_limits u (pos 0) in if is_zero t then now else t
]

-- One round of `cleanupRoutine`: the test of a user, and the pass over the users.
unfoldable pub is_expired : List RateLimit → UserData → Time → Bool
is_expired [] u now = true
is_expired (l ∷ ls) u now =
    if ltb_ℤ (sub now (last_of u l.interval)) l.interval then false else is_expired ls u now

unfoldable pub cleanup_users : List RateLimit → Dict String UserData → Time → Dict String UserData
cleanup_users ls users now = filter_by (λ e. not (is_expired ls e.1 now)) users

unfoldable pub cleanup : RateLimiter → Time → RateLimiter
cleanup rl now = record rl { users = cleanup_users rl.rate_limits rl.users now }
