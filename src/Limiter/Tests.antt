-- ===== src/Limiter/Tests.antt =====
-- limiter/limiter.go: runs of a limiter, and the theorems at it.
use d_utils.Base.{string_key, ◌≡◌, refl, [], ◌∷◌, true, false, arith}
use d_utils.Base.Int.{pos, int_key, ◌+ℤ◌, ◌-ℤ◌}
use d_utils.Base.Word.{add64, wrap64}
use d_utils.Base.GoTime.{add, sub}
use d_utils.Base.Dict.{lookup, insert}
use d_utils.Limiter.{
  RateLimit, RateLimiter, UserData, new_rate_limiter, allow_request, pass_limits, touch, roll,
  count_up, next_action_time, cleanup,
}
use d_utils.Limiter.Valid.{IsValid, new_rate_limiter-IsValid, allow_request-IsValid}
use d_utils.Limiter.Transparent.{Apart, AllPositive, cleanup-allow_request}
use d_utils.Limiter.SingleLimit.{
  answers, admitted, InWindow, answers-admitted, next_action_time-allow_request,
}
use d_utils.Limiter.Several.{TwoOpen}

abbrev per_ten : RateLimit
per_ten = record { interval = pos 10; max_count = pos 2 }

abbrev per_hundred : RateLimit
per_hundred = record { interval = pos 100; max_count = pos 3 }

abbrev used : UserData
used = record {
  request_counts = (pos 10, pos 2) ∷ (pos 100, pos 3) ∷ [];
  last_requests = (pos 10, pos 1000) ∷ (pos 100, pos 1000) ∷ [];
}

abbrev fresh_limiter : RateLimiter
fresh_limiter = new_rate_limiter (pos 60) (per_ten ∷ per_hundred ∷ [])

abbrev one_limit : RateLimiter
one_limit = record { users = []; rate_limits = per_ten ∷ []; cleanup_interval = pos 60 }

abbrev used_up : RateLimiter
used_up = record {
  users = ("ann", used) ∷ [];
  rate_limits = per_ten ∷ per_hundred ∷ [];
  cleanup_interval = pos 60;
}

abbrev used_one : RateLimiter
used_one = record used_up { rate_limits = per_ten ∷ [] }

third_denied :
    answers one_limit "ann" (pos 1000 ∷ pos 1001 ∷ pos 1002 ∷ pos 1010 ∷ [])
    ≡ true ∷ true ∷ false ∷ true ∷ []
unfolding answers allow_request pass_limits touch roll count_up lookup insert sub ◌-ℤ◌ ◌+ℤ◌ add64
    wrap64
third_denied = refl

abbrev served : RateLimiter
served = (allow_request fresh_limiter "ann" (pos 1000)).0

served-IsValid : IsValid served
served-IsValid =
    allow_request-IsValid fresh_limiter "ann" (pos 1000)
      (new_rate_limiter-IsValid (pos 60) (per_ten ∷ per_hundred ∷ []))

fresh-Apart : Apart (per_ten ∷ per_hundred ∷ [])
fresh-Apart = (((λ e. absurd (cc e)), tt), (tt, tt))

fresh-AllPositive : AllPositive (per_ten ∷ per_hundred ∷ [])
fresh-AllPositive = ground arith

cleanup-allow_request_example :
    (allow_request (cleanup served (pos 1200)) "ann" (pos 1300)).1
    ≡ (allow_request served "ann" (pos 1300)).1
unfolding new_rate_limiter allow_request
cleanup-allow_request_example =
    cleanup-allow_request served "ann" (pos 1200) (pos 1300) served-IsValid fresh-Apart
      fresh-AllPositive (omega arith)

answers-admitted_example :
    admitted (answers one_limit "ann" (pos 1000 ∷ pos 1001 ∷ pos 1002 ∷ [])) ≡ 2
unfolding lookup sub ◌-ℤ◌
answers-admitted_example =
    answers-admitted "ann" per_ten 2 refl one_limit (pos 1000) (pos 1001 ∷ pos 1002 ∷ []) refl refl
      (omega arith) (omega arith) (omega arith) (refl, (refl, tt))

used-InWindow : InWindow used_one "ann" (pos 10) (pos 1000) 2
unfolding lookup
used-InWindow = record { user = used; known = refl; started = refl; count = refl }

next_action_time-allow_request_example :
    (next_action_time used_one "ann" (pos 1005) ≡ pos 1010)
    × ((allow_request used_one "ann" (pos 1009)).1 ≡ false)
unfolding add ◌+ℤ◌
next_action_time-allow_request_example =
    next_action_time-allow_request "ann" per_ten 2 refl used_one (pos 1000) (pos 1005) (pos 1009)
      refl used-InWindow (omega arith) (ground arith) (omega arith) (omega arith) (ground arith)
      (omega arith)

abbrev half_used : UserData
half_used = record used { request_counts = (pos 10, pos 1) ∷ (pos 100, pos 3) ∷ [] }

used-TwoOpen : TwoOpen per_ten per_hundred used (pos 1005) (pos 1000) (pos 1000)
unfolding lookup sub ◌-ℤ◌
used-TwoOpen = record {
  apart = λ e. absurd (cc e);
  first_started = refl;
  first_open = refl;
  second_started = refl;
  second_open = refl;
}

half_used-TwoOpen : TwoOpen per_ten per_hundred half_used (pos 1005) (pos 1000) (pos 1000)
unfolding lookup sub ◌-ℤ◌
half_used-TwoOpen = record {
  apart = λ e. absurd (cc e);
  first_started = refl;
  first_open = refl;
  second_started = refl;
  second_open = refl;
}
