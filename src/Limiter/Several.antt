-- ===== src/Limiter/Several.antt =====
-- limiter/limiter.go: two limits on one user.
use d_utils.Base.{
  String, string_key, ◌≡◌, refl, ◌∙◌, ◌≢◌, true, false, [], ◌∷◌, some, if◌then◌else◌, arith,
  Bool-cases, inl, inr,
}
use d_utils.Base.Int.{int_key, pos, ◌<ℤ◌, ◌≤ℤ◌, leb_ℤ}
use d_utils.Base.Word.{InInt64, add64}
use d_utils.Base.GoTime.{Time, add, sub, is_zero, before, interval_passed}
use d_utils.Base.Dict.{lookup}
use d_utils.Limiter.{
  RateLimit, RateLimiter, UserData, count_of, count_up, pass_limits, allow_request,
  next_action_time, next_end,
}
use d_utils.Limiter.Windows.{
  settled, settled_open, settled-SameAt, count_up-SameAt, count_of-count_up,
}

-- Two limits of different intervals, and a user in an open window of each.
pub record TwoOpen (l m : RateLimit) (u : UserData) (now s t : Time) : Type 0 where
  pub apart : l.interval ≢ m.interval
  pub first_started : lookup l.interval u.last_requests ≡ some s
  pub first_open : leb_ℤ l.interval (sub now s) ≡ false
  pub second_started : lookup m.interval u.last_requests ≡ some t
  pub second_open : leb_ℤ m.interval (sub now t) ≡ false

-- What the two rounds of the loop do.
pub pass_limits_two :
    (l m : RateLimit) (u : UserData) (now s t : Time)
    → TwoOpen l m u now s t
    → pass_limits (l ∷ m ∷ []) u now ≡ (
        if leb_ℤ l.max_count (count_of u l.interval)
        then (u, false)
        else if leb_ℤ m.max_count (count_of u m.interval)
        then (count_up u l.interval, false)
        else (count_up (count_up u l.interval) m.interval, true))
unfolding pass_limits
pass_limits_two l m u now s t h =
    let u' = count_up u l.interval in
    let (counts, lasts) = count_up-SameAt u l.interval m.interval h.apart in
    let second : settled u' m.interval now ≡ u' =
      settled_open u' m.interval now t (lasts ∙ h.second_started) h.second_open in
    rw (settled_open u l.interval now s h.first_started h.first_open, second, counts)

-- Of two limits with different intervals, both of whose windows are open, let the first have room and
-- the second none: the request is denied, and the first limit has counted it.
pub denied_is_counted :
    (l m : RateLimit) (u : UserData) (now s t : Time)
    → TwoOpen l m u now s t
    → leb_ℤ l.max_count (count_of u l.interval) ≡ false
    → leb_ℤ m.max_count (count_of u m.interval) ≡ true
    → ((pass_limits (l ∷ m ∷ []) u now).1 ≡ false)
      × (count_of (pass_limits (l ∷ m ∷ []) u now).0 l.interval
          ≡ add64 (count_of u l.interval) (pos 1))
denied_is_counted l m u now s t h room full =
    rw (pass_limits_two l m u now s t h, room, full) (refl, count_of-count_up u l.interval)

-- A full second window denies whatever the first limit does.
denied_by_second :
    (l m : RateLimit) (u : UserData) (at t : Time)
    → l.interval ≢ m.interval
    → lookup m.interval u.last_requests ≡ some t
    → leb_ℤ m.interval (sub at t) ≡ false
    → leb_ℤ m.max_count (count_of u m.interval) ≡ true
    → (pass_limits (l ∷ m ∷ []) u at).1 ≡ false
unfolding pass_limits
denied_by_second l m u at t apart started open' full =
    let u' = count_up (settled u l.interval at) l.interval in
    let (c, r) = count_up-SameAt (settled u l.interval at) l.interval m.interval apart in
    let (c', r') = settled-SameAt u l.interval m.interval at apart in
    let second : settled u' m.interval at ≡ u' =
      settled_open u' m.interval at t (r ∙ r' ∙ started) open' in
    let full' : leb_ℤ m.max_count (count_of u' m.interval) ≡ true = rw (c ∙ c') full in
    elim (Bool-cases (leb_ℤ l.max_count (count_of (settled u l.interval at) l.interval))) [
      | inl stop ↦ rw stop
      | inr go ↦ rw (go, second, full')
    ]

-- Of two limits with different intervals, both of whose windows are open and used up, let the first
-- window end earlier, behind the start of the second: `NextActionTime` is the end of the first, and a
-- request at that time is denied.
pub next_action_time_too_early :
    (rl : RateLimiter) (id : String) (l m : RateLimit) (u : UserData) (now s t : Time)
    → rl.rate_limits ≡ l ∷ m ∷ []
    → lookup id rl.users ≡ some u
    → TwoOpen l m u now s t
    → InInt64 m.interval
    → pos 0 <ℤ add s l.interval
    → pos 0 <ℤ add t m.interval
    → leb_ℤ l.max_count (count_of u l.interval) ≡ true
    → leb_ℤ m.max_count (count_of u m.interval) ≡ true
    → add s l.interval <ℤ add t m.interval
    → t ≤ℤ add s l.interval
    → (next_action_time rl id now ≡ add s l.interval)
      × ((allow_request rl id (next_action_time rl id now)).1 ≡ false)
unfolding next_action_time next_end allow_request
next_action_time_too_early rl id l m u now s t limits known h fits zs zt full_l full_m earlier
      started =
    let end_l : is_zero (add s l.interval) ≡ false = ground arith in
    let later : before (add t m.interval) (add s l.interval) ≡ false = ground arith in
    let value : next_action_time rl id now ≡ add s l.interval = rw (
      known, next_action_time, limits, h.first_started, full_l, h.second_started, full_m, end_l,
      later, end_l,
    ) in
    let end' = add s l.interval in
    let still_open : leb_ℤ m.interval (sub end' t) ≡ false =
      interval_passed t end' m.interval fits started ∙ ground arith in
    (
      value,
      rw (value, allow_request, known, limits)
          (denied_by_second l m u end' t h.apart h.second_started still_open full_m),
    )
