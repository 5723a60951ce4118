-- ===== src/Limiter/Transparent.antt =====
-- limiter/limiter.go: the rounds of the cleanup.
use d_utils.Base.{
  String, string_key, Option-cases, ◌≡◌, refl, ◌∙◌, ◌≢◌, Bool, true, List, [], ◌∷◌, Option, none,
  some, if◌then◌else◌, arith, All, Bool-cases, inl, inr,
}
use d_utils.Base.Int.{int_key, pos, ◌<ℤ◌, ◌≤ℤ◌, leb_ℤ}
use d_utils.Base.GoTime.{Time, Duration, sub_mono}
use d_utils.Base.Dict.{Dict, Distinct, lookup}
use d_utils.Limiter.{
  RateLimit, RateLimiter, UserData, cleanup, cleanup_users, allow_request, count_up, pass_limits,
  is_expired, no_data, last_of,
}
use d_utils.Limiter.Valid.{IsValid}
use d_utils.Limiter.Windows.{
  SameAt, settled, settled-SameAt, count_up-SameAt, IsPassed, IsRecorded, settled_passed,
}

-- No two limits share an interval.
abbrev pub Apart : List RateLimit → Type 0
Apart [] = Unit {0}
Apart (l ∷ ls) = All (λ (m : RateLimit). l.interval ≢ m.interval) ls × Apart ls

-- All windows of the limits have passed.
abbrev pub AllPassed : List RateLimit → UserData → Time → Type 0
AllPassed ls u now = All (λ (l : RateLimit). IsRecorded u l.interval × IsPassed u l.interval now) ls

abbrev pub AllPositive : List RateLimit → Type 0
AllPositive = All (λ (l : RateLimit). pos 0 <ℤ l.interval)

AllPassed-step :
    (l : RateLimit) (ls : List RateLimit) (u v : UserData) (now : Time)
    → All (λ (m : RateLimit). l.interval ≢ m.interval) ls
    → ((j : Duration) → l.interval ≢ j → SameAt j v u)
    → AllPassed ls u now
    → AllPassed ls v now
AllPassed-step l [] u v now a same h = tt
AllPassed-step l (m ∷ ls) u v now a same h =
    let (counts, lasts) = same m.interval a.0 in
    ((rw (counts, lasts) h.0.0, rw lasts h.0.1), AllPassed-step l ls u v now a.1 same h.1)

round-SameAt :
    (u : UserData) (i : Duration) (now : Time) (j : Duration)
    → i ≢ j
    → SameAt j (count_up (settled u i now) i) u
round-SameAt u i now j ne =
    let (c, l) = count_up-SameAt (settled u i now) i j ne in
    let (c', l') = settled-SameAt u i j now ne in (c ∙ c', l ∙ l')

-- The answer depends on the user only through windows that are still open.
pub pass_limits_passed :
    (ls : List RateLimit) (u v : UserData) (now : Time)
    → Apart ls
    → AllPositive ls
    → AllPassed ls u now
    → AllPassed ls v now
    → (pass_limits ls u now).1 ≡ (pass_limits ls v now).1
unfolding pass_limits
pass_limits_passed [] u v now a p h k = refl
pass_limits_passed (l ∷ ls) u v now a p h k =
    let i = l.interval in
    let zero_u = (settled_passed u i now p.0 h.0.0 h.0.1).0 in
    let zero_v = (settled_passed v i now p.0 k.0.0 k.0.1).0 in
    let ih =
      pass_limits_passed ls (count_up (settled u i now) i) (count_up (settled v i now) i) now a.1
        p.1 (AllPassed-step l ls u _ now a.0 (round-SameAt u i now) h.1)
        (AllPassed-step l ls v _ now a.0 (round-SameAt v i now) k.1) in
    rw (zero_u, zero_v)
      (elim (Bool-cases (leb_ℤ l.max_count (pos 0))) [ inl full ↦ rw full | inr room ↦ rw room ih ])

AllPassed-no_data : (ls : List RateLimit) (now : Time) → AllPassed ls no_data now
unfolding lookup
AllPassed-no_data [] now = tt
AllPassed-no_data (l ∷ ls) now = ((λ _. refl, refl), AllPassed-no_data ls now)

is_expired-AllPassed :
    (ls : List RateLimit) (u : UserData) (now later : Time)
    → now ≤ℤ later
    → ((i : Duration) → IsRecorded u i)
    → is_expired ls u now ≡ true
    → AllPassed ls u later
unfolding is_expired
is_expired-AllPassed [] u now later o r e = tt
is_expired-AllPassed (l ∷ ls) u now later o r e = (
  (r l.interval, ground (arith, sub_mono now later (last_of u l.interval) o)),
  is_expired-AllPassed ls u now later o r (ground arith),
)

-- The users that stay after a round of the cleanup.
lookup-cleanup_users :
    (ls : List RateLimit) (users : Dict String UserData) (now : Time) (id : String)
    → Distinct users
    → lookup id (cleanup_users ls users now) ≡ (elim (lookup id users) [
      | none ↦ none
      | some u ↦ if is_expired ls u now then none else some u
    ])
unfolding cleanup_users lookup
lookup-cleanup_users ls [] now id d = refl
lookup-cleanup_users ls ((j, u) ∷ users) now id d =
    ground (arith, lookup-cleanup_users ls users now id d.1, string_key.same_key_iff j id)

-- On a valid limiter whose limits have positive intervals, no two the same, a round of the cleanup at
-- any time before a request changes no answer to it: the limiter forgets only what it no longer
-- counts.
pub cleanup-allow_request :
    (rl : RateLimiter) (id : String) (now later : Time)
    → IsValid rl
    → Apart rl.rate_limits
    → AllPositive rl.rate_limits
    → now ≤ℤ later
    → (allow_request (cleanup rl now) id later).1 ≡ (allow_request rl id later).1
unfolding allow_request cleanup
cleanup-allow_request rl id now later v a p o = elim (Option-cases (lookup id rl.users)) [
  | inl absent ↦ rw (lookup-cleanup_users rl.rate_limits rl.users now id v.distinct, absent)
  | inr (u, present) ↦ elim (Bool-cases (is_expired rl.rate_limits u now)) [
    | inl old ↦
        rw (lookup-cleanup_users rl.rate_limits rl.users now id v.distinct, present, old)
          (pass_limits_passed rl.rate_limits no_data u later a p
            (AllPassed-no_data rl.rate_limits later)
            (is_expired-AllPassed rl.rate_limits u now later o (v.recorded id u present) old))
    | inr kept ↦ rw (lookup-cleanup_users rl.rate_limits rl.users now id v.distinct, present, kept)
  ]
]

cleanup_users-Distinct :
    (ls : List RateLimit) (users : Dict String UserData) (now : Time)
    → Distinct users
    → Distinct (cleanup_users ls users now)
unfolding cleanup_users
cleanup_users-Distinct ls [] now d = tt
cleanup_users-Distinct ls ((j, u) ∷ users) now d = elim (Bool-cases (is_expired ls u now)) [
  | inl old ↦ rw old (cleanup_users-Distinct ls users now d.1)
  | inr kept ↦
      rw kept
        (rw (lookup-cleanup_users ls users now j d.1, d.0), cleanup_users-Distinct ls users now d.1)
]

kept_by :
    (test : UserData → Bool) (o : Option UserData) (u : UserData)
    → (elim o [ none ↦ none | some w ↦ if test w then none else some w ]) ≡ some u
    → o ≡ some u
kept_by test none u e = e
kept_by test (some w) u e = ground arith

-- A round of the cleanup on a valid limiter keeps it valid; the users that it keeps are the unexpired
-- ones, with their data.
pub cleanup-IsValid :
    (rl : RateLimiter) (now : Time)
    → IsValid rl
    → IsValid (cleanup rl now)
      × ((id : String)
          → lookup id (cleanup rl now).users ≡ (elim (lookup id rl.users) [
            | none ↦ none
            | some u ↦ if is_expired rl.rate_limits u now then none else some u
          ]))
unfolding cleanup
cleanup-IsValid rl now v = (
  record {
    distinct = cleanup_users-Distinct rl.rate_limits rl.users now v.distinct;
    recorded = λ id u e. v.recorded id u (kept_by _ (lookup id rl.users) u (rw (left id) at e));
  },
  left,
)
  where
    left :
        (id : String)
        → lookup id (cleanup_users rl.rate_limits rl.users now) ≡ (elim (lookup id rl.users) [
          | none ↦ none
          | some u ↦ if is_expired rl.rate_limits u now then none else some u
        ])
    left id = lookup-cleanup_users rl.rate_limits rl.users now id v.distinct
