-- ===== src/Limiter/Valid.antt =====
-- limiter/limiter.go: the invariant of the users' data.
use d_utils.Base.{
  String, string_key, ◌≡◌, refl, ◌≢◌, List, [], ◌∷◌, none, some, if◌then◌else◌, arith, Bool-cases,
  Option-cases, inl, inr, ◌==◌, some_inj,
}
use mathlib.Core.Path.{subst}
use d_utils.Base.Int.{int_key, pos, leb_ℤ, eqb_ℤ, eqb_ℤ_iff}
use d_utils.Base.Word.{add64}
use d_utils.Base.GoTime.{Time, Duration}
use d_utils.Base.Dict.{Distinct, lookup, insert, lookup-insert, insert-Distinct}
use d_utils.Limiter.{
  RateLimit, RateLimiter, UserData, count_of, touch, roll, count_up, pass_limits, user_data,
  allow_request, new_rate_limiter,
}
use d_utils.Limiter.Windows.{IsRecorded, settled}

-- What holds of the users between two calls.
pub record IsValid (rl : RateLimiter) : Type 0 where
  pub distinct : Distinct rl.users
  pub recorded :
      (id : String) (u : UserData) → lookup id rl.users ≡ some u → (i : Duration) → IsRecorded u i

abbrev Recorded : UserData → Type 0
Recorded u = (i : Duration) → IsRecorded u i

settled-Recorded :
    (u : UserData) (i : Duration) (now : Time) → Recorded u → Recorded (settled u i now)
unfolding touch roll
settled-Recorded u i now r j = ground (
  arith,
  r j,
  lookup-insert i j now u.last_requests,
  lookup-insert i j now (insert i now u.last_requests),
  lookup-insert i j (pos 0) u.request_counts,
  eqb_ℤ_iff i j,
)

settled_has_window :
    (u : UserData) (i : Duration) (now : Time) → lookup i (settled u i now).last_requests ≢ none
unfolding touch roll
settled_has_window u i now e = ground (
  arith,
  lookup-insert i i now u.last_requests,
  lookup-insert i i now (insert i now u.last_requests),
  eqb_ℤ_iff i i,
)

count_up-Recorded :
    (u : UserData) (i : Duration)
    → lookup i u.last_requests ≢ none
    → Recorded u
    → Recorded (count_up u i)
unfolding count_up
count_up-Recorded u i has r j = λ missing. elim (Bool-cases (eqb_ℤ i j)) [
  | inl same ↦ absurd (has (rw ((eqb_ℤ_iff i j).0 same) missing))
  | inr other ↦
      ground (arith, r j missing, lookup-insert i j (add64 (count_of u i) (pos 1)) u.request_counts)
]

pass_limits-Recorded :
    (ls : List RateLimit) (u : UserData) (now : Time)
    → Recorded u
    → Recorded (pass_limits ls u now).0
unfolding pass_limits
pass_limits-Recorded [] u now r = r
pass_limits-Recorded (l ∷ ls) u now r =
    let i = l.interval in
    let r' = settled-Recorded u i now r in
    elim (Bool-cases (leb_ℤ l.max_count (count_of (settled u i now) i))) [
      | inl full ↦ rw full r'
      | inr room ↦ rw room (
          pass_limits-Recorded ls (count_up (settled u i now) i) now
            (count_up-Recorded (settled u i now) i (settled_has_window u i now) r'))
    ]

user_data-Recorded :
    (rl : RateLimiter) (id : String) → IsValid rl → Recorded (user_data (lookup id rl.users))
user_data-Recorded rl id v = elim (Option-cases (lookup id rl.users)) [
  | inl absent ↦ rw absent (λ i _. unfold lookup in refl)
  | inr (u, present) ↦ rw present (v.recorded id u present)
]

pub new_rate_limiter-IsValid :
    (interval : Duration) (ls : List RateLimit) → IsValid (new_rate_limiter interval ls)
unfolding new_rate_limiter lookup
new_rate_limiter-IsValid interval ls = record { distinct = tt; recorded = λ id u e i. absurd (cc) }

-- A request keeps a valid limiter valid, whatever the answer: one entry for each user, and no count
-- without the start of its window.
pub allow_request-IsValid :
    (rl : RateLimiter) (id : String) (now : Time) → IsValid rl → IsValid (allow_request rl id now).0
unfolding allow_request
allow_request-IsValid rl id now v = record {
  distinct = insert-Distinct id _ rl.users v.distinct;
  recorded = λ j u e. inserted j u (rw (lookup-insert id j after rl.users) at e);
}
  where
    after : UserData
    after = (pass_limits rl.rate_limits (user_data (lookup id rl.users)) now).0

    inserted :
        (j : String) (u : UserData)
        → (if id == j then some after else lookup j rl.users) ≡ some u
        → Recorded u
    inserted j u e = elim (Bool-cases (id == j)) [
      | inl same ↦
          subst Recorded (some_inj (rw same at e))
            (pass_limits-Recorded rl.rate_limits _ now (user_data-Recorded rl id v))
      | inr other ↦ v.recorded j u (rw other at e)
    ]
