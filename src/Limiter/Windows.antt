-- ===== src/Limiter/Windows.antt =====
-- limiter/limiter.go: what one round of the loop of `AllowRequest` does to each interval.
use d_utils.Base.{
  ◌≡◌, refl, ◌≢◌, Bool, true, false, Option, none, some, arith, Option-cases, inl, inr,
}
use d_utils.Base.Int.{int_key, pos, ◌<ℤ◌, leb_ℤ}
use d_utils.Base.Word.{add64}
use d_utils.Base.GoTime.{Time, Duration, sub, sub_self}
use d_utils.Base.Dict.{lookup, insert, lookup-insert_self, lookup-insert_ne}
use d_utils.Limiter.{UserData, count_of, touch, roll, count_up}

-- The data of one interval: the count, and the start of the window if there is one.
abbrev pub SameAt : Duration → UserData → UserData → Type 0
SameAt i u v =
    (lookup i u.request_counts ≡ lookup i v.request_counts)
    × (lookup i u.last_requests ≡ lookup i v.last_requests)

-- The user's data after the two first statements of the loop.
abbrev pub settled : UserData → Duration → Time → UserData
settled u i now = roll (touch u i now) i now

pub settled-SameAt :
    (u : UserData) (i j : Duration) (now : Time) → i ≢ j → SameAt j (settled u i now) u
unfolding touch roll
settled-SameAt u i j now h = ground (
  arith,
  lookup-insert_ne i j (pos 0) u.request_counts h,
  lookup-insert_ne i j now u.last_requests h,
  lookup-insert_ne i j now (insert i now u.last_requests) h,
)

pub count_up-SameAt : (u : UserData) (i j : Duration) → i ≢ j → SameAt j (count_up u i) u
unfolding count_up
count_up-SameAt u i j h = (lookup-insert_ne i j _ u.request_counts h, refl)

pub count_of-count_up :
    (u : UserData) (i : Duration) → count_of (count_up u i) i ≡ add64 (count_of u i) (pos 1)
unfolding count_up
count_of-count_up u i = rw (lookup-insert_self i (add64 (count_of u i) (pos 1)) u.request_counts)

-- An interval with no window, or whose window has passed.
abbrev passed_at : Option Time → Duration → Time → Bool
passed_at none i now = true
passed_at (some t) i now = leb_ℤ i (sub now t)

abbrev pub IsPassed : UserData → Duration → Time → Type 0
IsPassed u i now = passed_at (lookup i u.last_requests) i now ≡ true

-- No window means no count.
abbrev pub IsRecorded : UserData → Duration → Type 0
IsRecorded u i = lookup i u.last_requests ≡ none → count_of u i ≡ pos 0

-- A new window starts at `now` with no request in it.
pub settled_passed :
    (u : UserData) (i : Duration) (now : Time)
    → pos 0 <ℤ i
    → IsRecorded u i
    → IsPassed u i now
    → (count_of (settled u i now) i ≡ pos 0) × (lookup i (settled u i now).last_requests ≡ some now)
unfolding touch roll
settled_passed u i now p r h = elim (Option-cases (lookup i u.last_requests)) [
  | inl fresh ↦ ground (arith, lookup-insert_self i now u.last_requests, sub_self now, r fresh)
  | inr (t, open') ↦ ground (
    arith,
    lookup-insert_self i now u.last_requests,
    lookup-insert_self i (pos 0) u.request_counts,
  )
]

-- An open window goes on.
pub settled_open :
    (u : UserData) (i : Duration) (now t : Time)
    → lookup i u.last_requests ≡ some t
    → leb_ℤ i (sub now t) ≡ false
    → settled u i now ≡ u
unfolding touch roll
settled_open u i now t h e = ground arith
