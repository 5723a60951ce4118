-- ===== src/Limiter/SingleLimit.antt =====
-- limiter/limiter.go: a limiter with one limit, and the row of answers to one user.
use d_utils.Base.{
  String, string_key, ℕ, suc, ◌+◌, ◌≤◌, ◌<◌, ◌≡◌, refl, ◌∙◌, Bool, true, false, List, [], ◌∷◌, none,
  some, if◌then◌else◌, arith, All, Bool-cases, inl, inr, length, ltb, ltb→lt, ◌-◌,
}
use Prim.Native.Nat.{min}
use d_utils.Base.Int.{int_key, pos, ◌<ℤ◌, ◌≤ℤ◌, ◌+ℤ◌, leb_ℤ}
use d_utils.Base.Word.{InInt64, half_range, add64, add64_exact}
use d_utils.Base.GoTime.{Time, Duration, add, sub, is_zero, interval_passed}
use d_utils.Base.Dict.{lookup, insert, lookup-insert_self}
use d_utils.Limiter.{
  RateLimit, RateLimiter, UserData, count_of, count_up, pass_limits, no_data, allow_request,
  next_action_time, next_end,
}
use d_utils.Limiter.Windows.{settled, settled_open, settled_passed, count_of-count_up}

-- The answers to the requests of one user at the given times.
unfoldable pub answers : RateLimiter → String → List Time → List Bool
answers rl id [] = []
answers rl id (t ∷ ts) = let r = allow_request rl id t in r.1 ∷ answers r.0 id ts

-- How many requests of a row are admitted.
unfoldable pub admitted : List Bool → ℕ
admitted [] = 0
admitted (true ∷ bs) = suc (admitted bs)
admitted (false ∷ bs) = admitted bs

-- A user in a window that began at `t`, with `n` requests counted.
pub record InWindow (rl : RateLimiter) (id : String) (i : Duration) (t : Time) (n : ℕ)
    : Type 0 where
  pub user : UserData
  pub known : lookup id rl.users ≡ some user
  pub started : lookup i user.last_requests ≡ some t
  pub count : count_of user i ≡ pos n

-- One limit, whose window is open.
pass_one :
    (l : RateLimit) (u : UserData) (t now : Time)
    → lookup l.interval u.last_requests ≡ some t
    → leb_ℤ l.interval (sub now t) ≡ false
    → pass_limits (l ∷ []) u now ≡ (
        if leb_ℤ l.max_count (count_of u l.interval)
        then (u, false)
        else (count_up u l.interval, true))
unfolding pass_limits
pass_one l u t now started open' = rw (settled_open u l.interval now t started open')

allow_one :
    (rl : RateLimiter) (id : String) (l : RateLimit) (u : UserData) (now : Time)
    → rl.rate_limits ≡ l ∷ []
    → lookup id rl.users ≡ some u
    → allow_request rl id now
      ≡ (let r = pass_limits (l ∷ []) u now in (record rl { users = insert id r.0 rl.users }, r.1))
unfolding allow_request
allow_one rl id l u now single known = rw (single, known)

add_one : (n : ℕ) → n + 1 < half_range → add64 (pos n) (pos 1) ≡ pos (n + 1)
unfolding ◌+ℤ◌
add_one n h = ground (arith, add64_exact (pos n) (pos 1))

module _ (id : String) (l : RateLimit) (k : ℕ) (limit : l.max_count ≡ pos k) where
  InWindow-step :
      (rl : RateLimiter) (t now : Time) (n : ℕ)
      → rl.rate_limits ≡ l ∷ []
      → InWindow rl id l.interval t n
      → leb_ℤ l.interval (sub now t) ≡ false
      → n ≤ k
      → k < half_range
      → ((allow_request rl id now).1 ≡ ltb n k)
        × InWindow (allow_request rl id now).0 id l.interval t (if ltb n k then n + 1 else n)
        × ((allow_request rl id now).0.rate_limits ≡ l ∷ [])
  InWindow-step rl t now n single w open' le small =
      let u = w.user in
      let i = l.interval in
      elim (Bool-cases (ltb n k)) [
        | inl room ↦
            let test : leb_ℤ l.max_count (count_of u i) ≡ false =
              rw (limit, w.count) (ground arith) in
            rw
              (
                allow_one rl id l u now single w.known,
                pass_one l u t now w.started open',
                test,
                room,
              )
              (
                refl,
                record {
                  user = count_up u i;
                  known = lookup-insert_self id (count_up u i) rl.users;
                  started = unfold count_up in w.started;
                  count = count_of-count_up u i ∙ rw w.count (add_one n (ground arith));
                },
                single,
              )
        | inr full ↦
            let test : leb_ℤ l.max_count (count_of u i) ≡ true =
              rw (limit, w.count) (ground arith) in
            rw
              (
                allow_one rl id l u now single w.known,
                pass_one l u t now w.started open',
                test,
                full,
              )
              (
                refl,
                record {
                  user = u;
                  known = lookup-insert_self id u rl.users;
                  started = w.started;
                  count = w.count;
                },
                single,
              )
      ]

  -- A row of requests in one window: as many are admitted as there is room for.
  InWindow-answers :
      (ts : List Time) (rl : RateLimiter) (t : Time) (n : ℕ)
      → rl.rate_limits ≡ l ∷ []
      → InWindow rl id l.interval t n
      → All (λ now. leb_ℤ l.interval (sub now t) ≡ false) ts
      → n ≤ k
      → k < half_range
      → admitted (answers rl id ts) ≡ min (length ts) (k - n)
  unfolding answers admitted
  InWindow-answers [] rl t n single w a le small = omega arith
  InWindow-answers (now ∷ ts) rl t n single w a le small =
      let (answer, w', single') = InWindow-step rl t now n single w a.0 le small in
      elim (Bool-cases (ltb n k)) [
        | inl room ↦
            let ih =
              InWindow-answers ts _ t (n + 1) single' (rw room at w') a.1 (ground arith) small in
            rw (answer, room) (omega (arith, ih, ltb→lt n k room))
        | inr full ↦
            let ih = InWindow-answers ts _ t n single' (rw full at w') a.1 le small in
            let spent : n ≡ k = ground arith in rw (answer, full) (omega (arith, ih))
      ]

  -- A new user's first request opens a window.
  first_request :
      (rl : RateLimiter) (t : Time)
      → rl.rate_limits ≡ l ∷ []
      → lookup id rl.users ≡ none
      → pos 0 <ℤ l.interval
      → 0 < k
      → k < half_range
      → ((allow_request rl id t).1 ≡ true)
        × InWindow (allow_request rl id t).0 id l.interval t 1
        × ((allow_request rl id t).0.rate_limits ≡ l ∷ [])
  unfolding allow_request pass_limits lookup
  first_request rl t single fresh p some_room small =
      let i = l.interval in
      let u = settled no_data i t in
      let (none_counted, window) = settled_passed no_data i t p (λ _. refl) refl in
      let test : leb_ℤ l.max_count (count_of u i) ≡ false =
        rw (limit, none_counted) (ground arith) in
      rw (single, fresh, test)
        (
          refl,
          record {
            user = count_up u i;
            known = lookup-insert_self id (count_up u i) rl.users;
            started = unfold count_up in window;
            count = count_of-count_up u i ∙ rw none_counted (add_one 0 (omega arith));
          },
          refl,
        )

  -- With one limit, of a positive interval and a positive count below 2^63: of a new user's first
  -- request and those within one interval of it, the limiter admits as many as there are, up to
  -- `max_count`.
  pub answers-admitted :
      (rl : RateLimiter) (t : Time) (ts : List Time)
      → rl.rate_limits ≡ l ∷ []
      → lookup id rl.users ≡ none
      → pos 0 <ℤ l.interval
      → 0 < k
      → k < half_range
      → All (λ now. leb_ℤ l.interval (sub now t) ≡ false) ts
      → admitted (answers rl id (t ∷ ts)) ≡ min (length ts + 1) k
  unfolding answers admitted
  answers-admitted rl t ts single fresh p some_room small a =
      let (answer, w, single') = first_request rl t single fresh p some_room small in
      let rest = InWindow-answers ts _ t 1 single' w a (omega arith) small in
      rw answer (omega (arith, rest))

  -- With one limit, of a positive interval and a positive count below 2^63, and a user whose window is
  -- used up and ends behind the zero time: `NextActionTime` is the end of the window, and a request
  -- behind its start is admitted exactly when it comes at that time or later.
  pub next_action_time-allow_request :
      (rl : RateLimiter) (t now at : Time)
      → rl.rate_limits ≡ l ∷ []
      → InWindow rl id l.interval t k
      → pos 0 <ℤ l.interval
      → InInt64 l.interval
      → 0 < k
      → k < half_range
      → pos 0 <ℤ add t l.interval
      → t ≤ℤ at
      → (next_action_time rl id now ≡ add t l.interval)
        × ((allow_request rl id at).1 ≡ leb_ℤ (add t l.interval) at)
  unfolding next_action_time next_end allow_request pass_limits
  next_action_time-allow_request rl t now at single w p fits some_room small late after =
      let u = w.user in
      let i = l.interval in
      let full : leb_ℤ l.max_count (count_of u i) ≡ true = rw (limit, w.count) (ground arith) in
      let some_end : is_zero (add t i) ≡ false = ground arith in
      (
        rw (w.known, next_action_time, single, w.started, full, some_end),
        elim (Bool-cases (leb_ℤ (add t i) at)) [
          | inl passed ↦
              let rolled : leb_ℤ i (sub at t) ≡ true = interval_passed t at i fits after ∙ passed in
              let zero = (settled_passed u i at p (λ e. absurd (cc)) (rw w.started rolled)).0 in
              let test : leb_ℤ l.max_count (count_of (settled u i at) i) ≡ false =
                rw (limit, zero) (ground arith) in
              rw (w.known, single, test, passed)
          | inr early ↦
              let open' : leb_ℤ i (sub at t) ≡ false = interval_passed t at i fits after ∙ early in
              rw (w.known, single, settled_open u i at t w.started open', full, early)
        ],
      )
