-- ===== src/TsCache/Partition/Neighbours.antt =====
-- tscache/partition.go: the items beside the place of a timestamp, as `getNearest` finds them.
use d_utils.Base.{
  ℕ, zero, suc, ◌+◌, ◌-◌, ◌≤◌, ◌≡◌, refl, true, false, List, [], ◌∷◌, some, length, get_elem?,
  arith, All, All_get, Bool-cases, ◌⊎◌, inl, inr, ltb, ltb→lt, some_inj,
}
use mathlib.Core.Path.{subst}
use d_utils.Base.Int.{ℤ, pos_part, neg_part, ◌-ℤ◌, ◌≤ℤ◌, ◌<ℤ◌, ltb_ℤ, -ℤ_parts}
use d_utils.Base.Word.{InInt64, sub64_exact}
use d_utils.Base.Search.{rank}
use d_utils.TsCache.Partition.Items.{Item, IsSorted}
use d_utils.TsCache.Partition.{at_least, closer}
use d_utils.TsCache.Partition.Order.{at_least-IsUpward}

-- The distance of two timestamps.
abbrev pub distance : ℤ → ℤ → ℕ
distance a b =
    (pos_part a + neg_part b - (pos_part b + neg_part a))
    + (pos_part b + neg_part a - (pos_part a + neg_part b))

not_ltb : (a b : ℕ) → ltb a b ≡ false → b ≤ a
not_ltb a b h = ground arith

module _ {ℓ} {T : Type ℓ} where
  abbrev pub IsNearest : ℤ → List (Item T) → Item T → Type 0
  IsNearest t xs x = All (λ (y : Item T). distance t x.timestamp ≤ distance t y.timestamp) xs

  pub Beyond : ℤ → Item T → Item T → Type 0
  Beyond t prev y = (y.timestamp ≤ℤ prev.timestamp) ⊎ (t ≤ℤ y.timestamp)

  rank_zero :
      (t : ℤ) (prev : Item T) (xs : List (Item T))
      → IsSorted xs
      → rank (at_least t) xs ≡ 0
      → All (Beyond t prev) xs
  unfolding rank Beyond
  rank_zero t prev [] h r = tt
  rank_zero t prev (x ∷ xs) h r =
      let here : at_least t x ≡ true = ground arith in
      (inr (ground arith), later xs ((at_least-IsUpward t (x ∷ xs) h).0 here))
    where
      later : (ys : List (Item T)) → All (λ y. at_least t y ≡ true) ys → All (Beyond t prev) ys
      later [] a = tt
      later (y ∷ ys) a = (inr (ground (arith, a.0)), later ys a.1)

  abbrev Latest : ℤ → List (Item T) → Item T → Type 0
  Latest t xs prev = (prev.timestamp <ℤ t) × All (Beyond t prev) xs

  abbrev Earliest : ℤ → List (Item T) → Item T → Type 0
  Earliest t xs curr =
      (t ≤ℤ curr.timestamp)
      × All (λ (y : Item T). (y.timestamp <ℤ t) ⊎ (curr.timestamp ≤ℤ y.timestamp)) xs

  -- The item before the place of `t` is the latest of those earlier than `t`.
  pub before_place :
      (t : ℤ) (xs : List (Item T)) (i : ℕ) (prev : Item T)
      → IsSorted xs
      → rank (at_least t) xs ≡ suc i
      → get_elem? xs i ≡ some prev
      → Latest t xs prev
  unfolding rank Beyond
  before_place t [] i prev h r e = absurd (omega arith)
  before_place t (x ∷ xs) zero prev h r e =
      subst (Latest t (x ∷ xs)) (some_inj e)
        (ground arith, (inl (omega arith), rank_zero t x xs h.1 (ground arith)))
  before_place t (x ∷ xs) (suc i) prev h r e =
      let (lt, rest) = before_place t xs i prev h.1 (ground arith) e in
      let below : x.timestamp <ℤ prev.timestamp = All_get _ xs i h.0 e in
      (lt, (inl (omega arith), rest))

  from_place :
      (t : ℤ) (x : Item T) (xs : List (Item T))
      → All (λ (y : Item T). x.timestamp <ℤ y.timestamp) xs
      → All (λ (y : Item T). (y.timestamp <ℤ t) ⊎ (x.timestamp ≤ℤ y.timestamp)) xs
  from_place t x [] a = tt
  from_place t x (y ∷ ys) a = (inr (omega arith), from_place t x ys a.1)

  -- The item at the place of `t` is the earliest of those not earlier than `t`.
  pub after_place :
      (t : ℤ) (xs : List (Item T)) (curr : Item T)
      → IsSorted xs
      → get_elem? xs (rank (at_least t) xs) ≡ some curr
      → Earliest t xs curr
  unfolding rank
  after_place t [] curr h e = absurd (cc)
  after_place t (x ∷ xs) curr h e = elim (Bool-cases (at_least t x)) [
    | inl here ↦
        subst (Earliest t (x ∷ xs)) (some_inj (rw here at e))
          (ground arith, (inr (omega arith), from_place t x xs h.0))
    | inr earlier ↦
        let (le, rest) = after_place t xs curr h.1 (rw earlier at e) in
        (le, (inl (ground arith), rest))
  ]

  -- Both differences that `getNearest` takes fit an `int64`.
  abbrev pub Fits : ℤ → Item T → Type 0
  Fits t y = InInt64 (t -ℤ y.timestamp) × InInt64 (y.timestamp -ℤ t)

  -- Nothing is nearer than the nearer of the two neighbours.
  IsNearest-prev :
      (t : ℤ) (xs : List (Item T)) (prev curr : Item T)
      → prev.timestamp <ℤ t
      → t ≤ℤ curr.timestamp
      → ltb_ℤ (t -ℤ prev.timestamp) (curr.timestamp -ℤ t) ≡ true
      → All (Beyond t prev) xs
      → All (λ (y : Item T). (y.timestamp <ℤ t) ⊎ (curr.timestamp ≤ℤ y.timestamp)) xs
      → IsNearest t xs prev
  unfolding Beyond
  IsNearest-prev t [] prev curr lt le test b e = tt
  IsNearest-prev t (y ∷ ys) prev curr lt le test b e =
      (nearer (ltb→lt _ _ test) b.0 e.0, IsNearest-prev t ys prev curr lt le test b.1 e.1)
    where
      nearer :
          (t -ℤ prev.timestamp) <ℤ (curr.timestamp -ℤ t)
          → Beyond t prev y
          → (y.timestamp <ℤ t) ⊎ (curr.timestamp ≤ℤ y.timestamp)
          → distance t prev.timestamp ≤ distance t y.timestamp
      nearer test' b' e' = omega (arith, -ℤ_parts t prev.timestamp, -ℤ_parts curr.timestamp t)

  IsNearest-curr :
      (t : ℤ) (xs : List (Item T)) (prev curr : Item T)
      → prev.timestamp <ℤ t
      → t ≤ℤ curr.timestamp
      → ltb_ℤ (t -ℤ prev.timestamp) (curr.timestamp -ℤ t) ≡ false
      → All (Beyond t prev) xs
      → All (λ (y : Item T). (y.timestamp <ℤ t) ⊎ (curr.timestamp ≤ℤ y.timestamp)) xs
      → IsNearest t xs curr
  unfolding Beyond
  IsNearest-curr t [] prev curr lt le test b e = tt
  IsNearest-curr t (y ∷ ys) prev curr lt le test b e =
      (nearer (not_ltb _ _ test) b.0 e.0, IsNearest-curr t ys prev curr lt le test b.1 e.1)
    where
      nearer :
          (curr.timestamp -ℤ t) ≤ℤ (t -ℤ prev.timestamp)
          → Beyond t prev y
          → (y.timestamp <ℤ t) ⊎ (curr.timestamp ≤ℤ y.timestamp)
          → distance t curr.timestamp ≤ distance t y.timestamp
      nearer test' b' e' = omega (arith, -ℤ_parts t prev.timestamp, -ℤ_parts curr.timestamp t)

  pub closer_lem :
      (t : ℤ) (xs : List (Item T)) (prev curr : Item T)
      → Fits t prev
      → Fits t curr
      → Latest t xs prev
      → Earliest t xs curr
      → IsNearest t xs (closer t prev curr)
        × ((closer t prev curr ≡ prev) ⊎ (closer t prev curr ≡ curr))
  unfolding closer
  closer_lem t xs prev curr fp fc l e =
      let exact_prev = sub64_exact t prev.timestamp fp.0 in
      let exact_curr = sub64_exact curr.timestamp t fc.1 in
      elim (Bool-cases (ltb_ℤ (t -ℤ prev.timestamp) (curr.timestamp -ℤ t))) [
        | inl test ↦
            rw (exact_prev, exact_curr, test)
              (IsNearest-prev t xs prev curr l.0 e.0 test l.1 e.1, inl refl)
        | inr test ↦
            rw (exact_prev, exact_curr, test)
              (IsNearest-curr t xs prev curr l.0 e.0 test l.1 e.1, inr refl)
      ]

  -- At the ends of the slice there is one neighbour only.
  pub All-earlier :
      (t : ℤ) (xs : List (Item T))
      → rank (at_least t) xs ≡ length xs
      → All (λ (y : Item T). y.timestamp <ℤ t) xs
  unfolding rank
  All-earlier t [] r = tt
  All-earlier t (x ∷ xs) r = (ground arith, All-earlier t xs (ground arith))

  pub All-later :
      (t : ℤ) (xs : List (Item T))
      → IsSorted xs
      → rank (at_least t) xs ≡ 0
      → All (λ (y : Item T). t ≤ℤ y.timestamp) xs
  unfolding rank
  All-later t [] h r = tt
  All-later t (x ∷ xs) h r = (le, later xs h.0)
    where
      le : t ≤ℤ x.timestamp
      le = ground arith

      later :
          (ys : List (Item T))
          → All (λ (y : Item T). x.timestamp <ℤ y.timestamp) ys
          → All (λ (y : Item T). t ≤ℤ y.timestamp) ys
      later [] a = tt
      later (y ∷ ys) a = (omega (arith, le), later ys a.1)

  pub IsNearest-last :
      (t : ℤ) (xs : List (Item T)) (prev : Item T)
      → prev.timestamp <ℤ t
      → All (Beyond t prev) xs
      → All (λ (y : Item T). y.timestamp <ℤ t) xs
      → IsNearest t xs prev
  unfolding Beyond
  IsNearest-last t [] prev lt b a = tt
  IsNearest-last t (y ∷ ys) prev lt b a = (nearer b.0 a.0, IsNearest-last t ys prev lt b.1 a.1)
    where
      nearer :
          Beyond t prev y → y.timestamp <ℤ t → distance t prev.timestamp ≤ distance t y.timestamp
      nearer b' a' = omega arith

  pub IsNearest-first :
      (t : ℤ) (xs : List (Item T)) (curr : Item T)
      → Earliest t xs curr
      → All (λ (y : Item T). t ≤ℤ y.timestamp) xs
      → IsNearest t xs curr
  IsNearest-first t [] curr e a = tt
  IsNearest-first t (y ∷ ys) curr e a =
      (nearer e.0 e.1.0 a.0, IsNearest-first t ys curr (e.0, e.1.1) a.1)
    where
      nearer :
          t ≤ℤ curr.timestamp
          → (y.timestamp <ℤ t) ⊎ (curr.timestamp ≤ℤ y.timestamp)
          → t ≤ℤ y.timestamp
          → distance t curr.timestamp ≤ distance t y.timestamp
      nearer le e' a' = omega arith
