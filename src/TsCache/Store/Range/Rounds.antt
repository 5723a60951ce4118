-- ===== src/TsCache/Store/Range/Rounds.antt =====
-- tscache/cache.go: the rounds of the loop of `GetRange`.
use d_utils.Base.{
  ℕ, zero, suc, ◌+◌, ◌*◌, ◌/◌, ◌≤◌, ◌<◌, ◌≡◌, refl, sym, true, false, ◌&&◌, List, [], ◌++◌, Option,
  none, some, filter_by, arith, Option-cases, inl, inr,
}
use mathlib.Core.Path.{subst}
use native.Mathlib.Nat.{div-mul-le_self, lt-div-mul-add}
use d_utils.Base.Int.{
  ℤ, int_key, pos, pos_part, leb_ℤ, ◌-ℤ◌, ◌+ℤ◌, ◌≤ℤ◌, ◌<ℤ◌, +ℤ_parts, -ℤ_parts, sign_parts,
}
use d_utils.Base.Word.{InInt64, add64, add64_exact, wrap64-InInt64}
use d_utils.Base.GoTime.{Time, Duration, unix_nano}
use d_utils.Base.Dict.{lookup}
use d_utils.Base.Outcome.{returns}
use d_utils.TsCache.Partition.{Partition}
use d_utils.TsCache.Partition.Items.{Item, is_live}
use d_utils.TsCache.Partition.Ranges.{in_range, get_range-filter_by}
use d_utils.TsCache.Store.{Store, partition_start}
use d_utils.TsCache.Store.Writes.{IsValid}
use d_utils.TsCache.Store.Range.{gather, get_range, ordered}

-- `rounds` steps lead from `at` past `last`, and the last but one does not.
abbrev pub Covers : Duration → ℤ → ℕ → ℤ → Type 0
Covers size last zero at = last <ℤ at
Covers size last (suc rounds) at = (at ≤ℤ last) × Covers size last rounds (at +ℤ size)

pos_of_positive : (a : ℤ) → pos 0 <ℤ a → a ≡ pos (pos_part a)
pos_of_positive a h = ground arith

Covers-of_quotient :
    (q d : ℕ) (at last : ℤ)
    → at +ℤ pos (q * d) ≤ℤ last
    → last <ℤ at +ℤ pos (q * d + d)
    → Covers (pos d) last (suc q) at
Covers-of_quotient zero d at last low high = (
  omega (arith, +ℤ_parts at (pos (0 * d))),
  omega (arith, +ℤ_parts at (pos (0 * d + d)), +ℤ_parts at (pos d)),
)
Covers-of_quotient (suc q) d at last low high = (
  omega (arith, +ℤ_parts at (pos (suc q * d))),
  Covers-of_quotient q d (at +ℤ pos d) last
      (omega (
        arith,
        +ℤ_parts at (pos (suc q * d)),
        +ℤ_parts at (pos d),
        +ℤ_parts (at +ℤ pos d) (pos (q * d)),
      ))
      (omega (
        arith,
        +ℤ_parts at (pos (suc q * d + d)),
        +ℤ_parts at (pos d),
        +ℤ_parts (at +ℤ pos d) (pos (q * d + d)),
      )),
)

pub Covers-between :
    (size : Duration) (from to : ℤ)
    → pos 0 <ℤ size
    → from ≤ℤ to
    → Covers size to (suc (pos_part (to -ℤ from) / pos_part size)) from
Covers-between size from to positive ends =
    let d = pos_part size in
    let q = pos_part (to -ℤ from) / d in
    let some_size : 0 < d = omega (arith, positive) in
    let low : q * d ≤ pos_part (to -ℤ from) = div-mul-le_self _ _ in
    let high : pos_part (to -ℤ from) < q * d + d = lt-div-mul-add some_size in
    subst (λ z. Covers z to (suc q) from) (sym (pos_of_positive size positive))
      (Covers-of_quotient q d from to
        (omega (
          arith,
          low,
          ends,
          -ℤ_parts to from,
          sign_parts (to -ℤ from),
          +ℤ_parts from (pos (q * d)),
        ))
        (omega (
          arith,
          high,
          ends,
          -ℤ_parts to from,
          sign_parts (to -ℤ from),
          +ℤ_parts from (pos (q * d + d)),
        )))

module _ {ℓ} {T : Type ℓ} where
  -- The items of one partition that are in the range and have not expired.
  abbrev pub segment : ℤ → ℤ → ℤ → Option (Partition T) → List (Item T)
  segment now start end none = []
  segment now start end (some p) = filter_by (λ x. in_range start end x && is_live now x) p.items

  -- Those of the partitions at `rounds` places, one partition size apart.
  unfoldable pub segments : ℕ → Store T → (ℤ → ℤ) → ℤ → ℤ → ℤ → List (Item T)
  segments zero c now at start end = []
  segments (suc rounds) c now at start end =
      segment (now at) start end (lookup at c.partitions)
      ++ segments rounds c now (at +ℤ c.partition_size) start end

  gather-Covers :
      (n rounds : ℕ) (c : Store T) (now : ℤ → ℤ) (at last start end : ℤ)
      → IsValid c
      → start ≤ℤ end
      → pos 0 <ℤ c.partition_size
      → InInt64 at
      → InInt64 (last +ℤ c.partition_size)
      → Covers c.partition_size last rounds at
      → rounds < n
      → gather n c now at last start end ≡ some (returns (segments rounds c now at start end))
  unfolding gather segments
  gather-Covers zero rounds c now at last start end v o p fits far h more = absurd (omega arith)
  gather-Covers (suc n) zero c now at last start end v o p fits far h more =
      let past : leb_ℤ at last ≡ false = ground arith in rw past refl
  gather-Covers (suc n) (suc rounds) c now at last start end v o p fits far h more =
      let within : leb_ℤ at last ≡ true = ground (arith, h.0) in
      let next_fits : InInt64 (at +ℤ c.partition_size) = omega (
        arith,
        h.0,
        +ℤ_parts at c.partition_size,
        +ℤ_parts last c.partition_size,
        sign_parts (at +ℤ c.partition_size),
      ) in
      let next : add64 at c.partition_size ≡ at +ℤ c.partition_size =
        add64_exact at c.partition_size next_fits in
      let ih =
        gather-Covers n rounds c now (at +ℤ c.partition_size) last start end v o p next_fits far h.1
          (omega arith) in
      elim (Option-cases (lookup at c.partitions)) [
        | inl absent ↦ rw (within, absent, next, ih) refl
        | inr (q, present) ↦
            rw
              (
                within,
                present,
                next,
                ih,
                get_range-filter_by (now at) q start end (v at q present) o,
              )
              refl
      ]

  -- `GetRange` on a valid cache with a positive partition size, between two times whose conversions to
  -- nanoseconds keep their order: the loop ends, nothing panics, and the result is the items that are in
  -- the range and have not expired, of the partitions from that of the first time to that of the last,
  -- in their order. The partition behind the last one starts within `int64`.
  pub get_range-segments :
      (c : Store T) (start end : Time) (now : ℤ → ℤ)
      → IsValid c
      → pos 0 <ℤ c.partition_size
      → let times = ordered start end in
        let from = partition_start c times.0 in
        let to = partition_start c times.1 in
        unix_nano times.0 ≤ℤ unix_nano times.1
        → from ≤ℤ to
        → InInt64 (to +ℤ c.partition_size)
        → get_range c start end now
          ≡ some (
              returns (
                segments
                  (suc (pos_part (to -ℤ from) / pos_part c.partition_size))
                  c
                  now
                  from
                  (unix_nano times.0)
                  (unix_nano times.1)))
  unfolding get_range
  get_range-segments c start end now v size o ends far =
      let times = ordered start end in
      let from = partition_start c times.0 in
      let to = partition_start c times.1 in
      let q = pos_part (to -ℤ from) / pos_part c.partition_size in
      gather-Covers (q + 2) (suc q) c now from to (unix_nano times.0) (unix_nano times.1) v o size
        (unfold unix_nano in wrap64-InInt64 _) far
        (Covers-between c.partition_size from to size ends) (omega arith)
