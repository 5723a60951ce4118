-- ===== src/TsCache/Store/SetGet.antt =====
-- tscache/cache.go: `Set`, and `GetExact` after it.
use d_utils.Base.{
  ◌≡◌, refl, sym, ◌∙◌, Bool, true, false, ◌||◌, Option, none, some, if◌then◌else◌, arith,
  Bool-cases, inl, inr, ◌==◌, some_inj,
}
use mathlib.Core.Path.{ap, subst}
use d_utils.Base.Int.{ℤ, int_key, pos, eqb_ℤ, eqb_ℤ_iff, leb_ℤ, ltb_ℤ}
use d_utils.Base.GoTime.{Time, Duration, add, unix_nano}
use d_utils.Base.Dict.{lookup, insert, lookup-insert}
use d_utils.Base.Outcome.{returns}
use d_utils.TsCache.Partition.{Partition}
use d_utils.TsCache.Partition.Items.{Item, is_live}
use d_utils.TsCache.Partition.Order.{find}
use d_utils.TsCache.Partition.Valid.{insert_item_lem}
use d_utils.TsCache.Partition.Valid
use d_utils.TsCache.Store.{
  Store, partition_start, get_partition, save, write, expiration_of, set, get_exact,
}
use d_utils.TsCache.Store.Writes.{
  IsValid, Loads, get_partition-IsValid, get_partition-lookup, get_partition-size,
  get_partition-same, answer, seen, answer-get_exact, answer_untouched, answer_written,
}

-- Whether a value that is stored at `now` with a TTL is still there at `at`: always without a positive
-- TTL, and otherwise until the TTL has passed. An item whose time to expire is the Unix epoch itself
-- never expires.
pub lives : Option Duration → Time → ℤ → Bool
lives none now at = true
lives (some ttl) now at =
    leb_ℤ ttl (pos 0)
    || eqb_ℤ (unix_nano (add now ttl)) (pos 0)
    || leb_ℤ at (unix_nano (add now ttl))

module _ {ℓ} {T : Type ℓ} where
  abbrev pub item_of : Time → T → Option Duration → Time → Item T
  item_of t v ttl now = record {
    value = v;
    timestamp = unix_nano t;
    expiration = expiration_of ttl now;
  }

  seen-lives :
      (t : Time) (v : T) (ttl : Option Duration) (now : Time) (at : ℤ)
      → seen at (some (item_of t v ttl now)) ≡ (if lives ttl now at then some v else none)
  unfolding lives is_live
  seen-lives t v none now at = refl
  seen-lives t v (some ttl) now at = elim (Bool-cases (ltb_ℤ (pos 0) ttl)) [
    | inl some_time ↦
        let positive : leb_ℤ ttl (pos 0) ≡ false = ground (arith, some_time) in
        rw (some_time, positive) refl
    | inr no_time ↦
        let not_positive : leb_ℤ ttl (pos 0) ≡ true = ground (arith, no_time) in
        rw (no_time, not_positive) refl
  ]

  pub flushed :
      {E : Type ℓ} (b : Bool) (w : Store T) (q : Partition T) (saved : Option E)
      → let r : Store T × Option E = if b then (save w q, saved) else (w, none) in
        let d = r.0 in (d.partitions ≡ w.partitions) × (d.partition_size ≡ w.partition_size)
  flushed true w q saved = (refl, refl)
  flushed false w q saved = (refl, refl)

  -- The lookups behind the write of `Set`.
  pub written-lookup :
      (c : Store T) (t : Time) (loaded : Option (Partition T)) (q : Partition T) (s : ℤ)
      → lookup s (insert (partition_start c t) q (get_partition c t loaded).0.partitions)
        ≡ (if partition_start c t == s then some q else lookup s c.partitions)
  written-lookup c t loaded q s = ground (
    arith,
    lookup-insert (partition_start c t) s q (get_partition c t loaded).0.partitions,
    get_partition-lookup c t loaded s,
  )

  IsValid-after :
      (s S : ℤ) (p q : Partition T) (c : Store T)
      → IsValid c
      → Valid.IsValid q
      → (if S == s then some q else lookup s c.partitions) ≡ some p
      → Valid.IsValid p
  IsValid-after s S p q c v vq e = elim (Bool-cases (S == s)) [
    | inl same ↦ subst Valid.IsValid (some_inj (rw same at e)) vq
    | inr other ↦ v s p (rw other at e)
  ]

  -- `Set` on a valid cache, with a valid partition or none loaded from the files, never panics and
  -- keeps the cache valid; a valid partition has an index map, which that of an empty file has not. A
  -- `GetExact` behind it returns the new value for a time of the same nanosecond in the partition until
  -- the TTL, if there is a positive one, has passed, and nothing after that, where an end of the TTL at
  -- the Unix epoch counts as no end; for any other time it returns what it returned before.
  pub set-get_exact :
      {E : Type ℓ} (c : Store T) (t : Time) (v : T) (ttl : Option Duration) (now : Time)
      (loaded : Option (Partition T)) (saved : Option E)
      → IsValid c
      → Loads loaded
      → (d : Store T) × (e : Option E) × (set c t v ttl now loaded saved ≡ returns (d, e))
        × IsValid d
        × ((u : Time) (at : ℤ) (l : Option (Partition T))
            → Loads l
            → answer (get_exact d u at l) ≡ (
                if partition_start c t == partition_start c u
                then (if eqb_ℤ (unix_nano t) (unix_nano u)
                    then returns (if lives ttl now at then some v else none)
                    else answer (get_exact c u at loaded))
                else answer (get_exact c u at l)))
  set-get_exact {E = E} c t v ttl now loaded saved valid loads =
      let p = (get_partition c t loaded).1 in
      let (q, e, vq, finds) =
        insert_item_lem p (item_of t v ttl now) (get_partition-IsValid c t loaded valid loads) in
      let w = write (get_partition c t loaded).0 (partition_start c t) q in
      let r : Store T × Option E = if c.flush_immediately then (save w q, saved) else (w, none) in
      let (parts, size') = flushed c.flush_immediately w q saved in
      let size : r.0.partition_size ≡ c.partition_size = size' ∙ get_partition-size c t loaded in
      let at_key : (s : ℤ)
          → lookup s r.0.partitions
            ≡ (if partition_start c t == s then some q else lookup s c.partitions) =
        λ s. ap (λ m. lookup s m) parts ∙ written-lookup c t loaded q s in
      (
        r.0,
        r.1,
        unfold set in rw e refl,
        λ s x h. IsValid-after s (partition_start c t) x q c valid vq (sym (at_key s) ∙ h),
        λ u at l loads'. reads_after u at l loads' q vq r.0 size at_key finds,
      )
    where
      reads_after :
          (u : Time) (at : ℤ) (l : Option (Partition T))
          → Loads l
          → (q : Partition T) → Valid.IsValid q
          → (d : Store T) → d.partition_size ≡ c.partition_size
          → ((s : ℤ)
              → lookup s d.partitions
                ≡ (if partition_start c t == s then some q else lookup s c.partitions))
          → ((s : ℤ)
              → find s q.items ≡ (
                  if eqb_ℤ (unix_nano t) s
                  then some (item_of t v ttl now)
                  else find s (get_partition c t loaded).1.items))
          → answer (get_exact d u at l) ≡ (
              if partition_start c t == partition_start c u
              then (if eqb_ℤ (unix_nano t) (unix_nano u)
                  then returns (if lives ttl now at then some v else none)
                  else answer (get_exact c u at loaded))
              else answer (get_exact c u at l))
      reads_after u at l loads' q vq d size at_key finds =
          elim (Bool-cases (partition_start c t == partition_start c u)) [
            | inl same ↦
                let start : partition_start c u ≡ partition_start c t =
                  sym ((eqb_ℤ_iff (partition_start c t) (partition_start c u)).0 same) in
                let now_q =
                  answer_written c d u at l q size (at_key (partition_start c u) ∙ rw same refl)
                    vq in
                let was =
                  answer-get_exact c u at loaded (get_partition-IsValid c u loaded valid loads)
                  ∙ ap (λ p. returns (seen at (find (unix_nano u) p.items)))
                      (get_partition-same c t u loaded start) in
                elim (Bool-cases (eqb_ℤ (unix_nano t) (unix_nano u))) [
                  | inl hit ↦
                      rw (same, hit)
                        (now_q
                          ∙ ap (λ o. returns (seen at o)) (rw hit at (finds (unix_nano u)))
                          ∙ ap returns (seen-lives t v ttl now at))
                  | inr miss ↦
                      rw (same, miss)
                        (now_q
                          ∙ ap (λ o. returns (seen at o)) (rw miss at (finds (unix_nano u)))
                          ∙ sym was)
                ]
            | inr other ↦ rw other (
                answer_untouched c d u at l size (at_key (partition_start c u) ∙ rw other refl)
                  valid loads')
          ]
