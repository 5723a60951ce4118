-- ===== src/TsCache/Restart/Maintenance.antt =====
-- tscache/cache.go: the intervals of the tickers of `maintenance`.
use mathlib.Core.Path.{subst}
use d_utils.Base.{ℕ, zero, suc, ◌<◌, ◌≡◌, ◌*◌, Bool-cases, inl, inr, none, if◌then◌else◌, arith}
use d_utils.Base.Int.{ℤ, pos, negsuc, eqb_ℤ, ltb_ℤ, ◌<ℤ◌}
use d_utils.Base.GoTime.{second}
use d_utils.TsCache.Config.{Config, validate, repair_config}

-- The defaults that `maintenance` writes into the configuration.
unfoldable pub maintenance_config : Config → Config
maintenance_config c = record c {
  cleanup_interval =
      if eqb_ℤ c.cleanup_interval (pos 0) then pos (30 * second) else c.cleanup_interval;
  flush_interval = if eqb_ℤ c.flush_interval (pos 0) then pos (60 * second) else c.flush_interval;
}

accepted_repair : (before c : Config) → validate before ≡ (c, none) → repair_config before ≡ c
unfolding validate
accepted_repair before c e = elim (Bool-cases (ltb_ℤ before.partition_duration (pos 0))) [
  | inl negative ↦ absurd (cc (rw (validate, negative) at e))
  | inr fine ↦ elim (Bool-cases (ltb_ℤ before.max_partitions (pos 0))) [
    | inl negative ↦ absurd (cc (rw (validate, fine, negative) at e))
    | inr both ↦ cc (rw (validate, fine, both) at e)
  ]
]

interval :
    (x : ℤ) (n k : ℕ)
    → 0 < n
    → 0 < k
    → pos 0 <ℤ (
        if eqb_ℤ (if ltb_ℤ x (pos 0) then pos n else x) (pos 0)
        then pos k
        else (if ltb_ℤ x (pos 0) then pos n else x))
interval (pos zero) n k hn hk = ground arith
interval (pos (suc m)) n k hn hk = ground arith
interval (negsuc m) n k hn hk = ground arith

-- `time.NewTicker`, which panics where the interval is not positive, is called with positive intervals
-- for every configuration that `Validate` accepts.
pub validate-maintenance_config :
    (before c : Config)
    → validate before ≡ (c, none)
    → (pos 0 <ℤ (maintenance_config c).cleanup_interval)
      × (pos 0 <ℤ (maintenance_config c).flush_interval)
unfolding maintenance_config repair_config
validate-maintenance_config before c e =
    subst
      (λ (r : Config).
        (pos 0 <ℤ (maintenance_config r).cleanup_interval)
        × (pos 0 <ℤ (maintenance_config r).flush_interval))
      (accepted_repair before c e)
      (
        interval before.cleanup_interval _ _ (omega arith) (omega arith),
        interval before.flush_interval _ _ (omega arith) (omega arith),
      )
