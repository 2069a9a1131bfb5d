-- ===== src/Sys/Cpu.antt =====
-- `rl_get_cpu_usage`: the share of the time between two samples that was not idle.
use custom_public_library_rl.Common.{
  ℕ, ◌+◌, ◌-◌, ◌*◌, ◌/◌, ◌≤◌, ◌<◌, ◌%◌, ◌^◌, ◌≡◌, refl, true, arith, ne→==, ◌==◌, Bool-cases, inl,
  inr, pos, Public,
}
use custom_public_library_rl.Libc.{to_int}
use custom_public_library_rl.Sys.{
  CpuUsage, CpuTimes, times, u64_mod, curr_idle, curr_total, sub_u64, mul_u64, rl_get_cpu_usage,
}

-- The sums that the counters stand for, with no bound.
abbrev pub idle_time : CpuTimes → ℕ
idle_time t = t.idle + t.iowait

abbrev pub total_time : CpuTimes → ℕ
total_time t = t.user + t.nice + t.system + idle_time t + t.irq + t.softirq

-- The tracker holds an earlier sample whose true sums were `total` and `idle`.
pub record Tracks (tracker : CpuUsage) (total idle : ℕ) : Type 0 where
  pub total_lem : tracker.last_total ≡ total % u64_mod
  pub idle_lem : tracker.last_idle ≡ idle % u64_mod
  pub sampled : tracker.valid ≡ true

curr_total_lem : (t : CpuTimes) → curr_total t ≡ total_time t % u64_mod
curr_total_lem t = omega arith

curr_idle_lem : (t : CpuTimes) → curr_idle t ≡ idle_time t % u64_mod
curr_idle_lem t = omega arith

-- A difference of counters modulo 2^64 is the true difference, wrapped around or not.
sub_u64_lem : (a b : ℕ) → b ≤ a → a - b < u64_mod → sub_u64 (a % u64_mod) (b % u64_mod) ≡ a - b
sub_u64_lem a b h small = omega arith

per_mille : (busy total : ℕ) → 0 < total → busy ≤ total → busy * 1000 / total ≤ 1000
per_mille busy total h le = grind arith

module _ ⦃public : Public⦄ where
  tracker_after :
      (t : CpuTimes) (tracker : CpuUsage)
      → (rl_get_cpu_usage (times t) tracker).1
        ≡ record { last_total = curr_total t; last_idle = curr_idle t; valid = true }
  unfolding rl_get_cpu_usage
  tracker_after t tracker = elim (Bool-cases tracker.valid) [
    | inl e ↦ rw e (elim (Bool-cases (sub_u64 (curr_total t) tracker.last_total == 0)) [
      | inl z ↦ rw z
      | inr z ↦ rw z
    ])
    | inr e ↦ rw e
  ]

  -- After a sample that was read, the tracker is valid and holds the sample's own sums modulo
  -- 2^64, whatever it held before.
  cpu_usage-Tracks :
      (t : CpuTimes) (tracker : CpuUsage)
      → Tracks (rl_get_cpu_usage (times t) tracker).1 (total_time t) (idle_time t)
  cpu_usage-Tracks t tracker =
      rw tracker_after
        (record { total_lem = curr_total_lem t; idle_lem = curr_idle_lem t; sampled = refl })

  -- Let the tracker hold the sums of an earlier sample modulo 2^64. Where no sum has fallen since,
  -- the total has grown, the idle time has grown by at most as much, and a thousand times the
  -- growth of the total is below 2^64, the result is the busy share of that growth in thousandths,
  -- rounded down, and at most 1000, whether or not the counters have wrapped around.
  pub cpu_usage_lem :
      (t : CpuTimes) (tracker : CpuUsage) (total idle : ℕ)
      → Tracks tracker total idle
      → idle ≤ idle_time t
      → total < total_time t
      → idle_time t - idle ≤ total_time t - total
      → (total_time t - total) * 1000 < u64_mod
      → let total_diff = total_time t - total in
        let busy = total_diff - (idle_time t - idle) in
        ((rl_get_cpu_usage (times t) tracker).0 ≡ pos (busy * 1000 / total_diff))
        × (busy * 1000 / total_diff ≤ 1000)
  unfolding rl_get_cpu_usage
  cpu_usage_lem t tracker total idle tr hi ht le small =
      let total_diff = total_time t - total in
      let idle_diff = idle_time t - idle in
      let busy = total_diff - idle_diff in
      let d : sub_u64 (curr_total t) tracker.last_total ≡ total_diff =
        rw (curr_total_lem t, tr.total_lem)
          (sub_u64_lem (total_time t) total (omega arith) (omega arith)) in
      let i : sub_u64 (curr_idle t) tracker.last_idle ≡ idle_diff =
        rw (curr_idle_lem t, tr.idle_lem) (sub_u64_lem (idle_time t) idle hi (omega arith)) in
      let b : sub_u64 total_diff idle_diff ≡ busy = omega arith in
      let m : mul_u64 busy 1000 ≡ busy * 1000 = omega arith in
      let bound = per_mille busy total_diff (omega arith) (omega arith) in
      let cast : to_int (busy * 1000 / total_diff % 2 ^ 32) ≡ pos (busy * 1000 / total_diff) =
        ground (arith, bound) in
      (rw (tr.sampled, d, ne→== total_diff 0 (omega arith), i, b, m, cast), bound)
