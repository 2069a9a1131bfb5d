-- ===== src/Tests/Device.antt =====
-- rlsys and rltime on concrete answers of the system.
use custom_public_library_rl.Common.{
  ℕ, ℤ, ◌+◌, ◌*◌, ◌/◌, ◌≤◌, ◌≡◌, refl, true, false, some, [], ◌∷◌, ◌++◌, ok, arith, codes, pos,
  negsuc, replicate,
}
use custom_public_library_rl.Sys.{
  CpuUsage, CpuTimes, times, rl_get_cpu_usage, rl_get_cpu_temperature,
}
use custom_public_library_rl.Sys.Cpu.{cpu_usage_lem}
use custom_public_library_rl.Sys.Temperature.{temperature_lem, temperature_unterminated}
use custom_public_library_rl.Time.{rl_update_sys_time}
use custom_public_library_rl.Time.Validate.{update_sys_time_lem}
use custom_public_library_rl.Libc.Scan.{behind}
use custom_public_library_rl.Libc.Search.{Avoids-of}
use custom_public_library_rl.Sys.Resident.{rl_get_memory_usage}
use custom_public_library_rl.Sys.Resident.Status.{memory_usage_lem}
use custom_public_library_rl.Sys.RunTime.{
  Timespec, Doubles, rl_calcuate_run_time_ms, in_ms, run_time_lem,
}
use custom_public_library_rl.Tests.{host}

abbrev fresh : CpuUsage
fresh = record { last_total = 0; last_idle = 0; valid = false }

abbrev early : CpuTimes
early = record { user = 10; nice = 0; system = 10; idle = 70; iowait = 10; irq = 0; softirq = 0 }

abbrev later : CpuTimes
later = record { user = 30; nice = 0; system = 40; idle = 110; iowait = 20; irq = 0; softirq = 0 }

abbrev sampled_once : CpuUsage
sampled_once = record { last_total = 100; last_idle = 80; valid = true }

-- 50 of 100 units were not idle.
cpu_usage_lem_example : ((rl_get_cpu_usage (times later) sampled_once).0 ≡ pos 500) × (500 ≤ 1000)
cpu_usage_lem_example =
    cpu_usage_lem later sampled_once 100 80
      (record { total_lem = refl; idle_lem = refl; sampled = refl }) (omega arith) (omega arith)
      (omega arith) (omega arith)

temperature_lem_example :
    rl_get_cpu_temperature (some (codes "45123" ++ b'\n' ∷ [])) (replicate 16 b'9') ≡ ok (pos 45123)
temperature_lem_example =
    temperature_lem (codes "45123") [] (replicate 16 b'9') refl (omega arith) (omega arith) refl

temperature_unterminated_example :
    rl_get_cpu_temperature (some (codes "45")) (b'7' ∷ b'7' ∷ b'7' ∷ 0 ∷ replicate 12 b'9')
    ≡ ok (pos 457)
temperature_unterminated_example =
    temperature_unterminated (codes "45") (codes "7") (replicate 12 b'9')
      (b'7' ∷ b'7' ∷ b'7' ∷ 0 ∷ replicate 12 b'9') (λ e. cc) (omega arith) (omega arith) refl refl
      (omega arith) (omega arith)

-- 29 February exists in 2024 and not in 2023.
update_sys_time_lem_example : rl_update_sys_time (λ line. true) 2023 2 29 10 30 0 ≡ (negsuc 0, [])
update_sys_time_lem_example = update_sys_time_lem (λ line. true) 2023 2 29 10 30 0

-- Part of /proc/self/status.
memory_usage_lem_example :
    rl_get_memory_usage (some (codes "Name:\tapp\nVmRSS:\t 1536 kB\nThreads:\t1\n")) ≡ ok (pos 1536)
unfolding behind
memory_usage_lem_example =
    memory_usage_lem (codes "Name:\tapp" ∷ []) (codes "Threads:\t1" ∷ []) (codes "\t ")
      (codes "1536") (((Avoids-of b'\n' (codes "Name:\tapp") refl, omega arith), refl), tt)
      (Avoids-of b'\n' (codes "VmRSS:\t 1536 kB") refl, omega arith)
      ((refl, (refl, tt)), (λ e. cc), refl, omega arith)
      ((Avoids-of b'\n' (codes "Threads:\t1") refl, omega arith), tt)

abbrev magnitude : ℤ → ℕ
magnitude (pos n) = n
magnitude (negsuc n) = 0

-- Whole milliseconds in place of `double`.
abbrev whole_ms : Doubles ℤ
whole_ms = record {
  of_int = λ z. z;
  thousand = pos 1000;
  million = pos 1000000;
  times = λ a b. pos (magnitude a * magnitude b);
  over = λ a b. pos (magnitude a / magnitude b);
  plus = λ a b. pos (magnitude a + magnitude b);
}

abbrev began : Timespec
began = record { tv_sec = 41; tv_nsec = 900000000 }

abbrev ended : Timespec
ended = record { tv_sec = 43; tv_nsec = 150000000 }

run_time_lem_example :
    rl_calcuate_run_time_ms whole_ms began ended ≡ in_ms whole_ms (pos 1, pos 250000000)
run_time_lem_example =
    run_time_lem whole_ms began ended 1250000000 (omega arith) (omega arith) (omega arith)
