-- ===== src/Sys.antt =====
-- rlsys/src/rlsys.c: queries of the operating system. What a system call answers is an argument of
-- the function that makes the call; a local array comes in as the bytes that it holds at first.
pub mod Cpu
pub mod Temperature
pub mod Resident
pub mod RunTime
use custom_public_library_rl.Common.{
  ℕ, ◌+◌, ◌-◌, ◌*◌, ◌/◌, ◌%◌, ◌^◌, Bool, true, false, ◌||◌, Option, none, some, List, [], ◌∷◌, ◌++◌,
  Run, ok, ◌>>=◌, ◌==◌, if◌then◌else◌, ℤ, pos, ◌==ℤ◌, Public, take, length, replicate,
}
use custom_public_library_rl.Libc.{
  Bytes, Ptr, is_null, deref, write, prefix, strlen, snprintf, strcspn, fgets, to_int,
}
use custom_public_library_rl.Str.{rl_str_rm_line, rl_str_isdigit, rl_str_atoi}

abbrev pub u64_mod : ℕ
u64_mod = 2 ^ 64

-- `unsigned long long` addition and subtraction
abbrev pub add_u64 : ℕ → ℕ → ℕ
add_u64 a b = (a + b) % u64_mod

abbrev pub sub_u64 : ℕ → ℕ → ℕ
sub_u64 a b = (a + u64_mod - b) % u64_mod

abbrev pub mul_u64 : ℕ → ℕ → ℕ
mul_u64 a b = (a * b) % u64_mod

-- `cpu_usage_t`
pub record CpuUsage : Type 0 where
  pub last_total : ℕ
  pub last_idle : ℕ
  pub valid : Bool

-- The seven numbers that `sscanf` stores from the first line of /proc/stat.
pub record CpuTimes : Type 0 where
  pub user : ℕ
  pub nice : ℕ
  pub system : ℕ
  pub idle : ℕ
  pub iowait : ℕ
  pub irq : ℕ
  pub softirq : ℕ

-- How the three calls on the file end.
pub data CpuRead : Type 0 where
  open_failed gets_failed close_failed : CpuRead
  times : CpuTimes → CpuRead

abbrev pub curr_idle : CpuTimes → ℕ
curr_idle t = add_u64 t.idle t.iowait

abbrev pub curr_total : CpuTimes → ℕ
curr_total t =
    add_u64 (add_u64 (add_u64 (add_u64 (add_u64 t.user t.nice) t.system) (curr_idle t)) t.irq)
      t.softirq

-- A directory entry is its name. `readdir` gives them in turn; `closed` is whether `closedir`
-- succeeds.
count_visible : List Bytes → ℕ → ℕ
count_visible [] count = count
count_visible ([] ∷ entries) count = count_visible entries (count + 1)
count_visible ((c ∷ name) ∷ entries) count =
    count_visible entries (if c == b'.' then count else count + 1)

-- What `readlink` on /proc/self/exe copies into a buffer of `size` bytes: at most `size` bytes of
-- the target and no terminator. It fails at size 0, and where there is no target.
unfoldable pub readlink : Option Bytes → ℕ → Option Bytes
readlink none size = none
readlink (some target) size = if size == 0 then none else some (take size target)

module _ ⦃public : Public⦄ where
  open public use {rl_true, rl_success, rl_failed}

  -- The pair is the return value and what `tracker` points to afterwards.
  pub rl_get_cpu_usage : CpuRead → CpuUsage → ℤ × CpuUsage
  rl_get_cpu_usage open_failed tracker = (rl_failed, tracker)
  rl_get_cpu_usage gets_failed tracker = (rl_failed, tracker)
  rl_get_cpu_usage close_failed tracker = (rl_failed, tracker)
  rl_get_cpu_usage (times t) tracker =
      let total_diff = sub_u64 (curr_total t) tracker.last_total in
      let idle_diff = sub_u64 (curr_idle t) tracker.last_idle in
      let tracker' : CpuUsage = record {
        last_total = curr_total t;
        last_idle = curr_idle t;
        valid = true;
      } in
      if tracker.valid
      then if total_diff == 0
        then (pos 0, tracker')
        else (to_int (mul_u64 (sub_u64 total_diff idle_diff) 1000 / total_diff % 2 ^ 32), tracker')
      else (pos 0, tracker')

  -- `content` is what the file holds, `none` if it does not open; an empty read fails.
  pub rl_get_cpu_temperature : Option Bytes → Bytes → Run ℤ
  rl_get_cpu_temperature none buf = ok rl_failed
  rl_get_cpu_temperature (some []) buf = ok rl_failed
  rl_get_cpu_temperature (some (c ∷ content)) buf = do
    buf ← write buf 0 (take 15 (c ∷ content))
    (code, line) ← rl_str_rm_line (some buf)
    digits ← rl_str_isdigit line
    if digits ==ℤ rl_true then rl_str_atoi line else ok rl_failed

  pub rl_get_proc_path : Option Bytes → Ptr → ℕ → Run (ℤ × Ptr)
  rl_get_proc_path exe buf len = if is_null buf || len == 0 then ok (rl_failed, buf) else do
    b ← deref buf
    elim (readlink exe (len - 1)) [
      | some bytes ↦ do
        b ← write b 0 bytes
        b ← write b (length bytes) (0 ∷ [])
        ok (rl_success, some b)
      | none ↦ do b ← write b 0 (0 ∷ []); ok (rl_failed, some b)
    ]

  -- `entries` is what `readdir` gives, `none` if `opendir` fails.
  pub rl_get_fd_count : Option (List Bytes) → Bool → ℤ
  unfolding count_visible
  rl_get_fd_count none closed = rl_failed
  rl_get_fd_count (some entries) closed =
      if closed then to_int (count_visible entries 0 % 2 ^ 32) else rl_failed

  -- `comm` is the content of /proc/self/comm, `none` if it does not open.
  unfoldable pub rl_get_proc_name : Option Bytes → Ptr → ℕ → Run (ℤ × Ptr)
  rl_get_proc_name comm name len =
      if is_null name || len == 0 then ok (rl_failed, name) else elim comm [
        | none ↦ ok (rl_failed, name)
        | some stream ↦ do
          b ← deref name
          got ← fgets b len stream
          elim got [
            | none ↦ ok (rl_failed, some b)
            | some (b, rest) ↦ do
              n ← strcspn b b'\n'
              b ← write b n (0 ∷ [])
              ok (rl_success, some b)
          ]
      ]

  -- `dirname` is a function of <libgen.h>; `temp_buf` is the array `char temp_buf[len]`.
  module _ (dirname : Bytes → Bytes) (exe : Option Bytes) where
    unfoldable pub rl_get_proc_dir : Ptr → ℕ → Bytes → Run (ℤ × Ptr)
    rl_get_proc_dir buf len temp_buf = if is_null buf || len == 0 then ok (rl_failed, buf) else do
      b ← deref buf
      elim (readlink exe (len - 1)) [
        | none ↦ do b ← write b 0 (0 ∷ []); ok (rl_failed, some b)
        | some bytes ↦ do
          temp ← write temp_buf 0 bytes
          temp ← write temp (length bytes) (0 ∷ [])
          n ← strlen temp
          path ← prefix n temp
          b ← snprintf b len (dirname path)
          ok (rl_success, some b)
      ]

    -- `stack` is the array `temp_buf` of `rl_get_proc_dir`, that of this function is cleared.
    unfoldable pub rl_get_file_abs_path : Ptr → ℕ → Ptr → Bytes → Run (ℤ × Ptr)
    rl_get_file_abs_path buf len none stack = do
      b ← deref buf
      b ← write b 0 (0 ∷ [])
      ok (rl_failed, some b)
    rl_get_file_abs_path buf len (some file_path) stack = do
      (code, dir) ← rl_get_proc_dir (some (replicate 512 0)) 512 stack
      b ← deref buf
      if code ==ℤ rl_failed then (do b ← write b 0 (0 ∷ []); ok (rl_failed, some b)) else do
        d ← deref dir
        n ← strlen d
        dir_text ← prefix n d
        m ← strlen file_path
        file_text ← prefix m file_path
        b ← snprintf b len (dir_text ++ b'/' ∷ file_text)
        ok (rl_success, some b)
