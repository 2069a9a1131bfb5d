-- ===== src/Mem/Target.antt =====
-- The file that `rl_memory_trace_deinit` writes its report to: the part of rlmem/src/rlmem.c before
-- the lock is taken, with the answers of the system as one record.
use custom_public_library_rl.Common.{
  ℕ, ◌-◌, Bool, Option, none, some, [], ◌∷◌, ◌++◌, Run, ok, ◌>>=◌, ◌or_else◌, ltb, if◌then◌else◌,
  ◌==ℤ◌, Public, take, replicate, codes,
}
use custom_public_library_rl.Libc.{Bytes, Ptr, deref, prefix, suffix, strlen, snprintf}
use custom_public_library_rl.Str.{rl_str_isempty}
use custom_public_library_rl.Sys.{rl_get_file_abs_path, rl_get_proc_name}
use custom_public_library_rl.Time.{Tm, rl_get_time}

-- What the system answers. `temp_buf` is the array of `rl_get_proc_dir`, `time` is the local
-- variable of that name, and `opens` tells which files open for writing.
pub record System : Type 0 where
  pub dirname : Bytes → Bytes
  pub exe : Option Bytes
  pub temp_buf : Bytes
  pub comm : Option Bytes
  pub clock : Option ℕ
  pub localtime : ℕ → Option Tm
  pub time : Tm
  pub opens : Bytes → Bool

-- RL_MEM_TRACE_LOG_FILE_DIR
abbrev pub log_file_dir : Bytes
log_file_dir = codes "../log/memory_trace" ++ 0 ∷ []

-- The bytes of a string, without its terminator.
unfoldable pub string_at : Ptr → Run Bytes
string_at p = do s ← deref p; n ← strlen s; prefix n s

module _ ⦃public : Public⦄ where
  open public use {rl_failed}

  -- `snprintf(path + used, remain, "_%s.log", name)`, where there is room for it
  unfoldable pub append_name : Bytes → Bytes → Run (Option Bytes)
  append_name path name = do
    used ← strlen path
    if ltb used 1024
        then (do
          tail ← suffix path used
          tail ← snprintf tail (1024 - used) (b'_' ∷ name ++ codes ".log")
          text ← string_at (some (take used path ++ tail))
          ok (some text))
        else ok none

  -- The path, `none` where the function returns RL_FAILED.
  unfoldable pub target_path : System → Run (Option Bytes)
  target_path sys = do
    (ret, path) ←
        rl_get_file_abs_path sys.dirname sys.exe (some (replicate 1024 0)) 1024 (some log_file_dir)
          sys.temp_buf
    invalid ← ok (ret ==ℤ rl_failed) or_else rl_str_isempty path
    if invalid then ok none else do
      (ret, name) ← rl_get_proc_name sys.comm (some (replicate 32 0)) 32
      if ret ==ℤ rl_failed
          then ok none
          else do name ← string_at name; path ← deref path; append_name path name

  -- The path and the time of the report.
  unfoldable pub target : System → Run (Option (Bytes × Tm))
  target sys = do
    path ← target_path sys
    elim path [
      | none ↦ ok none
      | some path ↦
          let (ret, time) = rl_get_time sys.clock sys.localtime sys.time in
          if ret ==ℤ rl_failed then ok none else ok (some (path, time))
    ]
