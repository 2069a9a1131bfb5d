-- ===== src/Log.antt =====
-- rllog/src/rllog.c: the log file, with what the system answers as arguments. The messages that it
-- prints on the standard error are left out.
pub mod Write
pub mod Filter
pub mod Wrappers
pub mod Threads
use custom_public_library_rl.Common.{
  ℕ, ◌+◌, ◌-◌, ◌*◌, zero, suc, Bool, true, false, Option, none, some, List, [], ◌∷◌, ◌++◌, Run, ok,
  fault, ◌>>=◌, ltb, leb, ◌==◌, ◌&&◌, if◌then◌else◌, ℤ, Public, codes, length, take, drop,
  replicate,
}
use custom_public_library_rl.Libc.{Bytes, prefix, suffix, snprintf, fgets, strcspn, strlen, write}
use custom_public_library_rl.Time.{padded_digits}

-- `RL_LOG_LEVEL`
pub data Level : Type 0 where
  level_normal level_error level_warn level_info level_debug : Level

-- The value of the enumerator.
abbrev pub rank : Level → ℕ
rank level_normal = 0
rank level_error = 1
rank level_warn = 2
rank level_info = 3
rank level_debug = 4

abbrev pub level_name : Level → Bytes
level_name level_error = codes "error"
level_name level_warn = codes "warn"
level_name level_info = codes "info"
level_name _ = codes "debug"

-- The static variables, and the content of the file.
pub record Log : Type 0 where
  pub opened : Bool
  pub pid_now : ℕ
  pub proc_name : Bytes
  pub cur_rl_log_level : Level
  pub file : Bytes

-- The answers to one call: the local time, the thread, `stat`, `ftruncate` and `lseek`, and those
-- of `write` in turn, `none` for -1.
pub record Answers : Type 0 where
  pub hour : ℕ
  pub min : ℕ
  pub sec : ℕ
  pub tid : ℕ
  pub size : Option ℕ
  pub truncated : Bool
  pub moved : Bool
  pub writes : List (Option ℕ)

pub strip_zeros : Bytes → Bytes
strip_zeros [] = []
strip_zeros (c ∷ []) = c ∷ []
strip_zeros (c ∷ d ∷ s) = if c == b'0' then strip_zeros (d ∷ s) else c ∷ d ∷ s

-- `%d` for a number of at most ten digits
pub decimal : ℕ → Bytes
decimal n = strip_zeros (padded_digits 10 n)

-- What `%s` puts out: the bytes in front of the first NUL.
unfoldable pub up_to_nul : Bytes → Bytes
up_to_nul [] = []
up_to_nul (c ∷ s) = let rest = up_to_nul s in if c == 0 then [] else c ∷ rest

-- The text that the first format makes.
pub log_line : Answers → Log → Level → Bytes → Bytes
log_line ans log level message =
    padded_digits 2 ans.hour
    ++ (b':' ∷ padded_digits 2 ans.min
        ++ (b':' ∷ padded_digits 2 ans.sec
            ++ (b'-' ∷ up_to_nul log.proc_name
                ++ (codes "-p"
                    ++ (decimal log.pid_now
                        ++ (codes "-t"
                            ++ (decimal ans.tid
                                ++ (b' ' ∷ level_name level
                                    ++ (b':' ∷ up_to_nul message ++ b'\n' ∷ [])))))))))

unfoldable pub log_text : Answers → Log → Level → Bytes → Bytes
log_text ans log level message =
    if rank level == 0 then up_to_nul message else log_line ans log level message

-- `sizeof(log_buf)`
abbrev pub log_buf_size : ℕ
log_buf_size = 1088

abbrev pub rl_log_buf_size : ℕ
rl_log_buf_size = 1024

abbrev pub rl_log_file_size : ℕ
rl_log_file_size = 1024 * 1024 * 50

-- `stat` succeeds and the file is larger than RL_LOG_FILE_SIZE.
abbrev pub is_full : Option ℕ → Bool
is_full none = false
is_full (some n) = ltb rl_log_file_size n

abbrev pub with_file : Log → Option (ℤ × Bytes) → Option (ℤ × Log)
with_file log none = none
with_file log (some (code, file)) = some (code, record log { file = file })

module _ ⦃public : Public⦄ where
  open public use {rl_success, rl_failed}

  -- The loop, with `written` bytes of the first `log_len` of `log_buf` out: the code, and the file.
  -- The outcome is `none` where the answers end and the loop has not.
  pub write_loop : List (Option ℕ) → Bytes → ℕ → ℕ → Bytes → Run (Option (ℤ × Bytes))
  write_loop [] log_buf log_len written file =
      if ltb written log_len then ok none else ok (some (rl_success, file))
  write_loop (ret ∷ rets) log_buf log_len written file =
      if ltb written log_len
      then elim ret [
        | none ↦ ok (some (rl_failed, file))
        | some n ↦ do
          rest ← suffix log_buf written
          bytes ← prefix (log_len - written) rest
          write_loop rets log_buf log_len (written + n) (file ++ take n bytes)
      ]
      else ok (some (rl_success, file))

  pub write_all : Answers → Bytes → ℕ → Log → Run (Option (ℤ × Log))
  write_all ans log_buf log_len log = do
    done ← write_loop ans.writes log_buf log_len 0 log.file
    ok (with_file log done)

  -- The part under the lock. The pointer needs no place in the model: with O_APPEND each write goes
  -- to the end of the file.
  pub append_log : Answers → Bytes → ℕ → Log → Run (Option (ℤ × Log))
  append_log ans log_buf log_len log =
      if is_full ans.size
      then if ans.truncated
        then if ans.moved
          then write_all ans log_buf log_len (record log { file = [] })
          else ok (some (rl_failed, record log { file = [] }))
        else ok (some (rl_failed, log))
      else write_all ans log_buf log_len log

  pub write_rl_log : Answers → Level → Bytes → Log → Run (Option (ℤ × Log))
  write_rl_log ans level message log =
      if log.opened
      then (do
        let text = log_text ans log level message
        log_buf ← snprintf (replicate log_buf_size 0) log_buf_size text
        append_log ans log_buf (length text) log)
      else ok (some (rl_failed, log))

  -- `message` is what `vsnprintf` makes of the format and its arguments. `%c` may put a NUL into it.
  pub rl_log_generic : Answers → Level → Bytes → Log → Run (Option (ℤ × Log))
  rl_log_generic ans level message log =
      if ltb (rank log.cur_rl_log_level) (rank level)
      then ok (some (rl_failed, log))
      else if leb rl_log_buf_size (length message)
      then ok (some (rl_failed, log))
      else write_rl_log ans level message log

  -- `comm` is the content of /proc/self/comm, `none` if it does not open; `opens` tells whether the
  -- log file opens. Of the array `proc_name` nothing is read behind the name's terminator.
  rl_log_init : Option Bytes → ℕ → Bool → Level → Log → Run (ℤ × Log)
  rl_log_init none pid opens level log = ok (rl_failed, record log { cur_rl_log_level = level })
  rl_log_init (some stream) pid opens level log = do
    got ← fgets (replicate 17 0) 16 stream
    elim got [
      | none ↦ ok (rl_failed, record log { cur_rl_log_level = level })
      | some (name, rest) ↦ do
        end ← strcspn name b'\n'
        name ← write name end (0 ∷ [])
        n ← strlen name
        name ← prefix n name
        let ready = record log {
          cur_rl_log_level = level;
          proc_name = name;
          pid_now = pid;
          opened = opens;
        }
        if opens then ok (rl_success, ready) else ok (rl_failed, ready)
    ]

  -- The answers are those of `fsync` and `close`.
  rl_log_deint : Bool → Bool → Log → ℤ × Log
  rl_log_deint synced closed log =
      if log.opened
      then if synced && closed
        then (rl_success, record log { opened = false })
        else (rl_failed, log)
      else (rl_failed, log)
