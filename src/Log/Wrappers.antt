-- ===== src/Log/Wrappers.antt =====
-- rllog/src/rllog.c: the functions that the other modules log with.
use custom_public_library_rl.Common.{
  ℕ, ◌≤◌, ◌<◌, ◌≡◌, refl, ap, ◌∙◌, true, Option, none, some, List, ◌++◌, Run, ok, ◌>>=◌, length,
  All, arith, ℤ, Public,
}
use custom_public_library_rl.Libc.{Bytes}
use custom_public_library_rl.Log.{
  Level, level_normal, level_error, level_warn, level_info, level_debug, Log, Answers, log_text,
  up_to_nul, rl_log_buf_size, rl_log_generic,
}
use custom_public_library_rl.Log.Write.{successes}
use custom_public_library_rl.Log.Filter.{kept, log_generic_lem}

abbrev state_of : Option (ℤ × Log) → Option Log
state_of none = none
state_of (some (code, log)) = some log

abbrev keep : Run (Option (ℤ × Log)) → Run (Option Log)
keep m = do done ← m; ok (state_of done)

normal_text :
    (ans : Answers) (log : Log) (message : Bytes)
    → log_text ans log level_normal message ≡ up_to_nul message
unfolding log_text
normal_text ans log message = refl

module _ ⦃public : Public⦄ where
  open public use {rl_success}

  -- The code is dropped: a failure is only reported on the standard error.
  log_at : Level → Answers → Bytes → Log → Run (Option Log)
  log_at level ans message log = keep (rl_log_generic ans level message log)

  pub rl_log_debug : Answers → Bytes → Log → Run (Option Log)
  rl_log_debug ans message log = log_at level_debug ans message log

  pub rl_log_info : Answers → Bytes → Log → Run (Option Log)
  rl_log_info ans message log = log_at level_info ans message log

  pub rl_log_warn : Answers → Bytes → Log → Run (Option Log)
  rl_log_warn ans message log = log_at level_warn ans message log

  pub rl_log_error : Answers → Bytes → Log → Run (Option Log)
  rl_log_error ans message log = log_at level_error ans message log

  pub rl_log_normal : Answers → Bytes → Log → Run (Option Log)
  rl_log_normal ans message log = log_at level_normal ans message log

  -- Where every call that a message needs succeeds and the message has less than 1024 bytes,
  -- `rl_log_normal` adds it up to its first NUL, at any level of the log; a file that is too large
  -- is emptied first.
  log_normal_lem :
      (ans : Answers) (ns : List ℕ) (log : Log) (message : Bytes)
      → log.opened ≡ true
      → length message < rl_log_buf_size
      → length log.proc_name ≤ 16
      → ans.truncated ≡ true
      → ans.moved ≡ true
      → ans.writes ≡ successes ns
      → All (λ n. 0 < n) ns
      → length (up_to_nul message) ≤ length ns
      → rl_log_normal ans message log
        ≡ ok (some (record log { file = kept ans log ++ up_to_nul message }))
  unfolding rl_log_normal log_at
  log_normal_lem ans ns log message opened short name cut back writes positive enough =
      let plain = normal_text ans log message in
      let logged =
        log_generic_lem ans ns log level_normal message opened (omega arith) short name cut back
          writes positive (rw plain enough) in
      ap keep (
        logged
        ∙ ap (λ text. ok (some (rl_success, record log { file = kept ans log ++ text }))) plain)
