-- ===== src/Log/Filter.antt =====
-- `rl_log_generic`: which messages reach the file, and in what form.
use custom_public_library_rl.Common.{
  ℕ, ◌+◌, ◌-◌, ◌/◌, ◌%◌, ◌≤◌, ◌<◌, zero, suc, ◌≡◌, refl, true, ◌||◌, some, List, [], ◌∷◌, ◌++◌, ok,
  ltb, le→ltb_false, lt→leb_false, leb, ◌==◌, ne→==, if◌then◌else◌, Public, codes, length, drop,
  replicate, length-replicate, All, length-append, take_all, append_assoc, arith, Bool-cases, inl,
  inr,
}
use custom_public_library_rl.Libc.{Bytes, snprintf}
use custom_public_library_rl.Libc.Access.{write_within}
use custom_public_library_rl.Log.{
  Level, level_normal, level_error, level_warn, level_info, level_debug, Log, Answers, decimal,
  strip_zeros, up_to_nul, log_line, log_text, is_full, rl_log_buf_size, log_buf_size, rank,
  level_name, write_all, append_log, write_rl_log, rl_log_generic,
}
use custom_public_library_rl.Log.Write.{successes, write_loop_lem}
use custom_public_library_rl.Time.{padded_digits}

length-strip_zeros : (s : Bytes) → length (strip_zeros s) ≤ length s
unfolding strip_zeros
length-strip_zeros [] = omega arith
length-strip_zeros (c ∷ []) = omega arith
length-strip_zeros (c ∷ d ∷ s) = elim (Bool-cases (c == b'0')) [
  | inl e ↦ let le = length-strip_zeros (d ∷ s) in rw e (omega arith)
  | inr e ↦ rw e (omega arith)
]

length-padded_digits : (width n : ℕ) → length (padded_digits width n) ≡ width
unfolding padded_digits
length-padded_digits zero n = refl
length-padded_digits (suc width) n = omega (
  arith,
  length-append (padded_digits width (n / 10)) ((b'0' + n % 10) ∷ []),
  length-padded_digits width (n / 10),
)

length-decimal : (n : ℕ) → length (decimal n) ≤ 10
unfolding decimal
length-decimal n = omega (arith, length-strip_zeros (padded_digits 10 n), length-padded_digits 10 n)

length-level_name : (level : Level) → length (level_name level) ≤ 5
length-level_name level_normal = omega arith
length-level_name level_error = omega arith
length-level_name level_warn = omega arith
length-level_name level_info = omega arith
length-level_name level_debug = omega arith

-- What a text in a buffer with room looks like.
snprintf_fits :
    (buf text : Bytes) (size : ℕ)
    → length buf ≡ size
    → length text < size
    → (behind : Bytes) × (snprintf buf size text ≡ ok (text ++ behind))
unfolding snprintf
snprintf_fits buf text size e fits = (
  0 ∷ drop (length (text ++ 0 ∷ [])) buf,
  rw
      (
        ne→== size 0 (omega arith),
        take_all (size - 1) text (omega arith),
        write_within buf 0 (text ++ 0 ∷ []) (omega (arith, length-append text (0 ∷ []))),
        append_assoc text (0 ∷ []) (drop (length (text ++ 0 ∷ [])) buf),
      )
      refl,
)

length-up_to_nul : (s : Bytes) → length (up_to_nul s) ≤ length s
unfolding up_to_nul
length-up_to_nul [] = omega arith
length-up_to_nul (c ∷ s) = elim (Bool-cases (c == 0)) [
  | inl e ↦ rw e (omega arith)
  | inr e ↦ let le = length-up_to_nul s in rw e (omega arith)
]

length-log_text :
    (ans : Answers) (log : Log) (level : Level) (message : Bytes)
    → length message < rl_log_buf_size
    → length log.proc_name ≤ 16
    → length (log_text ans log level message) < log_buf_size
unfolding log_text log_line
length-log_text ans log level message short name_short = elim (Bool-cases (rank level == 0)) [
  | inl e ↦ rw e (omega (arith, length-up_to_nul message))
  | inr e ↦
      let said = up_to_nul message in
      let name = up_to_nul log.proc_name in
      let end = said ++ b'\n' ∷ [] in
      let tid = decimal ans.tid in
      let pid = decimal log.pid_now in
      let a = codes "-t" ++ (tid ++ (b' ' ∷ level_name level ++ (b':' ∷ end))) in
      rw e (
        omega (
          arith,
          length-up_to_nul message,
          length-up_to_nul log.proc_name,
          length-append said (b'\n' ∷ []),
          length-append (level_name level) (b':' ∷ end),
          length-level_name level,
          length-decimal ans.tid,
          length-decimal log.pid_now,
          length-append tid (b' ' ∷ level_name level ++ (b':' ∷ end)),
          length-append pid a,
          length-append name (codes "-p" ++ (pid ++ a)),
          length-padded_digits 2 ans.hour,
          length-padded_digits 2 ans.min,
          length-padded_digits 2 ans.sec,
          length-append (padded_digits 2 ans.sec) (b'-' ∷ name ++ (codes "-p" ++ (pid ++ a))),
          length-append (padded_digits 2 ans.min)
              (b':' ∷ padded_digits 2 ans.sec ++ (b'-' ∷ name ++ (codes "-p" ++ (pid ++ a)))),
          length-append (padded_digits 2 ans.hour) (
              b':' ∷ padded_digits 2 ans.min
              ++ (b':' ∷ padded_digits 2 ans.sec ++ (b'-' ∷ name ++ (codes "-p" ++ (pid ++ a))))),
        ))
]

log_text_opened :
    (ans : Answers) (log : Log) (level : Level) (message : Bytes)
    → log_text ans (record log { opened = true }) level message ≡ log_text ans log level message
unfolding log_text log_line
log_text_opened ans log level message = refl

module _ ⦃public : Public⦄ where
  open public use {rl_success, rl_failed}

  -- The file that a message is appended to.
  abbrev pub kept : Answers → Log → Bytes
  kept ans log = if is_full ans.size then [] else log.file

  write_all_lem :
      (ans : Answers) (ns : List ℕ) (log : Log) (text behind : Bytes)
      → ans.writes ≡ successes ns
      → All (λ n. 0 < n) ns
      → length text ≤ length ns
      → write_all ans (text ++ behind) (length text) log
        ≡ ok (some (rl_success, record log { file = log.file ++ text }))
  unfolding write_all
  write_all_lem ans ns log text behind e positive enough =
      let done = write_loop_lem ns [] text behind log.file positive enough in
      let zero_add : 0 + length text ≡ length text = omega arith in rw (e, rw zero_add at done) refl

  append_log_lem :
      (ans : Answers) (ns : List ℕ) (log : Log) (text behind : Bytes)
      → ans.truncated ≡ true
      → ans.moved ≡ true
      → ans.writes ≡ successes ns
      → All (λ n. 0 < n) ns
      → length text ≤ length ns
      → append_log ans (text ++ behind) (length text) log
        ≡ ok (some (rl_success, record log { file = kept ans log ++ text }))
  unfolding append_log
  append_log_lem ans ns log text behind cut back writes positive enough =
      elim (Bool-cases (is_full ans.size)) [
        | inl e ↦
            rw
              (
                e,
                cut,
                back,
                write_all_lem (record ans { truncated = true; moved = true }) ns
                    (record log { file = [] }) text behind writes positive enough,
              )
              refl
        | inr e ↦ rw (e, write_all_lem ans ns log text behind writes positive enough) refl
      ]

  -- Let the log be open, the message's level at most the current one, the message shorter than
  -- 1024 bytes and the process's name at most 16 bytes long. Where every call that the message
  -- needs succeeds, each `write` puts out at least one byte and there are as many calls as bytes,
  -- `rl_log_generic` never faults, returns RL_SUCCESS and adds the whole line, with the message up
  -- to its first NUL, to the file once, however the calls divide it; a file that is larger than
  -- the limit is emptied first.
  pub log_generic_lem :
      (ans : Answers) (ns : List ℕ) (log : Log) (level : Level) (message : Bytes)
      → log.opened ≡ true
      → rank level ≤ rank log.cur_rl_log_level
      → length message < rl_log_buf_size
      → length log.proc_name ≤ 16
      → ans.truncated ≡ true
      → ans.moved ≡ true
      → ans.writes ≡ successes ns
      → All (λ n. 0 < n) ns
      → length (log_text ans log level message) ≤ length ns
      → rl_log_generic ans level message log
        ≡ ok (
            some (rl_success, record log { file = kept ans log ++ log_text ans log level message }))
  unfolding rl_log_generic write_rl_log
  log_generic_lem ans ns log level message opened shown short name cut back writes positive enough =
      let open_log = record log { opened = true } in
      let text = log_text ans open_log level message in
      let (behind, stored) =
        snprintf_fits (replicate log_buf_size 0) text log_buf_size
          (length-replicate {A = ℕ} log_buf_size 0)
          (length-log_text ans open_log level message short name) in
      let enough' : length text ≤ length ns = rw (log_text_opened ans log level message) enough in
      rw
        (
          le→ltb_false (rank log.cur_rl_log_level) (rank level) shown,
          lt→leb_false rl_log_buf_size (length message) short,
          opened,
          stored,
        )
        (append_log_lem ans ns open_log text behind cut back writes positive enough')

  -- A message of a higher level than the current one, or of at least 1024 bytes, is refused: the
  -- function returns RL_FAILED and leaves the log as it was.
  log_generic_refused :
      (ans : Answers) (log : Log) (level : Level) (message : Bytes)
      → (ltb (rank log.cur_rl_log_level) (rank level) || leb rl_log_buf_size (length message))
        ≡ true
      → rl_log_generic ans level message log ≡ ok (some (rl_failed, log))
  unfolding rl_log_generic
  log_generic_refused ans log level message h = ground arith
