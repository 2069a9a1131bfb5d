-- ===== src/Tests/Journal.antt =====
-- rllog on a concrete log.
use custom_public_library_rl.Common.{
  Returns, ◌++◌, String, ◌≡◌, refl, true, false, none, some, List, [], ◌∷◌, ok, arith, codes, pos,
}
use custom_public_library_rl.Log.{
  level_warn, level_normal, Log, Answers, append_log, rl_log_generic, log_text, up_to_nul,
}
use custom_public_library_rl.Log.Filter.{log_generic_lem}
use custom_public_library_rl.Log.Threads.{
  Writer, returned, ready, writing, Reply, LogFile, added, write_move, after_write, event_of,
  write_act,
}
use custom_public_library_rl.Log.Threads.Entries.{
  Reach, start, later, Consistent, threads-Consistent,
}
use custom_public_library_rl.Log.Threads.Alone.{replies_of, SectionGoes, append_log-SectionGoes}
use custom_public_library_rl.Log.Threads.Looping.{alone, free_file}
use custom_public_library_rl.Tests.{host}

abbrev journal : Log
journal = record {
  opened = true;
  pid_now = 7;
  proc_name = codes "app";
  cur_rl_log_level = level_warn;
  file = codes "old";
}

-- `write` puts out one byte, then three.
abbrev answers : Answers
answers = record {
  hour = 1;
  min = 2;
  sec = 3;
  tid = 8;
  size = some 52428801;
  truncated = true;
  moved = true;
  writes = some 1 ∷ some 3 ∷ some 1 ∷ some 1 ∷ [];
}

log_generic_lem_example :
    rl_log_generic answers level_normal (codes "te" ++ 0 ∷ codes "xt") journal
    ≡ ok (some (pos 0, record journal { file = codes "te" }))
unfolding log_text up_to_nul
log_generic_lem_example =
    log_generic_lem answers (1 ∷ 3 ∷ 1 ∷ 1 ∷ []) journal level_normal (codes "te" ++ 0 ∷ codes "xt")
      refl (omega arith) (omega arith) (omega arith) refl refl refl
      (omega arith, (omega arith, (omega arith, (omega arith, tt)))) (omega arith)

abbrev reply : String → Reply
reply text = record { text = codes text; size = none; truncated = true; moved = true; ret = some 1 }

abbrev idle : List Writer
idle = returned false ∷ returned false ∷ []

abbrev empty_file : LogFile
empty_file = record { locked = false; opened = true; content = [] }

-- The first thread has written its line, the second one byte.
written-Reach :
    Reach idle empty_file
      (added (codes "ab") ∷ [])
      (returned true ∷ writing (codes "cd") 1 ∷ [])
      (record { locked = true; opened = true; content = codes "abc" })
unfolding write_act write_move after_write event_of
written-Reach =
    later
      (later
        (later
          (later
            (later
              (later
                (later
                  (later
                    (later
                      (later
                        (later (later (later start 0 (reply "ab")) 1 (reply "cd")) 0 (reply "ab")) 1
                        (reply "cd"))
                      0 (reply "ab"))
                    0 (reply "ab"))
                  0 (reply "ab"))
                0 (reply "ab"))
              1 (reply "cd"))
            0 (reply "ab"))
          1 (reply "cd"))
        1 (reply "cd"))
      1 (reply "cd")

threads-Consistent_example :
    Consistent
      (added (codes "ab") ∷ [])
      []
      (returned true ∷ writing (codes "cd") 1 ∷ [])
      (record { locked = true; opened = true; content = codes "abc" })
threads-Consistent_example = threads-Consistent refl refl written-Reach

append_log-SectionGoes_example :
    Returns
      (SectionGoes
        (alone (replies_of answers) (ready (codes "text")) (free_file journal.file))
        journal)
      (append_log answers (codes "text" ++ 0 ∷ []) 4 journal)
append_log-SectionGoes_example = append_log-SectionGoes answers (codes "text") (0 ∷ []) journal
