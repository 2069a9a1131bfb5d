-- ===== src/Log/Threads.antt =====
-- rllog/src/rllog.c: threads in `write_rl_log`, a call of the system or the mutex at a time, from
-- the text in `log_buf` on.
pub mod Moved
pub mod Entries
pub mod Looping
pub mod Alone
use custom_public_library_rl.Common.{
  ℕ, zero, suc, ◌+◌, Bool, true, false, Option, none, some, List, [], ◌∷◌, ◌++◌, ltb, if◌then◌else◌,
  length, take, drop,
}
use custom_public_library_rl.Libc.{Bytes}
use custom_public_library_rl.Log.{is_full}

-- Where a thread stands: between two calls, with the success of the last one, before the lock with
-- its text, or under the lock, in the end with the success and how much it has written.
pub data Writer : Type 0 where
  returned : Bool → Writer
  ready : Bytes → Writer
  checking : Bytes → Writer
  emptying : Bytes → Writer
  resetting : Bytes → Writer
  writing : Bytes → ℕ → Writer
  leaving : Bool → Bytes → ℕ → Writer

-- What a move takes from outside: the text of the next call, and the answers of `stat`,
-- `ftruncate`, `lseek` and `write`, of which it asks one at most.
pub record Reply : Type 0 where
  pub text : Bytes
  pub size : Option ℕ
  pub truncated : Bool
  pub moved : Bool
  pub ret : Option ℕ

-- `rl_log_mutex`, whether `log_file_fd` is open, and the content of the file.
pub record LogFile : Type 0 where
  pub locked : Bool
  pub opened : Bool
  pub content : Bytes

-- What a call has done to the file when it is over, or the emptying of the file.
pub data Event : Type 0 where
  emptied : Event
  added : Bytes → Event
  broken : Bytes → ℕ → Event

abbrev pub MoveResult : Type 0
MoveResult = Writer × LogFile × List Event

abbrev pub goes_to : Writer → LogFile → MoveResult
goes_to w s = (w, s, [])

unfoldable pub after_write : Option ℕ → Bytes → ℕ → LogFile → MoveResult
after_write none text written s = goes_to (leaving false text written) s
after_write (some n) text written s =
    goes_to (writing text (written + n))
      (record s { content = s.content ++ take n (drop written text) })

unfoldable pub event_of : Bool → Bytes → ℕ → Event
event_of true text written = added text
event_of false text written = broken text written

-- A move of one thread. A thread that finds the mutex held stays where it is. With O_APPEND each
-- write goes to the end of the file.
unfoldable pub write_move : Reply → Writer → LogFile → MoveResult
write_move input (returned success) s =
    if s.opened then goes_to (ready input.text) s else goes_to (returned false) s
write_move input (ready text) s =
    if s.locked
    then goes_to (ready text) s
    else goes_to (checking text) (record s { locked = true })
write_move input (checking text) s =
    if is_full input.size then goes_to (emptying text) s else goes_to (writing text 0) s
write_move input (emptying text) s =
    if input.truncated
    then (resetting text, record s { content = [] }, emptied ∷ [])
    else goes_to (leaving false text 0) s
write_move input (resetting text) s =
    if input.moved then goes_to (writing text 0) s else goes_to (leaving false text 0) s
write_move input (writing text written) s =
    if ltb written (length text)
    then after_write input.ret text written s
    else goes_to (leaving true text written) s
write_move input (leaving success text written) s =
    (returned success, record s { locked = false }, event_of success text written ∷ [])

-- One move of the thread at a position.
abbrev pub all_of : List Writer → MoveResult → List Writer × LogFile × List Event
all_of ws (w, s, es) = (w ∷ ws, s, es)

abbrev pub behind : Writer → List Writer × LogFile × List Event → List Writer × LogFile × List Event
behind w (ws, s, es) = (w ∷ ws, s, es)

unfoldable pub write_act : ℕ → Reply → List Writer → LogFile → List Writer × LogFile × List Event
write_act i input [] s = ([], s, [])
write_act zero input (w ∷ ws) s = all_of ws (write_move input w s)
write_act (suc i) input (w ∷ ws) s = behind w (write_act i input ws s)
