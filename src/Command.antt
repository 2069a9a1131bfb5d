-- ===== src/Command.antt =====
-- rlcmd/src/rlcmd.c: a shell command with a limit of time and retries. The answers of the system
-- are arguments; what the function does to other processes is a list of events.
pub mod Waiting
pub mod Retry
pub mod Signals
pub mod Counts
pub mod Limit
pub mod Restore
use custom_public_library_rl.Common.{
  ℕ, zero, suc, ◌+◌, ◌-◌, Bool, true, false, not, Option, none, some, List, [], ◌∷◌, ◌++◌, Run, ok,
  ◌>>=◌, ltb, leb, if◌then◌else◌, ℤ, pos, negsuc, Public,
}
use custom_public_library_rl.Libc.{Bytes, Ptr, deref, negate}
use custom_public_library_rl.Str.{rl_str_isempty}

-- What the macros of <sys/wait.h> tell of a status. RL_SUCCESS, which is zero, is `exited 0`;
-- RL_FAILED, with all bits set, is neither.
pub data Status : Type 0 where
  exited signaled : ℕ → Status
  neither : Status

-- An answer of `waitpid` with WNOHANG: the child still runs, -1 with EINTR, -1 with another error,
-- or the child has ended.
pub data Wait : Type 0 where
  running interrupted failed : Wait
  ended : Status → Wait

-- A child: the answers of `waitpid` on it in turn, whether `kill` succeeds, and whether the
-- `waitpid` behind it collects the child or is interrupted.
pub record Child : Type 0 where
  pub waits : ℕ → Wait
  pub kills : Bool
  pub collected : Bool

-- `slept` is a pause of 100 ms, `reaped` the end of a child that `waitpid` has collected.
pub data Event : Type 0 where
  started : Bytes → Event
  slept killed reaped : Event

-- A status, whether to retry, and the events.
abbrev pub Attempt : Type 0
Attempt = Status × (Bool × List Event)

abbrev pub after_sleep : Option Attempt → Option Attempt
after_sleep none = none
after_sleep (some (status, (retry, events))) = some (status, (retry, slept ∷ events))

abbrev pub killing : Child → List Event
killing child = if child.kills then killed ∷ (if child.collected then reaped ∷ [] else []) else []

-- A round of the inner loop in which the child has not ended. `rest` is the rounds after it.
pub pending : Child → (timeout_count left : ℕ) → Option Attempt → Option Attempt
pending child timeout_count left rest =
    if ltb 0 timeout_count
    then if leb (left - 1) 0
      then some (neither, (true, slept ∷ killing child))
      else after_sleep rest
    else rest

pub next_round : Child → (timeout_count left : ℕ) → Option Attempt → Wait → Option Attempt
next_round child timeout_count left rest (ended status) = some (status, (false, reaped ∷ []))
next_round child timeout_count left rest failed = some (neither, (false, []))
next_round child timeout_count left rest running = pending child timeout_count left rest
next_round child timeout_count left rest interrupted = pending child timeout_count left rest

-- The inner loop, from the answer number `round` on. `timeout_count` is zero where the argument is not
-- positive: only then the loop may not end, and the fuel bounds it.
pub wait_loop : ℕ → Child → (timeout_count left round : ℕ) → Option Attempt
wait_loop zero child timeout_count left round = none
wait_loop (suc fuel) child timeout_count left round =
    let rest =
      wait_loop fuel child timeout_count (if ltb 0 timeout_count then left - 1 else left)
        (round + 1) in
    next_round child timeout_count left rest (child.waits round)

-- The end of the outer loop: a status, or the end of the process where `fork` fails.
pub data Ending : Type 0 where
  returned : Status → Ending
  process_exits : Ending

abbrev after_events : List Event → Option (Ending × List Event) → Option (Ending × List Event)
after_events events none = none
after_events events (some (ending, later)) = some (ending, events ++ later)

-- What follows an attempt; `rest` is the rounds after it, which start from the status of this one.
pub conclude :
    Bytes → Option Attempt → (Status → Option (Ending × List Event)) → Option (Ending × List Event)
conclude cmd none rest = none
conclude cmd (some (status, (retry, events))) rest =
    if retry
    then after_events (started cmd ∷ events) (rest status)
    else some (returned status, started cmd ∷ events)

-- A round of the outer loop with the answer of `fork`.
pub next_attempt :
    Bytes
    → (fuel timeout_count : ℕ) → (Status → Option (Ending × List Event))
    → Option Child
    → Option (Ending × List Event)
next_attempt cmd fuel timeout_count rest none = some (process_exits, [])
next_attempt cmd fuel timeout_count rest (some child) =
    conclude cmd (wait_loop fuel child timeout_count timeout_count 0) rest

-- The outer loop, with the rounds that are left. `forks` are the answers of `fork` in turn.
pub retry_loop :
    ℕ
    → Bytes
    → (ℕ → Option Child)
    → ℕ
    → (timeout_count round : ℕ) → Status
    → Option (Ending × List Event)
retry_loop zero cmd forks fuel timeout_count round status = some (returned status, [])
retry_loop (suc rounds) cmd forks fuel timeout_count round status =
    let rest = retry_loop rounds cmd forks fuel timeout_count (round + 1) in
    next_attempt cmd fuel timeout_count rest (forks round)

-- `for (int i = -1; i < try_count; i++)`
abbrev pub rounds_of : ℤ → ℕ
rounds_of (pos n) = n + 1
rounds_of (negsuc n) = 0

abbrev pub positive_part : ℤ → ℕ
positive_part (pos n) = n
positive_part (negsuc n) = 0

pub data Handler : Type 0 where
  sig_dfl sig_ign : Handler
  handler : ℕ → Handler

-- `struct sigaction`: the signals of the mask by their numbers
pub record Action : Type 0 where
  pub sa_handler : Handler
  pub sa_mask : List ℕ
  pub sa_flags : ℕ

-- What three signals do, and whether SIGCHLD is blocked.
pub record SignalState : Type 0 where
  pub sigint : Action
  pub sigquit : Action
  pub sigchld : Action
  pub chld_blocked : Bool

-- The local `ignore`
abbrev pub ignore : Action
ignore = record { sa_handler = sig_ign; sa_mask = []; sa_flags = 0 }

-- Which of the calls that can fail succeed, and what `signal` installs for a handler: it chooses
-- the mask and the flags.
pub record SignalCalls : Type 0 where
  pub signal_installs : Handler → Action
  pub int_set : Bool
  pub quit_set : Bool
  pub block_set : Bool
  pub mask_restored : Bool
  pub int_restored : Bool
  pub quit_restored : Bool

pub data Result : Type 0 where
  returns_code : ℤ → Result
  exits : Result

abbrev pub Effect : Type 0
Effect = Result × (SignalState × List Event)

module _ ⦃public : Public⦄ where
  open public use {rl_success, rl_failed}

  abbrev pub code_of : Status → ℤ
  code_of (exited n) = rl_success
  code_of (signaled n) = negate n
  code_of neither = rl_failed

  -- The end of the function; `old` is what the first calls have saved.
  pub restore : SignalCalls → SignalState → Status → List Event → SignalState → Effect
  restore calls old status events sig =
      if not calls.mask_restored
      then (returns_code rl_failed, (sig, events))
      else let sig = record sig {
        chld_blocked = old.chld_blocked;
        sigchld = calls.signal_installs old.sigchld.sa_handler;
      } in
        if not calls.int_restored
        then (returns_code rl_failed, (sig, events))
        else let sig = record sig { sigint = old.sigint } in
          if not calls.quit_restored
          then (returns_code rl_failed, (sig, events))
          else (returns_code (code_of status), (record sig { sigquit = old.sigquit }, events))

  pub finish :
      SignalCalls → SignalState → SignalState → Option (Ending × List Event) → Option Effect
  finish calls old sig none = none
  finish calls old sig (some (returned status, events)) = some (restore calls old status events sig)
  finish calls old sig (some (process_exits, events)) = some (exits, (sig, events))

  -- The outcome is `none` where the fuel ends before a wait without a limit does.
  pub rl_system_100ms_ex :
      SignalCalls
      → (ℕ → Option Child)
      → ℕ
      → Ptr
      → (timeout_count try_count : ℤ) → SignalState
      → Run (Option Effect)
  rl_system_100ms_ex calls forks fuel cmd_str timeout_count try_count sig = do
    empty ← rl_str_isempty cmd_str
    if empty then ok (some (returns_code rl_failed, (sig, []))) else do
      cmd ← deref cmd_str
      if not calls.int_set
          then ok (some (returns_code rl_failed, (sig, [])))
          else let ignoring = record sig { sigint = ignore } in
            if not calls.quit_set
            then ok (some (returns_code rl_failed, (ignoring, [])))
            else let ignoring = record ignoring { sigquit = ignore } in
              if not calls.block_set
              then ok (some (returns_code rl_failed, (ignoring, [])))
              else let blocking = record ignoring {
                chld_blocked = true;
                sigchld = calls.signal_installs sig_dfl;
              } in
                ok (
                  finish calls sig blocking (
                    retry_loop (rounds_of try_count) cmd forks fuel (positive_part timeout_count) 0
                      (exited 0)))
