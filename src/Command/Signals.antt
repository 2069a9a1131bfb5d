-- ===== src/Command/Signals.antt =====
-- `rl_system_100ms_ex` as a whole: its result, and the signals that it leaves.
use custom_public_library_rl.Common.{
  ℕ, ◌+◌, ◌≤◌, ◌<◌, ◌≡◌, ◌≢◌, refl, true, false, Option, some, List, [], ◌∷◌, ◌++◌, ok, arith,
  replicate, ne→==, ℤ, pos, negsuc, Public,
}
use custom_public_library_rl.Libc.{Bytes, read}
use custom_public_library_rl.Str.{rl_str_isempty}
use custom_public_library_rl.Command.{
  Status, exited, Child, Event, started, slept, returned, Handler, Action, sig_dfl, ignore,
  SignalState, SignalCalls, returns_code, code_of, rounds_of, positive_part, retry_loop, restore,
  finish, rl_system_100ms_ex,
}
use custom_public_library_rl.Command.Retry.{
  InTime, TooLong, lost_attempts, retry_decided, retry_exhausted, retry_none,
}

-- Every call succeeds.
abbrev pub all_calls : (Handler → Action) → SignalCalls
all_calls installs = record {
  signal_installs = installs;
  int_set = true;
  quit_set = true;
  block_set = true;
  mask_restored = true;
  int_restored = true;
  quit_restored = true;
}

-- `signal` puts the handler of SIGCHLD back, with the mask and the flags that it chooses.
abbrev pub handler_back : (Handler → Action) → SignalState → SignalState
handler_back installs sig = record sig { sigchld = installs sig.sigchld.sa_handler }

module _ ⦃public : Public⦄ where
  open public use {rl_success, rl_failed}

  system_step :
      (installs : Handler → Action) (forks : ℕ → Option Child) (fuel c : ℕ) (cmd : Bytes)
      (timeout_count try_count : ℤ) (sig : SignalState)
      → c ≢ 0
      → rl_system_100ms_ex
          (all_calls installs)
          forks
          fuel
          (some (c ∷ cmd))
          timeout_count
          try_count
          sig
        ≡ ok (
            finish
              (all_calls installs)
              sig
              (record sig {
                sigint = ignore;
                sigquit = ignore;
                chld_blocked = true;
                sigchld = installs sig_dfl;
              })
              (retry_loop
                (rounds_of try_count)
                (c ∷ cmd)
                forks
                fuel
                (positive_part timeout_count)
                0
                (exited 0)))
  unfolding rl_system_100ms_ex rl_str_isempty read
  system_step installs forks fuel c cmd timeout_count try_count sig h = rw (ne→== c 0 h) refl

  finish_returned :
      (installs : Handler → Action) (sig blocking : SignalState) (status : Status)
      (events : List Event)
      → finish (all_calls installs) sig blocking (some (returned status, events))
        ≡ some (returns_code (code_of status), (handler_back installs sig, events))
  unfolding finish restore
  finish_returned installs sig blocking status events = refl

  -- Where every call on signals succeeds, the command is not empty, the limit is positive, the
  -- first `k` children stay alive for the whole limit, `k` is at most `try_count`, and the next
  -- child ends within the limit with a status, `rl_system_100ms_ex` returns the code of that
  -- status: it has started the command `k` + 1 times, has paused and killed its child the first
  -- `k` times, and has started it no more. `signal` puts the handler of SIGCHLD back with a mask
  -- and flags of its own choice; the signals are else as they were.
  pub system_decided :
      (installs : Handler → Action) (children : ℕ → Child) (fuel c limit t k n : ℕ) (cmd : Bytes)
      (sig : SignalState) (status : Status) (events : List Event)
      → c ≢ 0
      → 0 < limit
      → limit ≤ fuel
      → k ≤ t
      → ((i : ℕ) → i < k → TooLong (children i) limit)
      → InTime (children k) limit n status events
      → rl_system_100ms_ex
          (all_calls installs)
          (λ i. some (children i))
          fuel
          (some (c ∷ cmd))
          (pos limit)
          (pos t)
          sig
        ≡ ok (
            some (
              returns_code (code_of status),
              (
                handler_back installs sig,
                lost_attempts (c ∷ cmd) limit children 0 k
                    ++ started (c ∷ cmd) ∷ (replicate n slept ++ events),
              ),
            ))
  system_decided installs children fuel c limit t k n cmd sig status events h positive enough within
        long quick =
      let z : (i : ℕ) → 0 + i ≡ i = λ i. omega arith in
      rw
        (
          system_step installs (λ i. some (children i)) fuel c cmd (pos limit) (pos t) sig h,
          retry_decided (c ∷ cmd) children fuel limit positive enough k (t + 1) 0 (exited 0) n
              status events (omega arith) (λ i l. rw (z i) (long i l)) (rw (z k) quick),
          finish_returned,
        )
        refl

  -- Where every call on signals succeeds, the command is not empty, the limit is positive, and the
  -- first `try_count` + 1 children stay alive for the whole limit, `rl_system_100ms_ex` starts the
  -- command that many times, kills each child where it can, and returns RL_FAILED with the signals
  -- as they were, but for the mask and the flags of SIGCHLD.
  system_exhausted :
      (installs : Handler → Action) (children : ℕ → Child) (fuel c limit t : ℕ) (cmd : Bytes)
      (sig : SignalState)
      → c ≢ 0
      → 0 < limit
      → limit ≤ fuel
      → ((i : ℕ) → i ≤ t → TooLong (children i) limit)
      → rl_system_100ms_ex
          (all_calls installs)
          (λ i. some (children i))
          fuel
          (some (c ∷ cmd))
          (pos limit)
          (pos t)
          sig
        ≡ ok (
            some (
              returns_code rl_failed,
              (handler_back installs sig, lost_attempts (c ∷ cmd) limit children 0 (t + 1)),
            ))
  system_exhausted installs children fuel c limit t cmd sig h positive enough long =
      let z : (i : ℕ) → 0 + i ≡ i = λ i. omega arith in
      rw
        (
          system_step installs (λ i. some (children i)) fuel c cmd (pos limit) (pos t) sig h,
          retry_exhausted (c ∷ cmd) children fuel limit positive enough (t + 1) 0 (exited 0)
              (omega arith) (λ i l. rw (z i) (long i (omega arith))),
          finish_returned,
        )
        refl

  -- Where every call on signals succeeds and the command is not empty, `rl_system_100ms_ex` with a
  -- negative `try_count` returns RL_SUCCESS without having started anything, and the signals are
  -- as they were, but for the mask and the flags of SIGCHLD.
  pub system_negative :
      (installs : Handler → Action) (forks : ℕ → Option Child) (fuel c n : ℕ) (cmd : Bytes)
      (timeout_count : ℤ) (sig : SignalState)
      → c ≢ 0
      → rl_system_100ms_ex
          (all_calls installs)
          forks
          fuel
          (some (c ∷ cmd))
          timeout_count
          (negsuc n)
          sig
        ≡ ok (some (returns_code rl_success, (handler_back installs sig, [])))
  system_negative installs forks fuel c n cmd timeout_count sig h =
      rw
        (
          system_step installs forks fuel c cmd timeout_count (negsuc n) sig h,
          retry_none,
          finish_returned,
        )
        refl

  -- Where the first `sigaction` succeeds and the second fails, the function returns RL_FAILED and
  -- SIGINT stays ignored.
  system_leaves_ignored :
      (calls : SignalCalls) (forks : ℕ → Option Child) (fuel c : ℕ) (cmd : Bytes)
      (timeout_count try_count : ℤ) (sig : SignalState)
      → c ≢ 0
      → calls.int_set ≡ true
      → calls.quit_set ≡ false
      → rl_system_100ms_ex calls forks fuel (some (c ∷ cmd)) timeout_count try_count sig
        ≡ ok (some (returns_code rl_failed, (record sig { sigint = ignore }, [])))
  unfolding rl_system_100ms_ex rl_str_isempty read
  system_leaves_ignored calls forks fuel c cmd timeout_count try_count sig h yes_int no_quit =
      rw (ne→== c 0 h, yes_int, no_quit) refl
