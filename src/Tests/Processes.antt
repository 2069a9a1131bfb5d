-- ===== src/Tests/Processes.antt =====
-- rlcmd on a child that hangs and one that ends at once.
use custom_public_library_rl.Common.{
  ◌^◌, ℕ, zero, suc, ◌<◌, ◌≡◌, refl, ◌⊎◌, inl, true, false, some, [], ◌∷◌, ok, Returns, arith,
  codes, pos, negsuc,
}
use custom_public_library_rl.Command.{
  exited, running, interrupted, ended, Wait, Child, started, slept, killed, reaped, sig_dfl,
  handler, Handler, Action, SignalState, SignalCalls, returns_code, rl_system_100ms_ex,
}
use custom_public_library_rl.Command.Retry.{InTime, TooLong}
use custom_public_library_rl.Command.Signals.{
  all_calls, handler_back, system_decided, system_negative,
}
use custom_public_library_rl.Command.Restore.{Restores, system-Restores}
use custom_public_library_rl.Command.Limit.{EndsWithin, system_ends}
use custom_public_library_rl.Tests.{host}

abbrev hanging : Child
hanging = record { waits = λ i. running; kills = true; collected = true }

-- It ends with the code 3 after one pause.
abbrev quick_waits : ℕ → Wait
quick_waits zero = running
quick_waits (suc i) = ended (exited 3)

abbrev quick : Child
quick = record { waits = quick_waits; kills = true; collected = true }

abbrev second_quick : ℕ → Child
second_quick zero = hanging
second_quick (suc i) = quick

-- `signal` of a C library that lets system calls start again
abbrev installs : Handler → Action
installs h = record { sa_handler = h; sa_mask = 17 ∷ []; sa_flags = 2 ^ 28 }

abbrev signals : SignalState
signals = record {
  sigint = record { sa_handler = handler 1; sa_mask = 3 ∷ []; sa_flags = 4 };
  sigquit = record { sa_handler = sig_dfl; sa_mask = []; sa_flags = 0 };
  sigchld = record { sa_handler = handler 2; sa_mask = []; sa_flags = 4 };
  chld_blocked = false;
}

quick-InTime : InTime quick 2 1 (exited 3) (reaped ∷ [])
quick-InTime = record { within = omega arith; waited = first_pending; ends = inl (refl, refl) }
  where
    first_pending : (i : ℕ) → i < 1 → (quick_waits i ≡ running) ⊎ (quick_waits i ≡ interrupted)
    first_pending zero h = inl refl
    first_pending (suc i) h = absurd (omega arith)

first_hangs : (i : ℕ) → i < 1 → TooLong (second_quick i) 2
first_hangs zero h = λ i' h'. inl refl
first_hangs (suc i) h = absurd (omega arith)

system_decided_example :
    rl_system_100ms_ex
      (all_calls installs)
      (λ i. some (second_quick i))
      2
      (some (codes "sync"))
      (pos 2)
      (pos 1)
      signals
    ≡ ok (
        some (
          returns_code (pos 0),
          (
            handler_back installs signals,
            started (codes "sync")
                ∷ slept
                ∷ slept
                ∷ killed
                ∷ reaped
                ∷ started (codes "sync")
                ∷ slept
                ∷ reaped
                ∷ [],
          ),
        ))
system_decided_example =
    system_decided installs second_quick 2 b's' 2 1 1 1 (codes "ync") signals (exited 3)
      (reaped ∷ []) (λ e. omega arith) (omega arith) (omega arith) (omega arith) first_hangs
      quick-InTime

system_negative_example :
    rl_system_100ms_ex
      (all_calls installs)
      (λ i. some quick)
      9
      (some (codes "sync"))
      (pos 5)
      (negsuc 0)
      signals
    ≡ ok (some (returns_code (pos 0), (handler_back installs signals, [])))
system_negative_example =
    system_negative installs (λ i. some quick) 9 b's' 0 (codes "ync") (pos 5) signals
      (λ e. omega arith)

-- The last `sigaction` fails.
abbrev quit_lost : SignalCalls
quit_lost = record (all_calls installs) { quit_restored = false }

system-Restores_example :
    Returns (Restores quit_lost signals) (
      rl_system_100ms_ex quit_lost
        (λ i. some quick)
        4
        (some (codes "sync"))
        (pos 0)
        (pos 0)
        signals)
system-Restores_example =
    system-Restores quit_lost (λ i. some quick) 4 b's' (codes "ync") (pos 0) (pos 0) signals
      (λ h. refl)

system_ends_example : Returns (EndsWithin 3 2) (
    rl_system_100ms_ex
      (all_calls installs)
      (λ i. some (second_quick i))
      2
      (some (codes "sync"))
      (pos 2)
      (pos 2)
      signals)
system_ends_example =
    system_ends (all_calls installs) (λ i. some (second_quick i)) 2 b's' 2 (codes "ync") (pos 2)
      signals (omega arith) (omega arith)
