-- ===== src/Command/Restore.antt =====
-- The signals that `rl_system_100ms_ex` leaves behind, whichever of its calls fail.
use custom_public_library_rl.Common.{
  ℕ, ◌≡◌, ◌⊎◌, inl, inr, refl, Bool, true, false, ◌&&◌, Option, none, some, List, ◌∷◌, Returns,
  returns, ◌==◌, Bool-cases, ℤ, Public,
}
use custom_public_library_rl.Libc.{Bytes, read}
use custom_public_library_rl.Str.{rl_str_isempty}
use custom_public_library_rl.Command.{
  exited, Child, Event, Ending, returned, process_exits, Handler, Action, sig_dfl, ignore,
  SignalState, SignalCalls, returns_code, exits, Effect, rounds_of, positive_part, retry_loop,
  restore, finish, rl_system_100ms_ex,
}

-- SIGINT and SIGQUIT do what they did, with masks and flags, SIGCHLD has its handler, and is
-- blocked where it was.
abbrev pub Preserved : SignalState → SignalState → Type 0
Preserved sig sig' =
    (sig'.sigint ≡ sig.sigint)
    × (sig'.sigquit ≡ sig.sigquit)
    × (sig'.sigchld.sa_handler ≡ sig.sigchld.sa_handler)
    × (sig'.chld_blocked ≡ sig.chld_blocked)

abbrev pub all_succeed : SignalCalls → Bool
all_succeed calls =
    calls.int_set
    && (calls.quit_set
        && (calls.block_set
            && (calls.mask_restored && (calls.int_restored && calls.quit_restored))))

module _ ⦃public : Public⦄ where
  open public use {rl_failed}

  -- What holds of an outcome: nothing, where the process ends or the fuel does.
  abbrev pub Restores : SignalCalls → SignalState → Option Effect → Type 0
  Restores calls sig none = Unit
  Restores calls sig (some (returns_code c, (sig', events))) =
      Preserved sig sig' ⊎ ((c ≡ rl_failed) × (all_succeed calls ≡ false))
  Restores calls sig (some (exits, (sig', events))) = Unit

  module _ (installs : Handler → Action) (keeps : (h : Handler) → (installs h).sa_handler ≡ h) where
    abbrev with_calls : (int quit block mask int' quit' : Bool) → SignalCalls
    with_calls int quit block mask int' quit' = record {
      signal_installs = installs;
      int_set = int;
      quit_set = quit;
      block_set = block;
      mask_restored = mask;
      int_restored = int';
      quit_restored = quit';
    }

    finish-Restores :
        (mask int quit : Bool) (sig : SignalState) (o : Option (Ending × List Event))
        → Restores (with_calls true true true mask int quit) sig (
            finish
              (with_calls true true true mask int quit)
              sig
              (record sig {
                sigint = ignore;
                sigquit = ignore;
                chld_blocked = true;
                sigchld = installs sig_dfl;
              })
              o)
    unfolding finish restore
    finish-Restores mask int quit sig none = tt
    finish-Restores mask int quit sig (some (process_exits, events)) = tt
    finish-Restores false int quit sig (some (returned status, events)) = inr (refl, refl)
    finish-Restores true false quit sig (some (returned status, events)) = inr (refl, refl)
    finish-Restores true true false sig (some (returned status, events)) = inr (refl, refl)
    finish-Restores true true true sig (some (returned status, events)) =
        inl (refl, refl, keeps sig.sigchld.sa_handler, refl)

    begun-Restores :
        (int quit block mask int' quit' : Bool) (forks : ℕ → Option Child) (fuel c : ℕ)
        (cmd : Bytes) (timeout_count try_count : ℤ) (sig : SignalState)
        → (c == 0) ≡ false
        → Returns (Restores (with_calls int quit block mask int' quit') sig) (
            rl_system_100ms_ex
              (with_calls int quit block mask int' quit')
              forks
              fuel
              (some (c ∷ cmd))
              timeout_count
              try_count
              sig)
    unfolding rl_system_100ms_ex rl_str_isempty read
    begun-Restores false quit block mask int' quit' forks fuel c cmd timeout_count try_count sig e =
        rw e (returns (inr (refl, refl)))
    begun-Restores true false block mask int' quit' forks fuel c cmd timeout_count try_count sig e =
        rw e (returns (inr (refl, refl)))
    begun-Restores true true false mask int' quit' forks fuel c cmd timeout_count try_count sig e =
        rw e (returns (inr (refl, refl)))
    begun-Restores true true true mask int' quit' forks fuel c cmd timeout_count try_count sig e =
        rw e (
          returns (
            finish-Restores mask int' quit' sig (
              retry_loop (rounds_of try_count) (c ∷ cmd) forks fuel (positive_part timeout_count) 0
                (exited 0))))

  empty-Restores :
      (calls : SignalCalls) (forks : ℕ → Option Child) (fuel c : ℕ) (cmd : Bytes)
      (timeout_count try_count : ℤ) (sig : SignalState)
      → (c == 0) ≡ true
      → Returns
          (Restores calls sig)
          (rl_system_100ms_ex calls forks fuel (some (c ∷ cmd)) timeout_count try_count sig)
  unfolding rl_system_100ms_ex rl_str_isempty read
  empty-Restores calls forks fuel c cmd timeout_count try_count sig e =
      rw e (returns (inl (refl, refl, refl, refl)))

  -- Where `signal` installs the handler that it is given, with a mask and flags of its choice,
  -- whenever `rl_system_100ms_ex` on a buffer of at least one byte returns, whichever of its calls
  -- fail and whatever the children do, either SIGINT and SIGQUIT have their whole dispositions as
  -- before, with masks and flags, SIGCHLD has its handler and is blocked exactly where it was, or
  -- a call on signals has failed and the result is RL_FAILED.
  pub system-Restores :
      (calls : SignalCalls) (forks : ℕ → Option Child) (fuel c : ℕ) (cmd : Bytes)
      (timeout_count try_count : ℤ) (sig : SignalState)
      → ((h : Handler) → (calls.signal_installs h).sa_handler ≡ h)
      → Returns
          (Restores calls sig)
          (rl_system_100ms_ex calls forks fuel (some (c ∷ cmd)) timeout_count try_count sig)
  system-Restores calls forks fuel c cmd timeout_count try_count sig keeps =
      elim (Bool-cases (c == 0)) [
        | inl e ↦ empty-Restores calls forks fuel c cmd timeout_count try_count sig e
        | inr e ↦
            begun-Restores calls.signal_installs keeps calls.int_set calls.quit_set calls.block_set
              calls.mask_restored calls.int_restored calls.quit_restored forks fuel c cmd
              timeout_count try_count sig e
      ]
