-- ===== src/Command/Limit.antt =====
-- The function with a limit of time: how long it runs, and what it does at most.
use custom_public_library_rl.Common.{
  ℕ, zero, suc, ◌+◌, ◌*◌, ◌≤◌, ◌<◌, ◌≡◌, inl, inr, refl, Bool, true, false, Option, none, some,
  List, [], ◌∷◌, ◌++◌, Returns, returns, ◌==◌, arith, Bool-cases, Option-cases, ℤ, pos, Public,
}
use custom_public_library_rl.Libc.{Bytes, read}
use custom_public_library_rl.Str.{rl_str_isempty}
use custom_public_library_rl.Command.{
  Status, exited, Child, Event, started, Ending, returned, process_exits, conclude, next_attempt,
  retry_loop, sig_dfl, ignore, SignalState, SignalCalls, Effect, rounds_of, finish, restore,
  rl_system_100ms_ex,
}
use custom_public_library_rl.Command.Counts.{
  starts, pauses, starts-append, pauses-append, Within, attempt_ends,
}

-- At most `rounds` starts, with at most `limit` pauses for each.
abbrev Bounded : ℕ → ℕ → List Event → Type 0
Bounded rounds limit events = (starts events ≤ rounds) × (pauses events ≤ rounds * limit)

conclude_ends :
    (cmd : Bytes) (rounds limit : ℕ) (status : Status) (retry : Bool) (events : List Event)
    (rest : Status → Option (Ending × List Event))
    → Within limit events
    → ((status : Status)
        → (ending : Ending) × (later : List Event) × (rest status ≡ some (ending, later))
          × Bounded rounds limit later)
    → (ending : Ending) × (all : List Event) × (conclude cmd (some (status, (retry, events))) rest
        ≡ some (ending, all))
      × Bounded (suc rounds) limit all
unfolding conclude
conclude_ends cmd rounds limit status false events rest (s, p) next =
    (returned status, started cmd ∷ events, refl, (omega (arith, s), grind (arith, p)))
conclude_ends cmd rounds limit status true events rest (s, p) next =
    let (ending, later, e, (s', p')) = next status in
    (
      ending,
      started cmd ∷ events ++ later,
      rw e refl,
      (
        omega (arith, starts-append events later, s, s'),
        grind (arith, pauses-append events later, p, p'),
      ),
    )

retry_ends :
    (rounds : ℕ) (cmd : Bytes) (forks : ℕ → Option Child) (fuel limit round : ℕ) (status : Status)
    → 0 < limit
    → limit ≤ fuel
    → (ending : Ending) × (events : List Event) × (retry_loop rounds cmd forks fuel limit round
          status
        ≡ some (ending, events))
      × Bounded rounds limit events
unfolding retry_loop next_attempt
retry_ends zero cmd forks fuel limit round status positive enough =
    (returned status, [], refl, (omega arith, omega arith))
retry_ends (suc rounds) cmd forks fuel limit round status positive enough =
    let rest =
      λ (s : Status). retry_ends rounds cmd forks fuel limit (round + 1) s positive enough in
    elim (Option-cases (forks round)) [
      | inl e ↦ (process_exits, [], rw e refl, (omega arith, grind arith))
      | inr (child, e) ↦
          let (s, retry, events, w, bound) = attempt_ends child fuel limit positive enough in
          rw (e, w)
            (conclude_ends cmd rounds limit s retry events
              (retry_loop rounds cmd forks fuel limit (round + 1)) bound rest)
    ]

module _ ⦃public : Public⦄ where
  -- The outcome is an effect with at most `rounds` starts and `limit` pauses for each.
  abbrev pub EndsWithin : ℕ → ℕ → Option Effect → Type 0
  EndsWithin rounds limit none = ⊥
  EndsWithin rounds limit (some (result, (sig, events))) = Bounded rounds limit events

  finish_ends :
      (calls : SignalCalls) (old sig : SignalState) (rounds limit : ℕ) (ending : Ending)
      (events : List Event)
      → Bounded rounds limit events
      → EndsWithin rounds limit (finish calls old sig (some (ending, events)))
  unfolding finish restore
  finish_ends calls old sig rounds limit (returned status) events bound =
      elim (Bool-cases calls.mask_restored) [
        | inr e ↦ rw e bound
        | inl e ↦ elim (Bool-cases calls.int_restored) [
          | inr e' ↦ rw (e, e') bound
          | inl e' ↦ elim (Bool-cases calls.quit_restored) [
            | inr e'' ↦ rw (e, e', e'') bound
            | inl e'' ↦ rw (e, e', e'') bound
          ]
        ]
      ]
  finish_ends calls old sig rounds limit process_exits events bound = bound

  nothing-Bounded : (rounds limit : ℕ) → Bounded rounds limit []
  nothing-Bounded rounds limit = (omega arith, grind arith)

  -- With a limit of time of `limit` pauses, from 1 on, and fuel of at least as much,
  -- `rl_system_100ms_ex` on a buffer of at least one byte never faults and always ends, whatever
  -- the children do and whichever calls fail: it starts the command at most `try_count` + 1 times,
  -- or never for a negative count, and pauses at most `limit` times as often in all.
  pub system_ends :
      (calls : SignalCalls) (forks : ℕ → Option Child) (fuel c limit : ℕ) (cmd : Bytes)
      (try_count : ℤ) (sig : SignalState)
      → 0 < limit
      → limit ≤ fuel
      → Returns
          (EndsWithin (rounds_of try_count) limit)
          (rl_system_100ms_ex calls forks fuel (some (c ∷ cmd)) (pos limit) try_count sig)
  unfolding rl_system_100ms_ex rl_str_isempty read
  system_ends calls forks fuel c limit cmd try_count sig positive enough =
      let rounds = rounds_of try_count in
      let none_done = nothing-Bounded rounds limit in
      elim (Bool-cases (c == 0)) [
        | inl e ↦ rw e (returns none_done)
        | inr e ↦ elim (Bool-cases calls.int_set) [
          | inr e1 ↦ rw (e, e1) (returns none_done)
          | inl e1 ↦ elim (Bool-cases calls.quit_set) [
            | inr e2 ↦ rw (e, e1, e2) (returns none_done)
            | inl e2 ↦ elim (Bool-cases calls.block_set) [
              | inr e3 ↦ rw (e, e1, e2, e3) (returns none_done)
              | inl e3 ↦
                  let (ending, events, e4, bound) =
                    retry_ends rounds (c ∷ cmd) forks fuel limit 0 (exited 0) positive enough in
                  let all : SignalCalls = record {
                    signal_installs = calls.signal_installs;
                    int_set = true;
                    quit_set = true;
                    block_set = true;
                    mask_restored = calls.mask_restored;
                    int_restored = calls.int_restored;
                    quit_restored = calls.quit_restored;
                  } in
                  rw (e, e1, e2, e3, e4)
                    (returns (
                      finish_ends all sig
                        (record sig {
                          sigint = ignore;
                          sigquit = ignore;
                          chld_blocked = true;
                          sigchld = calls.signal_installs sig_dfl;
                        })
                        rounds limit ending events bound))
            ]
          ]
        ]
      ]
