-- ===== src/Command/Waiting.antt =====
-- The inner loop: children that end in time, and others.
use custom_public_library_rl.Common.{
  ℕ, zero, suc, ◌+◌, ◌-◌, ◌≤◌, ◌<◌, ◌≡◌, ◌⊎◌, inl, inr, refl, true, false, Option, some, List, [],
  ◌∷◌, ◌++◌, leb, lt→ltb, lt→leb_false, if◌then◌else◌, arith, replicate,
}
use custom_public_library_rl.Command.{
  Status, neither, Wait, running, interrupted, failed, ended, Child, Event, slept, reaped, Attempt,
  after_sleep, killing, pending, next_round, wait_loop,
}

-- The child has not ended, and `waitpid` has not failed.
abbrev pub IsPending : Wait → Type 0
IsPending w = (w ≡ running) ⊎ (w ≡ interrupted)

-- A wait that ends the loop: the status, and the events.
abbrev pub Ends : Wait → Status → List Event → Type 0
Ends w status events =
    ((w ≡ ended status) × (events ≡ reaped ∷ []))
    ⊎ ((w ≡ failed) × (status ≡ neither) × (events ≡ []))

loop_step :
    (fuel : ℕ) (child : Child) (timeout_count left round : ℕ)
    → 0 < timeout_count
    → wait_loop (suc fuel) child timeout_count left round
      ≡ next_round child timeout_count left
          (wait_loop fuel child timeout_count (left - 1) (round + 1))
          (child.waits round)
unfolding wait_loop
loop_step fuel child timeout_count left round limited = rw (lt→ltb 0 timeout_count limited)

next_pending :
    (child : Child) (timeout_count left : ℕ) (rest : Option Attempt) (w : Wait)
    → 0 < timeout_count
    → IsPending w
    → next_round child timeout_count left rest w ≡ (
        if leb (left - 1) 0
        then some (neither, (true, slept ∷ killing child))
        else after_sleep rest)
unfolding next_round pending
next_pending child timeout_count left rest w limited (inl e) =
    rw (e, lt→ltb 0 timeout_count limited)
next_pending child timeout_count left rest w limited (inr e) =
    rw (e, lt→ltb 0 timeout_count limited)

next_end :
    (child : Child) (timeout_count left : ℕ) (rest : Option Attempt) (w : Wait) (status : Status)
    (events : List Event)
    → Ends w status events
    → next_round child timeout_count left rest w ≡ some (status, (false, events))
unfolding next_round
next_end child timeout_count left rest w status events (inl (e, e')) = rw (e, e') refl
next_end child timeout_count left rest w status events (inr (e, e', e'')) = rw (e, e', e'') refl

-- A wait that is pending and not the last one.
next_sleep :
    (fuel : ℕ) (child : Child) (timeout_count left round : ℕ)
    → 0 < timeout_count
    → 1 < left
    → IsPending (child.waits round)
    → wait_loop (suc fuel) child timeout_count left round
      ≡ after_sleep (wait_loop fuel child timeout_count (left - 1) (round + 1))
next_sleep fuel child timeout_count left round limited more p =
    rw
      (
        loop_step fuel child timeout_count left round limited,
        next_pending child timeout_count left
            (wait_loop fuel child timeout_count (left - 1) (round + 1)) (child.waits round) limited
            p,
        lt→leb_false (left - 1) 0 (omega arith),
      )
      refl

-- A child that ends within the limit is collected after a pause for each answer before its end.
pub wait_in_time :
    (n fuel : ℕ) (child : Child) (timeout_count left round : ℕ) (status : Status)
    (events : List Event)
    → 0 < timeout_count
    → n < left
    → n < fuel
    → ((i : ℕ) → i < n → IsPending (child.waits (round + i)))
    → Ends (child.waits (round + n)) status events
    → wait_loop fuel child timeout_count left round
      ≡ some (status, (false, replicate n slept ++ events))
wait_in_time n zero child timeout_count left round status events limited within enough p e =
    absurd (omega arith)
wait_in_time zero (suc fuel) child timeout_count left round status events limited within enough p
      e =
    let here : round + 0 ≡ round = omega arith in
    rw (loop_step fuel child timeout_count left round limited) (
      next_end child timeout_count left (wait_loop fuel child timeout_count (left - 1) (round + 1))
        (child.waits round) status events (rw here at e))
wait_in_time (suc n) (suc fuel) child timeout_count left round status events limited within enough p
      e =
    let here : round + 0 ≡ round = omega arith in
    let there : round + suc n ≡ round + 1 + n = omega arith in
    let later : (i : ℕ) → i < n → IsPending (child.waits (round + 1 + i)) = λ i h.
      let shift : round + suc i ≡ round + 1 + i = omega arith in
      rw shift at (p (suc i) (omega arith)) in
    rw
      (
        next_sleep fuel child timeout_count left round limited (omega arith)
            (rw here at (p 0 (omega arith))),
        wait_in_time n fuel child timeout_count (left - 1) (round + 1) status events limited
            (omega arith) (omega arith) later (rw there at e),
      )
      refl

-- A child that stays alive for the whole limit is killed after as many pauses, where `kill`
-- succeeds, and the attempt is to be repeated.
pub wait_too_long :
    (left fuel : ℕ) (child : Child) (timeout_count round : ℕ)
    → 0 < timeout_count
    → 0 < left
    → left ≤ fuel
    → ((i : ℕ) → i < left → IsPending (child.waits (round + i)))
    → wait_loop fuel child timeout_count left round
      ≡ some (neither, (true, replicate left slept ++ killing child))
wait_too_long zero fuel child timeout_count round limited some_left enough p = absurd (omega arith)
wait_too_long (suc left) zero child timeout_count round limited some_left enough p =
    absurd (omega arith)
wait_too_long (suc zero) (suc fuel) child timeout_count round limited some_left enough p =
    let here : round + 0 ≡ round = omega arith in
    rw
      (
        loop_step fuel child timeout_count 1 round limited,
        next_pending child timeout_count 1 (wait_loop fuel child timeout_count (1 - 1) (round + 1))
            (child.waits round) limited (rw here at (p 0 (omega arith))),
      )
      refl
wait_too_long (suc (suc left)) (suc fuel) child timeout_count round limited some_left enough p =
    let here : round + 0 ≡ round = omega arith in
    let less : suc (suc left) - 1 ≡ suc left = omega arith in
    let later : (i : ℕ) → i < suc left → IsPending (child.waits (round + 1 + i)) = λ i h.
      let shift : round + suc i ≡ round + 1 + i = omega arith in
      rw shift at (p (suc i) (omega arith)) in
    rw
      (
        next_sleep fuel child timeout_count (suc (suc left)) round limited (omega arith)
            (rw here at (p 0 (omega arith))),
        less,
        wait_too_long (suc left) fuel child timeout_count (round + 1) limited (omega arith)
            (omega arith) later,
      )
      refl
