-- ===== src/Command/Retry.antt =====
-- The outer loop: how often the command is started, and which attempt decides.
use custom_public_library_rl.Common.{
  ℕ, zero, suc, ◌+◌, ◌≤◌, ◌<◌, ◌≡◌, refl, true, false, Option, some, List, [], ◌∷◌, ◌++◌,
  append_assoc, arith, replicate,
}
use custom_public_library_rl.Libc.{Bytes}
use custom_public_library_rl.Command.{
  Status, neither, Child, Event, started, slept, killing, wait_loop, Ending, returned, conclude,
  next_attempt, retry_loop,
}
use custom_public_library_rl.Command.Waiting.{IsPending, Ends, wait_in_time, wait_too_long}

-- The child ends after `n` pauses, within the limit.
pub record InTime (child : Child) (limit n : ℕ) (status : Status) (events : List Event)
    : Type 0 where
  pub within : n < limit
  pub waited : (i : ℕ) → i < n → IsPending (child.waits i)
  pub ends : Ends (child.waits n) status events

abbrev pub TooLong : Child → ℕ → Type 0
TooLong child limit = (i : ℕ) → i < limit → IsPending (child.waits i)

-- What the first `k` attempts from number `round` on do, where all of them take too long.
abbrev pub lost_attempts : Bytes → ℕ → (ℕ → Child) → ℕ → ℕ → List Event
lost_attempts cmd limit children round zero = []
lost_attempts cmd limit children round (suc k) =
    started cmd ∷ (replicate limit slept ++ killing (children round))
    ++ lost_attempts cmd limit children (round + 1) k

retry_step :
    (rounds : ℕ) (cmd : Bytes) (forks : ℕ → Option Child) (fuel limit round : ℕ) (before : Status)
    (child : Child)
    → forks round ≡ some child
    → retry_loop (suc rounds) cmd forks fuel limit round before
      ≡ conclude cmd
          (wait_loop fuel child limit limit 0)
          (retry_loop rounds cmd forks fuel limit (round + 1))
unfolding retry_loop next_attempt
retry_step rounds cmd forks fuel limit round before child e = rw e refl

pub retry_none :
    (cmd : Bytes) (forks : ℕ → Option Child) (fuel limit round : ℕ) (before : Status)
    → retry_loop 0 cmd forks fuel limit round before ≡ some (returned before, [])
unfolding retry_loop
retry_none cmd forks fuel limit round before = refl

conclude_lost :
    (cmd : Bytes) (status : Status) (events later : List Event) (ending : Ending)
    (rest : Status → Option (Ending × List Event))
    → rest status ≡ some (ending, later)
    → conclude cmd (some (status, (true, events))) rest
      ≡ some (ending, started cmd ∷ events ++ later)
unfolding conclude
conclude_lost cmd status events later ending rest e = rw e refl

conclude_done :
    (cmd : Bytes) (status : Status) (events : List Event)
    (rest : Status → Option (Ending × List Event))
    → conclude cmd (some (status, (false, events))) rest
      ≡ some (returned status, started cmd ∷ events)
unfolding conclude
conclude_done cmd status events rest = refl

module _ (cmd : Bytes) (children : ℕ → Child) (fuel limit : ℕ) (positive : 0 < limit)
    (enough : limit ≤ fuel) where
  lost_step :
      (rounds round : ℕ) (before : Status) (ending : Ending) (later : List Event)
      → TooLong (children round) limit
      → retry_loop rounds cmd (λ i. some (children i)) fuel limit (round + 1) neither
        ≡ some (ending, later)
      → retry_loop (suc rounds) cmd (λ i. some (children i)) fuel limit round before
        ≡ some (ending, started cmd ∷ (replicate limit slept ++ killing (children round)) ++ later)
  lost_step rounds round before ending later long e =
      rw
        (
          retry_step rounds cmd (λ i. some (children i)) fuel limit round before (children round)
              refl,
          wait_too_long limit fuel (children round) limit 0 positive positive enough
              (λ i h. let z : 0 + i ≡ i = omega arith in rw z (long i h)),
        )
        (conclude_lost cmd neither (replicate limit slept ++ killing (children round)) later ending
          (retry_loop rounds cmd (λ i. some (children i)) fuel limit (round + 1)) e)

  -- The attempt behind the first `k` that take too long decides the result, if a round is left for
  -- it.
  pub retry_decided :
      (k rounds round : ℕ) (before : Status) (n : ℕ) (status : Status) (events : List Event)
      → k < rounds
      → ((i : ℕ) → i < k → TooLong (children (round + i)) limit)
      → InTime (children (round + k)) limit n status events
      → retry_loop rounds cmd (λ i. some (children i)) fuel limit round before
        ≡ some (
          returned status,
          lost_attempts cmd limit children round k ++ started cmd ∷ (replicate n slept ++ events),
        )
  retry_decided k zero round before n status events more long quick = absurd (omega arith)
  retry_decided zero (suc rounds) round before n status events more long quick =
      let here : round + 0 ≡ round = omega arith in
      let q : InTime (children round) limit n status events = rw here at quick in
      rw
        (
          retry_step rounds cmd (λ i. some (children i)) fuel limit round before (children round)
              refl,
          wait_in_time n fuel (children round) limit limit 0 status events positive q.within
              (omega (arith, q.within))
              (λ i h. let z : 0 + i ≡ i = omega arith in rw z (q.waited i h))
              (let z : 0 + n ≡ n = omega arith in rw z q.ends),
        )
        (conclude_done cmd status (replicate n slept ++ events)
          (retry_loop rounds cmd (λ i. some (children i)) fuel limit (round + 1)))
  retry_decided (suc k) (suc rounds) round before n status events more long quick =
      let here : round + 0 ≡ round = omega arith in
      let there : round + suc k ≡ round + 1 + k = omega arith in
      let tail = started cmd ∷ (replicate n slept ++ events) in
      rw
        (append_assoc (started cmd ∷ (replicate limit slept ++ killing (children round)))
          (lost_attempts cmd limit children (round + 1) k) tail)
        (lost_step rounds round before (returned status)
          (lost_attempts cmd limit children (round + 1) k ++ tail)
          (rw here at (long 0 (omega arith)))
          (retry_decided k rounds (round + 1) neither n status events (omega arith)
            (λ i h.
              let shift : round + suc i ≡ round + 1 + i = omega arith in
              rw shift at (long (suc i) (omega arith)))
            (rw there at quick)))

  -- Where all attempts take too long, the result is neither a code nor a signal.
  pub retry_exhausted :
      (rounds round : ℕ) (before : Status)
      → 0 < rounds
      → ((i : ℕ) → i < rounds → TooLong (children (round + i)) limit)
      → retry_loop rounds cmd (λ i. some (children i)) fuel limit round before
        ≡ some (returned neither, lost_attempts cmd limit children round rounds)
  retry_exhausted zero round before some_left long = absurd (omega arith)
  retry_exhausted (suc zero) round before some_left long =
      let here : round + 0 ≡ round = omega arith in
      lost_step 0 round before (returned neither) [] (rw here at (long 0 (omega arith)))
        (retry_none cmd (λ i. some (children i)) fuel limit (round + 1) neither)
  retry_exhausted (suc (suc rounds)) round before some_left long =
      let here : round + 0 ≡ round = omega arith in
      lost_step (suc rounds) round before (returned neither)
        (lost_attempts cmd limit children (round + 1) (suc rounds))
        (rw here at (long 0 (omega arith)))
        (retry_exhausted (suc rounds) (round + 1) neither (omega arith) (λ i h.
          let shift : round + suc i ≡ round + 1 + i = omega arith in
          rw shift at (long (suc i) (omega arith))))
