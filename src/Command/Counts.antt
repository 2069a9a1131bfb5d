-- ===== src/Command/Counts.antt =====
-- How often an attempt starts the command and pauses.
use custom_public_library_rl.Common.{
  ℕ, zero, suc, ◌+◌, ◌≤◌, ◌<◌, ◌≡◌, ◌⊎◌, inl, inr, refl, ap, Bool, true, false, some, List, [], ◌∷◌,
  ◌++◌, arith, replicate, Bool-cases,
}
use custom_public_library_rl.Command.{
  Status, neither, Wait, running, interrupted, failed, ended, Child, Event, started, slept, killed,
  reaped, killing, wait_loop,
}
use custom_public_library_rl.Command.Waiting.{IsPending, Ends, wait_in_time, wait_too_long}

abbrev pub starts : List Event → ℕ
starts [] = 0
starts (started cmd ∷ events) = suc (starts events)
starts (slept ∷ events) = starts events
starts (killed ∷ events) = starts events
starts (reaped ∷ events) = starts events

abbrev pub pauses : List Event → ℕ
pauses [] = 0
pauses (started cmd ∷ events) = pauses events
pauses (slept ∷ events) = suc (pauses events)
pauses (killed ∷ events) = pauses events
pauses (reaped ∷ events) = pauses events

pub starts-append : (xs ys : List Event) → starts (xs ++ ys) ≡ starts xs + starts ys
starts-append [] ys = omega arith
starts-append (started cmd ∷ xs) ys = omega (arith, starts-append xs ys)
starts-append (slept ∷ xs) ys = starts-append xs ys
starts-append (killed ∷ xs) ys = starts-append xs ys
starts-append (reaped ∷ xs) ys = starts-append xs ys

pub pauses-append : (xs ys : List Event) → pauses (xs ++ ys) ≡ pauses xs + pauses ys
pauses-append [] ys = omega arith
pauses-append (started cmd ∷ xs) ys = pauses-append xs ys
pauses-append (slept ∷ xs) ys = omega (arith, pauses-append xs ys)
pauses-append (killed ∷ xs) ys = pauses-append xs ys
pauses-append (reaped ∷ xs) ys = pauses-append xs ys

pauses-replicate : (n : ℕ) → (pauses (replicate n slept) ≡ n) × (starts (replicate n slept) ≡ 0)
pauses-replicate zero = (refl, refl)
pauses-replicate (suc n) = let (p, s) = pauses-replicate n in (ap suc p, s)

-- No start, and at most `limit` pauses.
abbrev pub Within : ℕ → List Event → Type 0
Within limit events = (starts events ≡ 0) × (pauses events ≤ limit)

sleeping-Within :
    (n limit : ℕ) (events : List Event)
    → n ≤ limit
    → Within 0 events
    → Within limit (replicate n slept ++ events)
sleeping-Within n limit events le (s, p) =
    let (pn, sn) = pauses-replicate n in
    (
      omega (arith, starts-append (replicate n slept) events, s, sn),
      omega (arith, pauses-append (replicate n slept) events, p, pn, le),
    )

killing-Within : (child : Child) → Within 0 (killing child)
killing-Within child = elim (Bool-cases child.kills) [
  | inl e ↦ elim (Bool-cases child.collected) [
    | inl e' ↦ rw (e, e') (refl, omega arith)
    | inr e' ↦ rw (e, e') (refl, omega arith)
  ]
  | inr e ↦ rw e (refl, omega arith)
]

Ends-Within :
    (w : Wait) (status : Status) (events : List Event) → Ends w status events → Within 0 events
Ends-Within w status events (inl (_, e)) = rw e (refl, omega arith)
Ends-Within w status events (inr (_, _, e)) = rw e (refl, omega arith)

wait_cases :
    (w : Wait) → IsPending w ⊎ ((status : Status) × (events : List Event) × Ends w status events)
wait_cases running = inl (inl refl)
wait_cases interrupted = inl (inr refl)
wait_cases failed = inr (neither, [], inr (refl, refl, refl))
wait_cases (ended status) = inr (status, reaped ∷ [], inl (refl, refl))

-- Among the next `left` answers one ends the wait, or all are pending.
verdict :
    (child : Child) (left round : ℕ)
    → ((n : ℕ) × (status : Status) × (events : List Event) × (n < left)
        × ((i : ℕ) → i < n → IsPending (child.waits (round + i)))
        × Ends (child.waits (round + n)) status events)
      ⊎ ((i : ℕ) → i < left → IsPending (child.waits (round + i)))
verdict child zero round = inr (λ i h. absurd (omega arith))
verdict child (suc left) round =
    let here : round + 0 ≡ round = omega arith in
    elim (wait_cases (child.waits round)) [
      | inr (status, events, e) ↦
          inl (0, status, events, omega arith, (λ i h. absurd (omega arith)), rw here e)
      | inl p ↦ elim (verdict child left (round + 1)) [
        | inl (n, status, events, less, before, e) ↦
            let there : round + suc n ≡ round + 1 + n = omega arith in
            inl (
              suc n,
              status,
              events,
              omega arith,
              prepend child round n (rw here p) before,
              rw there e,
            )
        | inr all ↦ inr (prepend child round left (rw here p) all)
      ]
    ]
  where
    prepend :
        (child : Child) (round n : ℕ)
        → IsPending (child.waits (round + 0))
        → ((i : ℕ) → i < n → IsPending (child.waits (round + 1 + i)))
        → (i : ℕ) → i < suc n
        → IsPending (child.waits (round + i))
    prepend child round n p q zero h = p
    prepend child round n p q (suc i) h =
        let shift : round + suc i ≡ round + 1 + i = omega arith in rw shift (q i (omega arith))

pub attempt_ends :
    (child : Child) (fuel limit : ℕ)
    → 0 < limit
    → limit ≤ fuel
    → (status : Status) × (retry : Bool) × (events : List Event) × (wait_loop fuel child limit limit
          0
        ≡ some (status, (retry, events)))
      × Within limit events
attempt_ends child fuel limit positive enough = elim (verdict child limit 0) [
  | inl (n, status, events, less, before, e) ↦ (
    status,
    false,
    replicate n slept ++ events,
    wait_in_time n fuel child limit limit 0 status events positive less (omega arith) before e,
    sleeping-Within n limit events (omega arith)
        (Ends-Within (child.waits (0 + n)) status events e),
  )
  | inr all ↦ (
    neither,
    true,
    replicate limit slept ++ killing child,
    wait_too_long limit fuel child limit 0 positive positive enough all,
    sleeping-Within limit limit (killing child) (omega arith) (killing-Within child),
  )
]
