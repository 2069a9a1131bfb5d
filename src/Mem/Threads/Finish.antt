-- ===== src/Mem/Threads/Finish.antt =====
-- Every call comes to its end.
use custom_public_library_rl.Common.{
  ℕ, zero, suc, ◌+◌, ◌*◌, ◌≡◌, ◌<◌, ◌≤◌, refl, sym, false, false≢true, Option, none, some, List, [],
  ◌∷◌, length, Run, ok, fault, Returns, returns, arith, All, Bool-cases, inl, inr,
}
use custom_public_library_rl.Memory.{
  Addr, null, Heap, Lock, absent, released, held, Memory, and_then, pure,
}
use custom_public_library_rl.Mem.Invariant.{Fresh}
use custom_public_library_rl.Mem.Threads.{
  free_call, Pc, returned, answered, got, refused, ready, linking, storing, counting, summing,
  leaving, freeing, searching, cutting, giving, uncounting, unsumming, leaving_found,
  leaving_absent, releasing, Input, advance, act,
}
use custom_public_library_rl.Mem.Threads.Standing.{inside, Locked}
use custom_public_library_rl.Mem.Threads.Sums.{no_one}
use custom_public_library_rl.Mem.Threads.Acting.{Standing}
use custom_public_library_rl.Mem.Threads.Tracked.{IsBetween, after_address, after_answer}
use custom_public_library_rl.Mem.Threads.Safety.{
  Shared, IsQuiet, Reach, under_lock, Standing-Locked, Standing-IsQuiet, acts-Standing,
  reach-Standing,
}
use custom_public_library_rl.Mem.Threads.Schedule.{can_go, raised, next_up, drain}
use custom_public_library_rl.Mem.Threads.Progress.{
  remaining, total_remaining, Partly, Shrinks, advance-Shrinks,
}

abbrev Fewer : ℕ → List Pc × Memory → Type 0
Fewer n (ps, m) = total_remaining ps < n

-- No thread can go, or the one that is chosen comes nearer to its end.
abbrev Choice : Input → Memory → List Pc → Option ℕ → Type 0
Choice input m ps none = All (λ p. can_go m.mem_lock p ≡ false) ps
Choice input m ps (some i) = Partly (Fewer (total_remaining ps)) (act i input ps m)

first-Fewer :
    (r : Run (Pc × Memory)) (n : ℕ) (ps : List Pc)
    → Partly (Shrinks n) r
    → Partly (Fewer (n + total_remaining ps)) (and_then r (λ p'. pure (p' ∷ ps)))
first-Fewer (ok (p', m')) n ps less = omega (arith, less)
first-Fewer fault n ps less = tt

later-Fewer :
    (r : Run (List Pc × Memory)) (p : Pc) (n : ℕ)
    → Partly (Fewer n) r
    → Partly (Fewer (remaining p + n)) (and_then r (λ ps'. pure (p ∷ ps')))
later-Fewer (ok (ps', m')) p n less = omega (arith, less)
later-Fewer fault p n less = tt

raised-Choice :
    (input : Input) (m : Memory) (p : Pc) (ps : List Pc) (o : Option ℕ)
    → can_go m.mem_lock p ≡ false
    → Choice input m ps o
    → Choice input m (p ∷ ps) (raised o)
unfolding act
raised-Choice input m p ps none e c = (e, c)
raised-Choice input m p ps (some i) e c = later-Fewer (act i input ps m) p (total_remaining ps) c

next_up-Choice :
    (input : Input) (m : Memory) (ps : List Pc) → Choice input m ps (next_up m.mem_lock ps)
unfolding act
next_up-Choice input m [] = tt
next_up-Choice input m (p ∷ ps) = elim (Bool-cases (can_go m.mem_lock p)) [
  | inl e ↦ rw e (first-Fewer (advance input p m) (remaining p) ps (advance-Shrinks input p m e))
  | inr e ↦ rw e (raised-Choice input m p ps (next_up m.mem_lock ps) e (next_up-Choice input m ps))
]

-- Where no thread can go, none is in a call: a thread that waits leaves the one that holds the
-- mutex to go.
cannot_held : (p : Pc) → can_go held p ≡ false → inside p ≡ 0
cannot_held (returned a) e = refl
cannot_held (answered success) e = refl
cannot_held (ready node) e = refl
cannot_held (freeing p) e = refl
cannot_held _ e = absurd (false≢true (sym e))

cannot_released : (p : Pc) → can_go released p ≡ false → IsBetween p
cannot_released (returned a) e = after_address
cannot_released (answered success) e = after_answer
cannot_released _ e = absurd (false≢true (sym e))

All-held : (ps : List Pc) → All (λ p. can_go held p ≡ false) ps → under_lock ps ≡ 0
All-held [] e = refl
All-held (p ∷ ps) (e, es) = omega (arith, cannot_held p e, All-held ps es)

All-released : (ps : List Pc) → All (λ p. can_go released p ≡ false) ps → All IsBetween ps
All-released [] e = tt
All-released (p ∷ ps) (e, es) = (cannot_released p e, All-released ps es)

none_can-IsBetween :
    (l : Lock) (ps : List Pc)
    → Locked l (under_lock ps)
    → All (λ p. can_go l p ≡ false) ps
    → All IsBetween ps
none_can-IsBetween absent ps h e = absurd h
none_can-IsBetween released ps h e = All-released ps e
none_can-IsBetween held ps h e = absurd (omega (arith, h, All-held ps e))

remaining_none : (p : Pc) → remaining p ≡ 0 → IsBetween p
remaining_none (returned a) e = after_address
remaining_none (answered success) e = after_answer
remaining_none _ e = absurd (omega (arith, e))

total_none : (ps : List Pc) → total_remaining ps ≡ 0 → All IsBetween ps
total_none [] e = tt
total_none (p ∷ ps) e = (remaining_none p (omega (arith, e)), total_none ps (omega (arith, e)))

remaining_most : (p : Pc) → remaining p ≤ 8
remaining_most (returned a) = omega arith
remaining_most (answered success) = omega arith
remaining_most (got a size site) = omega arith
remaining_most (refused a size) = omega arith
remaining_most (ready node) = omega arith
remaining_most (linking node) = omega arith
remaining_most (storing node next) = omega arith
remaining_most (counting a size) = omega arith
remaining_most (summing a size) = omega arith
remaining_most (leaving a) = omega arith
remaining_most (freeing q) = omega arith
remaining_most (searching q) = omega arith
remaining_most (cutting q node others) = omega arith
remaining_most (giving q node) = omega arith
remaining_most (uncounting q size) = omega arith
remaining_most (unsumming q size) = omega arith
remaining_most (leaving_found q size) = omega arith
remaining_most leaving_absent = omega arith
remaining_most (releasing q size) = omega arith

total_most : (ps : List Pc) → total_remaining ps ≤ 8 * length ps
total_most [] = omega arith
total_most (p ∷ ps) = omega (arith, remaining_most p, total_most ps)

module _ (answers : Heap → Option Addr) (fresh : (h : Heap) → Fresh h (answers h)) where
  abbrev answered_by : Memory → Input
  answered_by m = record { call = free_call null; answer = answers m.heap }

  -- What is left to show after the first move
  abbrev Finishes : ℕ → Type 0
  Finishes n =
      (ps : List Pc) (m : Memory)
      → total_remaining ps ≤ n
      → Standing no_one ps m
      → Returns IsQuiet (drain n answers ps m)

  moved-Finishes :
      (n : ℕ) (ps : List Pc) (r : Run Shared)
      → Finishes n
      → total_remaining ps ≤ suc n
      → Partly (Fewer (total_remaining ps)) r
      → Returns (λ u. Standing no_one u.0 u.1) r
      → Returns IsQuiet (and_then r (λ ps' m'. drain n answers ps' m'))
  moved-Finishes n ps (ok (ps', m')) rest enough less (returns s) =
      rest ps' m' (omega (arith, less, enough)) s
  moved-Finishes n ps fault rest enough less h = elim h [ ]

  chosen-Finishes :
      (n : ℕ) (ps : List Pc) (m : Memory) (o : Option ℕ)
      → Finishes n
      → total_remaining ps ≤ suc n
      → Standing no_one ps m
      → Choice (answered_by m) m ps o
      → Returns IsQuiet (elim o [
        | none ↦ ok (ps, m)
        | some i ↦ and_then (act i (answered_by m) ps m) (λ ps' m'. drain n answers ps' m')
      ])
  chosen-Finishes n ps m none rest enough s c =
      returns (
        Standing-IsQuiet (ps, m) (none_can-IsBetween m.mem_lock ps (Standing-Locked (ps, m) s) c) s)
  chosen-Finishes n ps m (some i) rest enough s c =
      moved-Finishes n ps (act i (answered_by m) ps m) rest enough c
        (acts-Standing (ps, m) i (answered_by m) s (fresh m.heap))

  finishes : (n : ℕ) → Finishes n
  unfolding drain
  finishes zero ps m enough s =
      returns (Standing-IsQuiet (ps, m) (total_none ps (omega (arith, enough))) s)
  finishes (suc n) ps m enough s =
      chosen-Finishes n ps m (next_up m.mem_lock ps) (finishes n) enough s
        (next_up-Choice (answered_by m) m ps)

  -- No order of moves leads to a deadlock. From a state where every thread is between two calls
  -- and the invariant of the list holds, in each state that moves lead to, where the allocator
  -- goes on to answer NULL or a free address, at most eight times as many moves as there are
  -- threads, each of the first thread that need not wait, bring every call to its end without a
  -- fault, and the invariant holds then.
  pub threads_finish :
      {s t : Shared}
      → IsQuiet s
      → Reach s t
      → Returns IsQuiet (drain (8 * length t.0) answers t.0 t.1)
  threads_finish {t = t} q r =
      finishes (8 * length t.0) t.0 t.1 (total_most t.0) (reach-Standing q r)
