-- ===== src/Mem/Threads/Progress.antt =====
-- Threads that are let go on to the end of their calls.
use custom_public_library_rl.Common.{
  ℕ, ◌+◌, ◌≡◌, ◌<◌, true, false, false≢true, Option, none, some, List, [], ◌∷◌, Run, ok, fault,
  arith,
}
use custom_public_library_rl.Memory.{
  Site, Node, node_size, Lock, absent, released, held, Memory, pure, and_then, malloc, free, lock,
  unlock,
}
use custom_public_library_rl.Mem.{unlink}
use custom_public_library_rl.Mem.Threads.Schedule.{is_released, can_go}
use custom_public_library_rl.Mem.Threads.{
  Pc, returned, answered, got, refused, ready, linking, storing, counting, summing, leaving,
  freeing, searching, cutting, giving, uncounting, unsumming, leaving_found, leaving_absent,
  releasing, Input, ready_or, cutting_or, waits_on, advance,
}

-- How many moves a call still has, those that wait aside.
abbrev pub remaining : Pc → ℕ
remaining (returned a) = 0
remaining (answered success) = 0
remaining (got a size site) = 7
remaining (refused a size) = 1
remaining (ready node) = 6
remaining (linking node) = 5
remaining (storing node next) = 4
remaining (counting a size) = 3
remaining (summing a size) = 2
remaining (leaving a) = 1
remaining (freeing p) = 8
remaining (searching p) = 7
remaining (cutting p node others) = 6
remaining (giving p node) = 5
remaining (uncounting p size) = 4
remaining (unsumming p size) = 3
remaining (leaving_found p size) = 2
remaining leaving_absent = 1
remaining (releasing p size) = 1

abbrev pub total_remaining : List Pc → ℕ
total_remaining [] = 0
total_remaining (p ∷ ps) = remaining p + total_remaining ps

-- What holds of the result of a run that does not fault
abbrev pub Partly : {A : Type 0} → (A → Type 0) → Run A → Type 0
Partly P (ok a) = P a
Partly P fault = Unit

abbrev pub Shrinks : ℕ → Pc × Memory → Type 0
Shrinks n (p, m) = remaining p < n

then-Shrinks :
    {A : Type 0} {n : ℕ} (r : Run (A × Memory)) (p : Pc)
    → remaining p < n
    → Partly (Shrinks n) (and_then r (λ _. pure p))
then-Shrinks (ok (a, m)) p less = less
then-Shrinks fault p less = tt

ready-Shrinks :
    (r : Run (Option ℕ × Memory)) (a size : ℕ) (site : Site)
    → Partly (Shrinks 7) (and_then r (λ n. pure (ready_or n a size site)))
ready-Shrinks (ok (none, m)) a size site = omega arith
ready-Shrinks (ok (some n, m)) a size site = omega arith
ready-Shrinks fault a size site = tt

waits-Shrinks :
    (l : Lock) (n : ℕ) (m : Memory) (p q : Pc)
    → is_released l ≡ true
    → remaining q < n
    → Partly (Shrinks n) (waits_on l p q m)
waits-Shrinks absent n m p q e less = absurd (false≢true e)
waits-Shrinks released n m p q e less = then-Shrinks (lock m) q less
waits-Shrinks held n m p q e less = absurd (false≢true e)

cutting_shrinks : (p : ℕ) (found : Option (Node × List Node)) → remaining (cutting_or p found) < 7
cutting_shrinks p none = omega arith
cutting_shrinks p (some (n, others)) = omega arith

-- A thread that can go comes nearer to the end of its call.
pub advance-Shrinks :
    (input : Input) (p : Pc) (m : Memory)
    → can_go m.mem_lock p ≡ true
    → Partly (Shrinks (remaining p)) (advance input p m)
unfolding advance
advance-Shrinks input (returned a) m e = absurd (false≢true e)
advance-Shrinks input (answered success) m e = absurd (false≢true e)
advance-Shrinks input (got a size site) m e =
    ready-Shrinks (malloc input.answer node_size m) a size site
advance-Shrinks input (refused a size) m e = then-Shrinks (free a m) (returned 0) (omega arith)
advance-Shrinks input (ready node) m e =
    waits-Shrinks m.mem_lock 6 m (ready node) (linking node) e (omega arith)
advance-Shrinks input (linking node) m e = omega arith
advance-Shrinks input (storing node next) m e = omega arith
advance-Shrinks input (counting a size) m e = omega arith
advance-Shrinks input (summing a size) m e = omega arith
advance-Shrinks input (leaving a) m e = then-Shrinks (unlock m) (returned a) (omega arith)
advance-Shrinks input (freeing p) m e =
    waits-Shrinks m.mem_lock 8 m (freeing p) (searching p) e (omega arith)
advance-Shrinks input (searching p) m e = cutting_shrinks p (unlink p m.header)
advance-Shrinks input (cutting p node others) m e = omega arith
advance-Shrinks input (giving p node) m e =
    then-Shrinks (free node.addr m) (uncounting p node.size) (omega arith)
advance-Shrinks input (uncounting p size) m e = omega arith
advance-Shrinks input (unsumming p size) m e = omega arith
advance-Shrinks input (leaving_found p size) m e =
    then-Shrinks (unlock m) (releasing p size) (omega arith)
advance-Shrinks input leaving_absent m e = then-Shrinks (unlock m) (answered false) (omega arith)
advance-Shrinks input (releasing p size) m e = then-Shrinks (free p m) (answered true) (omega arith)
