-- ===== src/Mem/Threads/Safety.antt =====
-- Runs of several threads that call `rl_malloc`, `rl_calloc` and `rl_free`.
use custom_public_library_rl.Common.{
  ℕ, ◌+◌, ◌≡◌, none, List, [], ◌∷◌, ok, Returns, returns, Returns-map, arith, All,
}
use custom_public_library_rl.Memory.{null, Memory}
use custom_public_library_rl.Mem.Invariant.{IsTracked, Fresh}
use custom_public_library_rl.Mem.Threads.{Pc, Input, act}
use custom_public_library_rl.Mem.Threads.Standing.{inside, IsFresh, Others, Locked}
use custom_public_library_rl.Mem.Threads.Sums.{with_thread, gather, no_one}
use custom_public_library_rl.Mem.Threads.Acting.{Standing, act-Standing}
use custom_public_library_rl.Mem.Threads.Tracked.{
  IsBetween, after_address, after_answer, Balance-IsTracked, IsTracked-Balance,
}

abbrev pub Shared : Type 0
Shared = List Pc × Memory

-- Every thread is between two calls, the list is as a single thread leaves it, and the allocator
-- does not give NULL out as a block.
pub record IsQuiet (s : Shared) : Type 0 where
  pub between : All IsBetween s.0
  pub tracked : IsTracked s.1
  pub null_free : s.1.heap null ≡ none

-- The states that moves of the threads lead to, in any order and with any answers of the allocator
-- that are NULL or free addresses.
pub data Reach (s : Shared) : Shared → Type 0 where
  start : Reach s s
  later :
      {t u : Shared}
      → Reach s t
      → (i : ℕ) (input : Input) → Fresh t.1.heap input.answer
      → act i input t.0 t.1 ≡ ok u
      → Reach s u

-- How many threads are between the lock and the unlock.
abbrev pub under_lock : List Pc → ℕ
under_lock [] = 0
under_lock (p ∷ ps) = inside p + under_lock ps

pub gather_inside : (ps : List Pc) (o : Others) → (gather ps o).inside ≡ under_lock ps + o.inside
gather_inside [] o = omega arith
gather_inside (p ∷ ps) o = omega (arith, gather_inside ps (with_thread p o))

pub Standing-Locked : (s : Shared) → Standing no_one s.0 s.1 → Locked s.1.mem_lock (under_lock s.0)
Standing-Locked s (b, _) =
    let same : (gather s.0 no_one).inside ≡ under_lock s.0 =
      omega (arith, gather_inside s.0 no_one) in
    rw same at b.lock

between-IsFresh : (m : Memory) (p : Pc) → IsBetween p → IsFresh m p
between-IsFresh m p after_address = tt
between-IsFresh m p after_answer = tt

betweens-IsFresh : (m : Memory) (ps : List Pc) → All IsBetween ps → All (IsFresh m) ps
betweens-IsFresh m [] bs = tt
betweens-IsFresh m (p ∷ ps) (b, bs) = (between-IsFresh m p b, betweens-IsFresh m ps bs)

pub quiet-Standing : (s : Shared) → IsQuiet s → Standing no_one s.0 s.1
quiet-Standing s q =
    (IsTracked-Balance s.0 s.1 q.between q.tracked q.null_free, betweens-IsFresh s.1 s.0 q.between)

pub Standing-IsQuiet : (s : Shared) → All IsBetween s.0 → Standing no_one s.0 s.1 → IsQuiet s
Standing-IsQuiet s bs (b, _) = record {
  between = bs;
  tracked = Balance-IsTracked s.0 s.1 bs b;
  null_free = b.null_free;
}

pub acts-Standing :
    (t : Shared) (i : ℕ) (input : Input)
    → Standing no_one t.0 t.1
    → Fresh t.1.heap input.answer
    → Returns (λ u. Standing no_one u.0 u.1) (act i input t.0 t.1)
acts-Standing t i input s f = Returns-map (act-Standing i no_one input t.0 t.1 s f) (λ u h. h.0)

pub reach-Standing : {s t : Shared} → IsQuiet s → Reach s t → Standing no_one t.0 t.1
reach-Standing {s} q start = quiet-Standing s q
reach-Standing q (later {t = t} {u = u} r i input f e) =
    let h : Returns (λ u. Standing no_one u.0 u.1) (ok u) =
      rw e at (acts-Standing t i input (reach-Standing q r) f) in
    elim h [ returns s ↦ s ]

-- From a state where every thread is between two calls and the invariant of the list holds, in
-- each state that any order of moves leads to, a move of any thread returns without a fault, where
-- the allocator answers NULL or a free address: no address is given back that is not allocated,
-- and the mutex is not released where it is not held. After the move the mutex is held and exactly
-- one thread is between lock and unlock, or it is released and none is.
pub threads_exclude :
    {s t : Shared}
    → IsQuiet s
    → Reach s t
    → (i : ℕ) (input : Input) → Fresh t.1.heap input.answer
    → Returns (λ u. Locked u.1.mem_lock (under_lock u.0)) (act i input t.0 t.1)
threads_exclude {t = t} q r i input f =
    Returns-map (acts-Standing t i input (reach-Standing q r) f) Standing-Locked

-- From a state where every thread is between two calls and the invariant of the list holds, it
-- holds in each state that any order of moves leads to and where every thread is between two calls
-- again: the list owns its blocks, and the counters are the number and the bytes of the blocks.
pub threads-IsTracked : {s t : Shared} → IsQuiet s → Reach s t → All IsBetween t.0 → IsTracked t.1
threads-IsTracked {t = t} q r bs = (Standing-IsQuiet t bs (reach-Standing q r)).tracked
