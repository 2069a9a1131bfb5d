-- ===== src/Mem/Threads/Schedule.antt =====
-- Threads that are let go on to the end of their calls: who can go, and a schedule.
use custom_public_library_rl.Common.{
  ℕ, zero, suc, Bool, true, false, Option, none, some, List, [], ◌∷◌, ok, if◌then◌else◌,
}
use custom_public_library_rl.Memory.{Addr, null, Heap, Lock, released, Cmd, and_then}
use custom_public_library_rl.Mem.Threads.{free_call, Pc, returned, answered, ready, freeing, act}

abbrev pub is_released : Lock → Bool
is_released released = true
is_released _ = false

-- Whether the thread is in a call and does not wait.
abbrev pub can_go : Lock → Pc → Bool
can_go l (returned a) = false
can_go l (answered success) = false
can_go l (ready node) = is_released l
can_go l (freeing p) = is_released l
can_go l _ = true

abbrev pub raised : Option ℕ → Option ℕ
raised none = none
raised (some i) = some (suc i)

-- The first thread that can go.
abbrev pub next_up : Lock → List Pc → Option ℕ
next_up l [] = none
next_up l (p ∷ ps) = let rest = next_up l ps in if can_go l p then some 0 else raised rest

-- At most `n` moves, each of the first thread that can go.
unfoldable pub drain : ℕ → (Heap → Option Addr) → List Pc → Cmd (List Pc)
drain zero answers ps m = ok (ps, m)
drain (suc n) answers ps m = elim (next_up m.mem_lock ps) [
  | none ↦ ok (ps, m)
  | some i ↦
      and_then (act i (record { call = free_call null; answer = answers m.heap }) ps m)
        (λ ps' m'. drain n answers ps' m')
]
