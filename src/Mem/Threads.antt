-- ===== src/Mem/Threads.antt =====
-- rlmem/src/rlmem.c, a shared access at a time: threads that call `rl_malloc`, `rl_calloc` and
-- `rl_free` in any order, with tracing on. A call of the allocator or the mutex is one move, and so
-- is the walk along the list in `rl_free`, which is under the lock.
pub mod Claims
pub mod Standing
pub mod Taken
pub mod Allocating
pub mod Starting
pub mod Recording
pub mod Freeing
pub mod Moves
pub mod Sums
pub mod Acting
pub mod Tracked
pub mod Safety
pub mod Schedule
pub mod Progress
pub mod Finish
pub mod Whole
pub mod Alone
pub mod Race
use custom_public_library_rl.Common.{
  ℕ, zero, suc, ◌*◌, ◌%◌, ◌||◌, Bool, true, false, Option, none, some, List, [], ◌∷◌, ok, ◌==◌,
  if◌then◌else◌,
}
use custom_public_library_rl.Memory.{
  Addr, null, Site, Node, node_size, Lock, held, Memory, u32_mod, add_u32, sub_u32, Cmd, pure,
  ◌>>=◌, ◌>>◌, gets, malloc, calloc, free, lock, unlock,
}
use custom_public_library_rl.Mem.{unlink}

-- What a thread calls.
pub data Call : Type 0 where
  malloc_call : ℕ → Site → Call
  calloc_call : (block count : ℕ) → Site → Call
  free_call : Addr → Call

-- Where a thread stands, with the local variables that are live there. A thread between two calls
-- has `returned` the address of the last one, or `answered` whether it was RL_SUCCESS. The size of
-- a block that is on its way out is kept to the end.
pub data Pc : Type 0 where
  returned : Addr → Pc
  answered : Bool → Pc
  -- `rl_malloc` and `rl_calloc`, from the block to the end of the section under the lock
  got : (a size : ℕ) → Site → Pc
  refused : (a size : ℕ) → Pc
  ready : Node → Pc
  linking : Node → Pc
  storing : Node → List Node → Pc
  counting : (a size : ℕ) → Pc
  summing : (a size : ℕ) → Pc
  leaving : Addr → Pc
  -- `rl_free`, from the lock to the last `free`
  freeing : Addr → Pc
  searching : Addr → Pc
  cutting : Addr → Node → List Node → Pc
  giving : Addr → Node → Pc
  uncounting : (p size : ℕ) → Pc
  unsumming : (p size : ℕ) → Pc
  leaving_found : (p size : ℕ) → Pc
  leaving_absent : Pc
  releasing : (p size : ℕ) → Pc

-- What a move takes from outside: the next call, which counts between two calls, and the answer of
-- the allocator, which counts where the move asks it.
pub record Input : Type 0 where
  pub call : Call
  pub answer : Option Addr

abbrev pub got_or : Option Addr → ℕ → Site → Pc
got_or none size site = returned null
got_or (some a) size site = got a size site

abbrev pub ready_or : Option Addr → Addr → ℕ → Site → Pc
ready_or none a size site = refused a size
ready_or (some n) a size site = ready (record { addr = n; ptr = a; size = size; site = site })

-- The start of a call.
unfoldable pub begin : Option Addr → Call → Cmd Pc
begin answer (malloc_call size site) =
    if size == 0
    then pure (returned null)
    else do block ← malloc answer size; pure (got_or block size site)
begin answer (calloc_call block count site) =
    if block == 0 || count == 0
    then pure (returned null)
    else do a ← calloc answer block count; pure (got_or a ((block * count) % u32_mod) site)
begin answer (free_call p) = if p == null then pure (answered false) else pure (freeing p)

-- `pthread_mutex_lock`: a thread that finds the mutex held stays where it is.
abbrev pub waits_on : Lock → Pc → Pc → Cmd Pc
waits_on held same next = pure same
waits_on _ same next = do lock; pure next

abbrev pub cutting_or : Addr → Option (Node × List Node) → Pc
cutting_or p none = leaving_absent
cutting_or p (some (node, others)) = cutting p node others

-- A move of one thread, with tracing on.
unfoldable pub advance : Input → Pc → Cmd Pc
advance input (returned a) = begin input.answer input.call
advance input (answered success) = begin input.answer input.call
advance input (got a size site) = do
  node ← malloc input.answer node_size
  pure (ready_or node a size site)
advance input (refused a size) = do free a; pure (returned null)
advance input (ready node) = λ m. waits_on m.mem_lock (ready node) (linking node) m
advance input (linking node) = do next ← gets (λ m. m.header); pure (storing node next)
advance input (storing node next) =
    λ m. ok (counting node.ptr node.size, record m { header = node ∷ next })
advance input (counting a size) =
    λ m. ok (summing a size, record m { block_count = add_u32 m.block_count 1 })
advance input (summing a size) =
    λ m. ok (leaving a, record m { total_bytes = add_u32 m.total_bytes size })
advance input (leaving a) = do unlock; pure (returned a)
advance input (freeing p) = λ m. waits_on m.mem_lock (freeing p) (searching p) m
advance input (searching p) = do found ← gets (λ m. unlink p m.header); pure (cutting_or p found)
advance input (cutting p node others) = λ m. ok (giving p node, record m { header = others })
advance input (giving p node) = do free node.addr; pure (uncounting p node.size)
advance input (uncounting p size) =
    λ m. ok (unsumming p size, record m { block_count = sub_u32 m.block_count 1 })
advance input (unsumming p size) =
    λ m. ok (leaving_found p size, record m { total_bytes = sub_u32 m.total_bytes size })
advance input (leaving_found p size) = do unlock; pure (releasing p size)
advance input leaving_absent = do unlock; pure (answered false)
advance input (releasing p size) = do free p; pure (answered true)

-- One move of the thread at a position.
unfoldable pub act : ℕ → Input → List Pc → Cmd (List Pc)
act i input [] = pure []
act zero input (p ∷ ps) = do p' ← advance input p; pure (p' ∷ ps)
act (suc i) input (p ∷ ps) = do ps' ← act i input ps; pure (p ∷ ps')
