-- ===== src/Mem/Threads/Standing.antt =====
-- How one thread stands to the state, with the others as sums.
use custom_public_library_rl.Common.{
  ℕ, ◌+◌, ◌%◌, ◌<◌, ◌≡◌, ◌⊎◌, true, none, some, List, [], ◌∷◌, length,
}
use custom_public_library_rl.Memory.{
  Addr, null, node_size, Lock, absent, released, held, Memory, u32_mod,
}
use custom_public_library_rl.Mem.{unlink}
use custom_public_library_rl.Mem.Invariant.{sum_sizes}
use custom_public_library_rl.Mem.Threads.{
  Pc, got, refused, ready, linking, storing, counting, summing, leaving, searching, cutting, giving,
  uncounting, unsumming, leaving_found, leaving_absent, releasing,
}
use custom_public_library_rl.Mem.Threads.Claims.{Claim, count, amount, node_claims, listed, Fits}

-- The blocks that a thread alone holds.
abbrev pub holding : Pc → List Claim
holding (got a size site) = (a, size) ∷ []
holding (refused a size) = (a, size) ∷ []
holding (ready node) = node_claims node []
holding (linking node) = node_claims node []
holding (storing node next) = node_claims node []
holding (giving p node) = (node.addr, node_size) ∷ (p, node.size) ∷ []
holding (uncounting p size) = (p, size) ∷ []
holding (unsumming p size) = (p, size) ∷ []
holding (leaving_found p size) = (p, size) ∷ []
holding (releasing p size) = (p, size) ∷ []
holding _ = []

-- Whether the thread is between the lock and the unlock.
abbrev pub inside : Pc → ℕ
inside (linking node) = 1
inside (storing node next) = 1
inside (counting a size) = 1
inside (summing a size) = 1
inside (leaving a) = 1
inside (searching p) = 1
inside (cutting p node others) = 1
inside (giving p node) = 1
inside (uncounting p size) = 1
inside (unsumming p size) = 1
inside (leaving_found p size) = 1
inside leaving_absent = 1
inside _ = 0

-- Nodes that are in the list and not counted yet, and nodes that are counted and out of the list.
abbrev pub due : Pc → ℕ
due (counting a size) = 1
due _ = 0

abbrev pub excess : Pc → ℕ
excess (giving p node) = 1
excess (uncounting p size) = 1
excess _ = 0

abbrev pub due_bytes : Pc → ℕ
due_bytes (counting a size) = size
due_bytes (summing a size) = size
due_bytes _ = 0

abbrev pub excess_bytes : Pc → ℕ
excess_bytes (giving p node) = node.size
excess_bytes (uncounting p size) = size
excess_bytes (unsumming p size) = size
excess_bytes _ = 0

-- What the locals of a thread say about the list.
abbrev pub IsFresh : Memory → Pc → Type 0
IsFresh m (storing node next) = next ≡ m.header
IsFresh m (cutting p node others) = unlink p m.header ≡ some (node, others)
IsFresh m _ = Unit

-- The sums over the other threads.
pub record Others : Type 0 where
  pub inside : ℕ
  pub due : ℕ
  pub excess : ℕ
  pub due_bytes : ℕ
  pub excess_bytes : ℕ
  pub count : Addr → ℕ
  pub amount : Addr → ℕ
  pub sound : (x : Addr) → count x ≡ 0 → amount x ≡ 0

abbrev pub Locked : Lock → ℕ → Type 0
Locked absent n = ⊥
Locked released n = n ≡ 0
Locked held n = n ≡ 1

pub record Stands (o : Others) (p : Pc) (m : Memory) : Type 0 where
  pub tracing : m.trace_state ≡ true
  pub lock : Locked m.mem_lock (inside p + o.inside)
  pub null_free : m.heap null ≡ none
  pub fits :
      (x : Addr)
      → Fits
          (m.heap x)
          (count x (holding p) + (count x (listed m.header) + o.count x))
          (amount x (holding p) + (amount x (listed m.header) + o.amount x))
  pub blocks :
      (m.block_count + (due p + o.due)) % u32_mod
      ≡ (length m.header + (excess p + o.excess)) % u32_mod
  pub bytes :
      (m.total_bytes + (due_bytes p + o.due_bytes)) % u32_mod
      ≡ (sum_sizes m.header + (excess_bytes p + o.excess_bytes)) % u32_mod
  pub small_blocks : m.block_count < u32_mod
  pub small_bytes : m.total_bytes < u32_mod
  pub fresh : IsFresh m p

-- A move leaves the list alone, or no other thread is under the lock.
abbrev pub Undisturbed : Others → Memory → Memory → Type 0
Undisturbed o m m' = (m'.header ≡ m.header) ⊎ (o.inside ≡ 0)

abbrev pub Next : Others → Memory → Pc × Memory → Type 0
Next o m (p, m') = Stands o p m' × Undisturbed o m m'
