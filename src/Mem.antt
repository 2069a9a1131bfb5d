-- ===== src/Mem.antt =====
-- rlmem/src/rlmem.c: allocation with a list of the blocks that are out. The file's own helpers are
-- inlined in the source: a section of code that two functions share is one definition here.
pub mod Target
pub mod Lifecycle
pub mod Invariant
pub mod Table
pub mod Alloc
pub mod Unlink
pub mod Release
pub mod Retag
pub mod Realloc
pub mod Threads
use custom_public_library_rl.Common.{
  ℕ, ◌*◌, ◌%◌, ◌||◌, Option, none, some, List, [], ◌∷◌, ok, ◌==◌, if◌then◌else◌, ℤ, Public,
}
use custom_public_library_rl.Memory.{
  Addr, null, Site, Node, node_size, u32_mod, add_u32, sub_u32, Cmd, pure, ◌>>=◌, ◌>>◌, gets,
  malloc, calloc, free, realloc, lock, unlock,
}

-- The section that records a new block, under the lock.
pub track : Node → Cmd (Unit {0})
track node = do
  lock
  (λ m. ok (
    tt,
    record m {
      header = node ∷ m.header;
      block_count = add_u32 m.block_count 1;
      total_bytes = add_u32 m.total_bytes node.size;
    },
  ))
  unlock

-- What follows a successful allocation of `size` bytes at `a`; `answer` is that of the `malloc`
-- for the node.
pub record_block : Option Addr → Addr → ℕ → Site → Cmd Addr
record_block answer a size site = do
  tracing ← gets (λ m. m.trace_state)
  if tracing
      then (do
        node ← malloc answer node_size
        elim node [
          | none ↦ (do free a; pure null)
          | some n ↦ (do track (record { addr = n; ptr = a; size = size; site = site }); pure a)
        ])
      else pure a

pub rl_malloc : Option Addr → Option Addr → ℕ → Site → Cmd Addr
rl_malloc answer node_answer size site = if size == 0 then pure null else do
  got ← malloc answer size
  elim got [ none ↦ pure null | some a ↦ record_block node_answer a size site ]

pub rl_calloc : Option Addr → Option Addr → ℕ → ℕ → Site → Cmd Addr
rl_calloc answer node_answer block count site = if block == 0 || count == 0 then pure null else do
  let size = (block * count) % u32_mod
  got ← calloc answer block count
  elim got [ none ↦ pure null | some a ↦ record_block node_answer a size site ]

-- The first node of the list for `a`, and the list without it.
unfoldable pub unlink : Addr → List Node → Option (Node × List Node)
unlink a [] = none
unlink a (n ∷ ns) =
    let rest = unlink a ns in
    if n.ptr == a
    then some (n, ns)
    else elim rest [ none ↦ none | some (found, others) ↦ some (found, n ∷ others) ]

-- The list with the first node for `a` made to describe `b`, and the size that the node had.
pub retag : Addr → Addr → ℕ → Site → List Node → Option (ℕ × List Node)
retag a b size site [] = none
retag a b size site (n ∷ ns) =
    let rest = retag a b size site ns in
    if n.ptr == a
    then some (n.size, record n { ptr = b; size = size; site = site } ∷ ns)
    else elim rest [ none ↦ none | some (old, others) ↦ some (old, n ∷ others) ]

module _ ⦃public : Public⦄ where
  open public use {rl_success, rl_failed}

  -- The end of `rl_free` with tracing on, under the lock: the list without the node is stored,
  -- the node is given back and the counters follow.
  pub forget : Node → List Node → Cmd (Unit {0})
  forget node others = do
    (λ m. ok (tt, record m { header = others }))
    free node.addr
    (λ m. ok (
      tt,
      record m {
        block_count = sub_u32 m.block_count 1;
        total_bytes = sub_u32 m.total_bytes node.size;
      },
    ))

  pub rl_free : Addr → Cmd ℤ
  rl_free ptr = if ptr == null then pure rl_failed else do
    tracing ← gets (λ m. m.trace_state)
    if tracing
        then (do
          lock
          found ← gets (λ m. unlink ptr m.header)
          elim found [
            | none ↦ (do unlock; pure rl_failed)
            | some (node, others) ↦ (do forget node others; unlock; free ptr; pure rl_success)
          ])
        else (do free ptr; pure rl_success)

-- The end of `rl_realloc` with tracing on, for the new address `b` of the block `ptr`.
pub record_move : Option Addr → Addr → Addr → ℕ → Site → Cmd Addr
record_move node_answer ptr b size site = do
  lock
  found ← gets (λ m. retag ptr b size site m.header)
  elim found [
    | some (old_size, nodes) ↦ (do
      (λ m. ok (
        tt,
        record m { header = nodes; total_bytes = add_u32 (sub_u32 m.total_bytes old_size) size },
      ))
      unlock
      pure b)
    | none ↦ (do
      unlock
      node ← malloc node_answer node_size
      elim node [
        | none ↦ (do free b; pure null)
        | some n ↦ (do track (record { addr = n; ptr = b; size = size; site = site }); pure b)
      ])
  ]

pub rl_realloc : Option Addr → Option Addr → Addr → ℕ → Site → Cmd Addr
rl_realloc answer node_answer ptr size site =
    if size == 0
    then pure null
    else if ptr == null
    then rl_malloc answer node_answer size site
    else do
      got ← realloc answer ptr size
      elim got [
        | none ↦ pure null
        | some b ↦ (do
          tracing ← gets (λ m. m.trace_state)
          if tracing then record_move node_answer ptr b size site else pure b)
      ]
