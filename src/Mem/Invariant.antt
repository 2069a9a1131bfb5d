-- ===== src/Mem/Invariant.antt =====
-- The invariant of the list of blocks, and how it stands when the heap changes elsewhere.
use custom_public_library_rl.Common.{
  ℕ, ◌+◌, ◌%◌, ◌≡◌, ◌≢◌, sym, true, Option, none, some, List, [], ◌∷◌, arith, length, All, ne→==,
  ==_refl,
}
use custom_public_library_rl.Memory.{
  Addr, null, Heap, update, Site, Node, node_size, released, Memory, u32_mod,
}

-- A node's own block and the block that it describes are allocated, and are two blocks.
abbrev pub Holds : Heap → Node → Type 0
Holds h n =
    (h n.addr ≡ some node_size) × (h n.ptr ≡ some n.size) × (n.ptr ≢ n.addr) × (n.ptr ≢ null)

-- Two nodes share no block.
abbrev pub Apart : Node → Node → Type 0
Apart n m = (n.ptr ≢ m.ptr) × (n.ptr ≢ m.addr) × (n.addr ≢ m.ptr) × (n.addr ≢ m.addr)

abbrev pub Owns : Heap → List Node → Type 0
Owns h [] = Unit
Owns h (n ∷ ns) = Holds h n × All (Apart n) ns × Owns h ns

-- `a` is none of the addresses of the nodes and their blocks.
abbrev pub Outside : Addr → List Node → Type 0
Outside a = All (λ n. (a ≢ n.ptr) × (a ≢ n.addr))

abbrev pub sum_sizes : List Node → ℕ
sum_sizes [] = 0
sum_sizes (n ∷ ns) = n.size + sum_sizes ns

-- Tracing is on, no one holds the lock, the list owns its blocks, and the counters are the number
-- and the total size of the blocks, modulo 2^32.
pub record IsTracked (m : Memory) : Type 0 where
  pub tracing : m.trace_state ≡ true
  pub unlocked : m.mem_lock ≡ released
  pub owns : Owns m.heap m.header
  pub blocks : m.block_count ≡ length m.header % u32_mod
  pub bytes : m.total_bytes ≡ sum_sizes m.header % u32_mod

-- An answer of `malloc`: NULL, or an address that is not allocated.
abbrev pub Fresh : Heap → Option Addr → Type 0
Fresh h none = Unit
Fresh h (some a) = (h a ≡ none) × (a ≢ null)

pub Owns-update :
    (h : Heap) (a : Addr) (c : Option ℕ) (ns : List Node)
    → Outside a ns
    → Owns h ns
    → Owns (update h a c) ns
Owns-update h a c [] out owns = tt
Owns-update h a c (n ∷ ns) ((p, q), out) ((node, live, two, ptr), apart, owns) = (
  (rw (ne→== a n.addr q) node, rw (ne→== a n.ptr p) live, two, ptr),
  apart,
  Owns-update h a c ns out owns,
)

pub Outside-none : (h : Heap) (a : Addr) (ns : List Node) → h a ≡ none → Owns h ns → Outside a ns
Outside-none h a [] unused owns = tt
Outside-none h a (n ∷ ns) unused ((node, live, two, ptr), apart, owns) =
    ((λ e. cc, λ e. cc), Outside-none h a ns unused owns)

pub All-Apart :
    (a n size : ℕ) (site : Site) (ns : List Node)
    → Outside a ns
    → Outside n ns
    → All (Apart (record { addr = n; ptr = a; size = size; site = site })) ns
All-Apart a n size site [] out out' = tt
All-Apart a n size site (m ∷ ns) ((p, q), out) ((p', q'), out') =
    ((p, q, p', q'), All-Apart a n size site ns out out')

-- A node for two fresh blocks joins the list.
pub Owns-cons :
    (h : Heap) (a n size : ℕ) (site : Site) (ns : List Node)
    → Fresh h (some a)
    → Fresh (update h a (some size)) (some n)
    → Owns h ns
    → Owns
        (update (update h a (some size)) n (some node_size))
        (record { addr = n; ptr = a; size = size; site = site } ∷ ns)
Owns-cons h a n size site ns (unused, nonnull) (unused', nonnull') owns =
    let ne : a ≢ n = λ e. ground arith in
    let unused_n : h n ≡ none = rw (ne→== a n ne) at unused' in
    let out = Outside-none h a ns unused owns in
    let out' = Outside-none h n ns unused_n owns in
    (
      (rw (==_refl n), rw (ne→== n a (λ e. ne (sym e)), ==_refl a), ne, nonnull),
      All-Apart a n size site ns out out',
      Owns-update (update h a (some size)) n (some node_size) ns out'
          (Owns-update h a (some size) ns out owns),
    )
