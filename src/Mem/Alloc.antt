-- ===== src/Mem/Alloc.antt =====
-- `rl_malloc` and `rl_calloc` keep the invariant and do what the table says.
use custom_public_library_rl.Common.{
  ℕ, ◌*◌, ◌%◌, ◌≡◌, refl, sym, true, ◌||◌, Option, none, some, ◌∷◌, ok, Returns, returns, arith,
  ==→eq, ==_refl, leb, ◌==◌, Bool-cases, inl, inr,
}
use custom_public_library_rl.Memory.{
  Addr, null, Heap, update, Site, Node, node_size, released, held, Memory, u32_mod, add_u32, pure,
  and_then, malloc, calloc, free, lock, unlock,
}
use custom_public_library_rl.Mem.Invariant.{IsTracked, Fresh, Owns-update, Outside-none, Owns-cons}
use custom_public_library_rl.Mem.Table.{Table, view, alloc, alloc_zeroed, grant}
use custom_public_library_rl.Mem.{record_block, rl_malloc, rl_calloc, track}

-- The answers of the two calls of `malloc`: the second comes where the first block is out.
abbrev pub Answers : Heap → Option Addr → ℕ → Option Addr → Type 0
Answers h none size second = Unit
Answers h (some a) size second = Fresh h (some a) × Fresh (update h a (some size)) second

-- The pair of a result and the state that it leaves agrees with a pair of the specification.
abbrev pub Agrees : Addr × Table → Addr × Memory → Type 0
Agrees (a, t) (p, m) = IsTracked m × (p ≡ a) × (view m.header ≡ t)

-- A free of what is allocated succeeds.
pub free_live :
    (a n : ℕ) (m : Memory)
    → m.heap a ≡ some n
    → free a m ≡ ok (tt, record m { heap = update m.heap a none })
unfolding free
free_live a n m live = rw live

pub lock_released :
    (m : Memory) → m.mem_lock ≡ released → lock m ≡ ok (tt, record m { mem_lock = held })
unfolding lock
lock_released m e = rw e

pub unlock_held :
    (m : Memory) → m.mem_lock ≡ held → unlock m ≡ ok (tt, record m { mem_lock = released })
unfolding unlock
unlock_held m e = rw e

pub track_lem :
    (n : Node) (m : Memory)
    → m.mem_lock ≡ released
    → track n m
      ≡ ok (
        tt,
        record m {
          mem_lock = released;
          header = n ∷ m.header;
          block_count = add_u32 m.block_count 1;
          total_bytes = add_u32 m.total_bytes n.size;
        },
      )
unfolding track
track_lem n m e = rw (lock_released m e, unlock_held) refl

record_block_lem :
    (m : Memory) (a size : ℕ) (second : Option Addr) (site : Site)
    → IsTracked m
    → Fresh m.heap (some a)
    → Fresh (update m.heap a (some size)) second
    → Returns
        (Agrees (grant (some a) second size site (view m.header)))
        (record_block second a size site (record m { heap = update m.heap a (some size) }))
unfolding record_block malloc
record_block_lem m a size none site t fresh fresh' =
    let given = record m { trace_state = true; heap = update m.heap a (some size) } in
    let out = Outside-none m.heap a m.header fresh.0 t.owns in
    rw t.tracing (
      rw (free_live a size given (rw (==_refl a))) (
        returns (
          record {
            tracing = refl;
            unlocked = t.unlocked;
            owns =
                Owns-update (update m.heap a (some size)) a none m.header out
                  (Owns-update m.heap a (some size) m.header out t.owns);
            blocks = t.blocks;
            bytes = t.bytes;
          },
          refl,
          refl,
        )))
record_block_lem m a size (some n) site t fresh fresh' =
    let node : Node = record { addr = n; ptr = a; size = size; site = site } in
    let given = record m {
      trace_state = true;
      heap = update (update m.heap a (some size)) n (some node_size);
    } in
    rw t.tracing (
      rw (track_lem node given t.unlocked) (
        returns (
          record {
            tracing = refl;
            unlocked = refl;
            owns = Owns-cons m.heap a n size site m.header fresh fresh' t.owns;
            blocks = omega (arith, t.blocks);
            bytes = omega (arith, t.bytes);
          },
          refl,
          refl,
        )))

-- The common end of the two functions, for a size that the program computes as `wrapped`.
granted :
    (m : Memory) (answer second : Option Addr) (size wrapped : ℕ) (site : Site)
    → IsTracked m
    → Answers m.heap answer size second
    → wrapped ≡ size
    → Returns (Agrees (grant answer second size site (view m.header))) (
        and_then (malloc answer size m) (λ (got : Option Addr). elim got [
          | none ↦ pure null
          | some a ↦ record_block second a wrapped site
        ]))
unfolding malloc
granted m none second size wrapped site t fresh e = returns (t, refl, refl)
granted m (some a) second size wrapped site t (fresh, fresh') e =
    rw e (record_block_lem m a size second site t fresh fresh')

-- From a state that satisfies the invariant, where each answer of the allocator is NULL or an
-- address that is free, `rl_malloc` never faults, keeps the invariant, and returns and records
-- what the table says: a block where its size is not 0 and both it and its node were granted, else
-- NULL and no change to the table.
pub malloc_refines :
    (m : Memory) (answer second : Option Addr) (size : ℕ) (site : Site)
    → IsTracked m
    → Answers m.heap answer size second
    → Returns
        (Agrees (alloc answer second size site (view m.header)))
        (rl_malloc answer second size site m)
unfolding rl_malloc alloc
malloc_refines m answer second size site t fresh = elim (Bool-cases (size == 0)) [
  | inl e ↦ rw e (returns (t, refl, refl))
  | inr e ↦ rw e (granted m answer second size size site t fresh refl)
]

-- From a state that satisfies the invariant, where each answer of the allocator is NULL or an
-- address that is free, `rl_calloc` never faults, keeps the invariant, and returns and records
-- what the table says: a block of the size count times size where neither is 0, the product is
-- below 2^32 and both it and its node were granted, else NULL and no change to the table.
pub calloc_refines :
    (m : Memory) (answer second : Option Addr) (count size : ℕ) (site : Site)
    → IsTracked m
    → Answers m.heap answer (count * size) second
    → Returns
        (Agrees (alloc_zeroed answer second count size site (view m.header)))
        (rl_calloc answer second count size site m)
unfolding rl_calloc alloc_zeroed calloc
calloc_refines m answer second count size site t fresh =
    elim (Bool-cases (count == 0 || size == 0)) [
      | inl e ↦ rw e (returns (t, refl, refl))
      | inr e ↦ elim (Bool-cases (leb u32_mod (count * size))) [
        | inl over ↦ rw (e, over) (returns (t, refl, refl))
        | inr fits ↦
            rw (e, fits)
              (granted m answer second (count * size) ((count * size) % u32_mod) site t fresh
                (ground arith))
      ]
    ]

-- No address changes its block where the result is NULL.
abbrev pub NoLeak : Memory → Addr × Memory → Type 0
NoLeak m (p, m') = p ≡ null → (x : Addr) → m'.heap x ≡ m.heap x

record_block-NoLeak :
    (m : Memory) (a size : ℕ) (second : Option Addr) (site : Site)
    → IsTracked m
    → Fresh m.heap (some a)
    → Returns
        (NoLeak m)
        (record_block second a size site (record m { heap = update m.heap a (some size) }))
unfolding record_block malloc
record_block-NoLeak m a size none site t (unused, nonnull) =
    let given = record m { trace_state = true; heap = update m.heap a (some size) } in
    rw t.tracing (
      rw (free_live a size given (rw (==_refl a))) (
        returns (λ _ x. elim (Bool-cases (a == x)) [
          | inl e ↦ rw e (sym (rw (sym (==→eq a x e)) unused))
          | inr e ↦ rw e refl
        ])))
record_block-NoLeak m a size (some n) site t (unused, nonnull) =
    let node : Node = record { addr = n; ptr = a; size = size; site = site } in
    let given = record m {
      trace_state = true;
      heap = update (update m.heap a (some size)) n (some node_size);
    } in
    rw t.tracing (rw (track_lem node given t.unlocked) (returns (λ e. absurd (nonnull e))))

-- From a state that satisfies the invariant, where the first answer of the allocator is NULL or an
-- address that is free, and `rl_malloc` returns NULL, each address holds what it held before: the
-- block is given back when there is no room for its node.
pub malloc-NoLeak :
    (m : Memory) (answer second : Option Addr) (size : ℕ) (site : Site)
    → IsTracked m
    → Fresh m.heap answer
    → Returns (NoLeak m) (rl_malloc answer second size site m)
unfolding rl_malloc malloc
malloc-NoLeak m none second size site t fresh = elim (Bool-cases (size == 0)) [
  | inl e ↦ rw e (returns (λ _ x. refl))
  | inr e ↦ rw e (returns (λ _ x. refl))
]
malloc-NoLeak m (some a) second size site t fresh = elim (Bool-cases (size == 0)) [
  | inl e ↦ rw e (returns (λ _ x. refl))
  | inr e ↦ rw e (record_block-NoLeak m a size second site t fresh)
]
