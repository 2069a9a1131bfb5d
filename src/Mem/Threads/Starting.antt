-- ===== src/Mem/Threads/Starting.antt =====
-- The moves before the lock of `rl_malloc`, `rl_calloc` and `rl_free`.
use custom_public_library_rl.Common.{
  ℕ, ◌*◌, ◌%◌, ◌≡◌, ◌||◌, inl, inr, refl, false, ◌+◌, Option, none, some, Returns, returns, arith,
  leb, ◌==◌, Bool-cases,
}
use custom_public_library_rl.Memory.{
  null, Site, node_size, Lock, absent, released, held, Memory, u32_mod, malloc, calloc, and_then,
  pure,
}
use custom_public_library_rl.Mem.Invariant.{Fresh}
use custom_public_library_rl.Mem.Alloc.{lock_released}
use custom_public_library_rl.Mem.Threads.{
  Call, malloc_call, calloc_call, free_call, Pc, returned, answered, got, refused, freeing, Input,
  got_or, ready_or, begin, waits_on,
}
use custom_public_library_rl.Mem.Threads.Standing.{
  holding, inside, due, excess, due_bytes, excess_bytes, IsFresh, Others, Stands, Next,
}
use custom_public_library_rl.Mem.Threads.Allocating.{Alike, same_place, allocated, noded}

-- The block of the caller, for a size that the program computes as `wrapped`.
block_got :
    (o : Others) (m : Memory) (answer : Option ℕ) (size wrapped : ℕ) (site : Site)
    → Stands o (returned null) m
    → Fresh m.heap answer
    → wrapped ≡ size
    → Returns
        (Next o m)
        (and_then (malloc answer size m) (λ block. pure (got_or block wrapped site)))
unfolding malloc
block_got o m none size wrapped site s f e = returns (s, inl refl)
block_got o m (some a) size wrapped site s f e =
    rw e (returns (allocated o m a size site s f, inl refl))

calloc_begins :
    (o : Others) (m : Memory) (answer : Option ℕ) (block count : ℕ) (site : Site)
    → Stands o (returned null) m
    → Fresh m.heap answer
    → Returns (Next o m) (begin answer (calloc_call block count site) m)
unfolding begin calloc
calloc_begins o m answer block count site s f = elim (Bool-cases (block == 0 || count == 0)) [
  | inl e ↦ rw e (returns (s, inl refl))
  | inr e ↦ elim (Bool-cases (leb u32_mod (block * count))) [
    | inl over ↦ rw (e, over) (returns (s, inl refl))
    | inr fits ↦
        rw (e, fits)
          (block_got o m answer (block * count) ((block * count) % u32_mod) site s f (ground arith))
  ]
]

-- A call begins.
begin-Next :
    (o : Others) (m : Memory) (answer : Option ℕ) (c : Call)
    → Stands o (returned null) m
    → Fresh m.heap answer
    → Returns (Next o m) (begin answer c m)
unfolding begin
begin-Next o m answer (malloc_call size site) s f = elim (Bool-cases (size == 0)) [
  | inl e ↦ rw e (returns (s, inl refl))
  | inr e ↦ rw e (block_got o m answer size size site s f refl)
]
begin-Next o m answer (calloc_call block count site) s f =
    calloc_begins o m answer block count site s f
begin-Next o m answer (free_call p) s f = elim (Bool-cases (p == null)) [
  | inl e ↦ rw e (
      returns (
        same_place o m (returned null) (answered false) (refl, refl, refl, refl, refl, refl) tt s,
        inl refl,
      ))
  | inr e ↦ rw e (
      returns (
        same_place o m (returned null) (freeing p) (refl, refl, refl, refl, refl, refl) tt s,
        inl refl,
      ))
]

pub idle-Next :
    (o : Others) (input : Input) (p : Pc) (m : Memory)
    → Alike p (returned null)
    → Stands o p m
    → Fresh m.heap input.answer
    → Returns (Next o m) (begin input.answer input.call m)
idle-Next o input p m idle s f =
    begin-Next o m input.answer input.call (same_place o m p (returned null) idle tt s) f

pub node_got :
    (o : Others) (m : Memory) (answer : Option ℕ) (a size : ℕ) (site : Site)
    → Stands o (got a size site) m
    → Fresh m.heap answer
    → Returns (Next o m) (and_then (malloc answer node_size m) (λ n. pure (ready_or n a size site)))
unfolding malloc
node_got o m none a size site s f = returns (
  same_place o m (got a size site) (refused a size) (refl, refl, refl, refl, refl, refl) tt s,
  inl refl,
)
node_got o m (some n) a size site s f = returns (noded o m a size n site s f, inl refl)

-- A thread that finds the mutex held stays, else it holds it.
pub waits-Next :
    (o : Others) (p q : Pc) (m : Memory)
    → holding p ≡ holding q
    → inside p ≡ 0
    → inside q ≡ 1
    → (due p ≡ due q) × (excess p ≡ excess q)
    → (due_bytes p ≡ due_bytes q) × (excess_bytes p ≡ excess_bytes q)
    → IsFresh (record m { mem_lock = held }) q
    → (l : Lock) → m.mem_lock ≡ l
    → Stands o p m
    → Returns (Next o m) (waits_on l p q m)
waits-Next o p q m h i j (d, e) (d', e') f absent is s = absurd (rw is at s.lock)
waits-Next o p q m h i j (d, e) (d', e') f held is s = returns (s, inl refl)
waits-Next o p q m h i j (d, e) (d', e') f released is s =
    let alone : inside p + o.inside ≡ 0 = rw is at s.lock in
    rw (lock_released m is) (
      returns (
        record {
          tracing = s.tracing;
          lock = omega (arith, alone, j);
          null_free = s.null_free;
          fits = λ x. rw h at (s.fits x);
          blocks = rw (d, e) at s.blocks;
          bytes = rw (d', e') at s.bytes;
          small_blocks = s.small_blocks;
          small_bytes = s.small_bytes;
          fresh = f;
        },
        inl refl,
      ))
