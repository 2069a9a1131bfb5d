-- ===== src/Mem/Threads/Recording.antt =====
-- The moves of `rl_malloc` and `rl_calloc` under the lock.
use custom_public_library_rl.Common.{
  ℕ, ◌+◌, ◌%◌, ◌<◌, ◌≡◌, inl, inr, refl, List, ◌∷◌, Returns, returns, arith,
}
use custom_public_library_rl.Memory.{
  Node, Lock, absent, released, held, Memory, u32_mod, add_u32, and_then, pure, unlock,
}
use custom_public_library_rl.Mem.Alloc.{unlock_held}
use custom_public_library_rl.Mem.Threads.{Pc, storing, linking, counting, summing, leaving}
use custom_public_library_rl.Mem.Threads.Claims.{Fits-same}
use custom_public_library_rl.Mem.Threads.Standing.{
  holding, inside, due, excess, due_bytes, excess_bytes, IsFresh, Others, Locked, Stands, Next,
}
use custom_public_library_rl.Mem.Threads.Allocating.{same_place}

-- A thread under the lock is alone there.
pub Locked-alone : (l : Lock) (n : ℕ) → Locked l (1 + n) → (l ≡ held) × (n ≡ 0)
Locked-alone absent n e = absurd e
Locked-alone released n e = absurd (omega arith)
Locked-alone held n e = (refl, omega arith)

pub small_u32 : (n : ℕ) → n % u32_mod < u32_mod
small_u32 n = ground arith

pub linking-Next :
    (o : Others) (node : Node) (m : Memory)
    → Stands o (linking node) m
    → Next o m (storing node m.header, m)
linking-Next o node m s = (
  same_place o m (linking node) (storing node m.header) (refl, refl, refl, refl, refl, refl) refl s,
  inl refl,
)

linked :
    (o : Others) (node : Node) (m : Memory)
    → Stands o (storing node m.header) m
    → Stands o (counting node.ptr node.size) (record m { header = node ∷ m.header })
linked o node m s = record {
  tracing = s.tracing;
  lock = s.lock;
  null_free = s.null_free;
  fits = λ x. Fits-same (s.fits x) (omega arith) (omega arith);
  blocks = omega (arith, s.blocks);
  bytes = omega (arith, s.bytes);
  small_blocks = s.small_blocks;
  small_bytes = s.small_bytes;
  fresh = tt;
}

pub storing-Next :
    (o : Others) (node : Node) (next : List Node) (m : Memory)
    → Stands o (storing node next) m
    → Next o m (counting node.ptr node.size, record m { header = node ∷ next })
storing-Next o node next m s =
    let same : next ≡ m.header = s.fresh in
    let (_, none_inside) = Locked-alone m.mem_lock o.inside s.lock in
    rw same (linked o node m (rw same at s), inr none_inside)

pub counting-Next :
    (o : Others) (a size : ℕ) (m : Memory)
    → Stands o (counting a size) m
    → Next o m (summing a size, record m { block_count = add_u32 m.block_count 1 })
counting-Next o a size m s = (
  record {
    tracing = s.tracing;
    lock = s.lock;
    null_free = s.null_free;
    fits = s.fits;
    blocks = omega (arith, s.blocks);
    bytes = s.bytes;
    small_blocks = small_u32 (m.block_count + 1);
    small_bytes = s.small_bytes;
    fresh = tt;
  },
  inl refl,
)

pub summing-Next :
    (o : Others) (a size : ℕ) (m : Memory)
    → Stands o (summing a size) m
    → Next o m (leaving a, record m { total_bytes = add_u32 m.total_bytes size })
summing-Next o a size m s = (
  record {
    tracing = s.tracing;
    lock = s.lock;
    null_free = s.null_free;
    fits = s.fits;
    blocks = s.blocks;
    bytes = omega (arith, s.bytes);
    small_blocks = s.small_blocks;
    small_bytes = small_u32 (m.total_bytes + size);
    fresh = tt;
  },
  inl refl,
)

-- The lock is given back.
pub leaves :
    (o : Others) (p q : Pc) (m : Memory)
    → holding p ≡ holding q
    → inside p ≡ 1
    → inside q ≡ 0
    → (due p ≡ due q) × (excess p ≡ excess q)
    → (due_bytes p ≡ due_bytes q) × (excess_bytes p ≡ excess_bytes q)
    → IsFresh (record m { mem_lock = released }) q
    → Stands o p m
    → Returns (Next o m) (and_then (unlock m) (λ _. pure q))
leaves o p q m h i j (d, e) (d', e') f s =
    let locked : Locked m.mem_lock (1 + o.inside) = rw i at s.lock in
    let (is_held, alone) = Locked-alone m.mem_lock o.inside locked in
    rw (unlock_held m is_held) (
      returns (
        record {
          tracing = s.tracing;
          lock = omega (arith, alone, j);
          null_free = s.null_free;
          fits = λ x. rw h at (s.fits x);
          blocks = rw (d, e) at s.blocks;
          bytes = rw (d', e') at s.bytes;
          small_blocks = s.small_blocks;
          small_bytes = s.small_bytes;
          fresh = f;
        },
        inl refl,
      ))
