-- ===== src/Mem/Threads/Freeing.antt =====
-- The moves of `rl_free` under the lock and after it.
use custom_public_library_rl.Common.{
  ℕ, ◌+◌, ◌-◌, ◌%◌, ◌≡◌, inl, inr, refl, sym, Option, none, some, List, ◌∷◌, Returns, returns,
  arith,
}
use custom_public_library_rl.Memory.{
  Addr, Node, update, Memory, u32_mod, sub_u32, and_then, pure, free,
}
use custom_public_library_rl.Mem.{unlink}
use custom_public_library_rl.Mem.Threads.{
  Pc, searching, cutting, cutting_or, giving, uncounting, unsumming, leaving_found, leaving_absent,
}
use custom_public_library_rl.Mem.Threads.Claims.{Fits-same}
use custom_public_library_rl.Mem.Threads.Taken.{unlink-Taken}
use custom_public_library_rl.Mem.Threads.Standing.{
  holding, inside, due, excess, due_bytes, excess_bytes, IsFresh, Others, Stands, Next,
}
use custom_public_library_rl.Mem.Threads.Allocating.{same_place, gives_back}
use custom_public_library_rl.Mem.Threads.Recording.{Locked-alone, small_u32}

cutting_or-Next :
    (o : Others) (p : Addr) (m : Memory) (found : Option (Node × List Node))
    → unlink p m.header ≡ found
    → Stands o (searching p) m
    → Next o m (cutting_or p found, m)
cutting_or-Next o p m none e s = (
  same_place o m (searching p) leaving_absent (refl, refl, refl, refl, refl, refl) tt s,
  inl refl,
)
cutting_or-Next o p m (some (node, others)) e s = (
  same_place o m (searching p) (cutting p node others) (refl, refl, refl, refl, refl, refl) e s,
  inl refl,
)

pub searching-Next :
    (o : Others) (p : Addr) (m : Memory)
    → Stands o (searching p) m
    → Next o m (cutting_or p (unlink p m.header), m)
searching-Next o p m s = cutting_or-Next o p m (unlink p m.header) refl s

pub cutting-Next :
    (o : Others) (p : Addr) (node : Node) (others : List Node) (m : Memory)
    → Stands o (cutting p node others) m
    → Next o m (giving p node, record m { header = others })
cutting-Next o p node others m s =
    let t = unlink-Taken p m.header node others s.fresh in
    let (_, none_inside) = Locked-alone m.mem_lock o.inside s.lock in
    let same : node.ptr ≡ p = t.found in
    (
      record {
        tracing = s.tracing;
        lock = s.lock;
        null_free = s.null_free;
        fits = λ x.
            rw (sym same)
              (Fits-same (s.fits x) (omega (arith, t.counts x)) (omega (arith, t.amounts x)));
        blocks = omega (arith, s.blocks, t.length_lem);
        bytes = omega (arith, s.bytes, t.sizes);
        small_blocks = s.small_blocks;
        small_bytes = s.small_bytes;
        fresh = tt;
      },
      inr none_inside,
    )

-- A `free` of a block that the thread holds.
pub frees-Next :
    (o : Others) (p q : Pc) (m : Memory) (a size : ℕ)
    → holding p ≡ (a, size) ∷ holding q
    → inside p ≡ inside q
    → (due p ≡ due q) × (excess p ≡ excess q)
    → (due_bytes p ≡ due_bytes q) × (excess_bytes p ≡ excess_bytes q)
    → ((m : Memory) → IsFresh m q)
    → Stands o p m
    → Returns (Next o m) (and_then (free a m) (λ _. pure q))
frees-Next o p q m a size hold i d d' f s =
    let (freed, s') =
      gives_back o m p q a size hold i d d' (f (record m { heap = update m.heap a none })) s in
    rw freed (returns (s', inl refl))

pub uncounting-Next :
    (o : Others) (p size : ℕ) (m : Memory)
    → Stands o (uncounting p size) m
    → Next o m (unsumming p size, record m { block_count = sub_u32 m.block_count 1 })
uncounting-Next o p size m s = (
  record {
    tracing = s.tracing;
    lock = s.lock;
    null_free = s.null_free;
    fits = s.fits;
    blocks = omega (arith, s.blocks, s.small_blocks);
    bytes = s.bytes;
    small_blocks = small_u32 (m.block_count + (u32_mod - 1 % u32_mod));
    small_bytes = s.small_bytes;
    fresh = tt;
  },
  inl refl,
)

pub unsumming-Next :
    (o : Others) (p size : ℕ) (m : Memory)
    → Stands o (unsumming p size) m
    → Next o m (leaving_found p size, record m { total_bytes = sub_u32 m.total_bytes size })
unsumming-Next o p size m s = (
  record {
    tracing = s.tracing;
    lock = s.lock;
    null_free = s.null_free;
    fits = s.fits;
    blocks = s.blocks;
    bytes = omega (arith, s.bytes, s.small_bytes);
    small_blocks = s.small_blocks;
    small_bytes = small_u32 (m.total_bytes + (u32_mod - size % u32_mod));
    fresh = tt;
  },
  inl refl,
)
