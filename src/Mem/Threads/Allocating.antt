-- ===== src/Mem/Threads/Allocating.antt =====
-- The moves of `rl_malloc` and `rl_calloc`.
use custom_public_library_rl.Common.{
  ℕ, ◌+◌, ◌≡◌, inl, inr, refl, none, some, [], ◌∷◌, ok, arith, ◌==◌, Bool-cases, ne→==,
}
use custom_public_library_rl.Memory.{Addr, Heap, null, update, Site, node_size, Memory, free}
use custom_public_library_rl.Mem.Invariant.{Fresh}
use custom_public_library_rl.Mem.Alloc.{free_live}
use custom_public_library_rl.Mem.Threads.{Pc, returned, got, ready}
use custom_public_library_rl.Mem.Threads.Claims.{
  count, amount, listed, weight, Fits, Fits-same, Fits-alloc, Fits-live, Fits-free, amount_zero,
}
use custom_public_library_rl.Mem.Threads.Standing.{
  holding, inside, due, excess, due_bytes, excess_bytes, IsFresh, Others, Stands,
}

-- The list and the other threads together.
abbrev pub count_rest : Others → Memory → Addr → ℕ
count_rest o m x = count x (listed m.header) + o.count x

abbrev pub amount_rest : Others → Memory → Addr → ℕ
amount_rest o m x = amount x (listed m.header) + o.amount x

pub rest_sound : (o : Others) (m : Memory) (x : Addr) → count_rest o m x ≡ 0 → amount_rest o m x ≡ 0
rest_sound o m x h =
    omega (arith, amount_zero x (listed m.header) (omega (arith, h)), o.sound x (omega (arith, h)))

-- Two places with the same sums
abbrev pub Alike : Pc → Pc → Type 0
Alike p q =
    (holding p ≡ holding q)
    × (inside p ≡ inside q)
    × (due p ≡ due q)
    × (excess p ≡ excess q)
    × (due_bytes p ≡ due_bytes q)
    × (excess_bytes p ≡ excess_bytes q)

pub same_place :
    (o : Others) (m : Memory) (p q : Pc) → Alike p q → IsFresh m q → Stands o p m → Stands o q m
same_place o m p q (h, i, d, e, d', e') f s = record {
  tracing = s.tracing;
  lock = rw i at s.lock;
  null_free = s.null_free;
  fits = λ x. rw h at (s.fits x);
  blocks = rw (d, e) at s.blocks;
  bytes = rw (d', e') at s.bytes;
  small_blocks = s.small_blocks;
  small_bytes = s.small_bytes;
  fresh = f;
}

-- A block joins what the thread holds.
pub allocated :
    (o : Others) (m : Memory) (a size : ℕ) (site : Site)
    → Stands o (returned null) m
    → Fresh m.heap (some a)
    → Stands o (got a size site) (record m { heap = update m.heap a (some size) })
allocated o m a size site s (unused, nonnull) = record {
  tracing = s.tracing;
  lock = s.lock;
  null_free = rw (ne→== a null nonnull) s.null_free;
  fits = λ x.
      Fits-same
        (Fits-alloc m.heap (count_rest o m) (amount_rest o m) a size
          (λ y. Fits-same (s.fits y) (omega arith) (omega arith)) unused x)
        (omega arith) (omega arith);
  blocks = s.blocks;
  bytes = s.bytes;
  small_blocks = s.small_blocks;
  small_bytes = s.small_bytes;
  fresh = tt;
}

-- A node for the block.
pub noded :
    (o : Others) (m : Memory) (a size n : ℕ) (site : Site)
    → Stands o (got a size site) m
    → Fresh m.heap (some n)
    → Stands o
        (ready (record { addr = n; ptr = a; size = size; site = site }))
        (record m { heap = update m.heap n (some node_size) })
noded o m a size n site s (unused, nonnull) = record {
  tracing = s.tracing;
  lock = s.lock;
  null_free = rw (ne→== n null nonnull) s.null_free;
  fits = λ x.
      Fits-same
        (Fits-alloc m.heap (λ y. count y ((a, size) ∷ []) + count_rest o m y)
          (λ y. amount y ((a, size) ∷ []) + amount_rest o m y) n node_size s.fits unused x)
        (omega arith) (omega arith);
  blocks = s.blocks;
  bytes = s.bytes;
  small_blocks = s.small_blocks;
  small_bytes = s.small_bytes;
  fresh = tt;
}

null_stays : (h : Heap) (a : Addr) → h null ≡ none → update h a none null ≡ none
null_stays h a free_null = elim (Bool-cases (a == null)) [
  | inl e ↦ rw e refl
  | inr e ↦ rw e free_null
]

-- A block that the thread alone holds is given back.
pub gives_back :
    (o : Others) (m : Memory) (p q : Pc) (a size : ℕ)
    → holding p ≡ (a, size) ∷ holding q
    → inside p ≡ inside q
    → (due p ≡ due q) × (excess p ≡ excess q)
    → (due_bytes p ≡ due_bytes q) × (excess_bytes p ≡ excess_bytes q)
    → IsFresh (record m { heap = update m.heap a none }) q
    → Stands o p m
    → (free a m ≡ ok (tt, record m { heap = update m.heap a none }))
      × Stands o q (record m { heap = update m.heap a none })
gives_back o m p q a size hold i (d, e) (d', e') f s =
    let c : Addr → ℕ = λ y. count y (holding q) + count_rest o m y in
    let w : Addr → ℕ = λ y. amount y (holding q) + amount_rest o m y in
    let sound : (y : Addr) → c y ≡ 0 → w y ≡ 0 = λ y h.
      omega (
        arith,
        amount_zero y (holding q) (omega (arith, h)),
        rest_sound o m y (omega (arith, h)),
      ) in
    let fits : (y : Addr) → Fits (m.heap y) (weight y a 1 + c y) (weight y a size + w y) =
      λ y. Fits-same (rw hold at (s.fits y)) (omega arith) (omega arith) in
    let (live, _, _) = Fits-live m.heap c w a size sound fits in
    (
      free_live a size m live,
      record {
        tracing = s.tracing;
        lock = rw i at s.lock;
        null_free = null_stays m.heap a s.null_free;
        fits = Fits-free m.heap c w a size sound fits;
        blocks = rw (d, e) at s.blocks;
        bytes = rw (d', e') at s.bytes;
        small_blocks = s.small_blocks;
        small_bytes = s.small_bytes;
        fresh = f;
      },
    )
