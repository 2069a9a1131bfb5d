-- ===== src/Mem/Threads/Sums.antt =====
-- The sums over several threads.
use custom_public_library_rl.Common.{
  ◌+◌, ◌%◌, ◌<◌, ◌≡◌, refl, sym, ◌∙◌, true, none, List, [], ◌∷◌, length, arith,
}
use custom_public_library_rl.Memory.{Addr, null, Memory, u32_mod}
use custom_public_library_rl.Mem.Invariant.{sum_sizes}
use custom_public_library_rl.Mem.Threads.{Pc}
use custom_public_library_rl.Mem.Threads.Claims.{
  count, amount, listed, Fits, Fits-same, amount_zero,
}
use custom_public_library_rl.Mem.Threads.Standing.{
  holding, inside, due, excess, due_bytes, excess_bytes, IsFresh, Others, Locked, Stands,
}

-- One more thread.
abbrev pub with_thread : Pc → Others → Others
with_thread p o = record {
  inside = inside p + o.inside;
  due = due p + o.due;
  excess = excess p + o.excess;
  due_bytes = due_bytes p + o.due_bytes;
  excess_bytes = excess_bytes p + o.excess_bytes;
  count = λ x. count x (holding p) + o.count x;
  amount = λ x. amount x (holding p) + o.amount x;
  sound = λ x h.
      omega (arith, amount_zero x (holding p) (omega (arith, h)), o.sound x (omega (arith, h)));
}

abbrev pub no_one : Others
no_one = record {
  inside = 0;
  due = 0;
  excess = 0;
  due_bytes = 0;
  excess_bytes = 0;
  count = λ x. 0;
  amount = λ x. 0;
  sound = λ x h. refl;
}

abbrev pub gather : List Pc → Others → Others
gather [] o = o
gather (p ∷ ps) o = gather ps (with_thread p o)

pub record IsSame (o o' : Others) : Type 0 where
  pub inside : o.inside ≡ o'.inside
  pub due : o.due ≡ o'.due
  pub excess : o.excess ≡ o'.excess
  pub due_bytes : o.due_bytes ≡ o'.due_bytes
  pub excess_bytes : o.excess_bytes ≡ o'.excess_bytes
  pub count : (x : Addr) → o.count x ≡ o'.count x
  pub amount : (x : Addr) → o.amount x ≡ o'.amount x

pub IsSame-refl : (o : Others) → IsSame o o
IsSame-refl o = record {
  inside = refl;
  due = refl;
  excess = refl;
  due_bytes = refl;
  excess_bytes = refl;
  count = λ x. refl;
  amount = λ x. refl;
}

pub IsSame-sym : {o o' : Others} → IsSame o o' → IsSame o' o
IsSame-sym s = record {
  inside = sym s.inside;
  due = sym s.due;
  excess = sym s.excess;
  due_bytes = sym s.due_bytes;
  excess_bytes = sym s.excess_bytes;
  count = λ x. sym (s.count x);
  amount = λ x. sym (s.amount x);
}

pub IsSame-trans : {o o' o'' : Others} → IsSame o o' → IsSame o' o'' → IsSame o o''
IsSame-trans s t = record {
  inside = s.inside ∙ t.inside;
  due = s.due ∙ t.due;
  excess = s.excess ∙ t.excess;
  due_bytes = s.due_bytes ∙ t.due_bytes;
  excess_bytes = s.excess_bytes ∙ t.excess_bytes;
  count = λ x. s.count x ∙ t.count x;
  amount = λ x. s.amount x ∙ t.amount x;
}

IsSame-with : (p : Pc) (o o' : Others) → IsSame o o' → IsSame (with_thread p o) (with_thread p o')
IsSame-with p o o' s = record {
  inside = omega (arith, s.inside);
  due = omega (arith, s.due);
  excess = omega (arith, s.excess);
  due_bytes = omega (arith, s.due_bytes);
  excess_bytes = omega (arith, s.excess_bytes);
  count = λ x. omega (arith, s.count x);
  amount = λ x. omega (arith, s.amount x);
}

swap :
    (p q : Pc) (o : Others)
    → IsSame (with_thread q (with_thread p o)) (with_thread p (with_thread q o))
swap p q o = record {
  inside = omega arith;
  due = omega arith;
  excess = omega arith;
  due_bytes = omega arith;
  excess_bytes = omega arith;
  count = λ x. omega arith;
  amount = λ x. omega arith;
}

pub IsSame-gather :
    (ps : List Pc) (o o' : Others) → IsSame o o' → IsSame (gather ps o) (gather ps o')
IsSame-gather [] o o' s = s
IsSame-gather (p ∷ ps) o o' s =
    IsSame-gather ps (with_thread p o) (with_thread p o') (IsSame-with p o o' s)

-- The order of the threads does not matter.
pub gather-with :
    (p : Pc) (ps : List Pc) (o : Others)
    → IsSame (gather ps (with_thread p o)) (with_thread p (gather ps o))
gather-with p [] o = IsSame-refl (with_thread p o)
gather-with p (q ∷ ps) o =
    IsSame-trans
      (IsSame-gather ps (with_thread q (with_thread p o)) (with_thread p (with_thread q o))
        (swap p q o))
      (gather-with p ps (with_thread q o))

-- How all threads together stand to the state.
pub record Balance (o : Others) (m : Memory) : Type 0 where
  pub tracing : m.trace_state ≡ true
  pub lock : Locked m.mem_lock o.inside
  pub null_free : m.heap null ≡ none
  pub fits :
      (x : Addr)
      → Fits
          (m.heap x)
          (count x (listed m.header) + o.count x)
          (amount x (listed m.header) + o.amount x)
  pub blocks : (m.block_count + o.due) % u32_mod ≡ (length m.header + o.excess) % u32_mod
  pub bytes :
      (m.total_bytes + o.due_bytes) % u32_mod ≡ (sum_sizes m.header + o.excess_bytes) % u32_mod
  pub small_blocks : m.block_count < u32_mod
  pub small_bytes : m.total_bytes < u32_mod

pub Balance-same : (o o' : Others) (m : Memory) → IsSame o o' → Balance o m → Balance o' m
Balance-same o o' m e b = record {
  tracing = b.tracing;
  lock = rw (sym e.inside) b.lock;
  null_free = b.null_free;
  fits = λ x. Fits-same (b.fits x) (omega (arith, e.count x)) (omega (arith, e.amount x));
  blocks = omega (arith, b.blocks, e.due, e.excess);
  bytes = omega (arith, b.bytes, e.due_bytes, e.excess_bytes);
  small_blocks = b.small_blocks;
  small_bytes = b.small_bytes;
}

pub Balance-Stands :
    (o : Others) (p : Pc) (m : Memory) → Balance (with_thread p o) m → IsFresh m p → Stands o p m
Balance-Stands o p m b f = record {
  tracing = b.tracing;
  lock = b.lock;
  null_free = b.null_free;
  fits = λ x. Fits-same (b.fits x) (omega arith) (omega arith);
  blocks = b.blocks;
  bytes = b.bytes;
  small_blocks = b.small_blocks;
  small_bytes = b.small_bytes;
  fresh = f;
}

pub Stands-Balance : (o : Others) (p : Pc) (m : Memory) → Stands o p m → Balance (with_thread p o) m
Stands-Balance o p m s = record {
  tracing = s.tracing;
  lock = s.lock;
  null_free = s.null_free;
  fits = λ x. Fits-same (s.fits x) (omega arith) (omega arith);
  blocks = s.blocks;
  bytes = s.bytes;
  small_blocks = s.small_blocks;
  small_bytes = s.small_bytes;
}
