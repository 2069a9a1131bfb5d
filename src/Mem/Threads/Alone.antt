-- ===== src/Mem/Threads/Alone.antt =====
-- A thread alone, next to `rl_malloc`, `rl_calloc` and `rl_free` in one piece.
use custom_public_library_rl.Common.{
  ℕ, suc, ◌*◌, ◌%◌, ◌≡◌, refl, sym, ap₂, subst, inl, inr, Bool, true, false, ◌||◌, Option, none,
  some, List, Run, ok, fault, Bool-cases, leb, ◌==◌, Public,
}
use custom_public_library_rl.Memory.{
  Addr, null, Heap, Site, Node, update, sub_u32, Lock, released, Memory, u32_mod, pure, and_then,
  malloc, calloc, free, lock, unlock,
}
use custom_public_library_rl.Mem.{
  unlink, track, record_block, rl_malloc, rl_calloc, forget, rl_free,
}
use custom_public_library_rl.Mem.Threads.{
  Call, malloc_call, calloc_call, free_call, returned, answered, got, freeing, got_or, begin,
  advance,
}
use custom_public_library_rl.Mem.Threads.Whole.{goes, call_alone, outcome, whole}

module _ ⦃public : Public⦄ where
  open public use {rl_success, rl_failed}

  -- Tracing is on and the mutex is free.
  abbrev at : List Node → (blocks bytes : ℕ) → Heap → Memory
  at ns blocks bytes h = record {
    trace_state = true;
    mem_lock = released;
    header = ns;
    block_count = blocks;
    total_bytes = bytes;
    heap = h;
  }

  abbrev Same : Option Addr → Option Addr → Call → Memory → Type 0
  Same answer second c m =
      and_then (call_alone answer second c m) (λ p. pure (outcome p)) ≡ whole answer second c m

  -- A last `free`, whatever it gives
  last_free :
      (r : Run (Unit {0} × Memory)) (second : Option Addr) (n : ℕ) (a : Addr)
      → and_then
          (and_then (and_then r (λ _. pure (returned a))) (λ q m'. goes (suc n) second q m'))
          (λ p. pure (outcome p))
        ≡ and_then (and_then r (λ _. pure a)) (λ b. pure (inl b))
  unfolding goes
  last_free (ok (_, m)) second n a = refl
  last_free fault second n a = refl

  last_free_answer :
      (r : Run (Unit {0} × Memory)) (second : Option Addr)
      → and_then
          (and_then (and_then r (λ _. pure (answered true))) (λ q m'. goes 0 second q m'))
          (λ p. pure (outcome p))
        ≡ and_then (and_then r (λ _. pure rl_success)) (λ b. pure (inr b))
  unfolding goes
  last_free_answer (ok (_, m)) second = refl
  last_free_answer fault second = refl

  -- From the block to the end
  blocked :
      (second : Option Addr) (a size : ℕ) (site : Site) (ns : List Node) (blocks bytes : ℕ)
      (h : Heap)
      → and_then (goes 8 second (got a size site) (at ns blocks bytes h)) (λ p. pure (outcome p))
        ≡ and_then (record_block second a size site (at ns blocks bytes h)) (λ b. pure (inl b))
  unfolding goes advance record_block track malloc lock unlock
  blocked none a size site ns blocks bytes h = last_free (free a (at ns blocks bytes h)) none 5 null
  blocked (some n) a size site ns blocks bytes h = refl

  -- From the lock of `rl_free` to the end
  found_at :
      (second : Option Addr) (p : Addr) (n : Node) (others ns : List Node) (blocks bytes : ℕ)
      (h : Heap)
      → unlink p ns ≡ some (n, others)
      → (p == null) ≡ false
      → (v : Option ℕ) → h n.addr ≡ v
      → and_then (goes 8 second (freeing p) (at ns blocks bytes h)) (λ q. pure (outcome q))
        ≡ and_then (rl_free p (at ns blocks bytes h)) (λ r. pure (inr r))
  unfolding goes advance rl_free forget lock unlock free
  found_at second p n others ns blocks bytes h e nonnull none e' = rw (nonnull, e, e') refl
  found_at second p n others ns blocks bytes h e nonnull (some s) e' =
      rw (nonnull, e, e')
        (last_free_answer
          (free p (record {
            trace_state = true;
            mem_lock = released;
            header = others;
            block_count = sub_u32 blocks 1;
            total_bytes = sub_u32 bytes n.size;
            heap = update h n.addr none;
          }))
          second)

  absent_at :
      (second : Option Addr) (p : Addr) (ns : List Node) (blocks bytes : ℕ) (h : Heap)
      → unlink p ns ≡ none
      → (p == null) ≡ false
      → and_then (goes 8 second (freeing p) (at ns blocks bytes h)) (λ q. pure (outcome q))
        ≡ and_then (rl_free p (at ns blocks bytes h)) (λ r. pure (inr r))
  unfolding goes advance rl_free lock unlock
  absent_at second p ns blocks bytes h e nonnull = rw (nonnull, e) refl

  free_alone :
      (second : Option Addr) (p : Addr) (ns : List Node) (blocks bytes : ℕ) (h : Heap)
      → (p == null) ≡ false
      → (found : Option (Node × List Node)) → unlink p ns ≡ found
      → and_then (goes 8 second (freeing p) (at ns blocks bytes h)) (λ q. pure (outcome q))
        ≡ and_then (rl_free p (at ns blocks bytes h)) (λ r. pure (inr r))
  free_alone second p ns blocks bytes h nonnull none e =
      absent_at second p ns blocks bytes h e nonnull
  free_alone second p ns blocks bytes h nonnull (some (n, others)) e =
      found_at second p n others ns blocks bytes h e nonnull (h n.addr) refl

  no_block :
      (second : Option Addr) (m : Memory)
      → and_then (goes 8 second (returned null) m) (λ p. pure (outcome p)) ≡ ok (inl null, m)
  unfolding goes
  no_block second m = refl

  -- The block of the caller and what follows it
  granted_alone :
      (answer second : Option Addr) (size wrapped : ℕ) (site : Site) (ns : List Node)
      (blocks bytes : ℕ) (h : Heap)
      → and_then
          (and_then
            (and_then
              (malloc answer size (at ns blocks bytes h))
              (λ block. pure (got_or block wrapped site)))
            (λ p m'. goes 8 second p m'))
          (λ p. pure (outcome p))
        ≡ and_then
            (and_then (malloc answer size (at ns blocks bytes h)) (λ (block : Option Addr).
              elim block [ none ↦ pure null | some a ↦ record_block second a wrapped site ]))
            (λ a. pure (inl a))
  unfolding malloc
  granted_alone none second size wrapped site ns blocks bytes h =
      no_block second (at ns blocks bytes h)
  granted_alone (some a) second size wrapped site ns blocks bytes h =
      blocked second a wrapped site ns blocks bytes (update h a (some size))

  malloc_alone :
      (answer second : Option Addr) (size : ℕ) (site : Site) (ns : List Node) (blocks bytes : ℕ)
      (h : Heap)
      → Same answer second (malloc_call size site) (at ns blocks bytes h)
  unfolding call_alone begin rl_malloc
  malloc_alone answer second size site ns blocks bytes h = elim (Bool-cases (size == 0)) [
    | inl e ↦ rw e (no_block second (at ns blocks bytes h))
    | inr e ↦ rw e (granted_alone answer second size size site ns blocks bytes h)
  ]

  calloc_alone :
      (answer second : Option Addr) (block count : ℕ) (site : Site) (ns : List Node)
      (blocks bytes : ℕ) (h : Heap)
      → Same answer second (calloc_call block count site) (at ns blocks bytes h)
  unfolding call_alone begin rl_calloc calloc
  calloc_alone answer second block count site ns blocks bytes h =
      let m = at ns blocks bytes h in
      let size = block * count in
      elim (Bool-cases (block == 0 || count == 0)) [
        | inl e ↦ rw e (no_block second m)
        | inr e ↦ elim (Bool-cases (leb u32_mod size)) [
          | inl over ↦ rw (e, over) (no_block second m)
          | inr fits ↦
              rw (e, fits)
                (granted_alone answer second size (size % u32_mod) site ns blocks bytes h)
        ]
      ]

  null_alone :
      (answer second : Option Addr) (p : Addr) (m : Memory)
      → (p == null) ≡ true
      → Same answer second (free_call p) m
  unfolding call_alone begin goes rl_free
  null_alone answer second p m e = rw e refl

  nonnull_alone :
      (answer second : Option Addr) (p : Addr) (ns : List Node) (blocks bytes : ℕ) (h : Heap)
      → (p == null) ≡ false
      → Same answer second (free_call p) (at ns blocks bytes h)
  unfolding call_alone begin
  nonnull_alone answer second p ns blocks bytes h e =
      rw e (free_alone second p ns blocks bytes h e (unlink p ns) refl)

  at_alone :
      (answer second : Option Addr) (c : Call) (ns : List Node) (blocks bytes : ℕ) (h : Heap)
      → Same answer second c (at ns blocks bytes h)
  at_alone answer second (malloc_call size site) ns blocks bytes h =
      malloc_alone answer second size site ns blocks bytes h
  at_alone answer second (calloc_call block count site) ns blocks bytes h =
      calloc_alone answer second block count site ns blocks bytes h
  at_alone answer second (free_call p) ns blocks bytes h = elim (Bool-cases (p == null)) [
    | inl e ↦ null_alone answer second p (at ns blocks bytes h) e
    | inr e ↦ nonnull_alone answer second p ns blocks bytes h e
  ]

  -- From any state where tracing is on and the mutex is released, the moves of a thread alone, at
  -- most eight after the first, do what `rl_malloc`, `rl_calloc` or `rl_free` does in one piece:
  -- they give the same result, leave the same state, and fault where it does.
  pub alone_lem :
      (answer second : Option Addr) (c : Call) (m : Memory)
      → m.trace_state ≡ true
      → m.mem_lock ≡ released
      → and_then (call_alone answer second c m) (λ p. pure (outcome p)) ≡ whole answer second c m
  alone_lem answer second c m tracing unlocked =
      let same : record m { trace_state = true; mem_lock = released } ≡ m =
        ap₂ (λ (t : Bool) (l : Lock). record m { trace_state = t; mem_lock = l }) (sym tracing)
          (sym unlocked) in
      subst (Same answer second c) same
        (at_alone answer second c m.header m.block_count m.total_bytes m.heap)
