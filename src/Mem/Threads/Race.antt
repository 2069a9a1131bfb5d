-- ===== src/Mem/Threads/Race.antt =====
-- `rl_realloc` against another thread: `realloc` gives the old block back before the lock is taken.
use custom_public_library_rl.Common.{
  ℕ, ◌≡◌, ◌≢◌, refl, sym, ◌∙◌, ap₂, subst, Bool, true, false, none, some, List, Returns, returns,
  ◌==◌, ==_refl, ne→==,
}
use custom_public_library_rl.Memory.{
  Addr, Heap, update, Site, Node, node_size, Lock, released, Memory, Cmd, ◌>>=◌, malloc, realloc,
  lock, unlock,
}
use custom_public_library_rl.Mem.Invariant.{IsTracked, Owns, Fresh}
use custom_public_library_rl.Mem.Unlink.{unlink-Found}
use custom_public_library_rl.Mem.{track, unlink, retag, record_block, rl_malloc, record_move}

-- One thread is in `rl_realloc` of `a`, and has its new block `b`; before it takes the lock,
-- another calls `rl_malloc` and is granted the address `a`, with a node at `n`.
pub race : (a b n size size' : ℕ) → (site site' : Site) → Cmd Addr
race a b n size size' site site' = do
  moved ← realloc (some b) a size
  other ← rl_malloc (some a) (some n) size' site'
  record_move none a b size site

-- What a list that owns its blocks says of an address.
Owns-size :
    (h : Heap) (a : Addr) (ns : List Node) (k : Node) (others : List Node)
    → Owns h ns
    → unlink a ns ≡ some (k, others)
    → h a ≡ some k.size
Owns-size h a ns k others owns e =
    let (u, _) = rw e at (unlink-Found h a ns owns) in
    let (_, live, _, _) = u.node in rw u.found at live

raced :
    (a b n size size' : ℕ) (site site' : Site) (ns : List Node) (blocks bytes s : ℕ) (h : Heap)
    (k : Node) (others : List Node)
    → h a ≡ some s
    → (size' == 0) ≡ false
    → n ≢ a
    → unlink a ns ≡ some (k, others)
    → k.size ≢ size'
    → Returns
        (λ r. ¬ IsTracked r.1)
        (race a b n size size' site site' (record {
          trace_state = true;
          mem_lock = released;
          header = ns;
          block_count = blocks;
          total_bytes = bytes;
          heap = h;
        }))
unfolding race realloc rl_malloc malloc record_block record_move retag lock unlock track
raced a b n size size' site site' ns blocks bytes s h k others live nonzero apart e differ =
    rw (live, nonzero, ==_refl a)
      (returns (λ t.
        let (_, _, owns) = t.owns in
        let h' =
          update (update (update (update h a none) b (some size)) a (some size')) n
            (some node_size) in
        let listed : h' a ≡ some k.size = Owns-size h' a ns k others owns e in
        let sized : some size' ≡ some k.size = rw (ne→== n a apart, ==_refl a) at listed in
        let equal : k.size ≡ size' = cc in absurd (differ equal)))

-- The heap where `realloc` has moved the block `a` to `b`, and where `a` is out again.
abbrev pub moved_heap : Heap → (a b size : ℕ) → Heap
moved_heap h a b size = update (update h a none) b (some size)

abbrev pub taken_heap : Heap → (a b size size' : ℕ) → Heap
taken_heap h a b size size' = update (moved_heap h a b size) a (some size')

reused-apart : (h : Heap) (a b size size' n : ℕ) → taken_heap h a b size size' n ≡ none → n ≢ a
reused-apart h a b size size' n unused e =
    let taken : taken_heap h a b size size' a ≡ some size' = rw (==_refl a) refl in
    let same : taken_heap h a b size size' a ≡ none = rw e at unused in
    let clash : some size' ≡ none = sym taken ∙ same in cc

-- From a state that satisfies the invariant, let one thread be in `rl_realloc` of a block of the
-- list, with its new block granted and the old one given back, and before it takes the lock let
-- `rl_malloc` of another thread, of a size that is not 0 and not the old block's, be granted the
-- old address. Where each answer of the allocator is an address that is free then, both calls
-- return without a fault, and the state that they leave breaks the invariant.
pub realloc_race :
    (m : Memory) (a b n size size' : ℕ) (site site' : Site) (k : Node) (others : List Node)
    → IsTracked m
    → unlink a m.header ≡ some (k, others)
    → Fresh (update m.heap a none) (some b)
    → size' ≢ 0
    → k.size ≢ size'
    → Fresh (moved_heap m.heap a b size) (some a)
    → Fresh (taken_heap m.heap a b size size') (some n)
    → Returns (λ r. ¬ IsTracked r.1) (race a b n size size' site site' m)
realloc_race m a b n size size' site site' k others t e fresh_b nonzero differ fresh_a (unused, _) =
    let same : record m { trace_state = true; mem_lock = released } ≡ m =
      ap₂ (λ (on : Bool) (l : Lock). record m { trace_state = on; mem_lock = l }) (sym t.tracing)
        (sym t.unlocked) in
    subst (λ s. Returns (λ r. ¬ IsTracked r.1) (race a b n size size' site site' s)) same
      (raced a b n size size' site site' m.header m.block_count m.total_bytes k.size m.heap k others
        (Owns-size m.heap a m.header k others t.owns e) (ne→== size' 0 nonzero)
        (reused-apart m.heap a b size size' n unused) e differ)
