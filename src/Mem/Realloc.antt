-- ===== src/Mem/Realloc.antt =====
-- `rl_realloc` keeps the invariant and does what the table says.
use custom_public_library_rl.Common.{
  ℕ, ◌<◌, ◌%◌, ◌≡◌, ◌≢◌, refl, ap, sym, ◌∙◌, true, Option, none, some, List, [], ◌∷◌, Returns,
  returns, arith, ne→==, inl, inr,
}
use custom_public_library_rl.Memory.{Addr, null, Heap, update, Site, Node, Memory, u32_mod, realloc}
use custom_public_library_rl.Mem.Invariant.{Owns, IsTracked, Fresh}
use custom_public_library_rl.Mem.Table.{Table, view, move}
use custom_public_library_rl.Mem.Alloc.{Agrees, lock_released, unlock_held}
use custom_public_library_rl.Mem.{record_move, rl_realloc}
use custom_public_library_rl.Mem.Retag.{Lists, Moved, retag-Moved}

-- The block at `p` goes to `b`, or stays where there is no room.
unfoldable pub resize : Option Addr → Addr → ℕ → Site → Table → Addr × Table
resize none p size site t = (null, t)
resize (some b) p size site t = elim (move p b size site t) [ none ↦ (null, t) | some t' ↦ (b, t') ]

live_of :
    (h : Heap) (p : Addr) (ns : List Node)
    → Owns h ns
    → Lists p (view ns)
    → (old : ℕ) × (h p ≡ some old)
live_of h p [] owns listed = absurd listed
live_of h p (k ∷ ns) ((_, live, _, _), _, _) (inl e) = (k.size, rw (sym e) live)
live_of h p (k ∷ ns) (_, _, owns) (inr listed) = live_of h p ns owns listed

-- What the program does once the allocator has moved the block.
record_move_lem :
    (m : Memory) (second : Option Addr) (p b size : ℕ) (site : Site) (old : ℕ) (others : List Node)
    → IsTracked m
    → Moved m.heap p b size site m.header old others
    → Returns (Agrees (b, view others)) (
        record_move second p b size site
          (record m { trace_state = true; heap = update (update m.heap p none) b (some size) }))
unfolding record_move
record_move_lem m second p b size site old others t v =
    let given = record m {
      trace_state = true;
      heap = update (update m.heap p none) b (some size);
    } in
    rw (lock_released given t.unlocked, v.retagged, unlock_held)
      (returns (
        record {
          tracing = refl;
          unlocked = refl;
          owns = v.owned;
          blocks = t.blocks ∙ ap (λ n. n % u32_mod) (sym v.count);
          bytes = omega (arith, t.bytes, v.total);
        },
        refl,
        refl,
      ))

resize-none : (p size : ℕ) (site : Site) (t : Table) → resize none p size site t ≡ (null, t)
unfolding resize
resize-none p size site t = refl

resize-some :
    (b p size : ℕ) (site : Site) (t t' : Table)
    → move p b size site t ≡ some t'
    → resize (some b) p size site t ≡ (b, t')
unfolding resize
resize-some b p size site t t' e = rw (resize, e) refl

-- From a state that satisfies the invariant, for a block of the table that is not NULL, a size
-- that is not 0, and an answer of the allocator that is NULL or an address that is free once the
-- block is given back, `rl_realloc` never faults, keeps the invariant, and returns and records
-- what the table says: the block moves with its new size, or the result is NULL and the table
-- stays.
pub realloc_refines :
    (m : Memory) (answer second : Option Addr) (p size : ℕ) (site : Site)
    → IsTracked m
    → Fresh (update m.heap p none) answer
    → p ≢ null
    → 0 < size
    → Lists p (view m.header)
    → Returns
        (Agrees (resize answer p size site (view m.header)))
        (rl_realloc answer second p size site m)
unfolding rl_realloc realloc
realloc_refines m none second p size site t fresh nonnull positive listed =
    let v = live_of m.heap p m.header t.owns listed in
    rw (ne→== size 0 (omega arith), ne→== p null nonnull, v.1, resize-none)
      (returns (t, refl, refl))
realloc_refines m (some b) second p size site t fresh nonnull positive listed =
    let (old, others, v) = retag-Moved m.heap p b size site m.header t.owns fresh listed in
    rw
      (
        ne→== size 0 (omega arith),
        ne→== p null nonnull,
        v.live,
        t.tracing,
        resize-some b p size site (view m.header) (view others) v.moved,
      )
      (record_move_lem m second p b size site old others t v)
