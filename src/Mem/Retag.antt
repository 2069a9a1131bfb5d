-- ===== src/Mem/Retag.antt =====
-- `retag`: what it makes of a list that owns its blocks, and what that does to the table.
use custom_public_library_rl.Common.{
  ℕ, suc, ◌+◌, ◌≡◌, ◌≢◌, refl, ap, sym, ◌∙◌, none, some, List, [], ◌∷◌, arith, length, All, ne→==,
  ==_refl, ◌==◌, if◌then◌else◌, inl, inr, ◌⊎◌,
}
use custom_public_library_rl.Memory.{Addr, Heap, update, Site, Node, node_size}
use custom_public_library_rl.Mem.Invariant.{
  Holds, Apart, Owns, sum_sizes, Fresh, Owns-update, Outside-none, All-Apart,
}
use custom_public_library_rl.Mem.Table.{Table, view, move}
use custom_public_library_rl.Mem.Unlink.{Outside-Apart}
use custom_public_library_rl.Mem.{retag}

-- The table holds a block at `p`.
abbrev pub Lists : Addr → Table → Type 0
Lists p [] = ⊥
Lists p (b ∷ t) = (b.ptr ≡ p) ⊎ Lists p t

-- What `retag` makes of a list that owns its blocks, when the block at `p`, of size `old`, has
-- gone to `b`.
pub record Moved (h : Heap) (p b size : ℕ) (site : Site) (ns : List Node) (old : ℕ)
    (others : List Node) : Type 0 where
  pub live : h p ≡ some old
  pub retagged : retag p b size site ns ≡ some (old, others)
  pub moved : move p b size site (view ns) ≡ some (view others)
  pub owned : Owns (update (update h p none) b (some size)) others
  pub count : length others ≡ length ns
  pub total : sum_sizes others + old ≡ sum_sizes ns + size
  pub keeps : (k : Node) → k.ptr ≢ b → k.addr ≢ b → All (Apart k) ns → All (Apart k) others

retag_step :
    (p b size : ℕ) (site : Site) (k : Node) (ns : List Node)
    → retag p b size site (k ∷ ns) ≡ (
        if k.ptr == p
        then some (k.size, record k { ptr = b; size = size; site = site } ∷ ns)
        else elim (retag p b size site ns) [
          | none ↦ none
          | some (old, others) ↦ some (old, k ∷ others)
        ])
unfolding retag
retag_step p b size site k ns = refl

-- A node apart from those of a table's blocks is at neither of its addresses at a block of the table.
Lists-Apart :
    (k : Node) (p : Addr) (ns : List Node)
    → All (Apart k) ns
    → Lists p (view ns)
    → (k.ptr ≢ p) × (k.addr ≢ p)
Lists-Apart k p [] apart listed = absurd listed
Lists-Apart k p (n ∷ ns) ((pp, pa, ap', aa), apart) (inl e) =
    (λ e'. pp (e' ∙ sym e), λ e'. ap' (e' ∙ sym e))
Lists-Apart k p (n ∷ ns) (_, apart) (inr listed) = Lists-Apart k p ns apart listed

Moved-head :
    (h : Heap) (p b size : ℕ) (site : Site) (k : Node) (ns : List Node)
    → Owns h (k ∷ ns)
    → Fresh (update h p none) (some b)
    → k.ptr ≡ p
    → Moved h p b size site (k ∷ ns) k.size (record k { ptr = b; size = size; site = site } ∷ ns)
unfolding move
Moved-head h p b size site k ns ((node, live, two, ptr), apart, owns) (unused, nonnull) e =
    let h' = update h p none in
    let (out, out') = Outside-Apart k ns apart in
    let owns' : Owns h' ns = Owns-update h p none ns (rw e at out) owns in
    let node' : h' k.addr ≡ some node_size = rw (ne→== p k.addr (λ e'. two (e ∙ e'))) node in
    let apart_b : b ≢ k.addr = λ e'. cc in
    let out_b = Outside-none h' b ns unused owns' in
    record {
      live = rw (sym e) live;
      retagged = rw (retag_step, e, ==_refl p) refl;
      moved = rw (e, ==_refl p) refl;
      owned = (
        (rw (ne→== b k.addr apart_b) node', rw (==_refl b) refl, apart_b, nonnull),
        All-Apart b k.addr size site ns out_b out',
        Owns-update h' b (some size) ns out_b owns',
      );
      count = refl;
      total = omega arith;
      keeps = λ j jp ja ((pp, pa, ap', aa), rest). ((jp, pa, ja, aa), rest);
    }

Moved-cons :
    (h : Heap) (p b size : ℕ) (site : Site) (k : Node) (ns : List Node) (old : ℕ)
    (others : List Node)
    → Holds h k
    → All (Apart k) ns
    → Fresh (update h p none) (some b)
    → (k.ptr ≢ p) × (k.addr ≢ p)
    → Moved h p b size site ns old others
    → Moved h p b size site (k ∷ ns) old (k ∷ others)
unfolding move
Moved-cons h p b size site k ns old others (node, live, two, ptr) apart (unused, nonnull)
      (k_p, k_p') m =
    let h' = update h p none in
    let miss = ne→== k.ptr p k_p in
    let node' : h' k.addr ≡ some node_size = rw (ne→== p k.addr (λ e. k_p' (sym e))) node in
    let live' : h' k.ptr ≡ some k.size = rw (ne→== p k.ptr (λ e. k_p (sym e))) live in
    let b_addr : b ≢ k.addr = λ e. cc in
    let b_ptr : b ≢ k.ptr = λ e. cc in
    record {
      live = m.live;
      retagged = rw (retag_step, miss, m.retagged) refl;
      moved = rw (miss, m.moved) refl;
      owned = (
        (rw (ne→== b k.addr b_addr) node', rw (ne→== b k.ptr b_ptr) live', two, ptr),
        m.keeps k (λ e. b_ptr (sym e)) (λ e. b_addr (sym e)) apart,
        m.owned,
      );
      count = ap suc m.count;
      total = omega (arith, m.total);
      keeps = λ j jp ja (jk, rest). (jk, m.keeps j jp ja rest);
    }

pub retag-Moved :
    (h : Heap) (p b size : ℕ) (site : Site) (ns : List Node)
    → Owns h ns
    → Fresh (update h p none) (some b)
    → Lists p (view ns)
    → (old : ℕ) × (others : List Node) × Moved h p b size site ns old others
retag-Moved h p b size site [] owns fresh listed = absurd listed
retag-Moved h p b size site (k ∷ ns) owns fresh (inl e) = (
  k.size,
  record k { ptr = b; size = size; site = site } ∷ ns,
  Moved-head h p b size site k ns owns fresh e,
)
retag-Moved h p b size site (k ∷ ns) (holds, apart, owns) fresh (inr listed) =
    let (old, others, m) = retag-Moved h p b size site ns owns fresh listed in
    (
      old,
      k ∷ others,
      Moved-cons h p b size site k ns old others holds apart fresh (Lists-Apart k p ns apart listed)
          m,
    )
