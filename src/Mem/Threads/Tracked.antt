-- ===== src/Mem/Threads/Tracked.antt =====
-- The invariant of the list where every thread is between two calls.
use custom_public_library_rl.Common.{
  ℕ, ◌+◌, ◌≡◌, ◌≢◌, refl, sym, Bool, false, none, some, List, [], ◌∷◌, arith, ◌==◌, ==_refl, ne→==,
  All,
}
use custom_public_library_rl.Memory.{
  Addr, null, Heap, Node, node_size, Lock, absent, released, held, Memory,
}
use custom_public_library_rl.Mem.Invariant.{Owns, Outside, IsTracked, All-Apart}
use custom_public_library_rl.Mem.Unlink.{Outside-Apart}
use custom_public_library_rl.Mem.Threads.{Pc, returned, answered}
use custom_public_library_rl.Mem.Threads.Claims.{
  count, amount, node_claims, listed, weight, weight_there, weight_one, Fits, Fits-same, Fits-live,
  Fits-less, Fits-nothing, Fits-add, amount_zero,
}
use custom_public_library_rl.Mem.Threads.Standing.{Others, Locked}
use custom_public_library_rl.Mem.Threads.Allocating.{Alike}
use custom_public_library_rl.Mem.Threads.Sums.{
  with_thread, gather, no_one, IsSame, IsSame-sym, IsSame-refl, IsSame-trans, IsSame-gather,
  Balance, Balance-same,
}

-- A thread that is between two calls.
pub data IsBetween : Pc → Type 0 where
  after_address : {a : Addr} → IsBetween (returned a)
  after_answer : {success : Bool} → IsBetween (answered success)

weight_none : (x a w : ℕ) → weight x a 1 ≡ 0 → a ≢ x
weight_none x a w e e' = absurd (omega (arith, e, weight_one x a (rw e' (==_refl x))))

count-Outside : (x : Addr) (ns : List Node) → Outside x ns → count x (listed ns) ≡ 0
count-Outside x [] out = refl
count-Outside x (n ∷ ns) ((p, q), out) = omega (
  arith,
  weight_there x n.addr 1 (ne→== n.addr x (λ e. q (sym e))),
  weight_there x n.ptr 1 (ne→== n.ptr x (λ e. p (sym e))),
  count-Outside x ns out,
)

Outside-count : (x : Addr) (ns : List Node) → count x (listed ns) ≡ 0 → Outside x ns
Outside-count x [] e = tt
Outside-count x (n ∷ ns) e = (
  (
    λ e'. weight_none x n.ptr 1 (omega (arith, e)) (sym e'),
    λ e'. weight_none x n.addr 1 (omega (arith, e)) (sym e'),
  ),
  Outside-count x ns (omega (arith, e)),
)

listed_sound : (x : Addr) (ns : List Node) → count x (listed ns) ≡ 0 → amount x (listed ns) ≡ 0
listed_sound x ns = amount_zero x (listed ns)

Owns-Fits :
    (h : Heap) (ns : List Node)
    → Owns h ns
    → (x : Addr) → Fits (h x) (count x (listed ns)) (amount x (listed ns))
Owns-Fits h [] owns x = Fits-nothing (h x)
Owns-Fits h (n ∷ ns) ((node, live, two, nonnull), apart, owns) x =
    let (out_p, out_a) = Outside-Apart n ns apart in
    let c : Addr → ℕ = λ y. count y (listed ns) in
    let w : Addr → ℕ = λ y. amount y (listed ns) in
    let c' : Addr → ℕ = λ y. weight y n.ptr 1 + c y in
    let w' : Addr → ℕ = λ y. weight y n.ptr n.size + w y in
    let c_p : c n.ptr ≡ 0 = count-Outside n.ptr ns out_p in
    let c_a : c n.addr ≡ 0 = count-Outside n.addr ns out_a in
    let w_a : w n.addr ≡ 0 = listed_sound n.addr ns c_a in
    let miss : (n.ptr == n.addr) ≡ false = ne→== n.ptr n.addr two in
    Fits-add h c' w' n.addr node_size
      (Fits-add h c w n.ptr n.size (Owns-Fits h ns owns) live c_p (listed_sound n.ptr ns c_p)) node
      (omega (arith, weight_there n.addr n.ptr 1 miss, c_a))
      (omega (arith, weight_there n.addr n.ptr n.size miss, w_a)) x

some-null : (h : Heap) (n : Node) → h null ≡ none → n.ptr ≡ null → h n.ptr ≡ some n.size → ⊥
some-null h n free_null e live = cc

-- The rest of the list.
fewer :
    (h : Heap) (n : Node) (ns : List Node)
    → ((x : Addr) → Fits (h x) (count x (listed (n ∷ ns))) (amount x (listed (n ∷ ns))))
    → (x : Addr) → Fits (h x) (count x (listed ns)) (amount x (listed ns))
fewer h n ns fits x =
    let both : Fits (h x) (count x (node_claims n []) + count x (listed ns))
        (amount x (node_claims n []) + amount x (listed ns)) =
      Fits-same (fits x) (omega arith) (omega arith) in
    Fits-less both (listed_sound x ns) (amount_zero x (node_claims n []))

Fits-Owns :
    (h : Heap) (ns : List Node)
    → h null ≡ none
    → ((x : Addr) → Fits (h x) (count x (listed ns)) (amount x (listed ns)))
    → Owns h ns
Fits-Owns h [] free_null fits = tt
Fits-Owns h (n ∷ ns) free_null fits =
    let c : Addr → ℕ = λ y. count y (listed ns) in
    let w : Addr → ℕ = λ y. amount y (listed ns) in
    let (node, a0, _) =
      Fits-live h (λ y. weight y n.ptr 1 + c y) (λ y. weight y n.ptr n.size + w y) n.addr node_size
        (λ y e. amount_zero y ((n.ptr, n.size) ∷ listed ns) e) fits in
    let (live, p0, _) =
      Fits-live h (λ y. weight y n.addr 1 + c y) (λ y. weight y n.addr node_size + w y) n.ptr n.size
        (λ y e. amount_zero y ((n.addr, node_size) ∷ listed ns) e)
        (λ y. Fits-same (fits y) (omega arith) (omega arith)) in
    (
      (
        node,
        live,
        weight_none n.addr n.ptr 1 (omega (arith, a0)),
        λ e. some-null h n free_null e live,
      ),
      All-Apart n.ptr n.addr n.size n.site ns (Outside-count n.ptr ns (omega (arith, p0)))
          (Outside-count n.addr ns (omega (arith, a0))),
      Fits-Owns h ns free_null (fewer h n ns fits),
    )

IsSame-nobody : (p : Pc) (o : Others) → Alike p (returned null) → IsSame (with_thread p o) o
IsSame-nobody p o (h, i, d, e, d', e') = record {
  inside = omega (arith, i);
  due = omega (arith, d);
  excess = omega (arith, e);
  due_bytes = omega (arith, d');
  excess_bytes = omega (arith, e');
  count = λ x. rw h (omega arith);
  amount = λ x. rw h (omega arith);
}

between_nobody : (p : Pc) (o : Others) → IsBetween p → IsSame (with_thread p o) o
between_nobody p o after_address = IsSame-nobody p o (refl, refl, refl, refl, refl, refl)
between_nobody p o after_answer = IsSame-nobody p o (refl, refl, refl, refl, refl, refl)

gather_nobody : (ps : List Pc) (o : Others) → All IsBetween ps → IsSame (gather ps o) o
gather_nobody [] o b = IsSame-refl o
gather_nobody (p ∷ ps) o (b, bs) =
    IsSame-trans (IsSame-gather ps (with_thread p o) o (between_nobody p o b))
      (gather_nobody ps o bs)

Locked-none : (l : Lock) → Locked l 0 → l ≡ released
Locked-none absent e = absurd e
Locked-none released e = refl
Locked-none held e = absurd (omega arith)

pub Balance-IsTracked :
    (ps : List Pc) (m : Memory) → All IsBetween ps → Balance (gather ps no_one) m → IsTracked m
Balance-IsTracked ps m bs balance =
    let b : Balance no_one m =
      Balance-same (gather ps no_one) no_one m (gather_nobody ps no_one bs) balance in
    record {
      tracing = b.tracing;
      unlocked = Locked-none m.mem_lock b.lock;
      owns =
          Fits-Owns m.heap m.header b.null_free
            (λ x. Fits-same (b.fits x) (omega arith) (omega arith));
      blocks = omega (arith, b.blocks, b.small_blocks);
      bytes = omega (arith, b.bytes, b.small_bytes);
    }

pub IsTracked-Balance :
    (ps : List Pc) (m : Memory)
    → All IsBetween ps
    → IsTracked m
    → m.heap null ≡ none
    → Balance (gather ps no_one) m
IsTracked-Balance ps m bs t free_null =
    let b : Balance no_one m = record {
      tracing = t.tracing;
      lock = rw t.unlocked refl;
      null_free = free_null;
      fits = λ x. Fits-same (Owns-Fits m.heap m.header t.owns x) (omega arith) (omega arith);
      blocks = omega (arith, t.blocks);
      bytes = omega (arith, t.bytes);
      small_blocks = omega (arith, t.blocks);
      small_bytes = omega (arith, t.bytes);
    } in
    Balance-same no_one (gather ps no_one) m (IsSame-sym (gather_nobody ps no_one bs)) b
