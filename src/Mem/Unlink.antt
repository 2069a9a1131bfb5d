-- ===== src/Mem/Unlink.antt =====
-- `unlink`: what it takes out of a list that owns its blocks, and what that does to the table.
use custom_public_library_rl.Common.{
  suc, ◌+◌, ◌≡◌, refl, sym, true, false, Option, none, some, List, [], ◌∷◌, arith, length, All,
  ==→eq, ◌==◌, if◌then◌else◌, Bool-cases, inl, inr,
}
use custom_public_library_rl.Memory.{Addr, Heap, Node}
use custom_public_library_rl.Mem.Invariant.{Holds, Apart, Owns, Outside, sum_sizes}
use custom_public_library_rl.Mem.Table.{view, remove}
use custom_public_library_rl.Mem.{unlink}

-- What `unlink` takes out of a list that owns its blocks.
pub record Unlinked (h : Heap) (p : Addr) (ns : List Node) (n : Node) (others : List Node)
    : Type 0 where
  pub node : Holds h n
  pub found : n.ptr ≡ p
  pub apart : All (Apart n) others
  pub owns : Owns h others
  pub count : length ns ≡ suc (length others)
  pub bytes : sum_sizes ns ≡ n.size + sum_sizes others
  pub keeps : (k : Node) → All (Apart k) ns → Apart k n × All (Apart k) others

Apart-comm : (n m : Node) → Apart n m → Apart m n
Apart-comm n m (pp, pa, ap', aa) =
    (λ e. pp (sym e), λ e. ap' (sym e), λ e. pa (sym e), λ e. aa (sym e))

pub Outside-Apart :
    (n : Node) (ns : List Node) → All (Apart n) ns → Outside n.ptr ns × Outside n.addr ns
Outside-Apart n [] apart = (tt, tt)
Outside-Apart n (k ∷ ns) ((pp, pa, ap', aa), apart) =
    let (out, out') = Outside-Apart n ns apart in (((pp, pa), out), ((ap', aa), out'))

-- `unlink` finds a node exactly when the table has the block.
abbrev pub Found : Heap → Addr → List Node → Option (Node × List Node) → Type 0
Found h p ns none = remove p (view ns) ≡ none
Found h p ns (some (n, others)) =
    Unlinked h p ns n others × (remove p (view ns) ≡ some (view others))

Found-cons :
    (h : Heap) (p : Addr) (k : Node) (ns : List Node) (o : Option (Node × List Node))
    → Holds h k
    → All (Apart k) ns
    → (k.ptr == p) ≡ false
    → Found h p ns o
    → Found h p (k ∷ ns) (elim o [ none ↦ none | some (found, others) ↦ some (found, k ∷ others) ])
unfolding remove
Found-cons h p k ns none held_k apart miss gone = rw (miss, gone)
Found-cons h p k ns (some (n, others)) held_k apart miss (u, gone) =
    let (first, rest) = u.keeps k apart in
    (
      record {
        node = u.node;
        found = u.found;
        apart = (Apart-comm k n first, u.apart);
        owns = (held_k, rest, u.owns);
        count = omega (arith, u.count);
        bytes = omega (arith, u.bytes);
        keeps = λ j (jk, js). let (jn, jo) = u.keeps j js in (jn, (jk, jo));
      },
      rw (miss, gone),
    )

unlink_nil : (h : Heap) (p : Addr) → Found h p [] (unlink p [])
unfolding unlink remove
unlink_nil h p = refl

Found-head :
    (h : Heap) (p : Addr) (k : Node) (ns : List Node)
    → Holds h k
    → All (Apart k) ns
    → Owns h ns
    → (k.ptr == p) ≡ true
    → Found h p (k ∷ ns) (some (k, ns))
unfolding remove
Found-head h p k ns held_k apart owns hit = (
  record {
    node = held_k;
    found = ==→eq k.ptr p hit;
    apart = apart;
    owns = owns;
    count = refl;
    bytes = refl;
    keeps = λ j (jk, js). (jk, js);
  },
  rw hit,
)

pub unlink_step :
    (p : Addr) (k : Node) (ns : List Node)
    → unlink p (k ∷ ns) ≡ (
        if k.ptr == p
        then some (k, ns)
        else elim (unlink p ns) [ none ↦ none | some (found, others) ↦ some (found, k ∷ others) ])
unfolding unlink
unlink_step p k ns = refl

pub unlink-Found : (h : Heap) (p : Addr) (ns : List Node) → Owns h ns → Found h p ns (unlink p ns)
unlink-Found h p [] owns = unlink_nil h p
unlink-Found h p (k ∷ ns) (held_k, apart, owns) = rw unlink_step (elim (Bool-cases (k.ptr == p)) [
  | inl hit ↦ rw hit (Found-head h p k ns held_k apart owns hit)
  | inr miss ↦
      rw miss (Found-cons h p k ns (unlink p ns) held_k apart miss (unlink-Found h p ns owns))
])
