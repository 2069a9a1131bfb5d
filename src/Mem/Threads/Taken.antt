-- ===== src/Mem/Threads/Taken.antt =====
-- What `unlink` takes out of a list, in sums.
use custom_public_library_rl.Common.{
  suc, ◌+◌, ◌≡◌, refl, Option, none, some, List, [], ◌∷◌, length, arith, ◌==◌, ==→eq, Bool-cases,
  inl, inr,
}
use custom_public_library_rl.Memory.{Addr, Node}
use custom_public_library_rl.Mem.{unlink}
use custom_public_library_rl.Mem.Invariant.{sum_sizes}
use custom_public_library_rl.Mem.Unlink.{unlink_step}
use custom_public_library_rl.Mem.Threads.Claims.{count, amount, node_claims, listed}

pub record Taken (p : Addr) (ns : List Node) (n : Node) (others : List Node) : Type 0 where
  pub found : n.ptr ≡ p
  pub counts : (x : Addr) → count x (listed ns) ≡ count x (node_claims n (listed others))
  pub amounts : (x : Addr) → amount x (listed ns) ≡ amount x (node_claims n (listed others))
  pub length_lem : length ns ≡ suc (length others)
  pub sizes : sum_sizes ns ≡ n.size + sum_sizes others

abbrev TakenOr : Addr → List Node → Option (Node × List Node) → Type 0
TakenOr p ns none = Unit
TakenOr p ns (some (n, others)) = Taken p ns n others

Taken-cons :
    (p : Addr) (k : Node) (ns : List Node) (o : Option (Node × List Node))
    → TakenOr p ns o
    → TakenOr p (k ∷ ns) (elim o [ none ↦ none | some (found, others) ↦ some (found, k ∷ others) ])
Taken-cons p k ns none t = tt
Taken-cons p k ns (some (n, others)) t = record {
  found = t.found;
  counts = λ x. omega (arith, t.counts x);
  amounts = λ x. omega (arith, t.amounts x);
  length_lem = omega (arith, t.length_lem);
  sizes = omega (arith, t.sizes);
}

Taken-head : (p : Addr) (k : Node) (ns : List Node) → k.ptr ≡ p → Taken p (k ∷ ns) k ns
Taken-head p k ns e = record {
  found = e;
  counts = λ x. refl;
  amounts = λ x. refl;
  length_lem = refl;
  sizes = refl;
}

unlink_nil : (p : Addr) → TakenOr p [] (unlink p [])
unfolding unlink
unlink_nil p = tt

unlink-TakenOr : (p : Addr) (ns : List Node) → TakenOr p ns (unlink p ns)
unlink-TakenOr p [] = unlink_nil p
unlink-TakenOr p (k ∷ ns) = rw unlink_step (elim (Bool-cases (k.ptr == p)) [
  | inl hit ↦ rw hit (Taken-head p k ns (==→eq k.ptr p hit))
  | inr miss ↦ rw miss (Taken-cons p k ns (unlink p ns) (unlink-TakenOr p ns))
])

pub unlink-Taken :
    (p : Addr) (ns : List Node) (n : Node) (others : List Node)
    → unlink p ns ≡ some (n, others)
    → Taken p ns n others
unlink-Taken p ns n others e = rw e at (unlink-TakenOr p ns)
