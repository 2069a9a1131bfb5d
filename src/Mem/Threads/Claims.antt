-- ===== src/Mem/Threads/Claims.antt =====
-- Which blocks the list and the threads hold, as sums over both.
use custom_public_library_rl.Common.{
  ℕ, zero, suc, ◌+◌, ◌≡◌, refl, sym, ap, true, false, Option, none, some, List, [], ◌∷◌, ◌⊎◌, inl,
  inr, arith, ◌==◌, ==→eq, ==_refl, if◌then◌else◌, Bool-cases,
}
use custom_public_library_rl.Memory.{Addr, Heap, update, Node, node_size}

-- A block: its address and its size.
abbrev pub Claim : Type 0
Claim = ℕ × ℕ

-- `w` at the address `a`, seen from `x`
pub weight : (x a w : ℕ) → ℕ
weight x a w = if a == x then w else 0

-- How often `x` is among the blocks, and the sizes of those.
abbrev pub count : Addr → List Claim → ℕ
count x [] = 0
count x ((a, s) ∷ cs) = weight x a 1 + count x cs

abbrev pub amount : Addr → List Claim → ℕ
amount x [] = 0
amount x ((a, s) ∷ cs) = weight x a s + amount x cs

abbrev pub node_claims : Node → List Claim → List Claim
node_claims n cs = (n.addr, node_size) ∷ (n.ptr, n.size) ∷ cs

abbrev pub listed : List Node → List Claim
listed [] = []
listed (n ∷ ns) = node_claims n (listed ns)

-- An address that is free is not held, one that is allocated at most once, with its size.
abbrev pub Sums : Option ℕ → ℕ → ℕ → Type 0
Sums none c w = (c ≡ 0) × (w ≡ 0)
Sums (some s) c w = ((c ≡ 0) × (w ≡ 0)) ⊎ ((c ≡ 1) × (w ≡ s))

pub record Fits (o : Option ℕ) (c w : ℕ) : Type 0 where
  pub sums : Sums o c w

pub weight_here : (x w : ℕ) → weight x x w ≡ w
unfolding weight
weight_here x w = rw (==_refl x) refl

pub weight_there : (x a w : ℕ) → (a == x) ≡ false → weight x a w ≡ 0
unfolding weight
weight_there x a w e = rw e refl

pub weight_one : (x a : ℕ) → (a == x) ≡ true → weight x a 1 ≡ 1
unfolding weight
weight_one x a e = rw e refl

Fits-none : (o : Option ℕ) (c w : ℕ) → o ≡ none → Fits o c w → (c ≡ 0) × (w ≡ 0)
Fits-none o c w e h = rw e at h.sums

-- The sums may be written in another way.
pub Fits-same : {o : Option ℕ} {c c' w w' : ℕ} → Fits o c w → c ≡ c' → w ≡ w' → Fits o c' w'
Fits-same h ec ew = record { sums = rw (sym ec, sym ew) h.sums }

-- A free address is allocated.
pub Fits-alloc :
    (h : Heap) (c w : Addr → ℕ) (a s : ℕ)
    → ((x : Addr) → Fits (h x) (c x) (w x))
    → h a ≡ none
    → (x : Addr) → Fits (update h a (some s) x) (weight x a 1 + c x) (weight x a s + w x)
Fits-alloc h c w a s fits unused x = elim (Bool-cases (a == x)) [
  | inl e ↦
      let here : a ≡ x = ==→eq a x e in
      let (c0, w0) = Fits-none (h a) (c a) (w a) unused (fits a) in
      record {
        sums =
            rw (e, sym here)
              (inr (omega (arith, weight_here a 1, c0), omega (arith, weight_here a s, w0)));
      }
  | inr e ↦ rw e (
      Fits-same (fits x) (omega (arith, weight_there x a 1 e))
        (omega (arith, weight_there x a s e)))
]

Fits-once :
    (o : Option ℕ) (c w s : ℕ)
    → (c ≡ 0 → w ≡ 0)
    → Sums o (1 + c) (s + w)
    → (o ≡ some s) × (c ≡ 0) × (w ≡ 0)
Fits-once none c w s sound (e, _) = absurd (omega arith)
Fits-once (some s') c w s sound (inl (e, _)) = absurd (omega arith)
Fits-once (some s') c w s sound (inr (e, e')) =
    let c0 : c ≡ 0 = omega arith in
    let w0 = sound c0 in let same : s' ≡ s = omega arith in (ap some same, c0, w0)

-- A block that is held is allocated with its size.
pub Fits-live :
    (h : Heap) (c w : Addr → ℕ) (a s : ℕ)
    → ((x : Addr) → c x ≡ 0 → w x ≡ 0)
    → ((x : Addr) → Fits (h x) (weight x a 1 + c x) (weight x a s + w x))
    → (h a ≡ some s) × (c a ≡ 0) × (w a ≡ 0)
Fits-live h c w a s sound fits = Fits-once (h a) (c a) (w a) s (sound a) (
    let f : Fits (h a) (1 + c a) (s + w a) =
      Fits-same (fits a) (omega (arith, weight_here a 1)) (omega (arith, weight_here a s)) in
    f.sums)

-- A block that is held is given back.
pub Fits-free :
    (h : Heap) (c w : Addr → ℕ) (a s : ℕ)
    → ((x : Addr) → c x ≡ 0 → w x ≡ 0)
    → ((x : Addr) → Fits (h x) (weight x a 1 + c x) (weight x a s + w x))
    → (x : Addr) → Fits (update h a none x) (c x) (w x)
Fits-free h c w a s sound fits x = elim (Bool-cases (a == x)) [
  | inl e ↦
      let here : a ≡ x = ==→eq a x e in
      let (_, c0, w0) = Fits-live h c w a s sound fits in
      record { sums = rw (e, sym here) (c0, w0) }
  | inr e ↦ rw e (
      Fits-same (fits x) (omega (arith, weight_there x a 1 e))
        (omega (arith, weight_there x a s e)))
]

pub amount_zero : (x : Addr) (cs : List Claim) → count x cs ≡ 0 → amount x cs ≡ 0
amount_zero x [] h = refl
amount_zero x ((a, s) ∷ cs) h = elim (Bool-cases (a == x)) [
  | inl e ↦ absurd (omega (arith, h, weight_one x a e))
  | inr e ↦
      omega
        (arith, h, weight_there x a 1 e, weight_there x a s e, amount_zero x cs (omega (arith, h)))
]

Sums-less :
    (o : Option ℕ) (a b c w : ℕ)
    → (c ≡ 0 → w ≡ 0)
    → (a ≡ 0 → b ≡ 0)
    → Sums o (a + c) (b + w)
    → Sums o c w
Sums-less none a b c w sound sound' (e, e') = (omega arith, omega arith)
Sums-less (some s) a b c w sound sound' (inl (e, e')) = inl (omega arith, omega arith)
Sums-less (some s) zero b c w sound sound' (inr (e, e')) =
    let b0 = sound' refl in inr (omega arith, omega (arith, b0, e'))
Sums-less (some s) (suc a) b c w sound sound' (inr (e, e')) =
    let c0 : c ≡ 0 = omega arith in inl (c0, sound c0)

-- Fewer blocks.
pub Fits-less :
    {o : Option ℕ} {a b c w : ℕ}
    → Fits o (a + c) (b + w)
    → (c ≡ 0 → w ≡ 0)
    → (a ≡ 0 → b ≡ 0)
    → Fits o c w
Fits-less {o} {a} {b} {c} {w} h sound sound' = record {
  sums = Sums-less o a b c w sound sound' h.sums;
}

pub Fits-nothing : (o : Option ℕ) → Fits o 0 0
Fits-nothing none = record { sums = (refl, refl) }
Fits-nothing (some s) = record { sums = inl (refl, refl) }

-- One more block that is allocated.
pub Fits-add :
    (h : Heap) (c w : Addr → ℕ) (a s : ℕ)
    → ((x : Addr) → Fits (h x) (c x) (w x))
    → h a ≡ some s
    → c a ≡ 0
    → w a ≡ 0
    → (x : Addr) → Fits (h x) (weight x a 1 + c x) (weight x a s + w x)
Fits-add h c w a s fits live c0 w0 x = elim (Bool-cases (a == x)) [
  | inl e ↦
      let here : a ≡ x = ==→eq a x e in
      rw (sym here) (record {
        sums =
            rw live (inr (omega (arith, weight_here a 1, c0), omega (arith, weight_here a s, w0)));
      })
  | inr e ↦
      Fits-same (fits x) (omega (arith, weight_there x a 1 e)) (omega (arith, weight_there x a s e))
]
