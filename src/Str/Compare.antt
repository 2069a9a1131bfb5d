-- ===== src/Str/Compare.antt =====
-- `rl_strcmp`: when the result is zero.
use custom_public_library_rl.Common.{
  ℕ, ◌≡◌, ◌≢◌, refl, sym, Bool, true, false, ◌&&◌, some, [], ◌∷◌, ◌++◌, Returns, returns,
  Returns-map, ◌==◌, ne→==, arith, Bool-cases, inl, inr, ℤ, pos, ◌==ℤ◌, Public,
}
use custom_public_library_rl.Libc.{Bytes, strcmp}
use custom_public_library_rl.Libc.Text.{IsText}
use custom_public_library_rl.Str.Remove.{isempty-text}
use custom_public_library_rl.Str.{rl_strcmp}

abbrev pub equal : Bytes → Bytes → Bool
equal [] [] = true
equal [] (b ∷ t) = false
equal (a ∷ s) [] = false
equal (a ∷ s) (b ∷ t) = a == b && equal s t

-- The value at two bytes that differ is not zero.
abbrev pub Differs : (ℕ → ℕ → ℤ) → Type 0
Differs diff = (a b : ℕ) → a ≢ b → (diff a b ==ℤ pos 0) ≡ false

-- The result is zero exactly for equal texts.
abbrev pub Compares : Bytes → Bytes → ℤ → Type 0
Compares s t z = (z ==ℤ pos 0) ≡ equal s t

and_true : {z b : Bool} (a : Bool) → a ≡ true → z ≡ b → z ≡ (a && b)
and_true a e h = rw e h

and_false : {z : Bool} (a b : Bool) → a ≡ false → z ≡ false → z ≡ (a && b)
and_false a b e h = rw e h

pub ==_false : (a b : ℕ) → (a == b) ≡ false → a ≢ b
==_false a b e e' = ground arith

strcmp_lem :
    (diff : ℕ → ℕ → ℤ) (s t r q : Bytes)
    → Differs diff
    → IsText s
    → IsText t
    → Returns (Compares s t) (strcmp diff (s ++ 0 ∷ r) (t ++ 0 ∷ q))
unfolding strcmp
strcmp_lem diff [] [] r q d hs ht = returns refl
strcmp_lem diff [] (b ∷ t) r q d hs (hb, ht) =
    rw (ne→== 0 b (λ e. hb (sym e))) (returns (d 0 b (λ e. hb (sym e))))
strcmp_lem diff (a ∷ s) [] r q d (ha, hs) ht = rw (ne→== a 0 ha) (returns (d a 0 ha))
strcmp_lem diff (a ∷ s) (b ∷ t) r q d (ha, hs) (hb, ht) = elim (Bool-cases (a == b)) [
  | inl e ↦
      let ih = strcmp_lem diff s t r q d hs ht in
      rw (e, ne→== a 0 ha) (Returns-map ih (λ (z : ℤ) (h : Compares s t z). and_true (a == b) e h))
  | inr e ↦ rw e (returns (and_false (a == b) (equal s t) e (d a b (==_false a b e))))
]

module _ ⦃public : Public⦄ where
  -- For two nonempty texts `rl_strcmp` never faults, and returns zero exactly where they are equal, if
  -- the value that the C library returns at bytes that differ is not zero.
  pub rl_strcmp_lem :
      (diff : ℕ → ℕ → ℤ) (s t r q : Bytes)
      → Differs diff
      → s ≢ []
      → t ≢ []
      → IsText s
      → IsText t
      → Returns (Compares s t) (rl_strcmp diff (some (s ++ 0 ∷ r)) (some (t ++ 0 ∷ q)))
  unfolding rl_strcmp
  rl_strcmp_lem diff s t r q d ns nt hs ht =
      rw (isempty-text s r ns hs, isempty-text t q nt ht) (strcmp_lem diff s t r q d hs ht)
