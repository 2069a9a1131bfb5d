-- ===== src/Time/Server/Buffer.antt =====
-- Buffers with a terminator somewhere, and the calls on them.
use custom_public_library_rl.Common.{
  ℕ, zero, suc, ◌+◌, ◌≤◌, ◌≡◌, ◌≢◌, refl, sym, ap, ap₂, ◌∙◌, Bool, Option, none, some, [], ◌∷◌,
  ◌++◌, append_assoc, Returns, returns, Returns-then, length, ◌==◌, ==→eq, arith, Bool-cases, inl,
  inr,
}
use custom_public_library_rl.Str.Compare.{==_false}
use custom_public_library_rl.Libc.{Bytes, write, strlen, prefix, begins, strstr}
use custom_public_library_rl.Libc.Access.{prefix-append}
use custom_public_library_rl.Libc.Text.{IsText, strlen-text}
use custom_public_library_rl.Libc.Search.{Avoids, begins-is_prefix, find, strstr-find, find_sound}

-- A buffer that holds a text and its terminator.
abbrev pub Terminated : Bytes → Type 0
Terminated b = (t : Bytes) × (r : Bytes) × (b ≡ t ++ (0 ∷ r)) × IsText t

pub terminated : (xs ys : Bytes) → Terminated (xs ++ (0 ∷ ys))
terminated [] ys = ([], ys, refl, tt)
terminated (c ∷ xs) ys = elim (Bool-cases (c == 0)) [
  | inl e ↦ ([], xs ++ (0 ∷ ys), ap (λ d. d ∷ (xs ++ (0 ∷ ys))) (==→eq c 0 e), tt)
  | inr e ↦
      let (t, r, p, h) = terminated xs ys in (c ∷ t, r, ap (λ s. c ∷ s) p, (==_false c 0 e, h))
]

-- What `strstr` answers: NULL, or a place where the needle stands in front of a terminator.
abbrev pub Located : Bytes → Bytes → Option ℕ → Type 0
Located n b none = Unit
Located n b (some i) =
    (pre : Bytes) × (post : Bytes) × (r : Bytes) × (i ≡ length pre)
    × (b ≡ pre ++ (n ++ (post ++ (0 ∷ r))))

find-Located : (n t r : Bytes) (o : Option ℕ) → find n t ≡ o → Located n (t ++ (0 ∷ r)) o
find-Located n t r none e = tt
find-Located n t r (some i) e =
    let (pre, post, split, size) = find_sound n t e in
    (pre, post, r, sym size, ap (λ s. s ++ (0 ∷ r)) split ∙ simp append_assoc)

pub strstr-Located :
    (n b : Bytes)
    → n ≢ []
    → IsText n
    → Terminated b
    → Returns (Located n b) (strstr b (n ++ (0 ∷ [])))
strstr-Located n b ne hn (t, r, e, h) =
    rw (e, strstr-find n [] t r ne hn h) (returns (find-Located n t r (find n t) refl))

pub begins-Returns :
    (n b : Bytes)
    → IsText n
    → Terminated b
    → Returns (λ (x : Bool). Unit {0}) (begins (n ++ (0 ∷ [])) b)
begins-Returns n b hn (t, r, e, h) = rw (e, begins-is_prefix n [] t r hn h) (returns tt)

pub strlen-prefix :
    (b : Bytes) → Terminated b → Returns (λ n. Returns IsText (prefix n b)) (strlen b)
strlen-prefix b (t, r, e, h) =
    rw (e, strlen-text t r h) (returns (rw (prefix-append t (0 ∷ r)) (returns h)))

-- A write into the front of a buffer leaves what is behind it.
pub write_front :
    (s z : Bytes) (i : ℕ) (new : Bytes)
    → i + length new ≤ length s
    → Returns (λ b. (s' : Bytes) × (b ≡ s' ++ z) × (length s' ≡ length s)) (write (s ++ z) i new)
unfolding write
write_front s z zero [] h = returns (s, refl, refl)
write_front [] z zero (n ∷ new) h = absurd (omega arith)
write_front (c ∷ s) z zero (n ∷ new) h =
    Returns-then (write_front s z zero new (omega arith))
      (λ b (s', e, l). returns (n ∷ s', ap (λ r. n ∷ r) e, ap suc l))
write_front [] z (suc i) new h = absurd (omega arith)
write_front (c ∷ s) z (suc i) new h =
    Returns-then (write_front s z i new (omega arith))
      (λ b (s', e, l). returns (c ∷ s', ap (λ r. c ∷ r) e, ap suc l))

-- The byte `c` is not among the bytes of `n`, so that its place is behind them.
pub behind_front :
    (c : ℕ) (n x pre y : Bytes)
    → Avoids c n
    → n ++ x ≡ pre ++ (c ∷ y)
    → (b : Bytes) × (pre ≡ n ++ b)
behind_front c [] x pre y h e = (pre, refl)
behind_front c (a ∷ n) x [] y ((ne, _), h) e = absurd (ne cc)
behind_front c (a ∷ n) x (p ∷ pre) y (_, h) e =
    let rest : n ++ x ≡ pre ++ (c ∷ y) = cc in
    let head : p ≡ a = cc in
    let (b, split) = behind_front c n x pre y h rest in (b, ap₂ ◌∷◌ head split)
