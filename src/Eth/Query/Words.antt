-- ===== src/Eth/Query/Words.antt =====
-- The words that `sscanf` reads from a line of blanks and words, and the comparison with a constant.
use custom_public_library_rl.Common.{
  ℕ, zero, suc, ◌≤◌, ◌≡◌, ◌≢◌, refl, ap, ◌∙◌, Bool, true, false, not, false≢true, ◌&&◌, some, [],
  ◌∷◌, ◌++◌, Run, ok, fault, ◌>>=◌, Returns, returns, length, ◌==◌, arith, All, ℤ, pos, ◌==ℤ◌,
  Public,
}
use custom_public_library_rl.Libc.{Bytes, is_space, skip_spaces}
use custom_public_library_rl.Libc.Text.{IsText}
use custom_public_library_rl.Libc.Scan.{word, nonempty_word, scan_word}
use custom_public_library_rl.Str.Compare.{equal, ==_false, Differs, Compares, rl_strcmp_lem}
use custom_public_library_rl.Eth.{same}

-- A byte of a word: neither a blank nor NUL.
abbrev pub IsPrinted : ℕ → Type 0
IsPrinted c = (is_space c ≡ false) × (c ≢ 0)

-- A word that `%31s` reads as a whole.
abbrev pub IsToken : Bytes → Type 0
IsToken w = (w ≢ []) × All IsPrinted w × (length w ≤ 31)

word-printed :
    (n : ℕ) (w : Bytes) (c : ℕ) (rest : Bytes)
    → All IsPrinted w
    → length w ≤ n
    → is_space c ≡ true
    → word n (w ++ (c ∷ rest)) ≡ (w, c ∷ rest)
unfolding word
word-printed zero [] c rest h small e = refl
word-printed zero (d ∷ w) c rest h small e = absurd (omega arith)
word-printed (suc n) [] c rest h small e = rw e refl
word-printed (suc n) (d ∷ w) c rest ((hd, _), h) small e =
    rw (hd, word-printed n w c rest h (omega arith) e) refl

skip-printed : (w rest : Bytes) → w ≢ [] → All IsPrinted w → skip_spaces (w ++ rest) ≡ w ++ rest
unfolding skip_spaces
skip-printed [] rest ne h = absurd (ne refl)
skip-printed (d ∷ w) rest ne ((hd, _), h) = rw hd refl

nonempty_word_lem : (w rest : Bytes) → w ≢ [] → nonempty_word (w, rest) ≡ some (w, rest)
nonempty_word_lem [] rest ne = absurd (ne refl)
nonempty_word_lem (c ∷ w) rest ne = refl

pub scan_here :
    (n : ℕ) (w : Bytes) (c : ℕ) (rest : Bytes)
    → w ≢ []
    → All IsPrinted w
    → length w ≤ n
    → is_space c ≡ true
    → scan_word n (w ++ (c ∷ rest)) ≡ some (w, c ∷ rest)
unfolding scan_word
scan_here n w c rest ne h small e =
    rw (skip-printed w (c ∷ rest) ne h, word-printed n w c rest h small e)
      (nonempty_word_lem w (c ∷ rest) ne)

skip_blank : (b : ℕ) (s : Bytes) → is_space b ≡ true → skip_spaces (b ∷ s) ≡ skip_spaces s
unfolding skip_spaces
skip_blank b s e = rw e refl

-- A blank and a word in front of `rest`.
abbrev pub item : Bytes → Bytes → Bytes
item w rest = b' ' ∷ (w ++ rest)

pub scan_token :
    (w : Bytes) (c : ℕ) (rest : Bytes)
    → IsToken w
    → is_space c ≡ true
    → scan_word 31 (item w (c ∷ rest)) ≡ some (w, c ∷ rest)
unfolding scan_word
scan_token w c rest (ne, h, small) ec =
    ap (λ s. nonempty_word (word 31 s)) (skip_blank b' ' (w ++ (c ∷ rest)) refl)
    ∙ scan_here 31 w c rest ne h small ec

-- Bytes that are a word, as a test.
abbrev pub printed : Bytes → Bool
printed [] = true
printed (c ∷ w) = not (is_space c) && (not (c == 0) && printed w)

and_split : (a b : Bool) → (a && b) ≡ true → (a ≡ true) × (b ≡ true)
and_split true b h = (refl, h)
and_split false b h = absurd (false≢true h)

not-true : (a : Bool) → not a ≡ true → a ≡ false
not-true true h = absurd (false≢true h)
not-true false h = refl

pub printed_lem : (w : Bytes) → printed w ≡ true → All IsPrinted w
printed_lem [] h = tt
printed_lem (c ∷ w) h =
    let (hs, h') = and_split (not (is_space c)) (not (c == 0) && printed w) h in
    let (hz, h'') = and_split (not (c == 0)) (printed w) h' in
    ((not-true (is_space c) hs, ==_false c 0 (not-true (c == 0) hz)), printed_lem w h'')

IsPrinted-IsText : (w : Bytes) → All IsPrinted w → IsText w
IsPrinted-IsText [] h = tt
IsPrinted-IsText (c ∷ w) ((_, hc), h) = (hc, IsPrinted-IsText w h)

cons_ne : {c : ℕ} {w : Bytes} → (c ∷ w) ≢ []
cons_ne e = cc

-- Words of the source.
pub constant-IsText : (c : ℕ) (w : Bytes) → printed (c ∷ w) ≡ true → ((c ∷ w) ≢ []) × IsText (c ∷ w)
constant-IsText c w h = (cons_ne, IsPrinted-IsText (c ∷ w) (printed_lem (c ∷ w) h))

module _ ⦃public : Public⦄ where
  decided :
      (s t : Bytes) (m : Run ℤ)
      → Returns (Compares s t) m
      → (do c ← m; ok (c ==ℤ pos 0)) ≡ ok (equal s t)
  decided s t (ok z) (returns h) = ap ok h
  decided s t fault x = elim x [ ]

  -- The comparison of two nonempty texts decides whether they are equal.
  same_lem :
      (diff : ℕ → ℕ → ℤ) (s t : Bytes)
      → Differs diff
      → (s ≢ []) × IsText s
      → (t ≢ []) × IsText t
      → same diff s t ≡ ok (equal s t)
  unfolding same
  same_lem diff s t d (ns, hs) (nt, ht) = decided s t _ (rl_strcmp_lem diff s t [] [] d ns nt hs ht)

  pub same_token :
      (diff : ℕ → ℕ → ℤ) (w t : Bytes)
      → Differs diff
      → (w ≢ []) × All IsPrinted w
      → (t ≢ []) × IsText t
      → same diff w t ≡ ok (equal w t)
  same_token diff w t d (ne, h) = same_lem diff w t d (ne, IsPrinted-IsText w h)
