-- ===== src/Libc/Search.antt =====
-- `strchr` and `strstr` on buffers that hold texts.
use mathlib.Core.Option
use custom_public_library_rl.Common.{
  ℕ, suc, ◌≤◌, ◌≡◌, ◌≢◌, refl, ap, ap₂, false≢true, sym, Bool, true, false, not, ◌&&◌, Option, none,
  some, [], ◌∷◌, ◌++◌, ok, arith, length, All, ne→==, ==_refl, ==→eq, ◌==◌, if◌then◌else◌,
  Bool-cases, Option-cases, inl, inr,
}
use custom_public_library_rl.Libc.{Bytes, strchr, begins, strstr}
use custom_public_library_rl.Libc.Text.{IsText}

-- Neither the byte `ch` nor a terminator.
abbrev pub Avoids : ℕ → Bytes → Type 0
Avoids ch = All (λ c. (c ≢ ch) × (c ≢ 0))

abbrev avoids : ℕ → Bytes → Bool
avoids ch [] = true
avoids ch (c ∷ s) = not (c == ch) && (not (c == 0) && avoids ch s)

pub Avoids-of : (ch : ℕ) (s : Bytes) → avoids ch s ≡ true → Avoids ch s
Avoids-of ch [] h = tt
Avoids-of ch (c ∷ s) h =
    let rest : avoids ch s ≡ true = ground arith in
    (((λ e. ground arith), (λ e. ground arith)), Avoids-of ch s rest)

pub strchr_found :
    (pre s : Bytes) (ch : ℕ) → Avoids ch pre → strchr (pre ++ ch ∷ s) ch ≡ ok (some (length pre))
unfolding strchr
strchr_found [] s ch h = rw (==_refl ch)
strchr_found (c ∷ pre) s ch ((ne, text), h) =
    rw (ne→== c ch ne, ne→== c 0 text, strchr_found pre s ch h)

pub strchr_absent : (t r : Bytes) (ch : ℕ) → ch ≢ 0 → Avoids ch t → strchr (t ++ 0 ∷ r) ch ≡ ok none
unfolding strchr
strchr_absent [] r ch z h = rw (ne→== 0 ch (λ e. z (sym e)))
strchr_absent (c ∷ t) r ch z ((ne, text), h) =
    rw (ne→== c ch ne, ne→== c 0 text, strchr_absent t r ch z h)

-- The search on texts, apart from buffers and terminators.
unfoldable pub is_prefix : Bytes → Bytes → Bool
is_prefix [] t = true
is_prefix (n ∷ needle) [] = false
is_prefix (n ∷ needle) (c ∷ t) = if c == n then is_prefix needle t else false

unfoldable pub find : Bytes → Bytes → Option ℕ
find needle [] = none
find needle (c ∷ t) = if is_prefix needle (c ∷ t) then some 0 else Option.map suc (find needle t)

pub begins-is_prefix :
    (n q t r : Bytes) → IsText n → IsText t → begins (n ++ 0 ∷ q) (t ++ 0 ∷ r) ≡ ok (is_prefix n t)
unfolding begins is_prefix
begins-is_prefix [] q [] r hn ht = refl
begins-is_prefix [] q (c ∷ t) r hn ht = refl
begins-is_prefix (n ∷ ns) q [] r (hn, hns) ht = rw (ne→== n 0 hn, ne→== 0 n (λ e. hn (sym e)))
begins-is_prefix (n ∷ ns) q (c ∷ t) r (hn, hns) (hc, ht) =
    rw (ne→== n 0 hn) (ground (arith, begins-is_prefix ns q t r hns ht))

ok-if {ℓ} : {A : Type ℓ} (b : Bool) (x y : A) → (if b then ok x else ok y) ≡ ok (if b then x else y)
ok-if true x y = refl
ok-if false x y = refl

-- `strstr` of a nonempty needle finds what `find` finds.
pub strstr-find :
    (n q t r : Bytes)
    → n ≢ []
    → IsText n
    → IsText t
    → strstr (t ++ 0 ∷ r) (n ++ 0 ∷ q) ≡ ok (find n t)
unfolding strstr find is_prefix
strstr-find [] q t r e hn ht = absurd (e refl)
strstr-find (n ∷ ns) q [] r e hn ht = rw (begins-is_prefix (n ∷ ns) q [] r hn tt)
strstr-find (n ∷ ns) q (c ∷ t) r e hn (hc, ht) =
    rw
      (
        begins-is_prefix (n ∷ ns) q (c ∷ t) r hn (hc, ht),
        strstr-find (n ∷ ns) q t r e hn ht,
        ne→== c 0 hc,
      )
      (ok-if (is_prefix (n ∷ ns) (c ∷ t)) _ _)

pub is_prefix-append : (n post : Bytes) → is_prefix n (n ++ post) ≡ true
unfolding is_prefix
is_prefix-append [] post = refl
is_prefix-append (c ∷ n) post = rw (==_refl c) (is_prefix-append n post)

is_prefix_sound : (n t : Bytes) → is_prefix n t ≡ true → (post : Bytes) × (t ≡ n ++ post)
unfolding is_prefix
is_prefix_sound [] t h = (t, refl)
is_prefix_sound (c ∷ n) [] h = cc
is_prefix_sound (c ∷ n) (d ∷ t) h = elim (Bool-cases (d == c)) [
  | inl e ↦ let (post, p) = is_prefix_sound n t (rw e at h) in (post, ap₂ ◌∷◌ (==→eq d c e) p)
  | inr e ↦ absurd (false≢true (rw e at h))
]

-- Where `find` answers, the needle stands.
pub find_sound :
    (n t : Bytes) {i : ℕ}
    → find n t ≡ some i
    → (pre : Bytes) × (post : Bytes) × (t ≡ pre ++ (n ++ post)) × (length pre ≡ i)
unfolding find
find_sound n [] h = cc
find_sound n (c ∷ t) {i} h = elim (Bool-cases (is_prefix n (c ∷ t))) [
  | inl e ↦ let (post, p) = is_prefix_sound n (c ∷ t) e in ([], post, p, ground arith)
  | inr e ↦ elim (Option-cases (find n t)) [
    | inl p ↦ ground arith
    | inr (k, p) ↦
        let (pre, post, split, size) = find_sound n t p in
        (c ∷ pre, post, ap (λ s. c ∷ s) split, ground arith)
  ]
]

-- Wherever the needle stands, `find` answers with that place or an earlier one.
pub find_least :
    (m : ℕ) (n t pre post : Bytes)
    → t ≡ pre ++ ((m ∷ n) ++ post)
    → (i : ℕ) × (find (m ∷ n) t ≡ some i) × (i ≤ length pre)
unfolding find
find_least m n [] [] post h = cc
find_least m n [] (p ∷ pre) post h = cc
find_least m n (c ∷ t) [] post h =
    let e : is_prefix (m ∷ n) (c ∷ t) ≡ true = rw h (is_prefix-append (m ∷ n) post) in
    (0, rw e, omega arith)
find_least m n (c ∷ t) (p ∷ pre) post h =
    let rest : t ≡ pre ++ ((m ∷ n) ++ post) = cc in
    let (k, found, le) = find_least m n t pre post rest in
    elim (Bool-cases (is_prefix (m ∷ n) (c ∷ t))) [
      | inl e ↦ (0, rw e, omega arith)
      | inr e ↦ (suc k, rw (e, found), omega arith)
    ]

-- `needle` stands in `t` between `pre` and `post`, and no earlier.
pub record FirstAt (needle t pre post : Bytes) : Type 0 where
  pub split : t ≡ pre ++ (needle ++ post)
  pub first : (pre' post' : Bytes) → t ≡ pre' ++ (needle ++ post') → length pre ≤ length pre'

abbrev pub Absent : Bytes → Bytes → Type 0
Absent needle t = (pre post : Bytes) → t ≢ pre ++ (needle ++ post)

-- `strstr` finds the first occurrence, and NULL exactly when there is none.
pub strstr_first :
    (n q t r pre post : Bytes)
    → n ≢ []
    → IsText n
    → IsText t
    → FirstAt n t pre post
    → strstr (t ++ 0 ∷ r) (n ++ 0 ∷ q) ≡ ok (some (length pre))
strstr_first [] q t r pre post ne hn ht f = absurd (ne refl)
strstr_first (m ∷ n) q t r pre post ne hn ht f =
    let (i, found, le) = find_least m n t pre post f.split in
    let (pre', post', split', size) = find_sound (m ∷ n) t found in
    let here : i ≡ length pre = omega (arith, f.first pre' post' split') in
    rw (strstr-find (m ∷ n) q t r ne hn ht, found, here)

pub strstr-Absent :
    (n q t r : Bytes)
    → n ≢ []
    → IsText n
    → IsText t
    → Absent n t
    → strstr (t ++ 0 ∷ r) (n ++ 0 ∷ q) ≡ ok none
strstr-Absent n q t r ne hn ht none_here = elim (Option-cases (find n t)) [
  | inl e ↦ rw (strstr-find n q t r ne hn ht, e)
  | inr (i, e) ↦
      let (pre, post, split, size) = find_sound n t e in absurd (none_here pre post split)
]

-- On concrete texts the answer of `find` decides.
pub FirstAt-find :
    (m : ℕ) (n t pre post : Bytes)
    → t ≡ pre ++ ((m ∷ n) ++ post)
    → find (m ∷ n) t ≡ some (length pre)
    → FirstAt (m ∷ n) t pre post
FirstAt-find m n t pre post split found = record {
  split = split;
  first = λ pre' post' e.
      let (i, found', le) = find_least m n t pre' post' e in
      let same : i ≡ length pre = cc in omega (arith, same, le);
}

pub Absent-find : (m : ℕ) (n t : Bytes) → find (m ∷ n) t ≡ none → Absent (m ∷ n) t
Absent-find m n t missing pre post e = let (i, found, le) = find_least m n t pre post e in cc
