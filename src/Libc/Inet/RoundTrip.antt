-- ===== src/Libc/Inet/RoundTrip.antt =====
-- `inet_pton` reads what `inet_ntop` prints.
use custom_public_library_rl.Common.{
  ℕ, ◌+◌, ◌-◌, ◌*◌, ◌/◌, ◌≤◌, ◌<◌, ◌≡◌, ◌≢◌, refl, ap, ◌∙◌, Bool, true, false, ◌||◌, not, some, [],
  ◌∷◌, ◌++◌, append-nil, All-append, length, length-append, ltb, leb, ◌==◌, arith, Bool-cases, inl,
  inr,
}
use custom_public_library_rl.Libc.{Bytes, is_digit}
use custom_public_library_rl.Libc.Text.{IsText}
use custom_public_library_rl.Libc.Inet.{
  Ipv4, digit, octet_text, dotted, digits, octet_of, octet_from, octet, dot_octet, inet_pton,
}

-- No digit stands at the start.
abbrev no_digit : Bytes → Bool
no_digit [] = true
no_digit (c ∷ s) = not (is_digit c)

digits_none : (s : Bytes) → no_digit s ≡ true → digits s ≡ ([], s)
unfolding digits
digits_none [] h = refl
digits_none (c ∷ s) h = ground arith

digits_cons :
    (c : ℕ) (s ds rest : Bytes)
    → is_digit c ≡ true
    → digits s ≡ (ds, rest)
    → digits (c ∷ s) ≡ (c ∷ ds, rest)
unfolding digits
digits_cons c s ds rest d e = rw (e, d) refl

digit_lem : (n : ℕ) → is_digit (digit n) ≡ true
digit_lem n = ground arith

octet-digits :
    (s ds rest : Bytes) (n : ℕ)
    → digits s ≡ (ds, rest)
    → octet_of ds ≡ some n
    → octet s ≡ some (n, rest)
unfolding octet
octet-digits s ds rest n e e' = ap octet_from e ∙ (rw e' refl)

octet_lem :
    (n : ℕ) (rest : Bytes)
    → n < 256
    → no_digit rest ≡ true
    → octet (octet_text n ++ rest) ≡ some (n, rest)
unfolding octet_text
octet_lem n rest small h =
    let end = digits_none rest h in
    let one = digits_cons (digit n) rest [] rest (digit_lem n) end in
    let two =
      digits_cons (digit (n / 10)) (digit n ∷ rest) (digit n ∷ []) rest (digit_lem (n / 10)) one in
    let three =
      digits_cons (digit (n / 100)) (digit (n / 10) ∷ digit n ∷ rest)
        (digit (n / 10) ∷ digit n ∷ []) rest (digit_lem (n / 100)) two in
    elim (Bool-cases (ltb n 10)) [
      | inl e ↦
          let v : digit n - b'0' ≡ n = ground arith in
          rw e (octet-digits (digit n ∷ rest) (digit n ∷ []) rest n one (rw v refl))
      | inr e ↦ elim (Bool-cases (ltb n 100)) [
        | inl e' ↦
            let z : (digit (n / 10) == b'0') ≡ false = ground arith in
            let v : (digit (n / 10) - b'0') * 10 + (digit n - b'0') ≡ n = ground arith in
            rw (e, e')
              (octet-digits (digit (n / 10) ∷ digit n ∷ rest) (digit (n / 10) ∷ digit n ∷ []) rest n
                two (rw (z, v) refl))
        | inr e' ↦
            let v : (digit (n / 100) - b'0') * 100 + (digit (n / 10) - b'0') * 10 + (digit n - b'0')
                ≡ n =
              ground arith in
            let z : (digit (n / 100) == b'0'
                  || leb 256 (
                      (digit (n / 100) - b'0') * 100
                      + (digit (n / 10) - b'0') * 10
                      + (digit n - b'0')))
                ≡ false =
              rw v (ground arith) in
            rw (e, e')
              (octet-digits (digit (n / 100) ∷ digit (n / 10) ∷ digit n ∷ rest)
                (digit (n / 100) ∷ digit (n / 10) ∷ digit n ∷ []) rest n three (rw (z, v) refl))
      ]
    ]

dot_octet_lem :
    (n : ℕ) (rest : Bytes)
    → n < 256
    → no_digit rest ≡ true
    → dot_octet (b'.' ∷ octet_text n ++ rest) ≡ some (n, rest)
unfolding dot_octet
dot_octet_lem n rest small h = octet_lem n rest small h

-- The four numbers are bytes.
abbrev pub IsIpv4 : Ipv4 → Type 0
IsIpv4 a = (a.b0 < 256) × (a.b1 < 256) × (a.b2 < 256) × (a.b3 < 256)

pub inet_pton-dotted : (a : Ipv4) → IsIpv4 a → inet_pton (dotted a) ≡ some a
unfolding inet_pton dotted
inet_pton-dotted a (h0, h1, h2, h3) =
    let last : dot_octet (b'.' ∷ octet_text a.b3) ≡ some (a.b3, []) =
      rw (append-nil (octet_text a.b3)) at (dot_octet_lem a.b3 [] h3 refl) in
    rw
      (
        octet_lem a.b0
            (b'.' ∷ octet_text a.b1 ++ (b'.' ∷ octet_text a.b2 ++ (b'.' ∷ octet_text a.b3))) h0
            refl,
        dot_octet_lem a.b1 (b'.' ∷ octet_text a.b2 ++ (b'.' ∷ octet_text a.b3)) h1 refl,
        dot_octet_lem a.b2 (b'.' ∷ octet_text a.b3) h2 refl,
        last,
      )
      refl

-- What is printed is a nonempty text of at most 15 bytes.
octet_text-IsText :
    (n : ℕ)
    → n < 256
    → IsText (octet_text n) × (0 < length (octet_text n)) × (length (octet_text n) ≤ 3)
unfolding octet_text
octet_text-IsText n small = elim (Bool-cases (ltb n 10)) [
  | inl e ↦ rw e ((omega arith, tt), omega arith, omega arith)
  | inr e ↦ elim (Bool-cases (ltb n 100)) [
    | inl e' ↦ rw (e, e') ((omega arith, (omega arith, tt)), omega arith, omega arith)
    | inr e' ↦
        rw (e, e') ((omega arith, (omega arith, (omega arith, tt))), omega arith, omega arith)
  ]
]

dot-IsText : (n : ℕ) (rest : Bytes) → n < 256 → IsText rest → IsText (octet_text n ++ (b'.' ∷ rest))
dot-IsText n rest small h =
    All-append (λ c. c ≢ 0) (octet_text n) (b'.' ∷ rest) (octet_text-IsText n small).0
      (omega arith, h)

pub dotted-IsText : (a : Ipv4) → IsIpv4 a → IsText (dotted a)
unfolding dotted
dotted-IsText a (h0, h1, h2, h3) =
    dot-IsText a.b0 (octet_text a.b1 ++ (b'.' ∷ octet_text a.b2 ++ (b'.' ∷ octet_text a.b3))) h0 (
      dot-IsText a.b1 (octet_text a.b2 ++ (b'.' ∷ octet_text a.b3)) h1
        (dot-IsText a.b2 (octet_text a.b3) h2 (octet_text-IsText a.b3 h3).0))

pub length-dotted : (a : Ipv4) → IsIpv4 a → (0 < length (dotted a)) × (length (dotted a) ≤ 15)
unfolding dotted
length-dotted a (h0, h1, h2, h3) =
    let (_, _, s0) = octet_text-IsText a.b0 h0 in
    let (_, _, s1) = octet_text-IsText a.b1 h1 in
    let (_, _, s2) = octet_text-IsText a.b2 h2 in
    let (_, _, s3) = octet_text-IsText a.b3 h3 in
    let t2 = octet_text a.b2 ++ (b'.' ∷ octet_text a.b3) in
    let t1 = octet_text a.b1 ++ (b'.' ∷ t2) in
    (
      omega (arith, length-append (octet_text a.b0) (b'.' ∷ t1)),
      omega (
        arith,
        s0,
        s1,
        s2,
        s3,
        length-append (octet_text a.b0) (b'.' ∷ t1),
        length-append (octet_text a.b1) (b'.' ∷ t2),
        length-append (octet_text a.b2) (b'.' ∷ octet_text a.b3),
      ),
    )
