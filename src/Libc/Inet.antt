-- ===== src/Libc/Inet.antt =====
-- `inet_ntop` and `inet_pton` for IPv4.
pub mod RoundTrip
use custom_public_library_rl.Common.{
  ℕ, zero, suc, ◌+◌, ◌-◌, ◌*◌, ◌/◌, ◌%◌, Bool, true, false, ◌&&◌, ◌||◌, not, Option, none, some,
  List, [], ◌∷◌, ◌++◌, Run, ok, ◌>>=◌, length, ltb, leb, ◌==◌, if◌then◌else◌,
}
use custom_public_library_rl.Libc.{Bytes, is_digit, write}

-- The four bytes of an `in_addr`, in the order of memory.
pub record Ipv4 : Type 0 where
  pub b0 : ℕ
  pub b1 : ℕ
  pub b2 : ℕ
  pub b3 : ℕ

abbrev pub digit : ℕ → ℕ
digit n = b'0' + n % 10

-- a byte in decimal
unfoldable pub octet_text : ℕ → Bytes
octet_text n =
    if ltb n 10
    then digit n ∷ []
    else if ltb n 100
    then digit (n / 10) ∷ digit n ∷ []
    else digit (n / 100) ∷ digit (n / 10) ∷ digit n ∷ []

unfoldable pub dotted : Ipv4 → Bytes
dotted a =
    octet_text a.b0
    ++ (b'.' ∷ octet_text a.b1 ++ (b'.' ∷ octet_text a.b2 ++ (b'.' ∷ octet_text a.b3)))

-- `none` is the answer NULL, where the text and its terminator do not fit `size`.
unfoldable pub inet_ntop : Ipv4 → Bytes → ℕ → Run (Option Bytes)
inet_ntop a buf size =
    if ltb (length (dotted a)) size
    then (do buf' ← write buf 0 (dotted a ++ 0 ∷ []); ok (some buf'))
    else ok none

-- the digits at the start of a string, and what follows
unfoldable pub digits : Bytes → Bytes × Bytes
digits [] = ([], [])
digits (c ∷ s) = let (ds, rest) = digits s in if is_digit c then (c ∷ ds, rest) else ([], c ∷ s)

-- one to three digits, with no needless zero in front, of a number below 256
abbrev pub octet_of : Bytes → Option ℕ
octet_of (a ∷ []) = some (a - b'0')
octet_of (a ∷ b ∷ []) = if a == b'0' then none else some ((a - b'0') * 10 + (b - b'0'))
octet_of (a ∷ b ∷ c ∷ []) =
    let n = (a - b'0') * 100 + (b - b'0') * 10 + (c - b'0') in
    if a == b'0' || leb 256 n then none else some n
octet_of _ = none

abbrev with_rest : Option ℕ → Bytes → Option (ℕ × Bytes)
with_rest none rest = none
with_rest (some n) rest = some (n, rest)

abbrev pub octet_from : Bytes × Bytes → Option (ℕ × Bytes)
octet_from (ds, rest) = with_rest (octet_of ds) rest

unfoldable pub octet : Bytes → Option (ℕ × Bytes)
octet s = octet_from (digits s)

-- a dot and an octet
unfoldable pub dot_octet : Bytes → Option (ℕ × Bytes)
dot_octet [] = none
dot_octet (c ∷ s) = if c == b'.' then octet s else none

infixl 5 ◌>>=?◌
abbrev ◌>>=?◌ : {A B : Type 0} → Option A → (A → Option B) → Option B
none >>=? f = none
some a >>=? f = f a

unfoldable pub inet_pton : Bytes → Option Ipv4
inet_pton s = octet s >>=? λ ((a, s) : ℕ × Bytes). dot_octet s >>=? λ ((b, s) : ℕ × Bytes).
    dot_octet s >>=? λ ((c, s) : ℕ × Bytes). dot_octet s >>=? λ ((d, s) : ℕ × Bytes).
    if length s == 0 then some (record { b0 = a; b1 = b; b2 = c; b3 = d }) else none
