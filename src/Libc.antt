-- ===== src/Libc.antt =====
-- Byte buffers and the functions of <string.h> that the library calls. A pointer to the start of a
-- buffer is the list of the bytes that may be accessed through it, and a step outside is a fault.
-- The target is 32-bit ARM (rlstr/object/rlstr.o): `size_t` has 32 bits and `char` is unsigned.
pub mod Access
pub mod Text
pub mod Search
pub mod Scan
pub mod Inet
use custom_public_library_rl.Common.{
  ℕ, zero, suc, ◌+◌, ◌-◌, ◌%◌, ◌^◌, Bool, true, false, Option, none, some, List, [], ◌∷◌, Run, ok,
  fault, ◌>>=◌, ltb, leb, ◌&&◌, ◌||◌, ◌*◌, ◌==◌, if◌then◌else◌, replicate, take, ◌++◌, min, ℤ, pos,
  negsuc,
}
use mathlib.Core.Option

abbrev pub Bytes : Type 0
Bytes = List ℕ

-- A pointer argument; `none` is NULL.
abbrev pub Ptr : Type 0
Ptr = Option Bytes

abbrev pub is_null : Ptr → Bool
is_null none = true
is_null (some _) = false

abbrev pub deref : Ptr → Run Bytes
deref none = fault
deref (some s) = ok s

abbrev pub size_mod : ℕ
size_mod = 2 ^ 32

-- `size_t` addition and subtraction
abbrev pub add_size : ℕ → ℕ → ℕ
add_size a b = (a + b) % size_mod

abbrev pub sub_size : ℕ → ℕ → ℕ
sub_size a b = (a + size_mod - b) % size_mod

-- the conversion of a `size_t` to `int`
abbrev pub to_int : ℕ → ℤ
to_int n = if ltb n (2 ^ 31) then pos n else negsuc (2 ^ 32 - n - 1)

-- the conversion of an `int` to `size_t`
abbrev pub to_size : ℤ → ℕ
to_size (pos n) = n % size_mod
to_size (negsuc n) = size_mod - (n + 1) % size_mod

-- `p[i]`
unfoldable pub read : Bytes → ℕ → Run ℕ
read [] i = fault
read (c ∷ s) zero = ok c
read (c ∷ s) (suc i) = read s i

-- the first `n` bytes behind a pointer
unfoldable pub prefix : ℕ → Bytes → Run Bytes
prefix zero s = ok []
prefix (suc n) [] = fault
prefix (suc n) (c ∷ s) = do r ← prefix n s; ok (c ∷ r)

-- the pointer `p + i`; it may point one past the end
unfoldable pub suffix : Bytes → ℕ → Run Bytes
suffix s zero = ok s
suffix [] (suc i) = fault
suffix (c ∷ s) (suc i) = suffix s i

-- stores the bytes `new` at `p + i`
unfoldable pub write : Bytes → ℕ → Bytes → Run Bytes
write s zero [] = ok s
write [] zero (n ∷ new) = fault
write (c ∷ s) zero (n ∷ new) = do r ← write s zero new; ok (n ∷ r)
write [] (suc i) new = fault
write (c ∷ s) (suc i) new = do r ← write s i new; ok (c ∷ r)

unfoldable pub memset : Bytes → ℕ → ℕ → Run Bytes
memset dst c n = write dst 0 (replicate n (c % 256))

unfoldable pub memcpy : Bytes → Bytes → ℕ → Run Bytes
memcpy dst src n = do bytes ← prefix n src; write dst 0 bytes

-- `memmove(s + to, s + from, n)` inside one buffer
unfoldable pub memmove : Bytes → ℕ → ℕ → ℕ → Run Bytes
memmove s to from n = do p ← suffix s from; bytes ← prefix n p; write s to bytes

unfoldable pub strlen : Bytes → Run ℕ
strlen [] = fault
strlen (c ∷ s) = if c == 0 then ok 0 else do n ← strlen s; ok (n + 1)

-- the `n` bytes that `strncpy` writes: the string, padded with NUL bytes
unfoldable pub padded : ℕ → Bytes → Run Bytes
padded zero s = ok []
padded (suc n) [] = fault
padded (suc n) (c ∷ s) = if c == 0 then ok (replicate (suc n) 0) else do r ← padded n s; ok (c ∷ r)

unfoldable pub strncpy : Bytes → Bytes → ℕ → Run Bytes
strncpy dst src n = do bytes ← padded n src; write dst 0 bytes

-- the string behind a pointer with its terminator
unfoldable pub string_bytes : Bytes → Run Bytes
string_bytes s = do n ← strlen s; prefix (n + 1) s

unfoldable pub strcpy : Bytes → Bytes → Run Bytes
strcpy dst src = do bytes ← string_bytes src; write dst 0 bytes

unfoldable pub strcat : Bytes → Bytes → Run Bytes
strcat dst src = do n ← strlen dst; bytes ← string_bytes src; write dst n bytes

-- the index of the first byte `ch` of a string; its terminator counts as part of it
unfoldable pub strchr : Bytes → ℕ → Run (Option ℕ)
strchr [] ch = fault
strchr (c ∷ s) ch =
    if c == ch
    then ok (some 0)
    else if c == 0
    then ok none
    else do found ← strchr s ch; ok (Option.map suc found)

-- whether the string `needle` stands at the start of `s`
unfoldable pub begins : Bytes → Bytes → Run Bool
begins [] s = fault
begins (n ∷ needle) [] = if n == 0 then ok true else fault
begins (n ∷ needle) (c ∷ s) =
    if n == 0 then ok true else if c == n then begins needle s else ok false

-- the index of the first occurrence of the string `needle`
unfoldable pub strstr : Bytes → Bytes → Run (Option ℕ)
strstr [] needle = fault
strstr (c ∷ s) needle = do
  here ← begins needle (c ∷ s)
  if here
      then ok (some 0)
      else do if c == 0 then ok none else do found ← strstr s needle; ok (Option.map suc found)

-- `snprintf(out, size, "%s", src)`: at most `size - 1` bytes and a terminator
unfoldable pub snprintf_str : Bytes → ℕ → Bytes → Run Bytes
snprintf_str out size src = do
  n ← strlen src
  bytes ← prefix (min n (size - 1)) src
  if size == 0 then ok out else do out' ← write out 0 bytes; write out' (min n (size - 1)) (0 ∷ [])

-- `strcmp` and `memcmp`: `diff` is the value returned at the first pair of bytes that differ, of
-- which C fixes the sign alone.
unfoldable pub strcmp : (ℕ → ℕ → ℤ) → Bytes → Bytes → Run ℤ
strcmp diff [] t = fault
strcmp diff (a ∷ s) [] = fault
strcmp diff (a ∷ s) (b ∷ t) =
    if a == b then (if a == 0 then ok (pos 0) else strcmp diff s t) else ok (diff a b)

unfoldable pub memcmp : (ℕ → ℕ → ℤ) → Bytes → Bytes → ℕ → Run ℤ
memcmp diff s t zero = ok (pos 0)
memcmp diff [] t (suc n) = fault
memcmp diff (a ∷ s) [] (suc n) = fault
memcmp diff (a ∷ s) (b ∷ t) (suc n) = if a == b then memcmp diff s t n else ok (diff a b)

abbrev pub is_digit : ℕ → Bool
is_digit c = leb b'0' c && leb c b'9'

abbrev pub is_space : ℕ → Bool
is_space c = c == b' ' || (leb 9 c && leb c 13)

unfoldable pub skip_spaces : Bytes → Bytes
skip_spaces [] = []
skip_spaces (c ∷ s) = if is_space c then skip_spaces s else c ∷ s

-- the number that the digits at a pointer spell behind `acc`
unfoldable pub scan_digits : Bytes → ℕ → Run ℕ
scan_digits [] acc = fault
scan_digits (c ∷ s) acc = if is_digit c then scan_digits s (acc * 10 + (c - b'0')) else ok acc

-- A value that no `int` holds is undefined behaviour.
abbrev pub int_pos : ℕ → Run ℤ
int_pos n = if ltb n (2 ^ 31) then ok (pos n) else fault

abbrev pub negate : ℕ → ℤ
negate zero = pos 0
negate (suc n) = negsuc n

abbrev pub int_neg : ℕ → Run ℤ
int_neg n = if leb n (2 ^ 31) then ok (negate n) else fault

abbrev pub signed_digits : Bytes → Run ℤ
signed_digits [] = fault
signed_digits (c ∷ s) =
    if c == b'-'
    then scan_digits s 0 >>= int_neg
    else if c == b'+'
    then scan_digits s 0 >>= int_pos
    else scan_digits (c ∷ s) 0 >>= int_pos

unfoldable pub atoi : Bytes → Run ℤ
atoi s = signed_digits (skip_spaces s)

-- the index of the first byte `ch` of a string, or of its terminator
unfoldable pub strcspn : Bytes → ℕ → Run ℕ
strcspn [] ch = fault
strcspn (c ∷ s) ch = if c == ch || c == 0 then ok 0 else do n ← strcspn s ch; ok (n + 1)

-- `snprintf(out, size, …)` with the text that the format and its arguments make
unfoldable pub snprintf : Bytes → ℕ → Bytes → Run Bytes
snprintf out size text = if size == 0 then ok out else write out 0 (take (size - 1) text ++ 0 ∷ [])

-- at most `n` bytes of a stream, up to its first newline and with it, and what follows
unfoldable pub read_line : ℕ → Bytes → Bytes × Bytes
read_line zero stream = ([], stream)
read_line (suc n) [] = ([], [])
read_line (suc n) (c ∷ stream) =
    if c == b'\n'
    then (c ∷ [], stream)
    else let (line, rest) = read_line n stream in (c ∷ line, rest)

-- `fgets(buf, size, stream)`: `none` at the end of the stream, else the buffer and the rest
unfoldable pub fgets : Bytes → ℕ → Bytes → Run (Option (Bytes × Bytes))
fgets buf size [] = ok none
fgets buf size (c ∷ stream) =
    let (line, rest) = read_line (size - 1) (c ∷ stream) in
    do buf' ← write buf 0 (line ++ 0 ∷ []); ok (some (buf', rest))
