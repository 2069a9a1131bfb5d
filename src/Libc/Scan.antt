-- ===== src/Libc/Scan.antt =====
-- Reading lines from a stream and items from a line, as `fgets` and `sscanf` do.
pub mod Lines
pub mod Hex
use custom_public_library_rl.Common.{
  ℕ, zero, suc, ◌+◌, ◌-◌, ◌*◌, ◌^◌, min, Bool, true, false, ◌&&◌, ◌||◌, Option, none, some, List,
  [], ◌∷◌, ◌++◌, length, leb, ◌==◌, if◌then◌else◌,
}
use custom_public_library_rl.Libc.{Bytes, is_space, is_digit, skip_spaces, read_line}

-- The string in an array that holds `s` and a terminator behind it.
unfoldable pub until_nul : Bytes → Bytes
until_nul [] = []
until_nul (c ∷ s) = let rest = until_nul s in if c == 0 then [] else c ∷ rest

-- The pieces of a stream that repeated calls of `fgets` with a size of `suc n` read. Each call takes a
-- byte at least, so that the length of the stream is enough fuel.
unfoldable pub pieces : ℕ → ℕ → Bytes → List Bytes
pieces zero n stream = []
pieces (suc fuel) n [] = []
pieces (suc fuel) n (c ∷ stream) =
    let (line, rest) = read_line n (c ∷ stream) in line ∷ pieces fuel n rest

-- The strings that `while (fgets(line, 256, fp))` sees in turn.
unfoldable pub strings_of : List Bytes → List Bytes
strings_of [] = []
strings_of (line ∷ lines) = until_nul line ∷ strings_of lines

abbrev pub lines_256 : Bytes → List Bytes
lines_256 stream = strings_of (pieces (length stream) 255 stream)

-- What stands behind `prefix`, if the string starts with it.
unfoldable pub behind : Bytes → Bytes → Option Bytes
behind [] s = some s
behind (p ∷ ps) [] = none
behind (p ∷ ps) (c ∷ s) = if c == p then behind ps s else none

-- At most `n` bytes up to a blank, and what follows.
unfoldable pub word : ℕ → Bytes → Bytes × Bytes
word zero s = ([], s)
word (suc n) [] = ([], [])
word (suc n) (c ∷ s) = let (w, rest) = word n s in if is_space c then ([], c ∷ s) else (c ∷ w, rest)

abbrev pub nonempty_word : Bytes × Bytes → Option (Bytes × Bytes)
nonempty_word ([], rest) = none
nonempty_word (c ∷ w, rest) = some (c ∷ w, rest)

-- `%<n>s`
unfoldable pub scan_word : ℕ → Bytes → Option (Bytes × Bytes)
scan_word n s = nonempty_word (word n (skip_spaces s))

abbrev pub is_hex : ℕ → Bool
is_hex c = is_digit c || (leb b'a' c && leb c b'f') || (leb b'A' c && leb c b'F')

abbrev pub hex_value : ℕ → ℕ
hex_value c = if is_digit c then c - b'0' else if leb b'a' c then c - b'a' + 10 else c - b'A' + 10

-- The digits at the start, behind `acc`; none where there is no digit and `any` is false.
unfoldable pub hex_digits : Bool → ℕ → Bytes → Option (ℕ × Bytes)
hex_digits any acc [] = if any then some (acc, []) else none
hex_digits any acc (c ∷ s) =
    let more = hex_digits true (acc * 16 + hex_value c) s in
    if is_hex c then more else if any then some (acc, c ∷ s) else none

abbrev pub without_0x : Bytes → Bytes
without_0x (c ∷ d ∷ s) = if c == b'0' && (d == b'x' || d == b'X') then s else c ∷ d ∷ s
without_0x s = s

-- A value that no `unsigned long` of 32 bits holds becomes the greatest one.
abbrev pub saturate : Option (ℕ × Bytes) → Option (ℕ × Bytes)
saturate none = none
saturate (some (n, rest)) = some (min n (2 ^ 32 - 1), rest)

-- `%lx` of a number without a sign
unfoldable pub scan_hex : Bytes → Option (ℕ × Bytes)
scan_hex s = saturate (hex_digits false 0 (without_0x (skip_spaces s)))
