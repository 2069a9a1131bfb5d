-- ===== src/Libc/Scan/Hex.antt =====
-- Reading the numbers that have been printed in hexadecimal.
use custom_public_library_rl.Common.{
  ℕ, ◌+◌, ◌-◌, ◌*◌, ◌^◌, ◌<◌, ◌≡◌, ◌≢◌, refl, ap, ◌∙◌, Bool, true, false, some, List, [], ◌∷◌, ◌++◌,
  ltb, if◌then◌else◌, arith, All,
}
use custom_public_library_rl.Libc.{Bytes, is_space, skip_spaces}
use custom_public_library_rl.Libc.Scan.{
  is_hex, hex_value, hex_digits, without_0x, saturate, scan_hex,
}

-- The digit of a number below 16, as `%X` prints it.
abbrev hex_char : ℕ → ℕ
hex_char d = if ltb d 10 then b'0' + d else b'A' + (d - 10)

abbrev pub hex_text : List ℕ → Bytes
hex_text [] = []
hex_text (d ∷ ds) = hex_char d ∷ hex_text ds

-- The number that digits spell behind `acc`.
abbrev pub spelled : ℕ → List ℕ → ℕ
spelled acc [] = acc
spelled acc (d ∷ ds) = spelled (acc * 16 + d) ds

-- Digits of a number of 32 bits.
abbrev pub IsHex : List ℕ → Type 0
IsHex ds = (ds ≢ []) × All (λ d. d < 16) ds × (spelled 0 ds < 2 ^ 32)

hex_char_lem : (d : ℕ) → d < 16 → (is_hex (hex_char d) ≡ true) × (hex_value (hex_char d) ≡ d)
hex_char_lem d h = (ground arith, ground arith)

hex_char_other :
    (d : ℕ) → d < 16 → (is_space (hex_char d) ≡ false) × (hex_char d ≢ b'x') × (hex_char d ≢ b'X')
hex_char_other d h = (ground arith, (λ e. ground arith), (λ e. ground arith))

digits_end :
    (acc c : ℕ) (rest : Bytes)
    → is_hex c ≡ false
    → hex_digits true acc (c ∷ rest) ≡ some (acc, c ∷ rest)
unfolding hex_digits
digits_end acc c rest h = rw h refl

digits_step :
    (any : Bool) (acc d : ℕ) (s : Bytes)
    → d < 16
    → hex_digits any acc (hex_char d ∷ s) ≡ hex_digits true (acc * 16 + d) s
unfolding hex_digits
digits_step any acc d s h = let (hx, hv) = hex_char_lem d h in rw (hx, hv) refl

digits_lem :
    (acc : ℕ) (ds : List ℕ) (c : ℕ) (rest : Bytes)
    → All (λ d. d < 16) ds
    → is_hex c ≡ false
    → hex_digits true acc (hex_text ds ++ (c ∷ rest)) ≡ some (spelled acc ds, c ∷ rest)
digits_lem acc [] c rest h hc = digits_end acc c rest hc
digits_lem acc (d ∷ ds) c rest (hd, h) hc =
    digits_step true acc d (hex_text ds ++ (c ∷ rest)) hd ∙ digits_lem (acc * 16 + d) ds c rest h hc

without_0x_lem : (a b : ℕ) (s : Bytes) → b ≢ b'x' → b ≢ b'X' → without_0x (a ∷ b ∷ s) ≡ a ∷ b ∷ s
without_0x_lem a b s hx hX = ground arith

no_0x :
    (d : ℕ) (ds rest : Bytes)
    → All (λ d. d < 16) ds
    → without_0x (hex_char d ∷ (hex_text ds ++ (b'\t' ∷ rest)))
      ≡ hex_char d ∷ (hex_text ds ++ (b'\t' ∷ rest))
no_0x d [] rest h = without_0x_lem (hex_char d) b'\t' rest (λ e. omega arith) (λ e. omega arith)
no_0x d (d' ∷ ds) rest (hd, h) =
    let (_, hx, hX) = hex_char_other d' hd in
    without_0x_lem (hex_char d) (hex_char d') (hex_text ds ++ (b'\t' ∷ rest)) hx hX

saturate_lem : (n : ℕ) (rest : Bytes) → n < 2 ^ 32 → saturate (some (n, rest)) ≡ some (n, rest)
saturate_lem n rest h = ap (λ m. some (m, rest)) (omega arith)

skip_tab : (c : ℕ) (s : Bytes) → is_space c ≡ false → skip_spaces (b'\t' ∷ c ∷ s) ≡ c ∷ s
unfolding skip_spaces
skip_tab c s h = rw h refl

-- A number between two tabs.
pub scan_hex_lem :
    (ds : List ℕ) (rest : Bytes)
    → IsHex ds
    → scan_hex (b'\t' ∷ (hex_text ds ++ (b'\t' ∷ rest))) ≡ some (spelled 0 ds, b'\t' ∷ rest)
unfolding scan_hex
scan_hex_lem [] rest (ne, h, small) = absurd (ne refl)
scan_hex_lem (d ∷ ds) rest (ne, (hd, h), small) =
    ap (λ t. saturate (hex_digits false 0 (without_0x t)))
      (skip_tab (hex_char d) _ (hex_char_other d hd).0)
    ∙ ap (λ t. saturate (hex_digits false 0 t)) (no_0x d ds rest h)
    ∙ ap saturate (digits_step false 0 d _ hd ∙ digits_lem (0 * 16 + d) ds b'\t' rest h refl)
    ∙ saturate_lem (spelled 0 (d ∷ ds)) (b'\t' ∷ rest) small
