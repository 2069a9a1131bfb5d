-- ===== src/Libc/Text.antt =====
-- Buffers that hold a text: its bytes, a NUL byte, and whatever lies behind.
use native.Mathlib.Numerals.{add-one}
use custom_public_library_rl.Common.{
  Bool, true, not, ◌&&◌, ◌==◌, ℕ, ◌-◌, take, min, drop-drop_one, length-drop, length-take,
  take-append-drop, drop, ◌≤◌, ◌<◌, suc, ◌+◌, ◌≡◌, ◌≢◌, refl, [], ◌∷◌, ◌++◌, ok, arith, length,
  length-append, append_assoc, All, ne→==,
}
use custom_public_library_rl.Libc.{
  snprintf_str, prefix, Bytes, strlen, padded, strncpy, string_bytes, strcpy, strcat,
}
use custom_public_library_rl.Libc.Access.{write_within, write_past, prefix-append}

-- A text has no NUL byte.
abbrev pub IsText : Bytes → Type 0
IsText = All (λ c. c ≢ 0)

pub strlen-text : (t r : Bytes) → IsText t → strlen (t ++ 0 ∷ r) ≡ ok (length t)
unfolding strlen
strlen-text [] r h = refl
strlen-text (c ∷ t) r (hc, h) = rw (ne→== c 0 hc, strlen-text t r h, add-one)

pub string_bytes-text : (t r : Bytes) → IsText t → string_bytes (t ++ 0 ∷ r) ≡ ok (t ++ 0 ∷ [])
unfolding string_bytes
string_bytes-text t r h =
    let size : length t + 1 ≡ length (t ++ 0 ∷ []) = omega (arith, length-append t (0 ∷ [])) in
    rw (strlen-text t r h, size, ← append_assoc t (0 ∷ []) r) (prefix-append (t ++ 0 ∷ []) r)

pub padded-text : (t r : Bytes) → IsText t → padded (length t) (t ++ r) ≡ ok t
unfolding padded
padded-text [] r h = refl
padded-text (c ∷ t) r (hc, h) = rw (ne→== c 0 hc, padded-text t r h)

-- `strncpy` of at most the whole text copies without padding, and without a terminator.
pub strncpy-text :
    (t r dst : Bytes)
    → IsText t
    → length t ≤ length dst
    → strncpy dst (t ++ r) (length t) ≡ ok (t ++ drop (length t) dst)
unfolding strncpy
strncpy-text t r dst h room = rw (padded-text t r h) (write_within dst 0 t (omega arith))

-- `strcpy` and `strcat` into a buffer with room for the result and its terminator.
pub strcpy-text :
    (t r dst : Bytes)
    → IsText t
    → length t < length dst
    → strcpy dst (t ++ 0 ∷ r) ≡ ok (t ++ 0 ∷ drop (length t + 1) dst)
unfolding strcpy
strcpy-text t r dst h room =
    let size : length (t ++ 0 ∷ []) ≡ length t + 1 = omega (arith, length-append t (0 ∷ [])) in
    rw (string_bytes-text t r h, write_within dst 0 (t ++ 0 ∷ []) (omega arith), size, append_assoc)

pub strcat-text :
    (t u r dst : Bytes)
    → IsText t
    → IsText u
    → length u ≤ length dst
    → strcat (t ++ 0 ∷ dst) (u ++ 0 ∷ r) ≡ ok (t ++ (u ++ 0 ∷ drop (length u) dst))
unfolding strcat
strcat-text t u r dst ht hu room =
    let size : length (u ++ 0 ∷ []) ≡ suc (length u) = omega (arith, length-append u (0 ∷ [])) in
    rw (
      strlen-text t dst ht,
      string_bytes-text u r hu,
      write_past t (0 ∷ dst) (u ++ 0 ∷ []) (omega arith),
      size,
      append_assoc,
    )

-- Splitting a buffer that holds a text at a part of the text.
pub text_rest :
    (pre n post r : Bytes) → (pre ++ (n ++ post)) ++ 0 ∷ r ≡ pre ++ (n ++ (post ++ 0 ∷ r))
text_rest pre n post r = simp append_assoc

-- `snprintf(out, size, "%s", t)` with a size that is positive and no larger than `out`.
pub snprintf_str-text :
    (t r out : Bytes) (size : ℕ)
    → IsText t
    → 0 < size
    → size ≤ length out
    → snprintf_str out size (t ++ 0 ∷ r)
      ≡ ok (take (size - 1) t ++ 0 ∷ drop (length (take (size - 1) t) + 1) out)
unfolding snprintf_str
snprintf_str-text t r out size h positive room =
    let m = size - 1 in
    let part = take m t in
    let cut : min (length t) m ≡ length part = omega (arith, length-take m t) in
    let bytes : prefix (length part) (t ++ 0 ∷ r) ≡ ok part =
      rw (← append_assoc part (drop m t) (0 ∷ r), take-append-drop m t) at
        (prefix-append part (drop m t ++ 0 ∷ r)) in
    rw (
      strlen-text t r h,
      cut,
      bytes,
      ne→== size 0 (omega arith),
      write_within out 0 part (omega (arith, length-take m t)),
      write_past part (drop (length part) out) (0 ∷ [])
          (omega (arith, length-take m t, length-drop (length part) out)),
      drop-drop_one (length part) out,
    )

-- A test for texts.
abbrev no_nul : Bytes → Bool
no_nul [] = true
no_nul (c ∷ s) = not (c == 0) && no_nul s

pub IsText-of : (s : Bytes) → no_nul s ≡ true → IsText s
IsText-of [] h = tt
IsText-of (c ∷ s) h = let rest = IsText-of s (ground arith) in (ground arith, rest)
