-- ===== src/Sys/Resident/Status.antt =====
-- `rl_get_memory_usage` on a file of lines.
use custom_public_library_rl.Common.{
  ℕ, ◌^◌, ◌<◌, ◌≡◌, ◌≢◌, refl, ap, ◌∙◌, true, false, none, some, List, [], ◌∷◌, ◌++◌, append_assoc,
  ok, lt→ltb, ◌==◌, arith, All, All-append, pos, negsuc, Public, codes,
}
use custom_public_library_rl.Libc.{Bytes, is_space, is_digit, skip_spaces, int_pos}
use custom_public_library_rl.Libc.Scan.{behind}
use custom_public_library_rl.Libc.Scan.Lines.{
  IsLine, content_of, with_newlines, lines_256-content_of,
}
use custom_public_library_rl.Str.Digits.{all_digits, value, scan_digits-end}
use custom_public_library_rl.Sys.Resident.{
  number_at, scanned, status_line, usage_loop, rl_get_memory_usage,
}

-- A line that tells the size: blanks and digits behind `VmRSS:`, and ` kB`.
abbrev size_line : Bytes → Bytes → Bytes
size_line blanks digits = status_line ++ (blanks ++ (digits ++ codes " kB"))

-- A line of another kind.
abbrev IsOther : Bytes → Type 0
IsOther l = IsLine l × (behind status_line (l ++ (b'\n' ∷ [])) ≡ none)

skip_blanks :
    (blanks s : Bytes)
    → All (λ c. is_space c ≡ true) blanks
    → skip_spaces (blanks ++ s) ≡ skip_spaces s
unfolding skip_spaces
skip_blanks [] s h = refl
skip_blanks (c ∷ blanks) s (hc, h) = rw (hc, skip_blanks blanks s h) refl

digit_no_space : (c : ℕ) (s : Bytes) → is_digit c ≡ true → skip_spaces (c ∷ s) ≡ c ∷ s
unfolding skip_spaces
digit_no_space c s h = let other : is_space c ≡ false = ground arith in rw other refl

digits_head : (c : ℕ) (t : Bytes) → all_digits (c ∷ t) ≡ true → is_digit c ≡ true
digits_head c t h = ground arith

digit_no_sign : (c : ℕ) → is_digit c ≡ true → ((c == b'-') ≡ false) × ((c == b'+') ≡ false)
digit_no_sign c h = (ground arith, ground arith)

number_lem :
    (c : ℕ) (t : Bytes)
    → all_digits (c ∷ t) ≡ true
    → value 0 (c ∷ t) < 2 ^ 31
    → number_at ((c ∷ t) ++ (b' ' ∷ (codes "kB" ++ (b'\n' ∷ []))))
      ≡ ok (some (pos (value 0 (c ∷ t))))
number_lem c t h small =
    let d = digits_head c t h in
    let (minus, plus) = digit_no_sign c d in
    let int : int_pos (value 0 (c ∷ t)) ≡ ok (pos (value 0 (c ∷ t))) =
      rw (lt→ltb (value 0 (c ∷ t)) (2 ^ 31) small) refl in
    rw
      (
        minus,
        plus,
        d,
        append_assoc t (b' ' ∷ (codes "kB" ++ (b'\n' ∷ []))) (0 ∷ []),
        scan_digits-end (c ∷ t) (codes "kB" ++ (b'\n' ∷ 0 ∷ [])) 0 b' ' refl h,
        int,
      )
      refl

-- Blanks, and digits of a number that an `int` holds.
abbrev IsSize : Bytes → Bytes → Type 0
IsSize blanks digits =
    All (λ c. is_space c ≡ true) blanks
    × (digits ≢ [])
    × (all_digits digits ≡ true)
    × (value 0 digits < 2 ^ 31)

size_text :
    (blanks digits : Bytes)
    → size_line blanks digits ++ (b'\n' ∷ [])
      ≡ status_line ++ (blanks ++ (digits ++ (b' ' ∷ (codes "kB" ++ (b'\n' ∷ [])))))
size_text blanks digits =
    ap (λ s. status_line ++ s)
      (append_assoc blanks (digits ++ codes " kB") (b'\n' ∷ [])
        ∙ ap (λ s. blanks ++ s) (append_assoc digits (codes " kB") (b'\n' ∷ [])))

behind_status : (s : Bytes) → behind status_line (status_line ++ s) ≡ some s
unfolding behind
behind_status s = refl

number_here :
    (digits : Bytes)
    → digits ≢ []
    → all_digits digits ≡ true
    → value 0 digits < 2 ^ 31
    → number_at (skip_spaces (digits ++ (b' ' ∷ (codes "kB" ++ (b'\n' ∷ [])))))
      ≡ ok (some (pos (value 0 digits)))
number_here [] ne h small = absurd (ne refl)
number_here (c ∷ t) ne h small =
    let end = b' ' ∷ (codes "kB" ++ (b'\n' ∷ [])) in
    ap number_at (digit_no_space c (t ++ end) (digits_head c t h)) ∙ number_lem c t h small

scanned_size :
    (blanks digits : Bytes)
    → IsSize blanks digits
    → scanned (behind status_line (size_line blanks digits ++ (b'\n' ∷ [])))
      ≡ ok (some (pos (value 0 digits)))
scanned_size blanks digits (hb, ne, h, small) =
    let end = digits ++ (b' ' ∷ (codes "kB" ++ (b'\n' ∷ []))) in
    ap (λ s. scanned (behind status_line s)) (size_text blanks digits)
    ∙ ap scanned (behind_status (blanks ++ end))
    ∙ ap number_at (skip_blanks blanks end hb)
    ∙ number_here digits ne h small

usage_loop_lem :
    (before after : List Bytes) (blanks digits : Bytes)
    → All IsOther before
    → IsSize blanks digits
    → usage_loop (with_newlines (before ++ (size_line blanks digits ∷ after)))
      ≡ ok (pos (value 0 digits))
unfolding usage_loop
usage_loop_lem [] after blanks digits h size = rw (scanned_size blanks digits size) refl
usage_loop_lem (l ∷ before) after blanks digits ((_, none_here), h) size =
    rw (ap scanned none_here, usage_loop_lem before after blanks digits h size) refl

others_IsLine : (ls : List Bytes) → All IsOther ls → All IsLine ls
others_IsLine [] h = tt
others_IsLine (l ∷ ls) ((hl, _), h) = (hl, others_IsLine ls h)

usage_absent_loop :
    (ls : List Bytes) → All IsOther ls → usage_loop (with_newlines ls) ≡ ok (negsuc 0)
unfolding usage_loop
usage_absent_loop [] h = refl
usage_absent_loop (l ∷ ls) ((_, none_here), h) =
    rw (ap scanned none_here, usage_absent_loop ls h) refl

module _ ⦃public : Public⦄ where
  open public use {rl_failed}

  -- On a file of lines of less than 255 bytes and without a NUL, in which lines that do not start
  -- with `VmRSS:` stand in front of one that has blanks, the digits of a number below 2^31 and `
  -- kB` behind it, and any lines follow, `rl_get_memory_usage` returns that number.
  pub memory_usage_lem :
      (before after : List Bytes) (blanks digits : Bytes)
      → All IsOther before
      → IsLine (size_line blanks digits)
      → IsSize blanks digits
      → All IsLine after
      → rl_get_memory_usage (some (content_of (before ++ (size_line blanks digits ∷ after))))
        ≡ ok (pos (value 0 digits))
  unfolding rl_get_memory_usage
  memory_usage_lem before after blanks digits h line size rest =
      let lines =
        All-append IsLine before (size_line blanks digits ∷ after) (others_IsLine before h)
          (line, rest) in
      rw
        (
          lines_256-content_of (before ++ (size_line blanks digits ∷ after)) lines,
          usage_loop_lem before after blanks digits h size,
        )
        refl

  -- Where no line starts with `VmRSS:`, the result is RL_FAILED.
  memory_usage_absent :
      (ls : List Bytes) → All IsOther ls → rl_get_memory_usage (some (content_of ls)) ≡ ok rl_failed
  unfolding rl_get_memory_usage
  memory_usage_absent ls h =
      rw (lines_256-content_of ls (others_IsLine ls h), usage_absent_loop ls h) refl
