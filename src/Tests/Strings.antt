-- ===== src/Tests/Strings.antt =====
-- rlstr on concrete buffers.
use custom_public_library_rl.Common.{
  ◌≤◌, ◌≡◌, refl, some, [], ◌∷◌, ◌++◌, ok, ◌>>=◌, arith, length, codes, ap, get_or, pos, negsuc, ℤ,
  replicate,
}
use custom_public_library_rl.Libc.{Bytes, Ptr}
use custom_public_library_rl.Libc.Search.{FirstAt, Absent}
use custom_public_library_rl.Str.{
  rl_str_isdigit, rl_str_atoi, rl_str_insert_ch, rl_delete_char, rl_strcpy_s, rl_remove_substr,
  rl_replace_substr,
}
use custom_public_library_rl.Str.Edit.{insert_ch_lem, delete-insert}
use custom_public_library_rl.Str.Remove.{remove_substr_found}
use custom_public_library_rl.Str.Replace.{replace_substr_found}
use custom_public_library_rl.Str.Digits.{isdigit_lem, atoi_lem}
use custom_public_library_rl.Str.Copy.{strcpy_s_lem}
use custom_public_library_rl.Tests.{host, IsText-of}

-- "abc" in a buffer of 6 bytes, and "ab".
abbrev abc : Bytes
abc = codes "abc"

abbrev spare : Bytes
spare = 7 ∷ 7 ∷ []

insert_ch_lem_example :
    rl_str_insert_ch (some (abc ++ 0 ∷ spare)) 1 b'x' 6
    ≡ ok (pos 0, some (codes "axbc" ++ 0 ∷ 7 ∷ []))
insert_ch_lem_example = insert_ch_lem abc spare 1 b'x' 6 (IsText-of abc refl) (omega arith)

delete-insert_example :
    (rl_str_insert_ch (some (abc ++ 0 ∷ spare)) 3 b'x' 6 >>= λ ((code, str) : ℤ × Ptr).
    rl_delete_char str 3)
    ≡ ok (pos 0, some (abc ++ 0 ∷ 0 ∷ 7 ∷ []))
delete-insert_example =
    delete-insert abc spare 3 b'x' 6 (IsText-of abc refl) (omega arith) (omega arith) (omega arith)
      (omega arith)

-- "b" stands in "abcb" first behind "a".
abbrev abcb : Bytes
abcb = codes "abcb"

behind_a : (pre post : Bytes) → abcb ≡ pre ++ (codes "b" ++ post) → 1 ≤ length pre
behind_a [] post e = let h = ap (λ s. get_or s 0 0) e in absurd (omega (arith, h))
behind_a (p ∷ pre) post e = omega arith

b_first : FirstAt (codes "b") abcb (codes "a") (codes "cb")
b_first = record { split = refl; first = behind_a }

no_x : Absent (codes "x") abc
no_x [] post = λ e. omega (arith, ap (λ s. get_or s 0 0) e)
no_x (p ∷ []) post = λ e. omega (arith, ap (λ s. get_or s 1 0) e)
no_x (p ∷ q ∷ []) post = λ e. omega (arith, ap (λ s. get_or s 2 0) e)
no_x (p ∷ q ∷ r ∷ []) post = λ e. omega (arith, ap length e)
no_x (p ∷ q ∷ r ∷ s ∷ pre) post = λ e. omega (arith, ap length e)

remove_substr_found_example :
    rl_remove_substr (some (abcb ++ 0 ∷ spare)) (some (codes "b" ++ 0 ∷ []))
    ≡ ok (pos 0, some (codes "acb" ++ 0 ∷ 0 ∷ spare))
remove_substr_found_example =
    remove_substr_found abcb spare (codes "b") [] (codes "a") (codes "cb") (λ e. cc)
      (IsText-of (codes "b") refl) (IsText-of abcb refl) b_first

replace_substr_found_example :
    rl_replace_substr
      (some (abcb ++ 0 ∷ spare))
      (some (codes "b" ++ 0 ∷ []))
      (some (codes "xy" ++ 0 ∷ []))
      6
      (replicate 6 9)
    ≡ ok (pos 0, some (codes "axycb" ++ 0 ∷ 7 ∷ []))
replace_substr_found_example =
    replace_substr_found abcb spare (codes "b") [] (codes "a") (codes "cb") (codes "xy") []
      (replicate 6 9) 6 (λ e. cc) (λ e. cc) (IsText-of (codes "b") refl)
      (IsText-of (codes "xy") refl) (IsText-of abcb refl) b_first refl (omega arith) (omega arith)
      (omega arith) (omega arith)

isdigit_lem_example : rl_str_isdigit (some (codes "-42" ++ 0 ∷ spare)) ≡ ok (pos 1)
isdigit_lem_example =
    isdigit_lem (codes "-42") spare (λ e. cc) (IsText-of (codes "-42") refl) (omega arith)

atoi_lem_example : rl_str_atoi (some (codes "-42" ++ 0 ∷ spare)) ≡ ok (negsuc 41)
atoi_lem_example = atoi_lem (codes "-42") spare (IsText-of (codes "-42") refl) refl (omega arith)

strcpy_s_lem_example :
    rl_strcpy_s (some (replicate 3 9)) 3 (some (abc ++ 0 ∷ []))
    ≡ ok (pos 0, some (codes "ab" ++ 0 ∷ []))
strcpy_s_lem_example =
    strcpy_s_lem abc [] (replicate 3 9) 3 (λ e. cc) (IsText-of abc refl) (omega arith) (omega arith)
      (omega arith)
