-- ===== src/Str.antt =====
-- rlstr/src/rlstr.c: guarded versions of the string functions, and edits of a string in place.
pub mod Edit
pub mod Remove
pub mod Replace
pub mod ReplaceChar
pub mod Copy
pub mod Digits
pub mod Compare
use custom_public_library_rl.Common.{
  ℕ, ◌+◌, ◌-◌, true, false, ◌||◌, Option, none, some, [], ◌∷◌, Run, ok, ◌>>=◌, ◌or_else◌, ltb, leb,
  ◌&&◌, suc, zero, Bool, ◌==◌, if◌then◌else◌, ℤ, pos, Public,
}
use custom_public_library_rl.Libc.{
  Bytes, Ptr, is_null, deref, add_size, sub_size, to_int, read, suffix, write, memset, memcpy,
  memmove, strlen, strncpy, strcpy, strcat, strchr, strstr, snprintf_str, strcmp, memcmp, is_digit,
  atoi, to_size,
}

-- `rl_memset` and `rl_memcpy` return `dst`, NULL when an argument is NULL.
pub rl_memset : Ptr → ℕ → ℕ → Run Ptr
rl_memset none c size = ok none
rl_memset (some dst) c size = do dst' ← memset dst c size; ok (some dst')

pub rl_memcpy : Ptr → Ptr → ℕ → Run Ptr
rl_memcpy dst src size =
    if is_null dst || is_null src
    then ok none
    else do d ← deref dst; s ← deref src; d' ← memcpy d s size; ok (some d')

-- RL_TRUE and RL_FALSE, as values of type `bool`, are `true` and `false`.
unfoldable pub rl_str_isempty : Ptr → Run Bool
rl_str_isempty none = ok true
rl_str_isempty (some buf) = do c ← read buf 0; if c == 0 then ok true else ok false

pub rl_strlen : Ptr → Run ℤ
rl_strlen src = do
  empty ← rl_str_isempty src
  if empty then ok (pos 0) else do s ← deref src; n ← strlen s; ok (to_int n)

module _ ⦃public : Public⦄ where
  open public use {rl_true, rl_false, rl_success, rl_failed}

  -- The pair is the return value and what `dst` points to afterwards.
  pub rl_strcpy_s : Ptr → ℕ → Ptr → Run (ℤ × Ptr)
  rl_strcpy_s dst dst_len src = do
    invalid ← ok (is_null dst) or_else rl_str_isempty src
    if invalid then ok (rl_failed, dst) else do
      d ← deref dst
      s ← deref src
      n ← strlen s
      let copy_size = if ltb (sub_size dst_len 1) n then sub_size dst_len 1 else n
      d ← strncpy d s copy_size
      d ← write d copy_size (0 ∷ [])
      ok (rl_success, some d)

  pub rl_strcmp : (ℕ → ℕ → ℤ) → Ptr → Ptr → Run ℤ
  rl_strcmp diff s1 s2 = do
    invalid ← rl_str_isempty s1 or_else rl_str_isempty s2
    if invalid then ok rl_failed else do a ← deref s1; b ← deref s2; strcmp diff a b

  -- `for (; i < len; i++)` with the rounds that are left
  isdigit_loop : Bytes → ℕ → ℕ → Run ℤ
  isdigit_loop s i zero = ok rl_true
  isdigit_loop s i (suc left) = do
    c ← read s i
    if is_digit c then isdigit_loop s (i + 1) left else ok rl_false

  pub rl_str_isdigit : Ptr → Run ℤ
  rl_str_isdigit buf = do
    empty ← rl_str_isempty buf
    if empty then ok rl_failed else do
      n ← rl_strlen buf
      let len = to_size n
      s ← deref buf
      c ← read s 0
      if c == b'-'
          then (if len == 1 then ok rl_false else isdigit_loop s 1 (len - 1))
          else isdigit_loop s 0 len

  pub rl_str_atoi : Ptr → Run ℤ
  rl_str_atoi str = do
    empty ← rl_str_isempty str
    if empty then ok rl_failed else do s ← deref str; atoi s

  -- `strtol` is the C library's, at a base.
  rl_str_strtol : (Bytes → ℤ → Run ℤ) → Ptr → ℤ → Run ℤ
  rl_str_strtol strtol str base = do
    empty ← rl_str_isempty str
    if empty then ok rl_failed else do s ← deref str; strtol s base

  pub rl_memcmp : (ℕ → ℕ → ℤ) → Ptr → Ptr → ℕ → Run ℤ
  rl_memcmp diff ptr1 ptr2 size = do
    invalid ← rl_str_isempty ptr1 or_else rl_str_isempty ptr2
    if invalid || size == 0
        then ok rl_failed
        else do a ← deref ptr1; b ← deref ptr2; memcmp diff a b size

  -- `*line = '\0'` where `strchr` found a newline
  cut_at : Bytes → Option ℕ → Run Bytes
  cut_at s none = ok s
  cut_at s (some line) = write s line (0 ∷ [])

  pub rl_str_rm_line : Ptr → Run (ℤ × Ptr)
  rl_str_rm_line buf = do
    empty ← rl_str_isempty buf
    if empty
        then ok (rl_failed, buf)
        else do s ← deref buf; line ← strchr s b'\n'; s' ← cut_at s line; ok (rl_success, some s')

  pub rl_str_insert_ch : Ptr → ℕ → ℕ → ℕ → Run (ℤ × Ptr)
  rl_str_insert_ch str at ch max = if is_null str || max == 0 then ok (rl_failed, str) else do
    s ← deref str
    len ← strlen s
    if leb (max - 1) len
        then ok (rl_failed, str)
        else if ltb len at || leb (max - 1) at
        then ok (rl_failed, str)
        else do
          s ← memmove s (at + 1) at (len - at + 1)
          s ← write s at (ch ∷ [])
          ok (rl_success, some s)

  pub rl_delete_char : Ptr → ℕ → Run (ℤ × Ptr)
  rl_delete_char str at = do
    s ← deref str
    len ← strlen s
    if leb len at
        then ok (rl_failed, str)
        else do s ← memmove s at (at + 1) (len - at); ok (rl_success, some s)

  -- The end of `rl_remove_substr`, at the place that `strstr` returned.
  remove_at : Bytes → Bytes → Option ℕ → Run (ℤ × Ptr)
  remove_at s t none = ok (rl_failed, some s)
  remove_at s t (some at) = do
    n ← strlen t
    rest ← suffix s (at + n)
    m ← strlen rest
    s ← memmove s at (at + n) (m + 1)
    ok (rl_success, some s)

  pub rl_remove_substr : Ptr → Ptr → Run (ℤ × Ptr)
  rl_remove_substr str target = do
    invalid ← rl_str_isempty str or_else rl_str_isempty target
    if invalid
        then ok (rl_failed, str)
        else do s ← deref str; t ← deref target; found ← strstr s t; remove_at s t found

  -- The end of `rl_replace_substr`. `buffer` is the local array `char buffer[len]`, with whatever
  -- it holds at first.
  replace_at : Bytes → Bytes → Bytes → ℕ → Bytes → Option ℕ → Run (ℤ × Ptr)
  replace_at s t r len buffer none = ok (rl_failed, some s)
  replace_at s t r len buffer (some prefix_len) = do
    replace_len ← strlen r
    n ← strlen t
    rest ← suffix s (prefix_len + n)
    rest_len ← strlen rest
    if ltb len (add_size (add_size (add_size prefix_len replace_len) rest_len) 1)
        then ok (rl_failed, some s)
        else do
          buffer ← strcpy buffer s
          buffer ← write buffer prefix_len (0 ∷ [])
          buffer ← strcat buffer r
          buffer ← strcat buffer rest
          s ← strcpy s buffer
          ok (rl_success, some s)

  pub rl_replace_substr : Ptr → Ptr → Ptr → ℕ → Bytes → Run (ℤ × Ptr)
  rl_replace_substr str target replace len buffer = do
    invalid ← rl_str_isempty str or_else rl_str_isempty target or_else rl_str_isempty replace
    if invalid then ok (rl_failed, str) else do
      s ← deref str
      t ← deref target
      r ← deref replace
      found ← strstr s t
      replace_at s t r len buffer found

  replace_char_at : Bytes → Bytes → ℕ → ℕ → Bytes → Option ℕ → Run (ℤ × Ptr)
  replace_char_at s t replace len buffer none = ok (rl_failed, some s)
  replace_char_at s t replace len buffer (some prefix_len) = do
    n ← strlen t
    rest ← suffix s (prefix_len + n)
    remain_len ← strlen rest
    if ltb len (add_size (add_size (add_size prefix_len 1) remain_len) 1)
        then ok (rl_failed, some s)
        else do
          buffer ← strncpy buffer s prefix_len
          buffer ← write buffer prefix_len (replace ∷ [])
          buffer ← write buffer (prefix_len + 1) (0 ∷ [])
          buffer ← strcat buffer rest
          s ← strcpy s buffer
          ok (rl_success, some s)

  pub rl_replace_char : Ptr → Ptr → ℕ → ℕ → Bytes → Run (ℤ × Ptr)
  rl_replace_char str target replace len buffer = do
    invalid ← rl_str_isempty str or_else rl_str_isempty target
    if invalid then ok (rl_failed, str) else do
      s ← deref str
      t ← deref target
      found ← strstr s t
      replace_char_at s t replace len buffer found

  after_char : Bytes → Ptr → ℕ → Option ℕ → Run (ℤ × Ptr)
  after_char s out out_size none = ok (rl_failed, out)
  after_char s out out_size (some at) = do
    c ← read s (at + 1)
    if c == 0 then ok (rl_failed, out) else do
      o ← deref out
      rest ← suffix s (at + 1)
      o ← snprintf_str o out_size rest
      ok (rl_success, some o)

  -- The pair is the return value and what `out` points to afterwards.
  pub rl_get_str_after_char : Ptr → ℕ → Ptr → ℕ → Run (ℤ × Ptr)
  rl_get_str_after_char src ch out out_size = do
    empty ← rl_str_isempty src
    if empty || is_null out || out_size == 0
        then ok (rl_failed, out)
        else do s ← deref src; at ← strchr s ch; after_char s out out_size at
