-- ===== src/Sys/Resident.antt =====
-- rlsys/src/rlsys.c: `rl_get_memory_usage`, the line VmRSS of /proc/self/status.
pub mod Status
use custom_public_library_rl.Common.{
  Bool, true, false, ◌||◌, Option, none, some, List, [], ◌∷◌, ◌++◌, Run, ok, ◌>>=◌, ◌==◌,
  if◌then◌else◌, ℤ, negsuc, ◌==ℤ◌, Public, codes,
}
use custom_public_library_rl.Libc.{Bytes, is_digit, skip_spaces, signed_digits}
use custom_public_library_rl.Libc.Scan.{behind, lines_256}

abbrev starts_digit : Bytes → Bool
starts_digit [] = false
starts_digit (c ∷ s) = is_digit c

-- Whether `%d` finds a number: digits with an optional sign in front.
abbrev starts_number : Bytes → Bool
starts_number [] = false
starts_number (c ∷ s) = if c == b'-' || c == b'+' then starts_digit s else is_digit c

abbrev pub number_at : Bytes → Run (Option ℤ)
number_at s =
    if starts_number s then (do n ← signed_digits (s ++ (0 ∷ [])); ok (some n)) else ok none

-- What `%d` stores from the string behind `VmRSS:`.
abbrev pub scanned : Option Bytes → Run (Option ℤ)
scanned none = ok none
scanned (some s) = number_at (skip_spaces s)

abbrev pub status_line : Bytes
status_line = codes "VmRSS:"

-- `memory_usage`: the loop ends at the first line with a number.
abbrev or_later : Option ℤ → Run ℤ → Run ℤ
or_later none rest = rest
or_later (some n) rest = ok n

pub usage_loop : List Bytes → Run ℤ
usage_loop [] = ok (negsuc 0)
usage_loop (line ∷ lines) =
    let rest = usage_loop lines in do found ← scanned (behind status_line line); or_later found rest

module _ ⦃public : Public⦄ where
  open public use {rl_failed}

  -- `status` is the content of the file, `none` if it does not open.
  pub rl_get_memory_usage : Option Bytes → Run ℤ
  rl_get_memory_usage none = ok rl_failed
  rl_get_memory_usage (some status) = do
    memory_usage ← usage_loop (lines_256 status)
    if memory_usage ==ℤ negsuc 0 then ok rl_failed else ok memory_usage
