-- ===== src/Time/Command.antt =====
-- The command line that `rl_update_sys_time` prints.
use custom_public_library_rl.Common.{
  ℕ, ◌+◌, ◌-◌, ◌*◌, ◌<◌, ◌≡◌, refl, [], ◌∷◌, length, take, drop, arith,
}
use custom_public_library_rl.Libc.{Bytes}
use custom_public_library_rl.Time.{padded_digits, date_command}

-- The number that decimal digits stand for, after those that stand for `acc`.
abbrev number : Bytes → ℕ → ℕ
number [] acc = acc
number (c ∷ s) acc = number s (acc * 10 + (c - b'0'))

-- The number in the `width` columns from column `at`.
abbrev pub field : ℕ → ℕ → Bytes → ℕ
field at width s = number (take width (drop at s)) 0

-- For a year below 10000 and other fields below 100, the line is 37 bytes long, less than the
-- array of 64 bytes, and the number in each of its columns is the argument that was printed there.
date_command_lem :
    (year mon day hour min sec : ℕ)
    → year < 10000
    → mon < 100
    → day < 100
    → hour < 100
    → min < 100
    → sec < 100
    → let line = date_command year mon day hour min sec in
      (length line ≡ 37)
      × (field 17 4 line ≡ year)
      × (field 22 2 line ≡ mon)
      × (field 25 2 line ≡ day)
      × (field 28 2 line ≡ hour)
      × (field 31 2 line ≡ min)
      × (field 34 2 line ≡ sec)
unfolding date_command padded_digits
date_command_lem year mon day hour min sec y mo d h mi s =
    (refl, omega arith, omega arith, omega arith, omega arith, omega arith, omega arith)
