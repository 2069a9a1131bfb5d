-- ===== src/Sys/Temperature.antt =====
-- `rl_get_cpu_temperature`.
use custom_public_library_rl.Common.{
  ℕ, zero, suc, ◌-◌, ◌≤◌, ◌<◌, ◌^◌, ◌≡◌, ◌≢◌, refl, true, some, [], ◌∷◌, ◌++◌, ok, arith, length,
  take_all, take, drop, length-take, append_assoc, Public,
}
use custom_public_library_rl.Libc.{Bytes, write, size_mod}
use custom_public_library_rl.Libc.Access.{write_within}
use custom_public_library_rl.Common.Int.{==ℤ_refl}
use custom_public_library_rl.Str.Copy.{rm_line_found, rm_line_absent, Avoids-IsText}
use custom_public_library_rl.Str.Digits.{
  spells_number, number, value, isdigit_lem, atoi_lem, number-Avoids,
}
use custom_public_library_rl.Sys.{rl_get_cpu_temperature}

take_past :
    (t rest : Bytes) (c n : ℕ)
    → length t < n
    → take n (t ++ c ∷ rest) ≡ t ++ c ∷ take (n - suc (length t)) rest
take_past [] rest c zero h = absurd (omega arith)
take_past [] rest c (suc n) h = let e : suc n - 1 ≡ n = omega arith in rw e
take_past (d ∷ t) rest c zero h = absurd (omega arith)
take_past (d ∷ t) rest c (suc n) h =
    let e : suc n - suc (suc (length t)) ≡ n - suc (length t) = omega arith in
    rw (e, take_past t rest c n (omega arith))

module _ ⦃public : Public⦄ where
  -- For a file whose first line is digits with an optional minus sign, at most 14 characters that
  -- end with a newline, and a number of an absolute value below 2^31, `rl_get_cpu_temperature`
  -- returns that number, whatever the local array of 16 bytes holds at first.
  pub temperature_lem :
      (t rest buf : Bytes)
      → spells_number t ≡ true
      → length t < 15
      → value 0 t < 2 ^ 31
      → length buf ≡ 16
      → rl_get_cpu_temperature (some (t ++ b'\n' ∷ rest)) buf ≡ ok (number t)
  unfolding rl_get_cpu_temperature
  temperature_lem [] rest buf spells short fits size = cc
  temperature_lem (c ∷ t) rest buf spells short fits size =
      let line = c ∷ t in
      let content = line ++ b'\n' ∷ rest in
      let cut = take (14 - suc (length t)) rest in
      let behind = cut ++ drop (length (line ++ b'\n' ∷ cut)) buf in
      let stored : write buf 0 (take 15 content) ≡ ok (line ++ b'\n' ∷ behind) =
        rw (write_within buf 0 (take 15 content) (omega (arith, length-take 15 content)))
          (rw (take_past t rest b'\n' 14 (omega arith), append_assoc) refl) in
      let plain = number-Avoids line spells in
      rw
        (
          stored,
          rm_line_found line behind plain,
          isdigit_lem line behind (cc) (Avoids-IsText b'\n' line plain) (omega arith),
          spells,
          ==ℤ_refl public.rl_true,
        )
        (atoi_lem line behind (Avoids-IsText b'\n' line plain) spells fits)

  -- For a nonempty file of at most 15 characters, where the file's content and the old bytes of
  -- the local array behind it, up to their first NUL, together are shorter than 2^32 and spell a
  -- number of an absolute value below 2^31, `rl_get_cpu_temperature` returns that number.
  pub temperature_unterminated :
      (t old r buf : Bytes)
      → t ≢ []
      → length t < 16
      → length t ≤ length buf
      → drop (length t) buf ≡ old ++ 0 ∷ r
      → spells_number (t ++ old) ≡ true
      → length (t ++ old) < size_mod
      → value 0 (t ++ old) < 2 ^ 31
      → rl_get_cpu_temperature (some t) buf ≡ ok (number (t ++ old))
  unfolding rl_get_cpu_temperature
  temperature_unterminated [] old r buf ne short room behind spells small fits = absurd (ne refl)
  temperature_unterminated (c ∷ t) old r buf ne short room behind spells small fits =
      let line = (c ∷ t) ++ old in
      let stored : write buf 0 (take 15 (c ∷ t)) ≡ ok (line ++ 0 ∷ r) = rw (
        take_all 15 (c ∷ t) (omega arith),
        write_within buf 0 (c ∷ t) (omega arith),
        behind,
        append_assoc (c ∷ t) old (0 ∷ r),
      ) in
      let plain = number-Avoids line spells in
      rw
        (
          stored,
          rm_line_absent line r (cc) plain,
          isdigit_lem line r (cc) (Avoids-IsText b'\n' line plain) small,
          spells,
          ==ℤ_refl public.rl_true,
        )
        (atoi_lem line r (Avoids-IsText b'\n' line plain) spells fits)
