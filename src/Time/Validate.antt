-- ===== src/Time/Validate.antt =====
-- `rl_update_sys_time`: the dates that it accepts, and the command line that it hands to the shell.
use custom_public_library_rl.Common.{
  ℕ, zero, suc, ◌+◌, ◌-◌, ◌/◌, ◌%◌, ◌≤◌, ◌<◌, ◌≡◌, refl, Bool, true, false, ◌&&◌, ◌||◌, not, List,
  [], ◌∷◌, ltb, leb, ◌==◌, if◌then◌else◌, ℤ, Public, codes, get_or, arith, Bool-cases, inl, inr,
}
use custom_public_library_rl.Libc.{Bytes}
use custom_public_library_rl.Time.{
  days_in_month, month_days, leap_days, date_command, rl_update_sys_time,
}

-- The Gregorian calendar, without a table.
abbrev is_leap : ℕ → Bool
is_leap year = if year % 100 == 0 then year % 400 == 0 else year % 4 == 0

abbrev month_length : ℕ → ℕ → ℕ
month_length year mon =
    if mon == 2 then (if is_leap year then 29 else 28) else 30 + (mon + mon / 8) % 2

abbrev is_date : (year mon day : ℕ) → Bool
is_date year mon day = leb 1 mon && (leb mon 12 && (leb 1 day && leb day (month_length year mon)))

abbrev is_time : (hour min sec : ℕ) → Bool
is_time hour min sec = ltb hour 24 && (ltb min 60 && ltb sec 60)

leap_lem : (year : ℕ) → ((year % 4 == 0 && not (year % 100 == 0)) || year % 400 == 0) ≡ is_leap year
leap_lem year = ground arith

row_lem :
    (leap : Bool) (k : ℕ)
    → k < 12
    → get_or (if leap then leap_days else month_days) k 0
      ≡ (if suc k == 2 then (if leap then 29 else 28) else 30 + (suc k + suc k / 8) % 2)
row_lem true zero low = refl
row_lem true (suc zero) low = refl
row_lem true (suc (suc zero)) low = refl
row_lem true (suc (suc (suc zero))) low = refl
row_lem true (suc (suc (suc (suc zero)))) low = refl
row_lem true (suc (suc (suc (suc (suc zero))))) low = refl
row_lem true (suc (suc (suc (suc (suc (suc zero)))))) low = refl
row_lem true (suc (suc (suc (suc (suc (suc (suc zero))))))) low = refl
row_lem true (suc (suc (suc (suc (suc (suc (suc (suc zero)))))))) low = refl
row_lem true (suc (suc (suc (suc (suc (suc (suc (suc (suc zero))))))))) low = refl
row_lem true (suc (suc (suc (suc (suc (suc (suc (suc (suc (suc zero)))))))))) low = refl
row_lem true (suc (suc (suc (suc (suc (suc (suc (suc (suc (suc (suc zero))))))))))) low = refl
row_lem false zero low = refl
row_lem false (suc zero) low = refl
row_lem false (suc (suc zero)) low = refl
row_lem false (suc (suc (suc zero))) low = refl
row_lem false (suc (suc (suc (suc zero)))) low = refl
row_lem false (suc (suc (suc (suc (suc zero))))) low = refl
row_lem false (suc (suc (suc (suc (suc (suc zero)))))) low = refl
row_lem false (suc (suc (suc (suc (suc (suc (suc zero))))))) low = refl
row_lem false (suc (suc (suc (suc (suc (suc (suc (suc zero)))))))) low = refl
row_lem false (suc (suc (suc (suc (suc (suc (suc (suc (suc zero))))))))) low = refl
row_lem false (suc (suc (suc (suc (suc (suc (suc (suc (suc (suc zero)))))))))) low = refl
row_lem false (suc (suc (suc (suc (suc (suc (suc (suc (suc (suc (suc zero))))))))))) low = refl
row_lem leap (suc (suc (suc (suc (suc (suc (suc (suc (suc (suc (suc (suc k)))))))))))) low =
    ground arith

table_lem :
    (year mon : ℕ)
    → 1 ≤ mon
    → mon ≤ 12
    → get_or (days_in_month year) (mon - 1) 0 ≡ month_length year mon
table_lem year (suc k) low high =
    let e : suc k - 1 ≡ k = omega arith in rw (leap_lem, e) (row_lem (is_leap year) k (omega arith))
table_lem year zero low high = ground arith

module _ ⦃public : Public⦄ where
  open public use {rl_success, rl_failed}

  -- What is run for a date and a time that are accepted.
  abbrev set_commands : (Bytes → Bool) → Bytes → ℤ × List Bytes
  set_commands system command =
      let both = command ∷ codes "sudo hwclock -w" ∷ [] in
      if system command
      then (if system (codes "sudo hwclock -w") then (rl_success, both) else (rl_failed, both))
      else (rl_failed, command ∷ [])

  decide_lem :
      {A : Type 0} (year mon day hour min sec days : ℕ) (a b : A)
      → (1 ≤ mon → mon ≤ 12 → days ≡ month_length year mon)
      → (if ltb year 1970 || ltb 2200 year
          then b
          else if ltb mon 1 || ltb 12 mon
          then b
          else if ltb day 1 || ltb days day
          then b
          else if ltb 23 hour || (ltb 59 min || ltb 59 sec)
          then b
          else a)
        ≡ (if (leb 1970 year && leb year 2200) && (is_date year mon day && is_time hour min sec)
            then a
            else b)
  decide_lem year mon day hour min sec days a b table =
      elim (Bool-cases (leb 1 mon && leb mon 12)) [
        | inl e ↦ let t = table (ground arith) (ground arith) in rw t (ground arith)
        | inr e ↦ ground arith
      ]

  -- `rl_update_sys_time` runs the command line of its date and time exactly when the year is
  -- between 1970 and 2200 and the fields are a date of the Gregorian calendar and a time of day;
  -- where the shell ran it, it runs that which sets the hardware clock, and it returns RL_SUCCESS
  -- where the shell ran both. For any other date or time it runs nothing and returns RL_FAILED.
  pub update_sys_time_lem :
      (system : Bytes → Bool) (year mon day hour min sec : ℕ)
      → rl_update_sys_time system year mon day hour min sec ≡ (
          if (leb 1970 year && leb year 2200) && (is_date year mon day && is_time hour min sec)
          then set_commands system (date_command year mon day hour min sec)
          else (rl_failed, []))
  unfolding rl_update_sys_time
  update_sys_time_lem system year mon day hour min sec =
      decide_lem year mon day hour min sec (get_or (days_in_month year) (mon - 1) 0)
        (set_commands system (date_command year mon day hour min sec)) (rl_failed, [])
        (table_lem year mon)
