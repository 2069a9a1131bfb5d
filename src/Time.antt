-- ===== src/Time.antt =====
-- rltime/src/rltime.c: the clock and the setting of the system's time.
pub mod Validate
pub mod Command
pub mod Server
use custom_public_library_rl.Common.{
  ℕ, ◌+◌, ◌-◌, ◌/◌, ◌%◌, Bool, true, false, ◌&&◌, ◌||◌, not, Option, none, some, List, [], ◌∷◌,
  ◌++◌, String, Run, ok, ◌>>=◌, ltb, ◌==◌, if◌then◌else◌, ℤ, pos, Public, codes, get_or,
}
use custom_public_library_rl.Libc.{Bytes, Ptr, deref}
use custom_public_library_rl.Str.{rl_str_isempty}

-- `struct tm`, the fields that the library reads
pub record Tm : Type 0 where
  pub tm_sec : ℕ
  pub tm_min : ℕ
  pub tm_hour : ℕ
  pub tm_mday : ℕ
  pub tm_mon : ℕ
  pub tm_year : ℕ

-- `n` in decimal with at least `width` digits, as `%0<width>d` prints it. The fuel is `width`
-- beyond which a number below 10 ^ width has no digits.
unfoldable pub padded_digits : ℕ → ℕ → Bytes
padded_digits ℕ.zero n = []
padded_digits (ℕ.suc width) n = padded_digits width (n / 10) ++ (b'0' + n % 10) ∷ []

abbrev pub month_days : List ℕ
month_days = 31 ∷ 28 ∷ 31 ∷ 30 ∷ 31 ∷ 30 ∷ 31 ∷ 31 ∷ 30 ∷ 31 ∷ 30 ∷ 31 ∷ []

abbrev pub leap_days : List ℕ
leap_days = 31 ∷ 29 ∷ 31 ∷ 30 ∷ 31 ∷ 30 ∷ 31 ∷ 31 ∷ 30 ∷ 31 ∷ 30 ∷ 31 ∷ []

-- `days_in_month` after the assignment for leap years
abbrev pub days_in_month : ℕ → List ℕ
days_in_month year =
    if (year % 4 == 0 && not (year % 100 == 0)) || year % 400 == 0 then leap_days else month_days

-- The command line that `snprintf` makes. The fields have been checked, so that each has no more
-- digits than its format's width, and the line is shorter than the array of 64 bytes.
pub date_command : (year mon day hour min sec : ℕ) → Bytes
date_command year mon day hour min sec =
    codes "sudo date -u -s \""
    ++ (padded_digits 4 year
        ++ (b'-' ∷ padded_digits 2 mon
            ++ (b'-' ∷ padded_digits 2 day
                ++ (b' ' ∷ padded_digits 2 hour
                    ++ (b':' ∷ padded_digits 2 min
                        ++ (b':' ∷ padded_digits 2 sec ++ codes "\""))))))

module _ ⦃public : Public⦄ where
  open public use {rl_success, rl_failed}

  -- `setenv` answers whether it stored the variable; the second result is the new TZ, if any.
  pub rl_set_timezone : (Bytes → Bool) → Ptr → Run (ℤ × Ptr)
  rl_set_timezone setenv timezone = do
    empty ← rl_str_isempty timezone
    if empty then ok (rl_failed, none) else do
      tz ← deref timezone
      if setenv tz then ok (rl_success, some tz) else ok (rl_failed, none)

  module _ (clock : Option ℕ) (localtime : ℕ → Option Tm) where
    -- `clock` is what `time` answers, `none` for -1; `localtime` is `localtime_r`.
    unfoldable pub rl_get_time : Tm → ℤ × Tm
    rl_get_time time_result = elim clock [
      | none ↦ (rl_failed, time_result)
      | some stamp ↦ elim (localtime stamp) [
        | none ↦ (rl_failed, time_result)
        | some tm ↦ (rl_success, tm)
      ]
    ]

    pub rl_get_time_stamp : Tm → ℤ × Tm
    rl_get_time_stamp time_result = elim clock [
      | none ↦ (rl_failed, time_result)
      | some stamp ↦ elim (localtime stamp) [
        | none ↦ (rl_failed, time_result)
        | some tm ↦ (pos stamp, tm)
      ]
    ]

  -- `system` answers whether the shell could be run. The second result is the list of the
  -- commands that were handed to it.
  module _ (system : Bytes → Bool) where
    pub rl_update_sys_time : (year mon day hour min sec : ℕ) → ℤ × List Bytes
    rl_update_sys_time year mon day hour min sec =
        if ltb year 1970 || ltb 2200 year
        then (rl_failed, [])
        else if ltb mon 1 || ltb 12 mon
        then (rl_failed, [])
        else if ltb day 1 || ltb (get_or (days_in_month year) (mon - 1) 0) day
        then (rl_failed, [])
        else if ltb 23 hour || (ltb 59 min || ltb 59 sec)
        then (rl_failed, [])
        else let set_date = date_command year mon day hour min sec in
          let sync = codes "sudo hwclock -w" in
          if system set_date
          then (if system sync
              then (rl_success, set_date ∷ sync ∷ [])
              else (rl_failed, set_date ∷ sync ∷ []))
          else (rl_failed, set_date ∷ [])
