-- ===== src/Sys/RunTime.antt =====
-- rlsys/src/rlsys.c: `rl_calcuate_run_time_ms`, with the arithmetic on `double` as an argument.
use custom_public_library_rl.Common.{
  ℕ, zero, suc, ◌+◌, ◌-◌, ◌*◌, ◌/◌, ◌%◌, ◌≤◌, ◌<◌, ◌≡◌, refl, ap, leb, le→leb, lt→leb_false,
  if◌then◌else◌, arith, Bool-cases, inl, inr, ℤ, pos, negsuc,
}

-- `struct timespec`
pub record Timespec : Type 0 where
  pub tv_sec : ℕ
  pub tv_nsec : ℕ

-- `a - b`, which no signed type of the source overflows.
abbrev pub minus : ℕ → ℕ → ℤ
minus a b = if leb b a then pos (a - b) else negsuc (b - a - 1)

-- `z - 1`
abbrev pub less_one : ℤ → ℤ
less_one (pos zero) = negsuc 0
less_one (pos (suc n)) = pos n
less_one (negsuc n) = negsuc (suc n)

-- The two differences, after the carry where that of the nanoseconds is negative.
abbrev pub carried : ℤ → ℤ → ℤ × ℤ
carried sec_diff (pos n) = (sec_diff, pos n)
carried sec_diff (negsuc n) = (less_one sec_diff, minus 1000000000 (n + 1))

pub difference : Timespec → Timespec → ℤ × ℤ
difference start end = carried (minus end.tv_sec start.tv_sec) (minus end.tv_nsec start.tv_nsec)

-- The operations on `double` that the function uses.
pub record Doubles (Double : Type 0) : Type 0 where
  pub of_int : ℤ → Double
  pub thousand : Double
  pub million : Double
  pub times : Double → Double → Double
  pub over : Double → Double → Double
  pub plus : Double → Double → Double

abbrev pub in_ms : {Double : Type 0} → Doubles Double → ℤ × ℤ → Double
in_ms d (sec_diff, nsec_diff) =
    d.plus (d.times (d.of_int sec_diff) d.thousand) (d.over (d.of_int nsec_diff) d.million)

-- `end` is what `clock_gettime` answers.
pub rl_calcuate_run_time_ms : {Double : Type 0} → Doubles Double → Timespec → Timespec → Double
rl_calcuate_run_time_ms d start end = in_ms d (difference start end)

-- The time in nanoseconds.
abbrev pub nanoseconds : Timespec → ℕ
nanoseconds t = t.tv_sec * 1000000000 + t.tv_nsec

no_carry :
    (start end : Timespec)
    → start.tv_sec ≤ end.tv_sec
    → start.tv_nsec ≤ end.tv_nsec
    → difference start end ≡ (pos (end.tv_sec - start.tv_sec), pos (end.tv_nsec - start.tv_nsec))
unfolding difference
no_carry start end s n =
    rw (le→leb start.tv_sec end.tv_sec s, le→leb start.tv_nsec end.tv_nsec n) refl

carry :
    (start end : Timespec) (s : ℕ)
    → end.tv_sec - start.tv_sec ≡ suc s
    → start.tv_sec ≤ end.tv_sec
    → start.tv_nsec < 1000000000
    → end.tv_nsec < start.tv_nsec
    → difference start end ≡ (pos s, pos (1000000000 + end.tv_nsec - start.tv_nsec))
unfolding difference
carry start end s e le small less =
    let back : start.tv_nsec - end.tv_nsec - 1 + 1 ≡ start.tv_nsec - end.tv_nsec = omega arith in
    let sum : 1000000000 - (start.tv_nsec - end.tv_nsec)
        ≡ 1000000000 + end.tv_nsec - start.tv_nsec =
      omega arith in
    rw
      (
        le→leb start.tv_sec end.tv_sec le,
        e,
        lt→leb_false start.tv_nsec end.tv_nsec less,
        back,
        le→leb (start.tv_nsec - end.tv_nsec) 1000000000 (omega arith),
        sum,
      )
      refl

difference_lem :
    (start end : Timespec) (d : ℕ)
    → start.tv_nsec < 1000000000
    → end.tv_nsec < 1000000000
    → nanoseconds start + d ≡ nanoseconds end
    → difference start end ≡ (pos (d / 1000000000), pos (d % 1000000000))
difference_lem start end d hs he e = elim (Bool-cases (leb start.tv_nsec end.tv_nsec)) [
  | inl le ↦
      let n : start.tv_nsec ≤ end.tv_nsec = ground arith in
      let q : end.tv_sec - start.tv_sec ≡ d / 1000000000 = omega arith in
      let r : end.tv_nsec - start.tv_nsec ≡ d % 1000000000 = omega arith in
      rw (no_carry start end (omega arith) n, q, r) refl
  | inr gt ↦
      let n : end.tv_nsec < start.tv_nsec = ground arith in
      let q : end.tv_sec - start.tv_sec ≡ suc (d / 1000000000) = omega arith in
      let r : 1000000000 + end.tv_nsec - start.tv_nsec ≡ d % 1000000000 = omega arith in
      rw (carry start end (d / 1000000000) q (omega arith) hs n, r) refl
]

-- Where both times have less than 10^9 nanoseconds and the second is `d` nanoseconds after the
-- first, `rl_calcuate_run_time_ms` computes its double from the whole seconds and the remaining
-- nanoseconds of `d`: the carry is right.
pub run_time_lem :
    {Double : Type 0} (doubles : Doubles Double) (start end : Timespec) (d : ℕ)
    → start.tv_nsec < 1000000000
    → end.tv_nsec < 1000000000
    → nanoseconds start + d ≡ nanoseconds end
    → rl_calcuate_run_time_ms doubles start end
      ≡ in_ms doubles (pos (d / 1000000000), pos (d % 1000000000))
unfolding rl_calcuate_run_time_ms
run_time_lem doubles start end d hs he e = ap (in_ms doubles) (difference_lem start end d hs he e)
