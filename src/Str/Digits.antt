-- ===== src/Str/Digits.antt =====
-- `rl_str_isdigit` and `rl_str_atoi`: what passes the first is a number that the second reads.
use custom_public_library_rl.Common.{
  ℕ, suc, ◌+◌, ◌-◌, ◌*◌, ◌<◌, ◌^◌, ◌≡◌, ◌≢◌, refl, Bool, true, false, ◌&&◌, some, [], ◌∷◌, ◌++◌, ok,
  arith, length, length-append, append_assoc, ◌==◌, if◌then◌else◌, Bool-cases, inl, inr, ℤ, pos,
  Public,
}
use custom_public_library_rl.Libc.{
  Bytes, read, size_mod, to_int, to_size, is_digit, is_space, skip_spaces, scan_digits, atoi,
  negate,
}
use custom_public_library_rl.Libc.Text.{IsText, strlen-text}
use custom_public_library_rl.Libc.Search.{Avoids}
use custom_public_library_rl.Str.{rl_strlen, rl_str_isdigit, isdigit_loop, rl_str_atoi}
use custom_public_library_rl.Str.Remove.{isempty-text}

abbrev pub all_digits : Bytes → Bool
all_digits [] = true
all_digits (c ∷ t) = is_digit c && all_digits t

-- Digits with an optional minus sign in front of at least one of them.
abbrev pub spells_number : Bytes → Bool
spells_number [] = false
spells_number (c ∷ []) = is_digit c
spells_number (c ∷ d ∷ t) = if c == b'-' then all_digits (d ∷ t) else all_digits (c ∷ d ∷ t)

-- The number that digits spell behind `acc`, with no bound.
abbrev pub value : ℕ → Bytes → ℕ
value acc [] = acc
value acc (c ∷ t) = value (acc * 10 + (c - b'0')) t

abbrev pub number : Bytes → ℤ
number [] = pos 0
number (c ∷ t) = if c == b'-' then negate (value 0 t) else pos (value 0 (c ∷ t))

to_size-to_int : (n : ℕ) → n < size_mod → to_size (to_int n) ≡ n
to_size-to_int n h = ground arith

read_at : (pre s : Bytes) (c : ℕ) → read (pre ++ c ∷ s) (length pre) ≡ ok c
unfolding read
read_at [] s c = refl
read_at (p ∷ pre) s c = read_at pre s c

module _ ⦃public : Public⦄ where
  open public use {rl_true, rl_false, rl_failed}

  loop_done : (s : Bytes) (i : ℕ) → isdigit_loop s i 0 ≡ ok rl_true
  unfolding isdigit_loop
  loop_done s i = refl

  loop_step :
      (s : Bytes) (i left c : ℕ)
      → read s i ≡ ok c
      → isdigit_loop s i (suc left)
        ≡ (if is_digit c then isdigit_loop s (i + 1) left else ok rl_false)
  unfolding isdigit_loop
  loop_step s i left c e = rw e

  loop_all_digits :
      (pre t rest : Bytes) (i : ℕ)
      → i ≡ length pre
      → isdigit_loop (pre ++ (t ++ rest)) i (length t)
        ≡ ok (if all_digits t then rl_true else rl_false)
  loop_all_digits pre [] rest i e = loop_done (pre ++ rest) i
  loop_all_digits pre (c ∷ t) rest i e =
      rw
        (
          e,
          loop_step (pre ++ c ∷ (t ++ rest)) (length pre) (length t) c (read_at pre (t ++ rest) c),
        )
        (elim (Bool-cases (is_digit c)) [
          | inl d ↦
              rw (d, ← append_assoc pre (c ∷ []) (t ++ rest))
                (loop_all_digits (pre ++ c ∷ []) t rest (length pre + 1)
                  (omega (arith, length-append pre (c ∷ []))))
          | inr d ↦ rw d
        ])

  rl_strlen-text :
      (t r : Bytes) → t ≢ [] → IsText t → rl_strlen (some (t ++ 0 ∷ r)) ≡ ok (to_int (length t))
  unfolding rl_strlen
  rl_strlen-text t r ne h = rw (isempty-text t r ne h, strlen-text t r h)

  -- For a nonempty text shorter than 2^32, `rl_str_isdigit` returns RL_TRUE where the text is
  -- digits with an optional minus sign in front of at least one of them, and RL_FALSE where it is
  -- not.
  pub isdigit_lem :
      (t r : Bytes)
      → t ≢ []
      → IsText t
      → length t < size_mod
      → rl_str_isdigit (some (t ++ 0 ∷ r)) ≡ ok (if spells_number t then rl_true else rl_false)
  unfolding rl_str_isdigit
  isdigit_lem [] r ne h small = absurd (ne refl)
  isdigit_lem (c ∷ []) r ne h small =
      rw
        (
          isempty-text (c ∷ []) r ne h,
          rl_strlen-text (c ∷ []) r ne h,
          to_size-to_int (length (c ∷ [])) small,
          read_at [] (0 ∷ r) c,
        )
        (ground (arith, loop_all_digits [] (c ∷ []) (0 ∷ r) 0 refl))
  isdigit_lem (c ∷ d ∷ t) r ne h small =
      let less : length (c ∷ d ∷ t) - 1 ≡ length (d ∷ t) = omega arith in
      rw
        (
          isempty-text (c ∷ d ∷ t) r ne h,
          rl_strlen-text (c ∷ d ∷ t) r ne h,
          to_size-to_int (length (c ∷ d ∷ t)) small,
          less,
          read_at [] (d ∷ (t ++ 0 ∷ r)) c,
        )
        (ground (
          arith,
          loop_all_digits [] (c ∷ d ∷ t) (0 ∷ r) 0 refl,
          loop_all_digits (c ∷ []) (d ∷ t) (0 ∷ r) 1 refl,
        ))

pub scan_digits-end :
    (t r : Bytes) (acc e : ℕ)
    → is_digit e ≡ false
    → all_digits t ≡ true
    → scan_digits (t ++ e ∷ r) acc ≡ ok (value acc t)
unfolding scan_digits
scan_digits-end [] r acc e he h = rw he refl
scan_digits-end (c ∷ t) r acc e he h =
    ground (arith, scan_digits-end t r (acc * 10 + (c - b'0')) e he)

scan_digits-value :
    (t r : Bytes) (acc : ℕ) → all_digits t ≡ true → scan_digits (t ++ 0 ∷ r) acc ≡ ok (value acc t)
scan_digits-value t r acc h = scan_digits-end t r acc 0 refl h

no_space : (c : ℕ) (s : Bytes) → is_space c ≡ false → skip_spaces (c ∷ s) ≡ c ∷ s
unfolding skip_spaces
no_space c s h = rw h

head_no_space : (c : ℕ) (t : Bytes) → spells_number (c ∷ t) ≡ true → is_space c ≡ false
head_no_space c [] h = ground arith
head_no_space c (d ∷ t) h = ground arith

module _ ⦃public : Public⦄ where
  -- For a text that is digits with an optional minus sign in front, `rl_str_atoi` returns the
  -- number that they spell, where its absolute value is below 2^31.
  pub atoi_lem :
      (t r : Bytes)
      → IsText t
      → spells_number t ≡ true
      → value 0 t < 2 ^ 31
      → rl_str_atoi (some (t ++ 0 ∷ r)) ≡ ok (number t)
  unfolding rl_str_atoi atoi
  atoi_lem [] r h spells fits = cc
  atoi_lem (c ∷ []) r h spells fits =
      rw (isempty-text (c ∷ []) r (cc) h, no_space c (0 ∷ r) (head_no_space c [] spells))
        (ground (arith, scan_digits-value (c ∷ []) r 0))
  atoi_lem (c ∷ d ∷ t) r h spells fits =
      rw
        (
          isempty-text (c ∷ d ∷ t) r (cc) h,
          no_space c (d ∷ (t ++ 0 ∷ r)) (head_no_space c (d ∷ t) spells),
        )
        (ground (arith, scan_digits-value (c ∷ d ∷ t) r 0, scan_digits-value (d ∷ t) r 0))

-- A text that spells a number holds no newline.
digits-Avoids : (t : Bytes) → all_digits t ≡ true → Avoids b'\n' t
digits-Avoids [] h = tt
digits-Avoids (c ∷ t) h =
    let rest = digits-Avoids t (ground arith) in ((ground arith, ground arith), rest)

pub number-Avoids : (t : Bytes) → spells_number t ≡ true → Avoids b'\n' t
number-Avoids [] h = tt
number-Avoids (c ∷ []) h = ((ground arith, ground arith), tt)
number-Avoids (c ∷ d ∷ t) h =
    let rest = digits-Avoids (d ∷ t) (ground arith) in ((ground arith, ground arith), rest)
