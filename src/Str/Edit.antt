-- ===== src/Str/Edit.antt =====
-- `rl_str_insert_ch` and `rl_delete_char`: edits of one byte.
use custom_public_library_rl.Common.{
  ℕ, zero, suc, ◌+◌, ◌-◌, ◌≤◌, ◌<◌, ◌≡◌, ◌≢◌, refl, false, ◌&&◌, some, [], ◌∷◌, ◌++◌, ok, ◌>>=◌,
  arith, length, take, drop, length-append, length-take, take-append-drop, append_assoc, All-append,
  All-take, All-drop, ne→==, lt→leb_false, le→ltb_false, ltb, leb, if◌then◌else◌, Bool-cases, inl,
  inr, ℤ, Public,
}
use custom_public_library_rl.Libc.{Bytes, Ptr, strlen}
use custom_public_library_rl.Libc.Access.{memmove_down, insert_byte}
use custom_public_library_rl.Libc.Text.{IsText, strlen-text}
use custom_public_library_rl.Str.{rl_str_insert_ch, rl_delete_char}

length-take_le : (at : ℕ) (t : Bytes) → at ≤ length t → length (take at t) ≡ at
length-take_le at t h = omega (arith, length-take at t)

drop_one : (at : ℕ) (t : Bytes) → at < length t → (c : ℕ) × (drop at t ≡ c ∷ drop (suc at) t)
drop_one at [] h = absurd (omega arith)
drop_one zero (c ∷ t) h = (c, refl)
drop_one (suc at) (c ∷ t) h = drop_one at t (omega arith)

-- What is left behind a text that moved down by one byte.
drop_shifted :
    (post r : Bytes) (c : ℕ) → drop (length (post ++ 0 ∷ [])) (c ∷ (post ++ 0 ∷ r)) ≡ 0 ∷ r
drop_shifted [] r c = refl
drop_shifted (p ∷ post) r c = drop_shifted post r p

module _ ⦃public : Public⦄ where
  open public use {rl_success, rl_failed}

  insert_split :
      (pre post r : Bytes) (x ch max : ℕ)
      → IsText (pre ++ post)
      → length (pre ++ post) + 1 < max
      → rl_str_insert_ch (some (pre ++ (post ++ 0 ∷ x ∷ r))) (length pre) ch max
        ≡ ok (rl_success, some (pre ++ ch ∷ (post ++ 0 ∷ r)))
  unfolding rl_str_insert_ch
  insert_split pre post r x ch max text room =
      let text_len : strlen (pre ++ (post ++ 0 ∷ x ∷ r)) ≡ ok (length pre + length post) =
        rw (← length-append pre post, ← append_assoc pre post (0 ∷ x ∷ r))
          (strlen-text (pre ++ post) (x ∷ r) text) in
      rw (
        ne→== max 0 (omega arith),
        text_len,
        lt→leb_false (max - 1) (length pre + length post) (omega (arith, length-append pre post)),
        le→ltb_false (length pre + length post) (length pre) (omega arith),
        lt→leb_false (max - 1) (length pre) (omega (arith, length-append pre post)),
        ← append_assoc post (0 ∷ []) (x ∷ r),
        insert_byte {A = ℤ × Ptr} pre (post ++ 0 ∷ []) r x ch
            (length pre + length post - length pre + 1) (λ s. ok (rl_success, some s))
            (omega (arith, length-append post (0 ∷ []))),
        append_assoc,
      )

  insert_accepted :
      (t r : Bytes) (at ch max : ℕ)
      → IsText t
      → max ≤ length (t ++ 0 ∷ r)
      → length t + 1 < max
      → at ≤ length t
      → rl_str_insert_ch (some (t ++ 0 ∷ r)) at ch max
        ≡ ok (rl_success, some (take at t ++ ch ∷ (drop at t ++ 0 ∷ drop 1 r)))
  insert_accepted t [] at ch max text room more within =
      absurd (omega (arith, length-append t (0 ∷ [])))
  insert_accepted t (x ∷ r) at ch max text room more within =
      let whole = take-append-drop at t in
      rw (← append_assoc (take at t) (drop at t) (0 ∷ x ∷ r), whole, length-take_le at t within) at
        (insert_split (take at t) (drop at t) r x ch max (rw whole text) (rw whole more))

  insert_refused :
      (t r : Bytes) (at ch max : ℕ)
      → IsText t
      → (ltb (length t + 1) max && leb at (length t)) ≡ false
      → rl_str_insert_ch (some (t ++ 0 ∷ r)) at ch max ≡ ok (rl_failed, some (t ++ 0 ∷ r))
  unfolding rl_str_insert_ch
  insert_refused t r at ch max text e = rw (strlen-text t r text) (ground arith)

  -- On a buffer of at least `max` bytes that holds a text, `rl_str_insert_ch` never faults. Where
  -- the length plus one is below `max` and `at` is at most the length, it succeeds and puts `ch`
  -- at `at`; else it returns RL_FAILED and changes nothing.
  pub insert_ch_lem :
      (t r : Bytes) (at ch max : ℕ)
      → IsText t
      → max ≤ length (t ++ 0 ∷ r)
      → rl_str_insert_ch (some (t ++ 0 ∷ r)) at ch max
        ≡ ok (
            if ltb (length t + 1) max && leb at (length t)
            then (rl_success, some (take at t ++ ch ∷ (drop at t ++ 0 ∷ drop 1 r)))
            else (rl_failed, some (t ++ 0 ∷ r)))
  insert_ch_lem t r at ch max text room =
      elim (Bool-cases (ltb (length t + 1) max && leb at (length t))) [
        | inl e ↦ rw e (insert_accepted t r at ch max text room (ground arith) (ground arith))
        | inr e ↦ rw e (insert_refused t r at ch max text e)
      ]

  delete_split :
      (pre post r : Bytes) (c : ℕ)
      → IsText (pre ++ c ∷ post)
      → rl_delete_char (some (pre ++ (c ∷ (post ++ 0 ∷ r)))) (length pre)
        ≡ ok (rl_success, some (pre ++ (post ++ 0 ∷ 0 ∷ r)))
  unfolding rl_delete_char
  delete_split pre post r c text =
      let text_len : strlen (pre ++ (c ∷ (post ++ 0 ∷ r))) ≡ ok (length pre + suc (length post)) =
        rw (← length-append pre (c ∷ post), ← append_assoc pre (c ∷ post) (0 ∷ r))
          (strlen-text (pre ++ c ∷ post) r text) in
      rw (
        text_len,
        lt→leb_false (length pre + suc (length post)) (length pre) (omega arith),
        ← append_assoc post (0 ∷ []) r,
        memmove_down pre (c ∷ []) (post ++ 0 ∷ []) r (length pre + suc (length post) - length pre)
            (length pre + 1) (omega (arith, length-append post (0 ∷ []))) refl,
        append_assoc post (0 ∷ []) r,
        drop_shifted post r c,
        append_assoc post (0 ∷ []) (0 ∷ r),
      )

  delete_accepted :
      (t r : Bytes) (at : ℕ)
      → IsText t
      → at < length t
      → rl_delete_char (some (t ++ 0 ∷ r)) at
        ≡ ok (rl_success, some (take at t ++ (drop (suc at) t ++ 0 ∷ 0 ∷ r)))
  delete_accepted t r at text within =
      let (c, here) = drop_one at t within in
      let whole : take at t ++ c ∷ drop (suc at) t ≡ t = rw (← here) (take-append-drop at t) in
      rw
        (
          ← append_assoc (take at t) (c ∷ drop (suc at) t) (0 ∷ r),
          whole,
          length-take_le at t (omega arith),
        )
        at (delete_split (take at t) (drop (suc at) t) r c (rw whole text))

  delete_refused :
      (t r : Bytes) (at : ℕ)
      → IsText t
      → ltb at (length t) ≡ false
      → rl_delete_char (some (t ++ 0 ∷ r)) at ≡ ok (rl_failed, some (t ++ 0 ∷ r))
  unfolding rl_delete_char
  delete_refused t r at text e = rw (strlen-text t r text) (ground arith)

  -- On a buffer that holds a text, `rl_delete_char` never faults. Where `at` is below the length,
  -- it succeeds and takes the byte at `at` out; else it returns RL_FAILED and changes nothing.
  delete_char_lem :
      (t r : Bytes) (at : ℕ)
      → IsText t
      → rl_delete_char (some (t ++ 0 ∷ r)) at
        ≡ ok (
            if ltb at (length t)
            then (rl_success, some (take at t ++ (drop (suc at) t ++ 0 ∷ 0 ∷ r)))
            else (rl_failed, some (t ++ 0 ∷ r)))
  delete_char_lem t r at text = elim (Bool-cases (ltb at (length t))) [
    | inl e ↦ rw e (delete_accepted t r at text (ground arith))
    | inr e ↦ rw e (delete_refused t r at text e)
  ]

  -- On a buffer of at least `max` bytes that holds a text, where the insertion of a byte that is
  -- no NUL is within the limits, `rl_delete_char` at the place where `rl_str_insert_ch` has put it
  -- gives the text back.
  pub delete-insert :
      (t r : Bytes) (at ch max : ℕ)
      → IsText t
      → ch ≢ 0
      → max ≤ length (t ++ 0 ∷ r)
      → length t + 1 < max
      → at ≤ length t
      → (rl_str_insert_ch (some (t ++ 0 ∷ r)) at ch max >>= λ (code, str). rl_delete_char str at)
        ≡ ok (rl_success, some (t ++ 0 ∷ 0 ∷ drop 1 r))
  delete-insert t r at ch max text ne room more within =
      let size = length-take_le at t within in
      let whole = take-append-drop at t in
      rw (insert_accepted t r at ch max text room more within) (
        rw (← append_assoc (take at t) (drop at t) (0 ∷ 0 ∷ drop 1 r), whole, size) at
          (delete_split (take at t) (drop at t) (drop 1 r) ch (
            All-append (λ c. c ≢ 0) (take at t) (ch ∷ drop at t) (All-take (λ c. c ≢ 0) at t text)
              (ne, All-drop (λ c. c ≢ 0) at t text))))
