-- ===== src/Str/Copy.antt =====
-- `rl_strcpy_s`, `rl_str_rm_line` and `rl_get_str_after_char`.
use native.Mathlib.Numerals.{add-one}
use custom_public_library_rl.Common.{
  ℕ, suc, ◌+◌, ◌-◌, ◌≤◌, ◌<◌, min, ◌≡◌, ◌≢◌, refl, false, some, [], ◌∷◌, ◌++◌, ok, fault, arith,
  length, take, drop, length-append, length-take, length-drop, drop-drop_one, take-append-drop,
  append_assoc, All-take, ne→==, ltb, if◌then◌else◌, Bool-cases, inl, inr, Public,
}
use custom_public_library_rl.Libc.{Bytes, read, strncpy, size_mod, sub_size}
use custom_public_library_rl.Libc.Access.{
  suffix_past, write_within, write_past, write_overflow, write-append,
}
use custom_public_library_rl.Libc.Text.{
  IsText, snprintf_str-text, strlen-text, padded-text, strncpy-text,
}
use custom_public_library_rl.Libc.Search.{Avoids, strchr_found, strchr_absent}
use custom_public_library_rl.Str.{
  rl_str_isempty, rl_strcpy_s, rl_str_rm_line, cut_at, rl_get_str_after_char, after_char,
}
use custom_public_library_rl.Str.Remove.{isempty-text}

isempty_before :
    (pre s : Bytes) (ch : ℕ)
    → ch ≢ 0
    → Avoids ch pre
    → rl_str_isempty (some (pre ++ ch ∷ s)) ≡ ok false
unfolding rl_str_isempty read
isempty_before [] s ch h avoids = rw (ne→== ch 0 h)
isempty_before (c ∷ pre) s ch h ((ne, text), avoids) = rw (ne→== c 0 text)

pub Avoids-IsText : (ch : ℕ) (t : Bytes) → Avoids ch t → IsText t
Avoids-IsText ch [] h = tt
Avoids-IsText ch (c ∷ t) ((ne, text), h) = (text, Avoids-IsText ch t h)

read_next : (pre s : Bytes) (c d : ℕ) → read (pre ++ c ∷ d ∷ s) (suc (length pre)) ≡ ok d
unfolding read
read_next [] s c d = refl
read_next (p ∷ pre) s c d = read_next pre s c d

-- The byte behind `ch`, where a nonempty text follows.
read_behind :
    (pre post r : Bytes) (ch : ℕ)
    → post ≢ []
    → IsText post
    → (c : ℕ) × (read (pre ++ ch ∷ (post ++ 0 ∷ r)) (length pre + 1) ≡ ok c) × (c ≢ 0)
read_behind pre [] r ch ne text = absurd (ne refl)
read_behind pre (d ∷ post) r ch ne (hd, text) =
    (d, rw add-one (read_next pre (post ++ 0 ∷ r) ch d), hd)

module _ ⦃public : Public⦄ where
  open public use {rl_success, rl_failed}

  -- For a nonempty text and a `dst_len` that is not 0, at most the size of `dst` and below 2^32,
  -- `rl_strcpy_s` copies the first `dst_len - 1` bytes of the text, or all of it where it is
  -- shorter, and terminates the copy.
  pub strcpy_s_lem :
      (t r dst : Bytes) (dst_len : ℕ)
      → t ≢ []
      → IsText t
      → 0 < dst_len
      → dst_len ≤ length dst
      → dst_len < size_mod
      → rl_strcpy_s (some dst) dst_len (some (t ++ 0 ∷ r))
        ≡ ok (
          rl_success,
          some (take (dst_len - 1) t ++ 0 ∷ drop (length (take (dst_len - 1) t) + 1) dst),
        )
  unfolding rl_strcpy_s
  strcpy_s_lem t r dst dst_len ne text positive room small =
      let m = dst_len - 1 in
      let part = take m t in
      let size : length part ≡ min m (length t) = length-take m t in
      let copied : (if ltb (sub_size dst_len 1) (length t) then sub_size dst_len 1 else length t)
          ≡ length part =
        ground (arith, size) in
      let copy : strncpy dst (t ++ 0 ∷ r) (length part) ≡ ok (part ++ drop (length part) dst) =
        rw (← append_assoc part (drop m t) (0 ∷ r), take-append-drop m t) at
          (strncpy-text part (drop m t ++ 0 ∷ r) dst (All-take (λ c. c ≢ 0) m t text)
            (omega arith)) in
      rw (
        isempty-text t r ne text,
        strlen-text t r text,
        copied,
        copy,
        write_past part (drop (length part) dst) (0 ∷ [])
            (omega (arith, length-drop (length part) dst)),
        drop-drop_one (length part) dst,
      )

  -- With a `dst_len` of 0, for a nonempty text shorter than 2^32 and at least as long as `dst`,
  -- `rl_strcpy_s` writes past the end of `dst`.
  strcpy_s_overflow :
      (t r dst : Bytes)
      → t ≢ []
      → IsText t
      → length t < size_mod
      → length dst ≤ length t
      → rl_strcpy_s (some dst) 0 (some (t ++ 0 ∷ r)) ≡ fault
  unfolding rl_strcpy_s strncpy
  strcpy_s_overflow t r dst ne text small over =
      let copied : (if ltb (sub_size 0 1) (length t) then sub_size 0 1 else length t) ≡ length t =
        ground arith in
      rw (isempty-text t r ne text, strlen-text t r text, copied, padded-text t (0 ∷ r) text)
        (elim (Bool-cases (ltb (length dst) (length t))) [
          | inl e ↦ rw (write_overflow dst 0 t ne (ground arith))
          | inr e ↦ rw (write_within dst 0 t (ground arith)) (
              rw (
                write_overflow (t ++ drop (length t) dst) (length t) (0 ∷ []) (cc) (
                  omega
                    (arith, length-append t (drop (length t) dst), length-drop (length t) dst))))
        ])

  -- Where no byte in front of a newline is a newline or a NUL, `rl_str_rm_line` puts a NUL in the
  -- newline's place, leaves the rest of the buffer and returns RL_SUCCESS.
  pub rm_line_found :
      (pre s : Bytes)
      → Avoids b'\n' pre
      → rl_str_rm_line (some (pre ++ b'\n' ∷ s)) ≡ ok (rl_success, some (pre ++ 0 ∷ s))
  unfolding rl_str_rm_line cut_at
  rm_line_found pre s avoids = rw (
    isempty_before pre s b'\n' (omega arith) avoids,
    strchr_found pre s b'\n' avoids,
    write-append pre (b'\n' ∷ []) (0 ∷ []) s refl,
  )

  -- `rl_str_rm_line` leaves a text without a newline as it is.
  pub rm_line_absent :
      (t r : Bytes)
      → t ≢ []
      → Avoids b'\n' t
      → rl_str_rm_line (some (t ++ 0 ∷ r)) ≡ ok (rl_success, some (t ++ 0 ∷ r))
  unfolding rl_str_rm_line cut_at
  rm_line_absent t r ne avoids = rw (
    isempty-text t r ne (Avoids-IsText b'\n' t avoids),
    strchr_absent t r b'\n' (omega arith) avoids,
  )

  -- Where the byte `ch`, which is no NUL, stands in a text with at least one byte behind its first
  -- place, and `out_size` is not 0 and at most the size of `out`, `rl_get_str_after_char` puts
  -- into `out` what is behind it, cut to `out_size - 1` bytes and terminated.
  after_char_found :
      (pre post r out : Bytes) (ch out_size : ℕ)
      → ch ≢ 0
      → Avoids ch pre
      → post ≢ []
      → IsText post
      → 0 < out_size
      → out_size ≤ length out
      → rl_get_str_after_char (some (pre ++ ch ∷ (post ++ 0 ∷ r))) ch (some out) out_size
        ≡ ok (
          rl_success,
          some (take (out_size - 1) post ++ 0 ∷ drop (length (take (out_size - 1) post) + 1) out),
        )
  unfolding rl_get_str_after_char after_char
  after_char_found pre post r out ch out_size hch avoids ne text positive room =
      let (c, here, visible) = read_behind pre post r ch ne text in
      rw (
        isempty_before pre (post ++ 0 ∷ r) ch hch avoids,
        ne→== out_size 0 (omega arith),
        strchr_found pre (post ++ 0 ∷ r) ch avoids,
        suffix_past pre (ch ∷ []) (post ++ 0 ∷ r),
        snprintf_str-text post r out out_size text positive room,
        here,
        ne→== c 0 visible,
      )
