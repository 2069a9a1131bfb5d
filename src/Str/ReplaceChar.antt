-- ===== src/Str/ReplaceChar.antt =====
-- `rl_replace_char`.
use custom_public_library_rl.Common.{
  ℕ, ◌+◌, ◌<◌, ◌≡◌, ◌≢◌, some, [], ◌∷◌, ◌++◌, Run, ok, ◌>>=◌, arith, length, drop, length-append,
  length-drop, length-pos, append_assoc, All-append, le→ltb_false, ℤ, Public,
}
use custom_public_library_rl.Libc.{Bytes, Ptr, write, strncpy, strcpy, strcat, size_mod, add_size}
use custom_public_library_rl.Libc.Access.{suffix_past, write_past}
use custom_public_library_rl.Libc.Text.{
  IsText, strlen-text, strncpy-text, strcpy-text, strcat-text, text_rest,
}
use custom_public_library_rl.Libc.Search.{FirstAt, strstr_first}
use custom_public_library_rl.Str.{rl_replace_char, replace_char_at}
use custom_public_library_rl.Str.Remove.{isempty-text, ne_nil_of_split, IsText-pre, IsText-post}

module _ ⦃public : Public⦄ where
  open public use {rl_success, rl_failed}

  -- The calls behind the length test, on a local buffer with room for the result.
  fill :
      (pre post s r buffer rest : Bytes) (ch : ℕ) (k : Bytes → Run (ℤ × Ptr))
      → IsText pre
      → ch ≢ 0
      → IsText post
      → length (pre ++ ch ∷ post) < length buffer
      → length (pre ++ ch ∷ post) < length s
      → (strncpy buffer (pre ++ rest) (length pre) >>= λ b. write b (length pre) (ch ∷ []) >>= λ b.
          write b (length pre + 1) (0 ∷ []) >>= λ b.
          strcat b (post ++ 0 ∷ r) >>= λ b. strcpy s b >>= k)
        ≡ k ((pre ++ ch ∷ post) ++ 0 ∷ drop (length (pre ++ ch ∷ post) + 1) s)
  fill pre post s r buffer rest ch k hpre hch hpost room fits =
      let old = drop (length pre) buffer in
      let older = drop 1 old in
      let end = drop (length post) (drop 1 older) in
      let sum = length-append pre (ch ∷ post) in
      let size = length-drop (length pre) buffer in
      let one : length pre + 1 ≡ length (pre ++ ch ∷ []) =
        omega (arith, length-append pre (ch ∷ [])) in
      let text = All-append (λ c. c ≢ 0) pre (ch ∷ []) hpre (hch, tt) in
      rw (
        strncpy-text pre rest buffer hpre (omega arith),
        write_past pre old (ch ∷ []) (omega arith),
        one,
        ← append_assoc pre (ch ∷ []) older,
        write_past (pre ++ ch ∷ []) older (0 ∷ []) (omega (arith, length-drop 1 old)),
        strcat-text (pre ++ ch ∷ []) post r (drop 1 older) text hpost
            (omega (arith, length-drop 1 old, length-drop 1 older)),
        append_assoc pre (ch ∷ []) (post ++ 0 ∷ end),
        ← append_assoc pre (ch ∷ post) (0 ∷ end),
        strcpy-text (pre ++ ch ∷ post) end s
            (All-append (λ c. c ≢ 0) pre (ch ∷ post) hpre (hch, hpost)) fits,
      )

  replace_char_at_lem :
      (pre n post r q buffer : Bytes) (ch len : ℕ)
      → IsText n
      → ch ≢ 0
      → IsText (pre ++ (n ++ post))
      → length buffer ≡ len
      → length (pre ++ ch ∷ post) < len
      → length (pre ++ ch ∷ post) < length ((pre ++ (n ++ post)) ++ 0 ∷ r)
      → len < size_mod
      → replace_char_at
          ((pre ++ (n ++ post)) ++ 0 ∷ r)
          (n ++ 0 ∷ q)
          ch
          len
          buffer
          (some (length pre))
        ≡ ok (
          rl_success,
          some (
              (pre ++ ch ∷ post)
              ++ 0 ∷ drop (length (pre ++ ch ∷ post) + 1) ((pre ++ (n ++ post)) ++ 0 ∷ r)),
        )
  unfolding replace_char_at
  replace_char_at_lem pre n post r q buffer ch len hn hch ht size fits cap small =
      let hpost = IsText-post pre n post ht in
      let sum = length-append pre (ch ∷ post) in
      rw
        (
          strlen-text n q hn,
          text_rest pre n post r,
          suffix_past pre n (post ++ 0 ∷ r),
          strlen-text post r hpost,
          le→ltb_false len (add_size (add_size (add_size (length pre) 1) (length post)) 1)
              (omega arith),
        )
        (fill pre post (pre ++ (n ++ (post ++ 0 ∷ r))) r buffer (n ++ (post ++ 0 ∷ r)) ch
          (λ s. ok (rl_success, some s)) (IsText-pre pre n post ht) hch hpost (omega arith)
          (rw (text_rest pre n post r) at cap))

  -- Where a nonempty target occurs in a text, the byte `ch` is no NUL, the result is shorter than
  -- `len`, and `len` is the size of the local array and below 2^32, `rl_replace_char` puts `ch` in
  -- the place of the first occurrence, whatever the local array holds at first.
  replace_char_found :
      (t r n q pre post buffer : Bytes) (ch len : ℕ)
      → n ≢ []
      → ch ≢ 0
      → IsText n
      → IsText t
      → FirstAt n t pre post
      → length buffer ≡ len
      → length (pre ++ ch ∷ post) < len
      → len < size_mod
      → rl_replace_char (some (t ++ 0 ∷ r)) (some (n ++ 0 ∷ q)) ch len buffer
        ≡ ok (
          rl_success,
          some ((pre ++ ch ∷ post) ++ 0 ∷ drop (length (pre ++ ch ∷ post) + 1) (t ++ 0 ∷ r)),
        )
  unfolding rl_replace_char
  replace_char_found t r n q pre post buffer ch len ne hch hn ht f size fits small =
      rw
        (
          isempty-text t r (ne_nil_of_split t pre n post ne f.split) ht,
          isempty-text n q ne hn,
          strstr_first n q t r pre post ne hn ht f,
          f.split,
        )
        (replace_char_at_lem pre n post r q buffer ch len hn hch (rw f.split at ht) size fits
          (omega (
            arith,
            length-append (pre ++ (n ++ post)) (0 ∷ r),
            length-append pre (n ++ post),
            length-append n post,
            length-append pre (ch ∷ post),
            length-pos n ne,
          ))
          small)
