-- ===== src/Str/Replace.antt =====
-- `rl_replace_substr`.
use custom_public_library_rl.Common.{
  ℕ, ◌+◌, ◌≤◌, ◌<◌, ◌≡◌, ◌≢◌, some, [], ◌∷◌, ◌++◌, Run, ok, ◌>>=◌, arith, length, drop,
  length-append, length-drop, append_assoc, All-append, lt→ltb, le→ltb_false, ℤ, Public,
}
use custom_public_library_rl.Libc.{Bytes, Ptr, strcpy, strcat, size_mod, add_size}
use custom_public_library_rl.Libc.Access.{suffix_past, write_past}
use custom_public_library_rl.Libc.Text.{IsText, strlen-text, strcpy-text, strcat-text, text_rest}
use custom_public_library_rl.Libc.Search.{FirstAt, strstr_first}
use custom_public_library_rl.Str.{rl_replace_substr, replace_at}
use custom_public_library_rl.Str.Remove.{isempty-text, ne_nil_of_split, IsText-post, IsText-pre}

module _ ⦃public : Public⦄ where
  open public use {rl_success, rl_failed}

  -- The local buffer holds `pre` with room behind it: the three calls that end a replacement.
  build :
      (pre rep post dst s r p : Bytes) (k : Bytes → Run (ℤ × Ptr))
      → IsText pre
      → IsText rep
      → IsText post
      → length rep + length post ≤ length dst
      → length (pre ++ (rep ++ post)) < length s
      → (strcat (pre ++ 0 ∷ dst) (rep ++ 0 ∷ p) >>= λ b.
          strcat b (post ++ 0 ∷ r) >>= λ b. strcpy s b >>= k)
        ≡ k ((pre ++ (rep ++ post)) ++ 0 ∷ drop (length (pre ++ (rep ++ post)) + 1) s)
  build pre rep post dst s r p k hpre hrep hpost room fits =
      let rest = drop (length rep) dst in
      let text =
        All-append (λ c. c ≢ 0) pre (rep ++ post) hpre
          (All-append (λ c. c ≢ 0) rep post hrep hpost) in
      rw (
        strcat-text pre rep p dst hpre hrep (omega arith),
        ← append_assoc pre rep (0 ∷ rest),
        strcat-text (pre ++ rep) post r rest (All-append (λ c. c ≢ 0) pre rep hpre hrep) hpost
            (omega (arith, length-drop (length rep) dst)),
        ← append_assoc (pre ++ rep) post (0 ∷ drop (length post) rest),
        append_assoc pre rep post,
        strcpy-text (pre ++ (rep ++ post)) (drop (length post) rest) s text fits,
      )

  replace_at_lem :
      (pre n post rep r q p buffer : Bytes) (len : ℕ)
      → IsText n
      → IsText rep
      → IsText (pre ++ (n ++ post))
      → length buffer ≡ len
      → length (pre ++ (n ++ post)) < len
      → length (pre ++ (rep ++ post)) < len
      → len ≤ length ((pre ++ (n ++ post)) ++ 0 ∷ r)
      → len < size_mod
      → replace_at
          ((pre ++ (n ++ post)) ++ 0 ∷ r)
          (n ++ 0 ∷ q)
          (rep ++ 0 ∷ p)
          len
          buffer
          (some (length pre))
        ≡ ok (
          rl_success,
          some (
              (pre ++ (rep ++ post))
              ++ 0 ∷ drop (length (pre ++ (rep ++ post)) + 1) ((pre ++ (n ++ post)) ++ 0 ∷ r)),
        )
  unfolding replace_at
  replace_at_lem pre n post rep r q p buffer len hn hrep ht size short fits capacity small =
      let hpost = IsText-post pre n post ht in
      let sum : length (pre ++ (rep ++ post)) ≡ length pre + (length rep + length post) =
        rw (length-append pre (rep ++ post), length-append rep post) in
      let old = drop (length (pre ++ (n ++ post)) + 1) buffer in
      rw
        (
          strlen-text rep p hrep,
          strlen-text n q hn,
          text_rest pre n post r,
          suffix_past pre n (post ++ 0 ∷ r),
          strlen-text post r hpost,
          le→ltb_false len
              (add_size (add_size (add_size (length pre) (length rep)) (length post)) 1)
              (omega arith),
          ← text_rest pre n post r,
          strcpy-text (pre ++ (n ++ post)) r buffer ht (omega arith),
          append_assoc pre (n ++ post) (0 ∷ old),
          write_past pre ((n ++ post) ++ 0 ∷ old) (0 ∷ [])
              (omega (arith, length-append (n ++ post) (0 ∷ old))),
        )
        (build pre rep post (drop 1 ((n ++ post) ++ 0 ∷ old)) ((pre ++ (n ++ post)) ++ 0 ∷ r) r p
          (λ s. ok (rl_success, some s)) (IsText-pre pre n post ht) hrep hpost
          (omega (
            arith,
            sum,
            length-drop 1 ((n ++ post) ++ 0 ∷ old),
            length-append (n ++ post) (0 ∷ old),
            length-append pre (n ++ post),
            length-drop (length (pre ++ (n ++ post)) + 1) buffer,
          ))
          (omega arith))

  -- Where a nonempty target occurs in a text, the replacement is a nonempty text, text and result
  -- are each shorter than `len`, `len` is the size of the local array, at most the size of the
  -- buffer and below 2^32, `rl_replace_substr` puts the replacement in the place of the first
  -- occurrence, whatever the local array holds at first.
  pub replace_substr_found :
      (t r n q pre post rep p buffer : Bytes) (len : ℕ)
      → n ≢ []
      → rep ≢ []
      → IsText n
      → IsText rep
      → IsText t
      → FirstAt n t pre post
      → length buffer ≡ len
      → length t < len
      → length (pre ++ (rep ++ post)) < len
      → len ≤ length (t ++ 0 ∷ r)
      → len < size_mod
      → rl_replace_substr (some (t ++ 0 ∷ r)) (some (n ++ 0 ∷ q)) (some (rep ++ 0 ∷ p)) len buffer
        ≡ ok (
          rl_success,
          some
              ((pre ++ (rep ++ post)) ++ 0 ∷ drop (length (pre ++ (rep ++ post)) + 1) (t ++ 0 ∷ r)),
        )
  unfolding rl_replace_substr
  replace_substr_found t r n q pre post rep p buffer len ne re hn hrep ht f size short fits cap
        small =
      rw
        (
          isempty-text t r (ne_nil_of_split t pre n post ne f.split) ht,
          isempty-text n q ne hn,
          isempty-text rep p re hrep,
          strstr_first n q t r pre post ne hn ht f,
          f.split,
        )
        (replace_at_lem pre n post rep r q p buffer len hn hrep (rw f.split at ht) size
          (rw f.split at short) fits (rw f.split at cap) small)

  -- Where a nonempty target occurs in a text, the replacement is a nonempty text, and the result
  -- is at least `len` bytes long and below 2^32 - 1, `rl_replace_substr` returns RL_FAILED and
  -- changes nothing.
  replace_substr_too_long :
      (t r n q pre post rep p buffer : Bytes) (len : ℕ)
      → n ≢ []
      → rep ≢ []
      → IsText n
      → IsText rep
      → IsText t
      → FirstAt n t pre post
      → len ≤ length (pre ++ (rep ++ post))
      → length (pre ++ (rep ++ post)) + 1 < size_mod
      → rl_replace_substr (some (t ++ 0 ∷ r)) (some (n ++ 0 ∷ q)) (some (rep ++ 0 ∷ p)) len buffer
        ≡ ok (rl_failed, some (t ++ 0 ∷ r))
  unfolding rl_replace_substr replace_at
  replace_substr_too_long t r n q pre post rep p buffer len ne re hn hrep ht f long small =
      let hpost = IsText-post pre n post (rw f.split at ht) in
      let sum : length (pre ++ (rep ++ post)) ≡ length pre + (length rep + length post) =
        rw (length-append pre (rep ++ post), length-append rep post) in
      rw (
        isempty-text t r (ne_nil_of_split t pre n post ne f.split) ht,
        isempty-text n q ne hn,
        isempty-text rep p re hrep,
        strstr_first n q t r pre post ne hn ht f,
        strlen-text rep p hrep,
        strlen-text n q hn,
        f.split,
        text_rest pre n post r,
        suffix_past pre n (post ++ 0 ∷ r),
        strlen-text post r hpost,
        lt→ltb len (add_size (add_size (add_size (length pre) (length rep)) (length post)) 1)
            (omega arith),
      )
