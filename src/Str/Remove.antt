-- ===== src/Str/Remove.antt =====
-- `rl_remove_substr`, with lemmas on a text in which another occurs.
use custom_public_library_rl.Common.{
  ◌+◌, ◌≡◌, ◌≢◌, refl, false, some, [], ◌∷◌, ◌++◌, ok, arith, length, drop, length-append,
  append_assoc, All-left, All-right, ne→==, Public,
}
use custom_public_library_rl.Libc.{Bytes, read}
use custom_public_library_rl.Libc.Access.{suffix_past, memmove_down}
use custom_public_library_rl.Libc.Text.{IsText, strlen-text, text_rest}
use custom_public_library_rl.Libc.Search.{FirstAt, Absent, strstr_first, strstr-Absent}
use custom_public_library_rl.Str.{rl_str_isempty, rl_remove_substr, remove_at}

-- A pointer to a buffer is not empty when the buffer holds a nonempty text.
pub isempty-text : (t r : Bytes) → t ≢ [] → IsText t → rl_str_isempty (some (t ++ 0 ∷ r)) ≡ ok false
unfolding rl_str_isempty read
isempty-text [] r ne h = absurd (ne refl)
isempty-text (c ∷ t) r ne (hc, h) = rw (ne→== c 0 hc)

pub ne_nil_of_split : (t pre n post : Bytes) → n ≢ [] → t ≡ pre ++ (n ++ post) → t ≢ []
ne_nil_of_split t [] [] post ne e = absurd (ne refl)
ne_nil_of_split t [] (c ∷ n) post ne e = cc
ne_nil_of_split t (p ∷ pre) n post ne e = cc

pub IsText-post : (pre n post : Bytes) → IsText (pre ++ (n ++ post)) → IsText post
IsText-post pre n post h = All-right (λ c. c ≢ 0) n post (All-right (λ c. c ≢ 0) pre (n ++ post) h)

pub IsText-pre : (pre n post : Bytes) → IsText (pre ++ (n ++ post)) → IsText pre
IsText-pre pre n post h = All-left (λ c. c ≢ 0) pre (n ++ post) h

module _ ⦃public : Public⦄ where
  open public use {rl_success, rl_failed}

  remove_at_lem :
      (pre n post r q : Bytes)
      → IsText n
      → IsText post
      → remove_at (pre ++ (n ++ (post ++ 0 ∷ r))) (n ++ 0 ∷ q) (some (length pre))
        ≡ ok (rl_success, some (pre ++ (post ++ 0 ∷ drop (length post + 1) (n ++ (post ++ 0 ∷ r)))))
  unfolding remove_at
  remove_at_lem pre n post r q hn hpost =
      let size : length (post ++ 0 ∷ []) ≡ length post + 1 =
        omega (arith, length-append post (0 ∷ [])) in
      rw (
        strlen-text n q hn,
        suffix_past pre n (post ++ 0 ∷ r),
        strlen-text post r hpost,
        ← append_assoc post (0 ∷ []) r,
        memmove_down pre n (post ++ 0 ∷ []) r (length post + 1) (length pre + length n)
            (omega (arith, length-append post (0 ∷ []))) refl,
        size,
        append_assoc post (0 ∷ []) (drop (length post + 1) (n ++ ((post ++ 0 ∷ []) ++ r))),
      )

  -- Where a nonempty target occurs in a text, `rl_remove_substr` returns RL_SUCCESS and takes its
  -- first occurrence out.
  pub remove_substr_found :
      (t r n q pre post : Bytes)
      → n ≢ []
      → IsText n
      → IsText t
      → FirstAt n t pre post
      → rl_remove_substr (some (t ++ 0 ∷ r)) (some (n ++ 0 ∷ q))
        ≡ ok (rl_success, some (pre ++ (post ++ 0 ∷ drop (length post + 1) (n ++ (post ++ 0 ∷ r)))))
  unfolding rl_remove_substr
  remove_substr_found t r n q pre post ne hn ht f =
      rw
        (
          isempty-text t r (ne_nil_of_split t pre n post ne f.split) ht,
          isempty-text n q ne hn,
          strstr_first n q t r pre post ne hn ht f,
          f.split,
          text_rest pre n post r,
        )
        (remove_at_lem pre n post r q hn (IsText-post pre n post (rw f.split at ht)))

  -- Where a nonempty target does not occur in a nonempty text, `rl_remove_substr` returns
  -- RL_FAILED and changes nothing.
  remove_substr-Absent :
      (t r n q : Bytes)
      → n ≢ []
      → t ≢ []
      → IsText n
      → IsText t
      → Absent n t
      → rl_remove_substr (some (t ++ 0 ∷ r)) (some (n ++ 0 ∷ q)) ≡ ok (rl_failed, some (t ++ 0 ∷ r))
  unfolding rl_remove_substr remove_at
  remove_substr-Absent t r n q ne te hn ht absent =
      rw (isempty-text t r te ht, isempty-text n q ne hn, strstr-Absent n q t r ne hn ht absent)
