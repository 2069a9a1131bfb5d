-- ===== src/Log/Write.antt =====
-- `write_loop`: partial writes put the whole line into the file.
use custom_public_library_rl.Common.{
  ℕ, ◌+◌, ◌-◌, ◌≤◌, ◌<◌, ◌≡◌, refl, Option, some, List, [], ◌∷◌, ◌++◌, ok, ltb, lt→ltb,
  le→ltb_false, ltb→lt, Public, length, take, drop, All, length-append, length-drop, length-take,
  take-append-drop, take_all, append_assoc, append-nil, arith, Bool-cases, inl, inr,
}
use custom_public_library_rl.Libc.{Bytes, prefix, suffix}
use custom_public_library_rl.Libc.Access.{prefix-append, suffix-append}
use custom_public_library_rl.Log.{write_loop}

-- Every call of `write` succeeds and writes at least one byte.
abbrev pub successes : List ℕ → List (Option ℕ)
successes [] = []
successes (n ∷ ns) = some n ∷ successes ns

module _ ⦃public : Public⦄ where
  open public use {rl_success, rl_failed}

  write_done :
      (rets : List (Option ℕ)) (buf : Bytes) (len written : ℕ) (file : Bytes)
      → len ≤ written
      → write_loop rets buf len written file ≡ ok (some (rl_success, file))
  unfolding write_loop
  write_done [] buf len written file le = rw (le→ltb_false written len le)
  write_done (r ∷ rets) buf len written file le = rw (le→ltb_false written len le)

  write_step :
      (n : ℕ) (rets : List (Option ℕ)) (buf rest bytes : Bytes) (len written : ℕ) (file : Bytes)
      → written < len
      → suffix buf written ≡ ok rest
      → prefix (len - written) rest ≡ ok bytes
      → write_loop (some n ∷ rets) buf len written file
        ≡ write_loop rets buf len (written + n) (file ++ take n bytes)
  unfolding write_loop
  write_step n rets buf rest bytes len written file lt e e' = rw (lt→ltb written len lt, e, e')

  pub write_loop_lem :
      (ns : List ℕ) (pre rest behind file : Bytes)
      → All (λ n. 0 < n) ns
      → length rest ≤ length ns
      → write_loop
          (successes ns)
          (pre ++ (rest ++ behind))
          (length pre + length rest)
          (length pre)
          file
        ≡ ok (some (rl_success, file ++ rest))
  write_loop_lem ns pre [] behind file positive enough = rw (append-nil file) (
      write_done (successes ns) (pre ++ ([] ++ behind)) (length pre + 0) (length pre) file
        (omega arith))
  write_loop_lem [] pre (c ∷ rest) behind file positive enough = absurd (omega arith)
  write_loop_lem (n ∷ ns) pre (c ∷ rest) behind file (pos_n, positive) enough =
      let text = c ∷ rest in
      let len = length pre + length text in
      let left : len - length pre ≡ length text = omega arith in
      rw
        (write_step n (successes ns) (pre ++ (text ++ behind)) (text ++ behind) text len
          (length pre) file (omega arith) (suffix-append pre (text ++ behind))
          (rw left (prefix-append text behind)))
        (elim (Bool-cases (ltb n (length text))) [
          | inl e ↦
              let lt = ltb→lt n (length text) e in
              let now = take n text in
              let later = drop n text in
              let size : length now ≡ n = omega (arith, length-take n text) in
              let whole : now ++ later ≡ text = take-append-drop n text in
              let eq : (pre ++ now) ++ (later ++ behind) ≡ pre ++ (text ++ behind) =
                rw (append_assoc pre now (later ++ behind), ← append_assoc now later behind, whole)
                  refl in
              let el : length (pre ++ now) ≡ length pre + n =
                rw (length-append pre now, size) refl in
              let et : length pre + n + length later ≡ len = omega (arith, length-drop n text) in
              let ih =
                write_loop_lem ns (pre ++ now) later behind (file ++ now) positive
                  (omega (arith, length-drop n text)) in
              rw (eq, el, et, append_assoc file now later, whole) at ih
          | inr e ↦ rw (take_all n text (ground arith)) (
              write_done (successes ns) (pre ++ (text ++ behind)) len (length pre + n)
                (file ++ text) (ground arith))
        ])
