-- ===== src/Log/Threads/Looping.antt =====
-- A thread alone in the loop of `write_rl_log`, next to the loop in one piece.
use custom_public_library_rl.Common.{
  ℕ, ◌+◌, ◌-◌, ◌<◌, ◌≡◌, refl, ◌∙◌, Bool, true, false, Option, none, some, List, [], ◌∷◌, ◌++◌, ok,
  Returns, returns, ltb, ltb→lt, Bool-cases, inl, inr, length, take, drop, length-take, length-drop,
  take-append-drop, append_assoc, arith, ℤ, Public,
}
use custom_public_library_rl.Libc.{Bytes, prefix, suffix}
use custom_public_library_rl.Libc.Access.{prefix-append, suffix-append}
use custom_public_library_rl.Log.{Answers, write_loop}
use custom_public_library_rl.Log.Threads.{
  Writer, returned, writing, leaving, Reply, LogFile, after_write, write_move,
}

-- A thread alone, with the replies to its moves in turn, to the end of its call: behind that it
-- starts no other.
unfoldable pub alone : List Reply → Writer → LogFile → Writer × LogFile
alone [] w s = (w, s)
alone (reply ∷ replies) (returned success) s = (returned success, s)
alone (reply ∷ replies) w s = let (w', s', _) = write_move reply w s in alone replies w' s'

abbrev pub held_file : Bytes → LogFile
held_file content = record { locked = true; opened = true; content = content }

abbrev pub free_file : Bytes → LogFile
free_file content = record { locked = false; opened = true; content = content }

-- The reply to a move, of which `ret` is that of `write`.
abbrev pub reply_of : Answers → Option ℕ → Reply
reply_of ans ret = record {
  text = [];
  size = ans.size;
  truncated = ans.truncated;
  moved = ans.moved;
  ret = ret;
}

-- The replies in the loop, and to the two moves behind it.
abbrev pub loop_replies : Answers → List (Option ℕ) → List Reply
loop_replies ans [] = reply_of ans none ∷ reply_of ans none ∷ []
loop_replies ans (ret ∷ rets) = reply_of ans ret ∷ loop_replies ans rets

-- What is left of the text, in the array
rest_of :
    (text behind : Bytes) (w : ℕ)
    → w < length text
    → (suffix (text ++ behind) w ≡ ok (drop w text ++ behind))
      × (prefix (length text - w) (drop w text ++ behind) ≡ ok (drop w text))
rest_of text behind w lt =
    let now = take w text in
    let later = drop w text in
    let size : length now ≡ w = omega (arith, length-take w text) in
    let whole : now ++ (later ++ behind) ≡ text ++ behind =
      rw (← append_assoc now later behind, take-append-drop w text) refl in
    let left : length later ≡ length text - w = omega (arith, length-drop w text) in
    (
      rw (whole, size) at (suffix-append now (later ++ behind)),
      rw left at (prefix-append later behind),
    )

module _ ⦃public : Public⦄ where
  open public use {rl_success, rl_failed}

  abbrev pub code_for : Bool → ℤ
  code_for true = rl_success
  code_for false = rl_failed

  -- The thread comes to the end of its call, with the success that the code tells, and leaves the
  -- mutex free and this content. Nothing is said where the answers of `write` end before the loop.
  abbrev pub Tells : Writer × LogFile → Option (ℤ × Bytes) → Type 0
  Tells end none = Unit
  Tells end (some (code, content)) =
      (b : Bool) × (end ≡ (returned b, free_file content)) × (code ≡ code_for b)

  pub unlocks :
      (ans : Answers) (b : Bool) (text : Bytes) (w : ℕ) (content : Bytes) (rets : List (Option ℕ))
      → alone (loop_replies ans rets) (leaving b text w) (held_file content)
        ≡ (returned b, free_file content)
  unfolding alone write_move
  unlocks ans b text w content [] = refl
  unlocks ans b text w content (r ∷ []) = refl
  unlocks ans b text w content (r ∷ r' ∷ rets) = refl

  writes_all :
      (reply : Reply) (replies : List Reply) (text : Bytes) (w : ℕ) (content : Bytes)
      → ltb w (length text) ≡ false
      → alone (reply ∷ replies) (writing text w) (held_file content)
        ≡ alone replies (leaving true text w) (held_file content)
  unfolding alone write_move
  writes_all reply replies text w content e = rw e refl

  writes_none :
      (ans : Answers) (replies : List Reply) (text : Bytes) (w : ℕ) (content : Bytes)
      → ltb w (length text) ≡ true
      → alone (reply_of ans none ∷ replies) (writing text w) (held_file content)
        ≡ alone replies (leaving false text w) (held_file content)
  unfolding alone write_move after_write
  writes_none ans replies text w content e = rw e refl

  writes_some :
      (ans : Answers) (n : ℕ) (replies : List Reply) (text : Bytes) (w : ℕ) (content : Bytes)
      → ltb w (length text) ≡ true
      → alone (reply_of ans (some n) ∷ replies) (writing text w) (held_file content)
        ≡ alone replies (writing text (w + n)) (held_file (content ++ take n (drop w text)))
  unfolding alone write_move after_write
  writes_some ans n replies text w content e = rw e refl

  last_unlocks :
      (ans : Answers) (text : Bytes) (w : ℕ) (content : Bytes)
      → alone (reply_of ans none ∷ []) (leaving true text w) (held_file content)
        ≡ (returned true, free_file content)
  unfolding alone write_move
  last_unlocks ans text w content = refl

  pub write_loop-Tells :
      (ans : Answers) (rets : List (Option ℕ)) (text behind : Bytes) (w : ℕ) (content : Bytes)
      → Returns
          (Tells (alone (loop_replies ans rets) (writing text w) (held_file content)))
          (write_loop rets (text ++ behind) (length text) w content)
  unfolding write_loop
  write_loop-Tells ans [] text behind w content = elim (Bool-cases (ltb w (length text))) [
    | inl e ↦ rw e (returns tt)
    | inr e ↦
        let over = writes_all (reply_of ans none) (reply_of ans none ∷ []) text w content e in
        rw e (returns (true, over ∙ last_unlocks ans text w content, refl))
  ]
  write_loop-Tells ans (none ∷ rets) text behind w content =
      elim (Bool-cases (ltb w (length text))) [
        | inl e ↦
            let failed = writes_none ans (loop_replies ans rets) text w content e in
            rw e (returns (false, failed ∙ unlocks ans false text w content rets, refl))
        | inr e ↦
            let over = writes_all (reply_of ans none) (loop_replies ans rets) text w content e in
            rw e (returns (true, over ∙ unlocks ans true text w content rets, refl))
      ]
  write_loop-Tells ans (some n ∷ rets) text behind w content =
      elim (Bool-cases (ltb w (length text))) [
        | inl e ↦
            let (skips, reads) = rest_of text behind w (ltb→lt w (length text) e) in
            rw (writes_some ans n (loop_replies ans rets) text w content e, e, skips, reads)
              (write_loop-Tells ans rets text behind (w + n) (content ++ take n (drop w text)))
        | inr e ↦
            let over =
              writes_all (reply_of ans (some n)) (loop_replies ans rets) text w content e in
            rw e (returns (true, over ∙ unlocks ans true text w content rets, refl))
      ]
