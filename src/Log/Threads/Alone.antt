-- ===== src/Log/Threads/Alone.antt =====
-- A thread alone in `write_rl_log`, next to the function in one piece.
use custom_public_library_rl.Common.{
  ℕ, ◌≡◌, refl, ◌∙◌, ap, ok, List, ◌∷◌, if◌then◌else◌, Bool, true, false, Option, none, some, [],
  ◌++◌, Returns, returns, Returns-then, Bool-cases, inl, inr, length, ℤ, Public,
}
use custom_public_library_rl.Libc.{Bytes}
use custom_public_library_rl.Log.{Answers, Log, is_full, with_file, write_all, append_log}
use custom_public_library_rl.Log.Threads.{
  Writer, Reply, LogFile, returned, ready, emptying, resetting, writing, leaving, write_move,
}
use custom_public_library_rl.Log.Threads.Looping.{
  alone, held_file, free_file, reply_of, loop_replies, code_for, Tells, unlocks, write_loop-Tells,
}

-- The replies to the moves of a call, from the lock on: those of the loop come behind the lock and
-- `stat`, and behind `ftruncate` and `lseek` where the file is too large.
abbrev pub replies_of : Answers → List Reply
replies_of ans =
    let first = reply_of ans none in
    let loop = loop_replies ans ans.writes in
    first ∷ first ∷ (if is_full ans.size then first ∷ first ∷ loop else loop)

module _ (text : Bytes) (content : Bytes) where
  enters_room :
      (reply reply' : Reply) (replies : List Reply)
      → is_full reply'.size ≡ false
      → alone (reply ∷ reply' ∷ replies) (ready text) (free_file content)
        ≡ alone replies (writing text 0) (held_file content)
  unfolding alone write_move
  enters_room reply reply' replies e = rw e refl

  enters_full :
      (reply reply' : Reply) (replies : List Reply)
      → is_full reply'.size ≡ true
      → alone (reply ∷ reply' ∷ replies) (ready text) (free_file content)
        ≡ alone replies (emptying text) (held_file content)
  unfolding alone write_move
  enters_full reply reply' replies e = rw e refl

  finds_room :
      (ans : Answers)
      → is_full ans.size ≡ false
      → alone (replies_of ans) (ready text) (free_file content)
        ≡ alone (loop_replies ans ans.writes) (writing text 0) (held_file content)
  finds_room ans e =
      let first = reply_of ans none in
      let loop = loop_replies ans ans.writes in
      let rest : List Reply = if is_full ans.size then first ∷ first ∷ loop else loop in
      let same : rest ≡ loop = rw e refl in
      enters_room first first rest e ∙ ap (λ rs. alone rs (writing text 0) (held_file content)) same

  finds_none :
      (ans : Answers)
      → is_full ans.size ≡ true
      → alone (replies_of ans) (ready text) (free_file content)
        ≡ alone
            (reply_of ans none ∷ reply_of ans none ∷ loop_replies ans ans.writes)
            (emptying text)
            (held_file content)
  finds_none ans e =
      let first = reply_of ans none in
      let loop = loop_replies ans ans.writes in
      let rest : List Reply = if is_full ans.size then first ∷ first ∷ loop else loop in
      let same : rest ≡ first ∷ first ∷ loop = rw e refl in
      enters_full first first rest e ∙ ap (λ rs. alone rs (emptying text) (held_file content)) same

  cuts :
      (reply : Reply) (replies : List Reply)
      → reply.truncated ≡ true
      → alone (reply ∷ replies) (emptying text) (held_file content)
        ≡ alone replies (resetting text) (held_file [])
  unfolding alone write_move
  cuts reply replies e = rw e refl

  cuts_not :
      (reply : Reply) (replies : List Reply)
      → reply.truncated ≡ false
      → alone (reply ∷ replies) (emptying text) (held_file content)
        ≡ alone replies (leaving false text 0) (held_file content)
  unfolding alone write_move
  cuts_not reply replies e = rw e refl

  sets :
      (reply : Reply) (replies : List Reply)
      → reply.moved ≡ true
      → alone (reply ∷ replies) (resetting text) (held_file content)
        ≡ alone replies (writing text 0) (held_file content)
  unfolding alone write_move
  sets reply replies e = rw e refl

  sets_not :
      (reply : Reply) (replies : List Reply)
      → reply.moved ≡ false
      → alone (reply ∷ replies) (resetting text) (held_file content)
        ≡ alone replies (leaving false text 0) (held_file content)
  unfolding alone write_move
  sets_not reply replies e = rw e refl

module _ ⦃public : Public⦄ where
  open public use {rl_success, rl_failed}

  unlocks_early :
      (ans : Answers) (b : Bool) (text : Bytes) (w : ℕ) (content : Bytes)
      → alone
          (reply_of ans none ∷ loop_replies ans ans.writes)
          (leaving b text w)
          (held_file content)
        ≡ (returned b, free_file content)
  unlocks_early ans b text w content = unlocks ans b text w content (none ∷ ans.writes)

  room_section :
      (ans : Answers) (buf : Bytes) (n : ℕ) (log : Log)
      → is_full ans.size ≡ false
      → append_log ans buf n log ≡ write_all ans buf n log
  unfolding append_log
  room_section ans buf n log e = rw e refl

  uncut_section :
      (ans : Answers) (buf : Bytes) (n : ℕ) (log : Log)
      → is_full ans.size ≡ true
      → ans.truncated ≡ false
      → append_log ans buf n log ≡ ok (some (rl_failed, log))
  unfolding append_log
  uncut_section ans buf n log e e' = rw (e, e') refl

  unset_section :
      (ans : Answers) (buf : Bytes) (n : ℕ) (log : Log)
      → is_full ans.size ≡ true
      → ans.truncated ≡ true
      → ans.moved ≡ false
      → append_log ans buf n log ≡ ok (some (rl_failed, record log { file = [] }))
  unfolding append_log
  unset_section ans buf n log e e' e'' = rw (e, e', e'') refl

  emptied_section :
      (ans : Answers) (buf : Bytes) (n : ℕ) (log : Log)
      → is_full ans.size ≡ true
      → ans.truncated ≡ true
      → ans.moved ≡ true
      → append_log ans buf n log ≡ write_all ans buf n (record log { file = [] })
  unfolding append_log
  emptied_section ans buf n log e e' e'' = simp (e, e', e'') refl

  -- The end of a thread's call next to the outcome of the part under the lock.
  abbrev pub SectionGoes : Writer × LogFile → Log → Option (ℤ × Log) → Type 0
  SectionGoes end log none = Unit
  SectionGoes end log (some (code, log')) =
      (b : Bool) × (end ≡ (returned b, free_file log'.file))
      × (code ≡ code_for b)
      × (log' ≡ record log { file = log'.file })

  as_section :
      (end end' : Writer × LogFile) (log log' : Log) (o : Option (ℤ × Bytes))
      → end ≡ end'
      → log' ≡ record log { file = log'.file }
      → Tells end' o
      → SectionGoes end log (with_file log' o)
  as_section end end' log log' none e same t = tt
  as_section end end' log log' (some (code, content)) e same (b, over, c) =
      (b, e ∙ over, c, ap (λ (l : Log). record l { file = content }) same)

  write_all-SectionGoes :
      (ans : Answers) (text behind : Bytes) (log log' : Log) (end : Writer × LogFile)
      → end ≡ alone (loop_replies ans ans.writes) (writing text 0) (held_file log'.file)
      → log' ≡ record log { file = log'.file }
      → Returns (SectionGoes end log) (write_all ans (text ++ behind) (length text) log')
  unfolding write_all
  write_all-SectionGoes ans text behind log log' end e same =
      Returns-then (write_loop-Tells ans ans.writes text behind 0 log'.file) (λ o h. returns (
        as_section end (alone (loop_replies ans ans.writes) (writing text 0) (held_file log'.file))
          log log' o e same h))

  -- On an array that starts with the text, the part of `write_rl_log` under the lock never faults,
  -- whatever the system answers. Unless the answers of `write` end before the loop does, a thread
  -- alone that waits for the lock with this text and gets the same answers, each move its own in
  -- turn, comes to the end of this call with the success that the code of the part tells, and
  -- leaves the mutex free and the same content of the file; of the log the part changes nothing
  -- but the content.
  pub append_log-SectionGoes :
      (ans : Answers) (text behind : Bytes) (log : Log)
      → Returns
          (SectionGoes (alone (replies_of ans) (ready text) (free_file log.file)) log)
          (append_log ans (text ++ behind) (length text) log)
  append_log-SectionGoes ans text behind log =
      let first = reply_of ans none in
      let loop = loop_replies ans ans.writes in
      let buf = text ++ behind in
      let c = log.file in
      let end = alone (replies_of ans) (ready text) (free_file c) in
      let empty = record log { file = [] } in
      elim (Bool-cases (is_full ans.size)) [
        | inl full ↦
            let enters = finds_none text c ans full in
            elim (Bool-cases ans.truncated) [
              | inl cut ↦
                  let empties = enters ∙ cuts text c first (first ∷ loop) cut in
                  elim (Bool-cases ans.moved) [
                    | inl set ↦ rw (emptied_section ans buf (length text) log full cut set) (
                        write_all-SectionGoes ans text behind log empty end
                          (empties ∙ sets text [] first loop set) refl)
                    | inr unset ↦
                        let fails = empties ∙ sets_not text [] first loop unset in
                        rw (unset_section ans buf (length text) log full cut unset) (
                          returns
                            (false, fails ∙ unlocks ans false text 0 [] ans.writes, refl, refl))
                  ]
              | inr uncut ↦
                  let fails = enters ∙ cuts_not text c first (first ∷ loop) uncut in
                  rw (uncut_section ans buf (length text) log full uncut)
                    (returns (false, fails ∙ unlocks_early ans false text 0 c, refl, refl))
            ]
        | inr room ↦
            rw (room_section ans buf (length text) log room)
              (write_all-SectionGoes ans text behind log log end (finds_room text c ans room) refl)
      ]
