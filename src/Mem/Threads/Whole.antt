-- ===== src/Mem/Threads/Whole.antt =====
-- A thread alone, and the functions in one piece.
use custom_public_library_rl.Common.{
  ℕ, zero, suc, ◌⊎◌, inl, inr, true, Option, if◌then◌else◌, ok, ℤ, Public,
}
use custom_public_library_rl.Memory.{Addr, null, released, Cmd, pure, and_then, ◌>>=◌}
use custom_public_library_rl.Mem.{rl_malloc, rl_calloc, rl_free}
use custom_public_library_rl.Mem.Threads.{
  Call, malloc_call, calloc_call, free_call, Pc, returned, answered, begin, advance,
}
use custom_public_library_rl.Mem.Threads.Schedule.{can_go}

-- At most `n` moves of one thread that is in a call; `answer` is that of the second `malloc`.
unfoldable pub goes : ℕ → Option Addr → Pc → Cmd Pc
goes zero answer p m = ok (p, m)
goes (suc n) answer p m =
    if can_go released p
    then and_then (advance (record { call = free_call null; answer = answer }) p m)
        (λ q m'. goes n answer q m')
    else ok (p, m)

-- A whole call.
unfoldable pub call_alone : Option Addr → Option Addr → Call → Cmd Pc
call_alone answer second c = do p ← begin answer c; goes 8 second p

module _ ⦃public : Public⦄ where
  open public use {rl_success, rl_failed}

  -- What a call gave its caller.
  abbrev pub outcome : Pc → Addr ⊎ ℤ
  outcome (returned a) = inl a
  outcome (answered true) = inr rl_success
  outcome _ = inr rl_failed

  -- The function that is called
  abbrev pub whole : Option Addr → Option Addr → Call → Cmd (Addr ⊎ ℤ)
  whole answer second (malloc_call size site) = do
    a ← rl_malloc answer second size site
    pure (inl a)
  whole answer second (calloc_call block count site) = do
    a ← rl_calloc answer second block count site
    pure (inl a)
  whole answer second (free_call p) = do r ← rl_free p; pure (inr r)
