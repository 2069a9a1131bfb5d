-- ===== src/Mem/Lifecycle.antt =====
-- rlmem/src/rlmem.c: `rl_memory_trace_init` and `rl_memory_trace_deinit`.
pub mod Report
use custom_public_library_rl.Common.{
  ℕ, Bool, true, false, Option, none, some, List, [], ◌∷◌, ◌++◌, Run, ok, fault, if◌then◌else◌, ℤ,
  Public,
}
use custom_public_library_rl.Libc.{Bytes}
use custom_public_library_rl.Memory.{
  Addr, Site, Node, absent, released, Memory, add_u32, Cmd, pure, and_then, ◌>>=◌, ◌>>◌, gets, free,
  lock, unlock,
}
use custom_public_library_rl.Mem.Target.{System, target}
use custom_public_library_rl.Time.{Tm}

-- The lines of a report, one for each format of `fprintf`, with the values that it is given: that
-- `%d` prints an unsigned value of 2^31 and more as a negative number is left to the format.
pub data Line : Type 0 where
  title rule no_leaks : Line
  stamp : Tm → Line
  leak : Addr → ℕ → Site → Line
  totals : ℕ → ℕ → Line

-- `pthread_mutex_destroy` on a mutex that has never been initialised is let through: the static
-- variable is zero, which Linux takes for an initialised mutex.
pub rl_memory_trace_init : Bool → Cmd (Unit {0})
rl_memory_trace_init state m =
    if m.trace_state
    then ok (tt, m)
    else if state
    then ok (tt, record m { mem_lock = released; header = []; trace_state = true })
    else ok (tt, record m { mem_lock = absent; trace_state = false })

-- The loop over the nodes, with `leak_count` and `leak_bytes`.
pub report_leaks : List Node → ℕ → ℕ → Cmd (List Line)
report_leaks [] count bytes = pure (totals count bytes ∷ [])
report_leaks (n ∷ ns) count bytes = do
  free n.addr
  lines ← report_leaks ns (add_u32 count 1) (add_u32 bytes n.size)
  pure (leak n.ptr n.size n.site ∷ lines)

-- The lines between the date and the rule.
pub report_body : List Node → Cmd (List Line)
report_body [] = pure (no_leaks ∷ [])
report_body (n ∷ ns) = do
  lines ← report_leaks (n ∷ ns) 0 0
  (λ m. ok (tt, record m { header = [] }))
  pure lines

pub lift : {A : Type 0} → Run A → Cmd A
lift (ok a) m = ok (a, m)
lift fault m = fault

module _ ⦃public : Public⦄ where
  open public use {rl_success, rl_failed}

  -- The rest of the function, from the lock on.
  pub write_report : System → Bytes → Tm → Cmd (ℤ × Option (Bytes × List Line))
  write_report sys path time = do
    lock
    if sys.opens path
        then (do
          nodes ← gets (λ m. m.header)
          body ← report_body nodes
          unlock
          (λ m. ok (tt, record m { mem_lock = absent; trace_state = false }))
          pure (rl_success, some (path, title ∷ stamp time ∷ (body ++ rule ∷ []))))
        else (do unlock; pure (rl_failed, none))

  -- The return value, and the file that is written.
  pub rl_memory_trace_deinit : System → Cmd (ℤ × Option (Bytes × List Line))
  rl_memory_trace_deinit sys = do
    tracing ← gets (λ m. m.trace_state)
    if tracing
        then (do
          found ← lift (target sys)
          elim found [
            | none ↦ pure (rl_failed, none)
            | some (path, time) ↦ write_report sys path time
          ])
        else pure (rl_failed, none)
