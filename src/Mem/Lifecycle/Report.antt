-- ===== src/Mem/Lifecycle/Report.antt =====
-- What `rl_memory_trace_init` sets up, and what the report of `rl_memory_trace_deinit` says.
use custom_public_library_rl.Common.{
  ℕ, suc, ◌+◌, ◌%◌, ◌≡◌, refl, ap, sym, ◌∙◌, true, false, Option, none, some, List, [], ◌∷◌, ◌++◌,
  ok, Returns, returns, arith, length, All, ne→==, ==_refl, ℤ, Public, ◌↔◌,
}
use custom_public_library_rl.Libc.{Bytes}
use custom_public_library_rl.Memory.{
  Addr, Heap, update, Node, node_size, Lock, absent, held, Memory, u32_mod, add_u32, pure, and_then,
}
use custom_public_library_rl.Mem.Invariant.{Owns, Outside, IsTracked, Owns-update}
use custom_public_library_rl.Mem.Alloc.{free_live, lock_released, unlock_held}
use custom_public_library_rl.Mem.Unlink.{Outside-Apart}
use custom_public_library_rl.Mem.Table.{Table, Block, view}
use custom_public_library_rl.Mem.Target.{System, target}
use custom_public_library_rl.Mem.Lifecycle.{
  lift, Line, title, rule, no_leaks, stamp, leak, totals, rl_memory_trace_init,
  rl_memory_trace_deinit, report_leaks, report_body, write_report,
}
use custom_public_library_rl.Time.{Tm}

-- The report on a table: an entry for each block, and the totals modulo 2^32.
abbrev table_bytes : Table → ℕ
table_bytes [] = 0
table_bytes (b ∷ t) = b.size + table_bytes t

abbrev entries : Table → List Line → List Line
entries [] end = end
entries (b ∷ t) end = leak b.ptr b.size b.site ∷ entries t end

abbrev body_of : Table → List Line
body_of [] = no_leaks ∷ []
body_of (b ∷ t) =
    entries (b ∷ t) (totals (length (b ∷ t) % u32_mod) (table_bytes (b ∷ t) % u32_mod) ∷ [])

abbrev pub report_of : Tm → Table → List Line
report_of time t = title ∷ stamp time ∷ (body_of t ++ rule ∷ [])

-- Tracing is off, every node has been freed, and the blocks that were out still are. The
-- counters keep their values.
pub record IsClosed (m m' : Memory) : Type 0 where
  pub tracing : m'.trace_state ≡ false
  pub destroyed : m'.mem_lock ≡ absent
  pub emptied : m'.header ≡ []
  pub blocks : All (λ (b : Block). m'.heap b.ptr ≡ some b.size) (view m.header)
  pub nodes : All (λ (n : Node). m'.heap n.addr ≡ none) m.header
  pub counters : (m'.block_count ≡ m.block_count) × (m'.total_bytes ≡ m.total_bytes)

-- The heap after the nodes have been freed.
abbrev free_nodes : Heap → List Node → Heap
free_nodes h [] = h
free_nodes h (n ∷ ns) = free_nodes (update h n.addr none) ns

free_nodes_else : (h : Heap) (a : Addr) (ns : List Node) → Outside a ns → free_nodes h ns a ≡ h a
free_nodes_else h a [] out = refl
free_nodes_else h a (n ∷ ns) ((_, q), out) =
    free_nodes_else (update h n.addr none) a ns out ∙ (rw (ne→== n.addr a (λ e. q (sym e))) refl)

free_nodes_lem :
    (h : Heap) (ns : List Node)
    → Owns h ns
    → All (λ (b : Block). free_nodes h ns b.ptr ≡ some b.size) (view ns)
      × All (λ (n : Node). free_nodes h ns n.addr ≡ none) ns
free_nodes_lem h [] owns = (tt, tt)
free_nodes_lem h (n ∷ ns) ((node, live, two, ptr), apart, owns) =
    let h' = update h n.addr none in
    let (out, out') = Outside-Apart n ns apart in
    let (bs, ks) = free_nodes_lem h' ns (Owns-update h n.addr none ns out' owns) in
    (
      (
        free_nodes_else h' n.ptr ns out ∙ (rw (ne→== n.addr n.ptr (λ e. two (sym e)), live) refl),
        bs,
      ),
      (free_nodes_else h' n.addr ns out' ∙ (rw (==_refl n.addr) refl), ks),
    )

report_leaks_nil :
    (count bytes : ℕ) (m : Memory) → report_leaks [] count bytes m ≡ ok (totals count bytes ∷ [], m)
unfolding report_leaks
report_leaks_nil count bytes m = refl

report_leaks_cons :
    (n : Node) (ns : List Node) (count bytes : ℕ) (m : Memory)
    → m.heap n.addr ≡ some node_size
    → report_leaks (n ∷ ns) count bytes m
      ≡ and_then
          (report_leaks ns
            (add_u32 count 1)
            (add_u32 bytes n.size)
            (record m { heap = update m.heap n.addr none }))
          (λ (lines : List Line). pure (leak n.ptr n.size n.site ∷ lines))
unfolding report_leaks
report_leaks_cons n ns count bytes m live = rw (free_live n.addr node_size m live) refl

report_leaks_lem :
    (ns : List Node) (c b : ℕ) (m : Memory)
    → Owns m.heap ns
    → report_leaks ns (c % u32_mod) (b % u32_mod) m
      ≡ ok (
        entries (view ns) (
            totals ((c + length (view ns)) % u32_mod) ((b + table_bytes (view ns)) % u32_mod) ∷ []),
        record m { heap = free_nodes m.heap ns },
      )
report_leaks_lem [] c b m owns =
    let e : c + 0 ≡ c = omega arith in
    let e' : b + 0 ≡ b = omega arith in rw (e, e', report_leaks_nil) refl
report_leaks_lem (n ∷ ns) c b m ((node, live, two, ptr), apart, owns) =
    let (out, out') = Outside-Apart n ns apart in
    let ec : add_u32 (c % u32_mod) 1 ≡ (c + 1) % u32_mod = omega arith in
    let eb : add_u32 (b % u32_mod) n.size ≡ (b + n.size) % u32_mod = omega arith in
    let fc : c + 1 + length (view ns) ≡ c + suc (length (view ns)) = omega arith in
    let fb : b + n.size + table_bytes (view ns) ≡ b + (n.size + table_bytes (view ns)) =
      omega arith in
    rw
      (
        report_leaks_cons n ns (c % u32_mod) (b % u32_mod) m node,
        ec,
        eb,
        report_leaks_lem ns (c + 1) (b + n.size) (record m { heap = update m.heap n.addr none })
            (Owns-update m.heap n.addr none ns out' owns),
        fc,
        fb,
      )
      refl

zero_add : (n : ℕ) → 0 + n ≡ n
zero_add n = omega arith

report_body_lem :
    (ns : List Node) (m : Memory)
    → m.header ≡ ns
    → Owns m.heap ns
    → report_body ns m
      ≡ ok (body_of (view ns), record m { header = []; heap = free_nodes m.heap ns })
unfolding report_body
report_body_lem [] m e owns = ap (λ (h : List Node). ok (no_leaks ∷ [], record m { header = h })) e
report_body_lem (n ∷ ns) m e owns =
    rw
      (
        report_leaks_lem (n ∷ ns) 0 0 m owns,
        zero_add (length (view (n ∷ ns))),
        zero_add (table_bytes (view (n ∷ ns))),
      )
      refl

module _ ⦃public : Public⦄ where
  open public use {rl_success, rl_failed}

  -- From a state that satisfies the invariant, where the path of the report and the time are found
  -- and the file opens, `rl_memory_trace_deinit` returns RL_SUCCESS and writes the report on the
  -- table, an entry for each block that is out and the totals modulo 2^32. Every node is freed, no
  -- block is, tracing ends and the counters keep their values.
  pub deinit_lem :
      (sys : System) (m : Memory) (path : Bytes) (time : Tm)
      → IsTracked m
      → target sys ≡ ok (some (path, time))
      → sys.opens path ≡ true
      → Returns
          (λ ((r, m') : (ℤ × Option (Bytes × List Line)) × Memory).
            (r ≡ (rl_success, some (path, report_of time (view m.header)))) × IsClosed m m')
          (rl_memory_trace_deinit sys m)
  unfolding rl_memory_trace_deinit write_report lift
  deinit_lem sys m path time t found opens =
      let (blocks, nodes) = free_nodes_lem m.heap m.header t.owns in
      let held_m = record m { trace_state = true; mem_lock = held } in
      rw
        (
          t.tracing,
          found,
          lock_released (record m { trace_state = true }) t.unlocked,
          opens,
          report_body_lem m.header held_m refl t.owns,
          unlock_held,
        )
        (returns (
          refl,
          record {
            tracing = refl;
            destroyed = refl;
            emptied = refl;
            blocks = blocks;
            nodes = nodes;
            counters = (refl, refl);
          },
        ))

  -- From a state that satisfies the invariant, where the path or the time is not found, or the
  -- file does not open, `rl_memory_trace_deinit` returns RL_FAILED, writes nothing and leaves the
  -- state as it was, so that tracing goes on.
  deinit_fails :
      (sys : System) (m : Memory) (o : Option (Bytes × Tm))
      → IsTracked m
      → target sys ≡ ok o
      → ((path : Bytes) (time : Tm) → o ≡ some (path, time) → sys.opens path ≡ false)
      → rl_memory_trace_deinit sys m ≡ ok ((rl_failed, none), m)
  unfolding rl_memory_trace_deinit write_report lift
  deinit_fails sys m none t found closed = rw (t.tracing, found) refl
  deinit_fails sys m (some (path, time)) t found closed =
      rw
        (
          t.tracing,
          found,
          lock_released (record m { trace_state = true }) t.unlocked,
          closed path time refl,
          unlock_held,
        )
        (ap (λ (l : Lock). ok ((rl_failed, none), record m { trace_state = true; mem_lock = l }))
          (sym t.unlocked))

-- With tracing off, `rl_memory_trace_init` with true starts an empty table, and the new state
-- satisfies the invariant exactly when both counters were 0 before.
pub init_lem :
    (m : Memory)
    → m.trace_state ≡ false
    → Returns
        (λ ((_, m') : Unit {0} × Memory).
          (view m'.header ≡ []) × (IsTracked m' ↔ ((m.block_count ≡ 0) × (m.total_bytes ≡ 0))))
        (rl_memory_trace_init true m)
unfolding rl_memory_trace_init
init_lem m off = rw off (
    returns (
      refl,
      (
        λ t. (omega (arith, t.blocks), omega (arith, t.bytes)),
        λ (blocks, bytes). record {
          tracing = refl;
          unlocked = refl;
          owns = tt;
          blocks = blocks;
          bytes = bytes;
        },
      ),
    ))
