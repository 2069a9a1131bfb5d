-- ===== src/Mem/Release.antt =====
-- `rl_free`: a block of the list is given back with its node, anything else is refused.
use custom_public_library_rl.Common.{
  ◌≡◌, ◌≢◌, refl, sym, ◌∙◌, true, false, Option, none, some, List, [], ◌∷◌, ok, Returns, returns,
  Returns-map, subst, arith, All, ne→==, ==_refl, ◌==◌, if◌then◌else◌, Bool-cases, inl, inr, ℤ, pos,
  negsuc, Public,
}
use custom_public_library_rl.Memory.{
  Addr, null, Heap, update, Node, node_size, released, held, Memory, sub_u32, pure, ◌>>◌, free,
  unlock,
}
use custom_public_library_rl.Mem.Invariant.{Apart, Owns, IsTracked, Owns-update}
use custom_public_library_rl.Mem.Alloc.{free_live, lock_released, unlock_held}
use custom_public_library_rl.Mem.Table.{Table, view, remove}
use custom_public_library_rl.Mem.{unlink, forget, rl_free}
use custom_public_library_rl.Mem.Unlink.{Unlinked, Found, unlink-Found, Outside-Apart}

module _ ⦃public : Public⦄ where
  open public use {rl_success, rl_failed}

  -- The code and the table after a release: what is not in the table is refused.
  abbrev pub released_or : Option Table → Table → ℤ × Table
  released_or none t = (rl_failed, t)
  released_or (some t') t = (rl_success, t')

  unfoldable pub release : Addr → Table → ℤ × Table
  release p t = if p == null then (rl_failed, t) else released_or (remove p t) t

  abbrev pub Returned : ℤ × Table → ℤ × Memory → Type 0
  Returned (c, t) (c', m) = IsTracked m × (c' ≡ c) × (view m.header ≡ t)

  -- Where the code is that of success, the address is free.
  abbrev pub Gone : Addr → ℤ × Memory → Type 0
  Gone p (c, m) = c ≡ rl_success → m.heap p ≡ none

  failure : rl_failed ≢ rl_success
  failure e =
      let e' : negsuc 0 ≡ pos 0 = sym public.failed_lem ∙ (e ∙ public.success_lem) in absurd (cc)

  freed : Memory → Node → List Node → Memory
  freed m n others = record m {
    trace_state = true;
    mem_lock = released;
    header = others;
    block_count = sub_u32 m.block_count 1;
    total_bytes = sub_u32 m.total_bytes n.size;
    heap = update (update m.heap n.addr none) n.ptr none;
  }

  free_found_lem :
      (m : Memory) (p : Addr) (n : Node) (others : List Node)
      → Unlinked m.heap p m.header n others
      → (forget n others >> (unlock >> (free p >> pure rl_success)))
          (record m { trace_state = true; mem_lock = held })
        ≡ ok (rl_success, freed m n others)
  unfolding forget freed
  free_found_lem m p n others u =
      let (node, live, two, ptr) = u.node in
      let own = record m { trace_state = true; mem_lock = held; header = others } in
      let after = record m {
        trace_state = true;
        mem_lock = released;
        header = others;
        block_count = sub_u32 m.block_count 1;
        total_bytes = sub_u32 m.total_bytes n.size;
        heap = update m.heap n.addr none;
      } in
      rw
        (
          free_live n.addr node_size own node,
          unlock_held,
          sym u.found,
          free_live n.ptr n.size after (rw (ne→== n.addr n.ptr (λ e. two (sym e))) live),
        )
        refl

  freed-IsTracked :
      (m : Memory) (p : Addr) (n : Node) (others : List Node)
      → IsTracked m
      → Unlinked m.heap p m.header n others
      → IsTracked (freed m n others)
  unfolding freed
  freed-IsTracked m p n others t u =
      let (out, out') = Outside-Apart n others u.apart in
      record {
        tracing = refl;
        unlocked = refl;
        owns =
            Owns-update (update m.heap n.addr none) n.ptr none others out
              (Owns-update m.heap n.addr none others out' u.owns);
        blocks = omega (arith, t.blocks, u.count);
        bytes = omega (arith, t.bytes, u.bytes);
      }

  freed_at :
      (m : Memory) (p : Addr) (n : Node) (others : List Node)
      → n.ptr ≡ p
      → (freed m n others).heap p ≡ none
  unfolding freed
  freed_at m p n others e = rw (sym e, ==_refl n.ptr) refl

  freed_header :
      (m : Memory) (n : Node) (others : List Node) → view (freed m n others).header ≡ view others
  unfolding freed
  freed_header m n others = refl

  free_locked :
      (m : Memory) (p : Addr)
      → (p == null) ≡ false
      → IsTracked m
      → (o : Option (Node × List Node)) → unlink p m.header ≡ o
      → Found m.heap p m.header o
      → Returns (λ r. Returned (release p (view m.header)) r × Gone p r) (rl_free p m)
  unfolding rl_free release
  free_locked m p nonnull t none e gone =
      rw
        (
          nonnull,
          t.tracing,
          lock_released (record m { trace_state = true }) t.unlocked,
          e,
          gone,
          unlock_held,
        )
        (returns (
          (
            record {
              tracing = refl;
              unlocked = refl;
              owns = t.owns;
              blocks = t.blocks;
              bytes = t.bytes;
            },
            refl,
            refl,
          ),
          λ e. absurd (failure e),
        ))
  free_locked m p nonnull t (some (n, others)) e (u, gone) =
      rw
        (
          nonnull,
          t.tracing,
          lock_released (record m { trace_state = true }) t.unlocked,
          e,
          gone,
          free_found_lem m p n others u,
        )
        (returns (
          (freed-IsTracked m p n others t u, refl, freed_header m n others),
          λ _. freed_at m p n others u.found,
        ))

  -- From a state that satisfies the invariant, `rl_free` never faults and keeps the invariant. It
  -- returns RL_SUCCESS and takes the block out of the table where the table has one at the
  -- address; for NULL and for any other address it returns RL_FAILED and leaves the table. Where
  -- it returns RL_SUCCESS, the address is free.
  pub free_refines :
      (m : Memory) (p : Addr)
      → IsTracked m
      → Returns (λ r. Returned (release p (view m.header)) r × Gone p r) (rl_free p m)
  unfolding rl_free release
  free_refines m p t = elim (Bool-cases (p == null)) [
    | inl e ↦ rw e (returns ((t, refl, refl), λ e'. absurd (failure e')))
    | inr e ↦ free_locked m p e t (unlink p m.header) refl (unlink-Found m.heap p m.header t.owns)
  ]

  remove_absent :
      (n : Node) (p : Addr) (ns : List Node)
      → n.ptr ≡ p
      → All (Apart n) ns
      → remove p (view ns) ≡ none
  unfolding remove
  remove_absent n p [] e apart = refl
  remove_absent n p (k ∷ ns) e ((pp, _, _, _), apart) =
      rw (ne→== k.ptr p (λ e'. pp (e ∙ sym e')), remove_absent n p ns e apart) refl

  released_once :
      (h : Heap) (p : Addr) (ns : List Node) (o : Option (Node × List Node))
      → Found h p ns o
      → remove p ((released_or (remove p (view ns)) (view ns)).1) ≡ none
  released_once h p ns none gone = rw (gone, gone) refl
  released_once h p ns (some (n, others)) (u, gone) =
      rw gone (remove_absent n p others u.found u.apart)

  release_twice :
      (h : Heap) (p : Addr) (ns : List Node)
      → Owns h ns
      → (release p ((release p (view ns)).1)) ≡ (rl_failed, (release p (view ns)).1)
  unfolding release
  release_twice h p ns owns = elim (Bool-cases (p == null)) [
    | inl e ↦ rw e refl
    | inr e ↦ rw (e, released_once h p ns (unlink p ns) (unlink-Found h p ns owns)) refl
  ]

  -- From a state that satisfies the invariant, a second `rl_free` of the same address returns
  -- RL_FAILED, keeps the invariant and leaves the table as it was, whatever the first one
  -- returned, and neither of the two faults.
  pub free_twice :
      (m : Memory) (p : Addr)
      → IsTracked m
      → Returns
          (λ ((c, m') : ℤ × Memory). Returns (Returned (rl_failed, view m'.header)) (rl_free p m'))
          (rl_free p m)
  free_twice m p t = Returns-map (free_refines m p t) (λ (c, m') ((t', ec, ev), _).
      let again : release p (view m'.header) ≡ (rl_failed, view m'.header) =
        rw ev (release_twice m.heap p m.header t.owns) in
      subst (λ x. Returns (Returned x) (rl_free p m')) again
        (Returns-map (free_refines m' p t') (λ _ (r, _). r)))
