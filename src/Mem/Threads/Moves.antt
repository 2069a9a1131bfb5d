-- ===== src/Mem/Threads/Moves.antt =====
-- Every move, for a thread among others.
use custom_public_library_rl.Common.{refl, true, false, Returns, returns}
use custom_public_library_rl.Memory.{null, node_size, Memory}
use custom_public_library_rl.Mem.Invariant.{Fresh}
use custom_public_library_rl.Mem.Threads.{
  Pc, returned, answered, got, refused, ready, linking, storing, counting, summing, leaving,
  freeing, searching, cutting, giving, uncounting, unsumming, leaving_found, leaving_absent,
  releasing, Input, advance,
}
use custom_public_library_rl.Mem.Threads.Standing.{Others, Stands, Next}
use custom_public_library_rl.Mem.Threads.Starting.{idle-Next, node_got, waits-Next}
use custom_public_library_rl.Mem.Threads.Recording.{
  linking-Next, storing-Next, counting-Next, summing-Next, leaves,
}
use custom_public_library_rl.Mem.Threads.Freeing.{
  searching-Next, cutting-Next, frees-Next, uncounting-Next, unsumming-Next,
}

-- A thread that stands to the state as the invariant says, with the other threads as sums, moves
-- without a fault and stands so again; the list changes only while no other thread is under the
-- lock.
pub advance-Next :
    (o : Others) (input : Input) (p : Pc) (m : Memory)
    → Stands o p m
    → Fresh m.heap input.answer
    → Returns (Next o m) (advance input p m)
unfolding advance
advance-Next o input (returned a) m s f =
    idle-Next o input (returned a) m (refl, refl, refl, refl, refl, refl) s f
advance-Next o input (answered success) m s f =
    idle-Next o input (answered success) m (refl, refl, refl, refl, refl, refl) s f
advance-Next o input (got a size site) m s f = node_got o m input.answer a size site s f
advance-Next o input (refused a size) m s f =
    frees-Next o (refused a size) (returned null) m a size refl refl (refl, refl) (refl, refl)
      (λ _. tt) s
advance-Next o input (ready node) m s f =
    waits-Next o (ready node) (linking node) m refl refl refl (refl, refl) (refl, refl) tt
      m.mem_lock refl s
advance-Next o input (linking node) m s f = returns (linking-Next o node m s)
advance-Next o input (storing node next) m s f = returns (storing-Next o node next m s)
advance-Next o input (counting a size) m s f = returns (counting-Next o a size m s)
advance-Next o input (summing a size) m s f = returns (summing-Next o a size m s)
advance-Next o input (leaving a) m s f =
    leaves o (leaving a) (returned a) m refl refl refl (refl, refl) (refl, refl) tt s
advance-Next o input (freeing p) m s f =
    waits-Next o (freeing p) (searching p) m refl refl refl (refl, refl) (refl, refl) tt m.mem_lock
      refl s
advance-Next o input (searching p) m s f = returns (searching-Next o p m s)
advance-Next o input (cutting p node others) m s f = returns (cutting-Next o p node others m s)
advance-Next o input (giving p node) m s f =
    frees-Next o (giving p node) (uncounting p node.size) m node.addr node_size refl refl
      (refl, refl) (refl, refl) (λ _. tt) s
advance-Next o input (uncounting p size) m s f = returns (uncounting-Next o p size m s)
advance-Next o input (unsumming p size) m s f = returns (unsumming-Next o p size m s)
advance-Next o input (leaving_found p size) m s f =
    leaves o (leaving_found p size) (releasing p size) m refl refl refl (refl, refl) (refl, refl) tt
      s
advance-Next o input leaving_absent m s f =
    leaves o leaving_absent (answered false) m refl refl refl (refl, refl) (refl, refl) tt s
advance-Next o input (releasing p size) m s f =
    frees-Next o (releasing p size) (answered true) m p size refl refl (refl, refl) (refl, refl)
      (λ _. tt) s
