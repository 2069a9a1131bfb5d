-- ===== src/Tests/Threads.antt =====
-- Two threads that call rlmem.
use custom_public_library_rl.Common.{◌≡◌, refl, true, Option, none, some, [], ◌∷◌, Returns, arith}
use custom_public_library_rl.Memory.{
  Addr, Node, update, null, held, node_size, malloc, free, lock, unlock, and_then, pure,
}
use custom_public_library_rl.Mem.{unlink}
use custom_public_library_rl.Mem.Invariant.{IsTracked}
use custom_public_library_rl.Mem.Threads.{
  Call, malloc_call, free_call, returned, answered, ready, searching, Input, begin, advance, act,
}
use custom_public_library_rl.Mem.Threads.Standing.{Locked}
use custom_public_library_rl.Mem.Threads.Tracked.{after_address, after_answer}
use custom_public_library_rl.Mem.Threads.Safety.{
  Shared, IsQuiet, Reach, start, later, under_lock, threads_exclude, threads-IsTracked,
}
use custom_public_library_rl.Mem.Threads.Schedule.{drain}
use custom_public_library_rl.Mem.Threads.Finish.{threads_finish}
use custom_public_library_rl.Mem.Threads.Whole.{call_alone, outcome, whole}
use custom_public_library_rl.Mem.Threads.Alone.{alone_lem}
use custom_public_library_rl.Mem.Threads.Race.{race, realloc_race}
use custom_public_library_rl.Tests.{host}
use custom_public_library_rl.Tests.Tracing.{site, one, one-IsTracked}

-- Two threads, one block of 8 bytes at 100
abbrev two : Shared
two = (returned null ∷ returned null ∷ [], one)

two-IsQuiet : IsQuiet two
two-IsQuiet = record {
  between = (after_address, (after_address, tt));
  tracked = one-IsTracked;
  null_free = refl;
}

abbrev asked : Call → Option Addr → Input
asked c a = record { call = c; answer = a }

abbrev frees : Input
frees = asked (free_call 100) none

abbrev allocates : Option Addr → Input
allocates a = asked (malloc_call 4 site) a

abbrev node : Node
node = record { addr = 400; ptr = 300; size = 4; site = site }

-- The first thread is in `rl_free` under the lock, the second in `rl_malloc` before it.
abbrev busy : Shared
busy = (
  searching 100 ∷ ready node ∷ [],
  record one { mem_lock = held; heap = update (update one.heap 300 (some 4)) 400 (some node_size) },
)

busy-Reach : Reach two busy
unfolding act advance begin malloc lock
busy-Reach =
    later
      (later (later (later start 0 frees tt refl) 1 (allocates (some 300)) (refl, omega arith) refl)
        0 frees tt refl)
      1 (allocates (some 400)) (refl, omega arith) refl

-- Both calls are over.
abbrev over : Shared
over = (
  answered true ∷ returned 300 ∷ [],
  record one {
    header = node ∷ [];
    block_count = 1;
    total_bytes = 4;
    heap =
        update (update (update (update one.heap 300 (some 4)) 400 (some node_size)) 200 none) 100
          none;
  },
)

over-Reach : Reach two over
unfolding act advance unlink malloc free lock unlock
over-Reach =
    later
      (later
        (later
          (later
            (later
              (later
                (later
                  (later
                    (later
                      (later
                        (later
                          (later
                            (later (later busy-Reach 1 (asked (free_call null) none) tt refl) 0
                              (asked (free_call null) none) tt refl)
                            0 (asked (free_call null) none) tt refl)
                          0 (asked (free_call null) none) tt refl)
                        0 (asked (free_call null) none) tt refl)
                      0 (asked (free_call null) none) tt refl)
                    0 (asked (free_call null) none) tt refl)
                  1 (asked (free_call null) none) tt refl)
                1 (asked (free_call null) none) tt refl)
              0 (asked (free_call null) none) tt refl)
            1 (asked (free_call null) none) tt refl)
          1 (asked (free_call null) none) tt refl)
        1 (asked (free_call null) none) tt refl)
      1 (asked (free_call null) none) tt refl

threads-IsTracked_example : IsTracked over.1
threads-IsTracked_example =
    threads-IsTracked two-IsQuiet over-Reach (after_answer, (after_address, tt))

threads_exclude_example :
    Returns (λ u. Locked u.1.mem_lock (under_lock u.0)) (act 1 (allocates none) busy.0 busy.1)
threads_exclude_example = threads_exclude two-IsQuiet busy-Reach 1 (allocates none) tt

threads_finish_example : Returns IsQuiet (drain 16 (λ h. none) busy.0 busy.1)
threads_finish_example = threads_finish (λ h. none) (λ h. tt) two-IsQuiet busy-Reach

alone_lem_example :
    and_then (call_alone (some 300) (some 400) (malloc_call 4 site) one) (λ p. pure (outcome p))
    ≡ whole (some 300) (some 400) (malloc_call 4 site) one
alone_lem_example = alone_lem (some 300) (some 400) (malloc_call 4 site) one refl refl

realloc_race_example : Returns (λ r. ¬ IsTracked r.1) (race 100 300 400 16 4 site site one)
unfolding unlink
realloc_race_example =
    realloc_race one 100 300 400 16 4 site site
      (record { addr = 200; ptr = 100; size = 8; site = site }) [] one-IsTracked refl
      (refl, omega arith) (omega arith) (omega arith) (refl, omega arith) (refl, omega arith)
