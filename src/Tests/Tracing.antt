-- ===== src/Tests/Tracing.antt =====
-- rlmem on a concrete heap.
use custom_public_library_rl.Common.{
  ◌≡◌, ◌↔◌, refl, inl, true, false, Option, none, some, List, [], ◌∷◌, ◌++◌, ok, Returns, arith,
  codes, pos, negsuc, ℤ, replicate,
}
use custom_public_library_rl.Libc.{
  Bytes, write, strlen, prefix, suffix, snprintf, fgets, read_line, strcspn, read,
}
use custom_public_library_rl.Str.{rl_str_isempty}
use custom_public_library_rl.Sys.{rl_get_proc_name, rl_get_proc_dir, rl_get_file_abs_path, readlink}
use custom_public_library_rl.Memory.{Site, Memory, update, null, released, absent, node_size}
use custom_public_library_rl.Mem.{rl_realloc, rl_malloc, rl_calloc, rl_free}
use custom_public_library_rl.Mem.Invariant.{IsTracked}
use custom_public_library_rl.Mem.Table.{block, view, alloc, alloc_zeroed, remove, move}
use custom_public_library_rl.Mem.Alloc.{
  Agrees, NoLeak, malloc-NoLeak, malloc_refines, calloc_refines,
}
use custom_public_library_rl.Mem.Realloc.{resize, realloc_refines}
use custom_public_library_rl.Mem.Release.{Returned, Gone, release, free_refines, free_twice}
use custom_public_library_rl.Mem.Target.{System, target, target_path, append_name, string_at}
use custom_public_library_rl.Mem.Lifecycle.{Line, rl_memory_trace_init, rl_memory_trace_deinit}
use custom_public_library_rl.Mem.Lifecycle.Report.{report_of, IsClosed, deinit_lem, init_lem}
use custom_public_library_rl.Time.{Tm, rl_get_time}
use custom_public_library_rl.Tests.{host}

abbrev pub site : Site
site = record { file = codes "main.c"; func = codes "main"; line = 12 }

-- One block of 8 bytes is out, with its node at 200.
abbrev pub one : Memory
one = record {
  trace_state = true;
  mem_lock = released;
  header = record { addr = 200; ptr = 100; size = 8; site = site } ∷ [];
  block_count = 1;
  total_bytes = 8;
  heap = update (update (λ a. none) 100 (some 8)) 200 (some node_size);
}

pub one-IsTracked : IsTracked one
one-IsTracked = record {
  tracing = refl;
  unlocked = refl;
  owns = ((refl, refl, omega arith, omega arith), tt, tt);
  blocks = refl;
  bytes = refl;
}

malloc_refines_example :
    Returns
      (Agrees (300, block 300 4 site ∷ block 100 8 site ∷ []))
      (rl_malloc (some 300) (some 400) 4 site one)
unfolding alloc
malloc_refines_example =
    malloc_refines one (some 300) (some 400) 4 site one-IsTracked
      ((refl, omega arith), (refl, omega arith))

malloc-NoLeak_example : Returns (NoLeak one) (rl_malloc (some 300) none 4 site one)
malloc-NoLeak_example = malloc-NoLeak one (some 300) none 4 site one-IsTracked (refl, omega arith)

-- 65536 times 65537 wraps around to 65536.
calloc_refines_example :
    Returns
      (Agrees (null, block 100 8 site ∷ []))
      (rl_calloc (some 300) (some 400) 65536 65537 site one)
unfolding alloc_zeroed
calloc_refines_example =
    calloc_refines one (some 300) (some 400) 65536 65537 site one-IsTracked
      ((refl, omega arith), (refl, omega arith))

-- The block moves from 100 to 300 and grows to 16 bytes.
realloc_refines_example :
    Returns (Agrees (300, block 300 16 site ∷ [])) (rl_realloc (some 300) none 100 16 site one)
unfolding resize move
realloc_refines_example =
    realloc_refines one (some 300) none 100 16 site one-IsTracked (refl, omega arith) (omega arith)
      (omega arith) (inl refl)

free_refines_example : Returns (λ r. Returned (pos 0, []) r × Gone 100 r) (rl_free 100 one)
unfolding release remove
free_refines_example = free_refines one 100 one-IsTracked

free_twice_example :
    Returns
      (λ ((c, m) : ℤ × Memory). Returns (Returned (negsuc 0, view m.header)) (rl_free 100 m))
      (rl_free 100 one)
free_twice_example = free_twice one 100 one-IsTracked

abbrev tm : Tm
tm = record { tm_sec = 0; tm_min = 0; tm_hour = 0; tm_mday = 1; tm_mon = 0; tm_year = 124 }

-- The executable is /d/a, in the directory /d.
abbrev device : System
device = record {
  dirname = λ path. codes "/d";
  exe = some (codes "/d/a");
  temp_buf = replicate 512 7;
  comm = some (codes "a" ++ b'\n' ∷ []);
  clock = some 5;
  localtime = λ stamp. some tm;
  time = tm;
  opens = λ path. true;
}

abbrev report_path : Bytes
report_path = codes "/d/../log/memory_trace_a.log"

device-target : target device ≡ ok (some (report_path, tm))
unfolding target target_path append_name string_at rl_get_proc_name rl_get_proc_dir
    rl_get_file_abs_path readlink rl_str_isempty rl_get_time write strlen prefix suffix snprintf
    fgets read_line strcspn read
device-target = refl

deinit_lem_example :
    Returns
      (λ ((r, m) : (ℤ × Option (Bytes × List Line)) × Memory).
        (r ≡ (pos 0, some (report_path, report_of tm (block 100 8 site ∷ [])))) × IsClosed one m)
      (rl_memory_trace_deinit device one)
deinit_lem_example = deinit_lem device one report_path tm one-IsTracked device-target refl

-- The same without an executable's path
abbrev lost : System
lost = record device { exe = none }

lost-target : target lost ≡ ok none
unfolding target target_path append_name string_at rl_get_proc_name rl_get_proc_dir
    rl_get_file_abs_path readlink rl_str_isempty rl_get_time write strlen prefix suffix snprintf
    fgets read_line strcspn read
lost-target = refl

-- Tracing is off, and one block has never been given back.
abbrev leaky : Memory
leaky = record one { trace_state = false; mem_lock = absent; header = [] }

init_lem_example :
    Returns
      (λ ((_, m) : Unit {0} × Memory).
        (view m.header ≡ []) × (IsTracked m ↔ ((leaky.block_count ≡ 0) × (leaky.total_bytes ≡ 0))))
      (rl_memory_trace_init true leaky)
init_lem_example = init_lem leaky refl
