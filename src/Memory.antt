-- ===== src/Memory.antt =====
-- The state that rlmem/src/rlmem.c works on: the file's static variables and the heap as one record,
-- with the allocator's calls and the mutex. A call of the allocator takes its answer as an
-- argument, NULL (`none`) or an address. A mutex that is taken twice or used before it is
-- initialised, and a free of what is not allocated, are faults.
use custom_public_library_rl.Common.{
  ℕ, ◌+◌, ◌-◌, ◌*◌, ◌%◌, ◌^◌, Bool, Option, none, some, List, Run, ok, fault, leb, ◌==◌,
  if◌then◌else◌,
}
use custom_public_library_rl.Libc.{Bytes}

abbrev pub Addr : Type 0
Addr = ℕ

abbrev pub null : Addr
null = 0

-- The size of the block at each address that is allocated.
abbrev pub Heap : Type 0
Heap = Addr → Option ℕ

abbrev pub update : Heap → Addr → Option ℕ → Heap
update h a c b = if a == b then c else h b

-- The arguments `file`, `func` and `line` of a call.
pub record Site : Type 0 where
  pub file : Bytes
  pub func : Bytes
  pub line : ℕ

-- `MEM_NODE_T`, with its own address; the links are the order of the list.
pub record Node : Type 0 where
  pub addr : Addr
  pub ptr : Addr
  pub size : ℕ
  pub site : Site

-- `sizeof(MEM_NODE_T)`: six words
abbrev pub node_size : ℕ
node_size = 24

pub data Lock : Type 0 where
  absent released held : Lock

pub record Memory : Type 0 where
  pub trace_state : Bool
  pub mem_lock : Lock
  pub header : List Node
  pub block_count : ℕ
  pub total_bytes : ℕ
  pub heap : Heap

abbrev pub u32_mod : ℕ
u32_mod = 2 ^ 32

abbrev pub add_u32 : ℕ → ℕ → ℕ
add_u32 a b = (a + b) % u32_mod

abbrev pub sub_u32 : ℕ → ℕ → ℕ
sub_u32 a b = (a + (u32_mod - b % u32_mod)) % u32_mod

abbrev pub Cmd : Type 0 → Type 0
Cmd A = Memory → Run (A × Memory)

abbrev pub pure : {A : Type 0} → A → Cmd A
pure a m = ok (a, m)

module _ {A B : Type 0} where
  abbrev pub and_then : Run (A × Memory) → (A → Cmd B) → Run (B × Memory)
  and_then (ok (a, m)) k = k a m
  and_then fault k = fault

infixl 5 ◌>>=◌ ◌>>◌
abbrev pub ◌>>=◌ : {A B : Type 0} → Cmd A → (A → Cmd B) → Cmd B
c >>= k = λ m. and_then (c m) k

abbrev pub ◌>>◌ : {A B : Type 0} → Cmd A → Cmd B → Cmd B
c >> d = c >>= λ _. d

abbrev pub gets : {A : Type 0} → (Memory → A) → Cmd A
gets f m = ok (f m, m)

-- `malloc(size)` answers `answer`.
unfoldable pub malloc : Option Addr → ℕ → Cmd (Option Addr)
malloc none size m = ok (none, m)
malloc (some a) size m = ok (some a, record m { heap = update m.heap a (some size) })

-- `calloc` fails where the product does not fit a `size_t`.
unfoldable pub calloc : Option Addr → ℕ → ℕ → Cmd (Option Addr)
calloc answer block count =
    if leb u32_mod (block * count) then pure none else malloc answer (block * count)

abbrev pub free_found : Option ℕ → Addr → Cmd (Unit {0})
free_found none a m = fault
free_found (some n) a m = ok (tt, record m { heap = update m.heap a none })

unfoldable pub free : Addr → Cmd (Unit {0})
free a m = free_found (m.heap a) a m

-- A successful `realloc` gives the old block back, at the same address or another.
abbrev pub realloc_found : Option ℕ → Option Addr → Addr → ℕ → Cmd (Option Addr)
realloc_found none answer a size m = fault
realloc_found (some n) none a size m = ok (none, m)
realloc_found (some n) (some b) a size m =
    ok (some b, record m { heap = update (update m.heap a none) b (some size) })

unfoldable pub realloc : Option Addr → Addr → ℕ → Cmd (Option Addr)
realloc answer a size m = realloc_found (m.heap a) answer a size m

abbrev pub lock_when : Lock → Cmd (Unit {0})
lock_when released m = ok (tt, record m { mem_lock = held })
lock_when _ m = fault

unfoldable pub lock : Cmd (Unit {0})
lock m = lock_when m.mem_lock m

abbrev pub unlock_when : Lock → Cmd (Unit {0})
unlock_when held m = ok (tt, record m { mem_lock = released })
unlock_when _ m = fault

unfoldable pub unlock : Cmd (Unit {0})
unlock m = unlock_when m.mem_lock m
