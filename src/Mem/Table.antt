-- ===== src/Mem/Table.antt =====
-- What the allocator with its trace promises: a table of the blocks that are out.
use custom_public_library_rl.Common.{
  ℕ, ◌*◌, ◌||◌, Option, none, some, List, [], ◌∷◌, leb, ◌==◌, if◌then◌else◌,
}
use custom_public_library_rl.Memory.{Addr, null, Site, Node, u32_mod}

pub record Block : Type 0 where
  pub ptr : Addr
  pub size : ℕ
  pub site : Site

-- The blocks that are out, the latest first.
abbrev pub Table : Type 0
Table = List Block

abbrev pub block : Addr → ℕ → Site → Block
block a size site = record { ptr = a; size = size; site = site }

-- The table that a list of nodes stands for: the nodes' own addresses are forgotten.
abbrev pub view : List Node → Table
view [] = []
view (n ∷ ns) = block n.ptr n.size n.site ∷ view ns

-- A block is handed out when the allocator has room for it and for its node.
abbrev pub grant : Option Addr → Option Addr → ℕ → Site → Table → Addr × Table
grant none second size site t = (null, t)
grant (some a) none size site t = (null, t)
grant (some a) (some n) size site t = (a, block a size site ∷ t)

unfoldable pub alloc : Option Addr → Option Addr → ℕ → Site → Table → Addr × Table
alloc answer second size site t = if size == 0 then (null, t) else grant answer second size site t

unfoldable pub alloc_zeroed : Option Addr → Option Addr → ℕ → ℕ → Site → Table → Addr × Table
alloc_zeroed answer second count size site t =
    if count == 0 || size == 0
    then (null, t)
    else if leb u32_mod (count * size)
    then (null, t)
    else grant answer second (count * size) site t

-- The table without the block at `a`, if it holds one.
unfoldable pub remove : Addr → Table → Option Table
remove a [] = none
remove a (b ∷ t) =
    let rest = remove a t in
    if b.ptr == a then some t else elim rest [ none ↦ none | some t' ↦ some (b ∷ t') ]

-- The table with the block at `a` moved, if it holds one.
unfoldable pub move : Addr → Addr → ℕ → Site → Table → Option Table
move a a' size site [] = none
move a a' size site (b ∷ t) =
    let rest = move a a' size site t in
    if b.ptr == a
    then some (block a' size site ∷ t)
    else elim rest [ none ↦ none | some t' ↦ some (b ∷ t') ]
