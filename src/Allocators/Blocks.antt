-- ===== src/Allocators/Blocks.antt =====
-- allocators/BlockAllocator.hpp: blocks of memory by their addresses, where 0 is the null pointer. An
-- assertion that fails ends the program: `none`.
mod Conserved
mod Examples
use rtl.Base.{
  ℕ, ◌+◌, ◌-◌, Bool, true, false, not, ◌&&◌, Option, none, some, List, [], ◌∷◌, ltb, leb, ◌==◌,
  add64, mul64, replicate, if◌then◌else◌,
}
use rtl.Base.Partial.{◌>>=◌, ◌>>◌, guard}

pub record AllocatorBlock : Type 0 where
  pub block_size : ℕ
  pub block_ptr : ℕ

abbrev pub null_block : AllocatorBlock
null_block = record { block_size = 0; block_ptr = 0 }

pub record BlockAllocator : Type 0 where
  pub allocated_blocks : List AllocatorBlock
  pub free_blocks : List AllocatorBlock

-- The constructor, with the address of the buffer: one free block of 1 MB, in arrays of 1024.
unfoldable pub make_allocator : ℕ → BlockAllocator
make_allocator address = record {
  allocated_blocks = replicate 1024 null_block;
  free_blocks = record { block_size = 1048576; block_ptr = address } ∷ replicate 1023 null_block;
}

abbrev pub is_null : AllocatorBlock → Bool
is_null b = b.block_ptr == 0

-- A write to the first block that is null.
unfoldable pub fill_null : AllocatorBlock → List AllocatorBlock → Option (List AllocatorBlock)
fill_null b [] = none
fill_null b (c ∷ cs) =
    let rest = fill_null b cs in
    if is_null c then some (b ∷ cs) else elim rest [ none ↦ none | some ds ↦ some (c ∷ ds) ]

-- What is left of a free block of which some bytes are taken.
abbrev pub shrunk : AllocatorBlock → ℕ → AllocatorBlock
shrunk b bytes =
    if ltb 0 (b.block_size - bytes)
    then record { block_size = b.block_size - bytes; block_ptr = add64 b.block_ptr bytes }
    else null_block

abbrev pub fits : AllocatorBlock → ℕ → Bool
fits b bytes = not (is_null b) && leb bytes b.block_size

-- The first free block that is large enough: its address, and the blocks afterwards.
unfoldable pub take_free : ℕ → List AllocatorBlock → Option (ℕ × List AllocatorBlock)
take_free bytes [] = none
take_free bytes (b ∷ bs) =
    let rest = take_free bytes bs in
    if fits b bytes
    then some (b.block_ptr, shrunk b bytes ∷ bs)
    else elim rest [ none ↦ none | some (p, cs) ↦ some (p, b ∷ cs) ]

-- `std::sort` by address.
unfoldable pub insert : AllocatorBlock → List AllocatorBlock → List AllocatorBlock
insert b [] = b ∷ []
insert b (c ∷ cs) =
    let rest = insert b cs in if ltb c.block_ptr b.block_ptr then c ∷ rest else b ∷ c ∷ cs

unfoldable pub sort : List AllocatorBlock → List AllocatorBlock
unfolding insert
sort [] = []
sort (b ∷ bs) = insert b (sort bs)

abbrev pub adjacent : AllocatorBlock → AllocatorBlock → Bool
adjacent current next =
    not (is_null current)
    && not (is_null next)
    && add64 current.block_ptr current.block_size == next.block_ptr

abbrev pub grown : AllocatorBlock → AllocatorBlock → AllocatorBlock
grown current next = record current { block_size = add64 current.block_size next.block_size }

-- The loop of `mergeFreeBlocks` from a block on.
unfoldable pub merge_from : AllocatorBlock → List AllocatorBlock → List AllocatorBlock
merge_from current [] = current ∷ []
merge_from current (next ∷ bs) = elim (adjacent current next) [
  | true ↦ grown current next ∷ merge_from null_block bs
  | false ↦ current ∷ merge_from next bs
]

abbrev pub merge : List AllocatorBlock → List AllocatorBlock
merge [] = []
merge (b ∷ bs) = merge_from b bs

unfoldable pub merge_free_blocks : List AllocatorBlock → List AllocatorBlock
unfolding sort merge_from
merge_free_blocks bs = merge (sort bs)

-- `sizeof(T)`, the number of elements, and the address that is returned.
unfoldable pub allocate : ℕ → ℕ → BlockAllocator → Option (ℕ × BlockAllocator)
unfolding take_free fill_null merge_free_blocks
allocate size_of n m = do
  (ptr, free) ← take_free (mul64 n size_of) m.free_blocks
  allocated ← fill_null record { block_size = mul64 n size_of; block_ptr = ptr } m.allocated_blocks
  some (ptr, record { allocated_blocks = allocated; free_blocks = merge_free_blocks free })

-- The first allocated block at an address.
unfoldable pub find_block : ℕ → List AllocatorBlock → Option AllocatorBlock
find_block p [] = none
find_block p (b ∷ bs) = let rest = find_block p bs in if b.block_ptr == p then some b else rest

unfoldable pub deallocate : ℕ → BlockAllocator → Option BlockAllocator
unfolding find_block fill_null merge_free_blocks
deallocate p m = do
  room ← fill_null null_block m.free_blocks
  elim (find_block p m.allocated_blocks) [
    | none ↦ some m
    | some b ↦ do
      free ← fill_null record { block_size = b.block_size; block_ptr = p } m.free_blocks
      some record m { free_blocks = merge_free_blocks free }
  ]
