-- ===== src/Allocators/Blocks/Examples.antt =====
-- The block allocator on concrete calls.
use rtl.Base.{ℕ, ◌+◌, ◌≡◌, refl, Option, some, [], ◌∷◌, arith, mul64, add64}
use rtl.Base.Partial.{◌>>=◌}
use rtl.Allocators.Blocks.{
  null_block, BlockAllocator, allocate, deallocate, take_free, fill_null, find_block, sort, insert,
  merge_from, merge_free_blocks,
}
use rtl.Allocators.Blocks.Conserved.{free_bytes, allocate-free_bytes}

-- A small allocator: 1000 bytes from the address 16 on.
abbrev small : BlockAllocator
small = record {
  allocated_blocks = null_block ∷ null_block ∷ null_block ∷ null_block ∷ [];
  free_blocks = record { block_size = 1000; block_ptr = 16 } ∷ null_block ∷ null_block ∷ [];
}

abbrev after_ten : BlockAllocator
after_ten = record {
  allocated_blocks =
      record { block_size = 80; block_ptr = 16 } ∷ null_block ∷ null_block ∷ null_block ∷ [];
  free_blocks = null_block ∷ null_block ∷ record { block_size = 920; block_ptr = 96 } ∷ [];
}

ten_test : allocate 8 10 small ≡ some (16, after_ten)
unfolding allocate mul64 add64 take_free fill_null sort insert merge_from merge_free_blocks
ten_test = refl

allocate-free_bytes_example : free_bytes after_ten.free_blocks + 80 ≡ free_bytes small.free_blocks
unfolding mul64
allocate-free_bytes_example = allocate-free_bytes 8 10 small after_ten 16 ten_test (omega arith)

-- The entry of a block of 100 bytes outlives it: when a block of 10 at its address is given back, 100
-- bytes become free, though the 5 behind it, at the address 26, are in use; the next block covers
-- them.
abbrev reused : Option ℕ
unfolding allocate deallocate
reused = do
  (p, m1) ← allocate 1 100 small
  m2 ← deallocate p m1
  (q, m3) ← allocate 1 10 m2
  (r, m4) ← allocate 1 5 m3
  m5 ← deallocate q m4
  (s, m6) ← allocate 1 20 m5
  some s

reused_test : reused ≡ some 16
unfolding reused allocate deallocate mul64 add64 take_free fill_null find_block sort insert
    merge_from merge_free_blocks
reused_test = refl
