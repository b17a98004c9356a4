-- ===== src/Allocators/Blocks/Conserved.antt =====
-- The bytes of the free blocks of allocators/BlockAllocator.hpp.
use rtl.Base.{
  ℕ, ◌+◌, ◌<◌, ◌≡◌, refl, sym, ap, ◌∙◌, inl, inr, Bool, true, false, some, List, [], ◌∷◌, arith,
  mul64, add64-eq-add, u64_mod, Bool-cases, Option-cases, some-inj,
}
use rtl.Base.Partial.{>>=-some}
use rtl.Allocators.Blocks.{
  AllocatorBlock, null_block, BlockAllocator, fits, take_free, fill_null, insert, sort, adjacent,
  grown, merge_from, merge, merge_free_blocks, allocate,
}

abbrev pub free_bytes : List AllocatorBlock → ℕ
free_bytes [] = 0
free_bytes (b ∷ bs) = b.block_size + free_bytes bs

free_bytes-insert :
    (b : AllocatorBlock) (bs : List AllocatorBlock)
    → free_bytes (insert b bs) ≡ b.block_size + free_bytes bs
unfolding insert
free_bytes-insert b [] = refl
free_bytes-insert b (c ∷ cs) = ground (arith, free_bytes-insert b cs)

free_bytes-sort : (bs : List AllocatorBlock) → free_bytes (sort bs) ≡ free_bytes bs
unfolding sort
free_bytes-sort [] = refl
free_bytes-sort (b ∷ bs) =
    free_bytes-insert b (sort bs) ∙ ap (λ n. b.block_size + n) (free_bytes-sort bs)

free_bytes-merge_from :
    (current : AllocatorBlock) (bs : List AllocatorBlock)
    → current.block_size + free_bytes bs < u64_mod
    → free_bytes (merge_from current bs) ≡ current.block_size + free_bytes bs
unfolding merge_from
free_bytes-merge_from current [] h = refl
free_bytes-merge_from current (next ∷ bs) h =
    let merged = free_bytes-merge_from null_block bs (omega (arith, h)) in
    let apart = free_bytes-merge_from next bs (omega (arith, h)) in
    let sum = add64-eq-add current.block_size next.block_size (omega (arith, h)) in
    let choice = λ (c : Bool). free_bytes (elim c [
      | true ↦ grown current next ∷ merge_from null_block bs
      | false ↦ current ∷ merge_from next bs
    ]) in
    elim (Bool-cases (adjacent current next)) [
      | inl e ↦
          ap choice e
          ∙ ap (λ n. n + free_bytes (merge_from null_block bs)) sum
          ∙ omega (arith, merged)
      | inr e ↦ ap choice e ∙ omega (arith, apart)
    ]

free_bytes-merge :
    (bs : List AllocatorBlock) → free_bytes bs < u64_mod → free_bytes (merge bs) ≡ free_bytes bs
free_bytes-merge [] h = refl
free_bytes-merge (b ∷ bs) h = free_bytes-merge_from b bs h

free_bytes-merge_free_blocks :
    (bs : List AllocatorBlock)
    → free_bytes bs < u64_mod
    → free_bytes (merge_free_blocks bs) ≡ free_bytes bs
unfolding merge_free_blocks
free_bytes-merge_free_blocks bs h =
    let sorted = free_bytes-sort bs in
    free_bytes-merge (sort bs) (omega (arith, sorted, h)) ∙ sorted

free_bytes-take_free :
    (bytes : ℕ) (bs : List AllocatorBlock) (p : ℕ) (cs : List AllocatorBlock)
    → take_free bytes bs ≡ some (p, cs)
    → free_bytes cs + bytes ≡ free_bytes bs
unfolding take_free
free_bytes-take_free bytes [] p cs h = ground arith
free_bytes-take_free bytes (b ∷ bs) p cs h = elim (Bool-cases (fits b bytes)) [
  | inl e ↦ ground arith
  | inr e ↦ elim (Option-cases (take_free bytes bs)) [
    | inl none_left ↦ ground arith
    | inr ((q, ds), found) ↦ let rest = free_bytes-take_free bytes bs q ds found in ground arith
  ]
]

-- An allocation that succeeds takes from the free blocks exactly the bytes that it was asked for, as
-- a word of 64 bits: sorting and merging the free blocks loses none and makes none, if all of them
-- together are fewer than 2^64 bytes.
pub allocate-free_bytes :
    (size_of n : ℕ) (m m' : BlockAllocator) (p : ℕ)
    → allocate size_of n m ≡ some (p, m')
    → free_bytes m.free_blocks < u64_mod
    → free_bytes m'.free_blocks + mul64 n size_of ≡ free_bytes m.free_blocks
unfolding allocate
allocate-free_bytes size_of n m m' p h bounded =
    let ((q, free), found, h1) = >>=-some (take_free (mul64 n size_of) m.free_blocks) _ h in
    let (allocated, filled, h2) = >>=-some (fill_null _ m.allocated_blocks) _ h1 in
    let taken = free_bytes-take_free (mul64 n size_of) m.free_blocks q free found in
    let merged = free_bytes-merge_free_blocks free (omega (arith, taken, bounded)) in
    ap (λ r. free_bytes r.1.free_blocks + mul64 n size_of) (sym (some-inj h2))
    ∙ ap (λ k. k + mul64 n size_of) merged
    ∙ taken
