-- ===== src/Allocators/Disjoint.antt =====
-- The blocks that allocators/LinearAllocator.hpp hands out.
use rtl.Base.{
  subst, ◌⊎◌, ℕ, ◌+◌, ◌*◌, ◌%◌, ◌≤◌, ◌<◌, ◌≡◌, refl, true, List, [], ◌∷◌, All, arith, ltb, leb,
  add64, u64_mod, Bool-cases, inl, inr, ◌&&◌, not,
}
use rtl.Allocators.{
  allocator_size, Block, allocated, bad_alloc, asserts, admits, is_sensible, allocate, allocate_all,
}

abbrev pub end_of : Block → ℕ
end_of b = b.start + b.bytes

-- Every block comes after those before it, and ends in the buffer.
abbrev pub IsDisjoint : ℕ → List Block → Type 0
IsDisjoint from [] = Unit
IsDisjoint from (b ∷ bs) = (from ≤ b.start) × (end_of b ≤ allocator_size) × IsDisjoint (end_of b) bs

-- The number of bytes of a call does not overflow.
abbrev pub IsRepresentable : ℕ → ℕ → Type 0
IsRepresentable size_of n = n * size_of < u64_mod

sum-fits :
    (offset bytes : ℕ)
    → bytes % u64_mod ≤ allocator_size
    → bytes < u64_mod
    → offset ≤ allocator_size
    → add64 offset (bytes % u64_mod) ≡ offset + bytes
unfolding add64
sum-fits offset bytes b h k = omega arith

pub admits-fits : (offset sum : ℕ) → not (ltb allocator_size sum) ≡ true → sum ≤ allocator_size
admits-fits offset sum h = ground arith

pub sensible-fits :
    (n bytes : ℕ) → (ltb 0 n && leb bytes allocator_size) ≡ true → bytes ≤ allocator_size
sensible-fits n bytes h = ground arith

-- A call hands out a block from the offset on, and moves it to the block's end; or it fails, and the
-- offset stays.
allocate-cases :
    (size_of n offset : ℕ)
    → IsRepresentable size_of n
    → offset ≤ allocator_size
    → (((allocate size_of n offset ≡ (asserts, offset))
          ⊎ (allocate size_of n offset ≡ (bad_alloc, offset)))
        ⊎ ((allocate size_of n offset
              ≡ (allocated (record { start = offset; bytes = n * size_of }), offset + n * size_of))
            × (offset + n * size_of ≤ allocator_size)))
unfolding allocate
allocate-cases size_of n offset h k = elim (Bool-cases (is_sensible size_of n)) [
  | inr e ↦ inl (inl (rw e refl))
  | inl e ↦ elim (Bool-cases (admits size_of n offset)) [
    | inr f ↦ inl (inr (rw (e, f) refl))
    | inl f ↦
        let sum = sum-fits offset (n * size_of) (sensible-fits n _ e) h k in
        inr (rw (e, f, sum) refl, subst (λ x. x ≤ allocator_size) sum (admits-fits offset _ f))
  ]
]

-- Over any calls, each of a representable number of bytes, one after another from an offset in the
-- buffer: the blocks that are handed out follow one another without overlap, all inside the buffer.
pub allocate_all-IsDisjoint :
    (size_of : ℕ) (ns : List ℕ) (offset : ℕ)
    → All (IsRepresentable size_of) ns
    → offset ≤ allocator_size
    → IsDisjoint offset (allocate_all size_of ns offset).0
unfolding allocate_all
allocate_all-IsDisjoint size_of [] offset h k = tt
allocate_all-IsDisjoint size_of (n ∷ ns) offset (h, hs) k =
    elim (allocate-cases size_of n offset h k) [
      | inl (inl e) ↦ rw e (allocate_all-IsDisjoint size_of ns offset hs k)
      | inl (inr e) ↦ rw e (allocate_all-IsDisjoint size_of ns offset hs k)
      | inr (e, fits) ↦
          rw e
            (omega arith, fits, allocate_all-IsDisjoint size_of ns (offset + n * size_of) hs fits)
    ]
