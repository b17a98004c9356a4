-- ===== src/Allocators/Threads.antt =====
-- The blocks that allocators/LinearAllocator.hpp hands out to threads that share an allocator.
use rtl.Base.{
  ◌⊎◌, ℕ, zero, suc, ◌+◌, ◌*◌, ◌%◌, ◌≤◌, ◌<◌, ◌≡◌, refl, ap, ◌∙◌, true, Option, none, some, List,
  [], ◌∷◌, All, length, replicate, length-replicate, arith, add64, u64_mod, Bool-cases, inl, inr,
}
use rtl.Allocators.{
  allocator_size, Block, Allocation, admits, is_sensible, fetch_add, allocate, thread_step, step_at,
  keep_if, run_threads,
}
use rtl.Allocators.Disjoint.{end_of, IsRepresentable, admits-fits, sensible-fits}

-- Every block begins where the one before it ends, and ends at the limit at most.
abbrev pub IsPacked : ℕ → ℕ → List Block → Type 0
IsPacked limit from [] = Unit
IsPacked limit from (b ∷ bs) = (b.start ≡ from) × (end_of b ≤ limit) × IsPacked limit (end_of b) bs

-- The bytes that a thread is about to add.
abbrev promised : ℕ → Option ℕ → ℕ
promised size_of none = 0
promised size_of (some n) = n * size_of

unfoldable total : ℕ → List (Option ℕ) → ℕ
total size_of [] = 0
total size_of (t ∷ ts) = promised size_of t + total size_of ts

abbrev AreSmall : ℕ → List (Option ℕ) → Type 0
AreSmall size_of ts = All (λ t. promised size_of t ≤ allocator_size) ts

-- What a step does: it fails or nothing is added yet, or it hands out the block at the offset.
abbrev Moves : ℕ → List (Option ℕ) → ℕ → Option Allocation × List (Option ℕ) × ℕ → Type 0
Moves size_of ts offset (r, ts', offset') =
    ((bs : List Block) → keep_if r bs ≡ bs)
      × (offset' ≡ offset)
      × ((total size_of ts' ≡ total size_of ts)
          ⊎ (offset + total size_of ts' ≤ length ts * allocator_size))
    ⊎ ((b : ℕ) × ((bs : List Block) → keep_if r bs ≡ record { start = offset; bytes = b } ∷ bs)
        × (offset' ≡ add64 offset (b % u64_mod))
        × (b ≤ allocator_size)
        × (total size_of ts ≡ b + total size_of ts'))

total-small :
    (size_of : ℕ) (ts : List (Option ℕ))
    → AreSmall size_of ts
    → total size_of ts ≤ length ts * allocator_size
unfolding total
total-small size_of [] small = omega arith
total-small size_of (t ∷ ts) (s, small) = let rest = total-small size_of ts small in omega arith

-- A thread that runs both steps of a call with no other between them runs `allocate`.
allocate-thread_step :
    (size_of n offset : ℕ)
    → is_sensible size_of n ≡ true
    → admits size_of n offset ≡ true
    → let (r, t, offset') = thread_step size_of n none offset in
      let (r', t', offset'') = thread_step size_of n t offset' in
      (r' ≡ some (allocate size_of n offset).0)
      × (t' ≡ none)
      × (offset'' ≡ (allocate size_of n offset).1)
unfolding thread_step allocate fetch_add
allocate-thread_step size_of n offset h k = rw (h, k) (refl, refl, refl)

room :
    (offset bytes : ℕ)
    → bytes % u64_mod ≤ allocator_size
    → bytes < u64_mod
    → offset + allocator_size < u64_mod
    → (bytes ≤ allocator_size) × (add64 offset (bytes % u64_mod) ≡ offset + bytes)
unfolding add64
room offset bytes h k l = (omega arith, omega arith)

thread_step-Moves :
    (size_of n : ℕ) (t : Option ℕ) (ts : List (Option ℕ)) (offset : ℕ)
    → IsRepresentable size_of n
    → AreSmall size_of (t ∷ ts)
    → offset + allocator_size < u64_mod
    → let (r, t', offset') = thread_step size_of n t offset in
      AreSmall size_of (t' ∷ ts) × Moves size_of (t ∷ ts) offset (r, t' ∷ ts, offset')
unfolding thread_step total fetch_add
thread_step-Moves size_of n none ts offset fits (s, small) h =
    elim (Bool-cases (is_sensible size_of n)) [
      | inr e ↦ rw e ((s, small), inl (λ bs. refl, refl, inl refl))
      | inl e ↦ elim (Bool-cases (admits size_of n offset)) [
        | inr f ↦ rw (e, f) ((s, small), inl (λ bs. refl, refl, inl refl))
        | inl f ↦
            let (is_small, sum) = room offset (n * size_of) (sensible-fits n _ e) fits h in
            let below = admits-fits offset _ f in
            let rest = total-small size_of ts small in
            rw (e, f)
              ((is_small, small), inl (λ bs. refl, refl, inr (omega (arith, sum, below, rest))))
      ]
    ]
thread_step-Moves size_of n (some m) ts offset fits (s, small) h =
    ((omega arith, small), inr (m * size_of, λ bs. refl, refl, s, omega arith))

step_at-Moves :
    (size_of n i : ℕ) (ts : List (Option ℕ)) (offset : ℕ)
    → IsRepresentable size_of n
    → AreSmall size_of ts
    → offset + allocator_size < u64_mod
    → AreSmall size_of (step_at size_of n i ts offset).1
      × (length (step_at size_of n i ts offset).1 ≡ length ts)
      × Moves size_of ts offset (step_at size_of n i ts offset)
unfolding step_at total
step_at-Moves size_of n i [] offset fits small h = (tt, refl, inl (λ bs. refl, refl, inl refl))
step_at-Moves size_of n zero (t ∷ ts) offset fits small h =
    let (small', moves) = thread_step-Moves size_of n t ts offset fits small h in
    (small', refl, moves)
step_at-Moves size_of n (suc i) (t ∷ ts) offset fits (s, small) h =
    let (small', same, moves) = step_at-Moves size_of n i ts offset fits small h in
    (
      (s, small'),
      ap suc same,
      elim moves [
        | inl (none_out, stays, inl e) ↦ inl (none_out, stays, inl (omega (arith, e)))
        | inl (none_out, stays, inr e) ↦ inl (none_out, stays, inr (omega (arith, e, s)))
        | inr (b, out, adds, b_small, e) ↦ inr (b, out, adds, b_small, omega (arith, e))
      ],
    )

-- The offset with what was promised stays within one buffer for each thread.
run_from-IsPacked :
    (size_of k : ℕ) (es : List (ℕ × ℕ)) (ts : List (Option ℕ)) (offset : ℕ)
    → All (λ e. IsRepresentable size_of e.1) es
    → k * allocator_size + allocator_size < u64_mod
    → AreSmall size_of ts
    → length ts ≡ k
    → offset + total size_of ts ≤ k * allocator_size
    → IsPacked (k * allocator_size) offset (run_threads size_of es ts offset).0
unfolding run_threads
run_from-IsPacked size_of k [] ts offset fits room small len within = tt
run_from-IsPacked size_of k ((i, n) ∷ es) ts offset (fit, fits) bound small len within =
    let (small', same, moves) = step_at-Moves size_of n i ts offset fit small (omega arith) in
    let (r, ts', offset') = step_at size_of n i ts offset in
    let later = run_threads size_of es ts' offset' in
    elim moves [
      | inl (none_out, stays, kept) ↦
          let within' : offset + total size_of ts' ≤ k * allocator_size = elim kept [
            | inl e ↦ omega (arith, e, within)
            | inr w ↦ omega (arith, w, len)
          ] in
          rw (none_out later.0, stays)
            (run_from-IsPacked size_of k es ts' offset fits bound small' (same ∙ len) within')
      | inr (b, out, adds, b_small, e) ↦
          let sum = adds ∙ (room offset b (omega arith) (omega arith) (omega arith)).1 in
          let within' : offset + b + total size_of ts' ≤ k * allocator_size =
            omega (arith, e, within) in
          rw (out later.0, sum)
            (
              refl,
              omega arith,
              run_from-IsPacked size_of k es ts' (offset + b) fits bound small' (same ∙ len)
                  within',
            )
    ]

rested :
    (size_of k : ℕ) → AreSmall size_of (replicate k none) × (total size_of (replicate k none) ≡ 0)
unfolding total
rested size_of zero = (tt, refl)
rested size_of (suc k) =
    let (small, nothing) = rested size_of k in ((omega arith, small), omega (arith, nothing))

-- Any number of threads that share a new allocator, none of them in a call, in any interleaving of
-- their steps (a call checks the offset in one and adds to it in another), each call of a
-- representable number of bytes, and a buffer for each thread and one more fit into 64 bits: every
-- block that is handed out begins where the one before it ends, the first at the start of the
-- buffer, and ends within as many bytes as that many buffers have. For one thread that is the
-- buffer.
pub run_threads-IsPacked :
    (size_of k : ℕ) (es : List (ℕ × ℕ))
    → All (λ e. IsRepresentable size_of e.1) es
    → k * allocator_size + allocator_size < u64_mod
    → IsPacked (k * allocator_size) 0 (run_threads size_of es (replicate k none) 0).0
run_threads-IsPacked size_of k es fits bound =
    let (small, nothing) = rested size_of k in
    run_from-IsPacked size_of k es (replicate k none) 0 fits bound small (length-replicate k none)
      (omega (arith, nothing))
