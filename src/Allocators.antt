-- ===== src/Allocators.antt =====
-- allocators/LinearAllocator.hpp: an allocator that only moves an offset. `size_of` is
-- `sizeof(value_type)`; a block is an offset into the buffer with its number of bytes.
pub mod Disjoint
pub mod Blocks
pub mod Threads
mod Examples
use rtl.Base.{
  ℕ, zero, suc, Option, none, some, ◌+◌, ◌*◌, ◌%◌, Bool, true, false, not, ◌&&◌, List, [], ◌∷◌, ltb,
  leb, if◌then◌else◌, add64, u64_mod,
}

abbrev pub allocator_size : ℕ
allocator_size = 1048576

pub record Block : Type 0 where
  pub start : ℕ
  pub bytes : ℕ

-- How `allocate` ends: with a pointer, with `std::bad_alloc`, or in its assertion.
pub data Allocation : Type 0 where
  allocated : Block → Allocation
  bad_alloc asserts : Allocation

-- `n * sizeof(value_type)`.
abbrev pub byte_count : ℕ → ℕ → ℕ
byte_count size_of n = (n * size_of) % u64_mod

-- Up to the `fetch_add`: the assertion, and the check of the offset that was loaded.
abbrev pub admits : ℕ → ℕ → ℕ → Bool
admits size_of n offset = not (ltb allocator_size (add64 offset (byte_count size_of n)))

abbrev pub is_sensible : ℕ → ℕ → Bool
is_sensible size_of n = ltb 0 n && leb (byte_count size_of n) allocator_size

-- The `fetch_add`: the block and the new offset.
unfoldable pub fetch_add : ℕ → ℕ → ℕ → Block × ℕ
fetch_add size_of n offset =
    (record { start = offset; bytes = n * size_of }, add64 offset (byte_count size_of n))

-- One call with no other between its steps: how it ends, and the new offset.
unfoldable pub allocate : ℕ → ℕ → ℕ → Allocation × ℕ
unfolding fetch_add
allocate size_of n offset =
    if not (is_sensible size_of n)
    then (asserts, offset)
    else if not (admits size_of n offset)
    then (bad_alloc, offset)
    else let (block, offset') = fetch_add size_of n offset in (allocated block, offset')

-- `deallocate` gives nothing back.
abbrev pub deallocate : ℕ → ℕ
deallocate offset = offset

abbrev pub keep : Allocation → List Block → List Block
keep (allocated b) bs = b ∷ bs
keep bad_alloc bs = bs
keep asserts bs = bs

-- Calls for these numbers of entries, one after another: the blocks, in order, and the offset.
unfoldable pub allocate_all : ℕ → List ℕ → ℕ → List Block × ℕ
unfolding allocate
allocate_all size_of [] offset = ([], offset)
allocate_all size_of (n ∷ ns) offset =
    let (r, offset') = allocate size_of n offset in
    let (blocks, end) = allocate_all size_of ns offset' in (keep r blocks, end)

-- A thread's next step: it is in no call, and then loads the offset for a call of `n` entries and
-- checks it; or it has passed the checks of a call of `m` entries, and then adds to the offset. It
-- gives how the call ends, if it does, and the thread and the offset after it.
unfoldable pub thread_step : ℕ → ℕ → Option ℕ → ℕ → Option Allocation × Option ℕ × ℕ
unfolding fetch_add
thread_step size_of n none offset =
    if not (is_sensible size_of n)
    then (some asserts, none, offset)
    else if not (admits size_of n offset)
    then (some bad_alloc, none, offset)
    else (none, some n, offset)
thread_step size_of n (some m) offset =
    let (block, offset') = fetch_add size_of m offset in (some (allocated block), none, offset')

-- The step of the thread at an index.
unfoldable pub step_at : ℕ → ℕ → ℕ → List (Option ℕ) → ℕ → Option Allocation × List (Option ℕ) × ℕ
unfolding thread_step
step_at size_of n i [] offset = (none, [], offset)
step_at size_of n zero (t ∷ ts) offset =
    let (r, t', offset') = thread_step size_of n t offset in (r, t' ∷ ts, offset')
step_at size_of n (suc i) (t ∷ ts) offset =
    let (r, ts', offset') = step_at size_of n i ts offset in (r, t ∷ ts', offset')

abbrev pub keep_if : Option Allocation → List Block → List Block
keep_if none bs = bs
keep_if (some r) bs = keep r bs

-- Steps of threads that share an allocator, each with the thread's index and the number of entries
-- of a call that it begins: the blocks, in order, the threads and the offset.
unfoldable pub run_threads :
    ℕ → List (ℕ × ℕ) → List (Option ℕ) → ℕ → List Block × List (Option ℕ) × ℕ
unfolding step_at
run_threads size_of [] threads offset = ([], threads, offset)
run_threads size_of ((i, n) ∷ es) threads offset =
    let (r, threads', offset') = step_at size_of n i threads offset in
    let (blocks, end, last) = run_threads size_of es threads' offset' in
    (keep_if r blocks, end, last)
