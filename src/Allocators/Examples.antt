-- ===== src/Allocators/Examples.antt =====
-- The linear allocator on concrete calls, for entries of 8 bytes.
use rtl.Base.{ℕ, ◌≡◌, refl, none, List, [], ◌∷◌, ◌*◌, arith, replicate, add64}
use rtl.Allocators.{allocator_size, fetch_add, allocate_all, thread_step, step_at, run_threads}
use rtl.Allocators.Disjoint.{IsDisjoint, allocate_all-IsDisjoint}
use rtl.Allocators.Threads.{IsPacked, run_threads-IsPacked}

-- The second call does not fit any more, the third is refused by the assertion.
abbrev calls : List ℕ
calls = 100000 ∷ 50000 ∷ 0 ∷ 4 ∷ []

allocate_all-IsDisjoint_example : IsDisjoint 16 (allocate_all 8 calls 16).0
allocate_all-IsDisjoint_example =
    allocate_all-IsDisjoint 8 calls 16
      (omega arith, (omega arith, (omega arith, (omega arith, tt)))) (omega arith)

-- Two threads that both check the offset before either adds to it.
abbrev both_check : List (ℕ × ℕ)
both_check = (0, 100000) ∷ (1, 100000) ∷ (0, 0) ∷ (1, 0) ∷ []

run_threads-IsPacked_example :
    IsPacked (2 * allocator_size) 0 (run_threads 8 both_check (replicate 2 none) 0).0
run_threads-IsPacked_example =
    run_threads-IsPacked 8 2 both_check
      (omega arith, (omega arith, (omega arith, (omega arith, tt)))) (omega arith)

-- The second block ends outside the buffer, which has 1048576 bytes.
overrun_test :
    (run_threads 8 both_check (replicate 2 none) 0).0
    ≡ record { start = 0; bytes = 800000 } ∷ record { start = 800000; bytes = 800000 } ∷ []
unfolding run_threads step_at thread_step fetch_add add64
overrun_test = refl
