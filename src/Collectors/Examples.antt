-- ===== src/Collectors/Examples.antt =====
-- The collector on concrete inputs: an entry is a number, and has a value unless it is 0.
use rtl.Base.{ℕ, ◌≡◌, refl, Bool, List, [], ◌∷◌, ltb, arith}
use rtl.Collectors.{BufferCollector, takes, pops_first, sets_max_size, Call, run}
use rtl.Collectors.Latest.{takes_all, run-takes_all}

abbrev has_value : ℕ → Bool
has_value n = ltb 0 n

abbrev calls : List (Call has_value 0 3)
calls =
    takes 5 ∷ takes 6 ∷ takes 0 ∷ takes 7 ∷ takes 8 ∷ pops_first ∷ sets_max_size 1 ∷ takes 9 ∷ []

abbrev two_left : BufferCollector ℕ
two_left = record { max_buffer_size = 3; buffer = 1 ∷ 2 ∷ [] }

run-takes_all_example :
    (run has_value 0 3 two_left (takes_all has_value 0 3 (7 ∷ 8 ∷ []))).buffer ≡ 2 ∷ 7 ∷ 8 ∷ []
run-takes_all_example =
    run-takes_all has_value 0 3 (7 ∷ 8 ∷ []) two_left (refl, (refl, tt)) (omega arith)
