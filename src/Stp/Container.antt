-- ===== src/Stp/Container.antt =====
-- The containers of stp/UnbMpMcTemplateQueue.hpp: `ContainerOps` and its specialisations.
-- `pop` is `none` where the C++ call is undefined, on an empty container.
pub mod Laws
pub mod Heaps
pub mod Sorted
use rtl.Base.{
  ℕ, Bool, true, false, List, [], ◌∷◌, ◌++◌, Option, none, some, length, pop_back, if◌then◌else◌,
}

-- What the queue asks of its container: the static functions of `ContainerOps<Container>`.
pub record ContainerOps (T : Type 0) : Type 1 where
  pub Buffer : Type 0
  pub push : Buffer → T → Buffer
  pub pop : Buffer → Option (T × Buffer)
  pub empty : Buffer → Bool
  pub size : Buffer → ℕ
  pub clear : Buffer → Buffer

module _ {T : Type 0} where
  abbrev pub is_empty : List T → Bool
  is_empty [] = true
  is_empty (x ∷ xs) = false

  abbrev pub push_back : List T → T → List T
  push_back xs x = xs ++ x ∷ []

  abbrev pub pop_front : List T → Option (T × List T)
  pop_front [] = none
  pop_front (x ∷ xs) = some (x, xs)

-- `std::deque` and `std::list`: in at the back, out at the front.
abbrev pub deque_ops : (T : Type 0) → ContainerOps T
deque_ops T = record {
  Buffer = List T;
  push = push_back;
  pop = pop_front;
  empty = is_empty;
  size = length;
  clear = λ _. [];
}

abbrev pub list_ops : (T : Type 0) → ContainerOps T
list_ops T = record {
  Buffer = List T;
  push = push_back;
  pop = pop_front;
  empty = is_empty;
  size = length;
  clear = λ _. [];
}

-- `std::vector`: in and out at the back.
abbrev pub vector_ops : (T : Type 0) → ContainerOps T
vector_ops T = record {
  Buffer = List T;
  push = push_back;
  pop = pop_back;
  empty = is_empty;
  size = length;
  clear = λ _. [];
}

-- What `MovablePriorityQueue` calls of the standard library: `std::push_heap` and `std::pop_heap` on
-- the range of a vector.
pub record HeapAlgorithms (T : Type 0) : Type 0 where
  pub push_heap : (T → T → Bool) → List T → List T
  pub pop_heap : (T → T → Bool) → List T → List T

module _ {T : Type 0} (std : HeapAlgorithms T) (compare : T → T → Bool) where
  unfoldable pub emplace : List T → T → List T
  emplace heap value = std.push_heap compare (push_back heap value)

  unfoldable pub pop_move : List T → Option (T × List T)
  pop_move [] = none
  pop_move (x ∷ xs) = pop_back (std.pop_heap compare (x ∷ xs))

-- `MovablePriorityQueue`.
abbrev pub priority_ops : (T : Type 0) → HeapAlgorithms T → (T → T → Bool) → ContainerOps T
priority_ops T std compare = record {
  Buffer = List T;
  push = emplace std compare;
  pop = pop_move std compare;
  empty = is_empty;
  size = length;
  clear = λ _. [];
}
