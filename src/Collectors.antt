-- ===== src/Collectors.antt =====
-- collectors/BufferCollectorTemplate.h: a buffer of the latest entries. Each function is one call,
-- under the mutex.
pub mod Latest
mod Examples
use rtl.Base.{
  ℕ, Bool, true, false, not, List, [], ◌∷◌, ◌++◌, Option, none, some, length, pop_back, ltb,
  if◌then◌else◌,
}

pub record BufferCollector (T : Type 0) : Type 0 where
  pub max_buffer_size : ℕ
  pub buffer : List T

abbrev pub min : ℕ → ℕ → ℕ
min a b = if ltb b a then b else a

-- `has_value` is the test of an entry as a Boolean, `no_value` the entry that `T theResult` makes,
-- and `max_size` that of the standard list.
module _ {T : Type 0} (has_value : T → Bool) (no_value : T) (max_size : ℕ) where
  -- The constructor.
  abbrev pub make_collector : BufferCollector T
  make_collector = record { max_buffer_size = max_size; buffer = [] }

  abbrev pub pop_front : List T → List T
  pop_front [] = []
  pop_front (x ∷ xs) = xs

  unfoldable pub take_data : T → BufferCollector T → Bool × BufferCollector T
  take_data data_in c =
      if not (has_value data_in)
      then (false, c)
      else let added = c.buffer ++ data_in ∷ [] in
        (
          true,
          record c {
            buffer = if ltb c.max_buffer_size (length added) then pop_front added else added;
          },
        )

  unfoldable pub clear : BufferCollector T → BufferCollector T
  clear c = record c { buffer = [] }

  -- The loop of `setMaxSize`.
  abbrev pub shrink : ℕ → List T → List T
  shrink limit [] = []
  shrink limit (x ∷ xs) =
      let rest = shrink limit xs in if ltb limit (length (x ∷ xs)) then rest else x ∷ xs

  unfoldable pub set_max_size : ℕ → BufferCollector T → BufferCollector T
  set_max_size new_size c = record {
    max_buffer_size = min new_size max_size;
    buffer = shrink (min new_size max_size) c.buffer;
  }

  abbrev first : List T → T
  first [] = no_value
  first (x ∷ xs) = x

  unfoldable pub pop_first_block : BufferCollector T → T × BufferCollector T
  pop_first_block c = (first c.buffer, record c { buffer = pop_front c.buffer })

  abbrev last_of : BufferCollector T → Option (T × List T) → T × BufferCollector T
  last_of c none = (no_value, c)
  last_of c (some (x, rest)) = (x, record c { buffer = rest })

  unfoldable pub pop_last_block : BufferCollector T → T × BufferCollector T
  pop_last_block c = last_of c (pop_back c.buffer)

  unfoldable pub get_last_block : BufferCollector T → T
  get_last_block c = (last_of c (pop_back c.buffer)).0

  -- One call.
  pub data Call : Type 0 where
    takes : T → Call
    clears pops_first pops_last : Call
    sets_max_size : ℕ → Call

  unfoldable pub step : BufferCollector T → Call → BufferCollector T
  unfolding take_data clear pop_first_block pop_last_block set_max_size
  step c (takes x) = (take_data x c).1
  step c clears = clear c
  step c pops_first = (pop_first_block c).1
  step c pops_last = (pop_last_block c).1
  step c (sets_max_size n) = set_max_size n c

  unfoldable pub run : BufferCollector T → List Call → BufferCollector T
  run c [] = c
  run c (call ∷ calls) = run (step c call) calls
