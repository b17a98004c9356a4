-- ===== src/Ws/Chunks/Slices.antt =====
-- ws/server/WsProtocol.hpp: the slices of a file, how many there are and where they begin.
use native.Mathlib.Nat.{
  le-mul_of_pos_right, zero-mul, mul-le-mul_right, div-mul-le_self, lt-div-mul-add,
}
use mathlib.Core.List.{flatten}
use rtl.Base.{
  ℕ, zero, suc, ◌+◌, ◌-◌, ◌*◌, ◌/◌, ◌≤◌, ◌<◌, ◌≡◌, refl, ap, sym, ◌∙◌, List, [], ◌∷◌, ◌++◌, length,
  take, drop, arith, u64_mod, mul64, sub64, mul64-eq-mul, sub64-eq-sub, add64-eq-add, ltb, ltb→lt,
  Bool-cases, inl, inr,
}
use rtl.Base.Slices.{length-drop, take_part, take_rest, drop_all, length-drop}
use rtl.Ws.Chunks.Split.{count_chunks, current_chunk_size}

unfoldable pub slice : ℕ → List ℕ → ℕ → List ℕ
slice chunk_size bytes i =
    let offset = mul64 i chunk_size in
    take (current_chunk_size chunk_size (length bytes) offset) (drop offset bytes)

-- The values of a function from an index on.
abbrev pub tabulate : (ℕ → List ℕ) → ℕ → ℕ → List (List ℕ)
tabulate f k zero = []
tabulate f k (suc n) = f k ∷ tabulate f (k + 1) n

module _ (chunk_size : ℕ) (bytes : List ℕ) (positive : 0 < chunk_size)
    (fits : length bytes + chunk_size + 1 < u64_mod) where
  count_chunks-eq :
      count_chunks (length bytes) chunk_size ≡ (length bytes + chunk_size - 1) / chunk_size
  unfolding count_chunks
  count_chunks-eq =
      ap (λ n. n / chunk_size)
        (ap (λ n. sub64 n 1) (add64-eq-add (length bytes) chunk_size (omega arith))
          ∙ sub64-eq-sub (length bytes + chunk_size) 1 (omega arith) (omega arith))

  -- The chunks reach the end of the file.
  pub le-count_chunks-mul : length bytes ≤ count_chunks (length bytes) chunk_size * chunk_size
  le-count_chunks-mul =
      rw count_chunks-eq
        (omega (arith, lt-div-mul-add {a = length bytes + chunk_size - 1} positive))

  count_chunks-mul-le :
      count_chunks (length bytes) chunk_size * chunk_size ≤ length bytes + chunk_size - 1
  count_chunks-mul-le =
      rw count_chunks-eq (div-mul-le_self (length bytes + chunk_size - 1) chunk_size)

  -- And no chunk begins beyond it.
  pub mul-lt-length :
      (i : ℕ) → i < count_chunks (length bytes) chunk_size → i * chunk_size < length bytes
  mul-lt-length i h = omega (arith, mul-le-mul_right chunk_size h, count_chunks-mul-le)

  -- The offset of a chunk does not wrap.
  pub mul64-eq :
      (i : ℕ) → i < count_chunks (length bytes) chunk_size → mul64 i chunk_size ≡ i * chunk_size
  mul64-eq i h = mul64-eq-mul i chunk_size (omega (arith, mul-lt-length i h))

  -- A slice and what follows it are what begins at its offset.
  slice-append-drop :
      (i : ℕ)
      → i < count_chunks (length bytes) chunk_size
      → slice chunk_size bytes i ++ drop ((i + 1) * chunk_size) bytes ≡ drop (i * chunk_size) bytes
  unfolding slice current_chunk_size
  slice-append-drop i h =
      let left =
        sub64-eq-sub (length bytes) (i * chunk_size) (omega (arith, mul-lt-length i h))
          (omega arith) in
      rw (mul64-eq i h)
        (elim (Bool-cases (ltb (sub64 (length bytes) (i * chunk_size)) chunk_size)) [
          | inl short ↦ rw short (
              take_rest _ (i * chunk_size) _ bytes (omega (arith, left))
                (omega (arith, left, ltb→lt _ _ short)))
          | inr full ↦ rw full (take_part chunk_size (i * chunk_size) _ bytes (omega arith))
        ])

  pub flatten-tabulate-slice :
      (left i : ℕ)
      → i + left ≡ count_chunks (length bytes) chunk_size
      → flatten (tabulate (slice chunk_size bytes) i left) ≡ drop (i * chunk_size) bytes
  unfolding flatten
  flatten-tabulate-slice zero i e = sym (
      drop_all (i * chunk_size) bytes
        (omega (arith, le-count_chunks-mul, ap (λ n. n * chunk_size) e)))
  flatten-tabulate-slice (suc left) i e =
      ap (λ ys. slice chunk_size bytes i ++ ys)
        (flatten-tabulate-slice left (i + 1) (omega (arith, e)))
      ∙ slice-append-drop i (omega (arith, e))

  pub flatten-slices :
      flatten (tabulate (slice chunk_size bytes) 0 (count_chunks (length bytes) chunk_size)) ≡ bytes
  flatten-slices =
      flatten-tabulate-slice _ 0 (omega arith) ∙ ap (λ n. drop n bytes) (zero-mul chunk_size)

  pub count_chunks-le : count_chunks (length bytes) chunk_size ≤ length bytes
  count_chunks-le = last_begins (count_chunks (length bytes) chunk_size) refl
    where
      last_begins : (n : ℕ) → n ≡ count_chunks (length bytes) chunk_size → n ≤ length bytes
      last_begins zero e = omega arith
      last_begins (suc n) e =
          omega (arith, mul-lt-length n (omega (arith, e)), le-mul_of_pos_right n positive)

  -- A chunk has no more bytes than are left.
  pub current-le-drop :
      (i : ℕ)
      → i < count_chunks (length bytes) chunk_size
      → current_chunk_size chunk_size (length bytes) (mul64 i chunk_size)
        ≤ length (drop (mul64 i chunk_size) bytes)
  unfolding current_chunk_size
  current-le-drop i h = ground (
    arith,
    mul64-eq i h,
    mul-lt-length i h,
    length-drop (mul64 i chunk_size) bytes,
    sub64-eq-sub (length bytes) (mul64 i chunk_size),
  )
