-- ===== src/Ws/Chunks/Loop.antt =====
-- ws/server/WsProtocol.hpp: the loop of `chunks_to_blob` over chunks that `blob_to_chunk` made.
use text.Mathlib.TextPositions.{eq_refl}
use mathlib.Core.List.{flatten}
use rtl.Base.{
  ℕ, ◌+◌, ◌%◌, ◌≤◌, ◌<◌, ◌≡◌, ◌≢◌, refl, ap, ◌∙◌, String, Bool, true, false, some, List, [], ◌∷◌,
  map, All, length, get_elem?, set, drop, arith, leb, lt→ltb, u64_mod, ==-self, add64, add64-eq-add,
  mul64,
}
use rtl.Base.Slices.{
  length-map, length-take, length-drop, All-take, All-drop, length-set, length-flatten-set,
}
use rtl.Ws.Json.{Json}
use rtl.Ws.Json.Objects.{is_object-initializer, find-initializer}
use rtl.Ws.Message.{JsonMessage}
use rtl.Ws.Chunks.Split.{
  count_chunks, chunk_message, chunk_payload, current_chunk_size, start_message, end_message,
}
use rtl.Ws.Chunks.Join.{
  Transfer, Assembly, is_seen, chunk_at, read_size_field, read_string_field, read_transfer,
  read_bytes, add_chunk, add_chunks,
}
use rtl.Ws.Chunks.Slices.{slice, flatten-slices, count_chunks-le, current-le-drop}
use rtl.Ws.Chunks.Filled.{
  Filled, count_seen, count_seen-set, Filled-set, unseen_empty, unseen-set, length-flatten-Filled,
}

is_seen-unseen : (seen : List Bool) (i : ℕ) → get_elem? seen i ≡ some false → is_seen seen i ≡ false
unfolding is_seen
is_seen-unseen seen i u = rw (u, is_seen)

pub chunk_at-empty : (cs : List (List ℕ)) (i : ℕ) → get_elem? cs i ≡ some [] → chunk_at cs i ≡ []
unfolding chunk_at
chunk_at-empty cs i e = rw (e, chunk_at)

-- Each index once.
abbrev pub Distinct : List ℕ → Type 0
Distinct [] = Unit {0}
Distinct (i ∷ is) = All (λ j. i ≢ j) is × Distinct is

module _ (json : Json) where
  open json use {Value, number_unsigned}

  -- Bytes come through their JSON numbers.
  read_bytes-map :
      (bytes : List ℕ)
      → All (λ b. b < 256) bytes
      → read_bytes json (map number_unsigned bytes) ≡ some bytes
  unfolding read_bytes
  read_bytes-map [] h = refl
  read_bytes-map (b ∷ bs) h =
      let small : b % 4294967296 ≡ b = omega (arith, h.0) in
      let byte : leb b 255 ≡ true = ground (arith, h.0) in
      simp (json.get_unsigned-number b (omega (arith, h.0)), small, byte, read_bytes-map bs h.1)
        refl

  pub read_transfer-start :
      (transfer_id file_name : String) (total_bytes total_chunks chunk_size : ℕ)
      → total_bytes < u64_mod
      → total_chunks < u64_mod
      → read_transfer json
          (start_message json transfer_id file_name total_bytes total_chunks chunk_size)
          (end_message json transfer_id total_bytes total_chunks)
        ≡ some (record {
          transfer_id = transfer_id;
          total_chunks = total_chunks;
          total_bytes = total_bytes;
        })
  unfolding read_transfer start_message end_message read_size_field read_string_field
  read_transfer-start t f b n c hb hn =
      simp
        (
          is_object-initializer json,
          find-initializer json,
          json.get_string-string,
          json.get_unsigned-number b hb,
          json.get_unsigned-number n hn,
          eq_refl,
          ==-self,
        )
        refl

  module _ (transfer_id : String) (chunk_size : ℕ) (bytes : List ℕ) (positive : 0 < chunk_size)
      (fits : length bytes + chunk_size + 1 < u64_mod) (are_bytes : All (λ b. b < 256) bytes) where
    abbrev pub total : ℕ
    total = count_chunks (length bytes) chunk_size

    abbrev pub header : Transfer
    header = record { transfer_id = transfer_id; total_chunks = total; total_bytes = length bytes }

    abbrev pub data_chunk : ℕ → JsonMessage json
    data_chunk i = chunk_message json transfer_id chunk_size bytes total i

    abbrev pub piece : ℕ → List ℕ
    piece i = slice chunk_size bytes i

    abbrev current : ℕ → ℕ
    current i = current_chunk_size chunk_size (length bytes) (mul64 i chunk_size)

    pub total-lt : total < u64_mod
    total-lt = omega (arith, count_chunks-le chunk_size bytes positive fits)

    current-le : (i : ℕ) → i < total → current i ≤ length (drop (mul64 i chunk_size) bytes)
    current-le = current-le-drop chunk_size bytes positive fits

    -- A chunk that was not seen is put in its place.
    add_chunk-data_chunk :
        (a : Assembly) (i : ℕ)
        → i < total
        → get_elem? a.seen i ≡ some false
        → get_elem? a.ordered_chunks i ≡ some []
        → add_chunk json header a (data_chunk i)
          ≡ some (record {
            ordered_chunks = set a.ordered_chunks i (piece i);
            seen = set a.seen i true;
            accumulated_bytes = add64 a.accumulated_bytes (length (piece i));
          })
    unfolding add_chunk chunk_message chunk_payload read_size_field read_string_field slice
    add_chunk-data_chunk a i h u e =
        let size = current-le i h in
        simp
          (
            is_object-initializer json,
            find-initializer json,
            json.get_string-string,
            json.get_array-array,
            json.get_unsigned-number i (omega (arith, total-lt)),
            json.get_unsigned-number total total-lt,
            json.get_unsigned-number (current i)
                (omega (arith, size, length-drop (mul64 i chunk_size) bytes)),
            eq_refl,
            ==-self,
            lt→ltb i total h,
            length-map,
            length-take (current i) (drop (mul64 i chunk_size) bytes) size,
            read_bytes-map (piece i) (All-take _ _ _ (All-drop _ _ _ are_bytes)),
            is_seen-unseen a.seen i u,
            chunk_at-empty a.ordered_chunks i e,
          )
          refl

    -- What holds of the assembly between two rounds.
    pub record IsPartial (a : Assembly) : Type 0 where
      pub filled : Filled piece 0 a.ordered_chunks a.seen
      pub of_length : length a.seen ≡ total
      pub accumulated : a.accumulated_bytes ≡ length (flatten a.ordered_chunks)

    bytes_bound : (a : Assembly) → IsPartial a → length (flatten a.ordered_chunks) ≤ length bytes
    bytes_bound a p = omega (
      arith,
      length-flatten-Filled piece 0 total a.ordered_chunks a.seen p.of_length p.filled,
      ap length (flatten-slices chunk_size bytes positive fits),
    )

    abbrev put_piece : Assembly → ℕ → Assembly
    put_piece a i = record {
      ordered_chunks = set a.ordered_chunks i (piece i);
      seen = set a.seen i true;
      accumulated_bytes = add64 a.accumulated_bytes (length (piece i));
    }

    put_piece-IsPartial :
        (a : Assembly) (i : ℕ)
        → get_elem? a.seen i ≡ some false
        → IsPartial a
        → IsPartial (put_piece a i)
    put_piece-IsPartial a i u p =
        let filled = Filled-set piece 0 i i a.ordered_chunks a.seen (omega arith) u p.filled in
        let of_length : length (set a.seen i true) ≡ total =
          length-set a.seen i true ∙ p.of_length in
        let grown =
          length-flatten-set a.ordered_chunks i (piece i)
            (unseen_empty piece 0 i a.ordered_chunks a.seen u p.filled) in
        let bound =
          bytes_bound
            (record {
              ordered_chunks = set a.ordered_chunks i (piece i);
              seen = set a.seen i true;
              accumulated_bytes = length (flatten (set a.ordered_chunks i (piece i)));
            })
            (record { filled = filled; of_length = of_length; accumulated = refl }) in
        record {
          filled = filled;
          of_length = of_length;
          accumulated =
              add64-eq-add a.accumulated_bytes (length (piece i))
                (omega (arith, grown, bound, p.accumulated))
              ∙ omega (arith, grown, p.accumulated);
        }

    -- The loop over the chunks that are yet to come, in any order.
    pub add_chunks-data_chunks :
        (a : Assembly) (order : List ℕ)
        → All (λ i. i < total) order
        → Distinct order
        → All (λ i. get_elem? a.seen i ≡ some false) order
        → IsPartial a
        → (b : Assembly) × (add_chunks json header a (map data_chunk order) ≡ some b)
          × IsPartial b
          × (count_seen b.seen ≡ count_seen a.seen + length order)
    unfolding add_chunks
    add_chunks-data_chunks a [] h d u p = (a, refl, p, omega arith)
    add_chunks-data_chunks a (i ∷ is) h d u p =
        let (b, e, q, c) =
          add_chunks-data_chunks (put_piece a i) is h.1 d.1 (unseen-set a.seen i is d.0 u.1)
            (put_piece-IsPartial a i u.0 p) in
        (
          b,
          rw
              (add_chunk-data_chunk a i h.0 u.0
                (unseen_empty piece 0 i a.ordered_chunks a.seen u.0 p.filled))
              e,
          q,
          omega (arith, c, count_seen-set a.seen i u.0),
        )
