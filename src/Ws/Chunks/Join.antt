-- ===== src/Ws/Chunks/Join.antt =====
-- ws/server/WsProtocol.hpp: `chunks_to_blob`.
use text.Mathlib.Text.{◌==◌ as str_eq}
use rtl.Base.{
  replicate, ℕ, ◌+◌, ◌-◌, ◌%◌, String, Bool, true, false, not, ◌&&◌, Option, none, some, List, [],
  ◌∷◌, ◌++◌, get_elem?, set, take, drop, length, ltb, leb, ◌==◌, add64, if◌then◌else◌,
}
use rtl.Base.Partial.{◌>>=◌, ◌>>◌, guard}
use rtl.Ws.Json.{Json}
use rtl.Ws.Message.{JsonMessage}

-- The output file: whether it opens, and whether the stream is good after each write.
pub record Output : Type 0 where
  pub is_open : Bool
  pub good : ℕ → Bool

-- What the start and the end say of a transfer.
pub record Transfer : Type 0 where
  pub transfer_id : String
  pub total_chunks : ℕ
  pub total_bytes : ℕ

-- `ordered_chunks`, `seen` and `accumulated_bytes`.
pub record Assembly : Type 0 where
  pub ordered_chunks : List (List ℕ)
  pub seen : List Bool
  pub accumulated_bytes : ℕ

abbrev pub fresh : ℕ → Assembly
fresh n = record {
  ordered_chunks = replicate n [];
  seen = replicate n false;
  accumulated_bytes = 0;
}

-- `seen[index]`; asked only of an index within bounds.
unfoldable pub is_seen : List Bool → ℕ → Bool
is_seen seen i = elim (get_elem? seen i) [ none ↦ true | some b ↦ b ]

-- `ordered_chunks[index]`, also within bounds.
unfoldable pub chunk_at : List (List ℕ) → ℕ → List ℕ
chunk_at chunks i = elim (get_elem? chunks i) [ none ↦ [] | some c ↦ c ]

-- `std::all_of` over `seen`.
unfoldable pub all_seen : List Bool → Bool
all_seen [] = true
all_seen (b ∷ bs) = b && all_seen bs

-- The writes of the chunks that are not empty, the `i`-th next, after what was written; `none` once
-- the stream is not good.
unfoldable pub write_chunks : (ℕ → Bool) → ℕ → List (List ℕ) → List ℕ → Option (List ℕ)
write_chunks good i [] written = some written
write_chunks good i (c ∷ cs) written =
    let skip = write_chunks good i cs written in
    let rest = write_chunks good (i + 1) cs (written ++ c) in
    if length c == 0 then skip else if good i then rest else none

module _ (json : Json) where
  open json use {Value, find, is_object, get_string, get_unsigned, get_array}

  unfoldable pub read_size_field : Value → String → Option ℕ
  read_size_field obj key = find obj key >>= get_unsigned

  unfoldable pub read_string_field : Value → String → Option String
  read_string_field obj key = find obj key >>= get_string

  -- The checks of the first message and the last.
  unfoldable pub read_transfer : JsonMessage json → JsonMessage json → Option Transfer
  unfolding read_size_field read_string_field
  read_transfer start_message end_message = do
    guard (str_eq start_message.type "chunk_start" && str_eq end_message.type "chunk_end")
    guard (is_object start_message.meta && is_object end_message.meta)
    transfer_id ← read_string_field start_message.meta "transfer_id"
    total_chunks ← read_size_field start_message.meta "total_chunks"
    total_bytes ← read_size_field start_message.meta "total_bytes"
    end_transfer_id ← read_string_field end_message.meta "transfer_id"
    end_total_chunks ← read_size_field end_message.meta "total_chunks"
    end_total_bytes ← read_size_field end_message.meta "total_bytes"
    guard (
        str_eq transfer_id end_transfer_id
        && total_chunks == end_total_chunks
        && total_bytes == end_total_bytes)
    some
        record { transfer_id = transfer_id; total_chunks = total_chunks; total_bytes = total_bytes }

  -- The loop over the payload: `get<unsigned int>` keeps 32 bits.
  unfoldable pub read_bytes : List Value → Option (List ℕ)
  read_bytes [] = some []
  read_bytes (item ∷ items) = do
    number ← get_unsigned item
    let value = number % 4294967296
    guard (leb value 255)
    bytes ← read_bytes items
    some (value ∷ bytes)

  -- One round of the loop over the messages between the first and the last.
  unfoldable pub add_chunk : Transfer → Assembly → JsonMessage json → Option Assembly
  unfolding read_bytes read_size_field read_string_field is_seen chunk_at
  add_chunk t a chunk = do
    guard (str_eq chunk.type "chunk_data" && is_object chunk.meta)
    items ← get_array chunk.payload
    chunk_transfer_id ← read_string_field chunk.meta "transfer_id"
    chunk_index ← read_size_field chunk.meta "chunk_index"
    chunk_count ← read_size_field chunk.meta "total_chunks"
    chunk_bytes ← read_size_field chunk.meta "chunk_bytes"
    guard (
        str_eq chunk_transfer_id t.transfer_id
        && chunk_count == t.total_chunks
        && ltb chunk_index t.total_chunks
        && not (is_seen a.seen chunk_index))
    guard (length items == chunk_bytes)
    bytes ← read_bytes items
    let target = chunk_at a.ordered_chunks chunk_index ++ bytes
    some record {
      ordered_chunks = set a.ordered_chunks chunk_index target;
      seen = set a.seen chunk_index true;
      accumulated_bytes = add64 a.accumulated_bytes (length target);
    }

  unfoldable pub add_chunks : Transfer → Assembly → List (JsonMessage json) → Option Assembly
  add_chunks t a [] = some a
  add_chunks t a (chunk ∷ chunks) = add_chunk t a chunk >>= λ b. add_chunks t b chunks

  -- The chunks in their order, if all checks pass.
  unfoldable pub assemble : List (JsonMessage json) → Option (List (List ℕ))
  assemble chunks = do
    guard (leb 3 (length chunks))
    start_message ← get_elem? chunks 0
    end_message ← get_elem? chunks (length chunks - 1)
    t ← read_transfer start_message end_message
    guard (length chunks == add64 t.total_chunks 2)
    a ← add_chunks t (fresh t.total_chunks) (take (length chunks - 2) (drop 1 chunks))
    guard (all_seen a.seen)
    guard (a.accumulated_bytes == t.total_bytes)
    some a.ordered_chunks

  -- What the created file holds where the function returns true; `none` where it returns false.
  unfoldable pub chunks_to_blob : List (JsonMessage json) → Output → Option (List ℕ)
  chunks_to_blob chunks output = do
    ordered_chunks ← assemble chunks
    guard output.is_open
    write_chunks output.good 0 ordered_chunks []
