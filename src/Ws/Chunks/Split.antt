-- ===== src/Ws/Chunks/Split.antt =====
-- ws/server/WsProtocol.hpp: `read_binary_file` and `blob_to_chunk`.
use text.Mathlib.Text.{◌==◌ as str_eq}
use rtl.Base.{
  ℕ, zero, suc, ◌+◌, ◌<>◌, String, Bool, Option, none, some, List, [], ◌∷◌, ◌++◌, map, take, drop,
  length, to_string, ◌/◌, ltb, ◌==◌, add64, sub64, mul64, if◌then◌else◌,
}
use rtl.Ws.Json.{Json}
use rtl.Ws.Json.Objects.{initializer}
use rtl.Ws.Message.{JsonMessage, default_message}

-- The bytes of a file that can be opened, and no bytes of one that cannot.
unfoldable pub read_binary_file : Option (List ℕ) → List ℕ
read_binary_file none = []
read_binary_file (some bytes) = bytes

-- `(size_of_file + chunk_size - 1) / chunk_size`.
unfoldable pub count_chunks : ℕ → ℕ → ℕ
count_chunks size_of_file chunk_size = sub64 (add64 size_of_file chunk_size) 1 / chunk_size

unfoldable pub current_chunk_size : ℕ → ℕ → ℕ → ℕ
current_chunk_size chunk_size size_of_file offset =
    let left = sub64 size_of_file offset in if ltb left chunk_size then left else chunk_size

-- The transfer's name: the file's unless one is given.
unfoldable pub transfer_name : String → String → String
transfer_name file_name naming = if str_eq naming "" then file_name else naming

module _ (json : Json) where
  open json use {Value, object, string, number_unsigned, array}

  unfoldable pub start_message : String → String → ℕ → ℕ → ℕ → JsonMessage json
  start_message transfer_id file_name total_bytes total_chunks chunk_size =
      record (default_message json) {
        id = transfer_id <> ":start";
        correlation_id = transfer_id;
        type = "chunk_start";
        meta = initializer json (
            ("transfer_id", string transfer_id)
            ∷ ("file_name", string file_name)
            ∷ ("total_bytes", number_unsigned total_bytes)
            ∷ ("total_chunks", number_unsigned total_chunks)
            ∷ ("chunk_size", number_unsigned chunk_size)
            ∷ []);
        payload = object;
      }

  -- The bytes from an offset on, one JSON number each.
  unfoldable pub chunk_payload : List ℕ → ℕ → ℕ → Value
  chunk_payload bytes offset size = array (map number_unsigned (take size (drop offset bytes)))

  -- The message of one round of the loop.
  unfoldable pub chunk_message : String → ℕ → List ℕ → ℕ → ℕ → JsonMessage json
  unfolding chunk_payload
  chunk_message transfer_id chunk_size bytes total_chunks chunk_index =
      let offset = mul64 chunk_index chunk_size in
      let size = current_chunk_size chunk_size (length bytes) offset in
      record (default_message json) {
        id = (transfer_id <> ":") <> to_string chunk_index;
        correlation_id = transfer_id;
        type = "chunk_data";
        meta = initializer json (
            ("transfer_id", string transfer_id)
            ∷ ("chunk_index", number_unsigned chunk_index)
            ∷ ("total_chunks", number_unsigned total_chunks)
            ∷ ("chunk_bytes", number_unsigned size)
            ∷ []);
        payload = chunk_payload bytes offset size;
      }

  -- The loop over the indices, with the number of rounds that are left.
  unfoldable pub chunk_messages : String → ℕ → List ℕ → ℕ → ℕ → ℕ → List (JsonMessage json)
  unfolding chunk_message
  chunk_messages transfer_id chunk_size bytes total_chunks chunk_index zero = []
  chunk_messages transfer_id chunk_size bytes total_chunks chunk_index (suc left) =
      chunk_message transfer_id chunk_size bytes total_chunks chunk_index
      ∷ chunk_messages transfer_id chunk_size bytes total_chunks (chunk_index + 1) left

  unfoldable pub end_message : String → ℕ → ℕ → JsonMessage json
  end_message transfer_id total_bytes total_chunks = record (default_message json) {
    id = transfer_id <> ":end";
    correlation_id = transfer_id;
    type = "chunk_end";
    meta = initializer json (
        ("transfer_id", string transfer_id)
        ∷ ("total_bytes", number_unsigned total_bytes)
        ∷ ("total_chunks", number_unsigned total_chunks)
        ∷ []);
    payload = object;
  }

  -- All messages of a file with these bytes.
  unfoldable pub transfer : String → String → ℕ → List ℕ → List (JsonMessage json)
  unfolding chunk_messages start_message end_message
  transfer transfer_id file_name chunk_size bytes =
      let total_chunks = count_chunks (length bytes) chunk_size in
      start_message transfer_id file_name (length bytes) total_chunks chunk_size
      ∷ (chunk_messages transfer_id chunk_size bytes total_chunks 0 total_chunks
          ++ end_message transfer_id (length bytes) total_chunks ∷ [])

  abbrev is_empty : List ℕ → Bool
  is_empty bytes = length bytes == 0

  -- A file is given by its name and, if it can be opened, its bytes.
  unfoldable pub blob_to_chunk : Option (List ℕ) → String → ℕ → String → List (JsonMessage json)
  unfolding transfer read_binary_file transfer_name
  blob_to_chunk file file_name chunk_size naming =
      if chunk_size == 0
      then []
      else let bytes = read_binary_file file in
        if is_empty bytes
        then []
        else transfer (transfer_name file_name naming) file_name chunk_size bytes
