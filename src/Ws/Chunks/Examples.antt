-- ===== src/Ws/Chunks/Examples.antt =====
-- Messages and transfers on concrete inputs, with the JSON library of Json/Sample.
use rtl.Base.{
  ℕ, ◌<◌, ◌%◌, ◌≡◌, refl, true, All, some, List, [], ◌∷◌, length, has_value, add64, sub64, arith,
  u64_mod,
}
use rtl.Ws.Json.Sample.{sample, Value, Items, Fields}
use rtl.Ws.Message.{JsonMessage, default_message, message_to_json, json_to_message}
use rtl.Ws.Message.RoundTrip.{json_to_message-message_to_json}
use rtl.Ws.Message.Accepts.{is_message, json_to_message_accepts}
use rtl.Ws.Chunks.Split.{blob_to_chunk, count_chunks}
use rtl.Ws.Chunks.Join.{Output, Transfer, chunks_to_blob}
use rtl.Ws.Chunks.AnyOrder.{IsOrder, messages, chunks_to_blob_any_order}
use rtl.Ws.Chunks.RoundTrip.{chunks_to_blob-blob_to_chunk}
use rtl.Ws.Chunks.Accepted.{Announced, chunks_to_blob_accepts}

abbrev failure : JsonMessage sample
failure = record (default_message sample) {
  id = "7";
  error = some "no room";
  payload = Value.array (Items.cons (Value.number 3) Items.nil);
}

json_to_message-message_to_json_example :
    json_to_message sample (message_to_json sample failure) ≡ some failure
json_to_message-message_to_json_example = json_to_message-message_to_json sample failure

-- An error that is a number.
abbrev odd_error : Value
odd_error = Value.object (Fields.field "error" (Value.number 3) Fields.end)

json_to_message_accepts_example :
    has_value (json_to_message sample odd_error) ≡ is_message sample odd_error
json_to_message_accepts_example = json_to_message_accepts sample odd_error

abbrev five : List ℕ
five = 1 ∷ 2 ∷ 3 ∷ 4 ∷ 255 ∷ []

abbrev disk : Output
disk = record { is_open = true; good = λ i. true }

five-All : All (λ b. b < 256) five
five-All = omega arith

-- Three chunks of two bytes at most.
backwards : IsOrder (count_chunks (length five) 2) (2 ∷ 0 ∷ 1 ∷ [])
unfolding count_chunks add64 sub64
backwards = record {
  below = omega arith;
  distinct = ((λ e. omega arith, (λ e. omega arith, tt)), ((λ e. omega arith, tt), (tt, tt)));
  complete = refl;
}

chunks_to_blob_any_order_example :
    chunks_to_blob sample
      (messages sample "t" "f.bin" 2 five
        (omega arith)
        (omega arith)
        five-All
        (omega arith)
        (2 ∷ 0 ∷ 1 ∷ []))
      disk
    ≡ some five
chunks_to_blob_any_order_example =
    chunks_to_blob_any_order sample "t" "f.bin" 2 five (omega arith) (omega arith) five-All
      (omega arith) disk refl (λ i. refl) (2 ∷ 0 ∷ 1 ∷ []) backwards

chunks_to_blob-blob_to_chunk_example :
    chunks_to_blob sample (blob_to_chunk sample (some five) "f.bin" 2 "") disk ≡ some five
chunks_to_blob-blob_to_chunk_example =
    chunks_to_blob-blob_to_chunk sample "f.bin" "" 2 five (omega arith) (omega arith) five-All
      (omega arith) disk refl (λ i. refl)

-- The file's messages are accepted.
accepted : chunks_to_blob sample (blob_to_chunk sample (some five) "f.bin" 2 "") disk ≡ some five
accepted =
    chunks_to_blob-blob_to_chunk sample "f.bin" "" 2 five (omega arith) (omega arith) five-All
      (omega arith) disk refl (λ i. refl)

chunks_to_blob_accepts_example :
    let chunks = blob_to_chunk sample (some five) "f.bin" 2 "" in
    (t : Transfer) × Announced sample chunks t
    × (length chunks ≡ add64 t.total_chunks 2)
    × (length five % u64_mod ≡ t.total_bytes)
    × All (λ b. b < 256) five
chunks_to_blob_accepts_example =
    chunks_to_blob_accepts sample (blob_to_chunk sample (some five) "f.bin" 2 "") disk five accepted
