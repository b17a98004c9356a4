-- ===== src/Ws/Chunks/RoundTrip.antt =====
-- ws/server/WsProtocol.hpp: joining what `blob_to_chunk` made.
use rtl.Base.{
  ℕ, zero, suc, ◌+◌, ◌<◌, ◌≡◌, ◌≢◌, refl, ap, String, true, false, some, List, [], ◌∷◌, map, All,
  length, arith, ◌==◌, u64_mod,
}
use rtl.Ws.Json.{Json}
use rtl.Ws.Chunks.Split.{
  chunk_messages, transfer, blob_to_chunk, read_binary_file, transfer_name, count_chunks,
}
use rtl.Ws.Chunks.Join.{Output, chunks_to_blob}
use rtl.Ws.Chunks.Loop.{Distinct, data_chunk}
use rtl.Ws.Chunks.AnyOrder.{chunks_to_blob_any_order}

-- The indices from `i` on.
abbrev pub count_up : ℕ → ℕ → List ℕ
count_up i zero = []
count_up i (suc n) = i ∷ count_up (i + 1) n

length-count_up : (i n : ℕ) → length (count_up i n) ≡ n
length-count_up i zero = refl
length-count_up i (suc n) = ap suc (length-count_up (i + 1) n)

count_up-lt : (i n k : ℕ) → i + n ≡ k → All (λ j. j < k) (count_up i n)
count_up-lt i zero k e = tt
count_up-lt i (suc n) k e = (omega (arith, e), count_up-lt (i + 1) n k (omega (arith, e)))

count_up-ne : (i j n : ℕ) → i < j → All (λ k. i ≢ k) (count_up j n)
count_up-ne i j zero h = tt
count_up-ne i j (suc n) h = (λ e. omega (arith, e, h), count_up-ne i (j + 1) n (omega (arith, h)))

count_up-Distinct : (i n : ℕ) → Distinct (count_up i n)
count_up-Distinct i zero = tt
count_up-Distinct i (suc n) = (count_up-ne i (i + 1) n (omega arith), count_up-Distinct (i + 1) n)

-- The loop of `blob_to_chunk` goes through the indices in their order.
chunk_messages-map :
    (json : Json) (transfer_id : String) (chunk_size : ℕ) (bytes : List ℕ)
    (positive : 0 < chunk_size) (fits : length bytes + chunk_size + 1 < u64_mod)
    (are_bytes : All (λ b. b < 256) bytes) (i left : ℕ)
    → chunk_messages json transfer_id chunk_size bytes
        (count_chunks (length bytes) chunk_size)
        i
        left
      ≡ map (data_chunk json transfer_id chunk_size bytes positive fits are_bytes) (count_up i left)
unfolding chunk_messages
chunk_messages-map json t c bytes p f a i zero = refl
chunk_messages-map json t c bytes p f a i (suc left) =
    ap (λ ms. data_chunk json t c bytes p f a i ∷ ms)
      (chunk_messages-map json t c bytes p f a (i + 1) left)

-- A file that can be opened and is not empty, of fewer than 2^64 bytes with room for one more chunk:
-- what `blob_to_chunk` makes of it, with any positive chunk size, `chunks_to_blob` writes back as the
-- same bytes, if the output file opens and every write to it succeeds.
pub chunks_to_blob-blob_to_chunk :
    (json : Json) (file_name naming : String) (chunk_size : ℕ) (bytes : List ℕ)
    → 0 < chunk_size
    → length bytes + chunk_size + 1 < u64_mod
    → All (λ b. b < 256) bytes
    → 0 < length bytes
    → (output : Output) → output.is_open ≡ true
    → ((i : ℕ) → output.good i ≡ true)
    → chunks_to_blob json (blob_to_chunk json (some bytes) file_name chunk_size naming) output
      ≡ some bytes
unfolding blob_to_chunk transfer read_binary_file
chunks_to_blob-blob_to_chunk json file_name naming c bytes p f a ne out opens good =
    let sized : (c == 0) ≡ false = ground arith in
    let full : (length bytes == 0) ≡ false = ground arith in
    let n = count_chunks (length bytes) c in
    simp (sized, full, chunk_messages-map json (transfer_name file_name naming) c bytes p f a 0 n)
      (chunks_to_blob_any_order json (transfer_name file_name naming) file_name c bytes p f a ne out
        opens good (count_up 0 n)
        (record {
          below = count_up-lt 0 n n (omega arith);
          distinct = count_up-Distinct 0 n;
          complete = length-count_up 0 n;
        }))
