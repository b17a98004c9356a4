-- ===== src/Ws/Chunks/AnyOrder.antt =====
-- ws/server/WsProtocol.hpp: joining the messages of a transfer, in whatever order the chunks come.
use mathlib.Core.List.{flatten}
use native.Mathlib.Nat.{zero-mul}
use rtl.Base.{
  length-replicate, replicate, ◌*◌, ℕ, zero, suc, ◌+◌, ◌-◌, ◌≤◌, ◌<◌, ◌≡◌, refl, sym, ap, ◌∙◌,
  String, Bool, true, false, some, List, [], ◌∷◌, ◌++◌, append-nil, append_assoc, map, All, length,
  get_elem?, take, drop, arith, length-append, leb, ◌==◌, ==-self, u64_mod, add64, add64-eq-add,
}
use rtl.Base.Slices.{length-map, All-map, take-append, get_elem?-append}
use rtl.Ws.Json.{Json}
use rtl.Ws.Message.{JsonMessage}
use rtl.Ws.Chunks.Split.{start_message, end_message, count_chunks}
use rtl.Ws.Chunks.Join.{Output, fresh, assemble, write_chunks, chunks_to_blob}
use rtl.Ws.Chunks.Slices.{slice, tabulate, flatten-slices, count_chunks-le, le-count_chunks-mul}
use rtl.Ws.Chunks.Filled.{
  Filled-fresh, Filled-tabulate, all_seen-count, count_seen-fresh, get_elem?-replicate,
}
use rtl.Ws.Chunks.Loop.{
  Distinct, IsPartial, read_transfer-start, data_chunk, total-lt, add_chunks-data_chunks,
}

-- Writing one chunk after another writes them all.
write_chunks-flatten :
    (good : ℕ → Bool) (i : ℕ) (cs : List (List ℕ)) (written : List ℕ)
    → ((j : ℕ) → good j ≡ true)
    → write_chunks good i cs written ≡ some (written ++ flatten cs)
unfolding write_chunks flatten
write_chunks-flatten good i [] w h = ap some (sym (append-nil w))
write_chunks-flatten good i ([] ∷ cs) w h = write_chunks-flatten good i cs w h
write_chunks-flatten good i ((b ∷ bs) ∷ cs) w h =
    let full : (length (b ∷ bs) == 0) ≡ false = ground arith in
    rw (full, h i)
      (write_chunks-flatten good (i + 1) cs (w ++ b ∷ bs) h
        ∙ ap some (append_assoc w (b ∷ bs) (flatten cs)))

pub flatten-replicate : (n : ℕ) → length (flatten {A = ℕ} (replicate n [])) ≡ 0
unfolding flatten
flatten-replicate zero = refl
flatten-replicate (suc n) = flatten-replicate n

-- Every index once, in some order.
pub record IsOrder (total : ℕ) (order : List ℕ) : Type 0 where
  pub below : All (λ i. i < total) order
  pub distinct : Distinct order
  pub complete : length order ≡ total

module _ (json : Json) (transfer_id file_name : String) (chunk_size : ℕ) (bytes : List ℕ)
    (positive : 0 < chunk_size) (fits : length bytes + chunk_size + 1 < u64_mod)
    (are_bytes : All (λ b. b < 256) bytes) (nonempty : 0 < length bytes) where
  -- The messages of a transfer, with the chunks between the first and the last in some order.
  abbrev pub messages : List ℕ → List (JsonMessage json)
  messages order =
      let n = count_chunks (length bytes) chunk_size in
      start_message json transfer_id file_name (length bytes) n chunk_size
      ∷ (map (data_chunk json transfer_id chunk_size bytes positive fits are_bytes) order
          ++ end_message json transfer_id (length bytes) n ∷ [])

  abbrev n : ℕ
  n = count_chunks (length bytes) chunk_size

  abbrev sent : List ℕ → List (JsonMessage json)
  sent order = map (data_chunk json transfer_id chunk_size bytes positive fits are_bytes) order

  abbrev first : JsonMessage json
  first = start_message json transfer_id file_name (length bytes) n chunk_size

  abbrev last : JsonMessage json
  last = end_message json transfer_id (length bytes) n

  some-chunk : 0 < n
  some-chunk = positive_factor n (le-count_chunks-mul chunk_size bytes positive fits)
    where
      positive_factor : (q : ℕ) → length bytes ≤ q * chunk_size → 0 < q
      positive_factor zero h = absurd (omega (arith, h, nonempty, zero-mul chunk_size))
      positive_factor (suc q) h = omega arith

  fresh-IsPartial : IsPartial json transfer_id chunk_size bytes positive fits are_bytes (fresh n)
  fresh-IsPartial = record {
    filled = Filled-fresh (slice chunk_size bytes) 0 n;
    of_length = length-replicate n false;
    accumulated = sym (flatten-replicate n);
  }

  assemble-messages :
      (order : List ℕ)
      → IsOrder n order
      → assemble json (messages order) ≡ some (tabulate (slice chunk_size bytes) 0 n)
  unfolding assemble
  assemble-messages order o =
      let (b, ran, p, c) =
        add_chunks-data_chunks json transfer_id chunk_size bytes positive fits are_bytes (fresh n)
          order o.below o.distinct
          (All-map _ _ (λ i h. get_elem?-replicate n i false h) order o.below) fresh-IsPartial in
      let count : length (sent order) ≡ n = length-map _ order ∙ o.complete in
      let size : length (messages order) ≡ n + 2 =
        omega (arith, count, length-append (sent order) (last ∷ [])) in
      let three : leb 3 (length (messages order)) ≡ true = ground (arith, size, some-chunk) in
      let end : get_elem? (messages order) (length (messages order) - 1) ≡ some last =
        get_elem?-append (first ∷ sent order) last _ (omega (arith, size, count)) in
      let middle : take (length (messages order) - 2) (drop 1 (messages order)) ≡ sent order =
        take-append (sent order) (last ∷ []) _ (omega (arith, size, count)) in
      let counted : (length (messages order) == add64 n 2) ≡ true =
        ground (arith, size, add64-eq-add n 2, count_chunks-le chunk_size bytes positive fits) in
      let seen =
        all_seen-count b.seen (omega (arith, c, count_seen-fresh n, o.complete, p.of_length)) in
      let full =
        Filled-tabulate (slice chunk_size bytes) 0 n b.ordered_chunks b.seen p.of_length seen
          p.filled in
      let whole : b.accumulated_bytes ≡ length bytes =
        p.accumulated
        ∙ ap (λ cs. length (flatten cs)) full
        ∙ ap length (flatten-slices chunk_size bytes positive fits) in
      simp
        (
          three,
          end,
          middle,
          counted,
          read_transfer-start json transfer_id file_name (length bytes) n chunk_size (omega arith)
              (total-lt json transfer_id chunk_size bytes positive fits are_bytes),
          ran,
          seen,
          whole,
          ==-self,
          full,
        )
        refl

  module _ (output : Output) (opens : output.is_open ≡ true)
      (good : (i : ℕ) → output.good i ≡ true) where
    -- A file of fewer than 2^64 bytes, with room for one more chunk, that is sent in chunks of a
    -- positive size: `chunks_to_blob` writes the bytes of the file again, in whatever order the
    -- chunks arrive between the first message and the last, if the output file opens and every
    -- write to it succeeds.
    pub chunks_to_blob_any_order :
        (order : List ℕ)
        → IsOrder n order
        → chunks_to_blob json (messages order) output ≡ some bytes
    unfolding chunks_to_blob
    chunks_to_blob_any_order order o =
        simp
          (
            assemble-messages order o,
            opens,
            write_chunks-flatten output.good 0 (tabulate (slice chunk_size bytes) 0 n) [] good,
            flatten-slices chunk_size bytes positive fits,
          )
          refl
