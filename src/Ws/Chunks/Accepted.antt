-- ===== src/Ws/Chunks/Accepted.antt =====
-- ws/server/WsProtocol.hpp: `chunks_to_blob` on any messages that it accepts, whoever made them.
use mathlib.Core.List.{flatten}
use text.Mathlib.Text.{◌==◌ as str_eq}
use text.Mathlib.TextEquality.{eq_iff}
use rtl.Base.{
  subst, ℕ, ◌-◌, ◌%◌, ◌<◌, ◌≡◌, sym, ap, ◌∙◌, String, Bool, true, ◌&&◌, some, List, [], All, length,
  get_elem?, take, drop, arith, leb, ◌==◌, ==→eq, u64_mod, add64, some-inj,
}
use rtl.Base.Partial.{>>=-some, guard-some}
use rtl.Ws.Json.{Json}
use rtl.Ws.Message.{JsonMessage}
use rtl.Ws.Chunks.Join.{
  read_string_field, read_size_field, Transfer, Output, fresh, all_seen, read_transfer, add_chunks,
  assemble, chunks_to_blob,
}
use rtl.Ws.Chunks.Counted.{All-flatten, write_chunks-some, fresh-IsCounted, add_chunks-IsCounted}

and-left : (a b : Bool) → (a && b) ≡ true → a ≡ true
and-left a b h = ground arith

and-right : (a b : Bool) → (a && b) ≡ true → b ≡ true
and-right a b h = ground arith

module _ (json : Json) where
  open json use {Value}

  -- An object has a string, or a number, under a key.
  abbrev pub HasString : Value → String → String → Type 0
  HasString obj key text =
      (v : Value) × (json.find obj key ≡ some v) × (json.get_string v ≡ some text)

  abbrev pub HasNumber : Value → String → ℕ → Type 0
  HasNumber obj key number =
      (v : Value) × (json.find obj key ≡ some v) × (json.get_unsigned v ≡ some number)

  -- A message of a type says in its meta data which transfer it is of, and how large that is.
  pub record Announces (type : String) (message : JsonMessage json) (t : Transfer) : Type 0 where
    pub has_type : message.type ≡ type
    pub has_meta : json.is_object message.meta ≡ true
    pub has_id : HasString message.meta "transfer_id" t.transfer_id
    pub has_chunks : HasNumber message.meta "total_chunks" t.total_chunks
    pub has_bytes : HasNumber message.meta "total_bytes" t.total_bytes

  -- The first message and the last of a transfer, which both announce it.
  pub record Announced (chunks : List (JsonMessage json)) (t : Transfer) : Type 0 where
    pub start_message : JsonMessage json
    pub end_message : JsonMessage json
    pub is_first : get_elem? chunks 0 ≡ some start_message
    pub is_last : get_elem? chunks (length chunks - 1) ≡ some end_message
    pub starts : Announces "chunk_start" start_message t
    pub ends : Announces "chunk_end" end_message t

  read_transfer-Announces :
      (start_message end_message : JsonMessage json) (t : Transfer)
      → read_transfer json start_message end_message ≡ some t
      → Announces "chunk_start" start_message t × Announces "chunk_end" end_message t
  unfolding read_transfer read_string_field read_size_field
  read_transfer-Announces s e t h =
      let (types, h1) = guard-some (str_eq s.type "chunk_start" && str_eq e.type "chunk_end") _ h in
      let (metas, h2) = guard-some (json.is_object s.meta && json.is_object e.meta) _ h1 in
      let (id, p1, h3) = >>=-some (read_string_field json s.meta "transfer_id") _ h2 in
      let (chunks, p2, h4) = >>=-some (read_size_field json s.meta "total_chunks") _ h3 in
      let (bytes, p3, h5) = >>=-some (read_size_field json s.meta "total_bytes") _ h4 in
      let (id', q1, h6) = >>=-some (read_string_field json e.meta "transfer_id") _ h5 in
      let (chunks', q2, h7) = >>=-some (read_size_field json e.meta "total_chunks") _ h6 in
      let (bytes', q3, h8) = >>=-some (read_size_field json e.meta "total_bytes") _ h7 in
      let (same, h9) = guard-some (str_eq id id' && chunks == chunks' && bytes == bytes') _ h8 in
      let u : Transfer = record { transfer_id = id; total_chunks = chunks; total_bytes = bytes } in
      let found : Announces "chunk_start" s u × Announces "chunk_end" e u = (
        record {
          has_type = (eq_iff s.type "chunk_start").0 (and-left _ _ types);
          has_meta = and-left _ _ metas;
          has_id = >>=-some (json.find s.meta "transfer_id") _ p1;
          has_chunks = >>=-some (json.find s.meta "total_chunks") _ p2;
          has_bytes = >>=-some (json.find s.meta "total_bytes") _ p3;
        },
        record {
          has_type = (eq_iff e.type "chunk_end").0 (and-right _ _ types);
          has_meta = and-right _ _ metas;
          has_id =
              subst (HasString e.meta "transfer_id")
                (sym ((eq_iff id id').0 (and-left _ _ (and-left _ _ same))))
                (>>=-some (json.find e.meta "transfer_id") _ q1);
          has_chunks =
              subst (HasNumber e.meta "total_chunks")
                (sym (==→eq chunks chunks' (and-right _ _ (and-left _ _ same))))
                (>>=-some (json.find e.meta "total_chunks") _ q2);
          has_bytes =
              subst (HasNumber e.meta "total_bytes") (sym (==→eq bytes bytes' (and-right _ _ same)))
                (>>=-some (json.find e.meta "total_bytes") _ q3);
        },
      ) in
      subst (λ v. Announces "chunk_start" s v × Announces "chunk_end" e v) (some-inj h9) found

  assemble-Announced :
      (chunks : List (JsonMessage json)) (ordered : List (List ℕ))
      → assemble json chunks ≡ some ordered
      → (t : Transfer) × Announced chunks t
        × (length chunks ≡ add64 t.total_chunks 2)
        × (length (flatten ordered) % u64_mod ≡ t.total_bytes)
        × All (λ b. b < 256) (flatten ordered)
  unfolding assemble
  assemble-Announced chunks ordered h =
      let (three, h1) = guard-some (leb 3 (length chunks)) _ h in
      let (start, p1, h2) = >>=-some (get_elem? chunks 0) _ h1 in
      let (end, p2, h3) = >>=-some (get_elem? chunks (length chunks - 1)) _ h2 in
      let (t, p3, h4) = >>=-some (read_transfer json start end) _ h3 in
      let (sized, h5) = guard-some (length chunks == add64 t.total_chunks 2) _ h4 in
      let (a, p4, h6) =
        >>=-some
          (add_chunks json t (fresh t.total_chunks) (take (length chunks - 2) (drop 1 chunks))) _
          h5 in
      let (seen, h7) = guard-some (all_seen a.seen) _ h6 in
      let (whole, h8) = guard-some (a.accumulated_bytes == t.total_bytes) _ h7 in
      let c =
        add_chunks-IsCounted json t (fresh t.total_chunks) a _ p4
          (fresh-IsCounted t.total_chunks) in
      let result = ap flatten (some-inj h8) in
      let announced = read_transfer-Announces start end t p3 in
      (
        t,
        record {
          start_message = start;
          end_message = end;
          is_first = p1;
          is_last = p2;
          starts = announced.0;
          ends = announced.1;
        },
        ==→eq _ _ sized,
        subst (λ bytes. length bytes % u64_mod ≡ t.total_bytes) result
            (sym c.counted ∙ ==→eq a.accumulated_bytes t.total_bytes whole),
        subst (All (λ b. b < 256)) result (All-flatten _ a.ordered_chunks c.are_bytes),
      )

  -- Whatever messages `chunks_to_blob` accepts, from whomever, and whatever the output does: the
  -- first message is a chunk_start and the last a chunk_end, and the meta data of both name the
  -- same transfer with the same numbers of chunks and of bytes; there are as many messages as it
  -- announces and two more, and what is written is as many bytes as it announces (counted in 64
  -- bits), each below 256.
  pub chunks_to_blob_accepts :
      (chunks : List (JsonMessage json)) (output : Output) (written : List ℕ)
      → chunks_to_blob json chunks output ≡ some written
      → (t : Transfer) × Announced chunks t
        × (length chunks ≡ add64 t.total_chunks 2)
        × (length written % u64_mod ≡ t.total_bytes)
        × All (λ b. b < 256) written
  unfolding chunks_to_blob
  chunks_to_blob_accepts chunks output written h =
      let (ordered, p, h1) = >>=-some (assemble json chunks) _ h in
      let (opens, h2) = guard-some output.is_open _ h1 in
      let all = write_chunks-some output.good 0 ordered [] written h2 in
      subst
        (λ bytes.
          (t : Transfer) × Announced chunks t
          × (length chunks ≡ add64 t.total_chunks 2)
          × (length bytes % u64_mod ≡ t.total_bytes)
          × All (λ b. b < 256) bytes)
        (sym all) (assemble-Announced chunks ordered p)
