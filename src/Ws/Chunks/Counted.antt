-- ===== src/Ws/Chunks/Counted.antt =====
-- ws/server/WsProtocol.hpp: the bytes that `chunks_to_blob` counts.
use mathlib.Core.List.{flatten}
use text.Mathlib.Text.{◌==◌ as str_eq}
use native.Mathlib.Decide.{ℕ_discrete}
use rtl.Base.{
  replicate, subst, ℕ, zero, suc, ◌+◌, ◌%◌, ◌<◌, ◌≡◌, ◌≢◌, refl, sym, ap, ◌∙◌, Bool, true, false,
  not, ◌&&◌, Option, some, List, [], ◌∷◌, ◌++◌, append-nil, append_assoc, All, length, get_elem?,
  set, arith, ltb, leb, ◌==◌, u64_mod, add64, some-inj,
}
use rtl.Base.Partial.{>>=-some, guard-some}
use rtl.Base.Slices.{get_elem?-set_ne, length-flatten-set}
use rtl.Ws.Json.{Json}
use rtl.Ws.Message.{JsonMessage}
use rtl.Ws.Chunks.Join.{
  read_string_field, read_size_field, Transfer, Assembly, fresh, is_seen, read_bytes, add_chunk,
  add_chunks, write_chunks,
}
use rtl.Ws.Chunks.AnyOrder.{flatten-replicate}
use rtl.Ws.Chunks.Loop.{chunk_at-empty}

-- What is counted is what is there, up to the wrap of the counter, and all of it is bytes.
pub record IsCounted (a : Assembly) : Type 0 where
  pub counted : a.accumulated_bytes ≡ length (flatten a.ordered_chunks) % u64_mod
  pub are_bytes : All (λ c. All (λ b. b < 256) c) a.ordered_chunks
  pub unseen_empty :
      (i : ℕ) → get_elem? a.seen i ≡ some false → get_elem? a.ordered_chunks i ≡ some []

is_seen-false :
    (seen : List Bool) (i : ℕ) → not (is_seen seen i) ≡ true → get_elem? seen i ≡ some false
unfolding is_seen
is_seen-false seen i h = ground arith

All-set :
    {A : Type 0} (P : A → Type 0) (xs : List A) (i : ℕ) (v : A)
    → All P xs
    → P v
    → All P (set xs i v)
All-set P [] i v h p = tt
All-set P (x ∷ xs) zero v h p = (p, h.1)
All-set P (x ∷ xs) (suc i) v h p = (h.0, All-set P xs i v h.1 p)

All-append : {A : Type 0} (P : A → Type 0) (xs ys : List A) → All P xs → All P ys → All P (xs ++ ys)
All-append P [] ys h k = k
All-append P (x ∷ xs) ys h k = (h.0, All-append P xs ys h.1 k)

pub All-flatten :
    {A : Type 0} (P : A → Type 0) (xs : List (List A)) → All (λ c. All P c) xs → All P (flatten xs)
unfolding flatten
All-flatten P [] h = tt
All-flatten P (x ∷ xs) h = All-append P x (flatten xs) h.0 (All-flatten P xs h.1)

-- What was set is seen.
set-seen : (seen : List Bool) (i : ℕ) → get_elem? (set seen i true) i ≢ some false
set-seen [] i e = cc
set-seen (s ∷ ss) zero e = cc
set-seen (s ∷ ss) (suc i) e = set-seen ss i e

put : Assembly → ℕ → List ℕ → Assembly
put a i bytes = record {
  ordered_chunks = set a.ordered_chunks i bytes;
  seen = set a.seen i true;
  accumulated_bytes = add64 a.accumulated_bytes (length bytes);
}

put-IsCounted :
    (a : Assembly) (i : ℕ) (bytes : List ℕ)
    → get_elem? a.seen i ≡ some false
    → All (λ b. b < 256) bytes
    → IsCounted a
    → IsCounted (put a i bytes)
unfolding put add64
put-IsCounted a i bytes u h c = record {
  counted =
      omega (arith, c.counted, length-flatten-set a.ordered_chunks i bytes (c.unseen_empty i u));
  are_bytes = All-set _ a.ordered_chunks i bytes c.are_bytes h;
  unseen_empty = λ j v. elim (ℕ_discrete i j) [
    | yes e ↦
        absurd
          (set-seen a.seen i (subst (λ k. get_elem? (set a.seen i true) k ≡ some false) (sym e) v))
    | no e ↦
        get_elem?-set_ne a.ordered_chunks i j bytes e
        ∙ c.unseen_empty j (sym (get_elem?-set_ne a.seen i j true e) ∙ v)
  ];
}

-- Writes that all succeeded wrote the chunks one after another.
pub write_chunks-some :
    (good : ℕ → Bool) (i : ℕ) (cs : List (List ℕ)) (before after : List ℕ)
    → write_chunks good i cs before ≡ some after
    → after ≡ before ++ flatten cs
unfolding write_chunks flatten
write_chunks-some good i [] w v h = sym (some-inj h) ∙ sym (append-nil w)
write_chunks-some good i ([] ∷ cs) w v h = write_chunks-some good i cs w v h
write_chunks-some good i ((b ∷ bs) ∷ cs) w v h =
    ground (
      arith,
      write_chunks-some good (i + 1) cs (w ++ b ∷ bs) v,
      append_assoc w (b ∷ bs) (flatten cs),
    )

pub fresh-IsCounted : (n : ℕ) → IsCounted (fresh n)
fresh-IsCounted n = record {
  counted = ap (λ m. m % u64_mod) (sym (flatten-replicate n));
  are_bytes = All-replicate n;
  unseen_empty = λ i u. empty_entry n i u;
}
  where
    All-replicate : (n : ℕ) → All (λ c. All (λ b. b < 256) c) (replicate n [])
    All-replicate zero = tt
    All-replicate (suc n) = (tt, All-replicate n)

    empty_entry :
        (n i : ℕ)
        → get_elem? (replicate n false) i ≡ some false
        → ◌≡◌ {A = Option (List ℕ)} (get_elem? (replicate n []) i) (some [])
    empty_entry zero i u = cc
    empty_entry (suc n) zero u = refl
    empty_entry (suc n) (suc i) u = empty_entry n i u

module _ (json : Json) where
  open json use {Value}

  read_bytes-All :
      (items : List Value) (bytes : List ℕ)
      → read_bytes json items ≡ some bytes
      → All (λ b. b < 256) bytes
  unfolding read_bytes
  read_bytes-All [] bytes h = subst (All (λ b. b < 256)) (some-inj h) tt
  read_bytes-All (item ∷ items) bytes h =
      let (number, p, h1) = >>=-some (json.get_unsigned item) _ h in
      let (small, h2) = guard-some (leb (number % 4294967296) 255) _ h1 in
      let (rest, q, h3) = >>=-some (read_bytes json items) _ h2 in
      let all : All (λ b. b < 256) (number % 4294967296 ∷ rest) =
        (ground (arith, small), read_bytes-All items rest q) in
      subst (All (λ b. b < 256)) (some-inj h3) all

  -- One round keeps the count.
  add_chunk-IsCounted :
      (t : Transfer) (a b : Assembly) (chunk : JsonMessage json)
      → add_chunk json t a chunk ≡ some b
      → IsCounted a
      → IsCounted b
  unfolding add_chunk put
  add_chunk-IsCounted t a b chunk h c =
      let (typed, h1) =
        guard-some (str_eq chunk.type "chunk_data" && json.is_object chunk.meta) _ h in
      let (items, p1, h2) = >>=-some (json.get_array chunk.payload) _ h1 in
      let (id, p2, h3) = >>=-some (read_string_field json chunk.meta "transfer_id") _ h2 in
      let (index, p3, h4) = >>=-some (read_size_field json chunk.meta "chunk_index") _ h3 in
      let (count, p4, h5) = >>=-some (read_size_field json chunk.meta "total_chunks") _ h4 in
      let (size, p5, h6) = >>=-some (read_size_field json chunk.meta "chunk_bytes") _ h5 in
      let (fits, h7) =
        guard-some
          (str_eq id t.transfer_id
            && count == t.total_chunks
            && ltb index t.total_chunks
            && not (is_seen a.seen index))
          _ h6 in
      let (sized, h8) = guard-some (length items == size) _ h7 in
      let (bytes, p6, h9) = >>=-some (read_bytes json items) _ h8 in
      let unseen = is_seen-false a.seen index (ground (arith, fits)) in
      let empty = chunk_at-empty a.ordered_chunks index (c.unseen_empty index unseen) in
      subst IsCounted (ap (λ old. put a index (old ++ bytes)) (sym empty) ∙ some-inj h9)
        (put-IsCounted a index bytes unseen (read_bytes-All items bytes p6) c)

  pub add_chunks-IsCounted :
      (t : Transfer) (a b : Assembly) (chunks : List (JsonMessage json))
      → add_chunks json t a chunks ≡ some b
      → IsCounted a
      → IsCounted b
  unfolding add_chunks
  add_chunks-IsCounted t a b [] h c = subst IsCounted (some-inj h) c
  add_chunks-IsCounted t a b (chunk ∷ chunks) h c =
      let (a', p, h1) = >>=-some (add_chunk json t a chunk) _ h in
      add_chunks-IsCounted t a' b chunks h1 (add_chunk-IsCounted t a a' chunk p c)
