-- ===== src/Protocol/RoundTrip.antt =====
-- What a message of protocol/I7580Message.cpp restores of the structure that was put in.
use rtl.Base.{
  ℕ, suc, ◌≡◌, ◌≤◌, refl, sym, ap, ◌∙◌, inl, inr, Bool, true, false, Option, some, List, [], ◌∷◌,
  ◌++◌, length, ltb, ◌==◌, sub64, arith, Bool-cases, le→ltb, if◌then◌else◌,
}
use rtl.Protocol.{
  IBaseMessage, contains, meaningful, set_data, keep, fill, restored, restored_of, get_struct,
  refused,
}

-- The bytes of one structure, with the padding of another.
unfoldable pub merged : List ℕ → ℕ → List ℕ → List ℕ → List ℕ
unfolding contains
merged aligned i [] target = []
merged aligned i (b ∷ bs) [] = []
merged aligned i (b ∷ bs) (t ∷ ts) =
    (if contains aligned i then t else b) ∷ merged aligned (suc i) bs ts

eq-zero : (n : ℕ) → 1 ≤ n → (n == 0) ≡ false
eq-zero n h = ground arith

module _ (aligned : List ℕ) (i : ℕ) (t : ℕ) (ts : List ℕ) where
  fill-padding :
      (source : List ℕ)
      → contains aligned i ≡ true
      → fill aligned i (t ∷ ts) source ≡ keep t (fill aligned (suc i) ts source)
  unfolding fill
  fill-padding [] h = ground arith
  fill-padding (c ∷ cs) h = ground arith

  fill-byte :
      (c : ℕ) (cs : List ℕ)
      → contains aligned i ≡ false
      → fill aligned i (t ∷ ts) (c ∷ cs) ≡ keep c (fill aligned (suc i) ts cs)
  unfolding fill
  fill-byte c cs h = ground arith

fill-meaningful :
    (aligned : List ℕ) (i : ℕ) (bytes target rest : List ℕ)
    → length bytes ≡ length target
    → fill aligned i target (meaningful aligned i bytes ++ rest)
      ≡ some (merged aligned i bytes target)
unfolding fill meaningful merged
fill-meaningful aligned i [] [] rest h = refl
fill-meaningful aligned i [] (t ∷ ts) rest h = ground arith
fill-meaningful aligned i (b ∷ bs) [] rest h = ground arith
fill-meaningful aligned i (b ∷ bs) (t ∷ ts) rest h =
    let later = fill-meaningful aligned (suc i) bs ts rest (omega (arith, h)) in
    let choice = λ (c : Bool).
      fill aligned i (t ∷ ts) (
        (if c then meaningful aligned (suc i) bs else b ∷ meaningful aligned (suc i) bs) ++ rest) in
    let chosen = λ (c : Bool). some ((if c then t else b) ∷ merged aligned (suc i) bs ts) in
    elim (Bool-cases (contains aligned i)) [
      | inl e ↦
          ap choice e
          ∙ fill-padding aligned i t ts (meaningful aligned (suc i) bs ++ rest) e
          ∙ ap (keep t) later
          ∙ ap chosen (sym e)
      | inr e ↦
          ap choice e
          ∙ fill-byte aligned i t ts b (meaningful aligned (suc i) bs ++ rest) e
          ∙ ap (keep b) later
          ∙ ap chosen (sym e)
    ]

abbrev pub with_layout : List ℕ → List ℕ → Option IBaseMessage
with_layout aligned bytes = some record { bytes = bytes; aligned_bytes = aligned }

-- A message that was set from one structure restores it in any other of its layout and size, all
-- but the padding, which stays: if some byte is not padding, and there are no fewer of them than 8
-- less the number of the padding bytes, as words of 64 bits.
pub get_struct-set_data :
    (old bytes target aligned : List ℕ)
    → length bytes ≡ length target
    → 1 ≤ length (set_data old (with_layout aligned bytes))
    → sub64 8 (length aligned) ≤ length (set_data old (with_layout aligned bytes))
    → get_struct (set_data old (with_layout aligned bytes)) (with_layout aligned target)
      ≡ restored (merged aligned 0 bytes target)
unfolding get_struct set_data
get_struct-set_data old bytes target aligned h some_byte fits =
    let found = ap restored_of (fill-meaningful aligned 0 bytes target (0 ∷ []) h) in
    let nonempty = eq-zero (length (meaningful aligned 0 bytes)) some_byte in
    let enough = le→ltb (length (meaningful aligned 0 bytes)) (sub64 8 (length aligned)) fits in
    ap
      (λ c.
        if c
        then refused
        else if ltb (length (meaningful aligned 0 bytes)) (sub64 8 (length aligned))
        then refused
        else restored_of (fill aligned 0 target (meaningful aligned 0 bytes ++ 0 ∷ [])))
      nonempty
    ∙ ap
        (λ c.
          if c
          then refused
          else restored_of (fill aligned 0 target (meaningful aligned 0 bytes ++ 0 ∷ [])))
        enough
    ∙ found
