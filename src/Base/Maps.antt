-- ===== src/Base/Maps.antt =====
-- std::unordered_map with string keys, as association lists.
use text.Mathlib.Text.{◌==◌ as str_eq}
use text.Mathlib.TextEquality.{eq_iff}
use mathlib.Core.Path.{◌≡◌, refl, sym, ap, ◌∙◌, subst}
use mathlib.Core.Logic.{inl, inr}
use mathlib.Core.Bool.{Bool, true, false}
use mathlib.Core.Option.{Option, none, some}
use mathlib.Core.List.{List, [], ◌∷◌, ◌++◌}
use Prim.Native.String.{String}
use native.Mathlib.Omega.{arith}
use rtl.Base.Tests.{if◌then◌else◌, Bool-cases}

abbrev pub or_else {ℓ} : {A : Type ℓ} → Option A → Option A → Option A
or_else none later = later
or_else (some a) later = some a

abbrev pub is_some {ℓ} : {A : Type ℓ} → Option A → Bool
is_some none = false
is_some (some a) = true

same_key : (i k key : String) → str_eq i k ≡ true → str_eq k key ≡ str_eq i key
same_key i k key h = ap (λ j. str_eq j key) (sym ((eq_iff i k).0 h))

other_key : (i k key : String) → str_eq i k ≡ false → str_eq i key ≡ true → str_eq k key ≡ false
other_key i k key h e = elim (Bool-cases (str_eq k key)) [
  | inl same ↦
      let differ = subst (λ j. str_eq j k ≡ false) ((eq_iff i key).0 e) h in
      let equal = (eq_iff key k).1 (sym ((eq_iff k key).0 same)) in ground arith
  | inr other ↦ other
]

module _ {ℓ} {A : Type ℓ} where
  unfoldable pub find : List (String × A) → String → Option A
  find [] key = none
  find ((k, a) ∷ m) key = if str_eq k key then some a else find m key

  unfoldable pub contains : List (String × A) → String → Bool
  unfolding find
  contains m key = is_some (find m key)

  abbrev no_entries : List (String × A)
  no_entries = []

  pub find-nil : (key : String) → find no_entries key ≡ none
  unfolding find
  find-nil key = refl

  -- An entry that is there stays.
  unfoldable pub emplace : List (String × A) → String → A → List (String × A)
  unfolding contains
  emplace m key a = if contains m key then m else m ++ (key, a) ∷ []

  -- `f` is applied to `m.at(key)`.
  unfoldable pub modify : List (String × A) → String → (A → A) → List (String × A)
  modify [] key f = []
  modify ((k, a) ∷ m) key f = if str_eq k key then (k, f a) ∷ m else (k, a) ∷ modify m key f

  abbrev pub entry_of : String → String → A → Option A
  entry_of k key a = if str_eq k key then some a else none

  find-append :
      (m n : List (String × A)) (key : String)
      → find (m ++ n) key ≡ or_else (find m key) (find n key)
  unfolding find
  find-append [] n key = refl
  find-append ((k, a) ∷ m) n key = elim (Bool-cases (str_eq k key)) [
    | inl e ↦ ground arith
    | inr e ↦ ground (arith, find-append m n key)
  ]

  or_else_found : (o : Option A) (later : Option A) → is_some o ≡ true → o ≡ or_else o later
  or_else_found (some a) later h = refl
  or_else_found none later h = ground arith

  or_else-none : (o : Option A) → o ≡ or_else o none
  or_else-none (some a) = refl
  or_else-none none = refl

  -- A key that is there shadows an entry that would follow.
  pub find-there :
      (m : List (String × A)) (k : String) (a : A) (key : String)
      → contains m k ≡ true
      → find m key ≡ or_else (find m key) (entry_of k key a)
  unfolding contains
  find-there m k a key there = elim (Bool-cases (str_eq k key)) [
    | inl e ↦
        or_else_found (find m key) _
          (subst (λ i. is_some (find m i) ≡ true) ((eq_iff k key).0 e) there)
    | inr e ↦
        or_else-none (find m key)
        ∙ ap (λ b. or_else (find m key) (if b then some a else none)) (sym e)
  ]

  -- The first entry of a key is the one that is found.
  pub find-emplace :
      (m : List (String × A)) (k : String) (a : A) (key : String)
      → find (emplace m k a) key ≡ or_else (find m key) (entry_of k key a)
  unfolding emplace find
  find-emplace m k a key = elim (Bool-cases (contains m k)) [
    | inl there ↦
        ap (λ b. find (if b then m else m ++ (k, a) ∷ []) key) there ∙ find-there m k a key there
    | inr new ↦
        ap (λ b. find (if b then m else m ++ (k, a) ∷ []) key) new ∙ find-append m ((k, a) ∷ []) key
  ]

  abbrev pub applied : Bool → (A → A) → Option A → Option A
  applied true f (some a) = some (f a)
  applied true f none = none
  applied false f o = o

  pub find-modify :
      (m : List (String × A)) (k : String) (f : A → A) (key : String)
      → find (modify m k f) key ≡ applied (str_eq k key) f (find m key)
  unfolding modify find
  find-modify [] k f key = ground arith
  find-modify ((i, a) ∷ m) k f key = elim (Bool-cases (str_eq i k)) [
    | inl e ↦
        let same = same_key i k key e in
        elim (Bool-cases (str_eq i key)) [ inl found ↦ ground arith | inr other ↦ ground arith ]
    | inr e ↦ elim (Bool-cases (str_eq i key)) [
      | inl found ↦ let other = other_key i k key e found in ground arith
      | inr next ↦ ground (arith, find-modify m k f key)
    ]
  ]
