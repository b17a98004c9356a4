-- ===== src/Ws/Json/Sample.antt =====
-- A JSON library that meets the interface: the standard's values, with objects as lists of fields.
use text.Mathlib.Text.{◌==◌}
use text.Mathlib.TextEquality.{eq_iff}
use rtl.Ws.Json.{Json}
use rtl.Base.{
  ℕ, ◌≡◌, refl, ap, String, Bool, true, false, Option, none, some, List, [], ◌∷◌, arith,
  if◌then◌else◌,
}

mutual
  pub data Value : Type 0 where
    null : Value
    boolean : Bool → Value
    string : String → Value
    number : ℕ → Value
    array : Items → Value
    object : Fields → Value

  pub data Items : Type 0 where
    nil : Items
    cons : Value → Items → Items

  pub data Fields : Type 0 where
    end : Fields
    field : String → Value → Fields → Fields

abbrev items : List Value → Items
items [] = nil
items (v ∷ vs) = cons v (items vs)

abbrev elements : Items → List Value
elements nil = []
elements (cons v vs) = v ∷ elements vs

pub elements-items : (vs : List Value) → elements (items vs) ≡ vs
elements-items [] = refl
elements-items (v ∷ vs) = ap (λ ws. v ∷ ws) (elements-items vs)

abbrev insert : String → Value → Fields → Fields
insert k v end = field k v end
insert k v (field j w fs) = if j == k then field j v fs else field j w (insert k v fs)

abbrev lookup : String → Fields → Option Value
lookup k end = none
lookup k (field j w fs) = if j == k then some w else lookup k fs

lookup-insert :
    (k j : String) (v : Value) (fs : Fields)
    → lookup j (insert k v fs) ≡ (if k == j then some v else lookup j fs)
lookup-insert k j v end = refl
lookup-insert k j v (field i w fs) =
    ground (arith, eq_iff k j, eq_iff i k, eq_iff i j, lookup-insert k j v fs)

abbrev assign : Value → String → Value → Value
assign null k v = object (insert k v end)
assign (object fs) k v = object (insert k v fs)
assign other k v = other

abbrev find : Value → String → Option Value
find (object fs) k = lookup k fs
find other k = none

abbrev is_object : Value → Bool
is_object (object fs) = true
is_object other = false

abbrev is_null : Value → Bool
is_null null = true
is_null other = false

abbrev get_string : Value → Option String
get_string (string s) = some s
get_string other = none

abbrev get_unsigned : Value → Option ℕ
get_unsigned (number n) = some n
get_unsigned other = none

abbrev get_array : Value → Option (List Value)
get_array (array vs) = some (elements vs)
get_array other = none

pub is_object-assign :
    (o : Value) (k : String) (v : Value) → is_object o ≡ true → is_object (assign o k v) ≡ true
is_object-assign (object fs) k v h = refl
is_object-assign null k v h = refl
is_object-assign o k v h = h

pub find-assign :
    (o : Value) (k j : String) (v : Value)
    → is_object o ≡ true
    → find (assign o k v) j ≡ (if k == j then some v else find o j)
find-assign (object fs) k j v h = lookup-insert k j v fs
find-assign null k j v h = refl
find-assign o k j v h = cc

abbrev pub sample : Json
sample = record {
  Value = Value;
  null = null;
  object = object end;
  string = string;
  number_unsigned = number;
  array = λ vs. array (items vs);
  assign = assign;
  find = find;
  is_object = is_object;
  is_null = is_null;
  get_string = get_string;
  get_unsigned = get_unsigned;
  get_array = get_array;
  is_object-object = refl;
  find-object = λ k. refl;
  assign-null = λ k v. refl;
  is_object-assign = is_object-assign;
  find-assign = find-assign;
  is_null-string = λ s. refl;
  get_string-string = λ s. refl;
  get_unsigned-number = λ n h. refl;
  get_array-array = λ vs. ap some (elements-items vs);
}
