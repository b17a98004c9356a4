-- ===== src/Ws/Json.antt =====
-- nlohmann::json, as far as ws/server/WsProtocol.hpp uses it: what builds a value, what reads one, and
-- what the library's documentation says of the two. It is a parameter of the code that uses it.
pub mod Sample
pub mod Objects
use text.Mathlib.Text.{◌==◌}
use rtl.Base.{
  ℕ, ◌<◌, ◌≡◌, String, Bool, true, false, Option, none, some, List, if◌then◌else◌, u64_mod,
}

pub record Json : Type 1 where
  pub Value : Type 0
  -- A default-constructed value, and `json::object()`.
  pub null : Value
  pub object : Value
  pub string : String → Value
  pub number_unsigned : ℕ → Value
  pub array : List Value → Value
  -- `j[key] = v` turns null into an object first.
  pub assign : Value → String → Value → Value
  -- `find`, with `none` for `end()`; `none` also on what is no object.
  pub find : Value → String → Option Value
  pub is_object : Value → Bool
  pub is_null : Value → Bool
  -- `is_string` and `get<std::string>`, `is_number_unsigned` and `get<size_t>`, `is_array` and its
  -- elements.
  pub get_string : Value → Option String
  pub get_unsigned : Value → Option ℕ
  pub get_array : Value → Option (List Value)
  pub is_object-object : is_object object ≡ true
  pub find-object : (k : String) → find object k ≡ none
  pub assign-null : (k : String) (v : Value) → assign null k v ≡ assign object k v
  pub is_object-assign :
      (o : Value) (k : String) (v : Value) → is_object o ≡ true → is_object (assign o k v) ≡ true
  pub find-assign :
      (o : Value) (k j : String) (v : Value)
      → is_object o ≡ true
      → find (assign o k v) j ≡ (if k == j then some v else find o j)
  pub is_null-string : (s : String) → is_null (string s) ≡ false
  pub get_string-string : (s : String) → get_string (string s) ≡ some s
  pub get_unsigned-number : (n : ℕ) → n < u64_mod → get_unsigned (number_unsigned n) ≡ some n
  pub get_array-array : (xs : List Value) → get_array (array xs) ≡ some xs
