-- ===== src/Ws/Json/Objects.antt =====
-- JSON objects by their fields.
use text.Mathlib.Text.{◌==◌}
use rtl.Base.{◌≡◌, ap, ◌∙◌, String, true, Option, none, some, List, [], ◌∷◌, if◌then◌else◌}
use rtl.Ws.Json.{Json}

module _ (json : Json) where
  open json use {Value, object, assign, find, is_object}

  -- A `json` from an initializer list of pairs; the first of two equal keys stays.
  unfoldable pub initializer : List (String × Value) → Value
  initializer [] = object
  initializer ((k, v) ∷ fs) = assign (initializer fs) k v

  -- What such an object has at a key.
  abbrev pub first : String → List (String × Value) → Option Value
  first j [] = none
  first j ((k, v) ∷ fs) = if k == j then some v else first j fs

  pub is_object-initializer : (fs : List (String × Value)) → is_object (initializer fs) ≡ true
  unfolding initializer
  is_object-initializer [] = json.is_object-object
  is_object-initializer ((k, v) ∷ fs) =
      json.is_object-assign (initializer fs) k v (is_object-initializer fs)

  pub find-initializer :
      (fs : List (String × Value)) (j : String) → find (initializer fs) j ≡ first j fs
  unfolding initializer
  find-initializer [] j = json.find-object j
  find-initializer ((k, v) ∷ fs) j =
      json.find-assign (initializer fs) k j v (is_object-initializer fs)
      ∙ ap (λ r. if k == j then some v else r) (find-initializer fs j)
