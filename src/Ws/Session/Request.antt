-- ===== src/Ws/Session/Request.antt =====
-- ws/server/WsSession.hpp: what `HttpEndpoint` keeps of a request. `to_lower` is the function of Boost
-- that puts a header's name in lower case.
use Prim.Native.String.{len, slice}
use text.Mathlib.Text.{find?}
use rtl.Base.{◌≡◌, refl, ap, ◌∙◌, String, Option, none, some, List, [], ◌∷◌, arith, ◌+◌}
use rtl.Base.Maps.{or_else, entry_of, find, find-nil, emplace, find-emplace}

-- The endpoint and the query of a target, which begins after the first question mark.
unfoldable pub parse_raw_endpoint : String → String × String
parse_raw_endpoint raw_target = elim (find? raw_target "?") [
  | none ↦ (raw_target, "")
  | some pos ↦ (slice raw_target 0 pos, slice raw_target (pos + 1) (len raw_target))
]

module _ (to_lower : String → String) where
  -- The loop over the fields of a request, in their order.
  unfoldable pub copy_headers :
      List (String × String) → List (String × String) → List (String × String)
  copy_headers headers [] = headers
  copy_headers headers ((name, value) ∷ fields) =
      copy_headers (emplace headers (to_lower name) value) fields

  unfoldable pub header : List (String × String) → String → Option String
  header headers field = find headers (to_lower field)

  -- The value of the first field with a name, in any case.
  unfoldable pub first_value : List (String × String) → String → Option String
  first_value [] field = none
  first_value ((name, value) ∷ fields) field =
      or_else (entry_of (to_lower name) (to_lower field) value) (first_value fields field)

  or_else_assoc : (a b c : Option String) → or_else (or_else a b) c ≡ or_else a (or_else b c)
  or_else_assoc none b c = refl
  or_else_assoc (some x) b c = refl

  header-copy :
      (headers fields : List (String × String)) (field : String)
      → header (copy_headers headers fields) field
        ≡ or_else (header headers field) (first_value fields field)
  unfolding header copy_headers first_value
  header-copy headers [] field = ground arith
  header-copy headers ((name, value) ∷ fields) field =
      header-copy (emplace headers (to_lower name) value) fields field
      ∙ ap (λ o. or_else o (first_value fields field))
          (find-emplace headers (to_lower name) value (to_lower field))
      ∙ or_else_assoc (find headers (to_lower field)) _ _

  -- A header of a request is looked up without regard to case, and is the first of its name.
  pub header-copy_headers :
      (fields : List (String × String)) (field : String)
      → header (copy_headers [] fields) field ≡ first_value fields field
  unfolding header
  header-copy_headers fields field =
      header-copy [] fields field
      ∙ ap (λ o. or_else o (first_value fields field)) (find-nil {A = String} (to_lower field))
