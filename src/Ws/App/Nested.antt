-- ===== src/Ws/App/Nested.antt =====
-- The handlers by endpoint and type of ws/server/WsApp.hpp, after one more is added.
use text.Mathlib.Text.{◌==◌ as str_eq}
use text.Mathlib.TextPositions.{eq_refl}
use rtl.Base.{
  ◌≡◌, inl, inr, false, ◌||◌, String, Option, none, some, List, [], if◌then◌else◌, arith,
  Bool-cases, Option-cases,
}
use rtl.Base.Maps.{
  or_else, find, contains, emplace, modify, entry_of, find-there, find-emplace, find-nil,
  find-modify,
}
use rtl.Ws.App.{with_submap, has_type}

module _ {Handler : Type 0} where
  abbrev pub find_type : List (String × List (String × Handler)) → String → String → Option Handler
  find_type m endpoint type = elim (find m endpoint) [ none ↦ none | some types ↦ find types type ]

  pub find-with_submap :
      (m : List (String × List (String × Handler))) (e endpoint : String)
      → find (with_submap m e) endpoint ≡ or_else (find m endpoint) (entry_of e endpoint [])
  find-with_submap m e endpoint = elim (Bool-cases (contains m e)) [
    | inl there ↦ let kept = find-there m e [] endpoint there in ground arith
    | inr new ↦ let added = find-emplace m e [] endpoint in ground arith
  ]

  -- The map after `add_message_handler`, of names that are not empty.
  abbrev pub with_type :
      List (String × List (String × Handler))
      → String
      → String
      → Handler
      → List (String × List (String × Handler))
  with_type m e t h =
      if has_type (with_submap m e) e t
      then with_submap m e
      else modify (with_submap m e) e (λ types. emplace types t h)

  pub contains-with_type :
      (m : List (String × List (String × Handler))) (e t : String) (h : Handler)
      → (endpoint : String)
      → contains (with_type m e t h) endpoint ≡ (contains m endpoint || str_eq e endpoint)
  unfolding contains
  contains-with_type m e t h endpoint =
      let there = find-with_submap m e endpoint in
      let changed = find-modify (with_submap m e) e (λ types. emplace types t h) endpoint in
      elim (Option-cases (find m endpoint)) [
        | inl new ↦ ground arith
        | inr (types, found) ↦ ground arith
      ]

  -- The submap of the endpoint that was named.
  pub find_type-with_type :
      (m : List (String × List (String × Handler))) (e t : String) (h : Handler)
      → (type : String)
      → find_type (with_type m e t h) e type ≡ or_else (find_type m e type) (entry_of t type h)
  unfolding contains
  find_type-with_type m e t h type =
      let there = find-with_submap m e e in
      let changed = find-modify (with_submap m e) e (λ types. emplace types t h) e in
      let self = eq_refl e in
      elim (Option-cases (find m e)) [
        | inl new ↦
            let first = find-emplace [] t h type in
            let nothing = find-nil {A = Handler} type in
            let neither = find-nil {A = Handler} t in ground arith
        | inr (types, found) ↦
            let added = find-emplace types t h type in
            elim (Bool-cases (contains types t)) [
              | inl old ↦ let kept = find-there types t h type old in ground arith
              | inr new ↦ ground arith
            ]
      ]

  pub find_type-other :
      (m : List (String × List (String × Handler))) (e t : String) (h : Handler)
      → (endpoint type : String) → str_eq e endpoint ≡ false
      → find_type (with_type m e t h) endpoint type ≡ find_type m endpoint type
  find_type-other m e t h endpoint type other =
      let there = find-with_submap m e endpoint in
      let changed = find-modify (with_submap m e) e (λ types. emplace types t h) endpoint in
      elim (Option-cases (find m endpoint)) [
        | inl new ↦ ground arith
        | inr (types, found) ↦ ground arith
      ]
