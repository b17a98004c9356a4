-- ===== src/Ws/App/Registered.antt =====
-- What an application of ws/server/WsApp.hpp does after any registrations.
use text.Mathlib.Text.{◌==◌ as str_eq}
use text.Mathlib.TextEquality.{eq_iff}
use text.Mathlib.TextPositions.{eq_refl}
use rtl.Base.{
  ◌≡◌, refl, ap, ◌∙◌, subst, inl, inr, Bool, false, not, ◌&&◌, ◌||◌, String, Option, none, some,
  List, [], ◌∷◌, if◌then◌else◌, arith, Bool-cases,
}
use rtl.Base.Maps.{or_else, is_some, find, contains, find-there, find-emplace, find-nil}
use rtl.Ws.App.Nested.{find_type, contains-with_type, find_type-with_type, find_type-other}
use rtl.Ws.App.{
  is_empty, RequestContext, WsApp, make_app, add_endpoint, add_message_handler, setup_accepting,
  Dispatch, calls, closes, ignores, setup_messaging, Registration, adds_endpoint,
  adds_message_handler, sets_middleware, step, run,
}

module _ {Handler : Type 0} where
  -- Whether a registration is one for the endpoint, and one that counts.
  abbrev pub names_endpoint : Registration Handler → String → Bool
  names_endpoint (adds_endpoint e (some h)) endpoint = not (is_empty e) && str_eq e endpoint
  names_endpoint (adds_message_handler e t (some h)) endpoint =
      not (is_empty e) && not (is_empty t) && str_eq e endpoint
  names_endpoint (adds_endpoint e none) endpoint = false
  names_endpoint (adds_message_handler e t none) endpoint = false
  names_endpoint (sets_middleware m) endpoint = false

  abbrev names_types : Registration Handler → String → Bool
  names_types (adds_message_handler e t (some h)) endpoint =
      not (is_empty e) && not (is_empty t) && str_eq e endpoint
  names_types (adds_message_handler e t none) endpoint = false
  names_types (adds_endpoint e h) endpoint = false
  names_types (sets_middleware m) endpoint = false

  abbrev for_endpoint : Registration Handler → String → Option Handler
  for_endpoint (adds_endpoint e (some h)) endpoint =
      if not (is_empty e) && str_eq e endpoint then some h else none
  for_endpoint (adds_endpoint e none) endpoint = none
  for_endpoint (adds_message_handler e t h) endpoint = none
  for_endpoint (sets_middleware m) endpoint = none

  abbrev for_type : Registration Handler → String → String → Option Handler
  for_type (adds_message_handler e t (some h)) endpoint type =
      if not (is_empty e) && not (is_empty t) && str_eq e endpoint && str_eq t type
      then some h
      else none
  for_type (adds_message_handler e t none) endpoint type = none
  for_type (adds_endpoint e h) endpoint type = none
  for_type (sets_middleware m) endpoint type = none

  -- Some registration is one for the endpoint.
  unfoldable pub any_for : (Registration Handler → Bool) → List (Registration Handler) → Bool
  any_for p [] = false
  any_for p (r ∷ rs) = p r || any_for p rs

  -- The handler of the first registration that has one.
  unfoldable pub first_for :
      (Registration Handler → Option Handler) → List (Registration Handler) → Option Handler
  first_for p [] = none
  first_for p (r ∷ rs) = or_else (p r) (first_for p rs)

  or_else_assoc : (a b c : Option Handler) → or_else (or_else a b) c ≡ or_else a (or_else b c)
  or_else_assoc none b c = refl
  or_else_assoc (some h) b c = refl

  step-endpoint :
      (app : WsApp Handler) (r : Registration Handler) (endpoint : String)
      → find (step app r).endp_hndl_map endpoint
        ≡ or_else (find app.endp_hndl_map endpoint) (for_endpoint r endpoint)
  unfolding step add_endpoint add_message_handler
  step-endpoint app (adds_endpoint e none) endpoint = ground arith
  step-endpoint app (adds_message_handler e t none) endpoint = ground arith
  step-endpoint app (sets_middleware m) endpoint = ground arith
  step-endpoint app (adds_message_handler e t (some h)) endpoint = ground arith
  step-endpoint app (adds_endpoint e (some h)) endpoint =
      elim (Bool-cases (contains app.endp_hndl_map e)) [
        | inl there ↦ let kept = find-there app.endp_hndl_map e h endpoint there in ground arith
        | inr new ↦ let added = find-emplace app.endp_hndl_map e h endpoint in ground arith
      ]

  step-types :
      (app : WsApp Handler) (r : Registration Handler) (endpoint : String)
      → contains (step app r).nested_hndl_map endpoint
        ≡ (contains app.nested_hndl_map endpoint || names_types r endpoint)
  unfolding step add_endpoint add_message_handler
  step-types app (adds_endpoint e none) endpoint = ground arith
  step-types app (adds_message_handler e t none) endpoint = ground arith
  step-types app (sets_middleware m) endpoint = ground arith
  step-types app (adds_endpoint e (some h)) endpoint = ground arith
  step-types app (adds_message_handler e t (some h)) endpoint =
      let added = contains-with_type app.nested_hndl_map e t h endpoint in ground arith

  step-type :
      (app : WsApp Handler) (r : Registration Handler) (endpoint type : String)
      → find_type (step app r).nested_hndl_map endpoint type
        ≡ or_else (find_type app.nested_hndl_map endpoint type) (for_type r endpoint type)
  unfolding step add_endpoint add_message_handler
  step-type app (adds_endpoint e none) endpoint type = ground arith
  step-type app (adds_message_handler e t none) endpoint type = ground arith
  step-type app (sets_middleware m) endpoint type = ground arith
  step-type app (adds_endpoint e (some h)) endpoint type = ground arith
  step-type app (adds_message_handler e t (some h)) endpoint type =
      elim (Bool-cases (str_eq e endpoint)) [
        | inl same ↦
            subst
              (λ i.
                find_type (step app (adds_message_handler e t (some h))).nested_hndl_map i type
                ≡ or_else (find_type app.nested_hndl_map i type)
                    (for_type (adds_message_handler e t (some h)) i type))
              ((eq_iff e endpoint).0 same)
              (let self = eq_refl e in
                let added = find_type-with_type app.nested_hndl_map e t h type in ground arith)
        | inr other ↦
            let kept = find_type-other app.nested_hndl_map e t h endpoint type other in ground arith
      ]

  run-endpoint :
      (app : WsApp Handler) (rs : List (Registration Handler)) (endpoint : String)
      → find (run app rs).endp_hndl_map endpoint
        ≡ or_else (find app.endp_hndl_map endpoint) (first_for (λ r. for_endpoint r endpoint) rs)
  unfolding run first_for
  run-endpoint app [] endpoint = ground arith
  run-endpoint app (r ∷ rs) endpoint =
      run-endpoint (step app r) rs endpoint
      ∙ ap (λ o. or_else o (first_for (λ q. for_endpoint q endpoint) rs))
          (step-endpoint app r endpoint)
      ∙ or_else_assoc (find app.endp_hndl_map endpoint) (for_endpoint r endpoint) _

  run-type :
      (app : WsApp Handler) (rs : List (Registration Handler)) (endpoint type : String)
      → find_type (run app rs).nested_hndl_map endpoint type
        ≡ or_else
            (find_type app.nested_hndl_map endpoint type)
            (first_for (λ r. for_type r endpoint type) rs)
  unfolding run first_for
  run-type app [] endpoint type = ground arith
  run-type app (r ∷ rs) endpoint type =
      run-type (step app r) rs endpoint type
      ∙ ap (λ o. or_else o (first_for (λ q. for_type q endpoint type) rs))
          (step-type app r endpoint type)
      ∙ or_else_assoc (find_type app.nested_hndl_map endpoint type) (for_type r endpoint type) _

  run-types :
      (app : WsApp Handler) (rs : List (Registration Handler)) (endpoint : String)
      → contains (run app rs).nested_hndl_map endpoint
        ≡ (contains app.nested_hndl_map endpoint || any_for (λ r. names_types r endpoint) rs)
  unfolding run any_for
  run-types app [] endpoint = ground arith
  run-types app (r ∷ rs) endpoint =
      let later = run-types (step app r) rs endpoint in
      let now = step-types app r endpoint in ground arith

  -- The handler that was registered first for an endpoint's messages of a type, or of no type.
  abbrev first_handler : List (Registration Handler) → String → String → Option Handler
  first_handler rs endpoint type =
      if is_empty type
      then first_for (λ r. for_endpoint r endpoint) rs
      else first_for (λ r. for_type r endpoint type) rs

  -- What is due to a message, by the registrations alone.
  abbrev due : List (Registration Handler) → String → String → Dispatch Handler
  due rs endpoint type = elim (first_handler rs endpoint type) [
    | some handler ↦ calls handler
    | none ↦
        if not (is_empty type) && any_for (λ r. names_types r endpoint) rs then ignores else closes
  ]

  -- After any registrations, a message calls the handler that was registered first for its endpoint
  -- and type: later ones for the same, and those with an empty name or handler, change nothing. If
  -- there is none, a message with a type is ignored where its endpoint has a handler for another
  -- type, and any other message closes the session.
  pub setup_messaging-run :
      (rs : List (Registration Handler)) (endpoint type : String)
      → setup_messaging (run make_app rs) endpoint type ≡ due rs endpoint type
  unfolding setup_messaging make_app contains
  setup_messaging-run rs endpoint type =
      let plain = run-endpoint make_app rs endpoint in
      let typed = run-type make_app rs endpoint type in
      let types = run-types make_app rs endpoint in
      let no_handler = find-nil {A = Handler} endpoint in
      let no_submap = find-nil {A = List (String × Handler)} endpoint in ground arith

  any_for-split :
      (rs : List (Registration Handler)) (endpoint : String)
      → any_for (λ r. names_endpoint r endpoint) rs ≡ (
          is_some (first_for (λ r. for_endpoint r endpoint) rs)
          || any_for (λ r. names_types r endpoint) rs)
  unfolding any_for first_for
  any_for-split [] endpoint = refl
  any_for-split (adds_endpoint e none ∷ rs) endpoint = any_for-split rs endpoint
  any_for-split (adds_message_handler e t none ∷ rs) endpoint = any_for-split rs endpoint
  any_for-split (sets_middleware m ∷ rs) endpoint = any_for-split rs endpoint
  any_for-split (adds_endpoint e (some h) ∷ rs) endpoint =
      let later = any_for-split rs endpoint in ground arith
  any_for-split (adds_message_handler e t (some h) ∷ rs) endpoint =
      let later = any_for-split rs endpoint in ground arith

  -- After any registrations, a session is accepted exactly if some handler was registered, with no
  -- name empty, for its endpoint.
  pub setup_accepting-run :
      (rs : List (Registration Handler)) (ctx : RequestContext)
      → (setup_accepting (run make_app rs) ctx).accept
        ≡ any_for (λ r. names_endpoint r ctx.endpoint) rs
  unfolding setup_accepting make_app contains
  setup_accepting-run rs ctx =
      let plain = run-endpoint make_app rs ctx.endpoint in
      let types = run-types make_app rs ctx.endpoint in
      let no_handler = find-nil {A = Handler} ctx.endpoint in
      let no_submap = find-nil {A = List (String × Handler)} ctx.endpoint in
      let split = any_for-split rs ctx.endpoint in ground arith
