-- ===== src/Ws/Message/RoundTrip.antt =====
-- Reading back what `message_to_json` wrote.
use rtl.Base.{◌≡◌, refl, ap, sym, ◌∙◌, String, Option, none, some, List, [], ◌∷◌}
use rtl.Ws.Json.{Json}
use rtl.Ws.Json.Objects.{initializer, is_object-initializer, find-initializer}
use rtl.Ws.Message.{
  JsonMessage, assign_error, message_to_json, read_string, read_string_field, read_error,
  read_value, json_to_message,
}

module _ (json : Json) where
  open json use {Value, object, string, assign, find, is_object}

  abbrev error_field : Option String → List (String × Value) → List (String × Value)
  error_field none fs = fs
  error_field (some e) fs = ("error", string e) ∷ fs

  -- The fields before the error.
  abbrev head_fields : JsonMessage json → List (String × Value)
  head_fields m =
      ("version", string m.version)
      ∷ ("sender", string m.sender)
      ∷ ("type", string m.type)
      ∷ ("room", string m.room)
      ∷ ("ts", string m.ts)
      ∷ ("kind", string m.kind)
      ∷ ("correlation_id", string m.correlation_id)
      ∷ ("id", string m.id)
      ∷ []

  abbrev after_id : JsonMessage json → Value → Value
  after_id m j =
      let j = assign j "correlation_id" (string m.correlation_id) in
      let j = assign j "kind" (string m.kind) in
      let j = assign j "ts" (string m.ts) in
      let j = assign j "room" (string m.room) in
      let j = assign j "type" (string m.type) in
      let j = assign j "sender" (string m.sender) in assign j "version" (string m.version)

  abbrev ended : JsonMessage json → Value → Value
  ended m j = assign (assign j "payload" m.payload) "meta" m.meta

  abbrev fields : JsonMessage json → List (String × Value)
  fields m = ("meta", m.meta) ∷ ("payload", m.payload) ∷ error_field m.error (head_fields m)

  assign_error-written :
      (e : Option String) (fs : List (String × Value))
      → assign_error json e (initializer json fs) ≡ initializer json (error_field e fs)
  unfolding assign_error initializer
  assign_error-written none fs = refl
  assign_error-written (some e) fs = refl

  message_to_json-written :
      (m : JsonMessage json) → message_to_json json m ≡ initializer json (fields m)
  unfolding message_to_json initializer
  message_to_json-written m =
      ap (λ j. ended m (assign_error json m.error (after_id m j))) (json.assign-null _ _)
      ∙ ap (ended m) (assign_error-written m.error (head_fields m))

  json_to_message-written :
      (m : JsonMessage json) (e : Option String)
      → m.error ≡ e
      → json_to_message json (initializer json (fields m)) ≡ some m
  unfolding json_to_message read_string_field read_string read_error read_value
  json_to_message-written m none h =
      simp (is_object-initializer json, find-initializer json, json.get_string-string, h)
        (ap (λ x. some (record m { error = x })) (sym h))
  json_to_message-written m (some e) h =
      simp
        (
          is_object-initializer json,
          find-initializer json,
          json.get_string-string,
          json.is_null-string,
          h,
        )
        (ap (λ x. some (record m { error = x })) (sym h))

  -- A message that is written to JSON and read back is the same message, with any payload, metadata
  -- and error.
  pub json_to_message-message_to_json :
      (m : JsonMessage json) → json_to_message json (message_to_json json m) ≡ some m
  json_to_message-message_to_json m =
      ap (json_to_message json) (message_to_json-written m) ∙ json_to_message-written m m.error refl
