-- ===== src/Ws/Message.antt =====
-- ws/server/WsProtocol.hpp: the messages of the protocol, and their reading from and writing to JSON.
pub mod RoundTrip
pub mod Accepts
use rtl.Base.{String, Bool, true, false, Option, none, some, if◌then◌else◌}
use rtl.Base.Partial.{◌>>=◌, ◌>>◌, guard}
use rtl.Ws.Json.{Json}

module _ (json : Json) where
  open json use {Value, null, object, string, assign, find, is_object, is_null, get_string}

  pub record JsonMessage : Type 0 where
    pub id : String
    pub correlation_id : String
    pub kind : String
    pub ts : String
    pub room : String
    pub type : String
    pub sender : String
    pub version : String
    pub error : Option String
    pub payload : Value
    pub meta : Value

  -- `JsonMessage{}`.
  abbrev pub default_message : JsonMessage
  default_message = record {
    id = "";
    correlation_id = "";
    kind = "event";
    ts = "";
    room = "";
    type = "";
    sender = "";
    version = "1";
    error = none;
    payload = object;
    meta = object;
  }

  -- The assignment under `if (msg.error.has_value())`.
  pub assign_error : Option String → Value → Value
  assign_error none j = j
  assign_error (some e) j = assign j "error" (string e)

  pub message_to_json : JsonMessage → Value
  unfolding assign_error
  message_to_json msg =
      let j = assign null "id" (string msg.id) in
      let j = assign j "correlation_id" (string msg.correlation_id) in
      let j = assign j "kind" (string msg.kind) in
      let j = assign j "ts" (string msg.ts) in
      let j = assign j "room" (string msg.room) in
      let j = assign j "type" (string msg.type) in
      let j = assign j "sender" (string msg.sender) in
      let j = assign j "version" (string msg.version) in
      let j = assign_error msg.error j in
      let j = assign j "payload" msg.payload in assign j "meta" msg.meta

  pub set_payload : JsonMessage → Value → JsonMessage
  set_payload msg payload = record msg { payload = payload }

  pub get_payload : JsonMessage → Option Value
  get_payload msg = some msg.payload

  -- What the lambda leaves in its target: the default if the key is missing, `none` for `false`.
  pub read_string : Option Value → String → Option String
  read_string none target = some target
  read_string (some v) target = get_string v

  pub read_string_field : Value → String → String → Option String
  unfolding read_string
  read_string_field j key target = read_string (find j key) target

  -- The error: null and a missing key give no error, and `none` refuses the message.
  pub read_error : Option Value → Option (Option String)
  read_error none = some none
  read_error (some v) =
      if is_null v then some none else elim (get_string v) [ none ↦ none | some e ↦ some (some e) ]

  -- `payload` and `meta`: an empty object if the key is missing.
  pub read_value : Option Value → Value
  read_value none = object
  read_value (some v) = v

  pub json_to_message : Value → Option JsonMessage
  unfolding read_string_field read_error read_value
  json_to_message j = do
    guard (is_object j)
    id ← read_string_field j "id" default_message.id
    correlation_id ← read_string_field j "correlation_id" default_message.correlation_id
    kind ← read_string_field j "kind" default_message.kind
    ts ← read_string_field j "ts" default_message.ts
    room ← read_string_field j "room" default_message.room
    type ← read_string_field j "type" default_message.type
    sender ← read_string_field j "sender" default_message.sender
    version ← read_string_field j "version" default_message.version
    error ← read_error (find j "error")
    some record {
      id = id;
      correlation_id = correlation_id;
      kind = kind;
      ts = ts;
      room = room;
      type = type;
      sender = sender;
      version = version;
      error = error;
      payload = read_value (find j "payload");
      meta = read_value (find j "meta");
    }

  -- `json::parse(text, nullptr, false)` is the library's, with `none` for a discarded value.
  pub string_to_message : (String → Option Value) → String → Option JsonMessage
  unfolding json_to_message
  string_to_message parse text = parse text >>= json_to_message
