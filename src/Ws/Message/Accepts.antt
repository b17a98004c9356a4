-- ===== src/Ws/Message/Accepts.antt =====
-- Which JSON values `json_to_message` accepts.
use rtl.Base.{
  ◌≡◌, refl, ap, ◌∙◌, String, Bool, true, false, ◌&&◌, Option, none, some, has_value, arith,
  if◌then◌else◌,
}
use rtl.Base.Partial.{◌>>=◌, ◌>>◌, guard}
use rtl.Ws.Json.{Json}
use rtl.Ws.Message.{read_string, read_string_field, read_error, json_to_message}

-- A step that may return early, and then the rest.
has_value->>= :
    {A B : Type 0} (o : Option A) (f : A → Option B) (b : Bool)
    → ((a : A) → has_value (f a) ≡ b)
    → has_value (o >>= f) ≡ (has_value o && b)
has_value->>= none f b h = refl
has_value->>= (some a) f b h = h a

and-true : (b : Bool) → (b && true) ≡ b
and-true true = refl
and-true false = refl

has_value-guard :
    {B : Type 0} (b : Bool) (k : Option B) (c : Bool)
    → has_value k ≡ c
    → has_value (guard b >> k) ≡ (b && c)
has_value-guard true k c h = h
has_value-guard false k c h = refl

module _ (json : Json) where
  open json use {Value, find, is_object, is_null, get_string}

  -- A key that is missing or has a text.
  abbrev pub text_or_missing : Option Value → Bool
  text_or_missing none = true
  text_or_missing (some v) = has_value (get_string v)

  -- The error may be null, too.
  abbrev pub text_null_or_missing : Option Value → Bool
  text_null_or_missing none = true
  text_null_or_missing (some v) = if is_null v then true else has_value (get_string v)

  has_value-read_string :
      (o : Option Value) (t : String) → has_value (read_string json o t) ≡ text_or_missing o
  unfolding read_string
  has_value-read_string none t = refl
  has_value-read_string (some v) t = refl

  has_value-read_error : (o : Option Value) → has_value (read_error json o) ≡ text_null_or_missing o
  unfolding read_error
  has_value-read_error none = refl
  has_value-read_error (some v) = ground arith

  read_then :
      {B : Type 0} (j : Value) (key target : String) (f : String → Option B) (b : Bool)
      → ((s : String) → has_value (f s) ≡ b)
      → has_value (read_string_field json j key target >>= f) ≡ (text_or_missing (find j key) && b)
  unfolding read_string_field
  read_then j key target f b h =
      has_value->>= (read_string_field json j key target) f b h
      ∙ ap (λ c. c && b) (has_value-read_string (find j key) target)

  error_last :
      {B : Type 0} (o : Option Value) (f : Option String → Option B)
      → ((e : Option String) → has_value (f e) ≡ true)
      → has_value (read_error json o >>= f) ≡ text_null_or_missing o
  error_last o f h =
      has_value->>= (read_error json o) f true h
      ∙ and-true (has_value (read_error json o))
      ∙ has_value-read_error o

  -- An object in which each text field is missing or a text, and the error may be null.
  abbrev pub is_message : Value → Bool
  is_message j =
      is_object j
      && (text_or_missing (find j "id")
          && (text_or_missing (find j "correlation_id")
              && (text_or_missing (find j "kind")
                  && (text_or_missing (find j "ts")
                      && (text_or_missing (find j "room")
                          && (text_or_missing (find j "type")
                              && (text_or_missing (find j "sender")
                                  && (text_or_missing (find j "version")
                                      && text_null_or_missing (find j "error")))))))))

  -- A JSON value is read as a message exactly if it is an object in which each of the eight text
  -- fields is missing or a text, and `error` is missing, null or a text; otherwise it is refused.
  pub json_to_message_accepts : (j : Value) → has_value (json_to_message json j) ≡ is_message j
  unfolding json_to_message
  json_to_message_accepts j = has_value-guard (is_object j) _ _ (
      read_then j "id" _ _ _ (λ id. read_then j "correlation_id" _ _ _ (λ cid.
        read_then j "kind" _ _ _ (λ kind. read_then j "ts" _ _ _ (λ ts.
          read_then j "room" _ _ _ (λ room. read_then j "type" _ _ _ (λ type.
            read_then j "sender" _ _ _ (λ sender.
              read_then j "version" _ _ _
                (λ version. error_last (find j "error") _ (λ e. refl))))))))))
