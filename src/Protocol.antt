-- ===== src/Protocol.antt =====
-- protocol/Request.h, protocol/I7580Message.cpp and protocol/I7580Protocol.cpp: messages as the bytes
-- of a structure, less its padding.
mod RoundTrip
mod Examples
use rtl.Base.{
  ℕ, suc, ◌+◌, Bool, true, false, not, ◌||◌, String, Option, none, some, List, [], ◌∷◌, ◌++◌, take,
  drop, length, ltb, ◌==◌, sub64, to_string, ◌<>◌, if◌then◌else◌,
}

-- A message behind the interface: its bytes, and the indices of those that are padding.
pub record IBaseMessage : Type 0 where
  pub bytes : List ℕ
  pub aligned_bytes : List ℕ

-- `std::set::contains`.
unfoldable pub contains : List ℕ → ℕ → Bool
contains [] i = false
contains (x ∷ xs) i = x == i || contains xs i

-- The layouts of the two structures, of 16 and of 76 bytes.
abbrev pub message_struct : List ℕ → IBaseMessage
message_struct bytes = record { bytes = bytes; aligned_bytes = 7 ∷ [] }

abbrev pub response_struct : List ℕ → IBaseMessage
response_struct bytes = record { bytes = bytes; aligned_bytes = 16 ∷ [] }

-- The loop of `setData` from an index on.
unfoldable pub meaningful : List ℕ → ℕ → List ℕ → List ℕ
unfolding contains
meaningful aligned i [] = []
meaningful aligned i (b ∷ bs) =
    let rest = meaningful aligned (suc i) bs in if contains aligned i then rest else b ∷ rest

-- The buffer of an `I7580Message` after `setData`, of a message that may be null.
unfoldable pub set_data : List ℕ → Option IBaseMessage → List ℕ
unfolding meaningful
set_data buffer none = buffer
set_data buffer (some msg) = meaningful msg.aligned_bytes 0 msg.bytes

-- `setData` of bytes and their number.
unfoldable pub set_bytes : List ℕ → List ℕ → List ℕ
set_bytes buffer data_buf = data_buf

-- `setData` of the structure with the layout of `message_struct`.
unfoldable pub set_message_struct : List ℕ → List ℕ → List ℕ
set_message_struct buffer bytes = take 7 bytes ++ take 8 (drop 8 bytes)

abbrev pub keep : ℕ → Option (List ℕ) → Option (List ℕ)
keep b none = none
keep b (some bs) = some (b ∷ bs)

-- The loop of `getStruct` from an index on: `source` is what is left of the buffer and its terminating
-- null. `none` is a read beyond that, which is undefined.
unfoldable pub fill : List ℕ → ℕ → List ℕ → List ℕ → Option (List ℕ)
unfolding contains
fill aligned i [] source = some []
fill aligned i (b ∷ bs) [] = elim (contains aligned i) [
  | true ↦ keep b (fill aligned (suc i) bs [])
  | false ↦ none
]
fill aligned i (b ∷ bs) (c ∷ cs) = elim (contains aligned i) [
  | true ↦ keep b (fill aligned (suc i) bs (c ∷ cs))
  | false ↦ keep c (fill aligned (suc i) bs cs)
]

-- How `getStruct` ends: its result, with the bytes of the message where that is true.
pub data GetStruct : Type 0 where
  refused undefined : GetStruct
  restored : List ℕ → GetStruct

abbrev pub restored_of : Option (List ℕ) → GetStruct
restored_of none = undefined
restored_of (some bytes) = restored bytes

-- `sizeof(msg->size())` is the 8 bytes of a `size_t`.
unfoldable pub get_struct : List ℕ → Option IBaseMessage → GetStruct
unfolding fill
get_struct buffer none = refused
get_struct buffer (some msg) =
    if length buffer == 0
    then refused
    else if ltb (length buffer) (sub64 8 (length msg.aligned_bytes))
    then refused
    else restored_of (fill msg.aligned_bytes 0 msg.bytes (buffer ++ 0 ∷ []))

-- `getMessageStruct` over the bytes of a new structure, whose size with its table of virtual functions
-- is 24; both copies go to the start.
unfoldable pub get_message_struct : List ℕ → List ℕ → Option (List ℕ)
get_message_struct fresh buffer =
    if length buffer == 0
    then none
    else if ltb (length buffer) (sub64 24 1)
    then none
    else let copied = take 7 buffer ++ drop 7 fresh in
      some (take 8 (drop 8 buffer) ++ drop 8 copied)

-- The serial channel, which is not code of this repository: whether it opens under a name, whether it
-- sends, and what it receives.
pub record Channel : Type 0 where
  pub init : String → Bool
  pub send_data : List ℕ → Bool
  pub get_data : Option (List ℕ)

module _ (channel : Channel) where
  abbrev pub port_name : ℕ → ℕ → String
  port_name com_port baudrate = (("\\\\.\\COM" <> to_string com_port) <> ";") <> to_string baudrate

  -- `m_initStatus` after the constructor.
  unfoldable pub init_channel : ℕ → ℕ → Bool
  init_channel com_port baudrate = channel.init (port_name com_port baudrate)

  unfoldable pub send_protocol_message : Bool → List ℕ → Bool
  send_protocol_message init_status buffer =
      if not init_status then false else if not (channel.send_data buffer) then false else true

  -- Whether a message was received, and the buffer of the message that was given.
  unfoldable pub listen_for_message : Bool → Option (List ℕ) → Bool × Option (List ℕ)
  listen_for_message init_status none = (false, none)
  listen_for_message init_status (some buffer) =
      if not init_status then (false, some buffer) else elim channel.get_data [
        | none ↦ (false, some buffer)
        | some received ↦ (true, some received)
      ]
