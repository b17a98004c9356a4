-- ===== src/Protocol/Examples.antt =====
-- Messages of the protocol on concrete inputs.
use rtl.Base.{replicate, set, ℕ, ◌≡◌, refl, none, some, List, [], ◌∷◌, arith, sub64}
use rtl.Protocol.{
  message_struct, response_struct, contains, meaningful, set_data, set_message_struct, restored,
  get_struct, get_message_struct,
}
use rtl.Protocol.RoundTrip.{with_layout, merged, get_struct-set_data}

abbrev ones : List ℕ
ones = 1 ∷ 1 ∷ 1 ∷ 1 ∷ 1 ∷ 1 ∷ 1 ∷ 9 ∷ 1 ∷ 1 ∷ 1 ∷ 1 ∷ 1 ∷ 1 ∷ 1 ∷ 1 ∷ []

abbrev zeros : List ℕ
zeros = 0 ∷ 0 ∷ 0 ∷ 0 ∷ 0 ∷ 0 ∷ 0 ∷ 0 ∷ 0 ∷ 0 ∷ 0 ∷ 0 ∷ 0 ∷ 0 ∷ 0 ∷ 0 ∷ []

get_struct-set_data_example :
    get_struct (set_data [] (with_layout (7 ∷ []) ones)) (with_layout (7 ∷ []) zeros)
    ≡ restored (1 ∷ 1 ∷ 1 ∷ 1 ∷ 1 ∷ 1 ∷ 1 ∷ 0 ∷ 1 ∷ 1 ∷ 1 ∷ 1 ∷ 1 ∷ 1 ∷ 1 ∷ 1 ∷ [])
unfolding merged contains set_data meaningful sub64
get_struct-set_data_example =
    get_struct-set_data [] ones zeros (7 ∷ []) refl (omega arith) (omega arith)

-- Both ways to set a message give the same bytes.
set_message_struct_test : set_message_struct [] ones ≡ set_data [] (some (message_struct ones))
unfolding set_message_struct set_data meaningful contains
set_message_struct_test = refl

-- The first byte of `diameter_min` of a response is marked as padding, and is not sent.
diameter_min_test :
    set_data [] (some (response_struct (set (replicate 76 0) 16 7)))
    ≡ set_data [] (some (response_struct (replicate 76 0)))
unfolding set_data meaningful contains
diameter_min_test = refl

-- What was set is too short for `getMessageStruct`.
get_message_struct_test : get_message_struct zeros (set_message_struct [] ones) ≡ none
unfolding get_message_struct set_message_struct sub64
get_message_struct_test = refl
