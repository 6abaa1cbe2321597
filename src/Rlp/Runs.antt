-- ===== src/Rlp/Runs.antt =====
-- Runs of the encoder, and the theorems at a string of 56 bytes.
use nomad_mpt.Prelude.{ℕ, ◌≡◌, refl, arith, some, List, [], ◌∷◌, ◌++◌, length, replicate}
use nomad_mpt.Result.{ok}
use nomad_mpt.Rlp.{
  Span, assign, store, subspan, countl_zero, big_endian, length_length, encode_length,
  string_length, encode_string, list_length, encode_list,
}
use nomad_mpt.Rlp.Decode.{string, list, decode}
use nomad_mpt.Rlp.Spans.{behind}
use nomad_mpt.Rlp.Laws.{encode_string_lem, encode_list_lem}

abbrev payload : List ℕ
payload = replicate 60 7

abbrev room : Span
room = record { passed = []; left = replicate 70 0 }

dog_run :
    encode_string room (0x64 ∷ 0x6f ∷ 0x67 ∷ [])
    ≡ ok (record { passed = 0x83 ∷ 0x64 ∷ 0x6f ∷ 0x67 ∷ []; left = replicate 66 0 })
unfolding encode_string assign store subspan
dog_run = refl

-- Of the eight bytes that `encode_length` stores only one is passed.
long_run :
    encode_string room (replicate 56 7)
    ≡ ok (record { passed = 0xb8 ∷ 56 ∷ replicate 56 7; left = replicate 12 0 })
unfolding encode_string assign store subspan encode_length length_length countl_zero big_endian
long_run = refl

encode_string_lem_example :
    (bytes : List ℕ) × (encode_string room (replicate 56 7) ≡ ok (behind room bytes))
    × (length bytes ≡ string_length (replicate 56 7))
    × ((rest : List ℕ) → decode (bytes ++ rest) ≡ some (string (replicate 56 7), rest))
unfolding string_length length_length countl_zero
encode_string_lem_example = encode_string_lem room (replicate 56 7) (omega arith) (omega arith)

encode_list_lem_example :
    (bytes : List ℕ) × (encode_list room payload ≡ ok (behind room bytes))
    × (length bytes ≡ list_length (length payload))
    × ((rest : List ℕ) → decode (bytes ++ rest) ≡ some (list payload, rest))
unfolding list_length length_length countl_zero
encode_list_lem_example = encode_list_lem room payload (omega arith) (omega arith)
