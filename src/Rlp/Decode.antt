-- ===== src/Rlp/Decode.antt =====
-- A reader of RLP written from its definition, independent of the encoder: an item is a string or a
-- list, and what follows it is given back.
use nomad_mpt.Prelude.{
  ℕ, ◌+◌, ◌-◌, ◌*◌, leb, if◌then◌else◌, Option, none, some, List, [], ◌∷◌, length, take, drop,
}

pub data Item : Type 0 where
  string : (bytes : List ℕ) → Item
  list : (payload : List ℕ) → Item

-- The number with these base-256 digits behind `n`.
unfoldable pub from_digits : ℕ → List ℕ → ℕ
from_digits n [] = n
from_digits n (b ∷ bs) = from_digits (n * 256 + b) bs

unfoldable pub payload_of : (List ℕ → Item) → ℕ → List ℕ → Option (Item × List ℕ)
payload_of make n r = if leb n (length r) then some (make (take n r), drop n r) else none

unfoldable pub long_payload_of : (List ℕ → Item) → ℕ → List ℕ → Option (Item × List ℕ)
long_payload_of make k r =
    if leb k (length r) then payload_of make (from_digits 0 (take k r)) (drop k r) else none

unfoldable pub decode : List ℕ → Option (Item × List ℕ)
decode [] = none
decode (b ∷ r) =
    if leb b 127
    then some (string (b ∷ []), r)
    else if leb b 183
    then payload_of string (b - 128) r
    else if leb b 191
    then long_payload_of string (b - 183) r
    else if leb b 247
    then payload_of list (b - 192) r
    else long_payload_of list (b - 247) r
