-- ===== src/CompactEncode.antt =====
-- depend/monad/category/mpt/merkle/compact_encode.hpp: a path as bytes, with a flag for a leaf.
pub mod Laws
pub mod Pack
pub mod Runs
use nomad_mpt.Prelude.{
  ℕ, zero, suc, ◌+◌, ◌-◌, ◌/◌, ◌%◌, ◌==◌, if◌then◌else◌, set, take, Bool, Option, none, some, List,
}
use nomad_mpt.Nibbles.{NibblesView, nibble_size, get, set_nibble}

unfoldable pub compact_encode_len : ℕ → ℕ → ℕ
compact_encode_len si ei = (ei - si) / 2 + 1

-- The loop from nibble `i` on, with the rounds that are left; `none` is a failed assertion of `get`.
unfoldable pub encode_loop : NibblesView → ℕ → ℕ → ℕ → List ℕ → Option (List ℕ)
encode_loop v zero i res_ci res = some res
encode_loop v (suc k) i res_ci res = elim (get v i) [
  | none ↦ none
  | some x ↦ encode_loop v k (i + 1) (res_ci + 1) (set_nibble res res_ci x)
]

abbrev pub first_byte : Bool → ℕ
first_byte terminating = if terminating then 32 else 0

-- The bits that `|=` adds are none of those that are set, so it is a sum. The result is the first
-- bytes of the buffer.
unfoldable pub compact_encode : List ℕ → NibblesView → Bool → Option (List ℕ)
compact_encode res nibbles terminating =
    let size = nibble_size nibbles in
    let written : Option (List ℕ) =
      if size % 2 == 0
      then encode_loop nibbles size 0 2 (set res 0 (first_byte terminating))
      else elim (get nibbles 0) [
        | none ↦ none
        | some x ↦ encode_loop nibbles (size - 1) 1 2 (set res 0 (first_byte terminating + 16 + x))
      ] in
    elim written [ none ↦ none | some d ↦ some (take (if size == 0 then 1 else size / 2 + 1) d) ]
