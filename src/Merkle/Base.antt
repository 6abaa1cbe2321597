-- ===== src/Merkle/Base.antt =====
-- depend/monad/category/mpt/compute.hpp: MerkleComputeBase, the commitment of a trie of fixed-length
-- keys. Each operation returns the internal state, the first `len` bytes of its buffer.
use nomad_mpt.Prelude.{
  ℕ, zero, suc, ◌+◌, ◌==◌, ltb, leb, if◌then◌else◌, not, Bool, true, false, Option, none, some,
  List, [], ◌∷◌, length, take,
}
use nomad_mpt.Result.{Result, ok, aborted, ◌>>=◌, check, ◌>>◌}
use nomad_mpt.Nibbles.{NibblesView, nibble_size, nibble, view, concat, view_of_nibbles}
use nomad_mpt.Rlp.{Span, encode_list, list_length}
use nomad_mpt.Merkle.{
  Keccak, TrieNode, ChildData, is_valid, to_node_reference, buffer, whole, encode_two_pieces,
  encode_empty_string, encode_16_children, encode_16_entries,
}

abbrev pub State : Type 0
State = List ℕ

-- An operation's result and the state behind it.
abbrev pub Run : Type 0
Run = Result (List ℕ × State)

unfoldable pub keccak_inplace_to_root_hash : Keccak → State → Result State
keccak_inplace_to_root_hash keccak256 state =
    check (leb (length state) 32) >> ok (if ltb (length state) 32 then keccak256 state else state)

abbrev pub max_branch_rlp_size : ℕ
max_branch_rlp_size = 532

-- The reference of the branch whose sixteen children `children` writes, with an empty value.
unfoldable pub branch_reference : Keccak → (Span → Result Span) → Result (List ℕ)
branch_reference keccak256 write_children =
    write_children (buffer max_branch_rlp_size) >>= encode_empty_string >>= (λ result.
      let concat_len = length result.passed in
      check (leb concat_len max_branch_rlp_size)
      >> (let rlp_len = list_length concat_len in
          check (leb rlp_len max_branch_rlp_size)
          >> (encode_list (buffer max_branch_rlp_size) result.passed
              >>= (λ rlp. ok (to_node_reference keccak256 (take rlp_len (whole rlp)))))))

-- The first child that is valid.
unfoldable pub find_valid : List ChildData → Option ChildData
find_valid [] = none
find_valid (c ∷ cs) = if is_valid c then some c else find_valid cs

-- `concat(branch, path)`, as a view
unfoldable pub path_behind : ℕ → NibblesView → Result NibblesView
path_behind branch path = elim (concat (nibble branch ∷ view path ∷ [])) [
  | none ↦ aborted
  | some n ↦ ok (view_of_nibbles n)
]

abbrev pub has_value : TrieNode → Bool
has_value n = elim n.value [ none ↦ false | some v ↦ true ]

abbrev pub has_path : TrieNode → Bool
has_path n = ltb 0 (nibble_size n.path)

-- `TComputeLeafData::compute(node)`, of the value and the intermediate data of the node
abbrev pub LeafData : Type 0
LeafData = List ℕ → List ℕ → List ℕ

-- A copy of what `compute_len` left in the state, which is reset, or the reference from the node.
unfoldable pub compute_branch : Keccak → State → TrieNode → Run
compute_branch keccak256 state n =
    check (ltb 0 (length n.entries))
    >> (if not (length state == 0)
        then ok (state, [])
        else (branch_reference keccak256 (encode_16_entries n) >>= λ reference. ok (reference, [])))

unfoldable pub compute : Keccak → LeafData → State → TrieNode → Run
compute keccak256 leaf_data state n = elim n.value [
  | some v ↦
      encode_two_pieces keccak256 n.path (leaf_data v n.intermediate) true
      >>= (λ reference. ok (reference, state))
  | none ↦
      check (ltb 1 (length n.entries))
      >> (if has_path n
          then (compute_branch keccak256 state n >>= (λ branch.
              encode_two_pieces keccak256 n.path branch.0 false
              >>= (λ reference. ok (reference, branch.1))))
          else compute_branch keccak256 state n)
]

-- The second piece for an only child: its leaf data, its branch, or the data of its entry.
unfoldable pub second_piece : Keccak → LeafData → State → ChildData → Run
second_piece keccak256 leaf_data state c = elim c.ptr.value [
  | some v ↦ ok (leaf_data v c.ptr.intermediate, state)
  | none ↦ if has_path c.ptr then compute_branch keccak256 state c.ptr else ok (c.hash, state)
]

-- The new state.
unfoldable pub compute_hash_with_extra_nibble_to_state_ :
    Keccak → LeafData → State → ChildData → Result State
compute_hash_with_extra_nibble_to_state_ keccak256 leaf_data state c =
    path_behind c.branch c.ptr.path >>= (λ path.
      second_piece keccak256 leaf_data state c
      >>= (λ second. encode_two_pieces keccak256 path second.0 (has_value c.ptr)))

-- The number of bits of the mask, from branch `i` on, with the rounds that are left.
unfoldable pub popcount : (ℕ → Bool) → ℕ → ℕ → ℕ
popcount mask zero i = 0
popcount mask (suc k) i = (if mask i then 1 else 0) + popcount mask k (i + 1)

unfoldable pub has_single_bit : (ℕ → Bool) → Bool
has_single_bit mask = popcount mask 16 0 == 1

-- The length of the intermediate data, and the new state.
unfoldable pub compute_len :
    Keccak → LeafData → State → List ChildData → (ℕ → Bool) → Option (List ℕ) → Result (ℕ × State)
compute_len keccak256 leaf_data state children mask value = elim value [
  | none ↦ ok (0, state)
  | some v ↦
      (if has_single_bit mask
        then elim (find_valid children) [
          | none ↦ aborted
          | some c ↦ compute_hash_with_extra_nibble_to_state_ keccak256 leaf_data state c
        ]
        else branch_reference keccak256 (encode_16_children children))
      >>= (λ state'. keccak_inplace_to_root_hash keccak256 state' >>= (λ hash. ok (32, hash)))
]
