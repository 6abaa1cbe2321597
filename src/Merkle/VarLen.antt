-- ===== src/Merkle/VarLen.antt =====
-- depend/monad/category/mpt/compute.hpp: VarLenMerkleCompute and RootVarLenMerkleCompute, the
-- commitment of a trie whose keys have different lengths. `process` is LeafDataProcessor.
pub mod Value
pub mod Compute
pub mod Root
pub mod RootHash
pub mod Runs
use nomad_mpt.Prelude.{
  ℕ, suc, ◌+◌, ◌*◌, ◌==◌, ltb, leb, if◌then◌else◌, not, Bool, true, false, ◌&&◌, Option, none, some,
  List, [], ◌∷◌, ◌++◌, length, take,
}
use nomad_mpt.Result.{Result, ok, aborted, ◌>>=◌, check, ◌>>◌}
use nomad_mpt.Nibbles.{NibblesView, nibble_size}
use nomad_mpt.Rlp.{Span, encode_string, encode_list, list_length}
use nomad_mpt.Merkle.{
  Keccak, TrieNode, ChildData, to_node_reference, buffer, whole, encode_two_pieces,
  encode_empty_string, encode_16_children, encode_16_entries,
}
use nomad_mpt.Merkle.Base.{
  State, Run, keccak_inplace_to_root_hash, find_valid, path_behind, has_value, has_path,
  has_single_bit, popcount,
}

abbrev pub Processor : Type 0
Processor = List ℕ → List ℕ

unfoldable pub calc_rlp_max_size : ℕ → ℕ
calc_rlp_max_size leaf_data_size = list_length (list_length 32 * 16 + list_length leaf_data_size)

-- A value with no bytes is encoded as no value.
unfoldable pub put_value : Processor → Option (List ℕ) → Span → Result Span
put_value process value result = elim value [
  | none ↦ encode_empty_string result
  | some v ↦
      if not (length v == 0) then encode_string result (process v) else encode_empty_string result
]

abbrev pub size_or_zero : Option (List ℕ) → ℕ
size_or_zero none = 0
size_or_zero (some v) = length v

-- The reference of the branch whose sixteen children `write_children` writes, with its value.
unfoldable pub value_branch_reference :
    Keccak → Processor → (Span → Result Span) → Option (List ℕ) → Result (List ℕ)
value_branch_reference keccak256 process write_children value =
    write_children (buffer (calc_rlp_max_size (size_or_zero value)))
    >>= put_value process value
    >>= (λ result. encode_list (buffer (list_length (length result.passed))) result.passed)
    >>= (λ rlp. ok (to_node_reference keccak256 (whole rlp)))

unfoldable pub var_len_compute_branch : Keccak → Processor → State → TrieNode → Run
var_len_compute_branch keccak256 process state n =
    check (ltb 0 (length n.entries))
    >> (if not (length state == 0)
        then ok (state, [])
        else (value_branch_reference keccak256 process (encode_16_entries n) n.value
            >>= (λ reference. ok (reference, []))))

unfoldable pub do_compute_len :
    Keccak → Processor → List ChildData → Option (List ℕ) → Result (ℕ × State)
do_compute_len keccak256 process children value =
    value_branch_reference keccak256 process (encode_16_children children) value
    >>= (λ state'. ok (length state', state'))

unfoldable pub var_len_compute_len :
    Keccak
    → Processor
    → State
    → List ChildData
    → (ℕ → Bool)
    → NibblesView
    → Option (List ℕ)
    → Result (ℕ × State)
var_len_compute_len keccak256 process state children mask path value =
    check (not (popcount mask 16 0 == 0))
    >> (if nibble_size path == 0
        then ok (0, state)
        else do_compute_len keccak256 process children value)

unfoldable pub var_len_compute : Keccak → Processor → State → TrieNode → Run
var_len_compute keccak256 process state n =
    let as_leaf : Run = elim n.value [
      | none ↦ aborted
      | some v ↦
          encode_two_pieces keccak256 n.path (process v) true
          >>= (λ reference. ok (reference, state))
    ] in
    let as_extension =
      (check (ltb 0 (length n.intermediate))
        >> (encode_two_pieces keccak256 n.path n.intermediate (has_value n)
            >>= (λ reference. ok (reference, state)))) in
    if length n.entries == 0
    then as_leaf
    else if has_path n
    then as_extension
    else var_len_compute_branch keccak256 process state n

-- The second piece for an only child of the root.
unfoldable pub root_second_piece : Keccak → Processor → State → ChildData → Run
root_second_piece keccak256 process state c =
    let as_leaf : Run = elim c.ptr.value [ none ↦ aborted | some v ↦ ok (process v, state) ] in
    let as_branch =
      (check (not (has_path c.ptr)) >> var_len_compute_branch keccak256 process state c.ptr) in
    if ltb 0 (length c.ptr.entries)
    then (if ltb 0 (length c.ptr.intermediate) then ok (c.ptr.intermediate, state) else as_branch)
    else as_leaf

unfoldable pub root_extra_nibble : Keccak → Processor → State → ChildData → Result State
root_extra_nibble keccak256 process state c = path_behind c.branch c.ptr.path >>= (λ path.
    root_second_piece keccak256 process state c
    >>= (λ second. encode_two_pieces keccak256 path second.0 (has_value c.ptr)))

unfoldable pub root_compute_len :
    Keccak → Processor → State → List ChildData → (ℕ → Bool) → Option (List ℕ) → Result (ℕ × State)
root_compute_len keccak256 process state children mask value =
    check (not (popcount mask 16 0 == 0))
    >> ((if has_single_bit mask
          then elim (find_valid children) [
            | none ↦ aborted
            | some c ↦ root_extra_nibble keccak256 process state c
          ]
          else (do_compute_len keccak256 process children value >>= λ done. ok done.1))
        >>= (λ state'. keccak_inplace_to_root_hash keccak256 state' >>= (λ hash. ok (32, hash))))

-- RootVarLenMerkleCompute::compute
abbrev pub root_compute : State → TrieNode → Run
root_compute state n = ok ([], state)
