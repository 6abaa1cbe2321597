-- ===== src/Merkle/VarLen/Value.antt =====
-- The branch of a trie of variable length, with the value that it may hold.
use nomad_mpt.Prelude.{
  ℕ, ◌+◌, ◌≤◌, ◌<◌, ◌^◌, ◌≡◌, refl, sym, ap, arith, lt→ltb, ◌==◌, if◌then◌else◌, not, Bool-cases,
  inl, inr, Option, none, some, List, [], ◌++◌, length, replicate, All, length-append, length-drop,
  length-replicate,
}
use nomad_mpt.Result.{Result, ok, ◌>>=◌}
use nomad_mpt.Rlp.{Span, string_length, encode_list, list_length}
use nomad_mpt.Rlp.Bytes.{
  string_bytes, list_bytes, length-string_bytes, length-list_bytes, string_length-le,
}
use nomad_mpt.Rlp.Spans.{behind}
use nomad_mpt.Rlp.Write.{encode_string_run, encode_list_run}
use nomad_mpt.Merkle.{
  Keccak, TrieNode, ChildData, to_node_reference, buffer, whole, encode_16_children,
  encode_16_entries,
}
use nomad_mpt.Merkle.Spec.{encode, branch, Subtries, item_of, reference}
use nomad_mpt.Merkle.Reference.{IsHash}
use nomad_mpt.Merkle.Children.{
  slots_bytes, IsSmall, length-slots_bytes, encode_empty_string_run, encode_16_entries_run,
  encode_16_children_run, entries_of, IsAscending, IsAscending-IsSmall,
}
use nomad_mpt.Merkle.Pieces.{whole_full}
use nomad_mpt.Merkle.Branch.{entries_for, entries_for-IsSmall, slots_bytes-slots, reference-eq}
use nomad_mpt.Merkle.VarLen.{
  Processor, calc_rlp_max_size, put_value, size_or_zero, value_branch_reference,
  var_len_compute_branch, do_compute_len,
}

-- The value in the branch: no bytes where there is none or where it is empty.
abbrev pub value_of : Processor → Option (List ℕ) → List ℕ
value_of process none = []
value_of process (some v) = if not (length v == 0) then process v else []

-- The processed value fits behind the sixteen children into the buffer that the code reserves.
abbrev pub HasRoom : Processor → Option (List ℕ) → Type 0
HasRoom process value =
    (528 + string_length (value_of process value) ≤ calc_rlp_max_size (size_or_zero value))
    × (length (value_of process value) < 2 ^ 32)

empty_string_length : string_length [] ≡ 1
unfolding string_length
empty_string_length = refl

put_value_run :
    (process : Processor) (value : Option (List ℕ)) (d : Span)
    → length (value_of process value) < 2 ^ 32
    → string_length (value_of process value) ≤ length d.left
    → put_value process value d ≡ ok (behind d (string_bytes (value_of process value)))
unfolding put_value
put_value_run process none d small room =
    encode_empty_string_run d (omega (arith, room, empty_string_length))
put_value_run process (some v) d small room = elim (Bool-cases (not (length v == 0))) [
  | inl e ↦ rw e (encode_string_run d (process v) (omega (arith, rw e at small)) (rw e at room))
  | inr e ↦ rw e (encode_empty_string_run d (omega (arith, rw e at room, empty_string_length)))
]

list_run :
    (keccak256 : Keccak) (s : List ℕ)
    → length s < 2 ^ 64
    → (encode_list (buffer (list_length (length s))) s
        >>= (λ rlp. ok (to_node_reference keccak256 (whole rlp))))
      ≡ ok (to_node_reference keccak256 (list_bytes s))
list_run keccak256 s fits =
    let n = list_length (length s) in
    rw (encode_list_run (buffer n) s fits (omega (arith, length-replicate {A = ℕ} n 0))) (
      ap (λ (w : List ℕ). ok (to_node_reference keccak256 w))
        (whole_full n (list_bytes s) (length-list_bytes s)))

value_branch_reference_run :
    (keccak256 : Keccak) (process : Processor) (write : Span → Result Span)
    (value : Option (List ℕ)) (bytes : List ℕ)
    → write (buffer (calc_rlp_max_size (size_or_zero value)))
      ≡ ok (behind (buffer (calc_rlp_max_size (size_or_zero value))) bytes)
    → length bytes ≤ 528
    → HasRoom process value
    → value_branch_reference keccak256 process write value
      ≡ ok (
          to_node_reference keccak256 (list_bytes (bytes ++ string_bytes (value_of process value))))
unfolding value_branch_reference
value_branch_reference_run keccak256 process write value bytes written few room =
    let n = calc_rlp_max_size (size_or_zero value) in
    let v = value_of process value in
    let d = behind (buffer n) bytes in
    let left : string_length v ≤ length d.left = omega (
      arith,
      length-drop (length bytes) (replicate {A = ℕ} n 0),
      length-replicate {A = ℕ} n 0,
      room.0,
    ) in
    let s = bytes ++ string_bytes v in
    let size = length-append bytes (string_bytes v) in
    let bound : length s < 2 ^ 64 =
      omega (arith, size, length-string_bytes v, string_length-le v, room.1) in
    rw (written, put_value_run process value d room.1 left) (list_run keccak256 s bound)

module _ (keccak256 : Keccak) (hash : IsHash keccak256) where
  value_branch_bytes :
      (ts : Subtries) (v : List ℕ)
      → to_node_reference keccak256
          (list_bytes (slots_bytes (entries_for keccak256 ts) 16 0 ++ string_bytes v))
        ≡ reference keccak256 (branch [] ts v)
  unfolding item_of encode
  value_branch_bytes ts v =
      rw (← slots_bytes-slots keccak256 hash ts v 16 0)
        (sym (reference-eq keccak256 hash (branch [] ts v)))

  -- With no state left, compute_branch gives the reference of the branch below the path.
  pub var_len_compute_branch_run :
      (process : Processor) (n : TrieNode) (ts : Subtries)
      → n.entries ≡ entries_for keccak256 ts
      → 0 < length n.entries
      → HasRoom process n.value
      → var_len_compute_branch keccak256 process [] n
        ≡ ok (reference keccak256 (branch [] ts (value_of process n.value)), [])
  unfolding var_len_compute_branch
  var_len_compute_branch_run process n ts same some_child room =
      let bytes = slots_bytes n.entries 16 0 in
      let small : All IsSmall n.entries = rw same (entries_for-IsSmall keccak256 hash ts) in
      let size = calc_rlp_max_size (size_or_zero n.value) in
      let fits : 528 ≤ length (buffer size).left =
        omega (arith, room.0, length-replicate {A = ℕ} size 0) in
      rw (
        lt→ltb _ _ some_child,
        value_branch_reference_run keccak256 process (encode_16_entries n) n.value bytes
            (encode_16_entries_run n (buffer size) small fits)
            (length-slots_bytes n.entries 16 0 small) room,
        same,
        value_branch_bytes ts (value_of process n.value),
      )

  -- compute_len leaves the reference of the branch in the state.
  pub do_compute_len_run :
      (process : Processor) (children : List ChildData) (ts : Subtries) (value : Option (List ℕ))
      → IsAscending 0 (entries_of children)
      → entries_of children ≡ entries_for keccak256 ts
      → HasRoom process value
      → do_compute_len keccak256 process children value
        ≡ ok (
          length (reference keccak256 (branch [] ts (value_of process value))),
          reference keccak256 (branch [] ts (value_of process value)),
        )
  unfolding do_compute_len
  do_compute_len_run process children ts value asc same room =
      let es = entries_of children in
      let bytes = slots_bytes es 16 0 in
      let small = IsAscending-IsSmall 0 es asc in
      let size = calc_rlp_max_size (size_or_zero value) in
      let fits : 528 ≤ length (buffer size).left =
        omega (arith, room.0, length-replicate {A = ℕ} size 0) in
      rw (
        value_branch_reference_run keccak256 process (encode_16_children children) value bytes
            (encode_16_children_run children (buffer size) asc fits)
            (length-slots_bytes es 16 0 small) room,
        same,
        value_branch_bytes ts (value_of process value),
      )
