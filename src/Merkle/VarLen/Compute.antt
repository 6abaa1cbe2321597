-- ===== src/Merkle/VarLen/Compute.antt =====
-- VarLenMerkleCompute::compute gives the reference of the trie that the node stands for.
use nomad_mpt.Prelude.{
  ℕ, ◌≤◌, ◌<◌, ◌^◌, ◌≡◌, refl, ap, ◌∙◌, arith, ltb, lt→ltb, ltb→lt, ◌==◌, if◌then◌else◌, not,
  Bool-cases, true, false, inl, inr, none, some, List, [], ◌∷◌, length,
}
use nomad_mpt.Result.{ok, ◌>>=◌}
use nomad_mpt.Nibbles.{nibble_size, data_size}
use nomad_mpt.Nibbles.Sequence.{IsView, nibbles, length-run, bytes_of}
use nomad_mpt.Merkle.{Keccak, TrieNode, to_node_reference, encode_two_pieces}
use nomad_mpt.Merkle.Spec.{
  str, encode, capped, pair, hex_prefix, Trie, leaf, branch, Subtries, item_of, reference,
}
use nomad_mpt.Merkle.Base.{State, has_path}
use nomad_mpt.Merkle.Reference.{IsHash}
use nomad_mpt.Merkle.Pieces.{encode_two_pieces-leaf, encode_two_pieces-extension}
use nomad_mpt.Merkle.Branch.{entries_for, reference-eq}
use nomad_mpt.Merkle.Compute.{behind_path-pair}
use nomad_mpt.Merkle.VarLen.{Processor, var_len_compute, var_len_compute_branch}
use nomad_mpt.Merkle.VarLen.Value.{value_of, HasRoom, var_len_compute_branch_run}

-- The trie that a node stands for, given those of its entries.
unfoldable pub denoted : Processor → Subtries → TrieNode → Trie
denoted process ts n =
    if length n.entries == 0
    then leaf (nibbles n.path) (value_of process n.value)
    else branch (nibbles n.path) ts (value_of process n.value)

-- The node's path fits into 32 bytes and its entries are the references of the subtries. A node with
-- no entry has a value that is not empty. A node with entries and a path has no value, and the reference of
-- its branch is its intermediate data.
pub record Commits (keccak256 : Keccak) (process : Processor) (ts : Subtries) (n : TrieNode)
    : Type 0 where
  pub viewed : IsView n.path
  pub fits : data_size n.path ≤ 32
  pub room : HasRoom process n.value
  pub committed : n.entries ≡ entries_for keccak256 ts
  pub leaf_value : length n.entries ≡ 0 → (v : List ℕ) × (n.value ≡ some v) × (0 < length v)
  pub extended :
      0 < length n.entries
      → 0 < nibble_size n.path
      → (n.value ≡ none)
        × (n.intermediate ≡ reference keccak256 (branch [] ts []))
        × (0 < length n.intermediate)

module _ (keccak256 : Keccak) (process : Processor) (n : TrieNode) (state : State) where
  pub leaf_step :
      (v : List ℕ)
      → n.value ≡ some v
      → (length n.entries == 0) ≡ true
      → var_len_compute keccak256 process state n ≡ (
          encode_two_pieces keccak256 n.path (process v) true
          >>= (λ reference. ok (reference, state)))
  unfolding var_len_compute
  leaf_step v is e = rw (e, is)

  extension_step :
      (bytes : List ℕ)
      → n.value ≡ none
      → n.intermediate ≡ bytes
      → 0 < length bytes
      → (length n.entries == 0) ≡ false
      → has_path n ≡ true
      → var_len_compute keccak256 process state n
        ≡ (encode_two_pieces keccak256 n.path bytes false >>= (λ reference. ok (reference, state)))
  unfolding var_len_compute
  extension_step bytes is known some_byte e path =
      let full : ltb 0 (length n.intermediate) ≡ true = rw known (lt→ltb _ _ some_byte) in
      rw (e, path, full, known, is)

  branch_step :
      (length n.entries == 0) ≡ false
      → has_path n ≡ false
      → var_len_compute keccak256 process state n ≡ var_len_compute_branch keccak256 process state n
  unfolding var_len_compute
  branch_step e path = rw (e, path)

module _ (keccak256 : Keccak) (hash : IsHash keccak256) (process : Processor) where
  leaf_run :
      (n : TrieNode) (ts : Subtries) (v : List ℕ)
      → Commits keccak256 process ts n
      → (length n.entries == 0) ≡ true
      → n.value ≡ some v
      → 0 < length v
      → var_len_compute keccak256 process [] n
        ≡ ok (reference keccak256 (leaf (nibbles n.path) (value_of process n.value)), [])
  unfolding item_of
  leaf_run n ts v c e is some_byte =
      let full : not (length v == 0) ≡ true = ground arith in
      let same : value_of process n.value ≡ process v = ap (value_of process) is ∙ rw full in
      let small : length (process v) < 2 ^ 32 = omega (arith, ap length same, c.room.1) in
      leaf_step keccak256 process n [] v is e
      ∙ rw (
        encode_two_pieces-leaf keccak256 n.path c.viewed c.fits (process v) small,
        same,
        reference-eq keccak256 hash (leaf (nibbles n.path) (process v)),
      )

  extension_run :
      (n : TrieNode) (ts : Subtries)
      → Commits keccak256 process ts n
      → (length n.entries == 0) ≡ false
      → has_path n ≡ true
      → var_len_compute keccak256 process [] n
        ≡ ok (reference keccak256 (branch (nibbles n.path) ts (value_of process n.value)), [])
  extension_run n ts c e path =
      let (is, known, some_byte) = c.extended (ground arith) (ltb→lt _ _ path) in
      let b = branch [] ts [] in
      let below = known ∙ reference-eq keccak256 hash b in
      let size = length-run (bytes_of n.path.buffer) n.path.begin_nibble (nibble_size n.path) in
      let no_value : value_of process n.value ≡ [] = ap (value_of process) is in
      extension_step keccak256 process n []
        (to_node_reference keccak256 (encode (item_of keccak256 b))) is below
        (omega (arith, ap length below, some_byte)) e path
      ∙ rw (
        encode_two_pieces-extension keccak256 n.path c.viewed c.fits hash (item_of keccak256 b),
        no_value,
        reference-eq keccak256 hash (branch (nibbles n.path) ts []),
        extended (nibbles n.path) ts (omega (arith, size, ltb→lt _ _ path)),
      )
    where
      extended :
          (p : List ℕ) (us : Subtries)
          → 0 < length p
          → item_of keccak256 (branch p us [])
            ≡ pair
                (str (hex_prefix p false))
                (capped keccak256 (item_of keccak256 (branch [] us [])))
      extended p us pos = unfold item_of in behind_path-pair keccak256 p _ pos

  branch_run :
      (n : TrieNode) (ts : Subtries)
      → Commits keccak256 process ts n
      → (length n.entries == 0) ≡ false
      → has_path n ≡ false
      → var_len_compute keccak256 process [] n
        ≡ ok (reference keccak256 (branch (nibbles n.path) ts (value_of process n.value)), [])
  branch_run n ts c e path =
      let size = length-run (bytes_of n.path.buffer) n.path.begin_nibble (nibble_size n.path) in
      let empty : length (nibbles n.path) ≡ 0 = ground (arith, size) in
      branch_step keccak256 process n [] e path
      ∙ var_len_compute_branch_run keccak256 hash process n ts c.committed (ground arith) c.room
      ∙ rw (nil (nibbles n.path) empty)
    where
      nil : (p : List ℕ) → length p ≡ 0 → p ≡ []
      nil [] e = refl
      nil (x ∷ p) e = absurd (omega arith)

  -- With no state left, compute gives the reference of the trie that the node stands for, where the path fits
  -- into 32 bytes, there is room for the value, and the entries are the references of the subtries: a
  -- node with no entry has a value that is not empty, and a node with entries and a path has no value,
  -- and the reference of its branch as its intermediate data.
  pub var_len_compute_lem :
      (n : TrieNode) (ts : Subtries)
      → Commits keccak256 process ts n
      → var_len_compute keccak256 process [] n ≡ ok (reference keccak256 (denoted process ts n), [])
  unfolding denoted
  var_len_compute_lem n ts c = elim (Bool-cases (length n.entries == 0)) [
    | inl e ↦
        let (v, is, some_byte) = c.leaf_value (ground arith) in
        rw e (leaf_run n ts v c e is some_byte)
    | inr e ↦ rw e (elim (Bool-cases (has_path n)) [
      | inl path ↦ extension_run n ts c e path
      | inr path ↦ branch_run n ts c e path
    ])
  ]
