-- ===== src/Merkle/Compute.antt =====
-- MerkleComputeBase::compute gives the reference of the trie that the node stands for.
use nomad_mpt.Prelude.{
  ℕ, ◌≤◌, ◌<◌, ◌^◌, ◌≡◌, refl, ◌∙◌, arith, ltb, lt→ltb, ltb→lt, if◌then◌else◌, Bool-cases,
  Option-cases, false, inl, inr, none, some, List, [], ◌∷◌, length,
}
use nomad_mpt.Result.{ok, ◌>>=◌, check, ◌>>◌}
use nomad_mpt.Nibbles.{nibble_size, data_size}
use nomad_mpt.Nibbles.Sequence.{IsView, nibbles, length-run, bytes_of}
use nomad_mpt.Merkle.{Keccak, TrieNode, encode_two_pieces}
use nomad_mpt.Merkle.Spec.{
  Rlp, str, capped, pair, hex_prefix, behind_path, Trie, leaf, branch, Subtries, item_of, reference,
}
use nomad_mpt.Merkle.Base.{compute_branch, compute, LeafData, State, has_path}
use nomad_mpt.Merkle.Reference.{IsHash}
use nomad_mpt.Merkle.Pieces.{encode_two_pieces-leaf, encode_two_pieces-extension}
use nomad_mpt.Merkle.Branch.{entries_for, reference-eq, branch_item, compute_branch_run}

-- The trie that a node stands for, given those of its entries: a node with a value is a leaf, whatever
-- hangs below it is part of the leaf's data.
unfoldable pub denoted : LeafData → Subtries → TrieNode → Trie
denoted leaf_data ts n = elim n.value [
  | some v ↦ leaf (nibbles n.path) (leaf_data v n.intermediate)
  | none ↦ branch (nibbles n.path) ts []
]

-- The node's path fits into 32 bytes, its entries are the references of the subtries, and a node with
-- no value has at least two of them.
pub record Commits (keccak256 : Keccak) (ts : Subtries) (n : TrieNode) : Type 0 where
  pub viewed : IsView n.path
  pub fits : data_size n.path ≤ 32
  pub committed : n.entries ≡ entries_for keccak256 ts
  pub branches : n.value ≡ none → 1 < length n.entries

pub behind_path-empty :
    (keccak256 : Keccak) (p : List ℕ) (i : Rlp) → length p ≡ 0 → behind_path keccak256 p i ≡ i
behind_path-empty keccak256 [] i e = refl
behind_path-empty keccak256 (x ∷ p) i e = absurd (omega arith)

pub behind_path-pair :
    (keccak256 : Keccak) (p : List ℕ) (i : Rlp)
    → 0 < length p
    → behind_path keccak256 p i ≡ pair (str (hex_prefix p false)) (capped keccak256 i)
behind_path-pair keccak256 [] i e = absurd (omega arith)
behind_path-pair keccak256 (x ∷ p) i e = refl

module _ (keccak256 : Keccak) (hash : IsHash keccak256) (leaf_data : LeafData) where
  -- The item of a branch behind a path.
  pub item_of-branch :
      (p : List ℕ) (ts : Subtries)
      → item_of keccak256 (branch p ts []) ≡ behind_path keccak256 p (branch_item keccak256 hash ts)
  unfolding item_of
  item_of-branch p ts = refl

  compute_leaf :
      (n : TrieNode) (state : State) (v : List ℕ)
      → IsView n.path
      → data_size n.path ≤ 32
      → n.value ≡ some v
      → length (leaf_data v n.intermediate) < 2 ^ 32
      → compute keccak256 leaf_data state n
        ≡ ok (reference keccak256 (leaf (nibbles n.path) (leaf_data v n.intermediate)), state)
  unfolding compute item_of
  compute_leaf n state v viewed fits e small = rw (
    e,
    encode_two_pieces-leaf keccak256 n.path viewed fits (leaf_data v n.intermediate) small,
    reference-eq keccak256 hash (leaf (nibbles n.path) (leaf_data v n.intermediate)),
  )

  compute-none :
      (n : TrieNode) (state : State)
      → n.value ≡ none
      → compute keccak256 leaf_data state n ≡ (
          check (ltb 1 (length n.entries))
          >> (if has_path n
              then (compute_branch keccak256 state n >>= (λ below.
                  encode_two_pieces keccak256 n.path below.0 false
                  >>= (λ reference. ok (reference, below.1))))
              else compute_branch keccak256 state n))
  unfolding compute
  compute-none n state e = rw e

  compute_no_leaf :
      (n : TrieNode) (ts : Subtries)
      → Commits keccak256 ts n
      → n.value ≡ none
      → compute keccak256 leaf_data [] n
        ≡ ok (reference keccak256 (branch (nibbles n.path) ts []), [])
  compute_no_leaf n ts c e =
      let many = c.branches e in
      let below = compute_branch_run keccak256 hash n ts c.committed (omega (arith, many)) in
      let size = length-run (bytes_of n.path.buffer) n.path.begin_nibble (nibble_size n.path) in
      let i = branch_item keccak256 hash ts in
      elim (Bool-cases (has_path n)) [
        | inl path ↦
            compute-none n [] e
            ∙ rw (
              lt→ltb _ _ many,
              path,
              below,
              encode_two_pieces-extension keccak256 n.path c.viewed c.fits hash i,
              reference-eq keccak256 hash (branch (nibbles n.path) ts []),
              item_of-branch (nibbles n.path) ts,
              behind_path-pair keccak256 (nibbles n.path) i (omega (arith, ltb→lt _ _ path, size)),
            )
        | inr no_path ↦
            let empty : length (nibbles n.path) ≡ 0 = ground (arith, size) in
            compute-none n [] e
            ∙ rw (
              lt→ltb _ _ many,
              no_path,
              below,
              reference-eq keccak256 hash (branch (nibbles n.path) ts []),
              item_of-branch (nibbles n.path) ts,
              behind_path-empty keccak256 (nibbles n.path) i empty,
            )
      ]

  -- With no state left, compute gives the reference of the trie that the node stands for.
  pub compute_lem :
      (n : TrieNode) (ts : Subtries)
      → Commits keccak256 ts n
      → ((v : List ℕ) → n.value ≡ some v → length (leaf_data v n.intermediate) < 2 ^ 32)
      → compute keccak256 leaf_data [] n ≡ ok (reference keccak256 (denoted leaf_data ts n), [])
  compute_lem n ts c small = elim (Option-cases n.value) [
    | inl e ↦
        let trie : denoted leaf_data ts n ≡ branch (nibbles n.path) ts [] = denoted_none n ts e in
        rw trie (compute_no_leaf n ts c e)
    | inr (v, e) ↦
        let trie = denoted_some n ts v e in
        rw trie (compute_leaf n [] v c.viewed c.fits e (small v e))
  ]
    where
      denoted_none :
          (n : TrieNode) (ts : Subtries)
          → n.value ≡ none
          → denoted leaf_data ts n ≡ branch (nibbles n.path) ts []
      denoted_none n ts e = unfold denoted in rw e

      denoted_some :
          (n : TrieNode) (ts : Subtries) (v : List ℕ)
          → n.value ≡ some v
          → denoted leaf_data ts n ≡ leaf (nibbles n.path) (leaf_data v n.intermediate)
      denoted_some n ts v e = unfold denoted in rw e
