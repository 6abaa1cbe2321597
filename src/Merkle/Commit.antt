-- ===== src/Merkle/Commit.antt =====
-- depend/monad/category/mpt/node.cpp, trie.cpp: how the commitments of nodes are put together when a
-- trie of fixed-length keys is built from the leaves up.
pub mod Spec
pub mod Mask
pub mod Children
pub mod Laws
pub mod Runs
use nomad_mpt.Prelude.{
  ℕ, ◌==◌, not, ◌&&◌, ltb, if◌then◌else◌, Bool, true, false, Option, none, some, List, [], ◌∷◌,
  length, replicate,
}
use nomad_mpt.Result.{Result, ok, aborted, ◌>>=◌, check, ◌>>◌}
use nomad_mpt.Nibbles.{NibblesView, view, nibble, concat, view_of_nibbles}
use nomad_mpt.Merkle.{Keccak, ChildEntry, TrieNode, ChildData, child_data_view, is_valid}
use nomad_mpt.Merkle.Base.{
  State, LeafData, compute_len, compute_branch, compute, find_valid, popcount,
}
use nomad_mpt.Upsert.Base.{is_none}
use nomad_mpt.Merkle.Children.{entries_of}

-- A node that is still to be made: its path, its value and what hangs below it.
mutual
  pub data Tree : Type 0 where
    tree : (path : NibblesView) (value : Option (List ℕ)) (subtrees : Subtrees) → Tree

  pub data Subtrees : Type 0 where
    no_tree : Subtrees
    more : (branch : ℕ) → Tree → Subtrees → Subtrees

-- The bits of the mask.
unfoldable pub mask_of : List ChildEntry → ℕ → Bool
mask_of entries i = elim (child_data_view i entries) [ none ↦ false | some hash ↦ true ]

-- `make_node`, with room for `data_size` bytes of its own data
abbrev pub make_node : List ChildData → NibblesView → Option (List ℕ) → ℕ → TrieNode
make_node children path value data_size = record {
  path = path;
  value = value;
  entries = entries_of children;
  intermediate = replicate data_size 0;
}

-- `create_node_with_children`: the node, and the state of the commitment
unfoldable pub create_node_with_children :
    Keccak
    → LeafData
    → State
    → (ℕ → Bool)
    → List ChildData
    → NibblesView
    → Option (List ℕ)
    → Result (TrieNode × State)
create_node_with_children keccak256 leaf_data state mask children path value =
    check (not (popcount mask 16 0 == 0))
    >> (compute_len keccak256 leaf_data state children mask value >>= (λ sized.
        let n = make_node children path value sized.0 in
        if sized.0 == 0
        then ok (n, sized.1)
        else (compute_branch keccak256 sized.1 n
            >>= (λ branch. ok (record n { intermediate = branch.0 }, branch.1)))))

-- The only child with the path of its parent and its branch before its own.
unfoldable pub coalesce : State → List ChildData → NibblesView → Result (TrieNode × State)
coalesce state children path = elim (find_valid children) [
  | none ↦ aborted
  | some c ↦ elim (concat (view path ∷ nibble c.branch ∷ view c.ptr.path ∷ [])) [
    | none ↦ aborted
    | some joined ↦ ok (record c.ptr { path = view_of_nibbles joined }, state)
  ]
]

-- `create_node_from_children_if_any` for a node that is there: where neither child nor value is, the
-- source returns a null pointer.
unfoldable pub create_node :
    Keccak
    → LeafData
    → State
    → (ℕ → Bool)
    → List ChildData
    → NibblesView
    → Option (List ℕ)
    → Result (TrieNode × State)
create_node keccak256 leaf_data state mask children path value =
    let number_of_children = popcount mask 16 0 in
    if number_of_children == 0
    then elim value [ none ↦ aborted | some v ↦ ok (make_node [] path (some v) 0, state) ]
    else if number_of_children == 1 && is_none value
    then coalesce state children path
    else create_node_with_children keccak256 leaf_data state mask children path value

-- `ChildData::finalize`
unfoldable pub finalize : Keccak → LeafData → State → ℕ → TrieNode → Result (ChildData × State)
finalize keccak256 leaf_data state branch n =
    compute keccak256 leaf_data state n
    >>= (λ done. ok (record { branch = branch; hash = done.0; ptr = n }, done.1))

-- Every subtree is made and finalized in the order of the branches, then the node is made.
unfoldable mutual
  unfolding create_node finalize

  pub commit : Keccak → LeafData → State → Tree → Result (TrieNode × State)
  commit keccak256 leaf_data state (tree path value subtrees) =
      commit_all keccak256 leaf_data state subtrees >>= (λ below.
        create_node keccak256 leaf_data below.1 (mask_of (entries_of below.0)) below.0 path value)

  pub commit_all : Keccak → LeafData → State → Subtrees → Result (List ChildData × State)
  commit_all keccak256 leaf_data state no_tree = ok ([], state)
  commit_all keccak256 leaf_data state (more branch t ts) =
      commit keccak256 leaf_data state t >>= (λ made.
        finalize keccak256 leaf_data made.1 branch made.0 >>= (λ child.
          commit_all keccak256 leaf_data child.1 ts >>= (λ rest. ok (child.0 ∷ rest.0, rest.1))))
