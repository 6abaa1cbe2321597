-- ===== src/Merkle/Commit/Spec.antt =====
-- The trie of Ethereum that a tree stands for: a value with subtrees below it is a leaf whose data
-- holds the hash of their root.
use nomad_mpt.Prelude.{ℕ, ◌+◌, ◌≤◌, ◌<◌, ◌^◌, suc, none, some, List, [], length}
use nomad_mpt.Nibbles.{NibblesView, nibble_size, data_size}
use nomad_mpt.Nibbles.Sequence.{IsView, nibbles}
use nomad_mpt.Merkle.{Keccak}
use nomad_mpt.Merkle.Spec.{Trie, leaf, branch, Subtries, no_subtrie, subtrie, root_hash}
use nomad_mpt.Merkle.Base.{LeafData}
use nomad_mpt.Merkle.Root.{root_of}
use nomad_mpt.Merkle.Commit.{Tree, tree, Subtrees, no_tree, more}

abbrev pub path_of : Tree → NibblesView
path_of (tree path value subtrees) = path

-- The hash of the root below a value, if there is anything below it.
abbrev pub storage : Keccak → Subtries → List ℕ
storage keccak256 no_subtrie = []
storage keccak256 (subtrie b t ts) = root_hash keccak256 (root_of (subtrie b t ts))

unfoldable mutual
  pub trie_of : Keccak → LeafData → Tree → Trie
  trie_of keccak256 leaf_data (tree path none subtrees) =
      branch (nibbles path) (tries_of keccak256 leaf_data subtrees) []
  trie_of keccak256 leaf_data (tree path (some v) subtrees) =
      leaf (nibbles path) (leaf_data v (storage keccak256 (tries_of keccak256 leaf_data subtrees)))

  pub tries_of : Keccak → LeafData → Subtrees → Subtries
  tries_of keccak256 leaf_data no_tree = no_subtrie
  tries_of keccak256 leaf_data (more b t ts) =
      subtrie b (trie_of keccak256 leaf_data t) (tries_of keccak256 leaf_data ts)

abbrev pub number_of : Subtrees → ℕ
number_of no_tree = 0
number_of (more b t ts) = suc (number_of ts)

-- The path of an only subtree leaves room for one nibble more.
abbrev pub IsShort : Subtrees → Type 0
IsShort no_tree = Unit {0}
IsShort (more b t no_tree) = nibble_size (path_of t) < 64
IsShort (more b t (more c u ts)) = Unit {0}

-- Paths fit into 32 bytes, branches ascend, a node with no value has at least two subtrees, and the
-- data of a leaf, with a hash or without, is shorter than 2 ^ 32 bytes.
abbrev mutual
  pub IsTree : LeafData → Tree → Type 0
  IsTree leaf_data (tree path none subtrees) =
      IsView path × (data_size path ≤ 32) × (1 < number_of subtrees) × AreTrees leaf_data 0 subtrees
  IsTree leaf_data (tree path (some v) subtrees) =
      IsView path
      × (data_size path ≤ 32)
      × ((i : List ℕ) → length i ≤ 32 → length (leaf_data v i) < 2 ^ 32)
      × IsShort subtrees
      × AreTrees leaf_data 0 subtrees

  pub AreTrees : LeafData → ℕ → Subtrees → Type 0
  AreTrees leaf_data i no_tree = Unit {0}
  AreTrees leaf_data i (more b t ts) =
      (i ≤ b) × (b < 16) × IsTree leaf_data t × AreTrees leaf_data (b + 1) ts
