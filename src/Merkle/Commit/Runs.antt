-- ===== src/Merkle/Commit/Runs.antt =====
-- The commitment of a branch over a leaf and over a leaf with a subtrie of its own.
use nomad_mpt.Prelude.{ℕ, ◌≤◌, ◌<◌, ◌^◌, ◌≡◌, arith, none, some, List, [], ◌∷◌, length}
use nomad_mpt.Result.{ok, ◌>>=◌}
use nomad_mpt.Nibbles.{nibble_size, data_size}
use nomad_mpt.Merkle.{ChildData}
use nomad_mpt.Merkle.Spec.{reference}
use nomad_mpt.Merkle.Base.{LeafData}
use nomad_mpt.Merkle.Runs.{constant_hash, constant_hash-IsHash, path, path-IsView}
use nomad_mpt.Merkle.Commit.{Tree, tree, no_tree, more, commit, finalize}
use nomad_mpt.Merkle.Commit.Spec.{trie_of, IsTree}
use nomad_mpt.Merkle.Commit.Laws.{commit_lem}

-- A byte of the value before the hash of the storage.
abbrev first_and_root : LeafData
first_and_root v i = 0x61 ∷ i

abbrev slot : Tree
slot = tree path (some (0x62 ∷ [])) no_tree

abbrev accounts : Tree
accounts =
    tree path none
      (more 1 slot (more 4 (tree path (some (0x63 ∷ [])) (more 3 slot no_tree)) no_tree))

path_fits : data_size path ≤ 32
unfolding data_size
path_fits = omega arith

data_small : (i : List ℕ) → length i ≤ 32 → length (first_and_root [] i) < 2 ^ 32
data_small i h = omega arith

slot-IsTree : IsTree first_and_root slot
slot-IsTree = (path-IsView, path_fits, data_small, tt, tt)

accounts-IsTree : IsTree first_and_root accounts
unfolding nibble_size
accounts-IsTree = (
  path-IsView,
  path_fits,
  omega arith,
  (
    omega arith,
    omega arith,
    slot-IsTree,
    (
      omega arith,
      omega arith,
      (
        path-IsView,
        path_fits,
        data_small,
        omega arith,
        (omega arith, omega arith, slot-IsTree, tt),
      ),
      tt,
    ),
  ),
)

commit_lem_example :
    (c : ChildData) × ((commit constant_hash first_and_root [] accounts
        >>= (λ made. finalize constant_hash first_and_root made.1 0 made.0))
      ≡ ok (c, []))
    × (c.hash ≡ reference constant_hash (trie_of constant_hash first_and_root accounts))
commit_lem_example =
    commit_lem constant_hash constant_hash-IsHash first_and_root 0 accounts accounts-IsTree
