-- ===== src/Merkle/VarLen/Runs.antt =====
-- The commitments of a trie of variable length at small tries.
use nomad_mpt.Prelude.{
  ℕ, ◌<◌, ◌≡◌, refl, subst, arith, none, some, List, [], ◌∷◌, ◌==◌, length, if◌then◌else◌,
}
use nomad_mpt.Result.{ok, aborted}
use nomad_mpt.Nibbles.{nibble_size, data_size}
use nomad_mpt.Rlp.{string_length, list_length, length_length, countl_zero}
use nomad_mpt.Merkle.{ChildData, TrieNode, is_valid}
use nomad_mpt.Merkle.Spec.{Trie, Subtries, no_subtrie, subtrie, reference, root_hash}
use nomad_mpt.Merkle.Base.{popcount, find_valid}
use nomad_mpt.Merkle.Children.{entries_of, IsAscending}
use nomad_mpt.Merkle.Branch.{entries_for, entries_for-IsSmall}
use nomad_mpt.Merkle.Runs.{constant_hash, constant_hash-IsHash, path-IsView, small_leaf, mask}
use nomad_mpt.Merkle.VarLen.{Processor, calc_rlp_max_size, var_len_compute, root_compute_len}
use nomad_mpt.Merkle.VarLen.Value.{HasRoom, value_of}
use nomad_mpt.Merkle.VarLen.Compute.{Commits, denoted, var_len_compute_lem}
use nomad_mpt.Merkle.VarLen.Root.{OnlyChild, root_of}
use nomad_mpt.Merkle.VarLen.RootHash.{root_compute_len_lem}

-- NoopProcessor
abbrev noop : Processor
noop v = v

HasRoom-some : HasRoom noop (some (0x61 ∷ []))
unfolding calc_rlp_max_size string_length list_length length_length countl_zero
HasRoom-some = (omega arith, omega arith)

HasRoom-none : HasRoom noop none
unfolding calc_rlp_max_size string_length list_length length_length countl_zero
HasRoom-none = (omega arith, omega arith)

small_leaf-Commits : Commits constant_hash noop no_subtrie small_leaf
small_leaf-Commits = record {
  viewed = path-IsView;
  fits = unfold data_size in omega arith;
  room = HasRoom-some;
  committed = refl;
  leaf_value = λ e. (0x61 ∷ [], refl, omega arith);
  extended = λ h p. absurd (omega arith);
}

abbrev leaf_trie : Trie
leaf_trie = denoted noop no_subtrie small_leaf

-- A branch with two leaves and a value.
abbrev two_subtries : Subtries
two_subtries = subtrie 3 leaf_trie (subtrie 12 leaf_trie no_subtrie)

abbrev small_branch : TrieNode
small_branch = record {
  path = record { buffer = none; begin_nibble = 0; end_nibble = 0 };
  value = some (0x61 ∷ []);
  entries = entries_for constant_hash two_subtries;
  intermediate = [];
}

small_branch-Commits : Commits constant_hash noop two_subtries small_branch
small_branch-Commits = record {
  viewed = record {
    first = omega arith;
    ordered = omega arith;
    bounded = omega arith;
    held = (refl, refl);
  };
  fits = unfold data_size in omega arith;
  room = HasRoom-some;
  committed = refl;
  leaf_value = λ e. absurd (omega arith);
  extended = λ h p. absurd (no_nibble p);
}
  where
    no_nibble : 0 < nibble_size small_branch.path → ⊥
    no_nibble p = unfold nibble_size in omega (arith, p)

var_len_compute_lem_example :
    var_len_compute constant_hash noop [] small_branch
    ≡ ok (reference constant_hash (denoted noop two_subtries small_branch), [])
var_len_compute_lem_example =
    var_len_compute_lem constant_hash constant_hash-IsHash noop small_branch two_subtries
      small_branch-Commits

abbrev leaf_child : ChildData
leaf_child = record { branch = 3; hash = reference constant_hash leaf_trie; ptr = small_leaf }

abbrev only_child : List ChildData
only_child = leaf_child ∷ []

abbrev subtries : Subtries
subtries = subtrie 3 leaf_trie no_subtrie

only_child-OnlyChild :
    (b : ℕ) (t : Trie) (c : ChildData)
    → subtries ≡ subtrie b t no_subtrie
    → find_valid only_child ≡ some c
    → OnlyChild constant_hash noop t c
unfolding find_valid is_valid
only_child-OnlyChild b t c e found =
    let child : leaf_child ≡ c = cc in
    let trie : leaf_trie ≡ t = cc in
    let here : OnlyChild constant_hash noop leaf_trie leaf_child = record {
      below = no_subtrie;
      commits = small_leaf-Commits;
      denotes = refl;
      short = unfold nibble_size in omega arith;
      no_value = λ h. absurd (omega arith);
      bare = λ h p. absurd (omega arith);
    } in
    subst (λ (t' : Trie). OnlyChild constant_hash noop t' c) trie
      (subst (λ (c' : ChildData). OnlyChild constant_hash noop leaf_trie c') child here)

only_child-IsAscending : IsAscending 0 (entries_of only_child)
unfolding is_valid
only_child-IsAscending = (
  omega arith,
  omega arith,
  (entries_for-IsSmall constant_hash constant_hash-IsHash subtries).0,
  tt,
)

root_compute_len_lem_example : root_compute_len constant_hash noop [] only_child mask none ≡ (
    if length (entries_of only_child) == 0
    then aborted
    else ok (32, root_hash constant_hash (root_of subtries (value_of noop none))))
root_compute_len_lem_example =
    root_compute_len_lem constant_hash constant_hash-IsHash noop only_child subtries mask none
      only_child-IsAscending (unfold is_valid in refl) (unfold popcount is_valid in refl)
      HasRoom-none only_child-OnlyChild
